-- ===== src/Gateway/Requests.antt =====
-- src/gateway_msg.cpp: the readers of single requests. `none` is a failed
-- assertion of rapidjson, which is asked for a member of what is no object.
use rundo_dahua_sdk_edge.Common.{Bool, true, false, ◌>>◌, ℕ, String, Option, none, some}
use rundo_dahua_sdk_edge.Gateway.{
  Json, Members, real, object, document, find_member, object_at, text_at, int_at, text_or,
}
use rundo_dahua_sdk_edge.Platforms.{Platform}

-- `pars_device_sync`, which `pars_device_delete_soft` only calls; its result is not used.
unfoldable pub pars_device_sync : (String → Option Json) → String → Platform → Platform
pars_device_sync parse json p = elim (document parse json) [
  | object ms ↦
      let q = record p { msg_id = text_or "msgId" ms p.msg_id } in
      elim (object_at "data" ms) [
        | none ↦ q
        | some data' ↦ record q { device_id = text_or "deviceId" data' p.device_id }
      ]
  | _ ↦ p
]

-- `pars_device_add`: nothing is required, and the device's id is not read.
unfoldable pub add_data : (String → ℕ) → Members → Platform → Platform
add_data atoi m p = record p {
  device_type = elim (int_at "deviceType" m) [ none ↦ p.device_type | some n ↦ n ];
  ip = text_or "ip" m p.ip;
  port = elim (text_at "port" m) [ none ↦ p.port | some s ↦ atoi s ];
  username = text_or "username" m p.username;
  password = text_or "password" m p.password;
}

unfoldable pub pars_device_add :
    (String → Option Json) → (String → ℕ) → String → Platform → Platform
unfolding add_data
pars_device_add parse atoi json p = elim (document parse json) [
  | object ms ↦
      (let q : Platform = elim (object_at "data" ms) [
        | none ↦ p
        | some d ↦ elim (object_at "dataMap" d) [ none ↦ p | some m ↦ add_data atoi m p ]
      ] in
        record q { msg_id = text_or "msgId" ms p.msg_id })
  | _ ↦ p
]

-- `pars_device_total_sync`
unfoldable pub pars_device_total_sync : (String → Option Json) → String → String
pars_device_total_sync parse json = elim (document parse json) [
  | object ms ↦ text_or "msgId" ms ""
  | _ ↦ ""
]

-- `pars_requst`, which nothing calls: it reads three members and writes none of its four texts.
unfoldable pub pars_request : (String → Option Json) → String → Option Bool
pars_request parse json = elim (parse json) [
  | none ↦ some false
  | some (object ms) ↦ (do int_at "code" ms; text_at "msgId" ms; text_at "msgType" ms; some true)
  | some _ ↦ none
]

-- `pars_channel_stop_play`: the key stays empty where the document names no stream.
unfoldable pub pars_channel_stop_play : (String → Option Json) → String → String
pars_channel_stop_play parse json = elim (document parse json) [
  | object ms ↦ elim (object_at "data" ms) [ none ↦ "" | some data' ↦ text_or "streamId" data' "" ]
  | _ ↦ ""
]

-- `pars_streamId`
unfoldable pub pars_stream_id : (String → Option Json) → String → Option String
pars_stream_id parse json = elim (parse json) [
  | none ↦ some ""
  | some (object ms) ↦ elim (object_at "data" ms) [
    | none ↦ some ""
    | some data' ↦ some (text_or "streamId" data' "")
  ]
  | some _ ↦ none
]

-- `pars_record_speed`: `to_float` is the `float` of a number for which `IsFloat` holds, and `old`
-- what the variable of the speed held.
unfoldable pub pars_record_speed :
    (String → Option Json) → (ℕ → Option ℕ) → ℕ → String → Option (ℕ × String)
pars_record_speed parse to_float old json =
    let speed_of : Members → ℕ = λ data'. elim (object_at "dataMap" data') [
      | none ↦ old
      | some m ↦ elim (find_member "speed" m) [
        | some (real n) ↦ elim (to_float n) [ none ↦ old | some f ↦ f ]
        | _ ↦ old
      ]
    ] in
    elim (parse json) [
      | none ↦ some (old, "")
      | some (object ms) ↦ elim (object_at "data" ms) [
        | none ↦ some (old, "")
        | some data' ↦ some (speed_of data', text_or "streamId" data' "")
      ]
      | some _ ↦ none
    ]
