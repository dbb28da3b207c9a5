-- ===== src/Gateway/Reports.antt =====
-- src/gateway_msg.cpp: the texts that report the gateway and its devices. A text of these goes up by one
-- on the counter `msg_id`.
use rundo_dahua_sdk_edge.Common.{ℕ, suc, ◌+◌, ◌*◌, List, [], ◌∷◌, String, if◌then◌else◌}
use Prim.Native.String.{◌++◌}
use rundo_dahua_sdk_edge.Gateway.{Json, null, integer, text, array, object}
use rundo_dahua_sdk_edge.Gateway.Replies.{Texts, obj, arr}
use rundo_dahua_sdk_edge.Cameras.{Device}
use rundo_dahua_sdk_edge.Platforms.{Platform}

-- `data` of the two sign-in texts.
sign_data : Texts → String → String → Json
sign_data x key out = object (
    obj (
      ("id", integer 0)
      ∷ ("ip", text x.local_ip)
      ∷ ("port", integer 18082)
      ∷ ("protocol", text "DH-DEVICE_NET_SDK_V6")
      ∷ ("gatewayType", text "OTHER")
      ∷ (key, text out)
      ∷ []))

-- The members that the texts of the public queue begin with. `n` is `msg_id`, already incremented.
public_members : Texts → String → ℕ → List (String × Json) → Json
public_members x msg_type n rest = object (
    obj (
      ("serialNum", text x.media_server_id)
      ∷ ("msgType", text msg_type)
      ∷ ("msgId", text ("h_" ++ x.to_string n))
      ∷ ("time", text x.time)
      ∷ ("code", integer 0)
      ∷ rest))

-- `gateway_sign_in`, `gateway_heartbeat`, `gateway_re_sign_in`: the counter goes up by one, and the
-- text is made.
unfoldable pub gateway_sign_in : Texts → ℕ → String × ℕ
unfolding public_members sign_data
gateway_sign_in x n =
    let out = x.to_string (x.millis + 3 * 60 * 1000) in
    (
      x.write (
          public_members x "GATEWAY_SIGN_IN" (suc n)
            (("msg", text "SUCCESS") ∷ ("data", sign_data x "outTime" out) ∷ [])),
      suc n,
    )

unfoldable pub gateway_heartbeat : Texts → ℕ → String × ℕ
unfolding public_members
gateway_heartbeat x n =
    let until = x.to_string (x.millis + 1000 * x.heartbeat_timeout + 30 * 1000) in
    (
      x.write (
          public_members x "GATEWAY_HEARTBEAT" (suc n)
            (("error", text "false") ∷ ("data", text until) ∷ [])),
      suc n,
    )

unfoldable pub gateway_re_sign_in : Texts → ℕ → String × ℕ
unfolding public_members sign_data
gateway_re_sign_in x n =
    let out = x.to_string (x.millis + 1000) in
    (
      x.write (
          public_members x "GATEWAY_RE_SIGN_IN" (suc n)
            (("msg", text "SUCCESS") ∷ ("data", sign_data x "outtime" out) ∷ [])),
      suc n,
    )

-- `device_add`, step 1: the result of the login.
unfoldable pub device_add_result : Texts → Platform → String
device_add_result x p = x.write (
    object (
      obj (
        ("time", text x.time)
        ∷ ("serialNum", text x.media_server_id)
        ∷ ("msgType", text "DEVICE_ADD")
        ∷ ("msgId", text p.msg_id)
        ∷ ("code", integer p.login_results)
        ∷ ("msg", text p.login_err_msg)
        ∷ ("data", text p.device_id)
        ∷ [])))

-- `device_add`, step 2: the device's state. `AddMember` moves its value, so the time is null before
-- it is set, and again after it was added once.
unfoldable pub device_add_state : Texts → Platform → ℕ → String × ℕ
device_add_state x p n = (
  x.write (
      object (
        obj (
          ("serialNum", text x.media_server_id)
          ∷ ("msgType", text "DEVICE_SIGN_IN")
          ∷ ("msgId", text ("b_" ++ x.to_string (suc n)))
          ∷ ("time", null)
          ∷ ("code", integer 0)
          ∷ ("msg", text "SUCCESS")
          ∷ (
            "data",
            object (
                obj (
                  ("deviceId", text p.device_id)
                  ∷ ("lUserId", integer 4)
                  ∷ ("username", text p.username)
                  ∷ ("serialNumber", text "DS-7808N-R2(C)0820230227CCRRL33683189WCVU")
                  ∷ ("name", text "")
                  ∷ ("charset", text "GB2312")
                  ∷ ("ip", text p.ip)
                  ∷ ("port", integer p.port)
                  ∷ ("manufacturer", text "dh")
                  ∷ ("online", integer 1)
                  ∷ ("deviceType", integer 3)
                  ∷ ("deleted", integer 0)
                  ∷ ("password", text p.password)
                  ∷ ("createdAt", text x.time_t)
                  ∷ ("updatedAt", null)
                  ∷ [])),
          )
          ∷ []))),
  suc n,
)

-- `device_sign_in`, which nothing calls.
unfoldable pub device_sign_in : Texts → ℕ → String × ℕ
device_sign_in x n = (
  x.write (
      object (
        obj (
          ("serialNum", text x.media_server_id)
          ∷ ("msgType", text "DEVICE_SIGN_IN")
          ∷ ("msgId", text ("b_" ++ x.to_string (suc n)))
          ∷ ("time", text x.time)
          ∷ ("code", integer 0)
          ∷ ("msg", text "SUCCESS")
          ∷ (
            "data",
            object (
                obj (
                  ("id", integer 21043)
                  ∷ ("lUserId", integer 0)
                  ∷ ("username", text "admin")
                  ∷ ("serialNumber", text "DS-7808N-R2(C)0820230227CCRRL33683189WCVU")
                  ∷ ("name", text "test")
                  ∷ ("charset", text "GB2312")
                  ∷ ("ip", text "172.20.0.245")
                  ∷ ("port", integer 37777)
                  ∷ ("manufacturer", text "dh")
                  ∷ ("online", integer 1)
                  ∷ ("deviceType", integer 3)
                  ∷ ("deleted", integer 0)
                  ∷ ("password", text "rj123456")
                  ∷ ("createdAt", text x.time)
                  ∷ ("updatedAt", text x.time)
                  ∷ [])),
          )
          ∷ []))),
  suc n,
)

sync_entries : List Device → List Json
sync_entries [] = []
sync_entries (d ∷ ds) =
    object (
      obj (
        ("deviceId", text d.device_id)
        ∷ ("name", text d.name)
        ∷ ("manufacturer", text d.manufacturer)
        ∷ ("model", text d.model)
        ∷ ("firmware", text d.firmware)
        ∷ ("ip", text d.ip)
        ∷ ("port", integer d.port)
        ∷ ("online", integer (if d.online then 1 else 0))
        ∷ []))
    ∷ sync_entries ds

-- `device_sync`, which nothing calls. The object with the total is made and not added.
unfoldable pub device_sync : Texts → List Device → Platform → String
unfolding sync_entries
device_sync x ds p = x.write (
    object (
      obj (
        ("serialNum", text x.media_server_id)
        ∷ ("msgType", text "CHANNEL_SYNC")
        ∷ ("msgId", text p.msg_id)
        ∷ ("time", text x.time)
        ∷ ("code", integer 0)
        ∷ ("msg", text "SUCCESS")
        ∷ ("data", array (arr (sync_entries ds)))
        ∷ [])))
