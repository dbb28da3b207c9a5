-- ===== src/Gateway.antt =====
-- src/gateway_msg.cpp: what the gateway reads from the JSON texts of requests. rapidjson is a
-- parameter, `parse`, which gives the document, or `none` for a text that it cannot parse.
pub mod Requests
pub mod Channels
pub mod Media
pub mod Replies
pub mod Reports
mod Tests
use rundo_dahua_sdk_edge.Common.{
  ℕ, Bool, true, false, List, [], ◌∷◌, String, Option, none, some, str_eq, if◌then◌else◌,
}
use rundo_dahua_sdk_edge.Common.Dict
use rundo_dahua_sdk_edge.Common.Dict.{Dict}

-- A document. A number is an `integer`, by its 32-bit pattern, where `IsInt` holds, `real` where
-- `IsDouble` holds, and `big` otherwise.
mutual
  pub data Json : Type 0 where
    null : Json
    boolean : Bool → Json
    integer real big : ℕ → Json
    text : String → Json
    array : Items → Json
    object : Members → Json

  pub data Items : Type 0 where
    no_items : Items
    item : Json → Items → Items

  pub data Members : Type 0 where
    no_members : Members
    member : String → Json → Members → Members

-- A text that does not parse leaves the document null.
unfoldable pub document : (String → Option Json) → String → Json
document parse json = elim (parse json) [ none ↦ null | some d ↦ d ]

-- `FindMember`: the first member of that name.
unfoldable pub find_member : String → Members → Option Json
find_member key no_members = none
find_member key (member k v ms) =
    let rest = find_member key ms in if str_eq k key then some v else rest

-- `HasMember(key) && v[key].IsString()`, and the string.
unfoldable pub text_at : String → Members → Option String
text_at key ms = elim (find_member key ms) [ some (text s) ↦ some s | _ ↦ none ]

-- `HasMember(key) && v[key].IsObject()`, and the object.
unfoldable pub object_at : String → Members → Option Members
object_at key ms = elim (find_member key ms) [ some (object m) ↦ some m | _ ↦ none ]

-- `HasMember(key) && v[key].IsInt()`, and the number.
unfoldable pub int_at : String → Members → Option ℕ
int_at key ms = elim (find_member key ms) [ some (integer n) ↦ some n | _ ↦ none ]

-- `v[key].GetBool()`
unfoldable pub bool_at : String → Members → Option Bool
bool_at key ms = elim (find_member key ms) [ some (boolean b) ↦ some b | _ ↦ none ]

-- What a member's string replaces.
unfoldable pub text_or : String → Members → String → String
text_or key ms old = elim (text_at key ms) [ none ↦ old | some s ↦ s ]

-- `isMySerialNum`, for the `mediaServerId` of the configuration.
unfoldable pub is_my_serial_num : (String → Option Json) → String → String → Bool
is_my_serial_num parse media_server_id json = elim (document parse json) [
  | object ms ↦ elim (text_at "serialNum" ms) [ none ↦ false | some s ↦ str_eq media_server_id s ]
  | _ ↦ false
]

-- `msg_type_map`, with the numbers of `msg_type`.
abbrev pub msg_type_map : Dict ℕ
msg_type_map =
    ("GATEWAY_SIGN_IN", 1)
    ∷ ("DEVICE_ADD", 2)
    ∷ ("CHANNEL_SYNC", 3)
    ∷ ("DEVICE_TOTAL_SYNC", 4)
    ∷ ("DEVICE_DELETE", 5)
    ∷ ("DEVICE_DELETE_SOFT", 6)
    ∷ ("DEVICE_DELETE_RECOVER", 7)
    ∷ ("CHANNEL_DELETE_SOFT", 8)
    ∷ ("CHANNEL_DELETE_RECOVER", 9)
    ∷ ("CHANNEL_PTZ_CONTROL", 10)
    ∷ ("CHANNEL_PTZ_PRESET", 11)
    ∷ ("CHANNEL_3D_OPERATION", 12)
    ∷ ("CHANNEL_PLAY", 13)
    ∷ ("CHANNEL_RECORD_INFO", 14)
    ∷ ("CHANNEL_PLAYBACK", 15)
    ∷ ("CHANNEL_STOP_PLAY", 16)
    ∷ ("DEVICE_RECORD_PAUSE", 17)
    ∷ ("DEVICE_RECORD_RESUME", 18)
    ∷ ("DEVICE_RECORD_SPEED", 19)
    ∷ []

-- `get_msg_type`: 0 for everything that is no known request.
unfoldable pub get_msg_type : (String → Option Json) → String → ℕ
get_msg_type parse json = elim (document parse json) [
  | object ms ↦ elim (text_at "msgType" ms) [
    | none ↦ 0
    | some s ↦ elim (Dict.find s msg_type_map) [ none ↦ 0 | some n ↦ n ]
  ]
  | _ ↦ 0
]

-- The four texts that `pars_gateway_sign` writes.
pub record Sign : Type 0 where
  pub msg_type : String
  pub mq_get_queue : String
  pub mq_set_queue : String
  pub mq_exchange : String

-- `pars_gateway_sign`, over what the four texts held; its result is not used.
unfoldable pub pars_gateway_sign : (String → Option Json) → String → Sign → Sign
pars_gateway_sign parse json s = elim (document parse json) [
  | object ms ↦
      let named = record s { msg_type = text_or "msgType" ms s.msg_type } in
      elim (object_at "data" ms) [
        | none ↦ named
        | some data' ↦ record named {
          mq_exchange = text_or "mqExchange" data' s.mq_exchange;
          mq_get_queue = text_or "mqGetQueue" data' s.mq_get_queue;
          mq_set_queue = text_or "mqSetQueue" data' s.mq_set_queue;
        }
      ]
  | _ ↦ s
]
