-- ===== src/Gateway/Replies/Reading.antt =====
-- What a reader finds in the responses.
use rundo_dahua_sdk_edge.Common.{ℕ, ◌≡◌, true, String, Option, none, some, eq_refl}
use rundo_dahua_sdk_edge.Common.Dict
use rundo_dahua_sdk_edge.Gateway.{
  Json, document, find_member, text_at, is_my_serial_num, get_msg_type, msg_type_map,
}
use rundo_dahua_sdk_edge.Gateway.Replies.{Texts, response, response_document}

-- If rapidjson reads back the document of a response, the reader finds the gateway's serial number in
-- it and the type that was answered.
pub response-read :
    (parse : String → Option Json) (x : Texts) (msg_id : String) (code : ℕ) (msg_type : String)
    → let d = response_document x msg_id code msg_type in
      parse (x.write d) ≡ some d
      → let reply = response x msg_id code msg_type in
        (is_my_serial_num parse x.media_server_id reply ≡ true)
        × (get_msg_type parse reply
            ≡ elim (Dict.find msg_type msg_type_map) [ none ↦ 0 | some n ↦ n ])
unfolding response is_my_serial_num get_msg_type document text_at find_member
response-read parse x msg_id code msg_type back = (
  rw (back, is_my_serial_num, document) (eq_refl x.media_server_id),
  rw (back, get_msg_type, document),
)
