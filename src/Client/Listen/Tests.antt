-- ===== src/Client/Listen/Tests.antt =====
-- The theorems on the listening loops, applied to a sign-in that is addressed to the gateway.
use rundo_dahua_sdk_edge.Common.{◌≡◌, refl, true, false, [], ◌++◌, String, Option, some}
use rundo_dahua_sdk_edge.Gateway.{
  Json, text, object, no_members, member, document, find_member, text_at, object_at, text_or,
  is_my_serial_num, pars_gateway_sign,
}
use rundo_dahua_sdk_edge.Mailbox.{empty}
use rundo_dahua_sdk_edge.Mq.{ensure_channel, request, error_msg}
use rundo_dahua_sdk_edge.Mq.Tests.{broker}
use rundo_dahua_sdk_edge.Mq.Transfer.{consume, consumer}
use rundo_dahua_sdk_edge.Client.{public_recv_queue}
use rundo_dahua_sdk_edge.Client.Tests.{gateway}
use rundo_dahua_sdk_edge.Client.Listen.{public_round, handle_sign, handle_signs, business_round}
use rundo_dahua_sdk_edge.Client.Listen.Rounds.{
  SignedIn, business_round-msg_list, public_round-while_flag,
}

-- Every text is this document.
abbrev sign_in : String → Option Json
sign_in _ =
    some (
      object
        (member "serialNum" (text "g1") (member "msgType" (text "GATEWAY_SIGN_IN") no_members)))

business_round-msg_list_example :
    (business_round broker sign_in "g1" gateway empty []).1.msg_list
    ≡ empty.msg_list
      ++ (consumer broker
          (is_my_serial_num sign_in "g1")
          "get"
          1
          false
          true
          gateway.recv_mq
          []).messages
unfolding consumer consume ensure_channel request error_msg
business_round-msg_list_example = business_round-msg_list broker sign_in "g1" gateway empty [] refl

public_round-while_flag_example :
    SignedIn sign_in "g1"
      (consumer broker
        (is_my_serial_num sign_in "g1")
        public_recv_queue
        1
        true
        false
        gateway.public_mq
        []).messages
unfolding public_round handle_signs handle_sign consumer consume ensure_channel request error_msg
    is_my_serial_num pars_gateway_sign document find_member text_at object_at text_or
public_round-while_flag_example =
    public_round-while_flag broker sign_in "g1" "again" gateway [] refl
