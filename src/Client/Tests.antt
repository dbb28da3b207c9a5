-- ===== src/Client/Tests.antt =====
-- The theorems on the client's sending, applied to a broker that confirms and to one that does not.
use rundo_dahua_sdk_edge.Common.{◌≡◌, refl, ◌++◌, arith, true, false, [], ◌∷◌}
use rundo_dahua_sdk_edge.Mq.{Amqp, ensure_channel}
use rundo_dahua_sdk_edge.Mq.Tests.{broker, client}
use rundo_dahua_sdk_edge.Mq.Transfer.{publish, confirm}
use rundo_dahua_sdk_edge.Client.{Client}
use rundo_dahua_sdk_edge.Client.Send.{send_business_queue, sent_business_rounds}
use rundo_dahua_sdk_edge.Client.Send.Confirmed.{IsConfirmed, send_business_queue-IsConfirmed}
use rundo_dahua_sdk_edge.Client.Send.Drained.{texts, Sent, sent_business_rounds-Repeats}
use rundo_dahua_sdk_edge.Client.Send.Delivered.{IsServed, sent_business_rounds-served}

abbrev pub gateway : Client
gateway = record {
  client_type = 1;
  client_type_str = "rabbitMQ";
  public_mq = client;
  recv_mq = client;
  send_mq = client;
  dynamic_queuename = "get";
  dynamic_routekey = "set";
  dynamic_exchange = "exchange";
  republic = false;
  business_msg_list = "a" ∷ "b" ∷ [];
  business_msg_list_ev = 2;
  disconnet_ev = 0;
  threads = true;
  ip = "10.0.0.9";
  port = 5672;
  user = "";
  pws = "";
}

-- A broker whose frames come on another channel.
abbrev elsewhere : Amqp
elsewhere = record broker {
  frame = λ t. record { channel = 8; method = (broker.frame t).method; delivery_tag = 1 };
}

send_business_queue-IsConfirmed_example :
    let r = send_business_queue broker "hello" gateway [] in
    IsConfirmed broker r.client.send_mq r.client.dynamic_exchange r.client.dynamic_routekey "hello"
      r.calls
unfolding send_business_queue publish confirm ensure_channel
send_business_queue-IsConfirmed_example =
    send_business_queue-IsConfirmed broker "hello" gateway [] refl refl

sent_business_rounds-Repeats_example :
    let r = sent_business_rounds elsewhere 2 gateway [] in Sent ("a" ∷ "b" ∷ []) [] r.1 r.0
sent_business_rounds-Repeats_example =
    sent_business_rounds-Repeats elsewhere ("a" ∷ "b" ∷ []) gateway [] refl

pub gateway-IsServed : IsServed broker gateway
gateway-IsServed = record {
  rabbit = refl;
  settled = refl;
  connected = omega arith;
  opened = omega arith;
  taken = λ t x. refl;
  answered = λ t. refl;
  acked = λ t. refl;
}

sent_business_rounds-served_example :
    let r = sent_business_rounds broker 2 gateway [] in
    (texts r.1 ≡ texts [] ++ "a" ∷ "b" ∷ []) × (r.0.business_msg_list ≡ []) × (r.0.republic ≡ false)
sent_business_rounds-served_example =
    sent_business_rounds-served broker ("a" ∷ "b" ∷ []) gateway [] gateway-IsServed refl
