-- ===== src/Mq/Tests.antt =====
-- The theorems on the message-queue client, applied to a broker that answers.
use rundo_dahua_sdk_edge.Common.{◌≡◌, ◌≤◌, refl, true, false, List, [], ◌∷◌, length, All, str_eq}
use rundo_dahua_sdk_edge.Mq.{
  Amqp, Mq, Call, basic_ack, delivered, normal, basic_publish, wait_frame, channel_of,
  ensure_channel,
}
use rundo_dahua_sdk_edge.Mq.Transfer.{confirm, publish, consumer}
use rundo_dahua_sdk_edge.Mq.Confirm.{publish_confirmed, consumer-mine}

-- Every request succeeds, each message is "mine", and each frame acknowledges on channel 3.
abbrev pub broker : Amqp
broker = record {
  pointer = λ t c. 5;
  status = λ t c. 0;
  reply = λ t. normal;
  frame = λ t. record { channel = 3; method = basic_ack; delivery_tag = 1 };
  message = λ t. delivered "mine";
  tag = λ t. length t;
}

abbrev pub client : Mq
client = record {
  hostname = "";
  port = 5672;
  user = "";
  passwd = "";
  channel = 3;
  conn = 5;
  channel_id = 1;
  dis_conn = 0;
  dis_channel = 0;
}

publish_confirmed_example :
    let r = publish broker "hello" "PUBLIC" "gs" client [] in
    ((broker.frame r.calls).method ≡ basic_ack)
    × ((broker.frame r.calls).channel ≡ r.mq.channel)
    × (u : List Call) × (r.calls
        ≡ wait_frame r.mq.conn
          ∷ basic_publish r.mq.conn (channel_of r.mq) "PUBLIC" "gs" "hello"
          ∷ u)
unfolding publish confirm ensure_channel
publish_confirmed_example = publish_confirmed broker "hello" "PUBLIC" "gs" client [] refl

consumer-mine_example :
    let r = consumer broker (λ s. str_eq s "mine") "gs" 2 true false client [] in
    All (λ s. str_eq s "mine" ≡ true) r.messages × (length r.messages ≤ 2)
consumer-mine_example = consumer-mine broker (λ s. str_eq s "mine") "gs" 2 false client []
