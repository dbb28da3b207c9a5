-- ===== src/Client/Listen/Rounds.antt =====
-- What a round of the listening loops promises.
use mathlib.Core.List.{append_assoc, append-nil}
use rundo_dahua_sdk_edge.Common.{
  ap, refl, ◌≡◌, ◌≢◌, Bool, true, false, List, [], ◌∷◌, ◌++◌, String, Option, eq_iff, arith, All,
  ◌⊎◌, inl, inr,
}
use rundo_dahua_sdk_edge.Gateway.{Json, is_my_serial_num, pars_gateway_sign}
use rundo_dahua_sdk_edge.Mailbox.{Mailbox, insert_task, signal_task}
use rundo_dahua_sdk_edge.Mq.{
  Amqp, Mq, Call, ensure_channel, request, negative, channel_of, basic_consume, basic_qos,
}
use rundo_dahua_sdk_edge.Mq.Transfer.{consumer, consume}
use rundo_dahua_sdk_edge.Mq.Confirm.{consumer-mine}
use rundo_dahua_sdk_edge.Client.{Client, public_recv_queue}
use rundo_dahua_sdk_edge.Client.Listen.{
  Round, handle_sign, handle_signs, public_round, insert_all, business_round,
}

insert_all-msg_list :
    (msgs : List String) (b : Mailbox) → (insert_all msgs b).msg_list ≡ b.msg_list ++ msgs
unfolding insert_all insert_task signal_task
insert_all-msg_list [] b = ground (arith, append-nil b.msg_list)
insert_all-msg_list (msg ∷ msgs) b = ground (
  arith,
  insert_all-msg_list msgs (signal_task (insert_task msg b)),
  append_assoc b.msg_list (msg ∷ []) msgs,
)

consume_failed :
    (amqp : Amqp) (mine : String → Bool) (m : Mq) (t : List Call)
    → let r = consume amqp mine false true 1 [] m t in r.ret ≢ 0 → r.messages ≡ []
unfolding consume
consume_failed amqp mine m t h = ground arith

consumer_failed :
    (amqp : Amqp) (mine : String → Bool) (queue : String) (m : Mq) (t : List Call)
    → let r = consumer amqp mine queue 1 false true m t in r.ret ≢ 0 → r.messages ≡ []
unfolding consumer
consumer_failed amqp mine queue m t h =
    let e = ensure_channel amqp (negative 2) m t in
    let q =
      request amqp (basic_consume e.mq.conn (channel_of e.mq) queue true) (negative 3) e.mq
        (basic_qos e.mq.conn (channel_of e.mq) 1 ∷ e.calls) in
    ground (arith, consume_failed amqp mine q.mq q.calls)

-- Every business message that a round takes from the broker is put into the list of requests, in
-- order and behind those that wait, and nothing else is, unless the round met an empty message, whose
-- envelope `Consumer` destroys twice.
pub business_round-msg_list :
    (amqp : Amqp) (parse : String → Option Json) (id : String) (c : Client) (b : Mailbox)
    (t : List Call)
    → let r =
        consumer amqp (is_my_serial_num parse id) c.dynamic_queuename 1 false true c.recv_mq t in
      r.freed_twice ≡ false
      → (business_round amqp parse id c b t).1.msg_list ≡ b.msg_list ++ r.messages
unfolding business_round
business_round-msg_list amqp parse id c b t sound =
    let mine = is_my_serial_num parse id in
    let r = consumer amqp mine c.dynamic_queuename 1 false true c.recv_mq t in
    ground (
      arith,
      insert_all-msg_list r.messages b,
      consumer_failed amqp mine c.dynamic_queuename c.recv_mq t,
      append-nil b.msg_list,
    )

-- The type that `pars_gateway_sign` reads in a text.
abbrev pub sign_type : (String → Option Json) → String → String
sign_type parse msg =
    (pars_gateway_sign parse msg
      (record { msg_type = ""; mq_get_queue = ""; mq_set_queue = ""; mq_exchange = "" })).msg_type

sign_type_lem :
    (parse : String → Option Json) (msg a b c : String)
    → (pars_gateway_sign parse msg
        (record { msg_type = ""; mq_get_queue = a; mq_set_queue = b; mq_exchange = c })).msg_type
      ≡ sign_type parse msg
unfolding pars_gateway_sign
sign_type_lem parse msg a b c = ground arith

handle_sign-while_flag :
    (amqp : Amqp) (parse : String → Option Json) (text msg : String) (r : Round)
    → (handle_sign amqp parse text msg r).while_flag ≡ false
    → (r.while_flag ≡ false) ⊎ (sign_type parse msg ≡ "GATEWAY_SIGN_IN")
unfolding handle_sign
handle_sign-while_flag amqp parse text msg r h =
    let c = r.client in
    ground (
      arith,
      sign_type_lem parse msg c.dynamic_queuename c.dynamic_routekey c.dynamic_exchange,
      eq_iff "GATEWAY_SIGN_IN" (sign_type parse msg),
    )

-- One of the messages is a sign-in that is addressed to the gateway: it bears the gateway's serial
-- number and the type GATEWAY_SIGN_IN.
pub record SignedIn (parse : String → Option Json) (id : String) (msgs : List String) : Type 0 where
  pub msg : String
  pub before : List String
  pub behind : List String
  pub among : msgs ≡ before ++ msg ∷ behind
  pub mine : is_my_serial_num parse id msg ≡ true
  pub signs : sign_type parse msg ≡ "GATEWAY_SIGN_IN"

handle_signs-while_flag :
    (amqp : Amqp) (parse : String → Option Json) (id text : String) (msgs : List String) (r : Round)
    → All (λ s. is_my_serial_num parse id s ≡ true) msgs
    → (handle_signs amqp parse text msgs r).while_flag ≡ false
    → (r.while_flag ≡ false) ⊎ SignedIn parse id msgs
unfolding handle_signs
handle_signs-while_flag amqp parse id text [] r a h = inl h
handle_signs-while_flag amqp parse id text (msg ∷ msgs) r a h =
    elim (handle_signs-while_flag amqp parse id text msgs (handle_sign amqp parse text msg r) a.1
      h) [
        | inr found ↦ inr (record {
          msg = found.msg;
          before = msg ∷ found.before;
          behind = found.behind;
          among = ap (λ l. msg ∷ l) found.among;
          mine = found.mine;
          signs = found.signs;
        })
        | inl e ↦ elim (handle_sign-while_flag amqp parse text msg r e) [
          | inl f ↦ inl f
          | inr s ↦ inr (record {
            msg = msg;
            before = [];
            behind = msgs;
            among = refl;
            mine = a.0;
            signs = s;
          })
        ]
      ]

-- A round leaves the public queue only if one of the messages that its `Consumer` took from the queue
-- is a sign-in that is addressed to this gateway: it bears the gateway's own serial number and the type
-- GATEWAY_SIGN_IN.
pub public_round-while_flag :
    (amqp : Amqp) (parse : String → Option Json) (id text : String) (c : Client) (t : List Call)
    → (public_round amqp parse id text c t).while_flag ≡ false
    → let mine = is_my_serial_num parse id in
      SignedIn parse id (consumer amqp mine public_recv_queue 1 true false c.public_mq t).messages
unfolding public_round
public_round-while_flag amqp parse id text c t h =
    let mine = is_my_serial_num parse id in
    let r = consumer amqp mine public_recv_queue 1 true false c.public_mq t in
    let own = consumer-mine amqp mine public_recv_queue 1 false c.public_mq t in
    let start : Round = record {
      while_flag = true;
      client = record c { public_mq = r.mq };
      calls = r.calls;
    } in
    elim (handle_signs-while_flag amqp parse id text r.messages start own.0 h) [
      | inl e ↦ absurd (ground arith)
      | inr found ↦ found
    ]
