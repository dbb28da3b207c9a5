-- ===== src/Client/Send/Confirmed.antt =====
-- What the client's sending promises.
use rundo_dahua_sdk_edge.Common.{
  ℕ, suc, ◌+◌, ◌≡◌, ◌≤◌, Bool, true, false, List, [], ◌∷◌, String, arith,
}
use rundo_dahua_sdk_edge.Mailbox.{signal}
use rundo_dahua_sdk_edge.Mq.{
  Amqp, Mq, Call, basic_ack, basic_publish, wait_frame, channel_of, connect, disconnect,
  exchange_declare_on, ensure_channel, request, drop_channel,
}
use rundo_dahua_sdk_edge.Mq.Transfer.{publish, confirm}
use rundo_dahua_sdk_edge.Mq.Confirm.{publish_confirmed}
use rundo_dahua_sdk_edge.Client.{Client, public_exchange, public_routekey, reopen}
use rundo_dahua_sdk_edge.Client.Send.{
  send_public_queue, send_business_queue, resend, sent_business_round,
}

-- The last two calls handed a message to the broker and waited for a frame, and the frame that came is
-- an acknowledgement on the client's own channel. Its delivery tag is not looked at.
abbrev pub IsConfirmed : Amqp → Mq → String → String → String → List Call → Type 0
IsConfirmed amqp m exchange key msg t =
    ((amqp.frame t).method ≡ basic_ack)
    × ((amqp.frame t).channel ≡ m.channel)
    × (u : List Call) × (t
        ≡ wait_frame m.conn ∷ basic_publish m.conn (channel_of m) exchange key msg ∷ u)

publish-IsConfirmed :
    (amqp : Amqp) (msg exchange key : String) (m : Mq) (t : List Call)
    → (publish amqp msg exchange key m t).ret ≡ 0
    → let r = publish amqp msg exchange key m t in IsConfirmed amqp r.mq exchange key msg r.calls
publish-IsConfirmed amqp msg exchange key m t h =
    let all = publish_confirmed amqp msg exchange key m t h in all

-- `send_public_queue` returns `true` over RabbitMQ only if an acknowledgement came after the message.
pub send_public_queue-IsConfirmed :
    (amqp : Amqp) (msg : String) (c : Client) (t : List Call)
    → c.client_type ≡ 1
    → (send_public_queue amqp msg c t).ret ≡ true
    → let r = send_public_queue amqp msg c t in
      IsConfirmed amqp r.client.public_mq public_exchange public_routekey msg r.calls
unfolding send_public_queue
send_public_queue-IsConfirmed amqp msg c t one h =
    ground (arith, publish-IsConfirmed amqp msg public_exchange public_routekey c.public_mq t)

resend-IsConfirmed :
    (amqp : Amqp) (msg : String) (c : Client) (t : List Call)
    → c.republic ≡ true
    → (resend amqp msg c t).0.republic ≡ false
    → let r = resend amqp msg c t in
      IsConfirmed amqp r.0.send_mq c.dynamic_exchange c.dynamic_routekey msg r.1
unfolding resend
resend-IsConfirmed amqp msg c t up h =
    let k = connect amqp c.ip c.port c.user c.pws c.send_mq t in
    let e = exchange_declare_on amqp c.dynamic_exchange "topic" true k.mq k.calls in
    ground (arith, publish-IsConfirmed amqp msg c.dynamic_exchange c.dynamic_routekey e.mq e.calls)

resend-exchange :
    (amqp : Amqp) (msg : String) (c : Client) (t : List Call)
    → ((resend amqp msg c t).0.dynamic_exchange ≡ c.dynamic_exchange)
      × ((resend amqp msg c t).0.dynamic_routekey ≡ c.dynamic_routekey)
      × ((resend amqp msg c t).0.business_msg_list ≡ c.business_msg_list)
unfolding resend
resend-exchange amqp msg c t = ground arith

-- Over RabbitMQ the flag `_republic` is down after `send_business_queue` only if its last two calls
-- handed over this very message and waited for a frame, which came and is an acknowledgement on the
-- client's own channel. Whether that one acknowledges this message or an earlier one is open: nothing
-- looks at its delivery tag.
pub send_business_queue-IsConfirmed :
    (amqp : Amqp) (msg : String) (c : Client) (t : List Call)
    → c.client_type ≡ 1
    → (send_business_queue amqp msg c t).client.republic ≡ false
    → let r = send_business_queue amqp msg c t in
      IsConfirmed amqp r.client.send_mq r.client.dynamic_exchange r.client.dynamic_routekey msg
        r.calls
unfolding send_business_queue
send_business_queue-IsConfirmed amqp msg c t one h =
    let p = publish amqp msg c.dynamic_exchange c.dynamic_routekey c.send_mq t in
    let failed = record c {
      send_mq = p.mq;
      republic = true;
      disconnet_ev = signal 1 c.disconnet_ev;
    } in
    ground (
      arith,
      publish-IsConfirmed amqp msg c.dynamic_exchange c.dynamic_routekey c.send_mq t,
      resend-IsConfirmed amqp msg c t,
      resend-IsConfirmed amqp msg failed p.calls,
      resend-exchange amqp msg c t,
      resend-exchange amqp msg failed p.calls,
    )

-- How often a history hands a message to the broker, under whatever exchange and key.
unfoldable pub published : List Call → ℕ
published [] = 0
published (basic_publish _ _ _ _ _ ∷ t) = suc (published t)
published (_ ∷ t) = published t

publish-published :
    (amqp : Amqp) (msg exchange key : String) (m : Mq) (t : List Call)
    → published (publish amqp msg exchange key m t).calls ≤ published t + 1
unfolding published publish confirm ensure_channel drop_channel
publish-published amqp msg exchange key m t = ground arith

connect-published :
    (amqp : Amqp) (host : String) (port : ℕ) (user pws : String) (m : Mq) (t : List Call)
    → published (connect amqp host port user pws m t).calls ≡ published t
unfolding published connect
connect-published amqp host port user pws m t = ground arith

disconnect-published :
    (amqp : Amqp) (m : Mq) (t : List Call) → published (disconnect amqp m t).calls ≡ published t
unfolding published disconnect
disconnect-published amqp m t = ground arith

declare-published :
    (amqp : Amqp) (exchange type : String) (durable : Bool) (m : Mq) (t : List Call)
    → published (exchange_declare_on amqp exchange type durable m t).calls ≡ published t
unfolding published exchange_declare_on ensure_channel request drop_channel
declare-published amqp exchange type durable m t = ground arith

resend-published :
    (amqp : Amqp) (msg : String) (c : Client) (t : List Call)
    → published (resend amqp msg c t).1 ≤ published t + 1
unfolding resend
resend-published amqp msg c t =
    let k = connect amqp c.ip c.port c.user c.pws c.send_mq t in
    let e = exchange_declare_on amqp c.dynamic_exchange "topic" true k.mq k.calls in
    ground (
      arith,
      connect-published amqp c.ip c.port c.user c.pws c.send_mq t,
      declare-published amqp c.dynamic_exchange "topic" true k.mq k.calls,
      publish-published amqp msg c.dynamic_exchange c.dynamic_routekey e.mq e.calls,
    )

-- A send of either kind hands at most two messages to the broker, whatever the broker answers.
pub send-published :
    (amqp : Amqp) (msg : String) (c : Client) (t : List Call)
    → (published (send_business_queue amqp msg c t).calls ≤ published t + 2)
      × (published (send_public_queue amqp msg c t).calls ≤ published t + 2)
unfolding send_business_queue send_public_queue reopen
send-published amqp msg c t =
    let p = publish amqp msg c.dynamic_exchange c.dynamic_routekey c.send_mq t in
    let failed = record c {
      send_mq = p.mq;
      republic = true;
      disconnet_ev = signal 1 c.disconnet_ev;
    } in
    let q = publish amqp msg public_exchange public_routekey c.public_mq t in
    let d = disconnect amqp q.mq q.calls in
    let k = connect amqp c.ip c.port c.user c.pws d.mq d.calls in
    let e = exchange_declare_on amqp public_exchange "direct" false k.mq k.calls in
    (
      ground (
        arith,
        publish-published amqp msg c.dynamic_exchange c.dynamic_routekey c.send_mq t,
        resend-published amqp msg c t,
        resend-published amqp msg failed p.calls,
      ),
      ground (
        arith,
        publish-published amqp msg public_exchange public_routekey c.public_mq t,
        disconnect-published amqp q.mq q.calls,
        connect-published amqp c.ip c.port c.user c.pws d.mq d.calls,
        declare-published amqp public_exchange "direct" false k.mq k.calls,
        publish-published amqp msg public_exchange public_routekey e.mq e.calls,
      ),
    )

-- A message that was queued leaves the list when its turn comes, whether or not the broker takes it:
-- a round never puts it back, and tries it at most twice.
pub sent_business_round-list :
    (amqp : Amqp) (c : Client) (msg : String) (rest : List String) (t : List Call)
    → c.business_msg_list ≡ msg ∷ rest
    → let r = sent_business_round amqp c t in
      (r.0.business_msg_list ≡ rest) × (published r.1 ≤ published t + 2)
unfolding sent_business_round send_business_queue
sent_business_round-list amqp c msg rest t e =
    let c₁ = record c { business_msg_list = rest } in
    let p = publish amqp msg c.dynamic_exchange c.dynamic_routekey c.send_mq t in
    let failed = record c₁ {
      send_mq = p.mq;
      republic = true;
      disconnet_ev = signal 1 c.disconnet_ev;
    } in
    (
      ground (arith, resend-exchange amqp msg c₁ t, resend-exchange amqp msg failed p.calls),
      ground (arith, send-published amqp msg c₁ t),
    )
