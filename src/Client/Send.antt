-- ===== src/Client/Send.antt =====
-- `client_manage`'s sending half: `send_public_queue`, `send_business_queue`, `send_business_queueEx`,
-- and a round of the threads `sent_business_func` and `heartbeat_func`.
pub mod Confirmed
pub mod Drained
pub mod Delivered
use rundo_dahua_sdk_edge.Common.{
  ℕ, zero, suc, Bool, true, false, not, ◌&&◌, List, [], ◌∷◌, ◌++◌, String, ◌==◌, if◌then◌else◌,
}
use rundo_dahua_sdk_edge.Mailbox.{signal}
use rundo_dahua_sdk_edge.Mq.{Amqp, Call, connect, disconnect, exchange_declare_on}
use rundo_dahua_sdk_edge.Mq.Transfer.{publish}
use rundo_dahua_sdk_edge.Client.{
  Client, ClientRan, public_exchange, public_routekey, reopen, reconnet_public,
}

-- A failed message is published once more over a new connection, and `false` is returned even if that
-- succeeds.
unfoldable pub send_public_queue : Amqp → String → Client → List Call → ClientRan
send_public_queue amqp msg c t =
    let p = publish amqp msg public_exchange public_routekey c.public_mq t in
    let d = disconnect amqp p.mq p.calls in
    let (m, t₁) =
      reopen amqp c.ip c.port c.user c.pws public_exchange "direct" false d.mq d.calls in
    let q = publish amqp msg public_exchange public_routekey m t₁ in
    if c.client_type == 1
    then (if p.ret == 0
        then record { ret = true; client = record c { public_mq = p.mq }; calls = p.calls }
        else record { ret = false; client = record c { public_mq = q.mq }; calls = q.calls })
    else record { ret = true; client = c; calls = t }

-- The branch for `_republic`: connect, declare, publish, each only if the one before succeeded.
unfoldable pub resend : Amqp → String → Client → List Call → Client × List Call
resend amqp msg c t =
    let k = connect amqp c.ip c.port c.user c.pws c.send_mq t in
    let e = exchange_declare_on amqp c.dynamic_exchange "topic" true k.mq k.calls in
    let p = publish amqp msg c.dynamic_exchange c.dynamic_routekey e.mq e.calls in
    if not (k.ret == 0)
    then (record c { send_mq = k.mq }, k.calls)
    else if not (e.ret == 0)
    then (record c { send_mq = e.mq }, e.calls)
    else if not (p.ret == 0)
    then (record c { send_mq = p.mq }, p.calls)
    else (record c { send_mq = p.mq; republic = false }, p.calls)

-- `goto republic` leads into the other branch, so it is taken once at most.
unfoldable pub send_business_queue : Amqp → String → Client → List Call → ClientRan
unfolding signal
send_business_queue amqp msg c t =
    let p = publish amqp msg c.dynamic_exchange c.dynamic_routekey c.send_mq t in
    let sent = record c { send_mq = p.mq; republic = false } in
    let failed = record c {
      send_mq = p.mq;
      republic = true;
      disconnet_ev = signal 1 c.disconnet_ev;
    } in
    let again = resend amqp msg c t in
    let after_failure = resend amqp msg failed p.calls in
    if not (c.client_type == 1)
    then record { ret = true; client = c; calls = t }
    else if c.republic
    then record { ret = true; client = again.0; calls = again.1 }
    else if p.ret == 0
    then record { ret = true; client = sent; calls = p.calls }
    else record { ret = true; client = after_failure.0; calls = after_failure.1 }

-- `send_business_queueEx`
unfoldable pub send_business_queue_ex : String → Client → Client
unfolding signal
send_business_queue_ex msg c = record c {
  business_msg_list = c.business_msg_list ++ msg ∷ [];
  business_msg_list_ev = signal 1 c.business_msg_list_ev;
}

-- A round of `sent_business_func` that finds a message: it leaves the list before it is sent.
unfoldable pub sent_business_round : Amqp → Client → List Call → Client × List Call
sent_business_round amqp c t = elim c.business_msg_list [
  | [] ↦ (c, t)
  | msg ∷ rest ↦
      let r = send_business_queue amqp msg (record c { business_msg_list = rest }) t in
      (r.client, r.calls)
]

-- That many rounds of the loop of `sent_business_func`, each of them past its wait.
unfoldable pub sent_business_rounds : Amqp → ℕ → Client → List Call → Client × List Call
sent_business_rounds amqp zero c t = (c, t)
sent_business_rounds amqp (suc n) c t =
    let r = sent_business_round amqp c t in sent_business_rounds amqp n r.0 r.1

-- A round of `heartbeat_func`; `beat` gives the two texts of `gateway_heartbeat`.
unfoldable pub heartbeat_round : Amqp → (ℕ → String) → Client → List Call → Client × List Call
heartbeat_round amqp beat c t =
    let r = send_public_queue amqp (beat 0) c t in
    let k = reconnet_public amqp c.ip c.port c.user c.pws r.client r.calls in
    let again = send_public_queue amqp (beat 1) k.client k.calls in
    if r.ret then (r.client, r.calls) else (again.client, again.calls)
