-- ===== src/Client/Listen.antt =====
-- `client_manage`'s receiving half: `start_public_queue`, which waits for the sign-in, and
-- `start_business_queue`, which feeds the list of requests. A loop is given by one of its rounds.
pub mod Rounds
mod Tests
use rundo_dahua_sdk_edge.Common.{
  ℕ, Bool, true, false, ◌||◌, List, [], ◌∷◌, String, Option, ◌==◌, str_eq, if◌then◌else◌,
}
use rundo_dahua_sdk_edge.Gateway.{Json, Sign, is_my_serial_num, pars_gateway_sign}
use rundo_dahua_sdk_edge.Mailbox.{Mailbox, insert_task, signal_task}
use rundo_dahua_sdk_edge.Mq.{Amqp, Call}
use rundo_dahua_sdk_edge.Mq.Queues.{queue_declare_on, queue_bind_on, cancel_consuming}
use rundo_dahua_sdk_edge.Mq.Transfer.{consumer, timeout_error}
use rundo_dahua_sdk_edge.Client.{
  Client, connet_business, public_exchange, public_routekey, public_recv_queue,
}
use rundo_dahua_sdk_edge.Client.Send.{send_public_queue}

-- What a round leaves: `while_flag`, the client, and the calls made.
pub record Round : Type 0 where
  pub while_flag : Bool
  pub client : Client
  pub calls : List Call

-- Before the loop of `start_public_queue`; the two results are only logged.
unfoldable pub open_public : Amqp → Client → List Call → Client × List Call
open_public amqp c t =
    let d = queue_declare_on amqp public_routekey c.public_mq t in
    let b = queue_bind_on amqp public_routekey public_exchange public_routekey d.mq d.calls in
    (record c { public_mq = b.mq }, b.calls)

-- What the loop does with a message; `re_sign_in` is the text of `gateway_re_sign_in`.
unfoldable pub handle_sign : Amqp → (String → Option Json) → String → String → Round → Round
handle_sign amqp parse re_sign_in msg r =
    let c = r.client in
    let sign = pars_gateway_sign parse msg (record {
      msg_type = "";
      mq_get_queue = c.dynamic_queuename;
      mq_set_queue = c.dynamic_routekey;
      mq_exchange = c.dynamic_exchange;
    }) in
    let c₁ = record c {
      dynamic_queuename = sign.mq_get_queue;
      dynamic_routekey = sign.mq_set_queue;
      dynamic_exchange = sign.mq_exchange;
    } in
    let again = send_public_queue amqp re_sign_in c₁ r.calls in
    let signed = connet_business amqp c.ip c.port c.user c.pws c₁ r.calls in
    if str_eq "GATEWAY_RE_SIGN_IN" sign.msg_type
    then record { while_flag = r.while_flag; client = again.client; calls = again.calls }
    else if str_eq "GATEWAY_SIGN_IN" sign.msg_type
    then record { while_flag = false; client = signed.client; calls = signed.calls }
    else record { while_flag = r.while_flag; client = c₁; calls = r.calls }

unfoldable pub handle_signs : Amqp → (String → Option Json) → String → List String → Round → Round
handle_signs amqp parse re_sign_in [] r = r
handle_signs amqp parse re_sign_in (msg ∷ msgs) r =
    handle_signs amqp parse re_sign_in msgs (handle_sign amqp parse re_sign_in msg r)

-- A round of `start_public_queue`; the result of `Consumer` is not looked at.
unfoldable pub public_round :
    Amqp → (String → Option Json) → String → String → Client → List Call → Round
public_round amqp parse media_server_id re_sign_in c t =
    let mine = is_my_serial_num parse media_server_id in
    let r = consumer amqp mine public_recv_queue 1 true false c.public_mq t in
    handle_signs amqp parse re_sign_in r.messages
      (record { while_flag = true; client = record c { public_mq = r.mq }; calls = r.calls })

-- After the loop.
unfoldable pub close_public : Amqp → Client → List Call → Client × List Call
close_public amqp c t =
    let r = cancel_consuming amqp c.public_mq t in (record c { public_mq = r.mq }, r.calls)

-- Before the loop of `start_business_queue`.
unfoldable pub open_business : Amqp → Client → List Call → Client × List Call
open_business amqp c t =
    let q = c.dynamic_queuename in
    let d = queue_declare_on amqp q c.recv_mq t in
    let b = queue_bind_on amqp q c.dynamic_exchange q d.mq d.calls in
    (record c { recv_mq = b.mq }, b.calls)

unfoldable pub insert_all : List String → Mailbox → Mailbox
insert_all [] b = b
insert_all (msg ∷ msgs) b = insert_all msgs (signal_task (insert_task msg b))

-- A round of `start_business_queue`, with the list of requests that it feeds.
unfoldable pub business_round :
    Amqp → (String → Option Json) → String → Client → Mailbox → List Call → Round × Mailbox
business_round amqp parse media_server_id c b t =
    let mine = is_my_serial_num parse media_server_id in
    let r = consumer amqp mine c.dynamic_queuename 1 false true c.recv_mq t in
    let on = (r.ret == 0) || (r.ret == timeout_error) in
    (
      record { while_flag = on; client = record c { recv_mq = r.mq }; calls = r.calls },
      if r.ret == 0 then insert_all r.messages b else b,
    )

-- `stop`, and whether it then joins the thread of `heartbeat_func`, whose loop has no end.
unfoldable pub stop : Round → Round × Bool
stop r = (record r { while_flag = false }, r.client.threads)
