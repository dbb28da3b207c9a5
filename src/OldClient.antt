-- ===== src/OldClient.antt =====
-- src/rabbitmqclient.h and src/rabbitmqclient.cpp: `CRabbitmqClient`, an earlier version of
-- `rabbitmqClient` that is compiled but that nothing includes. The AMQP library is that of Mq. The
-- channel is an argument of each method. The flag `no_local` of amqp_basic_consume is left out.
pub mod Consume
pub mod Channels
pub mod Settled
mod Tests
use rundo_dahua_sdk_edge.Common.{
  ℕ, ◌%◌, ◌^◌, Bool, true, false, not, ◌&&◌, List, ◌∷◌, String, Option, ◌==◌, leb, if◌then◌else◌,
}
use rundo_dahua_sdk_edge.Sdk.{minus_one}
use rundo_dahua_sdk_edge.Gateway.{Json, is_my_serial_num}
use rundo_dahua_sdk_edge.Mq.{
  Amqp, Call, Reply, normal, new_connection, tcp_socket_new, socket_open, login, channel_open,
  channel_close, connection_close, destroy_connection, queue_declare, queue_bind, queue_unbind,
  queue_delete, basic_publish, basic_qos, basic_consume, exchange_find, negative,
}

pub record CRabbitmqClient : Type 0 where
  pub consumer : Bool  -- `m_consumer`
  pub hostname : String
  pub port : ℕ
  pub user : String
  pub passwd : String
  pub sock : ℕ
  pub conn : ℕ
  pub serial_num : String

-- What a method leaves: its `int`, the client, and the calls made.
pub record Ran : Type 0 where
  pub ret : ℕ
  pub client : CRabbitmqClient
  pub calls : List Call

-- The constructor.
unfoldable pub new_client : CRabbitmqClient
new_client = record {
  consumer = false;
  hostname = "";
  port = 0;
  user = "";
  passwd = "";
  sock = 0;
  conn = 0;
  serial_num = "";
}

-- `parese_json`
unfoldable pub parese_json : (String → Option Json) → String → String → Bool
parese_json parse json serial_num = is_my_serial_num parse serial_num json

-- `ErrorMsg`
unfoldable pub error_msg : Reply → ℕ
error_msg normal = 0
error_msg _ = minus_one

unfoldable pub connect : Amqp → String → ℕ → String → String → CRabbitmqClient → List Call → Ran
unfolding negative
connect amqp host port user passwd m t =
    let conn = amqp.pointer t new_connection in
    let t₁ = new_connection ∷ t in
    let m₁ = record m { hostname = host; port = port; user = user; passwd = passwd; conn = conn } in
    let sock = amqp.pointer t₁ (tcp_socket_new conn) in
    let t₂ = tcp_socket_new conn ∷ t₁ in
    let m₂ = record m₁ { sock = sock } in
    let open_status = amqp.status t₂ (socket_open sock host port) in
    let t₃ = socket_open sock host port ∷ t₂ in
    let t₄ = login conn user passwd ∷ t₃ in
    if conn == 0
    then record { ret = negative 1; client = m₁; calls = t₁ }
    else if sock == 0
    then record { ret = negative 2; client = m₂; calls = t₂ }
    else if leb (2 ^ 31) open_status
    then record { ret = negative 3; client = m₂; calls = t₃ }
    else if not (error_msg (amqp.reply t₄) == 0)
    then record { ret = negative 4; client = m₂; calls = t₄ }
    else record { ret = 0; client = m₂; calls = t₄ }

unfoldable pub disconnect : Amqp → CRabbitmqClient → List Call → Ran
unfolding negative
disconnect amqp m t =
    let t₁ = connection_close m.conn ∷ t in
    let d = destroy_connection m.conn in
    if m.conn == 0
    then record { ret = 0; client = m; calls = t }
    else if not (error_msg (amqp.reply t₁) == 0)
    then record { ret = negative 1; client = m; calls = t₁ }
    else if leb (2 ^ 31) (amqp.status t₁ d)
    then record { ret = negative 2; client = m; calls = d ∷ t₁ }
    else record { ret = 0; client = record m { conn = 0 }; calls = d ∷ t₁ }

-- The destructor.
unfoldable pub delete_client : Amqp → CRabbitmqClient → List Call → List Call
delete_client amqp m t = if m.conn == 0 then t else (disconnect amqp m t).calls

-- A call on a channel and the test of its reply: the channel is closed and `code` returned if it
-- failed, and else the method goes on.
unfoldable pub ask :
    Amqp → ℕ → ℕ → Call → ℕ → (List Call → ℕ × List Call) → List Call → ℕ × List Call
ask amqp conn ch c code rest t =
    if error_msg (amqp.reply (c ∷ t)) == 0
    then rest (c ∷ t)
    else (code, channel_close conn ch ∷ c ∷ t)

-- `amqp_channel_t` is a 16-bit number.
abbrev pub channel : ℕ → ℕ
channel n = n % 2 ^ 16

-- `ExchangeDeclare`, `QueueDeclare`, `QueueBind` and `QueueUnbind` open the channel unasked, make one
-- call, and close the channel.
unfoldable pub once : Amqp → ℕ → ℕ → Call → List Call → ℕ × List Call
unfolding ask negative
once amqp conn ch c t =
    ask amqp conn ch c (negative 1) (λ u. (0, channel_close conn ch ∷ u)) (channel_open conn ch ∷ t)

unfoldable pub exchange_declare_on :
    Amqp → CRabbitmqClient → String → String → ℕ → List Call → ℕ × List Call
exchange_declare_on amqp m exchange type n =
    once amqp m.conn (channel n) (exchange_find m.conn (channel n) exchange type)

-- The methods that refuse to work without a connection.
unfoldable pub connected : CRabbitmqClient → (List Call → ℕ × List Call) → List Call → ℕ × List Call
unfolding negative
connected m method t = if m.conn == 0 then (negative 1, t) else method t

unfoldable pub queue_declare_on : Amqp → CRabbitmqClient → String → ℕ → List Call → ℕ × List Call
queue_declare_on amqp m queue n =
    connected m (once amqp m.conn (channel n) (queue_declare m.conn (channel n) queue))

unfoldable pub queue_bind_on :
    Amqp → CRabbitmqClient → String → String → String → ℕ → List Call → ℕ × List Call
queue_bind_on amqp m queue exchange key n =
    connected m (once amqp m.conn (channel n) (queue_bind m.conn (channel n) queue exchange key))

unfoldable pub queue_unbind_on :
    Amqp → CRabbitmqClient → String → String → String → ℕ → List Call → ℕ × List Call
queue_unbind_on amqp m queue exchange key n =
    connected m (once amqp m.conn (channel n) (queue_unbind m.conn (channel n) queue exchange key))

-- `amqp_channel_open` and the test of its reply.
unfoldable pub open_channel : Amqp → ℕ → ℕ → (List Call → ℕ × List Call) → List Call → ℕ × List Call
unfolding ask negative
open_channel amqp conn ch = ask amqp conn ch (channel_open conn ch) (negative 2)

unfoldable pub queue_delete_on : Amqp → CRabbitmqClient → String → ℕ → ℕ → List Call → ℕ × List Call
unfolding ask negative
queue_delete_on amqp m queue if_unused n =
    let conn = m.conn in
    let ch = channel n in
    connected m (
      open_channel amqp conn ch (
        ask amqp conn ch (queue_delete conn ch queue if_unused) (negative 3)
          (λ u. (0, channel_close conn ch ∷ u))))

-- `amqp_basic_publish`: its own status, and the reply if that is an error.
unfoldable pub publish_on :
    Amqp
    → ℕ
    → ℕ
    → String
    → String
    → String
    → (List Call → ℕ × List Call)
    → List Call
    → ℕ × List Call
unfolding negative
publish_on amqp conn ch exchange key msg rest t =
    let c = basic_publish conn ch exchange key msg in
    if not (amqp.status t c == 0) && not (error_msg (amqp.reply (c ∷ t)) == 0)
    then (negative 3, channel_close conn ch ∷ c ∷ t)
    else rest (c ∷ t)

unfoldable pub publish :
    Amqp → CRabbitmqClient → String → String → String → ℕ → List Call → ℕ × List Call
publish amqp m msg exchange key n =
    let conn = m.conn in
    let ch = channel n in
    connected m (
      open_channel amqp conn ch
        (publish_on amqp conn ch exchange key msg (λ u. (0, channel_close conn ch ∷ u))))

-- `Send`, on a channel that `SetSend` opened.
unfoldable pub send :
    Amqp → CRabbitmqClient → String → String → String → ℕ → List Call → ℕ × List Call
send amqp m msg exchange key n = publish_on amqp m.conn (channel n) exchange key msg (λ u. (0, u))

unfoldable pub set_send : Amqp → CRabbitmqClient → String → String → ℕ → List Call → ℕ × List Call
unfolding ask negative
set_send amqp m exchange type n =
    let conn = m.conn in
    let ch = channel n in
    open_channel amqp conn ch
      (ask amqp conn ch (exchange_find conn ch exchange type) (negative 1) (λ u. (0, u)))
