-- ===== src/Mq.antt =====
-- src/rabbitMQ.h and src/rabbitMQ.cpp: `rabbitmqClient` over the AMQP library (librabbitmq), whose
-- answers are unknown functions of the calls made so far. Pointers are numbers, NULL is 0, and a C
-- `int` is its 32-bit pattern.
pub mod Queues
pub mod Transfer
pub mod Confirm
pub mod Tests
use rundo_dahua_sdk_edge.Common.{
  ℕ, ◌+◌, ◌-◌, ◌%◌, ◌^◌, Bool, true, false, not, List, [], ◌∷◌, String, ◌==◌, ltb, leb,
  if◌then◌else◌,
}
use rundo_dahua_sdk_edge.Sdk.{minus_one}

-- One constructor for each library function that is called.
pub data Call : Type 0 where
  new_connection : Call
  tcp_socket_new : ℕ → Call
  socket_open : ℕ → String → ℕ → Call
  login : ℕ → String → String → Call
  channel_open : ℕ → ℕ → Call
  channel_close : ℕ → ℕ → Call
  connection_close : ℕ → Call
  destroy_connection : ℕ → Call
  exchange_declare : ℕ → ℕ → String → String → Bool → Call
  confirm_select : ℕ → ℕ → Call
  queue_declare : ℕ → ℕ → String → Call
  queue_bind queue_unbind : ℕ → ℕ → String → String → String → Call
  queue_delete : ℕ → ℕ → String → ℕ → Call
  basic_publish : ℕ → ℕ → String → String → String → Call
  wait_frame : ℕ → Call
  read_message : ℕ → Call
  basic_qos : ℕ → ℕ → ℕ → Call
  basic_consume : ℕ → ℕ → String → Bool → Call
  consume_message : ℕ → Call
  basic_nack : ℕ → ℕ → ℕ → Call  -- of a delivery tag, with `multiple`
  basic_cancel : ℕ → ℕ → Call
  -- Calls of src/rabbitmqclient.cpp alone: a passive declaration, `amqp_basic_ack` of a delivery tag
  -- with `multiple`, and `amqp_basic_nack` of one without.
  exchange_find : ℕ → ℕ → String → String → Call
  ack_up_to nack_one : ℕ → ℕ → ℕ → Call

-- `amqp_rpc_reply_t`, by its `reply_type`.
pub data Reply : Type 0 where
  normal no_reply library_exception server_exception : Reply

-- The method of a frame, as far as the code tells methods apart.
pub data Method : Type 0 where
  basic_ack basic_return other : Method

pub record Frame : Type 0 where
  pub channel : ℕ
  pub method : Method
  pub delivery_tag : ℕ  -- of an acknowledgement; the code only writes it to the log

-- `amqp_consume_message`: the text of a message, or the reply's `library_error`.
pub data Consumed : Type 0 where
  delivered : String → Consumed
  failed : ℕ → Consumed

-- The library's answers: a pointer, a status, the reply to the last call, the frame that a wait leaves
-- in a frame that was zeroed, and what a consumer gets.
pub record Amqp : Type 0 where
  pub pointer : List Call → Call → ℕ
  pub status : List Call → Call → ℕ
  pub reply : List Call → Reply
  pub frame : List Call → Frame
  pub message : List Call → Consumed
  pub tag : List Call → ℕ

pub record Mq : Type 0 where
  pub hostname : String
  pub port : ℕ
  pub user : String
  pub passwd : String
  pub channel : ℕ  -- `m_iChannel`
  pub conn : ℕ  -- `m_pConn`
  pub channel_id : ℕ
  pub dis_conn : ℕ  -- `m_pDisConn`
  pub dis_channel : ℕ  -- `m_iDisChannel`

-- What a method leaves: its `int`, the client, and the calls made.
pub record MqRan : Type 0 where
  pub ret : ℕ
  pub mq : Mq
  pub calls : List Call

-- The negative results.
unfoldable pub negative : ℕ → ℕ
negative n = 2 ^ 32 - n

-- `ErrorMsg`; 10 is `socket_error`.
unfoldable pub error_msg : Reply → ℕ
error_msg normal = 0
error_msg library_exception = 10
error_msg _ = minus_one

-- `amqp_channel_t` is a 16-bit number.
abbrev pub channel_of : Mq → ℕ
channel_of m = m.channel % 2 ^ 16

-- The end of every failed request: the channel is closed and forgotten.
unfoldable pub drop_channel : ℕ → Mq → List Call → MqRan
drop_channel code m t = record {
  ret = code;
  mq = record m { channel_id = 0 };
  calls = channel_close m.conn (channel_of m) ∷ t;
}

-- `if (!channel_id) { … }`: open the channel, and return `code` if that fails.
unfoldable pub ensure_channel : Amqp → ℕ → Mq → List Call → MqRan
unfolding drop_channel
ensure_channel amqp code m t =
    let c = channel_open m.conn (channel_of m) in
    let opened = record m { channel_id = amqp.pointer t c } in
    if m.channel_id == 0
    then (if error_msg (amqp.reply (c ∷ t)) == 0
        then record { ret = 0; mq = opened; calls = c ∷ t }
        else drop_channel code opened (c ∷ t))
    else record { ret = 0; mq = m; calls = t }

-- A request and the test of its reply.
unfoldable pub request : Amqp → Call → ℕ → Mq → List Call → MqRan
unfolding drop_channel
request amqp c code m t =
    if error_msg (amqp.reply (c ∷ t)) == 0
    then record { ret = 0; mq = m; calls = c ∷ t }
    else drop_channel code m (c ∷ t)

-- A step that is made only if the one before it succeeded.
abbrev pub then_do : MqRan → (Mq → List Call → MqRan) → MqRan
then_do r f = if r.ret == 0 then f r.mq r.calls else r

unfoldable pub connect : Amqp → String → ℕ → String → String → Mq → List Call → MqRan
connect amqp host port user passwd m t =
    let conn = amqp.pointer t new_connection in
    let t₁ = new_connection ∷ t in
    let m₁ = record m { hostname = host; port = port; user = user; passwd = passwd; conn = conn } in
    let sock = amqp.pointer t₁ (tcp_socket_new conn) in
    let t₂ = tcp_socket_new conn ∷ t₁ in
    let open_status = amqp.status t₂ (socket_open sock host port) in
    let t₃ = socket_open sock host port ∷ t₂ in
    let t₄ = login conn user passwd ∷ t₃ in
    if conn == 0
    then record { ret = negative 1; mq = m₁; calls = t₁ }
    else if sock == 0
    then record { ret = negative 2; mq = m₁; calls = t₂ }
    else if leb (2 ^ 31) open_status
    then record { ret = negative 3; mq = m₁; calls = t₃ }
    else if not (error_msg (amqp.reply t₄) == 0)
    then record { ret = negative 4; mq = m₁; calls = t₄ }
    else record { ret = 0; mq = record m₁ { channel_id = 0 }; calls = t₄ }

unfoldable pub disconnect : Amqp → Mq → List Call → MqRan
disconnect amqp m t =
    let t₁ = if m.channel_id == 0 then t else channel_close m.conn (channel_of m) ∷ t in
    let m₁ = record m { channel_id = 0 } in
    let t₂ = connection_close m.conn ∷ t₁ in
    let d = destroy_connection m.conn in
    if not (error_msg (amqp.reply t₂) == 0)
    then record { ret = negative 1; mq = m₁; calls = t₂ }
    else (if leb (2 ^ 31) (amqp.status t₂ d)
        then record { ret = negative 2; mq = m₁; calls = d ∷ t₂ }
        else record { ret = 0; mq = record m₁ { conn = 0 }; calls = d ∷ t₂ })

-- `DisconnectEx`, over the connection that a failed `Publish` set aside.
unfoldable pub disconnect_ex : Amqp → Mq → List Call → Mq × List Call
disconnect_ex amqp m t =
    let t₁ =
      if m.channel_id == 0 then t else channel_close m.dis_conn (m.dis_channel % 2 ^ 16) ∷ t in
    let m₁ = record m { channel_id = 0 } in
    let t₂ = connection_close m.dis_conn ∷ t₁ in
    let d = destroy_connection m.dis_conn in
    if not (error_msg (amqp.reply t₂) == 0)
    then (m₁, t₂)
    else (if leb (2 ^ 31) (amqp.status t₂ d)
        then (m₁, d ∷ t₂)
        else (record m₁ { dis_conn = 0; dis_channel = 0 }, d ∷ t₂))

-- `ExchangeDeclare` takes the next channel number whenever it has to open a channel.
unfoldable pub exchange_declare_on : Amqp → String → String → Bool → Mq → List Call → MqRan
exchange_declare_on amqp exchange type durable m t =
    let m₁ = if m.channel_id == 0 then record m { channel = (m.channel + 1) % 2 ^ 32 } else m in
    then_do (ensure_channel amqp (negative 2) m₁ t) (λ m₂ t₂.
      then_do
        (request amqp (exchange_declare m₂.conn (channel_of m₂) exchange type durable) (negative 1)
          m₂ t₂)
        (λ m₃ t₃. record { ret = 0; mq = m₃; calls = confirm_select m₃.conn (channel_of m₃) ∷ t₃ }))

-- `CheckChannelStatu` opens the channel again, and forgets what it got.
unfoldable pub check_channel_statu : Amqp → Mq → List Call → Bool × List Call
check_channel_statu amqp m t =
    let c = channel_open m.conn (channel_of m) in (not (amqp.pointer t c == 0), c ∷ t)

-- The constructor; `channel_id` and the connection that is set aside hold whatever the memory held.
unfoldable pub new_client : ℕ → ℕ → ℕ → Mq
new_client channel_id dis_conn dis_channel = record {
  hostname = "";
  port = 0;
  user = "";
  passwd = "";
  channel = 1;
  conn = 0;
  channel_id = channel_id;
  dis_conn = dis_conn;
  dis_channel = dis_channel;
}

-- The destructor.
unfoldable pub delete_client : Amqp → Mq → List Call → List Call
delete_client amqp m t = if m.conn == 0 then t else (disconnect amqp m t).calls
