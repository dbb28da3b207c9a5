-- ===== src/OldClient/Consume.antt =====
-- `CRabbitmqClient::Consumer`, `SetRecv` and `receiveFunction`: messages in, each answered with an
-- acknowledgement or given back. What the callback is given is a list, oldest first.
use rundo_dahua_sdk_edge.Common.{
  ℕ, zero, suc, ◌-◌, ◌^◌, ◌%◌, Bool, true, false, not, List, [], ◌∷◌, ◌++◌, String, ◌==◌,
  if◌then◌else◌,
}
use rundo_dahua_sdk_edge.Mq.{
  Amqp, Call, Reply, delivered, failed, channel_close, queue_declare, queue_bind, basic_qos,
  basic_consume, consume_message, ack_up_to, nack_one, negative,
}
use rundo_dahua_sdk_edge.OldClient.{CRabbitmqClient, channel, ask, open_channel}

-- What `Consumer` leaves: its `int`, what the callback was given, the client, and the calls made.
pub record Consuming : Type 0 where
  pub ret : ℕ
  pub received : List String
  pub client : CRabbitmqClient
  pub calls : List Call

-- How the message of a delivery tag is answered. The acknowledgement is sent with `multiple`: it holds
-- for that message and for any before it that is still open.
unfoldable pub answer : ℕ → ℕ → Bool → ℕ → Call
answer conn ch mine tag = if mine then ack_up_to conn ch tag else nack_one conn ch tag

-- What the callback has been given, after a message.
unfoldable pub call_back : Bool → String → List String → List String
call_back mine str received = if mine then received ++ str ∷ [] else received

-- The loop `while (GetNum > 0)`; `none_yet` is `0 == hasget`, and `number` the value of an
-- `amqp_response_type_enum`.
unfoldable pub consume :
    Amqp
    → (Reply → ℕ)
    → (String → Bool)
    → ℕ
    → ℕ
    → Bool
    → List String
    → CRabbitmqClient
    → List Call
    → Consuming
unfolding answer call_back negative
consume amqp number mine ch zero none_yet received m t = record {
  ret = 0;
  received = received;
  client = m;
  calls = t;
}
consume amqp number mine ch (suc n) none_yet received m t =
    let m₁ = record m { consumer = true } in
    let t₁ = consume_message m.conn ∷ t in
    elim (amqp.message t₁) [
      | failed e ↦ record {
        ret = if none_yet then (2 ^ 32 - number (amqp.reply t₁)) % 2 ^ 32 else 0;
        received = received;
        client = record m { consumer = false };
        calls = channel_close m.conn ch ∷ t₁;
      }
      | delivered str ↦
          let c = answer m.conn ch (mine str) (amqp.tag t₁) in
          let got = call_back (mine str) str received in
          let rest = consume amqp number mine ch n false got m₁ (c ∷ t₁) in
          if amqp.status t₁ c == 0 then rest else record {
            ret = negative 4;
            received = got;
            client = m₁;
            calls = channel_close m.conn ch ∷ c ∷ t₁;
          }
    ]

-- `basic_consume` after the limit on messages under way.
unfoldable pub subscribe :
    Amqp → ℕ → ℕ → String → ℕ → (List Call → ℕ × List Call) → List Call → ℕ × List Call
unfolding ask negative
subscribe amqp conn ch queue get_num rest t =
    ask amqp conn ch (basic_consume conn ch queue false) (negative 3) rest
      (basic_qos conn ch get_num ∷ t)

-- `if (!m_consumer) { … }`: a client that consumes already does not subscribe again.
unfoldable pub ensure_consumer : Amqp → Bool → ℕ → ℕ → String → ℕ → List Call → ℕ × List Call
ensure_consumer amqp already conn ch queue get_num t =
    if already
    then (0, t)
    else open_channel amqp conn ch (subscribe amqp conn ch queue get_num (λ u. (0, u))) t

-- `Consumer`
unfoldable pub consumer :
    Amqp → (Reply → ℕ) → (String → Bool) → String → ℕ → ℕ → CRabbitmqClient → List Call → Consuming
unfolding negative
consumer amqp number mine queue n get_num m t =
    let ch = channel n in
    let (ret, calls) = ensure_consumer amqp m.consumer m.conn ch queue get_num t in
    if m.conn == 0
    then record { ret = negative 1; received = []; client = m; calls = t }
    else if not (ret == 0)
    then record { ret = ret; received = []; client = m; calls = calls }
    else consume amqp number mine ch get_num true [] m calls

-- `SetRecv`; when it returns 0 the thread of `receiveFunction` starts.
unfoldable pub set_recv :
    Amqp
    → String
    → String
    → String
    → String
    → ℕ
    → ℕ
    → CRabbitmqClient
    → List Call
    → ℕ × CRabbitmqClient × List Call
unfolding ask negative
set_recv amqp exchange queue key serial_num get_num n m t =
    let conn = m.conn in
    let ch = channel n in
    let (ret, calls) =
      open_channel amqp conn ch
        (ask amqp conn ch (queue_declare conn ch queue) (negative 1) (
          ask amqp conn ch (queue_bind conn ch queue exchange key) (negative 1)
            (subscribe amqp conn ch queue get_num (λ u. (0, u)))))
        t in
    (ret, if ret == 0 then record m { serial_num = serial_num } else m, calls)

-- What a round of `receiveFunction` leaves: whether the thread goes on, what the callback has been
-- given, and the calls made.
pub record Round : Type 0 where
  pub goes_on : Bool
  pub received : List String
  pub calls : List Call

-- A round of its endless loop. After a failed consume it goes on with what the envelope holds, `left`.
unfoldable pub receive_round :
    Amqp
    → (List Call → String)
    → (String → Bool)
    → ℕ
    → List String
    → CRabbitmqClient
    → List Call
    → Round
unfolding answer call_back
receive_round amqp left mine ch received m t =
    let t₁ = consume_message m.conn ∷ t in
    let str : String = elim (amqp.message t₁) [ failed e ↦ left t₁ | delivered s ↦ s ] in
    let t₂ : List Call = elim (amqp.message t₁) [
      | failed e ↦ channel_close m.conn ch ∷ t₁
      | delivered s ↦ t₁
    ] in
    let c = answer m.conn ch (mine str) (amqp.tag t₁) in
    let got = call_back (mine str) str received in
    if amqp.status t₂ c == 0
    then record { goes_on = true; received = got; calls = c ∷ t₂ }
    else record { goes_on = false; received = got; calls = channel_close m.conn ch ∷ c ∷ t₂ }
