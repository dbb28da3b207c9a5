-- ===== src/Mq/Transfer.antt =====
-- `rabbitmqClient::Publish` and `Consumer`: a message out, with the broker's confirmation, and
-- messages in.
use rundo_dahua_sdk_edge.Common.{
  ℕ, zero, suc, Bool, true, false, not, ◌&&◌, List, [], ◌∷◌, ◌++◌, String, ◌==◌, str_eq,
  if◌then◌else◌,
}
use rundo_dahua_sdk_edge.Mq.{
  Amqp, Mq, MqRan, Call, basic_ack, basic_return, other, delivered, failed, basic_publish,
  wait_frame, read_message, basic_qos, basic_consume, consume_message, basic_nack, channel_close,
  negative, error_msg, channel_of, drop_channel, ensure_channel, request, then_do,
}

-- What `Publish` makes of the frame that it waited for; `code` is the status of `amqp_basic_publish`.
unfoldable pub confirm : Amqp → ℕ → Mq → List Call → MqRan
confirm amqp code m t =
    let f = amqp.frame t in
    if f.channel == m.channel
    then (elim f.method [
      | basic_ack ↦ record { ret = code; mq = m; calls = t }
      | basic_return ↦ record {
        ret = negative 1;
        mq = m;
        calls = wait_frame m.conn ∷ read_message m.conn ∷ t;
      }
      | other ↦ record { ret = negative 2; mq = m; calls = t }
    ])
    else record {
      ret = negative 3;
      mq = record m { dis_channel = m.channel; dis_conn = m.conn };
      calls = t;
    }

-- `AMQP_STATUS_OK` is 0. A status that is an error is returned only if the reply is one too.
unfoldable pub publish : Amqp → String → String → String → Mq → List Call → MqRan
publish amqp msg exchange key m t =
    if m.conn == 0
    then record { ret = negative 1; mq = m; calls = t }
    else then_do (ensure_channel amqp (negative 4) m t) (λ m₁ t₁.
      let c = basic_publish m₁.conn (channel_of m₁) exchange key msg in
      let code = amqp.status t₁ c in
      if not (code == 0) && not (error_msg (amqp.reply (c ∷ t₁)) == 0)
      then drop_channel code m₁ (c ∷ t₁)
      else confirm amqp code m₁ (wait_frame m₁.conn ∷ c ∷ t₁))

-- `timeout_error`
abbrev pub timeout_error : ℕ
timeout_error = 20

-- What a consumer leaves: its `int`, the messages, the client, and the calls made. `freed_twice` is
-- undefined behaviour: the envelope of an empty message is destroyed twice, and what the program does
-- from there is not modelled, so the other fields then hold what there was before.
pub record Consuming : Type 0 where
  pub ret : ℕ
  pub messages : List String
  pub freed_twice : Bool
  pub mq : Mq
  pub calls : List Call

-- The loop `while (GetNum > 0)`. `mine` is `isMySerialNum`; no message is acknowledged, and one that
-- is not for this gateway is given back.
unfoldable pub consume :
    Amqp → (String → Bool) → Bool → Bool → ℕ → List String → Mq → List Call → Consuming
consume amqp mine filterate timeout zero messages m t = record {
  ret = 0;
  messages = messages;
  freed_twice = false;
  mq = m;
  calls = t;
}
consume amqp mine filterate timeout (suc n) messages m t =
    let t₁ = consume_message m.conn ∷ t in
    let dropped = record m { channel_id = 0 } in
    let t₂ = channel_close m.conn (channel_of m) ∷ t₁ in
    let nack = basic_nack m.conn (channel_of m) (amqp.tag t₁) in
    elim (amqp.message t₁) [
      | failed e ↦
          (let iret = error_msg (amqp.reply t₁) in
            record {
              ret = if (iret == 0) && timeout then timeout_error else e;
              messages = messages;
              freed_twice = false;
              mq = dropped;
              calls = t₂;
            })
      | delivered str ↦
          if str_eq str ""
          then record { ret = 0; messages = messages; freed_twice = true; mq = m; calls = t₁ }
          else if filterate && not (mine str)
          then (let rest = consume amqp mine filterate timeout n messages m (nack ∷ t₁) in
              if amqp.status t₁ nack == 0 then rest else record {
                ret = negative 4;
                messages = messages;
                freed_twice = false;
                mq = dropped;
                calls = channel_close m.conn (channel_of m) ∷ nack ∷ t₁;
              })
          else consume amqp mine filterate timeout n (messages ++ str ∷ []) m t₁
    ]

-- `Consumer`: subscribe, then take `get_num` messages. A filtered queue wants acknowledgements.
unfoldable pub consumer :
    Amqp → (String → Bool) → String → ℕ → Bool → Bool → Mq → List Call → Consuming
consumer amqp mine queue get_num filterate timeout m t =
    let r = ensure_channel amqp (negative 2) m t in
    let q =
      request amqp (basic_consume r.mq.conn (channel_of r.mq) queue (not filterate)) (negative 3)
        r.mq (basic_qos r.mq.conn (channel_of r.mq) get_num ∷ r.calls) in
    if m.conn == 0
    then record { ret = negative 1; messages = []; freed_twice = false; mq = m; calls = t }
    else if not (r.ret == 0)
    then record { ret = r.ret; messages = []; freed_twice = false; mq = r.mq; calls = r.calls }
    else if not (q.ret == 0)
    then record { ret = q.ret; messages = []; freed_twice = false; mq = q.mq; calls = q.calls }
    else consume amqp mine filterate timeout get_num [] q.mq q.calls
