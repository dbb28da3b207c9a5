-- ===== src/Mq/Queues.antt =====
-- `rabbitmqClient`'s requests about queues: `QueueDeclare`, `QueueBind`, `QueueUnbind`, `QueueDelete`,
-- and `CancelConsuming`.
use rundo_dahua_sdk_edge.Common.{ℕ, List, ◌∷◌, String, ◌==◌, if◌then◌else◌}
use rundo_dahua_sdk_edge.Mq.{
  Call, Amqp, Mq, MqRan, channel_open, queue_declare, queue_bind, queue_unbind, queue_delete,
  basic_cancel, negative, error_msg, channel_of, drop_channel, ensure_channel, request, then_do,
}

-- The four queue requests differ in the call and in the codes of their errors; `QueueBind` returns
-- the code of `ErrorMsg` when the channel cannot be opened.
unfoldable pub on_queue : Amqp → ℕ → ℕ → (ℕ → ℕ → Call) → Mq → List Call → MqRan
on_queue amqp open_code code c m t =
    if m.conn == 0
    then record { ret = negative 1; mq = m; calls = t }
    else then_do (ensure_channel amqp open_code m t)
        (λ m₁ t₁. request amqp (c m₁.conn (channel_of m₁)) code m₁ t₁)

unfoldable pub queue_declare_on : Amqp → String → Mq → List Call → MqRan
queue_declare_on amqp queue =
    on_queue amqp (negative 2) (negative 1) (λ conn ch. queue_declare conn ch queue)

unfoldable pub queue_bind_on : Amqp → String → String → String → Mq → List Call → MqRan
queue_bind_on amqp queue exchange key m t =
    on_queue amqp (error_msg (amqp.reply (channel_open m.conn (channel_of m) ∷ t))) (negative 1)
      (λ conn ch. queue_bind conn ch queue exchange key) m t

unfoldable pub queue_unbind_on : Amqp → String → String → String → Mq → List Call → MqRan
queue_unbind_on amqp queue exchange key =
    on_queue amqp (negative 2) (negative 1) (λ conn ch. queue_unbind conn ch queue exchange key)

-- `QueueDelete` closes the channel after a success too.
unfoldable pub queue_delete_on : Amqp → String → ℕ → Mq → List Call → MqRan
queue_delete_on amqp queue unused m t =
    then_do
      (on_queue amqp (negative 2) (negative 3) (λ conn ch. queue_delete conn ch queue unused) m t)
      (λ m₁ t₁. drop_channel 0 m₁ t₁)

-- `CancelConsuming`
unfoldable pub cancel_consuming : Amqp → Mq → List Call → MqRan
cancel_consuming amqp m t = record {
  ret = 0;
  mq = m;
  calls = basic_cancel m.conn (channel_of m) ∷ t;
}
