-- ===== src/Mq/Confirm.antt =====
-- What the results of the message-queue client mean.
use rundo_dahua_sdk_edge.Common.{
  ℕ, zero, suc, ◌+◌, ◌≡◌, ◌≤◌, refl, Bool, true, false, List, [], ◌∷◌, ◌++◌, String, ◌==◌, All,
  length, length-append, arith, Bool-cases, str_eq, ◌⊎◌, inl, inr,
}
use rundo_dahua_sdk_edge.Mq.{
  Amqp, Mq, MqRan, Call, Consumed, basic_ack, delivered, failed, basic_publish, wait_frame,
  basic_qos, basic_consume, consume_message, basic_nack, negative, channel_of, drop_channel,
  ensure_channel, request,
}
use rundo_dahua_sdk_edge.Mq.Queues.{
  queue_declare_on, queue_bind_on, queue_unbind_on, queue_delete_on, on_queue,
}
use rundo_dahua_sdk_edge.Mq.Transfer.{confirm, publish, consume, consumer}

-- `Publish` returns 0 only if the last call waited for a frame, that frame came on the client's own
-- channel and is an acknowledgement, and the call before it handed over this very message. Whether the
-- acknowledgement is that of this message is open: nothing looks at its delivery tag.
pub publish_confirmed :
    (amqp : Amqp) (msg exchange key : String) (m : Mq) (t : List Call)
    → (publish amqp msg exchange key m t).ret ≡ 0
    → let r = publish amqp msg exchange key m t in
      ((amqp.frame r.calls).method ≡ basic_ack)
      × ((amqp.frame r.calls).channel ≡ r.mq.channel)
      × (u : List Call) × (r.calls
          ≡ wait_frame r.mq.conn ∷ basic_publish r.mq.conn (channel_of r.mq) exchange key msg ∷ u)
unfolding publish confirm drop_channel negative ensure_channel
publish_confirmed amqp msg exchange key m t h =
    (ground arith, ground arith, (ensure_channel amqp (negative 4) m t).calls, ground arith)

-- A client that is not connected refuses every request with -1 and makes no call.
pub unconnected :
    (amqp : Amqp) (mine : String → Bool) (a b c : String) (n : ℕ) (filterate timeout : Bool)
    (m : Mq) (t : List Call)
    → m.conn ≡ 0
    → let refused : MqRan = record { ret = negative 1; mq = m; calls = t } in
      (publish amqp a b c m t ≡ refused)
      × (queue_declare_on amqp a m t ≡ refused)
      × (queue_bind_on amqp a b c m t ≡ refused)
      × (queue_unbind_on amqp a b c m t ≡ refused)
      × (queue_delete_on amqp a n m t ≡ refused)
      × (consumer amqp mine a n filterate timeout m t
          ≡ record { ret = negative 1; messages = []; freed_twice = false; mq = m; calls = t })
unfolding publish on_queue queue_declare_on queue_bind_on queue_unbind_on queue_delete_on negative
    consumer
unconnected amqp mine a b c n filterate timeout m t e =
    (ground arith, ground arith, ground arith, ground arith, ground arith, ground arith)

Consumed-cases : (c : Consumed) → ((e : ℕ) × (c ≡ failed e)) ⊎ ((s : String) × (c ≡ delivered s))
Consumed-cases (failed e) = inl (e, refl)
Consumed-cases (delivered s) = inr (s, refl)

consume-length :
    (amqp : Amqp) (mine : String → Bool) (f timeout : Bool) (n : ℕ) (messages : List String)
    (m : Mq) (t : List Call)
    → length (consume amqp mine f timeout n messages m t).messages ≤ n + length messages
unfolding consume
consume-length amqp mine f timeout zero messages m t = ground arith
consume-length amqp mine f timeout (suc n) messages m t =
    let t₁ = consume_message m.conn ∷ t in
    elim (Consumed-cases (amqp.message t₁)) [
      | inl (e, p) ↦ rw (p, length) (ground arith)
      | inr (s, p) ↦
          rw (p, length)
            (ground (
              arith,
              length-append messages (s ∷ []),
              consume-length amqp mine f timeout n messages m
                  (basic_nack m.conn (channel_of m) (amqp.tag t₁) ∷ t₁),
              consume-length amqp mine f timeout n (messages ++ s ∷ []) m t₁,
            ))
    ]

All-snoc :
    (P : String → Type 0) (l : List String) {s : String} → All P l → P s → All P (l ++ s ∷ [])
All-snoc P [] a p = (p, tt)
All-snoc P (x ∷ l) (q, a) p = (q, All-snoc P l a p)

consume-mine :
    (amqp : Amqp) (mine : String → Bool) (timeout : Bool) (n : ℕ) (messages : List String) (m : Mq)
    (t : List Call)
    → All (λ s. mine s ≡ true) messages
    → All (λ s. mine s ≡ true) (consume amqp mine true timeout n messages m t).messages
unfolding consume
consume-mine amqp mine timeout zero messages m t a = a
consume-mine amqp mine timeout (suc n) messages m t a =
    let t₁ = consume_message m.conn ∷ t in
    let t₂ = basic_nack m.conn (channel_of m) (amqp.tag t₁) ∷ t₁ in
    elim (Consumed-cases (amqp.message t₁)) [
      | inl (e, p) ↦ rw (p, All) a
      | inr (s, p) ↦
          rw (p, All)
            (elim (Bool-cases (str_eq s "")) [
              | inl z ↦ rw (z, All) a
              | inr z ↦
                  rw (z, All)
                    (elim (Bool-cases (mine s)) [
                      | inl q ↦
                          rw (q, All)
                            (consume-mine amqp mine timeout n (messages ++ s ∷ []) m t₁
                              (All-snoc (λ s. mine s ≡ true) messages a q))
                      | inr q ↦
                          rw (q, All)
                            (elim (Bool-cases (
                              amqp.status t₁ (basic_nack m.conn (channel_of m) (amqp.tag t₁))
                              == 0)) [
                                | inl z ↦
                                    rw (z, All) (consume-mine amqp mine timeout n messages m t₂ a)
                                | inr z ↦ rw (z, All) a
                              ])
                    ])
            ])
    ]

-- A filtered consumer hands over only messages for this gateway, and never more than were asked for.
pub consumer-mine :
    (amqp : Amqp) (mine : String → Bool) (queue : String) (n : ℕ) (timeout : Bool) (m : Mq)
    (t : List Call)
    → let r = consumer amqp mine queue n true timeout m t in
      All (λ s. mine s ≡ true) r.messages × (length r.messages ≤ n)
unfolding consumer
consumer-mine amqp mine queue n timeout m t =
    let r = ensure_channel amqp (negative 2) m t in
    let q =
      request amqp (basic_consume r.mq.conn (channel_of r.mq) queue false) (negative 3) r.mq
        (basic_qos r.mq.conn (channel_of r.mq) n ∷ r.calls) in
    elim (Bool-cases (m.conn == 0)) [
      | inl c ↦ rw (c, All, length) (tt, ground arith)
      | inr c ↦ elim (Bool-cases (r.ret == 0)) [
        | inr d ↦ rw (c, d, All, length) (tt, ground arith)
        | inl d ↦ elim (Bool-cases (q.ret == 0)) [
          | inr e ↦ rw (c, d, e, All, length) (tt, ground arith)
          | inl e ↦
              rw (c, d, e, All, length)
                (
                  consume-mine amqp mine timeout n [] q.mq q.calls tt,
                  ground (arith, consume-length amqp mine true timeout n [] q.mq q.calls),
                )
        ]
      ]
    ]
