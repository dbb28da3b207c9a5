-- ===== src/OldClient/Channels.antt =====
-- The requests of `CRabbitmqClient` that open a channel for themselves close it again.
use rundo_dahua_sdk_edge.Common.{
  ℕ, ◌≡◌, ◌≢◌, refl, ◌⊎◌, inl, inr, Bool-cases, List, [], ◌∷◌, ◌++◌, String, ◌==◌, arith, false,
}
use rundo_dahua_sdk_edge.Mq.{
  Amqp, Call, channel_open, channel_close, exchange_find, queue_declare, queue_bind, queue_unbind,
  queue_delete, basic_publish, negative,
}
use rundo_dahua_sdk_edge.OldClient.{
  CRabbitmqClient, channel, error_msg, ask, once, connected, open_channel, publish_on,
  exchange_declare_on, queue_declare_on, queue_bind_on, queue_unbind_on, queue_delete_on, publish,
}

-- The calls `u` are `t`, then the opening of the channel, at most one request, and the closing of the
-- channel.
abbrev pub Brackets : ℕ → ℕ → List Call → List Call → Type 0
Brackets conn ch t u =
    (request : List Call) × (u ≡ channel_close conn ch ∷ (request ++ channel_open conn ch ∷ t))
    × ((request ≡ []) ⊎ ((c : Call) × (request ≡ c ∷ [])))

module _ (amqp : Amqp) (conn ch : ℕ) (t : List Call) where
  once-Brackets : (c : Call) → Brackets conn ch t (once amqp conn ch c t).1
  unfolding once ask
  once-Brackets c = elim (Bool-cases (error_msg (amqp.reply (c ∷ channel_open conn ch ∷ t)) == 0)) [
    | inl e ↦ (c ∷ [], rw (e, once) refl, inr (c, refl))
    | inr e ↦ (c ∷ [], rw (e, once) refl, inr (c, refl))
  ]

  open_channel-Brackets :
      (rest : List Call → ℕ × List Call)
      → Brackets conn ch t (rest (channel_open conn ch ∷ t)).1
      → Brackets conn ch t (open_channel amqp conn ch rest t).1
  unfolding open_channel ask
  open_channel-Brackets rest b =
      elim (Bool-cases (error_msg (amqp.reply (channel_open conn ch ∷ t)) == 0)) [
        | inl e ↦ rw (e, open_channel) b
        | inr e ↦ ([], rw (e, open_channel) refl, inl refl)
      ]

module _ (amqp : Amqp) (m : CRabbitmqClient) (n : ℕ) (t : List Call) (live : m.conn ≢ 0) where
  connected-Brackets :
      (method : List Call → ℕ × List Call)
      → Brackets m.conn (channel n) t (method t).1
      → Brackets m.conn (channel n) t (connected m method t).1
  unfolding connected
  connected-Brackets method b =
      let here : (m.conn == 0) ≡ false = ground arith in rw (here, connected) b

  -- A call and then the closing of the channel, whatever comes of the call.
  closing-Brackets :
      (c : Call) (code : ℕ)
      → Brackets m.conn
          (channel n)
          t
          (ask amqp m.conn
            (channel n)
            c
            code
            (λ u. (0, channel_close m.conn (channel n) ∷ u))
            (channel_open m.conn (channel n) ∷ t)).1
  unfolding ask
  closing-Brackets c code =
      elim (Bool-cases (error_msg (amqp.reply (c ∷ channel_open m.conn (channel n) ∷ t)) == 0)) [
        | inl e ↦ (c ∷ [], rw (e, ask) refl, inr (c, refl))
        | inr e ↦ (c ∷ [], rw (e, ask) refl, inr (c, refl))
      ]

  publish_on-Brackets :
      (exchange key msg : String)
      → Brackets m.conn
          (channel n)
          t
          (publish_on amqp m.conn
            (channel n)
            exchange
            key
            msg
            (λ u. (0, channel_close m.conn (channel n) ∷ u))
            (channel_open m.conn (channel n) ∷ t)).1
  unfolding publish_on
  publish_on-Brackets exchange key msg =
      let c = basic_publish m.conn (channel n) exchange key msg in
      (c ∷ [], ground arith, inr (c, refl))

  -- Whatever the broker answers, each request of a connected client opens its channel, makes at most one
  -- call on it, and closes it.
  pub requests-Brackets :
      (a b c : String) (k : ℕ)
      → Brackets m.conn (channel n) t (exchange_declare_on amqp m a b n t).1
        × Brackets m.conn (channel n) t (queue_declare_on amqp m a n t).1
        × Brackets m.conn (channel n) t (queue_bind_on amqp m a b c n t).1
        × Brackets m.conn (channel n) t (queue_unbind_on amqp m a b c n t).1
        × Brackets m.conn (channel n) t (queue_delete_on amqp m a k n t).1
        × Brackets m.conn (channel n) t (publish amqp m a b c n t).1
  unfolding exchange_declare_on queue_declare_on queue_bind_on queue_unbind_on queue_delete_on
      publish
  requests-Brackets a b c k =
      let conn = m.conn in
      let ch = channel n in
      (
        once-Brackets amqp conn ch t (exchange_find conn ch a b),
        connected-Brackets _ (once-Brackets amqp conn ch t (queue_declare conn ch a)),
        connected-Brackets _ (once-Brackets amqp conn ch t (queue_bind conn ch a b c)),
        connected-Brackets _ (once-Brackets amqp conn ch t (queue_unbind conn ch a b c)),
        connected-Brackets _ (
            open_channel-Brackets amqp conn ch t _
              (closing-Brackets (queue_delete conn ch a k) (negative 3))),
        connected-Brackets _ (open_channel-Brackets amqp conn ch t _ (publish_on-Brackets b c a)),
      )
