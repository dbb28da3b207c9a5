-- ===== src/Client/Send/Delivered.antt =====
-- What the thread `sent_business_func` hands to a broker that confirms.
use mathlib.Core.List.{append_assoc, append-nil}
use mathlib.Core.Path.{subst}
use rundo_dahua_sdk_edge.Common.{
  ◌≡◌, ◌≢◌, refl, sym, ◌∙◌, false, List, [], ◌∷◌, ◌++◌, String, length, arith,
}
use rundo_dahua_sdk_edge.Mq.{
  Amqp, Call, basic_ack, basic_publish, wait_frame, channel_of, ensure_channel,
}
use rundo_dahua_sdk_edge.Mq.Transfer.{publish, confirm}
use rundo_dahua_sdk_edge.Client.{Client}
use rundo_dahua_sdk_edge.Client.Send.{
  send_business_queue, sent_business_round, sent_business_rounds,
}
use rundo_dahua_sdk_edge.Client.Send.Drained.{texts}

-- The client is connected over RabbitMQ, its last message arrived, and the broker takes each message
-- and acknowledges it on the client's channel.
pub record IsServed (amqp : Amqp) (c : Client) : Type 0 where
  pub rabbit : c.client_type ≡ 1
  pub settled : c.republic ≡ false
  pub connected : c.send_mq.conn ≢ 0
  pub opened : c.send_mq.channel_id ≢ 0
  pub taken : (t : List Call) (x : Call) → amqp.status t x ≡ 0
  pub answered : (t : List Call) → (amqp.frame t).channel ≡ c.send_mq.channel
  pub acked : (t : List Call) → (amqp.frame t).method ≡ basic_ack

publish-served :
    (amqp : Amqp) (msg : String) (c : Client) (t : List Call)
    → IsServed amqp c
    → publish amqp msg c.dynamic_exchange c.dynamic_routekey c.send_mq t ≡ record {
      ret = 0;
      mq = c.send_mq;
      calls =
          wait_frame c.send_mq.conn
          ∷ basic_publish c.send_mq.conn
              (channel_of c.send_mq)
              c.dynamic_exchange
              c.dynamic_routekey
              msg
          ∷ t;
    }
unfolding publish confirm ensure_channel
publish-served amqp msg c t h =
    let m = c.send_mq in
    let p = basic_publish m.conn (channel_of m) c.dynamic_exchange c.dynamic_routekey msg in
    ground (
      arith,
      h.connected,
      h.opened,
      h.taken t p,
      h.acked (wait_frame m.conn ∷ p ∷ t),
      h.answered (wait_frame m.conn ∷ p ∷ t),
    )

sent_business_round-served :
    (amqp : Amqp) (c : Client) (msg : String) (rest : List String) (t : List Call)
    → IsServed amqp c
    → c.business_msg_list ≡ msg ∷ rest
    → sent_business_round amqp c t ≡ (
      record c { business_msg_list = rest },
      wait_frame c.send_mq.conn
          ∷ basic_publish c.send_mq.conn
              (channel_of c.send_mq)
              c.dynamic_exchange
              c.dynamic_routekey
              msg
          ∷ t,
    )
unfolding sent_business_round send_business_queue
sent_business_round-served amqp c msg rest t h e =
    ground (arith, publish-served amqp msg c t h, h.rabbit, h.settled)

-- While the broker takes and acknowledges each message, as many rounds as messages were queued hand
-- over exactly the queued messages, each of them once and in the order of the list, and leave the
-- flag `_republic` down.
pub sent_business_rounds-served :
    (amqp : Amqp) (queued : List String) (c : Client) (t : List Call)
    → IsServed amqp c
    → c.business_msg_list ≡ queued
    → let r = sent_business_rounds amqp (length queued) c t in
      (texts r.1 ≡ texts t ++ queued) × (r.0.business_msg_list ≡ []) × (r.0.republic ≡ false)
unfolding sent_business_rounds texts
sent_business_rounds-served amqp [] c t h e = (sym (append-nil (texts t)), e, h.settled)
sent_business_rounds-served amqp (msg ∷ rest) c t h e =
    let c₁ = record c { business_msg_list = rest } in
    let h₁ : IsServed amqp c₁ = record {
      rabbit = h.rabbit;
      settled = h.settled;
      connected = h.connected;
      opened = h.opened;
      taken = h.taken;
      answered = h.answered;
      acked = h.acked;
    } in
    let step = sent_business_round-served amqp c msg rest t h e in
    let (handed, empty, down) = sent_business_rounds-served amqp rest c₁ _ h₁ refl in
    subst
      (λ (r : Client × List Call).
        let u = sent_business_rounds amqp (length rest) r.0 r.1 in
        (texts u.1 ≡ texts t ++ msg ∷ rest) × (u.0.business_msg_list ≡ []) × (u.0.republic ≡ false))
      (sym step) (handed ∙ append_assoc (texts t) (msg ∷ []) rest, empty, down)
