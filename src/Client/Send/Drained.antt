-- ===== src/Client/Send/Drained.antt =====
-- What the thread `sent_business_func` hands to the broker of the messages that were queued.
use mathlib.Core.List.{append_assoc, append-nil}
use rundo_dahua_sdk_edge.Common.{
  ℕ, zero, suc, ◌≡◌, ◌≤◌, refl, ap, sym, ◌∙◌, ◌⊎◌, inl, inr, Bool, true, List, [], ◌∷◌, ◌++◌,
  String, length, arith,
}
use rundo_dahua_sdk_edge.Mailbox.{signal}
use rundo_dahua_sdk_edge.Mq.{
  Amqp, Mq, Call, basic_publish, connect, exchange_declare_on, ensure_channel, request,
  drop_channel,
}
use rundo_dahua_sdk_edge.Mq.Transfer.{publish, confirm}
use rundo_dahua_sdk_edge.Client.{Client}
use rundo_dahua_sdk_edge.Client.Send.Confirmed.{sent_business_round-list}
use rundo_dahua_sdk_edge.Client.Send.{
  resend, send_business_queue, sent_business_round, sent_business_rounds,
}

-- The messages that a history hands to the broker, the oldest first.
unfoldable pub texts : List Call → List String
texts [] = []
texts (basic_publish _ _ _ _ msg ∷ t) = texts t ++ msg ∷ []
texts (_ ∷ t) = texts t

unfoldable pub copies : ℕ → String → List String
copies zero msg = []
copies (suc n) msg = msg ∷ copies n msg

-- The second list is the first with each text repeated, at most twice, or left out.
unfoldable pub Repeats : List String → List String → Type 0
Repeats [] ys = ys ≡ []
Repeats (x ∷ xs) ys =
    (n : ℕ) × (n ≤ 2) × (rest : List String) × Repeats xs rest × (ys ≡ copies n x ++ rest)

publish-texts :
    (amqp : Amqp) (msg exchange key : String) (m : Mq) (t : List Call)
    → let u = texts (publish amqp msg exchange key m t).calls in
      (u ≡ texts t) ⊎ (u ≡ texts t ++ msg ∷ [])
unfolding texts publish confirm ensure_channel drop_channel
publish-texts amqp msg exchange key m t = ground arith

connect-texts :
    (amqp : Amqp) (host : String) (port : ℕ) (user pws : String) (m : Mq) (t : List Call)
    → texts (connect amqp host port user pws m t).calls ≡ texts t
unfolding texts connect
connect-texts amqp host port user pws m t = ground arith

declare-texts :
    (amqp : Amqp) (exchange type : String) (durable : Bool) (m : Mq) (t : List Call)
    → texts (exchange_declare_on amqp exchange type durable m t).calls ≡ texts t
unfolding texts exchange_declare_on ensure_channel request drop_channel
declare-texts amqp exchange type durable m t = ground arith

resend-texts :
    (amqp : Amqp) (msg : String) (c : Client) (t : List Call)
    → let u = texts (resend amqp msg c t).1 in (u ≡ texts t) ⊎ (u ≡ texts t ++ msg ∷ [])
unfolding resend
resend-texts amqp msg c t =
    let k = connect amqp c.ip c.port c.user c.pws c.send_mq t in
    let e = exchange_declare_on amqp c.dynamic_exchange "topic" true k.mq k.calls in
    ground (
      arith,
      connect-texts amqp c.ip c.port c.user c.pws c.send_mq t,
      declare-texts amqp c.dynamic_exchange "topic" true k.mq k.calls,
      publish-texts amqp msg c.dynamic_exchange c.dynamic_routekey e.mq e.calls,
    )

-- At most two copies of a message stand behind what a history had handed over.
abbrev Tried : String → List Call → List Call → Type 0
Tried msg t u = (n : ℕ) × (n ≤ 2) × (texts u ≡ texts t ++ copies n msg)

send-texts :
    (amqp : Amqp) (msg : String) (c : Client) (t : List Call)
    → let u = texts (send_business_queue amqp msg c t).calls in
      (u ≡ texts t) ⊎ ((u ≡ texts t ++ msg ∷ []) ⊎ (u ≡ (texts t ++ msg ∷ []) ++ msg ∷ []))
unfolding send_business_queue
send-texts amqp msg c t =
    let p = publish amqp msg c.dynamic_exchange c.dynamic_routekey c.send_mq t in
    let failed = record c {
      send_mq = p.mq;
      republic = true;
      disconnet_ev = signal 1 c.disconnet_ev;
    } in
    ground (
      arith,
      publish-texts amqp msg c.dynamic_exchange c.dynamic_routekey c.send_mq t,
      resend-texts amqp msg c t,
      resend-texts amqp msg failed p.calls,
    )

send-Tried :
    (amqp : Amqp) (msg : String) (c : Client) (t : List Call)
    → Tried msg t (send_business_queue amqp msg c t).calls
unfolding copies
send-Tried amqp msg c t = elim (send-texts amqp msg c t) [
  | inl e ↦ (0, omega arith, e ∙ sym (append-nil (texts t)))
  | inr (inl e) ↦ (1, omega arith, e)
  | inr (inr e) ↦ (2, omega arith, e ∙ append_assoc (texts t) (msg ∷ []) (msg ∷ []))
]

sent_business_round-Tried :
    (amqp : Amqp) (c : Client) (msg : String) (rest : List String) (t : List Call)
    → c.business_msg_list ≡ msg ∷ rest
    → let r = sent_business_round amqp c t in (r.0.business_msg_list ≡ rest) × Tried msg t r.1
unfolding sent_business_round
sent_business_round-Tried amqp c msg rest t e =
    let c₁ = record c { business_msg_list = rest } in
    let (n, few, tried) = send-Tried amqp msg c₁ t in
    ((sent_business_round-list amqp c msg rest t e).0, (n, few, ground (arith, tried)))

-- What the rounds of the thread leave: an empty list, and behind the messages of before those of the
-- list, with repetitions.
pub record Sent (queued : List String) (t u : List Call) (c : Client) : Type 0 where
  pub behind : List String
  pub calls : texts u ≡ texts t ++ behind
  pub repeats : Repeats queued behind
  pub emptied : c.business_msg_list ≡ []

-- After as many rounds as messages were queued, the list is empty, and the thread has handed the queued
-- messages to the broker in the order of the list, none before one that was queued earlier, and each of
-- them at most twice, whatever the broker answers.
pub sent_business_rounds-Repeats :
    (amqp : Amqp) (queued : List String) (c : Client) (t : List Call)
    → c.business_msg_list ≡ queued
    → let r = sent_business_rounds amqp (length queued) c t in Sent queued t r.1 r.0
unfolding sent_business_rounds Repeats
sent_business_rounds-Repeats amqp [] c t e = record {
  behind = [];
  calls = sym (append-nil (texts t));
  repeats = refl;
  emptied = e;
}
sent_business_rounds-Repeats amqp (msg ∷ rest) c t e =
    let (list, (n, few, first)) = sent_business_round-Tried amqp c msg rest t e in
    let r = sent_business_round amqp c t in
    let others = sent_business_rounds-Repeats amqp rest r.0 r.1 list in
    record {
      behind = copies n msg ++ others.behind;
      calls =
          others.calls
          ∙ ap (λ l. l ++ others.behind) first
          ∙ append_assoc (texts t) (copies n msg) others.behind;
      repeats = (n, few, others.behind, others.repeats, refl);
      emptied = others.emptied;
    }
