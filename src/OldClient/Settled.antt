-- ===== src/OldClient/Settled.antt =====
-- How `CRabbitmqClient::Consumer` answers what it is delivered.
use mathlib.Core.List.{append_assoc, append-nil}
use rundo_dahua_sdk_edge.Common.{
  ap, sym, ◌∙◌, ◌++◌, if◌then◌else◌, ℕ, zero, suc, ◌≡◌, refl, ◌⊎◌, Bool, true, false, inl, inr,
  Bool-cases, List, [], ◌∷◌, String, ◌==◌,
}
use rundo_dahua_sdk_edge.Mq.{
  Amqp, Call, Reply, Consumed, delivered, failed, consume_message, channel_open, channel_close,
  basic_qos, basic_consume, ack_up_to, nack_one,
}
use rundo_dahua_sdk_edge.OldClient.{CRabbitmqClient, channel, error_msg, ask, open_channel}
use rundo_dahua_sdk_edge.OldClient.Consume.{
  answer, call_back, consume, subscribe, ensure_consumer, consumer,
}

-- What the broker delivered in answer to the calls, the oldest first: delivery tags and texts.
unfoldable pub deliveries : Amqp → List Call → List (ℕ × String)
deliveries amqp [] = []
deliveries amqp (consume_message conn ∷ t) =
    deliveries amqp t ++ (elim (amqp.message (consume_message conn ∷ t)) [
      | failed e ↦ []
      | delivered s ↦ (amqp.tag (consume_message conn ∷ t), s) ∷ []
    ])
deliveries amqp (_ ∷ t) = deliveries amqp t

-- The answers that the calls gave, the oldest first: delivery tags, and whether they are acknowledged.
unfoldable pub answers : List Call → List (ℕ × Bool)
answers [] = []
answers (ack_up_to conn ch tag ∷ t) = answers t ++ (tag, true) ∷ []
answers (nack_one conn ch tag ∷ t) = answers t ++ (tag, false) ∷ []
answers (_ ∷ t) = answers t

-- The answers that deliveries call for, and the texts among them that are for this gateway.
unfoldable pub due : (String → Bool) → List (ℕ × String) → List (ℕ × Bool)
due mine [] = []
due mine ((tag, str) ∷ ds) = (tag, mine str) ∷ due mine ds

unfoldable pub own : (String → Bool) → List (ℕ × String) → List String
own mine [] = []
own mine ((tag, str) ∷ ds) = if mine str then str ∷ own mine ds else own mine ds

-- What was done between the calls `t` and the calls `u`: what was delivered was answered, each under
-- its own tag and in order, the messages for this gateway by an acknowledgement and the others by
-- giving them back, and the callback was given the messages for this gateway.
pub record Settles (amqp : Amqp) (mine : String → Bool) (t u : List Call) (received : List String)
    : Type 0 where
  pub given : List (ℕ × String)
  pub came : deliveries amqp u ≡ deliveries amqp t ++ given
  pub answered : answers u ≡ answers t ++ due mine given
  pub handed : received ≡ own mine given

Consumed-cases : (c : Consumed) → ((e : ℕ) × (c ≡ failed e)) ⊎ ((s : String) × (c ≡ delivered s))
Consumed-cases (failed e) = inl (e, refl)
Consumed-cases (delivered s) = inr (s, refl)

due-append :
    (mine : String → Bool) (ds es : List (ℕ × String))
    → due mine (ds ++ es) ≡ due mine ds ++ due mine es
unfolding due
due-append mine [] es = refl
due-append mine ((tag, str) ∷ ds) es = ap (λ l. (tag, mine str) ∷ l) (due-append mine ds es)

own-append :
    (mine : String → Bool) (ds es : List (ℕ × String))
    → own mine (ds ++ es) ≡ own mine ds ++ own mine es
unfolding own
own-append mine [] es = refl
own-append mine ((tag, str) ∷ ds) es = elim (Bool-cases (mine str)) [
  | inl b ↦ rw (b, own) (ap (λ l. str ∷ l) (own-append mine ds es))
  | inr b ↦ rw (b, own) (own-append mine ds es)
]

module _ (amqp : Amqp) (mine : String → Bool) (t : List Call) (received : List String) where
  -- A message that is delivered and answered.
  answer-Settles :
      (conn ch : ℕ) (t' : List Call) (str : String)
      → amqp.message (consume_message conn ∷ t') ≡ delivered str
      → Settles amqp mine t t' received
      → Settles amqp mine t
          (answer conn ch (mine str) (amqp.tag (consume_message conn ∷ t'))
            ∷ consume_message conn
            ∷ t')
          (call_back (mine str) str received)
  unfolding answer call_back deliveries answers due own
  answer-Settles conn ch t' str e s =
      let one = (amqp.tag (consume_message conn ∷ t'), str) ∷ [] in
      let came = ap (λ l. l ++ one) s.came ∙ append_assoc (deliveries amqp t) s.given one in
      let dues =
        ap (λ l. l ++ due mine one) s.answered
        ∙ append_assoc (answers t) (due mine s.given) (due mine one)
        ∙ ap (λ l. answers t ++ l) (sym (due-append mine s.given one)) in
      let owns = ap (λ l. l ++ own mine one) s.handed ∙ sym (own-append mine s.given one) in
      elim (Bool-cases (mine str)) [
        | inl b ↦ record {
          given = s.given ++ one;
          came = rw (b, e, deliveries) came;
          answered = rw (b, answers) (rw b at dues);
          handed = rw (b, call_back) (rw (b, own) at owns);
        }
        | inr b ↦ record {
          given = s.given ++ one;
          came = rw (b, e, deliveries) came;
          answered = rw (b, answers) (rw b at dues);
          handed = rw (b, call_back) (sym (append-nil received) ∙ (rw (b, own) at owns));
        }
      ]

  failed-Settles :
      (conn ch : ℕ) (t' : List Call) (e : ℕ)
      → amqp.message (consume_message conn ∷ t') ≡ failed e
      → Settles amqp mine t t' received
      → Settles amqp mine t (channel_close conn ch ∷ consume_message conn ∷ t') received
  unfolding deliveries answers
  failed-Settles conn ch t' e f s = record {
    given = s.given;
    came = rw (f, deliveries) (ap (λ l. l ++ []) s.came ∙ append-nil _);
    answered = s.answered;
    handed = s.handed;
  }

consume-Settles :
    (amqp : Amqp) (number : Reply → ℕ) (mine : String → Bool) (t : List Call) (ch n : ℕ)
    (none_yet : Bool) (received : List String) (m : CRabbitmqClient) (t' : List Call)
    → Settles amqp mine t t' received
    → let r = consume amqp number mine ch n none_yet received m t' in
      Settles amqp mine t r.calls r.received
unfolding consume deliveries answers
consume-Settles amqp number mine t ch zero none_yet received m t' s = s
consume-Settles amqp number mine t ch (suc n) none_yet received m t' s =
    let t₁ = consume_message m.conn ∷ t' in
    elim (Consumed-cases (amqp.message t₁)) [
      | inl (e, p) ↦ rw (p, consume) (failed-Settles amqp mine t received m.conn ch t' e p s)
      | inr (str, p) ↦
          let c = answer m.conn ch (mine str) (amqp.tag t₁) in
          let got = call_back (mine str) str received in
          let a = answer-Settles amqp mine t received m.conn ch t' str p s in
          let m₁ = record m { consumer = true } in
          elim (Bool-cases (amqp.status t₁ c == 0)) [
            | inl z ↦
                rw (p, z, consume) (consume-Settles amqp number mine t ch n false got m₁ (c ∷ t₁) a)
            | inr z ↦
                rw (p, z, consume)
                  (record {
                    given = a.given;
                    came = a.came;
                    answered = a.answered;
                    handed = a.handed;
                  })
          ]
    ]

-- Calls between which nothing was delivered or answered.
quiet-Settles :
    (amqp : Amqp) (mine : String → Bool) (t u : List Call)
    → deliveries amqp u ≡ deliveries amqp t
    → answers u ≡ answers t
    → Settles amqp mine t u []
unfolding due own
quiet-Settles amqp mine t u d a = record {
  given = [];
  came = d ∙ sym (append-nil (deliveries amqp t));
  answered = a ∙ sym (append-nil (answers t));
  handed = refl;
}

ensure_consumer-Settles :
    (amqp : Amqp) (mine : String → Bool) (already : Bool) (conn ch : ℕ) (queue : String)
    (get_num : ℕ) (t : List Call)
    → Settles amqp mine t (ensure_consumer amqp already conn ch queue get_num t).1 []
unfolding ensure_consumer open_channel subscribe ask deliveries answers
ensure_consumer-Settles amqp mine true conn ch queue get_num t =
    quiet-Settles amqp mine t t refl refl
ensure_consumer-Settles amqp mine false conn ch queue get_num t =
    let o = channel_open conn ch in
    let q = basic_consume conn ch queue false ∷ basic_qos conn ch get_num ∷ o ∷ t in
    elim (Bool-cases (error_msg (amqp.reply (o ∷ t)) == 0)) [
      | inr e ↦ rw (e, ensure_consumer) (quiet-Settles amqp mine t _ refl refl)
      | inl e ↦ elim (Bool-cases (error_msg (amqp.reply q) == 0)) [
        | inl f ↦ rw (e, f, ensure_consumer) (quiet-Settles amqp mine t _ refl refl)
        | inr f ↦ rw (e, f, ensure_consumer) (quiet-Settles amqp mine t _ refl refl)
      ]
    ]

-- Whatever the broker answers, `Consumer` calls for an answer to every message that is delivered to it,
-- under the delivery tag of that message and in the order of the deliveries: an acknowledgement if the
-- message is for this gateway, and otherwise one that gives it back. Its callback is given exactly the
-- messages for this gateway, in order.
pub consumer-Settles :
    (amqp : Amqp) (number : Reply → ℕ) (mine : String → Bool) (queue : String) (n get_num : ℕ)
    (m : CRabbitmqClient) (t : List Call)
    → let r = consumer amqp number mine queue n get_num m t in
      Settles amqp mine t r.calls r.received
unfolding consumer
consumer-Settles amqp number mine queue n get_num m t =
    let none_yet : Settles amqp mine t t [] = quiet-Settles amqp mine t t refl refl in
    let o = ensure_consumer amqp m.consumer m.conn (channel n) queue get_num t in
    let start = ensure_consumer-Settles amqp mine m.consumer m.conn (channel n) queue get_num t in
    elim (Bool-cases (m.conn == 0)) [
      | inl c ↦ rw (c, consumer) none_yet
      | inr c ↦ elim (Bool-cases (o.0 == 0)) [
        | inl z ↦
            rw (c, z, consumer)
              (consume-Settles amqp number mine t (channel n) get_num true [] m o.1 start)
        | inr z ↦ rw (c, z, consumer) start
      ]
    ]
