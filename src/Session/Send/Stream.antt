-- ===== src/Session/Send/Stream.antt =====
-- The bytes that a running session sends.
use mathlib.Core.List.{append_assoc, append-nil}
use rundo_dahua_sdk_edge.Common.{
  ℕ, Bool, ◌≢◌, ◌≡◌, refl, true, false, List, [], ◌∷◌, ◌++◌, some, length, arith, Option-cases, inl,
  inr,
}
use rundo_dahua_sdk_edge.Sdk.{Sdk, Call, ms_write}
use rundo_dahua_sdk_edge.Session.{PlaySession, Ran}
use rundo_dahua_sdk_edge.Session.Send.{
  frame, flush, flush_if, tick, append, send_ms, send_all, is_full, is_new_frame,
}

-- The bytes handed to the media server, in order.
unfoldable pub written : List Call → List ℕ
written [] = []
written (ms_write _ bytes ∷ t) = written t ++ bytes
written (_ ∷ t) = written t

-- What has been written, and what waits in the buffer.
abbrev pub stream : PlaySession → List Call → List ℕ
stream s t = written t ++ s.buffer

unfoldable pub frames : List (List ℕ) → List ℕ
frames [] = []
frames (p ∷ ps) = frame p ++ frames ps

flush-stream :
    (sdk : Sdk) (s : PlaySession) (t : List Call)
    → (flush sdk s t).ret ≡ 0
    → stream (flush sdk s t).session (flush sdk s t).calls ≡ stream s t
unfolding flush written
flush-stream sdk s t e = ground (arith, append-nil (written t ++ s.buffer))

flush_if-stream :
    (b : Bool) (sdk : Sdk) (s : PlaySession) (t : List Call)
    → (flush_if b sdk s t).ret ≡ 0
    → stream (flush_if b sdk s t).session (flush_if b sdk s t).calls ≡ stream s t
unfolding flush_if
flush_if-stream true sdk s t e = flush-stream sdk s t e
flush_if-stream false sdk s t e = refl

flush_if-stops :
    (b : Bool) (sdk : Sdk) (s : PlaySession) (t : List Call)
    → (flush_if b sdk s t).ret ≢ 0
    → (flush_if b sdk s t).session.is_run ≡ false
unfolding flush_if flush
flush_if-stops b sdk s t e = ground arith

append-stream :
    (p : List ℕ) (s : PlaySession) (t : List Call) (r : Ran)
    → append p s t ≡ some r
    → stream r.session r.calls ≡ stream s t ++ frame p
unfolding append
append-stream p s t r e = ground (arith, append_assoc (written t) s.buffer (frame p))

-- A send after which the session still runs adds the framed packet to the stream of bytes written
-- and waiting, whichever of the two flushes it made.
pub send_ms-stream :
    (sdk : Sdk) (p : List ℕ) (s : PlaySession) (t : List Call) (r : Ran)
    → send_ms sdk p s t ≡ some r
    → r.session.is_run ≡ true
    → stream r.session r.calls ≡ stream s t ++ frame p
unfolding send_ms tick
send_ms-stream sdk p s t r e run =
    let b₁ = is_full (length p) s in
    let r₁ = flush_if b₁ sdk s t in
    let s₁ = tick r₁.session in
    let b₂ = is_new_frame s₁ in
    let r₂ = flush_if b₂ sdk s₁ r₁.calls in
    ground (
      arith,
      flush_if-stream b₁ sdk s t,
      flush_if-stops b₁ sdk s t,
      flush_if-stream b₂ sdk s₁ r₁.calls,
      flush_if-stops b₂ sdk s₁ r₁.calls,
      append-stream p r₂.session r₂.calls r,
    )

pub send_all_stopped :
    (sdk : Sdk) (ps : List (List ℕ)) (s : PlaySession) (t : List Call)
    → s.is_run ≡ false
    → send_all sdk ps s t ≡ some (s, t)
unfolding send_all send_ms
send_all_stopped sdk [] s t e = refl
send_all_stopped sdk (p ∷ ps) s t e = ground (arith, send_all_stopped sdk ps s t e)

-- A session that runs after a run of sends ran before each of them.
send_all_running :
    (sdk : Sdk) (ps : List (List ℕ)) (r : Ran) (s' : PlaySession) (t' : List Call)
    → send_all sdk ps r.session r.calls ≡ some (s', t')
    → s'.is_run ≡ true
    → r.session.is_run ≡ true
send_all_running sdk ps r s' t' e run = ground (arith, send_all_stopped sdk ps r.session r.calls)

-- A run of sends after which the session runs adds every framed packet, in order.
pub send_all-stream :
    (sdk : Sdk) (ps : List (List ℕ)) (s : PlaySession) (t : List Call) (s' : PlaySession)
    (t' : List Call)
    → send_all sdk ps s t ≡ some (s', t')
    → s'.is_run ≡ true
    → stream s' t' ≡ stream s t ++ frames ps
unfolding send_all frames
send_all-stream sdk [] s t s' t' e run = ground (arith, append-nil (stream s t))
send_all-stream sdk (p ∷ ps) s t s' t' e run = elim (Option-cases (send_ms sdk p s t)) [
  | inl f ↦ absurd (ground arith)
  | inr (r, f) ↦
      let e' : send_all sdk ps r.session r.calls ≡ some (s', t') = ground arith in
      let on = send_all_running sdk ps r s' t' e' run in
      ground (
        arith,
        send_all-stream sdk ps r.session r.calls s' t' e' run,
        send_ms-stream sdk p s t r f on,
        append_assoc (stream s t) (frame p) (frames ps),
      )
]
