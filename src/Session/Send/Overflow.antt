-- ===== src/Session/Send/Overflow.antt =====
-- A session that runs without a media connection: nothing empties its buffer.
use mathlib.Core.List.{append_assoc, append-nil}
use rundo_dahua_sdk_edge.Common.{
  ℕ, ◌≡◌, ◌≤◌, ◌<◌, true, List, [], ◌∷◌, ◌++◌, none, some, arith, length, length-append,
  Option-cases, inl, inr, ap, sym, ◌∙◌,
}
use rundo_dahua_sdk_edge.Sdk.{Sdk, Call}
use rundo_dahua_sdk_edge.Session.{PlaySession, Ran}
use rundo_dahua_sdk_edge.Session.Send.{
  frame, flush_if, tick, append, is_full, is_new_frame, send_ms, send_all, buffer_size,
}
use rundo_dahua_sdk_edge.Session.Send.Stream.{frames}

-- Without a connection a send makes no call and puts the packet behind the others, if it fits.
send_ms_unconnected :
    (sdk : Sdk) (p : List ℕ) (s : PlaySession) (t : List Call)
    → s.is_run ≡ true
    → s.media_client ≡ 0
    → send_ms sdk p s t ≡ append p (tick s) t
unfolding send_ms flush_if is_full is_new_frame tick
send_ms_unconnected sdk p s t run none_yet = ground arith

append_grows :
    (p : List ℕ) (s : PlaySession) (t : List Call) (r : Ran)
    → append p (tick s) t ≡ some r
    → (r.session.buffer ≡ s.buffer ++ frame p)
      × (r.session.is_run ≡ s.is_run)
      × (r.session.media_client ≡ s.media_client)
unfolding append tick
append_grows p s t r e = ground arith

append_within :
    (p : List ℕ) (s : PlaySession) (t : List Call) (r : Ran)
    → append p (tick s) t ≡ some r
    → length r.session.buffer ≤ buffer_size
unfolding append tick frame
append_within p s t r e = ground (arith, length-append s.buffer (frame p))

-- A running session without a media connection copies past its buffer as soon as the framed packets
-- and what the buffer holds exceed the 64 KiB of the array: the limit member is never consulted.
pub send_all_overflow :
    (sdk : Sdk) (ps : List (List ℕ)) (s : PlaySession) (t : List Call)
    → s.is_run ≡ true
    → s.media_client ≡ 0
    → length s.buffer ≤ buffer_size
    → buffer_size < length (s.buffer ++ frames ps)
    → send_all sdk ps s t ≡ none
unfolding send_all frames
send_all_overflow sdk [] s t run c w over = absurd (omega (arith, ap length (append-nil s.buffer)))
send_all_overflow sdk (p ∷ ps) s t run c w over = elim (Option-cases (send_ms sdk p s t)) [
  | inl f ↦ rw (f, send_all)
  | inr (r, f) ↦
      let e = sym (send_ms_unconnected sdk p s t run c) ∙ f in
      let (grown, still, same) = append_grows p s t r e in
      rw (f, send_all)
        (send_all_overflow sdk ps r.session r.calls (still ∙ run) (same ∙ c)
          (append_within p s t r e) (rw (grown, append_assoc s.buffer (frame p) (frames ps)) over))
]
