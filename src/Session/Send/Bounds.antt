-- ===== src/Session/Send/Bounds.antt =====
-- The buffer's bounds, and what happens without a media connection.
use rundo_dahua_sdk_edge.Common.{
  ℕ, ◌+◌, ◌≡◌, Bool, ◌≢◌, ◌⊎◌, ◌≤◌, true, false, List, [], ◌∷◌, none, some, arith, length,
  length-append, All, Option-cases, inl, inr,
}
use rundo_dahua_sdk_edge.Sdk.{Sdk, Call}
use rundo_dahua_sdk_edge.Session.{PlaySession, Ran}
use rundo_dahua_sdk_edge.Session.Send.{
  frame, flush, flush_if, tick, append, send_ms, send_all, buffer_size, is_full, is_new_frame,
}

-- A session that runs has a media connection, a limit within the array, and a buffer within the limit.
pub record IsSound (s : PlaySession) : Type 0 where
  pub within : length s.buffer ≤ s.max_buffer_length
  pub limited : s.max_buffer_length ≤ buffer_size
  pub connected : s.is_run ≡ true → s.media_client ≢ 0

length-frame : (p : List ℕ) → length (frame p) ≡ length p + 4
unfolding frame
length-frame p = omega arith

flush_if-frame :
    (b : Bool) (sdk : Sdk) (s : PlaySession) (t : List Call)
    → let r = flush_if b sdk s t in
      (length r.session.buffer ≤ length s.buffer)
      × (r.session.max_buffer_length ≡ s.max_buffer_length)
      × ((r.ret ≡ 0) × (r.session.is_run ≡ s.is_run) × (r.session.media_client ≡ s.media_client)
          ⊎ (r.ret ≢ 0) × (r.session.is_run ≡ false))
unfolding flush_if flush
flush_if-frame b sdk s t = ground arith

flush_if-empties :
    (sdk : Sdk) (s : PlaySession) (t : List Call)
    → (flush_if true sdk s t).ret ≡ 0
    → (flush_if true sdk s t).session.buffer ≡ []
unfolding flush_if flush
flush_if-empties sdk s t = ground arith

-- After the first test there is room for the packet.
flush_if-room :
    (sdk : Sdk) (n : ℕ) (s : PlaySession) (t : List Call)
    → s.media_client ≢ 0
    → length s.buffer ≤ s.max_buffer_length
    → s.max_buffer_length ≤ buffer_size
    → n + 4 ≤ s.max_buffer_length
    → (flush_if (is_full n s) sdk s t).ret ≡ 0
    → length (flush_if (is_full n s) sdk s t).session.buffer + n + 4 ≤ s.max_buffer_length
unfolding flush_if is_full flush
flush_if-room sdk n s t c w l f e = ground arith

append_fits :
    (p : List ℕ) (s : PlaySession) (t : List Call)
    → s.max_buffer_length ≤ buffer_size
    → length s.buffer + length p + 4 ≤ s.max_buffer_length
    → append p s t ≢ none
unfolding append
append_fits p s t l fits = ground arith

append-IsSound :
    (p : List ℕ) (s : PlaySession) (t : List Call) (r : Ran)
    → IsSound s
    → length s.buffer + length p + 4 ≤ s.max_buffer_length
    → append p s t ≡ some r
    → IsSound r.session × (r.session.max_buffer_length ≡ s.max_buffer_length)
unfolding append
append-IsSound p s t r v fits e = ground (arith, length-append s.buffer (frame p), length-frame p)

flush_if-IsSound :
    (b : Bool) (sdk : Sdk) (s : PlaySession) (t : List Call)
    → IsSound s
    → IsSound (flush_if b sdk s t).session
flush_if-IsSound b sdk s t v = ground (arith, flush_if-frame b sdk s t)

module _ (sdk : Sdk) (p : List ℕ) (s : PlaySession) (t : List Call) where
  first : Ran
  first = flush_if (is_full (length p) s) sdk s t

  second : Ran
  second = flush_if (is_new_frame (tick first.session)) sdk (tick first.session) first.calls

module _ (sdk : Sdk) (p : List ℕ) (s : PlaySession) (t : List Call) (v : IsSound s)
    (fits : length p + 4 ≤ s.max_buffer_length) where
  first-IsSound : IsSound (tick (first sdk p s t).session)
  unfolding first tick
  first-IsSound = ground (arith, flush_if-IsSound (is_full (length p) s) sdk s t v)

  second-IsSound : IsSound (second sdk p s t).session
  unfolding second
  second-IsSound = flush_if-IsSound _ sdk _ _ first-IsSound

  second-max : (second sdk p s t).session.max_buffer_length ≡ s.max_buffer_length
  unfolding second first tick
  second-max =
      let r = first sdk p s t in
      ground (
        arith,
        flush_if-frame (is_full (length p) s) sdk s t,
        flush_if-frame (is_new_frame (tick r.session)) sdk (tick r.session) r.calls,
      )

  second_room :
      s.is_run ≡ true
      → (first sdk p s t).ret ≡ 0
      → length (second sdk p s t).session.buffer + length p + 4
        ≤ (second sdk p s t).session.max_buffer_length
  unfolding second first tick
  second_room run ok =
      let r = first sdk p s t in
      ground (
        arith,
        flush_if-room sdk (length p) s t (v.connected run),
        flush_if-frame (is_full (length p) s) sdk s t,
        flush_if-frame (is_new_frame (tick r.session)) sdk (tick r.session) r.calls,
      )

  -- With a sound session and a packet that fits the limit, a send never copies past the buffer.
  pub send_ms-ne-none : send_ms sdk p s t ≢ none
  unfolding send_ms first second
  send_ms-ne-none e = ground (
    arith,
    second_room,
    second-max,
    append_fits p (second sdk p s t).session (second sdk p s t).calls second-IsSound.limited,
  )

  -- Such a send leaves the session sound, with the same limit.
  pub send_ms-IsSound :
      (r : Ran)
      → send_ms sdk p s t ≡ some r
      → IsSound r.session × (r.session.max_buffer_length ≡ s.max_buffer_length)
  unfolding send_ms first second
  send_ms-IsSound r e = ground (
    arith,
    second_room,
    second-max,
    second-IsSound,
    flush_if-IsSound (is_full (length p) s) sdk s t v,
    flush_if-frame (is_full (length p) s) sdk s t,
    append-IsSound p (second sdk p s t).session (second sdk p s t).calls r second-IsSound,
  )

-- A run of packets that each fit the limit of a sound session never copies past the buffer.
pub send_all-ne-none :
    (sdk : Sdk) (ps : List (List ℕ)) (s : PlaySession) (t : List Call)
    → IsSound s
    → All (λ p. length p + 4 ≤ s.max_buffer_length) ps
    → send_all sdk ps s t ≢ none
unfolding send_all
send_all-ne-none sdk [] s t v fits e = cc
send_all-ne-none sdk (p ∷ ps) s t v fits e = elim (Option-cases (send_ms sdk p s t)) [
  | inl f ↦ send_ms-ne-none sdk p s t v fits.0 f
  | inr (r, f) ↦
      let (v', same) = send_ms-IsSound sdk p s t v fits.0 r f in
      send_all-ne-none sdk ps r.session r.calls v' (rw same fits.1) (ground arith)
]
