-- ===== src/Session/Feed/Stream.antt =====
-- What a block of the SDK's stream becomes.
use rundo_dahua_sdk_edge.Common.{
  ℕ, ◌+◌, ◌≡◌, ◌≢◌, ◌≤◌, refl, true, false, List, [], ◌∷◌, ◌++◌, Option, none, some, arith, length,
  All, ◌>>=◌, sym, ap, ◌∙◌, ◌==◌, Option-cases, Bool-cases, inl, inr,
}
use rundo_dahua_sdk_edge.Sdk.{Sdk, Call}
use rundo_dahua_sdk_edge.Session.{PlaySession, Ran}
use rundo_dahua_sdk_edge.Session.Send.{send_ms, send_all}
use rundo_dahua_sdk_edge.Session.Send.Stream.{stream, frames, send_all-stream}
use rundo_dahua_sdk_edge.Session.Send.Bounds.{IsSound, send_all-ne-none}
use rundo_dahua_sdk_edge.Session.Feed.{
  Packers, Feed, update_source_stream, rtp_callback, rtp_callbacks, ps_to_rtp, real_data_callback,
  gbps,
}

-- The session and the calls that a result has.
abbrev pub sent : Option Feed → Option (PlaySession × List Call)
sent none = none
sent (some f) = some (f.session, f.calls)

send_ms_stopped :
    (sdk : Sdk) (p : List ℕ) (s : PlaySession) (t : List Call)
    → s.is_run ≡ false
    → send_ms sdk p s t ≡ some (record { ret = 0; session = s; calls = t })
unfolding send_ms
send_ms_stopped sdk p s t e = ground arith

-- The packer's callback is `sendMS`, also for a session that does not run.
rtp_callback-send_ms :
    (sdk : Sdk) (p : List ℕ) (f : Feed) (o : Option Ran)
    → send_ms sdk p f.session f.calls ≡ o
    → sent (rtp_callback sdk p f) ≡ (o >>= λ r. some (r.session, r.calls))
unfolding rtp_callback update_source_stream
rtp_callback-send_ms sdk p f none e = ground (arith, send_ms_stopped sdk p f.session f.calls)
rtp_callback-send_ms sdk p f (some r) e = ground (arith, send_ms_stopped sdk p f.session f.calls)

-- The packets go to `sendMS` one after the other.
rtp_callbacks-send_all :
    (sdk : Sdk) (ps : List (List ℕ)) (f : Feed)
    → sent (rtp_callbacks sdk ps f) ≡ send_all sdk ps f.session f.calls
unfolding rtp_callbacks send_all
rtp_callbacks-send_all sdk [] f = refl
rtp_callbacks-send_all sdk (p ∷ ps) f = elim (Option-cases (rtp_callback sdk p f)) [
  | inl g ↦ elim (Option-cases (send_ms sdk p f.session f.calls)) [
    | inl h ↦ rw (g, h, rtp_callbacks, send_all) refl
    | inr (r, h) ↦ absurd (ground (arith, rtp_callback-send_ms sdk p f (some r) h))
  ]
  | inr (f₁, g) ↦ elim (Option-cases (send_ms sdk p f.session f.calls)) [
    | inl h ↦ absurd (ground (arith, rtp_callback-send_ms sdk p f none h))
    | inr (r, h) ↦
        let same = rtp_callback-send_ms sdk p f (some r) h in
        ground (arith, same, rtp_callbacks-send_all sdk ps f₁)
  ]
]

-- What a data callback leaves of a block of the program stream.
abbrev pub packets : Packers → List ℕ → Feed → List (List ℕ)
packets x bytes f = x.rtp (bytes ∷ f.rtp_inputs)

-- When the SDK hands over a block of a program stream, the bytes that are written to the media server
-- and that wait in the buffer grow by the RTP packets that the packer makes of the block, each framed,
-- in order, if the session has a packer and still runs afterwards.
pub real_data_callback-stream :
    (sdk : Sdk) (x : Packers) (bytes : List ℕ) (f f' : Feed)
    → f.session.rtp_handle ≢ 0
    → real_data_callback sdk x gbps bytes f ≡ some f'
    → f'.session.is_run ≡ true
    → stream f'.session f'.calls ≡ stream f.session f.calls ++ frames (packets x bytes f)
unfolding real_data_callback ps_to_rtp
real_data_callback-stream sdk x bytes f f' h e run =
    let ps = packets x bytes f in
    let fed : Feed = record f { rtp_inputs = bytes ∷ f.rtp_inputs } in
    let off : (f.session.rtp_handle == 0) ≡ false = ground arith in
    let left : rtp_callbacks sdk ps fed ≡ some f' = rw (off, real_data_callback, ps_to_rtp) at e in
    let all : send_all sdk ps f.session f.calls ≡ some (f'.session, f'.calls) =
      sym (rtp_callbacks-send_all sdk ps fed) ∙ ap sent left in
    send_all-stream sdk ps f.session f.calls f'.session f'.calls all run

-- A block of a program stream never copies past the buffer of a sound session, if each packet that the
-- packer makes of it fits the session's limit.
pub real_data_callback-ne-none :
    (sdk : Sdk) (x : Packers) (bytes : List ℕ) (f : Feed)
    → IsSound f.session
    → All (λ p. length p + 4 ≤ f.session.max_buffer_length) (packets x bytes f)
    → real_data_callback sdk x gbps bytes f ≢ none
unfolding real_data_callback ps_to_rtp
real_data_callback-ne-none sdk x bytes f v fits e =
    let ps = packets x bytes f in
    let fed : Feed = record f { rtp_inputs = bytes ∷ f.rtp_inputs } in
    elim (Bool-cases (f.session.rtp_handle == 0)) [
      | inl off ↦ absurd (ground arith)
      | inr off ↦
          let left : rtp_callbacks sdk ps fed ≡ none =
            rw (off, real_data_callback, ps_to_rtp) at e in
          send_all-ne-none sdk ps f.session f.calls v fits
            (sym (rtp_callbacks-send_all sdk ps fed) ∙ ap sent left)
    ]
