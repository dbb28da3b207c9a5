-- ===== src/Streams/Stops/Kept.antt =====
-- What stops leave, in any order of their parts.
use rundo_dahua_sdk_edge.Common.{
  All-at, All-replace, All-map, ℕ, ◌≡◌, refl, Bool, true, false, List, ◌∷◌, ◌++◌, ◌==◌, All,
  Bool-cases, inl, inr,
}
use rundo_dahua_sdk_edge.Sdk.{Sdk, Call, ms_disconnect}
use rundo_dahua_sdk_edge.Session.{PlaySession}
use rundo_dahua_sdk_edge.Session.Stop.{IsIdle}
use rundo_dahua_sdk_edge.Streams.Stops.{
  Handle, of_record, of_real, of_download, handle, Stage, asks, found, seeks, tests, stops, resets,
  hangs, closes, clears, erases, returned, Shared, after, seek, onward, test, stop, hang_up, close,
  advance, Stops, step_at, Reach, begins, goes,
}
use rundo_dahua_sdk_edge.Streams.Stops.Past.{
  IsPast, Keeps-IsPast, advance-Keeps, Gone, advance-IsPast, advance-Gone,
}

-- Every stop has passed what it has passed.
abbrev Past : PlaySession → List Stage → Type 0
Past s = All (λ a. IsPast a s)

-- A stop that has returned left the map without the session.
abbrev IsOut : Bool → Stage → Type 0
IsOut b (returned ret) = b ≡ false
IsOut b _ = Unit {0}

after-IsOut : (h : Handle) (ret : ℕ) (b : Bool) → IsOut b (after h ret)
unfolding after
after-IsOut of_record ret b = tt
after-IsOut of_real ret b = tt
after-IsOut of_download ret b = tt

onward-IsOut : (h : Handle) (b : Bool) → IsOut b (onward h)
unfolding onward
onward-IsOut of_record b = tt
onward-IsOut of_real b = tt
onward-IsOut of_download b = tt

-- No stop puts the session back.
advance-out :
    (sdk : Sdk) (a : Stage) (w : Shared)
    → w.in_map ≡ false
    → (advance sdk a w).shared.in_map ≡ false
unfolding advance seek test stop hang_up close
advance-out sdk asks w e = e
advance-out sdk found w e = e
advance-out sdk (seeks h) w e = e
advance-out sdk (tests h ret) w e = e
advance-out sdk (stops h ret) w e = e
advance-out sdk (resets h ret) w e = e
advance-out sdk (hangs ret) w e = e
advance-out sdk (closes ret) w e = e
advance-out sdk (clears ret) w e = e
advance-out sdk (erases ret) w e = refl
advance-out sdk (returned ret) w e = e

IsOut-IsOut : (b b' : Bool) (a : Stage) → (b ≡ false → b' ≡ false) → IsOut b a → IsOut b' a
IsOut-IsOut b b' asks f o = tt
IsOut-IsOut b b' found f o = tt
IsOut-IsOut b b' (seeks h) f o = tt
IsOut-IsOut b b' (tests h ret) f o = tt
IsOut-IsOut b b' (stops h ret) f o = tt
IsOut-IsOut b b' (resets h ret) f o = tt
IsOut-IsOut b b' (hangs ret) f o = tt
IsOut-IsOut b b' (closes ret) f o = tt
IsOut-IsOut b b' (clears ret) f o = tt
IsOut-IsOut b b' (erases ret) f o = tt
IsOut-IsOut b b' (returned ret) f o = f o

advance-IsOut :
    (sdk : Sdk) (a : Stage) (w : Shared)
    → IsOut w.in_map a
    → IsOut (advance sdk a w).shared.in_map (advance sdk a w).stage
unfolding advance seek onward test stop hang_up close after
advance-IsOut sdk asks w o = elim (Bool-cases w.in_map) [
  | inl e ↦ rw (e, advance) tt
  | inr e ↦ rw (e, advance) refl
]
advance-IsOut sdk found w o = tt
advance-IsOut sdk (seeks h) w o = elim (Bool-cases (handle h w.session == 0)) [
  | inl e ↦ rw (e, seek) (onward-IsOut h w.in_map)
  | inr e ↦ rw (e, seek) tt
]
advance-IsOut sdk (tests h ret) w o = elim (Bool-cases (handle h w.session == 0)) [
  | inl e ↦ rw (e, test) (after-IsOut h ret w.in_map)
  | inr e ↦ rw (e, test) tt
]
advance-IsOut sdk (stops h ret) w o = tt
advance-IsOut sdk (resets h ret) w o = after-IsOut h ret w.in_map
advance-IsOut sdk (hangs ret) w o = elim (Bool-cases (w.session.media_client == 0)) [
  | inl e ↦ rw (e, hang_up) tt
  | inr e ↦ rw (e, hang_up) tt
]
advance-IsOut sdk (closes ret) w o =
    elim (Bool-cases (sdk.code w.calls (ms_disconnect w.session.media_client) == 0)) [
      | inl e ↦ rw (e, close) tt
      | inr e ↦ rw (e, close) tt
    ]
advance-IsOut sdk (clears ret) w o = tt
advance-IsOut sdk (erases ret) w o = refl
advance-IsOut sdk (returned ret) w o = o

record IsKept (w : Stops) : Type 0 where
  gone : Gone w.shared
  past : Past w.shared.session w.stages
  out : All (IsOut w.shared.in_map) w.stages

Reach-IsKept : (sdk : Sdk) (start w : Stops) → IsKept start → Reach sdk start w → IsKept w
unfolding step_at
Reach-IsKept sdk start w k (begins e) = rw e k
Reach-IsKept sdk start w k (goes {w = u} before behind a reached here to) =
    let h = Reach-IsKept sdk start u k reached in
    let s = u.shared.session in
    let s' = (advance sdk a u.shared).shared.session in
    let past = rw here at h.past in
    let p = All-at (λ b. IsPast b s) before behind a past in
    let keeps = λ (b : Stage). Keeps-IsPast b s s' (advance-Keeps sdk a u.shared) in
    let kept = All-map (λ b. IsPast b s) (λ b. IsPast b s') (before ++ a ∷ behind) keeps past in
    let new = advance-IsPast sdk a u.shared h.gone p in
    let b = u.shared.in_map in
    let b' = (advance sdk a u.shared).shared.in_map in
    let outs = rw here at h.out in
    let stays = λ (c : Stage). IsOut-IsOut b b' c (advance-out sdk a u.shared) in
    let still = All-map (IsOut b) (IsOut b') (before ++ a ∷ behind) stays outs in
    let new_out = advance-IsOut sdk a u.shared (All-at (IsOut b) before behind a outs) in
    rw to (record {
      gone = advance-Gone sdk a u.shared h.gone p;
      past = All-replace (λ b. IsPast b s') before behind a _ kept new;
      out = All-replace (IsOut b') before behind a _ still new_out;
    })

-- Stops that have not begun, of a session that stands in the map.
abbrev pub stops_of : PlaySession → List Call → List Stage → Stops
stops_of s t l = record { shared = record { in_map = true; session = s; calls = t }; stages = l }

asking-IsKept :
    (s : PlaySession) (t : List Call) (l : List Stage)
    → All (λ a. a ≡ asks) l
    → IsKept (stops_of s t l)
asking-IsKept s t l all = record {
  gone = λ e. cc;
  past = All-map (λ a. a ≡ asks) (λ a. IsPast a s) l (λ a e. rw e tt) all;
  out = All-map (λ a. a ≡ asks) (IsOut true) l (λ a e. rw e tt) all;
}

-- In every interleaving of any number of stops of one stream, once one of them has returned, the
-- session has left the map, and its three handles of the SDK, for playback, live view and download, are
-- reset to 0. (The SDK may have refused a stop, and the media connection may still be open.)
pub Reach-IsIdle :
    (sdk : Sdk) (s : PlaySession) (t : List Call) (asking : List Stage) (w : Stops)
    (before behind : List Stage) (ret : ℕ)
    → All (λ a. a ≡ asks) asking
    → Reach sdk (stops_of s t asking) w
    → w.stages ≡ before ++ returned ret ∷ behind
    → (w.shared.in_map ≡ false) × IsIdle w.shared.session
Reach-IsIdle sdk s t asking w before behind ret all reached e =
    let h = Reach-IsKept sdk (stops_of s t asking) w (asking-IsKept s t asking all) reached in
    (
      All-at (IsOut w.shared.in_map) before behind (returned ret) (rw e at h.out),
      All-at (λ b. IsPast b w.shared.session) before behind (returned ret) (rw e at h.past),
    )
