-- ===== src/Streams/Stops/Twice.antt =====
-- Two stops of one stream at once.
use rundo_dahua_sdk_edge.Common.{
  ap, sym, ◌++◌, ◌⊎◌, ℕ, zero, suc, ◌≡◌, ◌≢◌, refl, true, false, List, [], ◌∷◌, inl, inr, arith,
  if◌then◌else◌,
}
use rundo_dahua_sdk_edge.Sdk.{Sdk, Call, stop_real_play, dhsdk_get_last_error}
use rundo_dahua_sdk_edge.Session.{PlaySession}
use rundo_dahua_sdk_edge.Streams.Stops.{
  of_record, of_real, of_download, handle, stop_call, Stage, asks, found, seeks, tests, stops,
  resets, Shared, Part, after, seek, onward, test, stop, advance, Stops, step_at, Reach, begins,
  goes,
}
use rundo_dahua_sdk_edge.Streams.Stops.Kept.{stops_of}

-- Parts of one stop, one after the other.
abbrev pub run : Sdk → ℕ → Part → Part
run sdk zero p = p
run sdk (suc n) p = run sdk n (advance sdk p.stage p.shared)

abbrev pub at : Sdk → Stage → PlaySession → List Call → Part
at sdk a s t = record { stage = a; shared = record { in_map = true; session = s; calls = t } }

module _ (sdk : Sdk) (start : Stops) where
  -- The first of the stops.
  abbrev pub foremost : List Stage → Part → Stops
  foremost behind p = record { shared = p.shared; stages = p.stage ∷ behind }

  -- It runs while the others wait.
  pub run-Reach :
      (behind : List Stage) (n : ℕ) (p : Part)
      → Reach sdk start (foremost behind p)
      → Reach sdk start (foremost behind (run sdk n p))
  unfolding step_at
  run-Reach behind zero p h = h
  run-Reach behind (suc n) p h =
      run-Reach behind n (advance sdk p.stage p.shared)
        (goes {w = foremost behind p} [] behind p.stage h refl refl)

  -- One of the stops goes on.
  go_on :
      (before behind : List Stage) (a b : Stage) (w v : Shared)
      → advance sdk a w ≡ record { stage = b; shared = v }
      → Reach sdk start (record { shared = w; stages = before ++ a ∷ behind })
      → Reach sdk start (record { shared = v; stages = before ++ b ∷ behind })
  unfolding step_at
  go_on before behind a b w v e h =
      let left : Part → Stops =
        λ o. record { shared = o.shared; stages = before ++ o.stage ∷ behind } in
      goes {w = record { shared = w; stages = before ++ a ∷ behind }} before behind a h refl
        (ap left (sym e))

-- What a stop of a live view finds, up to the call of the SDK.
module _ (sdk : Sdk) (s : PlaySession) (t : List Call) (none_recorded : s.record_play_handle ≡ 0)
    (live : s.real_play_handle ≢ 0) where
  abbrev now : Shared
  now = (at sdk found s t).shared

  seek-record : advance sdk (seeks of_record) now ≡ at sdk (seeks of_download) s t
  unfolding advance seek onward handle
  seek-record = ground arith

  seek-download :
      (advance sdk (seeks of_download) now ≡ at sdk (seeks of_real) s t)
      ⊎ (advance sdk (seeks of_download) now ≡ at sdk (tests of_record 0) s t)
  unfolding advance seek onward handle
  seek-download = ground arith

  seek-real : advance sdk (seeks of_real) now ≡ at sdk (tests of_record 0) s t
  unfolding advance seek onward handle
  seek-real = ground arith

  test-record : advance sdk (tests of_record 0) now ≡ at sdk (tests of_real 0) s t
  unfolding advance test after handle
  test-record = ground arith

  test-real : advance sdk (tests of_real 0) now ≡ at sdk (stops of_real 0) s t
  unfolding advance test after handle
  test-real = ground arith

  -- So it comes to that call.
  sought :
      (start : Stops) (before behind : List Stage)
      → Reach sdk start (record { shared = now; stages = before ++ seeks of_record ∷ behind })
      → Reach sdk start (record { shared = now; stages = before ++ stops of_real 0 ∷ behind })
  sought start before behind h =
      let go = λ (a b : Stage). go_on sdk start before behind a b now now in
      let tested =
        λ (r : Reach sdk start
            (record { shared = now; stages = before ++ tests of_record 0 ∷ behind })).
          go (tests of_real 0) (stops of_real 0) test-real
            (go (tests of_record 0) (tests of_real 0) test-record r) in
      let second = go (seeks of_record) (seeks of_download) seek-record h in
      elim seek-download [
        | inl e ↦ tested (
            go (seeks of_real) (tests of_record 0) seek-real
              (go (seeks of_download) (seeks of_real) e second))
        | inr e ↦ tested (go (seeks of_download) (tests of_record 0) e second)
      ]

stop-real :
    (sdk : Sdk) (s : PlaySession) (t : List Call)
    → (ret : ℕ) × (advance sdk (stops of_real 0) (at sdk found s t).shared
        ≡ at sdk (resets of_real ret) s (stop_real_play s.real_play_handle ∷ t))
unfolding advance stop handle stop_call
stop-real sdk s t =
    let c = stop_real_play s.real_play_handle in
    (if sdk.accepts t c then 0 else dhsdk_get_last_error sdk (c ∷ t), refl)

-- A stop that asks comes to the call, and leaves the session marked as stopped.
pub asked :
    (sdk : Sdk) (s : PlaySession) (t : List Call) (start : Stops) (before behind : List Stage)
    → s.record_play_handle ≡ 0
    → s.real_play_handle ≢ 0
    → Reach sdk start
        (record { shared = (at sdk found s t).shared; stages = before ++ asks ∷ behind })
    → Reach sdk start (record {
      shared = (at sdk found (record s { is_run = false }) t).shared;
      stages = before ++ stops of_real 0 ∷ behind;
    })
unfolding advance
asked sdk s t start before behind none_recorded live h =
    let w = (at sdk found s t).shared in
    let v = (at sdk found (record s { is_run = false }) t).shared in
    sought sdk (record s { is_run = false }) t none_recorded live start before behind
      (go_on sdk start before behind found (seeks of_record) w v refl
        (go_on sdk start before behind asks found w w refl h))

-- Two stops of one live view can both call the SDK to stop it, the second with a handle that the first
-- has already given back: if both find the session before either has reset its handle.
pub two_stops-Twice :
    (sdk : Sdk) (s : PlaySession) (t : List Call)
    → s.record_play_handle ≡ 0
    → s.real_play_handle ≢ 0
    → let c = stop_real_play s.real_play_handle in
      (w : Stops) × Reach sdk (stops_of s t (asks ∷ asks ∷ [])) w × (w.shared.calls ≡ c ∷ c ∷ t)
two_stops-Twice sdk s t none_recorded live =
    let start = stops_of s t (asks ∷ asks ∷ []) in
    let idle = record s { is_run = false } in
    let c = stop_real_play s.real_play_handle in
    let seen = λ (u : List Call). (at sdk found idle u).shared in
    let (n, calls_once) = stop-real sdk idle t in
    let (k, calls_again) = stop-real sdk idle (c ∷ t) in
    let r₁ = asked sdk s t start [] (asks ∷ []) none_recorded live (begins refl) in
    let r₂ = asked sdk idle t start (stops of_real 0 ∷ []) [] none_recorded live r₁ in
    let r₃ =
      go_on sdk start [] (stops of_real 0 ∷ []) (stops of_real 0) (resets of_real n) (seen t)
        (seen (c ∷ t)) calls_once r₂ in
    let r₄ =
      go_on sdk start (resets of_real n ∷ []) [] (stops of_real 0) (resets of_real k) (seen (c ∷ t))
        (seen (c ∷ c ∷ t)) calls_again r₃ in
    (
      record { shared = seen (c ∷ c ∷ t); stages = resets of_real n ∷ resets of_real k ∷ [] },
      r₄,
      refl,
    )
