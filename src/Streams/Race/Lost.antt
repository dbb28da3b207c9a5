-- ===== src/Streams/Race/Lost.antt =====
-- Two starts of one stream id at once.
use rundo_dahua_sdk_edge.Common.{◌≡◌, refl, sym, ◌∙◌, ap, List, [], ◌∷◌, none, some, arith, eq_refl}
use rundo_dahua_sdk_edge.Common.Dict
use rundo_dahua_sdk_edge.Common.Dict.{Dict, find-insert, insert-known}
use rundo_dahua_sdk_edge.Sdk.{Sdk, Call, ms_disconnect}
use rundo_dahua_sdk_edge.Session.{PlaySession, destroy, disconnet_ms}
use rundo_dahua_sdk_edge.Session.Stop.{unless_zero}
use rundo_dahua_sdk_edge.Sessions.{get_play_session, insert_play_session}
use rundo_dahua_sdk_edge.Streams.Race.{
  Request, Stage, asks, makes, inserts, returned, Starts, Part, ask, make, insert, advance, step_at,
  Reach, begins, goes,
}
use rundo_dahua_sdk_edge.Streams.Race.Kept.{insert-free}

insert-taken :
    (sdk : Sdk) (q : Request) (s s₀ : PlaySession) (m : Dict PlaySession) (t : List Call)
    → Dict.find q.play.stream_id m ≡ some s₀
    → insert sdk q s m t ≡ record {
      stage = returned 0;
      sessions = m;
      calls = unless_zero s.media_client ms_disconnect t;
    }
unfolding insert insert_play_session destroy disconnet_ms
insert-taken sdk q s s₀ m t e =
    rw (e, insert, insert-known q.play.stream_id s s₀ m e) (ground arith)

ask-free :
    (q : Request) (m : Dict PlaySession) (t : List Call)
    → Dict.find q.play.stream_id m ≡ none
    → ask q m t ≡ record { stage = makes q; sessions = m; calls = t }
unfolding ask get_play_session
ask-free q m t e = rw (e, ask) refl

-- Two starts.
abbrev pub pair : Dict PlaySession → List Call → Stage → Stage → Starts
pair m t a b = record { sessions = m; calls = t; stages = a ∷ b ∷ [] }

module _ (sdk : Sdk) (m₀ : Dict PlaySession) (t₀ : List Call) (qs : List Stage) where
  goes_first :
      (m m' : Dict PlaySession) (t t' : List Call) (a a' b : Stage)
      → advance sdk a m t ≡ record { stage = a'; sessions = m'; calls = t' }
      → Reach sdk m₀ t₀ qs (pair m t a b)
      → Reach sdk m₀ t₀ qs (pair m' t' a' b)
  unfolding step_at
  goes_first m m' t t' a a' b e r =
      let left : Part → Starts = λ o. pair o.sessions o.calls o.stage b in
      goes {w = pair m t a b} [] (b ∷ []) a r refl (ap left (sym e))

  goes_second :
      (m m' : Dict PlaySession) (t t' : List Call) (a b b' : Stage)
      → advance sdk b m t ≡ record { stage = b'; sessions = m'; calls = t' }
      → Reach sdk m₀ t₀ qs (pair m t a b)
      → Reach sdk m₀ t₀ qs (pair m' t' a b')
  unfolding step_at
  goes_second m m' t t' a b b' e r =
      let left : Part → Starts = λ o. pair o.sessions o.calls a o.stage in
      goes {w = pair m t a b} (a ∷ []) [] b r refl (ap left (sym e))

-- A run to a state where two starts have returned.
pub record Lost (sdk : Sdk) (m : Dict PlaySession) (t : List Call) (q q' : Request)
    (s s' : PlaySession) (t' : List Call) : Type 0 where
  pub final : Starts
  pub reached : Reach sdk m t (asks q ∷ asks q' ∷ []) final
  pub both : final.stages ≡ returned 0 ∷ returned 0 ∷ []
  pub kept : Dict.find q.play.stream_id final.sessions ≡ some s
  pub hung_up : final.calls ≡ unless_zero s'.media_client ms_disconnect t'

-- Two starts of one free stream id can both return 0: if both look it up before either has inserted its
-- session, and the SDK lets both start, the map keeps the first session, and the second is destroyed.
-- The calls for it end with the close of its media connection: its live view is not stopped, and the
-- SDK goes on to call back into it.
pub two_starts-Lost :
    (sdk : Sdk) (m : Dict PlaySession) (t t₁ t₂ : List Call) (q q' : Request) (s s' : PlaySession)
    → q'.play.stream_id ≡ q.play.stream_id
    → Dict.find q.play.stream_id m ≡ none
    → make sdk q m t ≡ record { stage = inserts q s; sessions = m; calls = t₁ }
    → make sdk q' m t₁ ≡ record { stage = inserts q' s'; sessions = m; calls = t₂ }
    → Lost sdk m t q q' s s' t₂
unfolding advance
two_starts-Lost sdk m t t₁ t₂ q q' s s' same free made made' =
    let qs = asks q ∷ asks q' ∷ [] in
    let m' = Dict.insert q.play.stream_id s m in
    let end = unless_zero s'.media_client ms_disconnect t₂ in
    let free' : Dict.find q'.play.stream_id m ≡ none = ap (λ k. Dict.find k m) same ∙ free in
    let stored : Dict.find q.play.stream_id m' ≡ some s =
      ground (arith, find-insert q.play.stream_id q.play.stream_id s m, eq_refl q.play.stream_id) in
    let stored' : Dict.find q'.play.stream_id m' ≡ some s =
      ap (λ k. Dict.find k m') same ∙ stored in
    let r₁ =
      goes_first sdk m t qs m m t t (asks q) (makes q) (asks q') (ask-free q m t free)
        (begins refl) in
    let r₂ =
      goes_second sdk m t qs m m t t (makes q) (asks q') (makes q') (ask-free q' m t free') r₁ in
    let r₃ = goes_first sdk m t qs m m t t₁ (makes q) (inserts q s) (makes q') made r₂ in
    let r₄ = goes_second sdk m t qs m m t₁ t₂ (inserts q s) (makes q') (inserts q' s') made' r₃ in
    let r₅ =
      goes_first sdk m t qs m m' t₂ t₂ (inserts q s) (returned 0) (inserts q' s')
        (insert-free sdk q s m t₂ free) r₄ in
    let r₆ =
      goes_second sdk m t qs m' m' t₂ end (returned 0) (inserts q' s') (returned 0)
        (insert-taken sdk q' s' s m' t₂ stored') r₅ in
    record {
      final = pair m' end (returned 0) (returned 0);
      reached = r₆;
      both = refl;
      kept = stored;
      hung_up = refl;
    }
