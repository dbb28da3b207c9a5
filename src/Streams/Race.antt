-- ===== src/Streams/Race.antt =====
-- src/sdk_wrap.cpp, `start_real_stream` on several threads of the pool: the session map is locked for
-- the lookup and for the insertion, and not in between. A step is one of the three parts of one start.
pub mod Kept
pub mod Lost
mod Tests
use rundo_dahua_sdk_edge.Common.{
  ℕ, ◌≡◌, Bool, List, [], ◌∷◌, ◌++◌, Option, none, some, ◌==◌, if◌then◌else◌,
}
use rundo_dahua_sdk_edge.Common.Dict
use rundo_dahua_sdk_edge.Common.Dict.{Dict}
use rundo_dahua_sdk_edge.Sdk.{Sdk, Call}
use rundo_dahua_sdk_edge.Session.{
  PlaySession, Junk, StreamType, main_stream, start_real_play_session, destroy,
}
use rundo_dahua_sdk_edge.Sessions.{get_play_session, insert_play_session}
use rundo_dahua_sdk_edge.Streams.{LoginResults, Play, make_session}

-- What a start is called with.
pub record Request : Type 0 where
  pub junk : Junk
  pub login : LoginResults
  pub play : Play

-- Where a start stands: before the lookup, behind one that found no session, before the insertion of
-- its session, or returned.
pub data Stage : Type 0 where
  asks : Request → Stage
  makes : Request → Stage
  inserts : Request → PlaySession → Stage
  returned : ℕ → Stage

-- The session map, the calls made, and the starts.
pub record Starts : Type 0 where
  pub sessions : Dict PlaySession
  pub calls : List Call
  pub stages : List Stage

-- What one part leaves.
pub record Part : Type 0 where
  pub stage : Stage
  pub sessions : Dict PlaySession
  pub calls : List Call

-- `GetPlaySession`
unfoldable pub ask : Request → Dict PlaySession → List Call → Part
ask q m t = elim (get_play_session q.play.stream_id m) [
  | none ↦ record { stage = makes q; sessions = m; calls = t }
  | some _ ↦ record { stage = returned 0; sessions = m; calls = t }
]

-- The new session, and its start. A refused one is destroyed with its last reference.
unfoldable pub make : Sdk → Request → Dict PlaySession → List Call → Part
make sdk q m t =
    let p = q.play in
    let (s, t₁) =
      make_session sdk q.junk q.login.handle p.channel p.stream_id p.sdp_ip p.port 1 t in
    let r = start_real_play_session sdk main_stream s t₁ in
    if r.ret == 0
    then record { stage = inserts q r.session; sessions = m; calls = r.calls }
    else record { stage = returned r.ret; sessions = m; calls = destroy sdk r.session r.calls }

-- `InsertPlaySession` returns true for every session. One that the map did not take, since another
-- stands under its id, is destroyed with its last reference.
unfoldable pub insert : Sdk → Request → PlaySession → Dict PlaySession → List Call → Part
insert sdk q s m t =
    let (m', stored) = insert_play_session q.play.stream_id (some s) m in
    record {
      stage = returned (if stored then 0 else 1);
      sessions = m';
      calls = elim (Dict.find q.play.stream_id m) [ none ↦ t | some _ ↦ destroy sdk s t ];
    }

unfoldable pub advance : Sdk → Stage → Dict PlaySession → List Call → Part
advance sdk (asks q) m t = ask q m t
advance sdk (makes q) m t = make sdk q m t
advance sdk (inserts q s) m t = insert sdk q s m t
advance sdk (returned n) m t = record { stage = returned n; sessions = m; calls = t }

-- One start goes on by one part, whichever it is.
unfoldable pub step_at : Sdk → List Stage → Stage → List Stage → Starts → Starts
step_at sdk before a behind w =
    let o = advance sdk a w.sessions w.calls in
    record { sessions = o.sessions; calls = o.calls; stages = before ++ o.stage ∷ behind }

-- The states that an interleaving of starts leads to from a map and a history.
pub data Reach (sdk : Sdk) (m : Dict PlaySession) (t : List Call) (qs : List Stage)
    : Starts → Type 0 where
  begins : {w : Starts} → w ≡ record { sessions = m; calls = t; stages = qs } → Reach sdk m t qs w
  goes :
      {w v : Starts} (before behind : List Stage) (a : Stage)
      → Reach sdk m t qs w
      → w.stages ≡ before ++ a ∷ behind
      → v ≡ step_at sdk before a behind w
      → Reach sdk m t qs v
