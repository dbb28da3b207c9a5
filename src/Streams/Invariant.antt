-- ===== src/Streams/Invariant.antt =====
-- Every history of stream operations keeps the session map well formed.
use rundo_dahua_sdk_edge.Common.{
  ℕ, ◌≡◌, ◌∙◌, Bool, true, false, List, [], ◌∷◌, String, arith, Option-cases, inl, inr,
}
use rundo_dahua_sdk_edge.Common.Dict
use rundo_dahua_sdk_edge.Common.Dict.{
  Dict, find-insert, find-erase, find-assign, IsDistinct, Entries, insert-IsDistinct,
  assign-IsDistinct, erase-IsDistinct, insert-Entries, erase-Entries, assign-Entries, find-Entries,
}
use rundo_dahua_sdk_edge.Sdk.{Sdk, Call, NetTime}
use rundo_dahua_sdk_edge.Session.{
  PlaySession, Junk, Ran, StreamType, main_stream, start_real_play_session,
  start_record_play_session,
}
use rundo_dahua_sdk_edge.Session.Playback.{Float, pause_play_back_session, set_speed}
use rundo_dahua_sdk_edge.Sessions.{get_play_session, del_play_session, insert_play_session}
use rundo_dahua_sdk_edge.Streams.{
  LoginResults, Play, Record, Outcome, stop_play, start_real_stream, start_play_back, keep_session,
  make_session, device_record_pause, device_record_resume, device_record_speed, on_session,
}
use rundo_dahua_sdk_edge.Streams.Start.{make_session-fresh}

-- The stream operations, with what each request and its handler's memory supply.
pub data Operation : Type 0 where
  play : Junk → LoginResults → Play → Operation
  play_back : Junk → LoginResults → Record → Operation
  stop : String → Operation
  pause resume : String → Operation
  speed : String → ℕ → Operation

module _ (sdk : Sdk) (f : Float) (read_time : String → NetTime → NetTime) where
  unfoldable pub operate : Operation → Dict PlaySession → List Call → Outcome
  operate (play junk login p) m t = start_real_stream sdk junk login p main_stream m t
  operate (play_back junk login q) m t = start_play_back sdk read_time junk login q m t
  operate (stop k) m t = stop_play sdk k m t
  operate (pause k) m t = device_record_pause sdk k m t
  operate (resume k) m t = device_record_resume sdk k m t
  operate (speed k v) m t = device_record_speed sdk f k v m t

  unfoldable pub operate_all : List Operation → Dict PlaySession → List Call → Dict PlaySession
  operate_all [] m t = m
  operate_all (o ∷ os) m t = let r = operate o m t in operate_all os r.sessions r.calls

-- Each session is stored under its own stream id, and no id stands twice.
abbrev pub IsKeyed : String → PlaySession → Type 0
IsKeyed k s = s.stream_id ≡ k

pub record IsValid (m : Dict PlaySession) : Type 0 where
  pub keyed : Entries IsKeyed m
  pub distinct : IsDistinct m

pub keep_session-IsValid :
    (sdk : Sdk) (k : String) (r : Ran) (m : Dict PlaySession)
    → IsKeyed k r.session
    → IsValid m
    → IsValid (keep_session sdk k r m).sessions
unfolding keep_session insert_play_session
keep_session-IsValid sdk k r m e v =
    let kept = insert-Entries IsKeyed k r.session m e v.keyed in
    let once = insert-IsDistinct k r.session m v.distinct in
    let w : IsValid (Dict.insert k r.session m) = record { keyed = kept; distinct = once } in
    ground (arith, w)

pub start_real-stream_id :
    (sdk : Sdk) (kind : StreamType) (s : PlaySession) (t : List Call)
    → (start_real_play_session sdk kind s t).session.stream_id ≡ s.stream_id
unfolding start_real_play_session
start_real-stream_id sdk kind s t = ground arith

start_record-stream_id :
    (sdk : Sdk) (a b : NetTime) (kind : StreamType) (s : PlaySession) (t : List Call)
    → (start_record_play_session sdk a b kind s t).session.stream_id ≡ s.stream_id
unfolding start_record_play_session
start_record-stream_id sdk a b kind s t = ground arith

pub start_real_stream-IsValid :
    (sdk : Sdk) (junk : Junk) (login : LoginResults) (p : Play) (m : Dict PlaySession)
    (t : List Call)
    → IsValid m
    → IsValid (start_real_stream sdk junk login p main_stream m t).sessions
unfolding start_real_stream
start_real_stream-IsValid sdk junk login p m t v =
    let made = make_session sdk junk login.handle p.channel p.stream_id p.sdp_ip p.port 1 t in
    let fresh =
      make_session-fresh sdk junk login.handle p.channel p.stream_id p.sdp_ip p.port 1 t in
    let r = start_real_play_session sdk main_stream made.0 made.1 in
    let own : r.session.stream_id ≡ p.stream_id =
      start_real-stream_id sdk main_stream made.0 made.1 ∙ fresh.2 in
    let kept = keep_session-IsValid sdk p.stream_id r m own v in ground (arith, kept)

pub start_play_back-IsValid :
    (sdk : Sdk) (read_time : String → NetTime → NetTime) (junk : Junk) (login : LoginResults)
    (q : Record) (m : Dict PlaySession) (t : List Call)
    → IsValid m
    → IsValid (start_play_back sdk read_time junk login q m t).sessions
unfolding start_play_back
start_play_back-IsValid sdk read_time junk login q m t v =
    let made = make_session sdk junk login.handle q.channel q.stream_id q.sdp_ip q.port 2 t in
    let fresh =
      make_session-fresh sdk junk login.handle q.channel q.stream_id q.sdp_ip q.port 2 t in
    let start = read_time q.start_time junk.start_time in
    let stop = read_time q.end_time junk.stop_time in
    let r = start_record_play_session sdk start stop main_stream made.0 made.1 in
    let own : r.session.stream_id ≡ q.stream_id =
      start_record-stream_id sdk start stop main_stream made.0 made.1 ∙ fresh.2 in
    let kept = keep_session-IsValid sdk q.stream_id r m own v in ground (arith, kept)

pub stop_play-IsValid :
    (sdk : Sdk) (k : String) (m : Dict PlaySession) (t : List Call)
    → IsValid m
    → IsValid (stop_play sdk k m t).sessions
unfolding stop_play del_play_session
stop_play-IsValid sdk k m t v =
    let w : IsValid (Dict.erase k m) = record {
      keyed = erase-Entries IsKeyed k m v.keyed;
      distinct = erase-IsDistinct k m v.distinct;
    } in
    ground (arith, w)

pub on_session-IsValid :
    (method : PlaySession → List Call → Ran) (k : String) (m : Dict PlaySession) (t : List Call)
    → ((s : PlaySession) → (method s t).session.stream_id ≡ s.stream_id)
    → IsValid m
    → IsValid (on_session method k m t).sessions
unfolding on_session get_play_session
on_session-IsValid method k m t same v = elim (Option-cases (Dict.find k m)) [
  | inl e ↦ rw (e, on_session, get_play_session) v
  | inr (s, e) ↦
      let own : (method s t).session.stream_id ≡ k =
        same s ∙ find-Entries IsKeyed k s m v.keyed e in
      rw (e, on_session, get_play_session)
        (record {
          keyed = assign-Entries IsKeyed k (method s t).session m own v.keyed;
          distinct = assign-IsDistinct k (method s t).session m v.distinct;
        })
]

pub pause-stream_id :
    (sdk : Sdk) (b : Bool) (s : PlaySession) (t : List Call)
    → (pause_play_back_session sdk b s t).session.stream_id ≡ s.stream_id
unfolding pause_play_back_session
pause-stream_id sdk b s t = ground arith

pub speed-stream_id :
    (sdk : Sdk) (f : Float) (x : ℕ) (s : PlaySession) (t : List Call)
    → (set_speed sdk f x s t).session.stream_id ≡ s.stream_id
unfolding set_speed
speed-stream_id sdk f x s t = ground arith

operate-IsValid :
    (sdk : Sdk) (f : Float) (read_time : String → NetTime → NetTime) (o : Operation)
    (m : Dict PlaySession) (t : List Call)
    → IsValid m
    → IsValid (operate sdk f read_time o m t).sessions
unfolding operate device_record_pause device_record_resume device_record_speed
operate-IsValid sdk f read_time (play junk login p) m t v =
    start_real_stream-IsValid sdk junk login p m t v
operate-IsValid sdk f read_time (play_back junk login q) m t v =
    start_play_back-IsValid sdk read_time junk login q m t v
operate-IsValid sdk f read_time (stop k) m t v = stop_play-IsValid sdk k m t v
operate-IsValid sdk f read_time (pause k) m t v =
    on_session-IsValid (pause_play_back_session sdk true) k m t (λ s. pause-stream_id sdk true s t)
      v
operate-IsValid sdk f read_time (resume k) m t v =
    on_session-IsValid (pause_play_back_session sdk false) k m t
      (λ s. pause-stream_id sdk false s t) v
operate-IsValid sdk f read_time (speed k x) m t v =
    on_session-IsValid (set_speed sdk f x) k m t (λ s. speed-stream_id sdk f x s t) v

-- Whatever stream operations are made, in any order and with any answers of the libraries, a session
-- map that is valid stays valid: each session is stored under its own stream id, and no id twice.
pub operate_all-IsValid :
    (sdk : Sdk) (f : Float) (read_time : String → NetTime → NetTime) (os : List Operation)
    (m : Dict PlaySession) (t : List Call)
    → IsValid m
    → IsValid (operate_all sdk f read_time os m t)
unfolding operate_all
operate_all-IsValid sdk f read_time [] m t v = v
operate_all-IsValid sdk f read_time (o ∷ os) m t v =
    operate_all-IsValid sdk f read_time os _ _ (operate-IsValid sdk f read_time o m t v)
