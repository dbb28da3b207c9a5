-- ===== src/Streams/Race/Kept.antt =====
-- What starts on several threads keep, and one that nothing interrupts.
use rundo_dahua_sdk_edge.Common.{
  All-at, All-replace, map, ◌≡◌, refl, ◌∙◌, List, [], ◌∷◌, none, ◌==◌, All, Option-cases,
  Bool-cases, inl, inr,
}
use rundo_dahua_sdk_edge.Common.Dict
use rundo_dahua_sdk_edge.Common.Dict.{Dict, insert-Entries, insert-IsDistinct}
use rundo_dahua_sdk_edge.Sdk.{Sdk, Call}
use rundo_dahua_sdk_edge.Session.{PlaySession, main_stream, start_real_play_session}
use rundo_dahua_sdk_edge.Sessions.{get_play_session, insert_play_session}
use rundo_dahua_sdk_edge.Streams.{make_session, start_real_stream, keep_session}
use rundo_dahua_sdk_edge.Streams.Start.{make_session-fresh}
use rundo_dahua_sdk_edge.Streams.Invariant.{IsKeyed, IsValid, start_real-stream_id}
use rundo_dahua_sdk_edge.Streams.Race.{
  Request, Stage, asks, makes, inserts, returned, Starts, Part, ask, make, insert, advance, step_at,
  Reach, begins, goes,
}

-- A session that waits for its insertion has the id that was asked for.
abbrev pub IsOwn : Stage → Type 0
IsOwn (asks q) = Unit
IsOwn (makes q) = Unit
IsOwn (inserts q s) = IsKeyed q.play.stream_id s
IsOwn (returned n) = Unit

insert-IsValid :
    (sdk : Sdk) (q : Request) (s : PlaySession) (m : Dict PlaySession) (t : List Call)
    → IsKeyed q.play.stream_id s
    → IsValid m
    → IsValid (insert sdk q s m t).sessions
unfolding insert insert_play_session
insert-IsValid sdk q s m t own v = record {
  keyed = insert-Entries IsKeyed q.play.stream_id s m own v.keyed;
  distinct = insert-IsDistinct q.play.stream_id s m v.distinct;
}

ask-kept :
    (q : Request) (m : Dict PlaySession) (t : List Call)
    → ((ask q m t).sessions ≡ m) × IsOwn (ask q m t).stage
unfolding ask
ask-kept q m t = elim (Option-cases (get_play_session q.play.stream_id m)) [
  | inl e ↦ rw (e, ask) (refl, tt)
  | inr (s, e) ↦ rw (e, ask) (refl, tt)
]

make-kept :
    (sdk : Sdk) (q : Request) (m : Dict PlaySession) (t : List Call)
    → ((make sdk q m t).sessions ≡ m) × IsOwn (make sdk q m t).stage
unfolding make
make-kept sdk q m t =
    let p = q.play in
    let made = make_session sdk q.junk q.login.handle p.channel p.stream_id p.sdp_ip p.port 1 t in
    let fresh =
      make_session-fresh sdk q.junk q.login.handle p.channel p.stream_id p.sdp_ip p.port 1 t in
    let r = start_real_play_session sdk main_stream made.0 made.1 in
    let own : r.session.stream_id ≡ p.stream_id =
      start_real-stream_id sdk main_stream made.0 made.1 ∙ fresh.2 in
    elim (Bool-cases (r.ret == 0)) [
      | inl e ↦ rw (e, make) (refl, own)
      | inr e ↦ rw (e, make) (refl, tt)
    ]

advance-kept :
    (sdk : Sdk) (a : Stage) (m : Dict PlaySession) (t : List Call)
    → IsOwn a
    → IsValid m
    → IsValid (advance sdk a m t).sessions × IsOwn (advance sdk a m t).stage
unfolding advance insert
advance-kept sdk (asks q) m t own v = let (e, o) = ask-kept q m t in (rw e v, o)
advance-kept sdk (makes q) m t own v = let (e, o) = make-kept sdk q m t in (rw e v, o)
advance-kept sdk (inserts q s) m t own v = (insert-IsValid sdk q s m t own v, tt)
advance-kept sdk (returned n) m t own v = (v, tt)

Reach-kept :
    (sdk : Sdk) (m : Dict PlaySession) (t : List Call) (qs : List Stage) (w : Starts)
    → All IsOwn qs
    → IsValid m
    → Reach sdk m t qs w
    → IsValid w.sessions × All IsOwn w.stages
unfolding step_at
Reach-kept sdk m t qs w own v (begins e) = rw e (v, own)
Reach-kept sdk m t qs w own v (goes {w = u} before behind a reached here to) =
    let (valid, owns) = Reach-kept sdk m t qs u own v reached in
    let own_a = All-at IsOwn before behind a (rw here at owns) in
    let (valid', own') = advance-kept sdk a u.sessions u.calls own_a valid in
    rw to (valid', All-replace IsOwn before behind a _ (rw here at owns) own')

asks-IsOwn : (qs : List Request) → All IsOwn (map asks qs)
asks-IsOwn [] = tt
asks-IsOwn (q ∷ qs) = (tt, asks-IsOwn qs)

-- Any number of starts of live streams at once, in every interleaving of their lookups, their starts
-- and their insertions, keep a valid session map valid.
pub Reach-IsValid :
    (sdk : Sdk) (m : Dict PlaySession) (t : List Call) (qs : List Request) (w : Starts)
    → IsValid m
    → Reach sdk m t (map asks qs) w
    → IsValid w.sessions
Reach-IsValid sdk m t qs w v reached =
    (Reach-kept sdk m t (map asks qs) w (asks-IsOwn qs) v reached).0

pub insert-free :
    (sdk : Sdk) (q : Request) (s : PlaySession) (m : Dict PlaySession) (t : List Call)
    → Dict.find q.play.stream_id m ≡ none
    → insert sdk q s m t
      ≡ record { stage = returned 0; sessions = Dict.insert q.play.stream_id s m; calls = t }
unfolding insert insert_play_session
insert-free sdk q s m t e = rw (e, insert) refl

-- The parts of one start that nothing interrupts.
abbrev pub finish : Sdk → Part → Part
finish sdk o = advance sdk o.stage o.sessions o.calls

-- A start that no other one interrupts leaves what `start_real_stream` leaves: its `int`, the map, and
-- the calls.
pub advance-start_real_stream :
    (sdk : Sdk) (q : Request) (m : Dict PlaySession) (t : List Call)
    → let o = start_real_stream sdk q.junk q.login q.play main_stream m t in
      finish sdk (finish sdk (advance sdk (asks q) m t))
      ≡ record { stage = returned o.ret; sessions = o.sessions; calls = o.calls }
unfolding advance ask make start_real_stream keep_session insert_play_session get_play_session
advance-start_real_stream sdk q m t =
    let p = q.play in
    let made = make_session sdk q.junk q.login.handle p.channel p.stream_id p.sdp_ip p.port 1 t in
    let r = start_real_play_session sdk main_stream made.0 made.1 in
    elim (Option-cases (Dict.find p.stream_id m)) [
      | inr (s, e) ↦ rw (e, ask, start_real_stream) refl
      | inl e ↦ elim (Bool-cases (r.ret == 0)) [
        | inl z ↦
            rw (e, z, ask, make, start_real_stream, keep_session)
              (insert-free sdk q r.session m r.calls e)
        | inr z ↦ rw (e, z, ask, make, start_real_stream, keep_session) refl
      ]
    ]
