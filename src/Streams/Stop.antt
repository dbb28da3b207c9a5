-- ===== src/Streams/Stop.antt =====
-- `sdk_wrap::stop_play` and the operations on a session that is looked up: what they leave.
use rundo_dahua_sdk_edge.Common.{
  ℕ, ◌≡◌, List, String, none, arith, Option-cases, inl, inr, str_eq, eq_iff, if◌then◌else◌,
}
use rundo_dahua_sdk_edge.Common.Dict
use rundo_dahua_sdk_edge.Common.Dict.{Dict, find-insert, find-erase, find-assign}
use rundo_dahua_sdk_edge.Sdk.{Sdk, Call, minus_one}
use rundo_dahua_sdk_edge.Session.{PlaySession, Junk, StreamType}
use rundo_dahua_sdk_edge.Session.Playback.{Float}
use rundo_dahua_sdk_edge.Sessions.{get_play_session, del_play_session}
use rundo_dahua_sdk_edge.Streams.{
  LoginResults, Play, Outcome, stop_play, start_real_stream, device_record_pause,
  device_record_resume, device_record_speed, on_session,
}
use rundo_dahua_sdk_edge.Streams.Start.{start_real_stream-others}

-- After a stop the id is free and every other entry is as before, whether or not the id was known.
pub stop_play-sessions :
    (sdk : Sdk) (k : String) (m : Dict PlaySession) (t : List Call) (j : String)
    → Dict.find j (stop_play sdk k m t).sessions ≡ (if str_eq k j then none else Dict.find j m)
unfolding stop_play get_play_session del_play_session
stop_play-sessions sdk k m t j = elim (Option-cases (Dict.find k m)) [
  | inl e ↦ ground (arith, eq_iff k j)
  | inr (s, e) ↦ ground (arith, find-erase k j m)
]

-- Stopping, pausing, resuming and setting the speed of an id that is not in the map return -1, leave
-- the map as it was and make no call.
pub unknown_stream :
    (sdk : Sdk) (f : Float) (k : String) (speed : ℕ) (m : Dict PlaySession) (t : List Call)
    → Dict.find k m ≡ none
    → let refused : Outcome = record { ret = minus_one; sessions = m; calls = t } in
      (stop_play sdk k m t ≡ refused)
      × (device_record_pause sdk k m t ≡ refused)
      × (device_record_resume sdk k m t ≡ refused)
      × (device_record_speed sdk f k speed m t ≡ refused)
unfolding stop_play device_record_pause device_record_resume device_record_speed on_session
    get_play_session
unknown_stream sdk f k speed m t e = (ground arith, ground arith, ground arith, ground arith)

-- Starting a live stream under a free id and stopping it restores the whole map, whether the start
-- succeeded or not.
pub stop_play-start_real_stream :
    (sdk : Sdk) (junk : Junk) (login : LoginResults) (p : Play) (kind : StreamType)
    (m : Dict PlaySession) (t : List Call) (j : String)
    → Dict.find p.stream_id m ≡ none
    → let o = start_real_stream sdk junk login p kind m t in
      Dict.find j (stop_play sdk p.stream_id o.sessions o.calls).sessions ≡ Dict.find j m
stop_play-start_real_stream sdk junk login p kind m t j e =
    let o = start_real_stream sdk junk login p kind m t in
    ground (
      arith,
      stop_play-sessions sdk p.stream_id o.sessions o.calls j,
      start_real_stream-others sdk junk login p kind m t j,
      eq_iff p.stream_id j,
    )
