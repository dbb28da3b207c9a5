-- ===== src/Streams.antt =====
-- src/sdk_wrap.cpp, the stream operations of `sdk_wrap` over the session map: start, stop, pause,
-- resume, speed. The map is passed along; a C `int` is its 32-bit pattern.
pub mod Start
pub mod Invariant
pub mod Race
pub mod Stops
pub mod Stop
pub mod Tests
use rundo_dahua_sdk_edge.Common.{
  ℕ, true, false, List, String, none, some, ◌==◌, str_eq, if◌then◌else◌,
}
use rundo_dahua_sdk_edge.Common.Dict
use rundo_dahua_sdk_edge.Common.Dict.{Dict}
use rundo_dahua_sdk_edge.Sdk.{Sdk, Call, NetTime, minus_one}
use rundo_dahua_sdk_edge.Session.{
  PlaySession, Junk, Ran, StreamType, main_stream, new_session, set_ms_addr,
  start_real_play_session, start_record_play_session, destroy,
}
use rundo_dahua_sdk_edge.Session.Stop.{stop_session}
use rundo_dahua_sdk_edge.Session.Playback.{Float, pause_play_back_session, set_speed}
use rundo_dahua_sdk_edge.Sessions.{get_play_session, insert_play_session, del_play_session}

-- `LoginResults`
pub record LoginResults : Type 0 where
  pub handle : ℕ
  pub chan_num : ℕ
  pub uid : ℕ
  pub equipment_key : String

-- `Play`: the members that the code reads after parsing.
pub record Play : Type 0 where
  pub msg_type : String
  pub msg_id : String
  pub device_id : String
  pub channel : ℕ
  pub stream_mode : ℕ
  pub stream_id : String
  pub port : ℕ
  pub sdp_ip : String

-- `Record`: the members that the code reads after parsing, or fills in a query.
pub record Record : Type 0 where
  pub msg_type : String
  pub msg_id : String
  pub device_id : String
  pub channel : ℕ
  pub file_name : String
  pub file_size : ℕ
  pub start_time : String
  pub end_time : String
  pub stream_mode : ℕ
  pub stream_id : String
  pub port : ℕ
  pub sdp_ip : String

-- What an operation leaves: its `int`, the session map, and the calls made.
pub record Outcome : Type 0 where
  pub ret : ℕ
  pub sessions : Dict PlaySession
  pub calls : List Call

-- The two start operations end alike: on an error the new session is destroyed with its last
-- reference, otherwise it is stored.
unfoldable pub keep_session : Sdk → String → Ran → Dict PlaySession → Outcome
keep_session sdk key r m =
    let (m', stored) = insert_play_session key (some r.session) m in
    if r.ret == 0
    then (if stored
        then record { ret = 0; sessions = m'; calls = r.calls }
        else record { ret = 1; sessions = m'; calls = destroy sdk r.session r.calls })
    else record { ret = r.ret; sessions = m; calls = destroy sdk r.session r.calls }

-- A new session, with its media connection if the request names an address.
unfoldable pub make_session :
    Sdk → Junk → ℕ → ℕ → String → String → ℕ → ℕ → List Call → PlaySession × List Call
make_session sdk junk handle channel stream_id sdp_ip port kind t =
    let s = new_session junk handle channel stream_id in
    let (s₁, t₁) = if str_eq sdp_ip "" then (s, t) else set_ms_addr sdk sdp_ip port s t in
    (record s₁ { stream_type = kind }, t₁)

unfoldable pub start_real_stream :
    Sdk → Junk → LoginResults → Play → StreamType → Dict PlaySession → List Call → Outcome
start_real_stream sdk junk login p kind m t =
    let (s, t₁) = make_session sdk junk login.handle p.channel p.stream_id p.sdp_ip p.port 1 t in
    elim (get_play_session p.stream_id m) [
      | none ↦ keep_session sdk p.stream_id (start_real_play_session sdk kind s t₁) m
      | some _ ↦ record { ret = 0; sessions = m; calls = t }
    ]

-- `read_time` is what `sscanf` makes of a request's time, given what the variable held.
unfoldable pub start_play_back :
    Sdk
    → (String → NetTime → NetTime)
    → Junk
    → LoginResults
    → Record
    → Dict PlaySession
    → List Call
    → Outcome
start_play_back sdk read_time junk login r m t =
    let (s, t₁) = make_session sdk junk login.handle r.channel r.stream_id r.sdp_ip r.port 2 t in
    let start = read_time r.start_time junk.start_time in
    let stop = read_time r.end_time junk.stop_time in
    elim (get_play_session r.stream_id m) [
      | none ↦
          keep_session sdk r.stream_id (start_record_play_session sdk start stop main_stream s t₁) m
      | some _ ↦ record { ret = 0; sessions = m; calls = t }
    ]

-- The caller's reference outlives the entry: the session is destroyed when the operation returns.
unfoldable pub stop_play : Sdk → String → Dict PlaySession → List Call → Outcome
stop_play sdk key m t = elim (get_play_session key m) [
  | none ↦ record { ret = minus_one; sessions = m; calls = t }
  | some s ↦
      let r = stop_session sdk s t in
      record {
        ret = r.ret;
        sessions = del_play_session key m;
        calls = destroy sdk r.session r.calls;
      }
]

-- An operation on the shared session of a key.
unfoldable pub on_session :
    (PlaySession → List Call → Ran) → String → Dict PlaySession → List Call → Outcome
on_session method key m t = elim (get_play_session key m) [
  | none ↦ record { ret = minus_one; sessions = m; calls = t }
  | some s ↦
      let r = method s t in
      record { ret = r.ret; sessions = Dict.assign key r.session m; calls = r.calls }
]

unfoldable pub device_record_pause : Sdk → String → Dict PlaySession → List Call → Outcome
unfolding on_session
device_record_pause sdk = on_session (pause_play_back_session sdk true)

unfoldable pub device_record_resume : Sdk → String → Dict PlaySession → List Call → Outcome
unfolding on_session
device_record_resume sdk = on_session (pause_play_back_session sdk false)

unfoldable pub device_record_speed :
    Sdk → Float → String → ℕ → Dict PlaySession → List Call → Outcome
unfolding on_session
device_record_speed sdk f key speed = on_session (set_speed sdk f speed) key
