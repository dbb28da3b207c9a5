-- ===== src/Streams/Tests.antt =====
-- The theorems on the stream operations, applied to libraries that agree and to ones that refuse.
use rundo_dahua_sdk_edge.Common.{
  ◌≡◌, ◌≢◌, refl, false, List, [], ◌∷◌, none, some, arith, ◌==◌, String,
}
use rundo_dahua_sdk_edge.Common.Dict
use rundo_dahua_sdk_edge.Common.Dict.{Dict, Entries, IsDistinct}
use rundo_dahua_sdk_edge.Sdk.{
  Sdk, Call, NetTime, make_key_frame, real_play_by_data_type, ms_disconnect, dhsdk_get_last_error,
}
use rundo_dahua_sdk_edge.Session.{PlaySession, new_session, main_stream}
use rundo_dahua_sdk_edge.Session.Tests.{agreeable, memory}
use rundo_dahua_sdk_edge.Session.Playback.{Float}
use rundo_dahua_sdk_edge.Session.Stop.{unless_zero}
use rundo_dahua_sdk_edge.Streams.{
  LoginResults, Play, Record, make_session, start_real_stream, stop_play,
}
use rundo_dahua_sdk_edge.Streams.Start.{start_real_stream_refused, start_real_stream_unforced}
use rundo_dahua_sdk_edge.Streams.Stop.{stop_play-start_real_stream}
use rundo_dahua_sdk_edge.Streams.Invariant.{Operation, play, play_back, stop, pause, speed, IsValid}

-- Libraries that accept every call, but open nothing, with error 9.
abbrev closed : Sdk
closed = record agreeable { opens = λ t c. 0; get_last_error = λ t. 9 }

-- Libraries that refuse every call.
abbrev refusing : Sdk
refusing = record agreeable { accepts = λ t c. false; get_last_error = λ t. 9 }

abbrev pub as_before : String → NetTime → NetTime
as_before _ t = t

abbrev pub floats : Float
floats = record {
  of_int = λ n. n;
  to_int = λ n. n;
  eq = λ a b. a == b;
  gt = λ a b. false;
  mul = λ a b. b;
  div = λ a b. a;
  sqrt = λ a. a;
}

abbrev pub door : LoginResults
door = record { handle = 3; chan_num = 16; uid = 1; equipment_key = "door" }

abbrev pub live : Play
live = record {
  msg_type = "PLAY";
  msg_id = "1";
  device_id = "door";
  channel = 1;
  stream_mode = 1;
  stream_id = "live";
  port = 9000;
  sdp_ip = "10.0.0.1";
}

abbrev pub recorded : Record
recorded = record {
  msg_type = "RECORD";
  msg_id = "2";
  device_id = "door";
  channel = 1;
  file_name = "";
  file_size = 0;
  start_time = "2022-01-01 00:00:00";
  end_time = "2022-01-01 01:00:00";
  stream_mode = 1;
  stream_id = "recorded";
  port = 9000;
  sdp_ip = "";
}

abbrev pub one_session : Dict PlaySession
one_session = ("other", record (new_session memory 3 2 "other") { media_client = 4 }) ∷ []

live_free : Dict.find "live" one_session ≡ none
unfolding Dict.find
live_free = refl

recorded_free : Dict.find "recorded" one_session ≡ none
unfolding Dict.find
recorded_free = refl

pub other_IsValid : IsValid one_session
unfolding new_session Dict.find
other_IsValid = record { keyed = (refl, tt); distinct = (refl, tt) }

-- The calls up to the live view that is refused.
abbrev asked : List Call
asked =
    real_play_by_data_type 3 1
    ∷ make_key_frame 3 1
    ∷ (make_session closed memory 3 1 "live" "10.0.0.1" 9000 1 []).1

named_error : dhsdk_get_last_error closed asked ≢ 0
unfolding dhsdk_get_last_error
named_error = ground arith

start_real_stream_refused_example :
    let made = make_session closed memory 3 1 "live" "10.0.0.1" 9000 1 [] in
    start_real_stream closed memory door live main_stream one_session [] ≡ record {
      ret = dhsdk_get_last_error closed asked;
      sessions = one_session;
      calls = unless_zero made.0.media_client ms_disconnect asked;
    }
start_real_stream_refused_example =
    start_real_stream_refused closed memory door live main_stream one_session [] live_free refl refl
      named_error

start_real_stream_unforced_example :
    let o = start_real_stream refusing memory door live main_stream one_session [] in
    (o.ret ≡ 0)
    × (s : PlaySession) × (Dict.find "live" o.sessions ≡ some s)
    × (s.real_play_handle ≡ 0)
    × (s.record_play_handle ≡ 0)
start_real_stream_unforced_example =
    start_real_stream_unforced refusing memory door live main_stream one_session [] live_free refl

stop_play-start_real_stream_example :
    let o = start_real_stream agreeable memory door live main_stream one_session [] in
    Dict.find "other" (stop_play agreeable "live" o.sessions o.calls).sessions
    ≡ Dict.find "other" one_session
stop_play-start_real_stream_example =
    stop_play-start_real_stream agreeable memory door live main_stream one_session [] "other"
      live_free

abbrev busy_day : List Operation
busy_day =
    play memory door live
    ∷ play_back memory door recorded
    ∷ pause "recorded"
    ∷ speed "recorded" 2
    ∷ stop "other"
    ∷ []
