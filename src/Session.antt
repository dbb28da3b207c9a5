-- ===== src/Session.antt =====
-- src/PlaySession.h and src/PlaySession.cpp: one media session. A method takes the libraries' answers,
-- the session and the history of calls, and returns its `int` with the new session and history.
-- `PlaySession` keeps the members that the code reads; handles are bit patterns, 0 is no handle.
pub mod Stop
pub mod Send
pub mod Playback
pub mod Feed
pub mod Tests
use rundo_dahua_sdk_edge.Common.{
  ℕ, ◌%◌, ◌^◌, Bool, true, false, not, ◌&&◌, List, [], ◌∷◌, String, ◌==◌, if◌then◌else◌,
}
use rundo_dahua_sdk_edge.Sdk.{
  Sdk, Call, Codec, h264, h265, NetTime, make_key_frame, real_play_by_data_type, set_device_mode,
  record_stream_type, record_type_all, play_back_by_data_type, stop_play_back, stop_real_play,
  stop_download, ms_connect, ms_disconnect, ps_muxer_create, rtp_packet_start,
  rtp_packet_set_option, ps_muxer_add_stream, minus_one, dhsdk_get_last_error,
}

pub record PlaySession : Type 0 where
  pub login_id : ℕ
  pub channel : ℕ
  pub stream_id : String
  pub stream_type : ℕ
  pub is_run : Bool
  pub real_play_handle : ℕ
  pub record_play_handle : ℕ
  pub download_handle : ℕ
  pub media_client : ℕ
  pub pause : Bool
  pub backward : Bool
  pub download_pause : Bool
  pub speed : ℕ  -- the bit pattern of a `float`
  pub ps_muxer : ℕ
  pub rtp_handle : ℕ
  pub video_stream_id : ℕ
  pub max_buffer_length : ℕ
  pub buffer : List ℕ  -- the first `nSendRtpVideoMediaBufferLength` bytes
  pub start_video_timestamp : ℕ
  pub current_video_timestamp : ℕ
  pub start_time : NetTime
  pub stop_time : NetTime

-- The members that the constructor leaves unset hold whatever the memory held.
pub record Junk : Type 0 where
  pub stream_type : ℕ
  pub is_run : Bool
  pub download_handle : ℕ
  pub pause : Bool
  pub backward : Bool
  pub download_pause : Bool
  pub ps_muxer : ℕ
  pub rtp_handle : ℕ
  pub max_buffer_length : ℕ
  pub start_video_timestamp : ℕ
  pub start_time : NetTime
  pub stop_time : NetTime

-- 1.0f
abbrev pub float_one : ℕ
float_one = 0x3f800000

unfoldable pub new_session : Junk → ℕ → ℕ → String → PlaySession
new_session junk handle channel streamid = record {
  login_id = handle;
  channel = channel;
  stream_id = streamid;
  stream_type = junk.stream_type;
  is_run = junk.is_run;
  real_play_handle = 0;
  record_play_handle = 0;
  download_handle = junk.download_handle;
  media_client = 0;
  pause = junk.pause;
  backward = junk.backward;
  download_pause = junk.download_pause;
  speed = float_one;
  ps_muxer = junk.ps_muxer;
  rtp_handle = junk.rtp_handle;
  video_stream_id = minus_one;
  max_buffer_length = junk.max_buffer_length;
  buffer = [];
  start_video_timestamp = junk.start_video_timestamp;
  current_video_timestamp = 0;
  start_time = junk.start_time;
  stop_time = junk.stop_time;
}

-- What a method leaves: its `int`, the session, and the calls made.
pub record Ran : Type 0 where
  pub ret : ℕ
  pub session : PlaySession
  pub calls : List Call

pub data StreamType : Type 0 where
  main_stream sub_stream : StreamType

-- `uint16_t remoteport`: the port is cut to 16 bits; the library writes the client handle.
unfoldable pub connet_ms : Sdk → String → ℕ → PlaySession → List Call → Ran
connet_ms sdk ip port s t =
    let c = ms_connect ip (port % 2 ^ 16) in
    record {
      ret = sdk.code t c;
      session = record s { media_client = sdk.opens t c };
      calls = c ∷ t;
    }

unfoldable pub disconnet_ms : Sdk → PlaySession → List Call → PlaySession × List Call
disconnet_ms sdk s t =
    let c = ms_disconnect s.media_client in
    if s.media_client == 0
    then (s, t)
    else (if sdk.code t c == 0 then (record s { media_client = 0 }, c ∷ t) else (s, c ∷ t))

-- The destructor.
unfoldable pub destroy : Sdk → PlaySession → List Call → List Call
unfolding disconnet_ms
destroy sdk s t = (disconnet_ms sdk s t).1

unfoldable pub add_stream : Sdk → Codec → PlaySession → List Call → PlaySession × List Call
add_stream sdk codec s t =
    let c = ps_muxer_add_stream s.ps_muxer codec in
    (record s { video_stream_id = sdk.opens t c }, c ∷ t)

-- `videoEncType` 1 and 10 name the two codecs.
unfoldable pub creat_packet : Sdk → ℕ → PlaySession → List Call → PlaySession × List Call
unfolding add_stream
creat_packet sdk enc s t =
    let s₁ = record s { ps_muxer = sdk.opens t ps_muxer_create } in
    let t₁ = ps_muxer_create ∷ t in
    let s₂ = record s₁ { rtp_handle = sdk.opens t₁ rtp_packet_start } in
    let t₂ = rtp_packet_start ∷ t₁ in
    let t₃ = rtp_packet_set_option s₂.rtp_handle ∷ t₂ in
    if not (sdk.code t₁ rtp_packet_start == 0)
    then (s₂, t₂)
    else (if (s₂.video_stream_id == minus_one) && not (s₂.ps_muxer == 0)
        then (if enc == 1
            then add_stream sdk h264 s₂ t₃
            else (if enc == 10 then add_stream sdk h265 s₂ t₃ else (s₂, t₃)))
        else (s₂, t₃))

-- `setMSAddr`: the result of `creat_packet` is dropped, that of `connetMS` is returned as a test.
unfoldable pub set_ms_addr : Sdk → String → ℕ → PlaySession → List Call → PlaySession × List Call
unfolding connet_ms creat_packet
set_ms_addr sdk ip port s t =
    let r = connet_ms sdk ip port s t in creat_packet sdk 1 r.session r.calls

unfoldable pub start_real_play_session : Sdk → StreamType → PlaySession → List Call → Ran
start_real_play_session sdk _ s t =
    let key = make_key_frame s.login_id s.channel in
    let t₁ = key ∷ t in
    let play = real_play_by_data_type s.login_id s.channel in
    let h = sdk.opens t₁ play in
    if sdk.accepts t key
    then record {
      ret = if h == 0 then dhsdk_get_last_error sdk (play ∷ t₁) else 0;
      session = record s { real_play_handle = h; is_run = true };
      calls = play ∷ t₁;
    }
    else record { ret = 0; session = s; calls = t₁ }

abbrev pub stream_mode : StreamType → ℕ
stream_mode main_stream = 1
stream_mode sub_stream = 2

-- The two times are those that `sscanf` reads from the request.
unfoldable pub start_record_play_session :
    Sdk → NetTime → NetTime → StreamType → PlaySession → List Call → Ran
start_record_play_session sdk start stop kind s t =
    let mode = set_device_mode s.login_id (record_stream_type (stream_mode kind)) in
    let t₁ = mode ∷ t in
    let files = set_device_mode s.login_id record_type_all in
    let t₂ = files ∷ t₁ in
    let play = play_back_by_data_type s.login_id s.channel start stop in
    let t₃ = play ∷ t₂ in
    let h = sdk.opens t₂ play in
    if not (sdk.accepts t mode)
    then record { ret = dhsdk_get_last_error sdk t₁; session = s; calls = t₁ }
    else (if not (sdk.accepts t₁ files)
        then record { ret = dhsdk_get_last_error sdk t₂; session = s; calls = t₂ }
        else (if h == 0
            then record {
              ret = dhsdk_get_last_error sdk t₃;
              session = record s { record_play_handle = h };
              calls = t₃;
            }
            else record {
              ret = 0;
              session = record s { record_play_handle = h; is_run = true };
              calls = t₃;
            }))
