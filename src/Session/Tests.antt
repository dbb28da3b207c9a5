-- ===== src/Session/Tests.antt =====
-- The theorems on a media session, applied to a session that plays and to one without a connection.
use rundo_dahua_sdk_edge.Common.{
  ℕ, zero, suc, ◌+◌, ◌<◌, ap, ◌≡◌, refl, true, false, List, [], ◌∷◌, ◌++◌, none, some, length,
  arith, ◌&&◌, ◌==◌, if◌then◌else◌,
}
use mathlib.Core.List.{append-nil}
use rundo_dahua_sdk_edge.Sdk.{Sdk, NetTime, ms_write}
use rundo_dahua_sdk_edge.Session.{PlaySession, Junk, new_session}
use rundo_dahua_sdk_edge.Session.Stop.{stop_session, closing, stop_session-calls}
use rundo_dahua_sdk_edge.Session.Send.{
  frame, send_ms, send_all, flush, flush_if, tick, append, is_full, is_new_frame, buffer_size,
}
use rundo_dahua_sdk_edge.Session.Send.Stream.{stream, frames, send_all-stream}
use rundo_dahua_sdk_edge.Session.Send.Bounds.{IsSound}
use rundo_dahua_sdk_edge.Session.Send.Overflow.{send_all_overflow}
use rundo_dahua_sdk_edge.Session.Send.Frames.{deframe, deframe-frames}

-- Libraries that accept every call, with handle 7.
abbrev pub agreeable : Sdk
agreeable = record {
  accepts = λ t c. true;
  opens = λ t c. 7;
  code = λ t c. 0;
  get_last_error = λ t. 0;
  login_error = λ t c. 0;
  login_channels = λ t c. 16;
}

abbrev pub midnight : NetTime
midnight = record { year = 2022; month = 1; day = 1; hour = 0; minute = 0; second = 0 }

abbrev pub memory : Junk
memory = record {
  stream_type = 0;
  is_run = false;
  download_handle = 0;
  pause = false;
  backward = false;
  download_pause = false;
  ps_muxer = 0;
  rtp_handle = 0;
  max_buffer_length = 60000;
  start_video_timestamp = 0;
  start_time = midnight;
  stop_time = midnight;
}

-- A live stream over the connection 9.
abbrev pub playing : PlaySession
playing = record (new_session memory 3 1 "stream") {
  is_run = true;
  real_play_handle = 5;
  media_client = 9;
}

-- The same without a connection, and with a full buffer.
abbrev deaf : PlaySession
deaf = record playing { media_client = 0 }

abbrev pub two_packets : List (List ℕ)
two_packets = (1 ∷ 2 ∷ []) ∷ (3 ∷ []) ∷ []

abbrev pub after_two : PlaySession
after_two = record playing {
  buffer = frame (3 ∷ []);
  current_video_timestamp = 2;
  start_video_timestamp = 2;
}

stop_session-calls_example : (stop_session agreeable playing []).calls ≡ (
    if (playing.record_play_handle == 0)
      && (playing.real_play_handle == 0)
      && (playing.download_handle == 0)
    then []
    else closing playing [])
stop_session-calls_example = stop_session-calls agreeable playing []

send_all-stream_example :
    stream after_two (ms_write 9 (frame (1 ∷ 2 ∷ [])) ∷ [])
    ≡ stream playing [] ++ frames two_packets
unfolding send_all send_ms flush_if flush tick append is_full is_new_frame frame new_session
send_all-stream_example =
    send_all-stream agreeable two_packets playing [] after_two
      (ms_write 9 (frame (1 ∷ 2 ∷ [])) ∷ []) refl refl

pub playing-IsSound : IsSound playing
unfolding new_session
playing-IsSound = record {
  within = omega arith;
  limited = omega arith;
  connected = λ _ e. ground arith;
}

deframe-frames_example : deframe 2 (frames two_packets) ≡ some two_packets
deframe-frames_example = deframe-frames 2 two_packets (omega arith) (omega arith, (omega arith, tt))

abbrev zeros : ℕ → List ℕ
zeros zero = []
zeros (suc n) = 0 ∷ zeros n

length-zeros : (n : ℕ) → length (zeros n) ≡ n
length-zeros zero = refl
length-zeros (suc n) = ap suc (length-zeros n)

overflows :
    (n : ℕ) → buffer_size < n + 4 → buffer_size < length (deaf.buffer ++ frames (zeros n ∷ []))
unfolding frames frame new_session
overflows n h = ground (arith, length-zeros n, append-nil (zeros n))

send_all_overflow_example : send_all agreeable (zeros 65533 ∷ []) deaf [] ≡ none
unfolding new_session
send_all_overflow_example =
    send_all_overflow agreeable (zeros 65533 ∷ []) deaf [] refl refl (omega arith)
      (overflows 65533 (omega arith))
