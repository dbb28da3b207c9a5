-- ===== src/Session/Feed/Tests.antt =====
-- The theorems on the data callbacks, applied to a block of which the packer makes two packets.
use rundo_dahua_sdk_edge.Common.{◌≡◌, ◌≢◌, refl, true, [], ◌∷◌, ◌++◌, none, arith}
use rundo_dahua_sdk_edge.Sdk.{ms_write}
use rundo_dahua_sdk_edge.Session.{new_session}
use rundo_dahua_sdk_edge.Session.Tests.{agreeable, playing, two_packets, after_two}
use rundo_dahua_sdk_edge.Session.Feed.{
  Packers, Feed, gbps, real_data_callback, update_source_stream, rtp_callback, rtp_callbacks,
  ps_to_rtp,
}
use rundo_dahua_sdk_edge.Session.Feed.Stream.{real_data_callback-stream, real_data_callback-ne-none}
use rundo_dahua_sdk_edge.Session.Send.{
  send_ms, append, frame, tick, flush, flush_if, is_full, is_new_frame,
}
use rundo_dahua_sdk_edge.Session.Send.Bounds.{IsSound}
use rundo_dahua_sdk_edge.Session.Send.Stream.{stream, frames}

abbrev two : Packers
two = record { rtp = λ ins. two_packets; ps = λ ins. [] }

abbrev feed : Feed
feed = record {
  session = record playing { rtp_handle = 5 };
  is_first = true;
  video_pts = 0;
  source_stream_count = 0;
  rtp_inputs = [];
  ps_inputs = [];
  calls = [];
}

abbrev fed : Feed
fed = record feed {
  session = record after_two { rtp_handle = 5 };
  source_stream_count = 2;
  rtp_inputs = (9 ∷ []) ∷ [];
  calls = ms_write 9 (frame (1 ∷ 2 ∷ [])) ∷ [];
}

real_data_callback-stream_example :
    stream fed.session fed.calls ≡ stream feed.session [] ++ frames two_packets
unfolding real_data_callback ps_to_rtp rtp_callbacks rtp_callback update_source_stream send_ms
    flush_if flush tick append is_full is_new_frame frame new_session
real_data_callback-stream_example =
    real_data_callback-stream agreeable two (9 ∷ []) feed fed (λ e. ground arith) refl refl

feed-IsSound : IsSound feed.session
unfolding new_session
feed-IsSound = record {
  within = omega arith;
  limited = omega arith;
  connected = λ _ e. ground arith;
}

real_data_callback-ne-none_example : real_data_callback agreeable two gbps (9 ∷ []) feed ≢ none
unfolding new_session
real_data_callback-ne-none_example =
    real_data_callback-ne-none agreeable two (9 ∷ []) feed feed-IsSound
      (omega arith, (omega arith, tt))
