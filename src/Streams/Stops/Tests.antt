-- ===== src/Streams/Stops/Tests.antt =====
-- The theorems on stops, applied to a live view.
use rundo_dahua_sdk_edge.Common.{◌≡◌, refl, false, [], ◌∷◌, arith}
use rundo_dahua_sdk_edge.Sdk.{stop_real_play}
use rundo_dahua_sdk_edge.Session.{PlaySession, new_session}
use rundo_dahua_sdk_edge.Session.Stop.{IsIdle}
use rundo_dahua_sdk_edge.Session.Tests.{agreeable, memory}
use rundo_dahua_sdk_edge.Streams.Stops.{
  Part, stops, of_real, asks, advance, Stops, Reach, begins, seek, onward, test, stop, hang_up,
  close, reset, after, handle, stop_call,
}
use rundo_dahua_sdk_edge.Streams.Stops.Kept.{stops_of, Reach-IsIdle}
use rundo_dahua_sdk_edge.Streams.Stops.Twice.{run, at, foremost, asked, run-Reach, two_stops-Twice}

abbrev live : PlaySession
live = record (new_session memory 3 0 "cam") {
  record_play_handle = 0;
  real_play_handle = 9;
  download_handle = 0;
  media_client = 4;
}

-- Two stops have tested the handle, and the first then runs to its return.
abbrev begun : Stops
begun = stops_of live [] (asks ∷ asks ∷ [])

abbrev idle : PlaySession
idle = record live { is_run = false }

abbrev tested : Part
tested = at agreeable (stops of_real 0) idle []

tested-Reach : Reach agreeable begun (foremost agreeable begun (stops of_real 0 ∷ []) tested)
tested-Reach =
    let first = asked agreeable live [] begun [] (asks ∷ []) refl (omega arith) (begins refl) in
    asked agreeable idle [] begun (stops of_real 0 ∷ []) [] refl (omega arith) first

abbrev stopped : Stops
stopped = foremost agreeable begun (stops of_real 0 ∷ []) (run agreeable 7 tested)

stopped-Reach : Reach agreeable begun stopped
stopped-Reach = run-Reach agreeable begun (stops of_real 0 ∷ []) 7 tested tested-Reach

Reach-IsIdle_example : (stopped.shared.in_map ≡ false) × IsIdle stopped.shared.session
unfolding advance seek onward test stop hang_up close reset after handle stop_call
Reach-IsIdle_example =
    Reach-IsIdle agreeable live [] (asks ∷ asks ∷ []) stopped [] (stops of_real 0 ∷ []) 0
      (refl, (refl, tt)) stopped-Reach refl

two_stops-Twice_example :
    (w : Stops) × Reach agreeable (stops_of live [] (asks ∷ asks ∷ [])) w
    × (w.shared.calls ≡ stop_real_play 9 ∷ stop_real_play 9 ∷ [])
two_stops-Twice_example = two_stops-Twice agreeable live [] refl (omega arith)
