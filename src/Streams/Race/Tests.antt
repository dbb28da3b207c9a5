-- ===== src/Streams/Race/Tests.antt =====
-- The theorems on starts at once, applied to two requests for one stream.
use rundo_dahua_sdk_edge.Common.{◌≡◌, refl, none, List, [], ◌∷◌, true}
use rundo_dahua_sdk_edge.Common.Dict
use rundo_dahua_sdk_edge.Sdk.{Call, make_key_frame, real_play_by_data_type}
use rundo_dahua_sdk_edge.Session.{PlaySession, new_session, start_real_play_session}
use rundo_dahua_sdk_edge.Session.Tests.{agreeable, memory}
use rundo_dahua_sdk_edge.Streams.{make_session}
use rundo_dahua_sdk_edge.Streams.Tests.{one_session, live, door, other_IsValid}
use rundo_dahua_sdk_edge.Streams.Invariant.{IsValid}
use rundo_dahua_sdk_edge.Streams.Race.{Request, inserts, make}
use rundo_dahua_sdk_edge.Streams.Race.Kept.{Reach-IsValid}
use rundo_dahua_sdk_edge.Streams.Race.Lost.{Lost, two_starts-Lost}

abbrev request : Request
request = record { junk = memory; login = door; play = record live { sdp_ip = "" } }

abbrev playing : PlaySession
playing = record (new_session memory 3 1 "live") {
  stream_type = 1;
  real_play_handle = 7;
  is_run = true;
}

abbrev once : List Call
once = real_play_by_data_type 3 1 ∷ make_key_frame 3 1 ∷ []

abbrev twice : List Call
twice = real_play_by_data_type 3 1 ∷ make_key_frame 3 1 ∷ once

first_made :
    make agreeable request one_session []
    ≡ record { stage = inserts request playing; sessions = one_session; calls = once }
unfolding make make_session new_session start_real_play_session
first_made = refl

second_made :
    make agreeable request one_session once
    ≡ record { stage = inserts request playing; sessions = one_session; calls = twice }
unfolding make make_session new_session start_real_play_session
second_made = refl

is_free : Dict.find "live" one_session ≡ none
unfolding Dict.find
is_free = refl

-- A run of both to their returns.
both_returned : Lost agreeable one_session [] request request playing playing twice
both_returned =
    two_starts-Lost agreeable one_session [] once twice request request playing playing refl is_free
      first_made second_made

Reach-IsValid_example : IsValid (both_returned.final).sessions
Reach-IsValid_example =
    Reach-IsValid agreeable one_session [] (request ∷ request ∷ []) (both_returned.final)
      other_IsValid (both_returned.reached)

two_starts-Lost_example : Lost agreeable one_session [] request request playing playing twice
two_starts-Lost_example =
    two_starts-Lost agreeable one_session [] once twice request request playing playing refl is_free
      first_made second_made
