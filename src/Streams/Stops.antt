-- ===== src/Streams/Stops.antt =====
-- src/sdk_wrap.cpp, `stop_play` of one stream on several threads of the pool, with `stopSession` and
-- `disconnetMS` of src/PlaySession.cpp: the session map is locked for the lookup and for the erasure,
-- and the session not at all. A step is a part of one stop between two accesses to what is shared. The
-- destruction of the session with its last reference is left out.
pub mod Past
pub mod Kept
pub mod Twice
mod Tests
use rundo_dahua_sdk_edge.Common.{
  ℕ, ◌≡◌, Bool, true, false, List, [], ◌∷◌, ◌++◌, ◌==◌, if◌then◌else◌,
}
use rundo_dahua_sdk_edge.Sdk.{
  Sdk, Call, minus_one, stop_play_back, stop_real_play, stop_download, ms_disconnect,
  dhsdk_get_last_error,
}
use rundo_dahua_sdk_edge.Session.{PlaySession}

-- The three handles of a session, in the order in which `stopSession` tests them.
pub data Handle : Type 0 where
  of_record of_real of_download : Handle

unfoldable pub handle : Handle → PlaySession → ℕ
handle of_record s = s.record_play_handle
handle of_real s = s.real_play_handle
handle of_download s = s.download_handle

unfoldable pub reset : Handle → PlaySession → PlaySession
reset of_record s = record s { record_play_handle = 0 }
reset of_real s = record s { real_play_handle = 0 }
reset of_download s = record s { download_handle = 0 }

unfoldable pub stop_call : Handle → ℕ → Call
stop_call of_record = stop_play_back
stop_call of_real = stop_real_play
stop_call of_download = stop_download

-- Where a stop stands: before the lookup, with the session and before `stopSession`, before the first
-- test of a handle, which asks for one that is open, before the test of a handle, between it and the
-- call, between the call and the reset, before the test of the media connection, between it and the
-- close, between the close and its reset, before the erasure, or returned. It carries its `ret`.
pub data Stage : Type 0 where
  asks found : Stage
  seeks : Handle → Stage
  tests stops resets : Handle → ℕ → Stage
  hangs closes clears erases returned : ℕ → Stage

-- What the stops share: whether the session stands in the map, the session, and the calls made.
pub record Shared : Type 0 where
  pub in_map : Bool
  pub session : PlaySession
  pub calls : List Call

-- What one part leaves.
pub record Part : Type 0 where
  pub stage : Stage
  pub shared : Shared

-- What follows a handle.
unfoldable pub after : Handle → ℕ → Stage
after of_record ret = tests of_real ret
after of_real ret = tests of_download ret
after of_download ret = hangs ret

-- What follows when the handles up to this one were found closed: `stopSession` asks for one that is
-- open in the order of `0 == m_lRecordPlayHandle && 0 == m_lDowloadPlayHandle && 0 == m_lRealPlayHandle`.
unfoldable pub onward : Handle → Stage
onward of_record = seeks of_download
onward of_download = seeks of_real
onward of_real = erases 0

unfoldable pub seek : Handle → Shared → Part
unfolding handle onward
seek h w = record {
  stage = if handle h w.session == 0 then onward h else tests of_record 0;
  shared = w;
}

-- The test of a handle.
unfoldable pub test : Handle → ℕ → Shared → Part
unfolding handle after
test h ret w = record {
  stage = if handle h w.session == 0 then after h ret else stops h ret;
  shared = w;
}

-- The call that stops it, which reads the handle again.
unfoldable pub stop : Sdk → Handle → ℕ → Shared → Part
unfolding handle stop_call
stop sdk h ret w =
    let c = stop_call h (handle h w.session) in
    record {
      stage =
          resets h (if sdk.accepts w.calls c then ret else dhsdk_get_last_error sdk (c ∷ w.calls));
      shared = record w { calls = c ∷ w.calls };
    }

-- `disconnetMS`: its test, and its call, which reads the handle of the connection again.
unfoldable pub hang_up : ℕ → Shared → Part
hang_up ret w = record {
  stage = if w.session.media_client == 0 then erases ret else closes ret;
  shared = w;
}

unfoldable pub close : Sdk → ℕ → Shared → Part
close sdk ret w =
    let c = ms_disconnect w.session.media_client in
    record {
      stage = if sdk.code w.calls c == 0 then clears ret else erases ret;
      shared = record w { calls = c ∷ w.calls };
    }

unfoldable pub advance : Sdk → Stage → Shared → Part
unfolding seek test stop hang_up close reset after
advance sdk asks w = record { stage = if w.in_map then found else returned minus_one; shared = w }
advance sdk found w = record {
  stage = seeks of_record;
  shared = record w { session = record (w.session) { is_run = false } };
}
advance sdk (seeks h) w = seek h w
advance sdk (tests h ret) w = test h ret w
advance sdk (stops h ret) w = stop sdk h ret w
advance sdk (resets h ret) w = record {
  stage = after h ret;
  shared = record w { session = reset h w.session };
}
advance sdk (hangs ret) w = hang_up ret w
advance sdk (closes ret) w = close sdk ret w
advance sdk (clears ret) w = record {
  stage = erases ret;
  shared = record w { session = record (w.session) { media_client = 0 } };
}
advance sdk (erases ret) w = record { stage = returned ret; shared = record w { in_map = false } }
advance sdk (returned ret) w = record { stage = returned ret; shared = w }

-- The stops, and what they share.
pub record Stops : Type 0 where
  pub shared : Shared
  pub stages : List Stage

-- One stop goes on by one part, whichever it is.
unfoldable pub step_at : Sdk → List Stage → Stage → List Stage → Stops → Stops
step_at sdk before a behind w =
    let o = advance sdk a w.shared in
    record { shared = o.shared; stages = before ++ o.stage ∷ behind }

-- The states that an interleaving of stops leads to.
pub data Reach (sdk : Sdk) (start : Stops) : Stops → Type 0 where
  begins : {w : Stops} → w ≡ start → Reach sdk start w
  goes :
      {w v : Stops} (before behind : List Stage) (a : Stage)
      → Reach sdk start w
      → w.stages ≡ before ++ a ∷ behind
      → v ≡ step_at sdk before a behind w
      → Reach sdk start v
