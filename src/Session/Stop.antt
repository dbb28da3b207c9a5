-- ===== src/Session/Stop.antt =====
-- `PlaySession::stopSession`: what a stop leaves behind, and the calls that it makes.
use rundo_dahua_sdk_edge.Common.{ℕ, ◌≡◌, false, List, ◌∷◌, ◌&&◌, arith, ◌==◌, if◌then◌else◌}
use rundo_dahua_sdk_edge.Sdk.{
  Sdk, Call, stop_play_back, stop_real_play, stop_download, ms_disconnect, dhsdk_get_last_error,
}
use rundo_dahua_sdk_edge.Session.{PlaySession, Ran, disconnet_ms}

-- The three parts of `stopSession`, each under its handle's test.
stop_record : Sdk → Ran → Ran
stop_record sdk r =
    let c = stop_play_back r.session.record_play_handle in
    if r.session.record_play_handle == 0 then r else record {
      ret = if sdk.accepts r.calls c then r.ret else dhsdk_get_last_error sdk (c ∷ r.calls);
      session = record (r.session) { record_play_handle = 0 };
      calls = c ∷ r.calls;
    }

stop_real : Sdk → Ran → Ran
stop_real sdk r =
    let c = stop_real_play r.session.real_play_handle in
    if r.session.real_play_handle == 0 then r else record {
      ret = if sdk.accepts r.calls c then r.ret else dhsdk_get_last_error sdk (c ∷ r.calls);
      session = record (r.session) { real_play_handle = 0 };
      calls = c ∷ r.calls;
    }

stop_down : Sdk → Ran → Ran
stop_down sdk r =
    let c = stop_download r.session.download_handle in
    if r.session.download_handle == 0 then r else record {
      ret = if sdk.accepts r.calls c then r.ret else dhsdk_get_last_error sdk (c ∷ r.calls);
      session = record (r.session) { download_handle = 0 };
      calls = c ∷ r.calls;
    }

-- The last step of `stopSession`: close the media connection and return.
hang_up : Sdk → Ran → Ran
unfolding disconnet_ms
hang_up sdk r =
    let (s, t) = disconnet_ms sdk r.session r.calls in
    record { ret = r.ret; session = s; calls = t }

unfoldable pub stop_session : Sdk → PlaySession → List Call → Ran
unfolding stop_record stop_real stop_down hang_up
stop_session sdk s t =
    let idle = record s { is_run = false } in
    let r : Ran = record { ret = 0; session = idle; calls = t } in
    if (s.record_play_handle == 0) && ((s.download_handle == 0) && (s.real_play_handle == 0))
    then r
    else hang_up sdk (stop_down sdk (stop_real sdk (stop_record sdk r)))

-- A call for a handle that is open.
abbrev pub unless_zero : ℕ → (ℕ → Call) → List Call → List Call
unless_zero h c t = if h == 0 then t else c h ∷ t

-- The calls that close a session with an open handle, newest first: playback, live view, download,
-- and then the media connection.
pub closing : PlaySession → List Call → List Call
closing s t = unless_zero s.media_client ms_disconnect (
    unless_zero s.download_handle stop_download (
      unless_zero s.real_play_handle stop_real_play
        (unless_zero s.record_play_handle stop_play_back t)))

-- A session with no open handle.
abbrev pub IsIdle : PlaySession → Type 0
IsIdle s = (s.record_play_handle ≡ 0) × (s.real_play_handle ≡ 0) × (s.download_handle ≡ 0)

-- Whatever the library answers, a stopped session has no open handle and does not run.
pub stop_session-IsIdle :
    (sdk : Sdk) (s : PlaySession) (t : List Call)
    → IsIdle (stop_session sdk s t).session × ((stop_session sdk s t).session.is_run ≡ false)
unfolding stop_session
stop_session-IsIdle sdk s t = ground arith

-- A stop makes no call for a session without an open handle. Otherwise it calls the stop function of
-- each open handle once, in the order playback, live view, download, and then closes the media
-- connection if there is one.
pub stop_session-calls :
    (sdk : Sdk) (s : PlaySession) (t : List Call)
    → (stop_session sdk s t).calls ≡ (
        if (s.record_play_handle == 0) && (s.real_play_handle == 0) && (s.download_handle == 0)
        then t
        else closing s t)
unfolding stop_session closing
stop_session-calls sdk s t = ground arith

stop_session_of_IsIdle :
    (sdk : Sdk) (s : PlaySession) (t : List Call)
    → IsIdle s
    → s.is_run ≡ false
    → stop_session sdk s t ≡ record { ret = 0; session = s; calls = t }
unfolding stop_session
stop_session_of_IsIdle sdk s t i r = ground arith

-- A second stop changes nothing, makes no call and returns 0.
pub stop_session_idem :
    (sdk : Sdk) (s : PlaySession) (t : List Call)
    → let r = stop_session sdk s t in
      stop_session sdk r.session r.calls ≡ record { ret = 0; session = r.session; calls = r.calls }
stop_session_idem sdk s t =
    let r = stop_session sdk s t in
    let done = stop_session-IsIdle sdk s t in
    stop_session_of_IsIdle sdk r.session r.calls done.0 done.1
