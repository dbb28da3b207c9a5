-- ===== src/Streams/Start.antt =====
-- `sdk_wrap::start_real_stream` and `start_play_back`: what is stored, and what a refusal leaves.
use rundo_dahua_sdk_edge.Common.{
  ℕ, ◌≡◌, ◌≢◌, Bool, true, false, List, String, Option, none, some, arith, ◌==◌, ◌∷◌, str_eq,
  eq_refl,
}
use rundo_dahua_sdk_edge.Common.Dict
use rundo_dahua_sdk_edge.Common.Dict.{Dict, find-insert}
use rundo_dahua_sdk_edge.Sdk.{
  Sdk, Call, NetTime, make_key_frame, real_play_by_data_type, dhsdk_get_last_error, ms_disconnect,
}
use rundo_dahua_sdk_edge.Session.{
  PlaySession, Junk, Ran, StreamType, main_stream, start_real_play_session,
  start_record_play_session, destroy, disconnet_ms, new_session, set_ms_addr, connet_ms,
  creat_packet, add_stream,
}
use rundo_dahua_sdk_edge.Session.Stop.{unless_zero}
use rundo_dahua_sdk_edge.Sessions.{get_play_session, insert_play_session}
use rundo_dahua_sdk_edge.Streams.{
  LoginResults, Play, Record, make_session, keep_session, start_real_stream, start_play_back,
}

abbrev pub is_some {ℓ} : {A : Type ℓ} → Option A → Bool
is_some none = false
is_some (some _) = true

keep_session-stores :
    (sdk : Sdk) (k : String) (r : Ran) (m : Dict PlaySession)
    → Dict.find k m ≡ none
    → is_some (Dict.find k (keep_session sdk k r m).sessions) ≡ ((keep_session sdk k r m).ret == 0)
unfolding keep_session insert_play_session
keep_session-stores sdk k r m e = ground (arith, find-insert k k r.session m, eq_refl k)

keep_session-ret :
    (sdk : Sdk) (k : String) (r : Ran) (m : Dict PlaySession) → (keep_session sdk k r m).ret ≡ r.ret
unfolding keep_session insert_play_session
keep_session-ret sdk k r m = ground arith

keep_session-others :
    (sdk : Sdk) (k j : String) (r : Ran) (m : Dict PlaySession)
    → str_eq k j ≡ false
    → Dict.find j (keep_session sdk k r m).sessions ≡ Dict.find j m
unfolding keep_session insert_play_session
keep_session-others sdk k j r m e = ground (arith, find-insert k j r.session m)

-- A live stream whose id is free is stored exactly when its start returns 0.
pub start_real_stream-stores :
    (sdk : Sdk) (junk : Junk) (login : LoginResults) (p : Play) (kind : StreamType)
    (m : Dict PlaySession) (t : List Call)
    → Dict.find p.stream_id m ≡ none
    → let o = start_real_stream sdk junk login p kind m t in
      is_some (Dict.find p.stream_id o.sessions) ≡ (o.ret == 0)
unfolding start_real_stream get_play_session
start_real_stream-stores sdk junk login p kind m t e =
    let (s, t₁) = make_session sdk junk login.handle p.channel p.stream_id p.sdp_ip p.port 1 t in
    ground (arith, keep_session-stores sdk p.stream_id (start_real_play_session sdk kind s t₁) m)

-- A playback whose id is free is stored exactly when its start returns 0.
pub start_play_back-stores :
    (sdk : Sdk) (read_time : String → NetTime → NetTime) (junk : Junk) (login : LoginResults)
    (q : Record) (m : Dict PlaySession) (t : List Call)
    → Dict.find q.stream_id m ≡ none
    → let o = start_play_back sdk read_time junk login q m t in
      is_some (Dict.find q.stream_id o.sessions) ≡ (o.ret == 0)
unfolding start_play_back get_play_session
start_play_back-stores sdk read_time junk login q m t e =
    let (s, t₁) = make_session sdk junk login.handle q.channel q.stream_id q.sdp_ip q.port 2 t in
    let start = read_time q.start_time junk.start_time in
    let stop = read_time q.end_time junk.stop_time in
    ground (
      arith,
      keep_session-stores sdk q.stream_id
          (start_record_play_session sdk start stop main_stream s t₁) m,
    )

-- A start of a live stream does not touch the session of another id.
pub start_real_stream-others :
    (sdk : Sdk) (junk : Junk) (login : LoginResults) (p : Play) (kind : StreamType)
    (m : Dict PlaySession) (t : List Call) (j : String)
    → str_eq p.stream_id j ≡ false
    → Dict.find j (start_real_stream sdk junk login p kind m t).sessions ≡ Dict.find j m
unfolding start_real_stream get_play_session
start_real_stream-others sdk junk login p kind m t j e =
    let (s, t₁) = make_session sdk junk login.handle p.channel p.stream_id p.sdp_ip p.port 1 t in
    ground (arith, keep_session-others sdk p.stream_id j (start_real_play_session sdk kind s t₁) m)

keep_session_refused :
    (sdk : Sdk) (k : String) (r : Ran) (m : Dict PlaySession)
    → r.ret ≢ 0
    → keep_session sdk k r m ≡ record {
      ret = r.ret;
      sessions = m;
      calls = unless_zero r.session.media_client ms_disconnect r.calls;
    }
unfolding keep_session destroy disconnet_ms
keep_session_refused sdk k r m e = ground arith

pub make_session-fresh :
    (sdk : Sdk) (junk : Junk) (handle channel : ℕ) (stream_id sdp_ip : String) (port kind : ℕ)
    (t : List Call)
    → let s = (make_session sdk junk handle channel stream_id sdp_ip port kind t).0 in
      (s.real_play_handle ≡ 0)
      × (s.record_play_handle ≡ 0)
      × (s.stream_id ≡ stream_id)
      × (s.login_id ≡ handle)
      × (s.channel ≡ channel)
unfolding make_session new_session set_ms_addr connet_ms creat_packet add_stream
make_session-fresh sdk junk handle channel stream_id sdp_ip port kind t = ground arith

-- When the SDK lets the key frame of a free stream id through, but opens no live view and names an
-- error, the start returns that error, leaves the session map as it was, and closes the media
-- connection that was opened for it, if there is one, by its last call.
pub start_real_stream_refused :
    (sdk : Sdk) (junk : Junk) (login : LoginResults) (p : Play) (kind : StreamType)
    (m : Dict PlaySession) (t : List Call)
    → let made = make_session sdk junk login.handle p.channel p.stream_id p.sdp_ip p.port 1 t in
      let key = make_key_frame login.handle p.channel in
      let asked = real_play_by_data_type login.handle p.channel ∷ key ∷ made.1 in
      Dict.find p.stream_id m ≡ none
      → sdk.accepts made.1 key ≡ true
      → sdk.opens (key ∷ made.1) (real_play_by_data_type login.handle p.channel) ≡ 0
      → dhsdk_get_last_error sdk asked ≢ 0
      → start_real_stream sdk junk login p kind m t ≡ record {
        ret = dhsdk_get_last_error sdk asked;
        sessions = m;
        calls = unless_zero made.0.media_client ms_disconnect asked;
      }
unfolding start_real_stream get_play_session start_real_play_session
start_real_stream_refused sdk junk login p kind m t free key none_opened error =
    let made = make_session sdk junk login.handle p.channel p.stream_id p.sdp_ip p.port 1 t in
    let fresh =
      make_session-fresh sdk junk login.handle p.channel p.stream_id p.sdp_ip p.port 1 t in
    let r = start_real_play_session sdk kind made.0 made.1 in
    ground (arith, fresh, keep_session_refused sdk p.stream_id r m)

keep_session_stored :
    (sdk : Sdk) (k : String) (r : Ran) (m : Dict PlaySession)
    → Dict.find k m ≡ none
    → r.ret ≡ 0
    → Dict.find k (keep_session sdk k r m).sessions ≡ some r.session
unfolding keep_session insert_play_session
keep_session_stored sdk k r m e z = ground (arith, find-insert k k r.session m, eq_refl k)

start_real_unforced :
    (sdk : Sdk) (kind : StreamType) (s : PlaySession) (t : List Call)
    → sdk.accepts t (make_key_frame s.login_id s.channel) ≡ false
    → ((start_real_play_session sdk kind s t).ret ≡ 0)
      × ((start_real_play_session sdk kind s t).session ≡ s)
unfolding start_real_play_session
start_real_unforced sdk kind s t e = ground arith

-- When the SDK refuses to force a key frame for a free stream id, the start returns 0 and stores a
-- session that has no play handle: nothing plays, and the id is taken.
pub start_real_stream_unforced :
    (sdk : Sdk) (junk : Junk) (login : LoginResults) (p : Play) (kind : StreamType)
    (m : Dict PlaySession) (t : List Call)
    → Dict.find p.stream_id m ≡ none
    → sdk.accepts
        (make_session sdk junk login.handle p.channel p.stream_id p.sdp_ip p.port 1 t).1
        (make_key_frame login.handle p.channel)
      ≡ false
    → let o = start_real_stream sdk junk login p kind m t in
      (o.ret ≡ 0)
      × (s : PlaySession) × (Dict.find p.stream_id o.sessions ≡ some s)
      × (s.real_play_handle ≡ 0)
      × (s.record_play_handle ≡ 0)
unfolding start_real_stream get_play_session
start_real_stream_unforced sdk junk login p kind m t e no_key =
    let made = make_session sdk junk login.handle p.channel p.stream_id p.sdp_ip p.port 1 t in
    let fresh =
      make_session-fresh sdk junk login.handle p.channel p.stream_id p.sdp_ip p.port 1 t in
    let key : sdk.accepts made.1 (make_key_frame made.0.login_id made.0.channel) ≡ false =
      ground (arith, fresh) in
    let r = start_real_play_session sdk kind made.0 made.1 in
    let dead = start_real_unforced sdk kind made.0 made.1 key in
    (
      ground (arith, keep_session-ret sdk p.stream_id r m),
      made.0,
      ground (arith, keep_session_stored sdk p.stream_id r m),
      fresh.0,
      fresh.1,
    )
