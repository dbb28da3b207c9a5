-- ===== src/Server/Invariant/Handlers.antt =====
-- What each handler keeps.
use rundo_dahua_sdk_edge.Common.{
  Each, bind-Each, ℕ, zero, suc, ◌+◌, ◌^◌, ◌<◌, true, false, List, String, arith, Option-cases, inl,
  inr, Bool-cases, str_eq,
}
use rundo_dahua_sdk_edge.Sdk.{Call}
use rundo_dahua_sdk_edge.Session.Playback.{pause_play_back_session, set_speed}
use rundo_dahua_sdk_edge.Streams
use rundo_dahua_sdk_edge.Streams.Invariant.{
  start_real_stream-IsValid, start_play_back-IsValid, stop_play-IsValid, on_session-IsValid,
  pause-stream_id, speed-stream_id,
}
use rundo_dahua_sdk_edge.Streams.Invariant as Sessions
use rundo_dahua_sdk_edge.Streams.{LoginResults, Outcome}
use rundo_dahua_sdk_edge.Platforms.{Platform}
use rundo_dahua_sdk_edge.Platforms.Synced.{add_platform-IsSynced, del_platform-IsSynced}
use rundo_dahua_sdk_edge.Cameras.{get_camera_list}
use rundo_dahua_sdk_edge.Gateway.Media.{
  pars_ptz_control, pars_ptz_preset, pars_channel_play, pars_channel_record_info,
  pars_channel_playback,
}
use rundo_dahua_sdk_edge.Gateway.Requests.{
  pars_stream_id, pars_record_speed, pars_channel_stop_play, pars_device_add,
}
use rundo_dahua_sdk_edge.Server.{Server, Around, send, connect}
use rundo_dahua_sdk_edge.Server.Devices.{
  named, channel_sync, admit, device_add, confirm, device_delete_soft,
}
use rundo_dahua_sdk_edge.Server.Media.{
  channel_ptz_control, channel_ptz_preset, channel_record_info, channel_play, channel_playback, put,
  channel_stop_play, device_record_pause, device_record_resume, device_record_speed,
}
use rundo_dahua_sdk_edge.Server.Invariant.{Within, connect-Within, with_login-Within}

-- The handlers that reply change neither the sessions nor the devices.
pub send-Within : (u : ℕ) (text : String) (s : Server) → Within u s → Within u (send text s)
unfolding send
send-Within u text s v =
    (record { sessions = v.0.sessions; synced = v.0.synced; logins = v.0.logins }, v.1)

called-Within :
    (u : ℕ) (t : List Call) (s : Server) → Within u s → Within u (record s { calls = t })
called-Within u t s v =
    (record { sessions = v.0.sessions; synced = v.0.synced; logins = v.0.logins }, v.1)

put-Within :
    (u : ℕ) (o : Outcome) (s : Server)
    → Sessions.IsValid o.sessions
    → Within u s
    → Within u (put o s)
unfolding put
put-Within u o s w v = (record { sessions = w; synced = v.0.synced; logins = v.0.logins }, v.1)

pub later : (u : ℕ) (s : Server) → Within u s → Within (u + 1) s
later u s v = (v.0, omega arith)

admit-Within :
    (a : Around) (p : Platform) (u : ℕ) (s : Server) → Within u s → Within u (admit a p s)
unfolding admit send
admit-Within a p u s v = (
  record {
    sessions = v.0.sessions;
    synced = add_platform-IsSynced a.can_open a.codec p s.store v.0.synced;
    logins = v.0.logins;
  },
  v.1,
)

module _ (a : Around) (msg : String) (u : ℕ) (room : u + 1 < 2 ^ 64) where
  pub channel_sync-Within : (s : Server) → Within u s → Within (u + 1) (channel_sync a msg s)
  unfolding channel_sync
  channel_sync-Within s v =
      with_login-Within a (named a msg).device_id _ u s room
        (λ login r w. elim (Option-cases (get_camera_list a.sdk a.cameras login r.calls)) [
          | inl e ↦ rw e w
          | inr (c, e) ↦ rw e (send-Within (u + 1) _ _ (called-Within (u + 1) c.calls r w))
        ])
        v

  pub device_add-Within : (s : Server) → Within u s → Within (u + 1) (device_add a msg s)
  unfolding device_add
  device_add-Within s v =
      let p = pars_device_add a.parse a.atoi msg a.fresh in
      let w = connect-Within a p u s room v in
      elim (Bool-cases (str_eq p.ip "")) [
        | inl b ↦ rw (b, device_add) (later u s v)
        | inr b ↦ elim (Option-cases (connect a p s).0) [
          | inl e ↦ rw (b, e, device_add) w
          | inr ((zero, l), e) ↦ rw (b, e, device_add) (admit-Within a _ (u + 1) _ w)
          | inr ((suc n, l), e) ↦ rw (b, e, device_add) (send-Within (u + 1) _ _ w)
        ]
      ]

  pub device_delete_soft-Within : (s : Server) → Within u s → Within u (device_delete_soft a msg s)
  unfolding device_delete_soft confirm
  device_delete_soft-Within s v = send-Within u _ _ (
    record {
      sessions = v.0.sessions;
      synced = λ j.
          (del_platform-IsSynced a.can_open a.codec (named a msg).device_id j s.store v.0.synced).0;
      logins = v.0.logins;
    },
    v.1,
  )

  pub channel_ptz_control-Within :
      (s : Server) → Within u s → Each (Within (u + 1)) (channel_ptz_control a msg s)
  unfolding channel_ptz_control send
  channel_ptz_control-Within s v =
      bind-Each (Within (u + 1)) (pars_ptz_control a.parse a.atoi msg a.fresh_ptz) _ (λ r.
        with_login-Within a r.device_id _ u s room
          (λ login q w.
            (record { sessions = w.0.sessions; synced = w.0.synced; logins = w.0.logins }, w.1))
          v)

  pub channel_ptz_preset-Within :
      (s : Server) → Within u s → Each (Within (u + 1)) (channel_ptz_preset a msg s)
  unfolding channel_ptz_preset
  channel_ptz_preset-Within s v =
      bind-Each (Within (u + 1)) (pars_ptz_preset a.parse a.atoi msg a.fresh_preset) _ (λ p.
        with_login-Within a p.device_id _ u s room
          (λ login q w. send-Within (u + 1) _ _ (called-Within (u + 1) _ q w)) v)

  pub channel_record_info-Within :
      (s : Server) → Within u s → Each (Within (u + 1)) (channel_record_info a msg s)
  unfolding channel_record_info
  channel_record_info-Within s v =
      bind-Each (Within (u + 1)) (pars_channel_record_info a.parse a.atoi msg a.fresh_record) _
        (λ r.
          with_login-Within a r.device_id _ u s room
            (λ login q w. send-Within (u + 1) _ _ (called-Within (u + 1) _ q w)) v)

  pub channel_play-Within : (s : Server) → Within u s → Each (Within (u + 1)) (channel_play a msg s)
  unfolding channel_play
  channel_play-Within s v =
      bind-Each (Within (u + 1)) (pars_channel_play a.parse a.atoi msg a.fresh_play) _ (λ p.
        with_login-Within a p.device_id _ u s room
          (λ login q w.
            let kept =
              start_real_stream-IsValid a.sdk a.junk login p q.sessions q.calls w.0.sessions in
            put-Within (u + 1) _ q kept w)
          v)

  pub channel_playback-Within :
      (s : Server) → Within u s → Each (Within (u + 1)) (channel_playback a msg s)
  unfolding channel_playback
  channel_playback-Within s v =
      bind-Each (Within (u + 1)) (pars_channel_playback a.parse a.atoi msg a.fresh_record) _ (λ r.
        with_login-Within a r.device_id _ u s room
          (λ login q w.
            let kept =
              start_play_back-IsValid a.sdk a.read_time a.junk login r q.sessions q.calls
                w.0.sessions in
            put-Within (u + 1) _ q kept w)
          v)

  pub channel_stop_play-Within : (s : Server) → Within u s → Within u (channel_stop_play a msg s)
  unfolding channel_stop_play
  channel_stop_play-Within s v =
      put-Within u _ s
        (stop_play-IsValid a.sdk (pars_channel_stop_play a.parse msg) s.sessions s.calls
          v.0.sessions)
        v

  pub device_record_pause-Within :
      (s : Server) → Within u s → Each (Within (u + 1)) (device_record_pause a msg s)
  unfolding device_record_pause Streams.device_record_pause
  device_record_pause-Within s v = bind-Each (Within (u + 1)) (pars_stream_id a.parse msg) _ (λ k.
      let kept =
        on_session-IsValid (pause_play_back_session a.sdk true) k s.sessions s.calls
          (λ q. pause-stream_id a.sdk true q s.calls) v.0.sessions in
      put-Within (u + 1) _ s kept (later u s v))

  pub device_record_resume-Within :
      (s : Server) → Within u s → Each (Within (u + 1)) (device_record_resume a msg s)
  unfolding device_record_resume Streams.device_record_resume
  device_record_resume-Within s v = bind-Each (Within (u + 1)) (pars_stream_id a.parse msg) _ (λ k.
      let kept =
        on_session-IsValid (pause_play_back_session a.sdk false) k s.sessions s.calls
          (λ q. pause-stream_id a.sdk false q s.calls) v.0.sessions in
      put-Within (u + 1) _ s kept (later u s v))

  pub device_record_speed-Within :
      (s : Server) → Within u s → Each (Within (u + 1)) (device_record_speed a msg s)
  unfolding device_record_speed Streams.device_record_speed
  device_record_speed-Within s v =
      bind-Each (Within (u + 1)) (pars_record_speed a.parse a.to_float a.fresh_speed msg) _
        (λ (x, k).
          let kept =
            on_session-IsValid (set_speed a.sdk a.float x) k s.sessions s.calls
              (λ q. speed-stream_id a.sdk a.float x q s.calls) v.0.sessions in
          put-Within (u + 1) _ s kept (later u s v))
