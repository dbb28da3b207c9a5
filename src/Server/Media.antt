-- ===== src/Server/Media.antt =====
-- src/server_manage.cpp: the handlers of the requests for cameras, recordings and streams. `none` is a
-- failed assertion of rapidjson.
use rundo_dahua_sdk_edge.Common.{String, Option, some, ◌>>=◌}
use rundo_dahua_sdk_edge.Session.{main_stream}
use rundo_dahua_sdk_edge.Streams
use rundo_dahua_sdk_edge.Streams.{Outcome, start_real_stream, start_play_back, stop_play}
use rundo_dahua_sdk_edge.Ptz.{ptz_control}
use rundo_dahua_sdk_edge.Records.{query_records}
use rundo_dahua_sdk_edge.Cameras.{query_ptz_preset}
use rundo_dahua_sdk_edge.Gateway.Requests.{
  pars_channel_stop_play, pars_stream_id, pars_record_speed,
}
use rundo_dahua_sdk_edge.Gateway.Media.{
  pars_ptz_control, pars_ptz_preset, pars_channel_play, pars_channel_record_info,
  pars_channel_playback,
}
use rundo_dahua_sdk_edge.Gateway.Replies.{response, ptz_preset_list, response_record_list}
use rundo_dahua_sdk_edge.Server.{Server, Around, send, with_login}

unfoldable pub channel_ptz_control : Around → String → Server → Option Server
channel_ptz_control a msg s = do
  r ← pars_ptz_control a.parse a.atoi msg a.fresh_ptz
  some (
      with_login a r.device_id
        (λ login s₁.
          let o = ptz_control a.sdk a.code login.handle r.ptz s₁.temp_ptz_cmd s₁.calls in
          send (response a.texts r.msg_id o.ret r.msg_type)
            (record s₁ { temp_ptz_cmd = o.temp_ptz_cmd; calls = o.calls }))
        s)

unfoldable pub channel_ptz_preset : Around → String → Server → Option Server
channel_ptz_preset a msg s = do
  p ← pars_ptz_preset a.parse a.atoi msg a.fresh_preset
  some (
      with_login a p.device_id
        (λ login s₁.
          let o = query_ptz_preset a.sdk a.cameras a.fresh_preset login p.channel s₁.calls in
          send (ptz_preset_list a.texts p o.list o.ret) (record s₁ { calls = o.calls }))
        s)

unfoldable pub channel_record_info : Around → String → Server → Option Server
channel_record_info a msg s = do
  r ← pars_channel_record_info a.parse a.atoi msg a.fresh_record
  some (
      with_login a r.device_id
        (λ login s₁.
          let o =
            query_records a.sdk a.times a.network_error a.recorded a.fresh_found login.handle
              r.channel r.start_time r.end_time s₁.calls in
          send (response_record_list a.texts r.msg_id o.ret r.msg_type o.files)
            (record s₁ { calls = o.calls }))
        s)

-- What a stream operation leaves of the server.
unfoldable pub put : Outcome → Server → Server
put o s = record s { sessions = o.sessions; calls = o.calls }

unfoldable pub channel_play : Around → String → Server → Option Server
channel_play a msg s = do
  p ← pars_channel_play a.parse a.atoi msg a.fresh_play
  some (
      with_login a p.device_id
        (λ login s₁.
          put (start_real_stream a.sdk a.junk login p main_stream s₁.sessions s₁.calls) s₁)
        s)

unfoldable pub channel_playback : Around → String → Server → Option Server
channel_playback a msg s = do
  r ← pars_channel_playback a.parse a.atoi msg a.fresh_record
  some (
      with_login a r.device_id
        (λ login s₁. put (start_play_back a.sdk a.read_time a.junk login r s₁.sessions s₁.calls) s₁)
        s)

unfoldable pub channel_stop_play : Around → String → Server → Server
channel_stop_play a msg s =
    put (stop_play a.sdk (pars_channel_stop_play a.parse msg) s.sessions s.calls) s

unfoldable pub device_record_pause : Around → String → Server → Option Server
device_record_pause a msg s = do
  k ← pars_stream_id a.parse msg
  some (put (Streams.device_record_pause a.sdk k s.sessions s.calls) s)

unfoldable pub device_record_resume : Around → String → Server → Option Server
device_record_resume a msg s = do
  k ← pars_stream_id a.parse msg
  some (put (Streams.device_record_resume a.sdk k s.sessions s.calls) s)

unfoldable pub device_record_speed : Around → String → Server → Option Server
device_record_speed a msg s = do
  (x, k) ← pars_record_speed a.parse a.to_float a.fresh_speed msg
  some (put (Streams.device_record_speed a.sdk a.float k x s.sessions s.calls) s)
