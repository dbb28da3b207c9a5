-- ===== src/Gateway/Media.antt =====
-- src/gateway_msg.cpp: the readers of the requests that name a channel. `none` is a failed assertion of
-- rapidjson, which is asked for a member that is missing or of another type. `atoi` is a parameter.
use rundo_dahua_sdk_edge.Common.{ℕ, ◌%◌, ◌^◌, String, Option, none, some, ◌>>=◌, ◌>>◌}
use rundo_dahua_sdk_edge.Gateway.{
  Json, object, document, find_member, text_at, object_at, int_at, bool_at,
}
use rundo_dahua_sdk_edge.Gateway.Channels.{channel_of}
use rundo_dahua_sdk_edge.Ptz.{PtzCmd}
use rundo_dahua_sdk_edge.Streams.{Play, Record}

-- `Preset`: a request for presets, or one of the presets that a device has.
pub record Preset : Type 0 where
  pub msg_type : String
  pub msg_id : String
  pub device_id : String
  pub channel : ℕ
  pub index : ℕ
  pub name : String

-- The address in `ssrcInfo`, if that is an object.
unfoldable pub play_ssrc : Json → Play → Option Play
play_ssrc (object s) p = do
  text_at "ip" s
  port ← int_at "port" s
  text_at "ssrc" s
  sdp_ip ← text_at "sdpIp" s
  stream_id ← text_at "streamId" s
  text_at "mediaServerId" s
  some (record p { port = port; sdp_ip = sdp_ip; stream_id = stream_id })
play_ssrc _ p = some p

-- The members of `data`, if that is an object.
unfoldable pub play_data : (String → ℕ) → Json → Play → Option Play
unfolding play_ssrc
play_data atoi (object d) p = do
  mode ← int_at "streamMode" d
  device_id ← text_at "deviceId" d
  id ← text_at "channelId" d
  text_at "dispatchUrl" d
  stream_id ← text_at "streamId" d
  ssrc ← find_member "ssrcInfo" d
  play_ssrc ssrc (record p {
    stream_mode = mode;
    device_id = device_id;
    channel = channel_of atoi id p.channel;
    stream_id = stream_id;
  })
play_data atoi _ p = some p

-- `pars_channel_play`, over what the members held.
unfoldable pub pars_channel_play :
    (String → Option Json) → (String → ℕ) → String → Play → Option Play
unfolding play_data
pars_channel_play parse atoi json p = elim (parse json) [
  | none ↦ some p
  | some (object ms) ↦ (do
    msg_type ← text_at "msgType" ms
    msg_id ← text_at "msgId" ms
    data' ← find_member "data" ms
    play_data atoi data' (record p { msg_type = msg_type; msg_id = msg_id }))
  | some _ ↦ none
]

-- `pars_channel_playback`
unfoldable pub pars_channel_playback :
    (String → Option Json) → (String → ℕ) → String → Record → Option Record
pars_channel_playback parse atoi json r = elim (parse json) [
  | none ↦ some r
  | some (object ms) ↦ (do
    msg_type ← text_at "msgType" ms
    msg_id ← text_at "msgId" ms
    d ← object_at "data" ms
    device_id ← text_at "deviceId" d
    id ← text_at "channelId" d
    start ← text_at "startTime" d
    end ← text_at "endTime" d
    mode ← int_at "streamMode" d
    text_at "dispatchUrl" d
    stream_id ← text_at "streamId" d
    s ← object_at "ssrcInfo" d
    text_at "ip" s
    port ← int_at "port" s
    text_at "ssrc" s
    sdp_ip ← text_at "sdpIp" s
    text_at "streamId" s
    text_at "mediaServerId" s
    some (record r {
      msg_type = msg_type;
      msg_id = msg_id;
      device_id = device_id;
      channel = channel_of atoi id r.channel;
      start_time = start;
      end_time = end;
      stream_mode = mode;
      stream_id = stream_id;
      port = port;
      sdp_ip = sdp_ip;
    }))
  | some _ ↦ none
]

-- `pars_channel_record_info`. A text that does not parse leaves the document null, which is no object.
unfoldable pub pars_channel_record_info :
    (String → Option Json) → (String → ℕ) → String → Record → Option Record
pars_channel_record_info parse atoi json r = elim (document parse json) [
  | object ms ↦ (do
    int_at "code" ms
    d ← object_at "data" ms
    id ← text_at "channelId" d
    device_id ← text_at "deviceId" d
    m ← object_at "dataMap" d
    start ← text_at "startTime" m
    end ← text_at "endTime" m
    bool_at "error" ms
    msg_id ← text_at "msgId" ms
    msg_type ← text_at "msgType" ms
    text_at "serialNum" ms
    text_at "time" ms
    some (record r {
      msg_type = msg_type;
      msg_id = msg_id;
      device_id = device_id;
      channel = channel_of atoi id r.channel;
      start_time = start;
      end_time = end;
    }))
  | _ ↦ some r
]

-- `pars_ptz_control`: with the command, the message's id and type and the device. `contrl_param` is an
-- `unsigned char`.
pub record PtzRequest : Type 0 where
  pub msg_type : String
  pub msg_id : String
  pub device_id : String
  pub ptz : PtzCmd

unfoldable pub pars_ptz_control :
    (String → Option Json) → (String → ℕ) → String → PtzRequest → Option PtzRequest
pars_ptz_control parse atoi json r = elim (parse json) [
  | none ↦ some r
  | some (object ms) ↦ (do
    int_at "code" ms
    d ← object_at "data" ms
    id ← text_at "channelId" d
    m ← object_at "dataMap" d
    cmd ← int_at "cmdCode" m
    value ← int_at "cmdValue" m
    device_id ← text_at "deviceId" d
    msg_id ← text_at "msgId" ms
    msg_type ← text_at "msgType" ms
    some (record {
      msg_type = msg_type;
      msg_id = msg_id;
      device_id = device_id;
      ptz = record (r.ptz) {
        channel = channel_of atoi id r.ptz.channel;
        contrl_cmd = cmd;
        contrl_param = value % 2 ^ 8;
      };
    }))
  | some _ ↦ none
]

-- `pars_ptz_preset`
unfoldable pub pars_ptz_preset :
    (String → Option Json) → (String → ℕ) → String → Preset → Option Preset
pars_ptz_preset parse atoi json p = elim (parse json) [
  | none ↦ some p
  | some (object ms) ↦ (do
    msg_id ← text_at "msgId" ms
    msg_type ← text_at "msgType" ms
    d ← object_at "data" ms
    device_id ← text_at "deviceId" d
    id ← text_at "channelId" d
    some (record p {
      msg_type = msg_type;
      msg_id = msg_id;
      device_id = device_id;
      channel = channel_of atoi id p.channel;
    }))
  | some _ ↦ none
]
