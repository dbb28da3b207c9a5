-- ===== src/Sdk.antt =====
-- What the gateway asks of the two libraries that it is linked with: the camera SDK (dhnetsdk.h, the
-- `CLIENT_` functions) and the media socket library (x64_netsdk/XHNetSDK.h). Their code is not part
-- of the repository. A history is the list of the calls made so far, newest first, and each answer is
-- an unknown function of the history and the call, so nothing is assumed of either library.
use rundo_dahua_sdk_edge.Common.{ℕ, ◌%◌, ◌^◌, ◌-◌, Bool, List, String}

-- `NET_TIME`: six DWORD fields.
pub record NetTime : Type 0 where
  pub year : ℕ
  pub month : ℕ
  pub day : ℕ
  pub hour : ℕ
  pub minute : ℕ
  pub second : ℕ

-- The device modes that playback and download set: `DH_RECORD_STREAM_TYPE` with a stream number, and
-- `DH_RECORD_TYPE` with `NET_RECORD_TYPE_ALL`.
pub data DeviceMode : Type 0 where
  record_stream_type : ℕ → DeviceMode
  record_type_all : DeviceMode

-- The codecs of the packer's streams: `PSI_STREAM_H264`, `PSI_STREAM_H265`.
pub data Codec : Type 0 where
  h264 h265 : Codec

-- One constructor for each library function that is called, with the arguments that vary.
pub data Call : Type 0 where
  login : String → ℕ → String → String → Call
  make_key_frame : ℕ → ℕ → Call
  real_play_by_data_type : ℕ → ℕ → Call
  set_device_mode : ℕ → DeviceMode → Call
  play_back_by_data_type : ℕ → ℕ → NetTime → NetTime → Call
  download_by_time : ℕ → ℕ → NetTime → NetTime → Call
  stop_play_back : ℕ → Call
  stop_real_play : ℕ → Call
  stop_download : ℕ → Call
  pause_play_back : ℕ → Bool → Call
  seek_play_back : ℕ → ℕ → Call
  play_back_direction : ℕ → Bool → Call
  fast_play_back : ℕ → Call
  slow_play_back : ℕ → Call
  normal_play_back : ℕ → Call
  get_download_pos : ℕ → Call
  ptz_control_ex : ℕ → ℕ → ℕ → ℕ → Bool → Call
  query_record_file : ℕ → ℕ → NetTime → NetTime → Call
  get_channel_config : ℕ → ℕ → Call
  matrix_get_cameras : ℕ → ℕ → Call
  query_camera_state : ℕ → ℕ → Call
  query_remote_online : ℕ → ℕ → Call
  query_online : ℕ → Call
  query_presets : ℕ → ℕ → Call
  ms_connect : String → ℕ → Call
  ms_disconnect : ℕ → Call
  ms_write : ℕ → List ℕ → Call
  ps_muxer_create : Call
  rtp_packet_start : Call
  rtp_packet_set_option : ℕ → Call
  ps_muxer_add_stream : ℕ → Codec → Call

-- The answers: a `BOOL`, a handle that a call returns or writes, an `int32_t` status as its 32-bit
-- pattern, the DWORD of `CLIENT_GetLastError`, and what a login reports.
pub record Sdk : Type 0 where
  pub accepts : List Call → Call → Bool
  pub opens : List Call → Call → ℕ
  pub code : List Call → Call → ℕ
  pub get_last_error : List Call → ℕ
  pub login_error : List Call → Call → ℕ  -- `nError` of the login's result
  pub login_channels : List Call → Call → ℕ  -- `stuDeviceInfo.nChanNum`

-- A C `int` is its 32-bit pattern, so -1 is this number.
abbrev pub minus_one : ℕ
minus_one = 2 ^ 32 - 1

-- `#define DHSDK_GetLastError (CLIENT_GetLastError() & (0x7fffffff))`
unfoldable pub dhsdk_get_last_error : Sdk → List Call → ℕ
dhsdk_get_last_error sdk calls = sdk.get_last_error calls % 2 ^ 31
