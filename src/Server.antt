-- ===== src/Server.antt =====
-- src/server_manage.cpp and server_manage.h: the state of `server_manage`, and what its handlers share.
pub mod Devices
pub mod Media
pub mod Dispatch
pub mod Start
pub mod Running
pub mod Invariant
pub mod Answers
pub mod Replies
pub mod Admission
pub mod Deletions
pub mod Tests
use rundo_dahua_sdk_edge.Common.{ℕ, Bool, List, String, Option, none, some}
use rundo_dahua_sdk_edge.Common.Dict.{Dict}
use rundo_dahua_sdk_edge.Sdk.{Sdk, Call, NetTime}
use rundo_dahua_sdk_edge.Session.{PlaySession, Junk}
use rundo_dahua_sdk_edge.Session.Playback.{Float}
use rundo_dahua_sdk_edge.Streams.{LoginResults, Play, Record}
use rundo_dahua_sdk_edge.Platforms.{Platform, Store, Codec, get_platform}
use rundo_dahua_sdk_edge.Equipment.{Equipment, log_in, logged_in, refused, out_of_range}
use rundo_dahua_sdk_edge.Ptz.{Command}
use rundo_dahua_sdk_edge.Records.{Times, FileInfo, Found}
use rundo_dahua_sdk_edge.Cameras.{Cameras}
use rundo_dahua_sdk_edge.Gateway.{Json}
use rundo_dahua_sdk_edge.Gateway.Media.{Preset, PtzRequest}
use rundo_dahua_sdk_edge.Gateway.Replies.{Texts}
use rundo_dahua_sdk_edge.Client.{Client}
use rundo_dahua_sdk_edge.Client.Send.{send_business_queue_ex}

-- What the handlers share: the logins, the devices, the sessions, the client, the last PTZ command,
-- the counter of `gm` (a `long long`, taken to stay below 2^63), and the calls of the SDK.
pub record Server : Type 0 where
  pub equipment : Equipment
  pub store : Store
  pub sessions : Dict PlaySession
  pub client : Client
  pub temp_ptz_cmd : ℕ
  pub msg_id : ℕ
  pub calls : List Call

-- The third-party code that the handlers reach, and what a request meets: the texts that it makes, the
-- state of the file system, the random new device, and the local variables that nothing sets.
pub record Around : Type 0 where
  pub parse : String → Option Json
  pub atoi : String → ℕ
  pub texts : Texts
  pub later : Texts  -- a second later
  pub stale : String  -- what is left of the freed text of a time
  pub codec : Codec
  pub can_open : Bool
  pub sdk : Sdk
  pub cameras : Cameras
  pub code : Command → ℕ
  pub times : Times
  pub network_error : ℕ
  pub recorded : List Call → List FileInfo
  pub read_time : String → NetTime → NetTime
  pub float : Float
  pub to_float : ℕ → Option ℕ
  pub fresh : Platform
  pub fresh_play : Play
  pub fresh_record : Record
  pub fresh_ptz : PtzRequest
  pub fresh_preset : Preset
  pub fresh_found : Found
  pub fresh_speed : ℕ
  pub held : LoginResults
  pub junk : Junk

-- A text is queued for the business exchange.
unfoldable pub send : String → Server → Server
send text s = record s { client = send_business_queue_ex text s.client }

-- `connet_equipment`: its `int` with the results, and the server. `none` is the exception of
-- `LoginErrMsg.at`, which the thread pool catches: the request ends there.
unfoldable pub connect : Around → Platform → Server → Option (ℕ × LoginResults) × Server
connect a p s =
    elim (log_in a.sdk a.texts.to_string p.ip p.port p.username p.password s.equipment a.held
      s.calls) [
        | logged_in e l t ↦ (some (0, l), record s { equipment = e; calls = t })
        | refused e l t ↦ (some (1, l), record s { equipment = e; calls = t })
        | out_of_range e t ↦ (none, record s { equipment = e; calls = t })
      ]

-- The handlers of a device's requests begin alike: a known device is logged in to, whatever comes of
-- it, and for an unknown one the results are what the variable held.
unfoldable pub with_login : Around → String → (LoginResults → Server → Server) → Server → Server
with_login a id rest s = elim (get_platform id s.store) [
  | none ↦ rest a.held s
  | some p ↦ let (o, s₁) = connect a p s in elim o [ none ↦ s₁ | some (ret, login) ↦ rest login s₁ ]
]
