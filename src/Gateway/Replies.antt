-- ===== src/Gateway/Replies.antt =====
-- src/gateway_msg.cpp: the texts that the gateway sends. rapidjson's writer, the clock's texts, the
-- conversion from GBK, the resolved address and the configuration are parameters.
pub mod Reading
use rundo_dahua_sdk_edge.Common.{
  ℕ, suc, ◌+◌, ◌*◌, Bool, true, false, List, [], ◌∷◌, String, ◌==◌, str_eq, length, if◌then◌else◌,
}
use Prim.Native.String.{◌++◌}
use rundo_dahua_sdk_edge.Cameras.{Device}
use rundo_dahua_sdk_edge.Gateway.{
  Json, Items, Members, null, integer, text, array, object, no_items, item, no_members, member,
}
use rundo_dahua_sdk_edge.Gateway.Channels.{channel_id}
use rundo_dahua_sdk_edge.Gateway.Media.{Preset}
use rundo_dahua_sdk_edge.Platforms.{Platform}
use rundo_dahua_sdk_edge.Records.{Found}

-- What a text is made of besides its arguments.
pub record Texts : Type 0 where
  pub write : Json → String
  pub to_string : ℕ → String
  pub to_utf : String → String  -- `boost::locale::conv::to_utf` from GBK
  pub show_time : String → String  -- from "%Y%m%d%H%M%S" to "%Y-%m-%d %H:%M:%S"
  pub media_server_id : String
  pub heartbeat_timeout : ℕ  -- `heartbeatTimeout` of the configuration
  pub time : String  -- the time, with a space before the hour
  pub time_t : String  -- the time, with a T before the hour
  pub millis : ℕ
  pub local_ip : String

-- Objects and arrays in the order of their parts.
abbrev pub obj : List (String × Json) → Members
obj [] = no_members
obj ((k, v) ∷ ms) = member k v (obj ms)

abbrev pub arr : List Json → Items
arr [] = no_items
arr (v ∷ vs) = item v (arr vs)

-- The document of `response`. `msg` is "SUCCESS" whatever the code.
abbrev pub response_document : Texts → String → ℕ → String → Json
response_document x msg_id code msg_type = object (
    obj (
      ("serialNum", text x.media_server_id)
      ∷ ("msgType", text msg_type)
      ∷ ("msgId", text msg_id)
      ∷ ("time", text x.time)
      ∷ ("code", integer code)
      ∷ ("msg", text "SUCCESS")
      ∷ ("data", null)
      ∷ []))

unfoldable pub response : Texts → String → ℕ → String → String
response x msg_id code msg_type = x.write (response_document x msg_id code msg_type)

-- The entries of `device_total_sync`: one for each device that is not soft-deleted. The code hands
-- over a pointer into a temporary for the time, so `stale` is whatever stands there.
unfoldable pub sync_items : String → List Platform → List Json
sync_items stale [] = []
sync_items stale (p ∷ ps) =
    let rest = sync_items stale ps in
    let entry = object (
      obj (
        ("deviceId", text p.device_id)
        ∷ ("firmware", text "")
        ∷ ("ip", text p.ip)
        ∷ ("manufacturer", text "dahua")
        ∷ ("model", text "DH-NVR4208-HDS2/H")
        ∷ ("name", text "NVR")
        ∷ ("online", integer 1)
        ∷ ("port", integer p.port)
        ∷ ("time", text stale)
        ∷ [])) in
    if p.soft_del then rest else entry ∷ rest

unfoldable pub device_total_sync : Texts → String → List Platform → String → String
device_total_sync x stale ps msg_id = x.write (
    object (
      obj (
        ("code", integer 0)
        ∷ ("data", array (arr (sync_items stale ps)))
        ∷ ("msg", text "SUCCESS")
        ∷ ("msgId", text msg_id)
        ∷ ("msgType", text "DEVICE_TOTAL_SYNC")
        ∷ ("serialNum", text x.media_server_id)
        ∷ [])))

-- A channel of `channel_sync`.
unfoldable pub channel_entry : Texts → Platform → Device → Json
channel_entry x p d = object (
    obj (
      ("channelId", text (channel_id x.to_string p.device_id d.id))
      ∷ ("channelNum", integer d.id)
      ∷ ("channelType", integer 1)
      ∷ ("encodeId", text p.device_id)
      ∷ ("channelName", text (x.to_utf d.name))
      ∷ ("manufacturer", text "DH")
      ∷ ("ip", text d.ip)
      ∷ ("port", integer d.port)
      ∷ ("password", text "rj123456")
      ∷ ("ptzType", integer 0)
      ∷ ("isIpChannel", integer 1)
      ∷ ("online", integer (if d.online then 1 else 0))
      ∷ ("deleted", integer 0)
      ∷ []))

-- A device without a name is left out.
unfoldable pub channel_entries : Texts → Platform → List Device → List Json
channel_entries x p [] = []
channel_entries x p (d ∷ ds) =
    let rest = channel_entries x p ds in
    if str_eq d.name "" then rest else channel_entry x p d ∷ rest

unfoldable pub channel_sync_document : Texts → List Device → Platform → Json
channel_sync_document x ds p =
    let entries = channel_entries x p ds in
    let none_found = length ds == 0 in
    object (
      obj (
        ("serialNum", text x.media_server_id)
        ∷ ("msgType", text "CHANNEL_SYNC")
        ∷ ("msgId", text p.msg_id)
        ∷ ("time", text x.time)
        ∷ ("code", integer (if none_found then 1 else 0))
        ∷ ("msg", text (if none_found then "channel list is null" else "SUCCESS"))
        ∷ (
          "data",
          object (
              obj (
                ("total", integer (length ds))
                ∷ ("channelDetailList", array (arr entries))
                ∷ ("num", integer (length entries))
                ∷ [])),
        )
        ∷ []))

unfoldable pub channel_sync : Texts → List Device → Platform → String
channel_sync x ds p = x.write (channel_sync_document x ds p)

unfoldable pub preset_entries : Texts → List Preset → List Json
preset_entries x [] = []
preset_entries x (p ∷ ps) =
    object (obj (("presetId", integer p.index) ∷ ("presetName", text (x.to_utf p.name)) ∷ []))
    ∷ preset_entries x ps

unfoldable pub ptz_preset_list : Texts → Preset → List Preset → ℕ → String
ptz_preset_list x p presets code = x.write (
    object (
      obj (
        ("serialNum", text x.media_server_id)
        ∷ ("msgType", text "CHANNEL_PTZ_PRESET")
        ∷ ("msgId", text p.msg_id)
        ∷ ("time", text x.time)
        ∷ ("code", integer code)
        ∷ ("msg", text (if code == 0 then "SUCCESS" else "FAIL"))
        ∷ ("data", array (arr (preset_entries x presets)))
        ∷ [])))

unfoldable pub record_items : Texts → List Found → List Json
record_items x [] = []
record_items x (f ∷ fs) =
    object (
      obj (
        ("name", text "")
        ∷ ("filePath", text "")
        ∷ ("fileSize", text "")
        ∷ ("address", text "")
        ∷ ("startTime", text (x.show_time f.start_time))
        ∷ ("endTime", text (x.show_time f.end_time))
        ∷ []))
    ∷ record_items x fs

unfoldable pub response_record_list : Texts → String → ℕ → String → List Found → String
response_record_list x msg_id code msg_type fs = x.write (
    object (
      obj (
        ("serialNum", text x.media_server_id)
        ∷ ("msgType", text msg_type)
        ∷ ("msgId", text msg_id)
        ∷ ("time", text x.time)
        ∷ ("code", integer code)
        ∷ ("msg", text "SUCCESS")
        ∷ (
          "data",
          object (
              obj (
                ("sumNum", integer (length fs))
                ∷ ("recordList", array (arr (record_items x fs)))
                ∷ [])),
        )
        ∷ [])))
