-- ===== src/Cameras.antt =====
-- src/sdk_wrap.cpp, `sdk_wrap::get_camera_list` and `query_ptz_preset`. What the SDK writes for each
-- channel or preset is an unknown function of the history that ends with the call.
pub mod Failure
mod Tests
use rundo_dahua_sdk_edge.Common.{
  ℕ, zero, suc, ◌+◌, ◌^◌, Bool, true, false, not, List, [], ◌∷◌, ◌++◌, String, Option, none, some,
  ◌==◌, leb, str_eq, if◌then◌else◌,
}
use rundo_dahua_sdk_edge.Sdk.{
  Sdk, Call, get_channel_config, matrix_get_cameras, query_camera_state, query_remote_online,
  query_online, query_presets, dhsdk_get_last_error,
}
use rundo_dahua_sdk_edge.Gateway.Media.{Preset}
use rundo_dahua_sdk_edge.Streams.{LoginResults}

-- `Device`: the members that the code writes or reads. `online` is 0 or 1.
pub record Device : Type 0 where
  pub id : ℕ
  pub name : String
  pub ip : String
  pub port : ℕ
  pub username : String
  pub password : String
  pub online : Bool
  pub device_id : String
  pub manufacturer : String
  pub model : String
  pub firmware : String

abbrev pub no_device : Device
no_device = record {
  id = 0;
  name = "";
  ip = "";
  port = 0;
  username = "";
  password = "";
  online = false;
  device_id = "";
  manufacturer = "";
  model = "";
  firmware = "";
}

-- What the SDK writes: the names of the channels, their remote devices, the states that
-- `CLIENT_QueryDevInfo` gives, the DWORD of an online query, and presets.
pub record Cameras : Type 0 where
  pub name : List Call → ℕ → String
  pub ip : List Call → ℕ → String
  pub port : List Call → ℕ → ℕ
  pub username : List Call → ℕ → String
  pub password : List Call → ℕ → String
  pub connected : List Call → ℕ → Bool
  pub online : List Call → ℕ
  pub presets : List Call → List (ℕ × String)

pub record CameraRan : Type 0 where
  pub ret : ℕ
  pub list : List Device
  pub calls : List Call

-- The state of a channel where the states cannot be had at once: ask for the channel, then for the
-- device, and take a refusal of both for 0.
unfoldable pub ask_online : Sdk → Cameras → ℕ → ℕ → List Call → Bool × List Call
ask_online sdk cams handle i t =
    let c = query_remote_online handle i in
    let d = query_online handle in
    if sdk.accepts t c
    then (not (cams.online (c ∷ t) == 0), c ∷ t)
    else if sdk.accepts (c ∷ t) d
    then (not (cams.online (d ∷ c ∷ t) == 0), d ∷ c ∷ t)
    else (false, d ∷ c ∷ t)

-- The loop over the channels from `i` on.
unfoldable pub ask_all : Sdk → Cameras → ℕ → ℕ → ℕ → List Call → List Bool × List Call
ask_all sdk cams handle i zero t = ([], t)
ask_all sdk cams handle i (suc n) t =
    let (b, t₁) = ask_online sdk cams handle i t in
    let (bs, t₂) = ask_all sdk cams handle (i + 1) n t₁ in (b ∷ bs, t₂)

-- The states that `CLIENT_QueryDevInfo` gave, of the channels from `i` on.
unfoldable pub given_states : Cameras → List Call → ℕ → ℕ → List Bool
given_states cams t i zero = []
given_states cams t i (suc n) = cams.connected t i ∷ given_states cams t (i + 1) n

-- The last loop: the entries of the channels from `i` on. `t₁` and `t₂` are the histories that end
-- with the two queries. A channel whose remote device is 192.168.0.0 keeps its empty entry.
unfoldable pub fill : Cameras → List Call → List Call → ℕ → List Bool → List Device
fill cams t₁ t₂ i [] = []
fill cams t₁ t₂ i (b ∷ bs) =
    let d : Device = record no_device {
      id = i;
      name = cams.name t₁ i;
      ip = cams.ip t₂ i;
      port = cams.port t₂ i;
      username = cams.username t₂ i;
      password = cams.password t₂ i;
      online = b;
    } in
    (if str_eq (cams.ip t₂ i) "192.168.0.0" then no_device else d) ∷ fill cams t₁ t₂ (i + 1) bs

unfoldable pub empty_list : ℕ → List Device
empty_list zero = []
empty_list (suc n) = no_device ∷ empty_list n

-- `none` is the exception of `resize` for a negative number of channels.
unfoldable pub get_camera_list : Sdk → Cameras → LoginResults → List Call → Option CameraRan
get_camera_list sdk cams login t =
    let n = login.chan_num in
    let blank = empty_list n in
    let c₁ = get_channel_config login.handle n in
    let t₁ = c₁ ∷ t in
    let c₂ = matrix_get_cameras login.handle n in
    let t₂ = c₂ ∷ t₁ in
    let c₃ = query_camera_state login.handle n in
    let t₃ = c₃ ∷ t₂ in
    let (asked, t₄) = ask_all sdk cams login.handle 0 n t₃ in
    let given = given_states cams t₃ 0 n in
    if n == 0
    then some (record { ret = 0; list = []; calls = t })
    else if leb (2 ^ 31) n
    then none
    else if not (sdk.accepts t c₁)
    then some (record { ret = dhsdk_get_last_error sdk t₁; list = blank; calls = t₁ })
    else if not (sdk.accepts t₁ c₂)
    then some (record { ret = dhsdk_get_last_error sdk t₂; list = blank; calls = t₂ })
    else if sdk.accepts t₂ c₃
    then some (record { ret = 0; list = fill cams t₁ t₂ 0 given; calls = t₃ })
    else some (record { ret = 0; list = fill cams t₁ t₂ 0 asked; calls = t₄ })

-- `query_ptz_preset`: its `int`, the presets, and the calls.
pub record PresetRan : Type 0 where
  pub ret : ℕ
  pub list : List Preset
  pub calls : List Call

-- The loop over the presets; `junk` is an unset `Preset`.
unfoldable pub preset_list : Preset → List (ℕ × String) → List Preset
preset_list junk [] = []
preset_list junk ((i, name) ∷ ps) = record junk { index = i; name = name } ∷ preset_list junk ps

unfoldable pub query_ptz_preset : Sdk → Cameras → Preset → LoginResults → ℕ → List Call → PresetRan
query_ptz_preset sdk cams junk login channel t =
    let c = query_presets login.handle channel in
    if sdk.accepts t c
    then record { ret = 0; list = preset_list junk (cams.presets (c ∷ t)); calls = c ∷ t }
    else record { ret = dhsdk_get_last_error sdk (c ∷ t); list = []; calls = c ∷ t }
