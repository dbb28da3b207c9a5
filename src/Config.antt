-- ===== src/Config.antt =====
-- src/config_manage.cpp and config_manage.h: `config_manager`, the configuration that is read from the
-- .ini file beside the program. boost's parser is a parameter: what a file says for each name. The
-- number of bytes of a text is one too.
pub mod Loaded
mod Tests
use rundo_dahua_sdk_edge.Common.{
  ℕ, ◌*◌, Bool, true, false, List, [], String, Option, none, some, ltb, if◌then◌else◌,
}
use rundo_dahua_sdk_edge.Common.Dict
use rundo_dahua_sdk_edge.Common.Dict.{Dict}

pub record Config : Type 0 where
  pub media_server_id : String
  pub http_ip : String
  pub http_port : ℕ
  pub mq_ip : String
  pub mq_port : ℕ
  pub mq_user : String
  pub mq_psw : String
  pub heartbeat_timeout : ℕ
  pub mq_listen_timeout : ℕ

-- `Config()`
unfoldable pub default_config : Config
default_config = record {
  media_server_id = "";
  http_ip = "";
  http_port = 0;
  mq_ip = "";
  mq_port = 0;
  mq_user = "";
  mq_psw = "";
  heartbeat_timeout = 3 * 60;
  mq_listen_timeout = 60;
}

-- A parsed file: the value of a name as a text and as an `unsigned int`, where it has one.
pub record Ini : Type 0 where
  pub text : String → Option String
  pub number : String → Option ℕ

pub record ConfigManager : Type 0 where
  pub media_config_map : Dict Config
  pub key : String  -- `key_`, which holds anything before a file is read

-- `pt.get<T>(name, or)`
abbrev pub get_default {ℓ} : {A : Type ℓ} → Option A → A → A
get_default none or = or
get_default (some a) or = a

-- What `ParseConfigFile_ini` makes of a file.
unfoldable pub read_config : Ini → Config → Config
read_config pt c = record {
  media_server_id = get_default (pt.text "mediaServerId") c.media_server_id;
  http_ip = get_default (pt.text "httpIp") c.http_ip;
  http_port = get_default (pt.number "httpPort") c.http_port;
  mq_ip = get_default (pt.text "MQIp") c.mq_ip;
  mq_port = get_default (pt.number "MQPort") c.mq_port;
  mq_user = get_default (pt.text "MQUser") c.mq_user;
  mq_psw = get_default (pt.text "MQPsw") c.mq_psw;
  heartbeat_timeout = get_default (pt.number "heartbeatTimeout") c.heartbeat_timeout;
  mq_listen_timeout = get_default (pt.number "MQListenTimeout") c.mq_listen_timeout;
}

-- `add_media_config`. `none` is the `sprintf` past the end of `key_`, which has 64 bytes.
unfoldable pub add_media_config :
    (String → ℕ) → Config → ConfigManager → Option (ConfigManager × Bool)
add_media_config bytes c m =
    let keyed = record m { key = c.media_server_id } in
    let stored = record keyed {
      media_config_map = Dict.insert c.media_server_id c m.media_config_map;
    } in
    if ltb (bytes c.media_server_id) 64
    then some (elim (Dict.find c.media_server_id m.media_config_map) [
      | some _ ↦ (keyed, true)
      | none ↦ (stored, true)
    ])
    else none

-- `ParseConfigFile_ini`: a file that cannot be read is an exception, which is caught.
unfoldable pub parse_config_file_ini :
    (String → ℕ) → Option Ini → ConfigManager → Option (ConfigManager × Bool)
parse_config_file_ini bytes none m = some (m, false)
parse_config_file_ini bytes (some pt) m = add_media_config bytes (read_config pt default_config) m

-- `add_loacl_media_config`, which always returns false.
unfoldable pub add_local_media_config :
    (String → ℕ) → Option Ini → ConfigManager → Option (ConfigManager × Bool)
add_local_media_config bytes file m = elim (parse_config_file_ini bytes file m) [
  | none ↦ none
  | some r ↦ some (r.0, false)
]

unfoldable pub get_media_config1 : ConfigManager → Config
get_media_config1 m = elim (Dict.find m.key m.media_config_map) [
  | none ↦ default_config
  | some c ↦ c
]

-- `get_media_config`, over what the argument held.
unfoldable pub get_media_config : Config → ConfigManager → Config × Bool
get_media_config c m = elim (Dict.find m.key m.media_config_map) [
  | none ↦ (c, false)
  | some d ↦ (d, true)
]
