-- ===== src/Config/Tests.antt =====
-- The theorems on the configuration, applied to a file that leaves most names out.
use rundo_dahua_sdk_edge.Common.{◌≡◌, refl, true, false, [], none, some, str_eq, if◌then◌else◌}
use mathlib.Core.Option.{get_or}
use rundo_dahua_sdk_edge.Common.Dict
use rundo_dahua_sdk_edge.Config.{
  Config, Ini, ConfigManager, default_config, read_config, add_media_config, parse_config_file_ini,
  add_local_media_config, get_media_config1, get_media_config,
}
use rundo_dahua_sdk_edge.Config.Loaded.{get_media_config-add}

abbrev short : Ini
short = record {
  text = λ name. if str_eq name "mediaServerId" then some "g1" else none;
  number = λ name. if str_eq name "MQPort" then some 5672 else none;
}

abbrev unread : ConfigManager
unread = record { media_config_map = []; key = "" }

abbrev config : Config
config = read_config short default_config

abbrev read : ConfigManager
read = record { media_config_map = Dict.insert "g1" config []; key = "g1" }

get_media_config-add_example :
    let found = get_or (Dict.find "g1" unread.media_config_map) config in
    (get_media_config1 read ≡ found)
    × (get_media_config default_config read ≡ (found, true))
    × (false ≡ false)
unfolding add_local_media_config parse_config_file_ini add_media_config read_config Dict.find
    Dict.insert
get_media_config-add_example =
    get_media_config-add (λ s. 2) short unread read false default_config refl
