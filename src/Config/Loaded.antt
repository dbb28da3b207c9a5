-- ===== src/Config/Loaded.antt =====
-- What the program finds after the configuration was loaded.
use mathlib.Core.Option.{get_or}
use rundo_dahua_sdk_edge.Common.{ℕ, ◌≡◌, Bool, true, false, String, none, some, [], arith, eq_refl}
use rundo_dahua_sdk_edge.Common.Dict
use rundo_dahua_sdk_edge.Common.Dict.{find-insert}
use rundo_dahua_sdk_edge.Config.{
  Config, Ini, ConfigManager, default_config, read_config, add_media_config, parse_config_file_ini,
  add_local_media_config, get_media_config1, get_media_config,
}

-- After a file was read whose server id fits the key, both getters give what the file says, with the
-- defaults for what it leaves out, unless a file with the same id was read before: then they give what
-- that one said.
pub get_media_config-add :
    (bytes : String → ℕ) (pt : Ini) (m m' : ConfigManager) (ret : Bool) (old : Config)
    → add_local_media_config bytes (some pt) m ≡ some (m', ret)
    → let c = read_config pt default_config in
      let found = get_or (Dict.find c.media_server_id m.media_config_map) c in
      (get_media_config1 m' ≡ found) × (get_media_config old m' ≡ (found, true)) × (ret ≡ false)
unfolding add_local_media_config parse_config_file_ini add_media_config get_media_config1
    get_media_config
get_media_config-add bytes pt m m' ret old e =
    let c = read_config pt default_config in
    ground (
      arith,
      find-insert c.media_server_id c.media_server_id c m.media_config_map,
      eq_refl c.media_server_id,
    )

-- A file that cannot be read changes nothing: a program that has read none works with the defaults.
pub get_media_config-unread :
    (bytes : String → ℕ) (m m' : ConfigManager) (ret : Bool)
    → m.media_config_map ≡ []
    → add_local_media_config bytes none m ≡ some (m', ret)
    → get_media_config1 m' ≡ default_config
unfolding add_local_media_config parse_config_file_ini get_media_config1 Dict.find
get_media_config-unread bytes m m' ret e f = ground arith
