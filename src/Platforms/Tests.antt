-- ===== src/Platforms/Tests.antt =====
-- The theorems on the devices, applied to a gateway with one device.
use rundo_dahua_sdk_edge.Common.{
  ◌≡◌, refl, true, false, [], ◌∷◌, some, str_eq, eq_iff, if◌then◌else◌, arith,
}
use rundo_dahua_sdk_edge.Common.Dict
use rundo_dahua_sdk_edge.Common.Dict.{Dict}
use rundo_dahua_sdk_edge.Platforms.{Platform, Store, Codec, init_platform}
use rundo_dahua_sdk_edge.Platforms.Synced.{find_first, IsSynced}
use rundo_dahua_sdk_edge.Platforms.Restart.{init_platform-saved}

abbrev pub door : Platform
door = record {
  device_type = 1;
  device_id = "door";
  ip = "10.0.0.2";
  port = 37777;
  username = "admin";
  password = "admin";
  msg_id = "1";
  login_results = 1;
  login_err_msg = "";
  soft_del = false;
}

abbrev gate : Platform
gate = record door { device_id = "gate"; ip = "10.0.0.3" }

-- A codec that knows the list of the one device, and the empty list.
abbrev pub one_device : Codec
one_device = record {
  encode = λ l. elim l [ [] ↦ "[]" | _ ∷ _ ↦ "[door]" ];
  decode = λ s. if str_eq s "[door]" then door ∷ [] else [];
}

abbrev pub known : Store
known = record {
  platform_map = ("door", door) ∷ [];
  platform_list = door ∷ [];
  file = some "[door]";
}

pub known-IsSynced : IsSynced known
unfolding Dict.find find_first
known-IsSynced k = refl

init_platform-saved_example :
    let started : Store = record { platform_map = []; platform_list = []; file = some "[door]" } in
    ((init_platform true one_device started).0.platform_list ≡ door ∷ [])
    × IsSynced (init_platform true one_device started).0
unfolding find_first
init_platform-saved_example =
    init_platform-saved true one_device known refl (refl, tt) (λ e. ground arith)
      (λ e. ground (arith, eq_iff "[door]" "")) refl
