-- ===== src/Platforms.antt =====
-- src/server_manage.cpp, the devices that the gateway knows: `_platform_map`, `platform_list` and the
-- file platforms.json, which every change of the list rewrites. xpack, which encodes the list, and
-- the file system are parameters; a write that cannot open the file leaves it as it was.
pub mod Synced
pub mod Restart
pub mod Tests
use rundo_dahua_sdk_edge.Common.{
  ℕ, Bool, true, false, not, List, [], ◌∷◌, ◌++◌, String, Option, none, some, str_eq, if◌then◌else◌,
}
use rundo_dahua_sdk_edge.Common.Dict
use rundo_dahua_sdk_edge.Common.Dict.{Dict}

-- `Platform`
pub record Platform : Type 0 where
  pub device_type : ℕ
  pub device_id : String
  pub ip : String
  pub port : ℕ
  pub username : String
  pub password : String
  pub msg_id : String
  pub login_results : ℕ
  pub login_err_msg : String
  pub soft_del : Bool

pub record Store : Type 0 where
  pub platform_map : Dict Platform
  pub platform_list : List Platform
  pub file : Option String  -- `none` where the file does not exist

-- `xpack::json::encode` and `decode` of the list.
pub record Codec : Type 0 where
  pub encode : List Platform → String
  pub decode : String → List Platform

-- `writeJsonFile`: its result is not used. `can_open` is whether the file can be opened.
unfoldable pub write_json_file : Bool → String → Store → Store
write_json_file can_open json st = if can_open then record st { file = some json } else st

-- `readJsonFile`: a missing file is created empty, and gives no text.
unfoldable pub read_json_file : Bool → Store → Store × String
read_json_file can_open st = elim st.file [
  | none ↦ (if can_open then record st { file = some "" } else st, "")
  | some json ↦ (st, json)
]

unfoldable pub get_platform : String → Store → Option Platform
get_platform k st = Dict.find k st.platform_map

unfoldable pub add_platform_for_local_file : Bool → Codec → Platform → Store → Store
unfolding write_json_file
add_platform_for_local_file can_open x save st =
    let l = st.platform_list ++ save ∷ [] in
    write_json_file can_open (x.encode l) (record st { platform_list = l })

unfoldable pub add_platform : Bool → Codec → Platform → Store → Store
unfolding add_platform_for_local_file
add_platform can_open x p st =
    add_platform_for_local_file can_open x p
      (record st { platform_map = Dict.insert p.device_id p st.platform_map })

-- The first entry of the list with an id, changed; `none` where there is no such entry.
unfoldable pub change_first :
    String → (Platform → Platform) → List Platform → Option (List Platform)
change_first k f [] = none
change_first k f (p ∷ ps) =
    let rest = change_first k f ps in
    if str_eq p.device_id k
    then some (f p ∷ ps)
    else (elim rest [ none ↦ none | some ps' ↦ some (p ∷ ps') ])

-- `if (update.soft_del) platform.soft_del = update.soft_del;`
unfoldable pub soften : Platform → Platform → Platform
soften update p = if update.soft_del then record p { soft_del = true } else p

unfoldable pub update_platform_for_local_file : Bool → Codec → Platform → Store → Store × Bool
unfolding write_json_file soften
update_platform_for_local_file can_open x update st =
    elim (change_first update.device_id (soften update) st.platform_list) [
      | none ↦ (st, false)
      | some l ↦ (write_json_file can_open (x.encode l) (record st { platform_list = l }), true)
    ]

unfoldable pub del_platform : Bool → Codec → String → Store → Store × Bool
del_platform can_open x k st = elim (Dict.find k st.platform_map) [
  | none ↦ (st, false)
  | some p ↦
      let gone = record p { soft_del = true } in
      let st' = record st { platform_map = Dict.assign k gone st.platform_map } in
      ((update_platform_for_local_file can_open x gone st').0, true)
]

-- `remove_if` by id.
unfoldable pub remove_id : String → List Platform → List Platform
remove_id k [] = []
remove_id k (p ∷ ps) = let rest = remove_id k ps in if str_eq p.device_id k then rest else p ∷ rest

unfoldable pub has_id : String → List Platform → Bool
has_id k [] = false
has_id k (p ∷ ps) = let rest = has_id k ps in if str_eq p.device_id k then true else rest

-- `del_platform_for_local_file`, soft or hard by the argument's flag.
unfoldable pub del_platform_for_local_file : Bool → Codec → Platform → Store → Store × Bool
unfolding write_json_file soften
del_platform_for_local_file can_open x del st =
    let hard = remove_id del.device_id st.platform_list in
    let soft = change_first del.device_id (soften del) st.platform_list in
    if not (has_id del.device_id st.platform_list)
    then (st, false)
    else (if del.soft_del
        then (elim soft [
          | none ↦ (st, false)
          | some l ↦ (write_json_file can_open (x.encode l) (record st { platform_list = l }), true)
        ])
        else (write_json_file can_open (x.encode hard) (record st { platform_list = hard }), true))

-- `_platform_map[platform.deviceId] = platform` for each entry, in order.
unfoldable pub assign_all : List Platform → Dict Platform → Dict Platform
assign_all [] m = m
assign_all (p ∷ ps) m = assign_all ps (Dict.assign p.device_id p m)

unfoldable pub init_platform : Bool → Codec → Store → Store × Bool
unfolding read_json_file
init_platform can_open x st =
    let (st', text) = read_json_file can_open st in
    let l = x.decode text in
    let st₁ = record st' { platform_list = l } in
    if str_eq text "" then (st', false) else (elim l [
      | [] ↦ (st₁, false)
      | p ∷ ps ↦ (record st₁ { platform_map = assign_all (p ∷ ps) st₁.platform_map }, true)
    ])
