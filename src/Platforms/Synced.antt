-- ===== src/Platforms/Synced.antt =====
-- The map of devices and the list that is saved agree.
use mathlib.Core.Option
use mathlib.Core.Option.{get_or}
use mathlib.Core.Path.{fun_ext}
use rundo_dahua_sdk_edge.Common.{
  ◌≡◌, refl, sym, ◌∙◌, ap, Bool, true, List, [], ◌∷◌, ◌++◌, String, Option, none, some, str_eq,
  eq_iff, arith, if◌then◌else◌, Option-cases, inl, inr,
}
use rundo_dahua_sdk_edge.Common.Dict
use rundo_dahua_sdk_edge.Common.Dict.{Dict, find-insert, find-assign}
use rundo_dahua_sdk_edge.Platforms.{
  Platform, Store, Codec, add_platform, del_platform, change_first, soften,
  update_platform_for_local_file,
}

-- The first entry of the list with an id.
unfoldable pub find_first : String → List Platform → Option Platform
find_first k [] = none
find_first k (p ∷ ps) = if str_eq p.device_id k then some p else find_first k ps

-- A lookup in the map finds the first entry of the list with that id.
abbrev pub IsSynced : Store → Type 0
IsSynced st = (k : String) → Dict.find k st.platform_map ≡ find_first k st.platform_list

find_first-append :
    (k : String) (l : List Platform) (p : Platform)
    → find_first k (l ++ p ∷ [])
      ≡ (if str_eq p.device_id k then some (get_or (find_first k l) p) else find_first k l)
unfolding find_first
find_first-append k [] p = ground arith
find_first-append k (q ∷ l) p = ground (arith, find_first-append k l p)

-- Adding a device keeps the map and the list in agreement, also for an id that is known already.
pub add_platform-IsSynced :
    (can_open : Bool) (x : Codec) (p : Platform) (st : Store)
    → IsSynced st
    → IsSynced (add_platform can_open x p st)
unfolding add_platform
add_platform-IsSynced can_open x p st v k = ground (
  arith,
  find-insert p.device_id k p st.platform_map,
  find_first-append k st.platform_list p,
  v k,
  v p.device_id,
  eq_iff p.device_id k,
)

find_first-device_id :
    (k : String) (l : List Platform) (p : Platform) → find_first k l ≡ some p → p.device_id ≡ k
unfolding find_first
find_first-device_id k [] p e = cc
find_first-device_id k (q ∷ l) p e =
    ground (arith, eq_iff q.device_id k, find_first-device_id k l p)

-- Changing the first entry of an id changes what is found under that id, and nothing else.
change_first-find_first :
    (k j : String) (f : Platform → Platform) (l : List Platform)
    → ((p : Platform) → (f p).device_id ≡ p.device_id)
    → find_first j (get_or (change_first k f l) l)
      ≡ (if str_eq k j then Option.map f (find_first j l) else find_first j l)
unfolding find_first change_first
change_first-find_first k j f [] same = ground arith
change_first-find_first k j f (q ∷ l) same = ground (
  arith,
  change_first-find_first k j f l same,
  same q,
  eq_iff k j,
  eq_iff q.device_id k,
  eq_iff q.device_id j,
  eq_iff (f q).device_id j,
)

soften-device_id : (u p : Platform) → (soften u p).device_id ≡ p.device_id
unfolding soften
soften-device_id u p = ground arith

-- The list after `update_platform_for_local_file`, whether or not the id is in it.
update-list :
    (can_open : Bool) (x : Codec) (u : Platform) (st : Store)
    → let st' = (update_platform_for_local_file can_open x u st).0 in
      (st'.platform_list
        ≡ get_or (change_first u.device_id (soften u) st.platform_list) st.platform_list)
      × (st'.platform_map ≡ st.platform_map)
unfolding update_platform_for_local_file
update-list can_open x u st = ground arith

abbrev pub mark : Platform → Platform
mark p = record p { soft_del = true }

-- What a lookup of `j` finds after a soft delete of `k`: the same device with its flag set, and every
-- other id as before.
abbrev pub softened : String → String → Option Platform → Option Platform
softened k j o = if str_eq k j then Option.map mark o else o

del_platform-map :
    (can_open : Bool) (x : Codec) (k j : String) (st : Store)
    → Dict.find j (del_platform can_open x k st).0.platform_map
      ≡ softened k j (Dict.find j st.platform_map)
unfolding del_platform
del_platform-map can_open x k j st = elim (Option-cases (Dict.find k st.platform_map)) [
  | inl e ↦ ground (arith, eq_iff k j)
  | inr (p, e) ↦
      let st' : Store = record st { platform_map = Dict.assign k (mark p) st.platform_map } in
      ground (
        arith,
        update-list can_open x (mark p) st',
        find-assign k j (mark p) st.platform_map,
        eq_iff k j,
      )
]

soften-mark : (u : Platform) → u.soft_del ≡ true → (p : Platform) → soften u p ≡ mark p
unfolding soften
soften-mark u e p = ground arith

del_platform-list :
    (can_open : Bool) (x : Codec) (k j : String) (st : Store)
    → IsSynced st
    → find_first j (del_platform can_open x k st).0.platform_list
      ≡ softened k j (find_first j st.platform_list)
unfolding del_platform
del_platform-list can_open x k j st v = elim (Option-cases (Dict.find k st.platform_map)) [
  | inl e ↦ ground (arith, eq_iff k j, v k)
  | inr (p, e) ↦
      let st' : Store = record st { platform_map = Dict.assign k (mark p) st.platform_map } in
      let own = find_first-device_id k st.platform_list p (sym (v k) ∙ e) in
      let all_marked : soften (mark p) ≡ mark = fun_ext (soften-mark (mark p) refl) in
      let changed = change_first-find_first p.device_id j mark st.platform_list (λ q. refl) in
      let up = update-list can_open x (mark p) st' in
      rw (e, del_platform) (rw (up.0, all_marked) (rw (← own) changed))
]

-- A soft delete keeps the map and the list in agreement, and changes nothing but the flag of the
-- deleted device, in both; the device is still found under its id.
pub del_platform-IsSynced :
    (can_open : Bool) (x : Codec) (k j : String) (st : Store)
    → IsSynced st
    → let st' = (del_platform can_open x k st).0 in
      (Dict.find j st'.platform_map ≡ find_first j st'.platform_list)
      × (Dict.find j st'.platform_map ≡ softened k j (Dict.find j st.platform_map))
del_platform-IsSynced can_open x k j st v = (
  del_platform-map can_open x k j st
      ∙ ap (softened k j) (v j)
      ∙ sym (del_platform-list can_open x k j st v),
  del_platform-map can_open x k j st,
)
