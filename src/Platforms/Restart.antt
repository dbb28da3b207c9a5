-- ===== src/Platforms/Restart.antt =====
-- What a restart recovers from platforms.json.
use rundo_dahua_sdk_edge.Common.{
  ◌≡◌, ◌≢◌, refl, ◌∙◌, Bool, true, List, [], ◌∷◌, String, Option, none, some, eq_iff, arith,
}
use rundo_dahua_sdk_edge.Common.Dict
use rundo_dahua_sdk_edge.Common.Dict.{Dict, find-insert, find-assign}
use rundo_dahua_sdk_edge.Platforms.{
  Platform, Store, Codec, add_platform, del_platform, update_platform_for_local_file, assign_all,
  init_platform,
}
use rundo_dahua_sdk_edge.Platforms.Synced.{find_first, IsSynced}

-- The file holds the list.
abbrev pub IsSaved : Codec → Store → Type 0
IsSaved x st = st.file ≡ some (x.encode st.platform_list)

-- When the file can be opened, adding and deleting a device leave the list saved.
pub change-IsSaved :
    (x : Codec) (p : Platform) (k : String) (st : Store)
    → IsSaved x st
    → IsSaved x (add_platform true x p st) × IsSaved x (del_platform true x k st).0
unfolding add_platform del_platform update_platform_for_local_file
change-IsSaved x p k st s = (ground arith, ground arith)

-- No id stands twice in the list.
abbrev pub IsDistinct : List Platform → Type 0
IsDistinct [] = Unit
IsDistinct (p ∷ ps) = (find_first p.device_id ps ≡ none) × IsDistinct ps

abbrev or_else : Option Platform → Option Platform → Option Platform
or_else none o = o
or_else (some p) o = some p

assign_all-find :
    (k : String) (l : List Platform) (m : Dict Platform)
    → IsDistinct l
    → Dict.find k (assign_all l m) ≡ or_else (find_first k l) (Dict.find k m)
unfolding assign_all find_first
assign_all-find k [] m d = refl
assign_all-find k (p ∷ ps) m d = ground (
  arith,
  assign_all-find k ps (Dict.assign p.device_id p m),
  find-assign p.device_id k p m,
  eq_iff p.device_id k,
)

init_platform_read :
    (can_open : Bool) (x : Codec) (file : Option String) (text : String) (p : Platform)
    (ps : List Platform)
    → file ≡ some text
    → text ≢ ""
    → x.decode text ≡ p ∷ ps
    → (init_platform can_open x (record { platform_map = []; platform_list = []; file = file })).0
      ≡ record { platform_map = assign_all (p ∷ ps) []; platform_list = p ∷ ps; file = file }
unfolding init_platform
init_platform_read can_open x file text p ps f e d = ground (arith, eq_iff text "")

-- A list that is not empty has a head.
List-cases : (l : List Platform) → l ≢ [] → (p : Platform) × (ps : List Platform) × (l ≡ p ∷ ps)
List-cases [] n = absurd (n refl)
List-cases (p ∷ ps) n = (p, ps, refl)

empty_or : (o : Option Platform) → or_else o none ≡ o
empty_or none = refl
empty_or (some p) = refl

-- After a restart the gateway knows the devices of the list that was saved: the same list, and a map
-- in agreement with it, provided the list is not empty, names no id twice, and xpack reads back what
-- it wrote, which is not the empty text.
pub init_platform-saved :
    (can_open : Bool) (x : Codec) (st : Store)
    → IsSaved x st
    → IsDistinct st.platform_list
    → st.platform_list ≢ []
    → x.encode st.platform_list ≢ ""
    → x.decode (x.encode st.platform_list) ≡ st.platform_list
    → let started : Store = record { platform_map = []; platform_list = []; file = st.file } in
      ((init_platform can_open x started).0.platform_list ≡ st.platform_list)
      × IsSynced (init_platform can_open x started).0
unfolding Dict.find find_first
init_platform-saved can_open x st s d n e back =
    let (p, ps, l) = List-cases st.platform_list n in
    let read = init_platform_read can_open x st.file _ p ps s e (back ∙ l) in
    rw (read, l)
      (refl, λ k. assign_all-find k (p ∷ ps) [] (rw l at d) ∙ empty_or (find_first k (p ∷ ps)))
