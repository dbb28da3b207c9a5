-- ===== src/Server/Admission.antt =====
-- A device that was added, and the requests that name it afterwards.
use rundo_dahua_sdk_edge.Common.{
  ap, ◌≡◌, refl, ◌∙◌, sym, false, String, none, some, arith, str_eq, eq_refl,
}
use rundo_dahua_sdk_edge.Common.Dict
use rundo_dahua_sdk_edge.Common.Dict.{find-insert}
use rundo_dahua_sdk_edge.Streams.{LoginResults}
use rundo_dahua_sdk_edge.Platforms.{
  Platform, get_platform, add_platform, add_platform_for_local_file, write_json_file,
}
use rundo_dahua_sdk_edge.Equipment.{log_in, logged_in, equipment_key}
use rundo_dahua_sdk_edge.Equipment.Logins.{log_in-kept, log_in-known}
use rundo_dahua_sdk_edge.Gateway.Requests.{pars_device_add}
use rundo_dahua_sdk_edge.Server.{Server, Around, send, connect, with_login}
use rundo_dahua_sdk_edge.Server.Devices.{admit, device_add}

add_platform-map :
    (a : Around) (p : Platform) (s : Server)
    → (add_platform a.can_open a.codec p s.store).platform_map
      ≡ Dict.insert p.device_id p s.store.platform_map
unfolding add_platform add_platform_for_local_file write_json_file
add_platform-map a p s = ground arith

connect-logged_in :
    (a : Around) (p : Platform) (s s₁ : Server) (l : LoginResults)
    → connect a p s ≡ (some (0, l), s₁)
    → log_in a.sdk a.texts.to_string p.ip p.port p.username p.password s.equipment a.held s.calls
      ≡ logged_in s₁.equipment l s₁.calls
unfolding connect
connect-logged_in a p s s₁ l e = ground arith

-- What an admission leaves: the device stands in the map, and the logins and calls are as before.
admit-known :
    (a : Around) (p : Platform) (s : Server)
    → Dict.find p.device_id s.store.platform_map ≡ none
    → let s' = admit a p s in
      (get_platform p.device_id s'.store ≡ some p)
      × (s'.equipment ≡ s.equipment)
      × (s'.calls ≡ s.calls)
unfolding admit send get_platform
admit-known a p s new = (
  ap (Dict.find p.device_id) (add_platform-map a p s)
      ∙ ground
          (arith, find-insert p.device_id p.device_id p s.store.platform_map, eq_refl p.device_id),
  refl,
  refl,
)

with_login-known :
    (b : Around) (id : String) (rest : LoginResults → Server → Server) (s : Server) (p : Platform)
    (l : LoginResults)
    → get_platform id s.store ≡ some p
    → log_in b.sdk b.texts.to_string p.ip p.port p.username p.password s.equipment b.held s.calls
      ≡ logged_in s.equipment l s.calls
    → with_login b id rest s ≡ rest l s
unfolding with_login connect
with_login-known b id rest s p l found again =
    let e : connect b p s ≡ (some (0, l), s) = rw (again, connect) refl in
    let ret : (connect b p s).0 ≡ some (0, l) = ap (λ r. r.0) e in
    rw (found, ret, with_login) (ap (λ r. rest l r.1) e)

connect-store : (a : Around) (p : Platform) (s : Server) → (connect a p s).1.store ≡ s.store
unfolding connect
connect-store a p s = ground arith

-- After a DEVICE_ADD for a new device id and a given ip, whose login succeeded, and in every later state
-- in which the device still stands in the map as it was added and the login under its key is still the
-- one that was kept, a request that names the device begins with the login of the addition and asks
-- the device nothing: its handler goes on from that very state, calls included.
pub device_add-known :
    (a b : Around) (msg : String) (s s₁ s₂ : Server) (l : LoginResults)
    (rest : LoginResults → Server → Server)
    → let p = pars_device_add a.parse a.atoi msg a.fresh in
      let key = equipment_key b.texts.to_string p.ip p.port p.username in
      let s' = device_add a msg s in
      str_eq p.ip "" ≡ false
      → Dict.find p.device_id s.store.platform_map ≡ none
      → connect a p s ≡ (some (0, l), s₁)
      → b.texts.to_string ≡ a.texts.to_string
      → get_platform p.device_id s₂.store ≡ get_platform p.device_id s'.store
      → Dict.find key s₂.equipment.logins ≡ Dict.find key s'.equipment.logins
      → with_login b p.device_id rest s₂ ≡ rest l s₂
unfolding device_add
device_add-known a b msg s s₁ s₂ l rest named new conn same_text there login_kept =
    let p = pars_device_add a.parse a.atoi msg a.fresh in
    let key = equipment_key b.texts.to_string p.ip p.port p.username in
    let p' : Platform = record p { login_results = 0 } in
    let ret : (connect a p s).0 ≡ some (0, l) = ap (λ r. r.0) conn in
    let left : (connect a p s).1 ≡ s₁ = ap (λ r. r.1) conn in
    let stored : s₁.store ≡ s.store = sym (ap (λ r. r.1.store) conn) ∙ connect-store a p s in
    let s' = admit a p' s₁ in
    let added : device_add a msg s ≡ s' = rw (named, ret, device_add) (ap (admit a p') left) in
    let still : Dict.find p.device_id s₁.store.platform_map ≡ none =
      ap (λ st. Dict.find p.device_id st.platform_map) stored ∙ new in
    let (found, kept, asked) = admit-known a p' s₁ still in
    let first =
      log_in-kept a.sdk a.texts.to_string p.ip p.port p.username p.password s.equipment s₁.equipment
        a.held l s.calls s₁.calls (connect-logged_in a p s s₁ l conn) in
    let here : Dict.find key s'.equipment.logins ≡ some l = rw (same_text, kept) first in
    let again =
      log_in-known b.sdk b.texts.to_string p.ip p.port p.username p.password s₂.equipment b.held l
        s₂.calls (login_kept ∙ ap (λ q. Dict.find key q.equipment.logins) added ∙ here) in
    with_login-known b p.device_id rest s₂ p' l
      (there ∙ ap (λ q. get_platform p.device_id q.store) added ∙ found) again
