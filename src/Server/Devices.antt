-- ===== src/Server/Devices.antt =====
-- src/server_manage.cpp: the handlers of the requests that add, list, delete and recover devices.
use rundo_dahua_sdk_edge.Common.{zero, suc, String, none, some, str_eq, if◌then◌else◌}
use rundo_dahua_sdk_edge.Platforms.{Platform, add_platform, del_platform}
use rundo_dahua_sdk_edge.Cameras.{get_camera_list}
use rundo_dahua_sdk_edge.Gateway.Requests.{
  pars_device_sync, pars_device_add, pars_device_total_sync,
}
use rundo_dahua_sdk_edge.Gateway.Replies
use rundo_dahua_sdk_edge.Gateway.Replies.{response}
use rundo_dahua_sdk_edge.Gateway.Reports.{device_add_result, device_add_state}
use rundo_dahua_sdk_edge.Server.{Server, Around, send, connect, with_login}

-- The platform that a request names.
unfoldable pub named : Around → String → Platform
named a msg = pars_device_sync a.parse msg a.fresh

-- The result of `get_camera_list` is not used.
unfoldable pub channel_sync : Around → String → Server → Server
channel_sync a msg s =
    let temp = named a msg in
    with_login a temp.device_id
      (λ login s₁. elim (get_camera_list a.sdk a.cameras login s₁.calls) [
        | none ↦ s₁
        | some r ↦ send (Replies.channel_sync a.texts r.list temp) (record s₁ { calls = r.calls })
      ])
      s

-- What `device_add` does with a device that it could log in to.
unfoldable pub admit : Around → Platform → Server → Server
admit a p s =
    let s₁ = send (device_add_result a.texts p) s in
    let (text, n) = device_add_state a.later p s.msg_id in
    let s₂ = send text s₁ in
    record s₂ { msg_id = n; store = add_platform a.can_open a.codec p s.store }

unfoldable pub device_add : Around → String → Server → Server
device_add a msg s =
    let p = pars_device_add a.parse a.atoi msg a.fresh in
    let (o, s₁) = connect a p s in
    if str_eq p.ip "" then s else (elim o [
      | none ↦ s₁
      | some (zero, l) ↦ admit a (record p { login_results = 0 }) s₁
      | some (suc n, l) ↦
          send
            (device_add_result a.texts
              (record p { login_results = suc n; login_err_msg = "login fail" }))
            s₁
    ])

unfoldable pub device_total_sync : Around → String → Server → Server
device_total_sync a msg s =
    send
      (Replies.device_total_sync a.texts a.stale s.store.platform_list
        (pars_device_total_sync a.parse msg))
      s

-- A response with code 0 to the request.
unfoldable pub confirm : Around → String → String → Server → Server
confirm a msg_type msg s = send (response a.texts (named a msg).msg_id 0 msg_type) s

unfoldable pub device_delete : Around → String → Server → Server
device_delete a = confirm a "DEVICE_DELETE"

unfoldable pub device_delete_soft : Around → String → Server → Server
device_delete_soft a msg s =
    let st = (del_platform a.can_open a.codec (named a msg).device_id s.store).0 in
    confirm a "DEVICE_DELETE_SOFT" msg (record s { store = st })

unfoldable pub device_delete_recover : Around → String → Server → Server
device_delete_recover a = confirm a "DEVICE_DELETE_RECOVER"

unfoldable pub channel_delete_soft : Around → String → Server → Server
channel_delete_soft a = confirm a "CHANNEL_DELETE_SOFT"

unfoldable pub channel_delete_recover : Around → String → Server → Server
channel_delete_recover a = confirm a "CHANNEL_DELETE_RECOVER"
