-- ===== src/Server/Start.antt =====
-- src/DHGatewayServer.cpp, `main` and `onclose`, and src/server_manage.cpp, `start_server` around its
-- two waits: before them it reads the devices and connects, after them it reports the devices, as every
-- round of `device_upload_func` would.
pub mod Reported
use rundo_dahua_sdk_edge.Common.{Option, some, ◌>>=◌, ℕ, List, [], ◌∷◌, String, if◌then◌else◌}
use rundo_dahua_sdk_edge.Common.Dict
use rundo_dahua_sdk_edge.Sessions.{disconnet_play_session}
use rundo_dahua_sdk_edge.Platforms.{Platform, init_platform}
use rundo_dahua_sdk_edge.Mq.{Amqp, Call}
use rundo_dahua_sdk_edge.Client.{init_client, set_client_type, connet_public}
use rundo_dahua_sdk_edge.Config.{
  ConfigManager, Ini, default_config, add_local_media_config, get_media_config,
}
use rundo_dahua_sdk_edge.Client.Send.{send_public_queue}
use rundo_dahua_sdk_edge.Gateway.Reports.{gateway_sign_in, gateway_heartbeat, device_add_state}
use rundo_dahua_sdk_edge.Server.{Server, Around, send}

unfoldable pub start_server :
    Amqp
    → Around
    → ConfigManager
    → String
    → ℕ
    → String
    → String
    → Server
    → List Call
    → Server × List Call
start_server amqp a m ip port user pws s t =
    let st = (init_platform a.can_open a.codec s.store).0 in
    let c₀ = set_client_type 1 (init_client m s.client).0 in
    let c = connet_public amqp ip port user pws c₀ t in
    let (sign_in, n₁) = gateway_sign_in a.texts s.msg_id in
    let p = send_public_queue amqp sign_in c.client c.calls in
    let (heartbeat, n₂) = gateway_heartbeat a.texts n₁ in
    let q = send_public_queue amqp heartbeat p.client p.calls in
    (record s { store = st; client = q.client; msg_id = n₂ }, q.calls)

-- `main`, from the load of the configuration to `start_server`. `none` is the overflow of the key.
unfoldable pub run_main :
    Amqp
    → Around
    → (String → ℕ)
    → Option Ini
    → ConfigManager
    → Server
    → List Call
    → Option (Server × List Call)
run_main amqp a bytes file m s t = do
  r ← add_local_media_config bytes file m
  let c = (get_media_config default_config r.0).0
  some (start_server amqp a r.0 c.mq_ip c.mq_port c.mq_user c.mq_psw s t)

-- The socket library calls `onclose` when a media connection is lost.
unfoldable pub onclose : ℕ → ℕ → Server → Option Server
onclose srvhandle clihandle s = do
  m ← disconnet_play_session clihandle s.sessions
  some (record s { sessions = m })

-- The body of the loop over the devices, for one that is not soft-deleted.
unfoldable pub report_one : Around → Platform → Server → Server
report_one a p s =
    let (text, n) = device_add_state a.texts p s.msg_id in
    let st = record (s.store) { platform_map = Dict.assign p.device_id p s.store.platform_map } in
    send text (record s { msg_id = n; store = st })

-- The loop.
unfoldable pub report : Around → List Platform → Server → Server
report a [] s = s
report a (p ∷ ps) s = let rest = report a ps (if p.soft_del then s else report_one a p s) in rest

unfoldable pub report_all : Around → Server → Server
report_all a s = report a s.store.platform_list s
