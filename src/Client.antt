-- ===== src/Client.antt =====
-- src/client_manage.h and src/client_manage.cpp: `client_manage`, the gateway's three connections to
-- the message broker: the public one, and one to receive and one to send business messages.
pub mod Send
pub mod Listen
pub mod Tests
use rundo_dahua_sdk_edge.Common.{
  ℕ, ◌+◌, Bool, true, false, List, [], ◌∷◌, ◌++◌, String, ◌==◌, if◌then◌else◌,
}
use rundo_dahua_sdk_edge.Mailbox.{wait}
use rundo_dahua_sdk_edge.Config.{ConfigManager, default_config, get_media_config}
use rundo_dahua_sdk_edge.Mq as Queue
use rundo_dahua_sdk_edge.Mq.{
  Amqp, Mq, MqRan, Call, connect, disconnect, disconnect_ex, exchange_declare_on,
}

pub record Client : Type 0 where
  pub client_type : ℕ  -- 1 is RabbitMQ, 2 is HTTP
  pub client_type_str : String
  pub public_mq : Mq  -- `objRabbitmq`
  pub recv_mq : Mq  -- `objDynamicRabbitmq_recv`
  pub send_mq : Mq  -- `objDynamicRabbitmq_send`
  pub dynamic_queuename : String
  pub dynamic_routekey : String
  pub dynamic_exchange : String
  pub republic : Bool
  pub business_msg_list : List String
  pub business_msg_list_ev : ℕ
  pub disconnet_ev : ℕ
  pub threads : Bool  -- whether the three threads have been made
  pub ip : String
  pub port : ℕ
  pub user : String
  pub pws : String

-- What a method leaves: its `bool`, the client, and the calls made.
pub record ClientRan : Type 0 where
  pub ret : Bool
  pub client : Client
  pub calls : List Call

-- `strExchange`, `strRoutekey` and `strQueuename`, `strRecvQueuename`
abbrev pub public_exchange : String
public_exchange = "PUBLIC"

abbrev pub public_routekey : String
public_routekey = "rundo.public.sg"

abbrev pub public_recv_queue : String
public_recv_queue = "rundo.public.gs"

unfoldable pub set_client_type : ℕ → Client → Client
set_client_type type c =
    let str = if type == 1 then "rabbitMQ" else (if type == 2 then "http" else c.client_type_str) in
    record c { client_type_str = str; client_type = type }

-- The members that `init_client` sets besides `republic`.
pub record Settings : Type 0 where
  pub serial_num : String
  pub mq_listen_timeout : ℕ
  pub heartbeat_timeout : ℕ

unfoldable pub init_client : ConfigManager → Client → Client × Settings
init_client m c =
    let k = (get_media_config default_config m).0 in
    (
      record c { republic = false },
      record {
        serial_num = k.media_server_id;
        mq_listen_timeout = k.mq_listen_timeout;
        heartbeat_timeout = k.heartbeat_timeout;
      },
    )

-- Connect and declare the exchange, whatever comes of the first: the code logs both results and goes on.
unfoldable pub reopen :
    Amqp → String → ℕ → String → String → String → String → Bool → Mq → List Call → Mq × List Call
reopen amqp ip port user pws exchange type durable m t =
    let k = connect amqp ip port user pws m t in
    let e = exchange_declare_on amqp exchange type durable k.mq k.calls in (e.mq, e.calls)

unfoldable pub connet_public : Amqp → String → ℕ → String → String → Client → List Call → ClientRan
connet_public amqp ip port user pws c t =
    let (m, t₁) = reopen amqp ip port user pws public_exchange "direct" false c.public_mq t in
    let kept = record c { ip = ip; port = port; user = user; pws = pws } in
    if c.client_type == 1
    then record { ret = true; client = record kept { public_mq = m }; calls = t₁ }
    else record { ret = true; client = kept; calls = t }

unfoldable pub connet_business :
    Amqp → String → ℕ → String → String → Client → List Call → ClientRan
connet_business amqp ip port user pws c t =
    let (m₁, t₁) = reopen amqp ip port user pws c.dynamic_exchange "topic" true c.recv_mq t in
    let (m₂, t₂) = reopen amqp ip port user pws c.dynamic_exchange "topic" true c.send_mq t₁ in
    if c.client_type == 1
    then record {
      ret = true;
      client = record c { recv_mq = m₁; send_mq = m₂; threads = true };
      calls = t₂;
    }
    else record { ret = true; client = record c { threads = true }; calls = t }

unfoldable pub disconnet_public : Amqp → Client → List Call → Client × List Call
disconnet_public amqp c t =
    let d = disconnect amqp c.public_mq t in
    if c.client_type == 1 then (record c { public_mq = d.mq }, d.calls) else (c, t)

unfoldable pub disconnet_business : Amqp → Client → List Call → Client × List Call
disconnet_business amqp c t =
    let d₁ = disconnect amqp c.recv_mq t in
    let d₂ = disconnect amqp c.send_mq d₁.calls in
    if c.client_type == 1 then (record c { recv_mq = d₁.mq; send_mq = d₂.mq }, d₂.calls) else (c, t)

unfoldable pub reconnet_public :
    Amqp → String → ℕ → String → String → Client → List Call → ClientRan
unfolding disconnet_public connet_public
reconnet_public amqp ip port user pws c t =
    let (c₁, t₁) = disconnet_public amqp c t in connet_public amqp ip port user pws c₁ t₁

-- The end of `restart_business_queue`, before it listens again: a new receiving connection.
unfoldable pub restart_business_queue : Amqp → Client → List Call → Client × List Call
restart_business_queue amqp c t =
    let d = disconnect amqp c.recv_mq t in
    let (m, t₁) =
      reopen amqp c.ip c.port c.user c.pws c.dynamic_exchange "topic" true d.mq d.calls in
    (record c { recv_mq = m }, t₁)

-- Both connections for business messages are tried; the results are only logged.
unfoldable pub check_channel_statu : Amqp → Client → List Call → Bool × List Call
check_channel_statu amqp c t =
    let r = Queue.check_channel_statu amqp c.recv_mq t in
    let s = Queue.check_channel_statu amqp c.send_mq r.1 in (false, s.1)

-- One round of `disconnet_func`, from the return of its wait.
unfoldable pub disconnect_round : Amqp → Client → List Call → Client × List Call
unfolding wait
disconnect_round amqp c t =
    let (m, t₁) = disconnect_ex amqp c.send_mq t in
    (record c { send_mq = m; disconnet_ev = wait c.disconnet_ev }, t₁)
