-- ===== src/Server/Deletions.antt =====
-- src/server_manage.cpp: what the deletion handlers and the stop handler leave.
use mathlib.Core.List.{append_assoc}
use rundo_dahua_sdk_edge.Common.{
  ◌≡◌, refl, [], ◌∷◌, ◌++◌, String, none, some, str_eq, if◌then◌else◌, arith,
}
use rundo_dahua_sdk_edge.Common.Dict
use rundo_dahua_sdk_edge.Platforms.Synced.{IsSynced, softened, del_platform-IsSynced}
use rundo_dahua_sdk_edge.Gateway.{Members, object, document, object_at, text_at, text_or}
use rundo_dahua_sdk_edge.Gateway.Requests.{pars_channel_stop_play}
use rundo_dahua_sdk_edge.Gateway.Replies.{response}
use rundo_dahua_sdk_edge.Client.Send.{send_business_queue_ex}
use rundo_dahua_sdk_edge.Streams.Stop.{stop_play-sessions}
use rundo_dahua_sdk_edge.Server.{Server, Around, send}
use rundo_dahua_sdk_edge.Server.Devices.{named, confirm, device_delete_soft, device_delete_recover}
use rundo_dahua_sdk_edge.Server.Media.{channel_stop_play, put}

-- A soft delete marks the named device and queues a response with code 0, also for an id that is not
-- known. A recovery that follows queues such a response too, and the device stays marked.
pub device_delete_recover_lem :
    (a : Around) (del back : String) (s : Server) (j : String)
    → IsSynced s.store
    → let s₁ = device_delete_soft a del s in
      let s₂ = device_delete_recover a back s₁ in
      let answer = response a.texts in
      (Dict.find j s₂.store.platform_map
        ≡ softened (named a del).device_id j (Dict.find j s.store.platform_map))
      × (s₂.client.business_msg_list
          ≡ s.client.business_msg_list
            ++ answer (named a del).msg_id 0 "DEVICE_DELETE_SOFT"
              ∷ answer (named a back).msg_id 0 "DEVICE_DELETE_RECOVER"
              ∷ [])
unfolding device_delete_soft device_delete_recover confirm send send_business_queue_ex
device_delete_recover_lem a del back s j v = (
  (del_platform-IsSynced a.can_open a.codec (named a del).device_id j s.store v).1,
  append_assoc s.client.business_msg_list _ _,
)

-- A stop request whose document names a stream frees that stream's id and leaves every other session
-- as it was, and the devices and the client with them.
pub channel_stop_play-sessions :
    (a : Around) (json k : String) (ms data' : Members) (s : Server) (j : String)
    → a.parse json ≡ some (object ms)
    → object_at "data" ms ≡ some data'
    → text_at "streamId" data' ≡ some k
    → let s' = channel_stop_play a json s in
      (Dict.find j s'.sessions ≡ (if str_eq k j then none else Dict.find j s.sessions))
      × (s'.store ≡ s.store)
      × (s'.client ≡ s.client)
unfolding channel_stop_play put pars_channel_stop_play document text_or
channel_stop_play-sessions a json k ms data' s j p d t =
    (ground (arith, stop_play-sessions a.sdk k s.sessions s.calls j), refl, refl)
