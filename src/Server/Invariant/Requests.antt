-- ===== src/Server/Invariant/Requests.antt =====
-- What every history of requests keeps.
use rundo_dahua_sdk_edge.Common.{
  Each, ℕ, ◌+◌, ◌^◌, ◌<◌, List, [], ◌∷◌, String, arith, chain-Each, length,
}
use rundo_dahua_sdk_edge.Server.{Server, Around}
use rundo_dahua_sdk_edge.Server.Devices.{device_total_sync, confirm}
use rundo_dahua_sdk_edge.Server.Dispatch.{handle_msg, handle_msg-elim, handle_all}
use rundo_dahua_sdk_edge.Server.Invariant.{IsValid, Within}
use rundo_dahua_sdk_edge.Server.Invariant.Handlers.{
  send-Within, later, device_add-Within, channel_sync-Within, device_delete_soft-Within,
  channel_ptz_control-Within, channel_ptz_preset-Within, channel_play-Within,
  channel_record_info-Within, channel_playback-Within, channel_stop_play-Within,
  device_record_pause-Within, device_record_resume-Within, device_record_speed-Within,
}

module _ (a : Around) (msg : String) (u : ℕ) (room : u + 1 < 2 ^ 64) where
  handle_msg-Within : (s : Server) → Within u s → Each (Within (u + 1)) (handle_msg a msg s)
  unfolding device_total_sync confirm
  handle_msg-Within s v =
      let w = later u s v in
      handle_msg-elim (Each (Within (u + 1))) a msg s (λ i. device_add-Within a msg u room s v)
        (λ i. channel_sync-Within a msg u room s v) (λ i. send-Within (u + 1) _ s w)
        (λ n msg_type l h i. send-Within (u + 1) _ s w)
        (λ i. later u _ (device_delete_soft-Within a msg u room s v))
        (λ i. channel_ptz_control-Within a msg u room s v)
        (λ i. channel_ptz_preset-Within a msg u room s v)
        (λ i. channel_play-Within a msg u room s v)
        (λ i. channel_record_info-Within a msg u room s v)
        (λ i. channel_playback-Within a msg u room s v)
        (λ i. later u _ (channel_stop_play-Within a msg u room s v))
        (λ i. device_record_pause-Within a msg u room s v)
        (λ i. device_record_resume-Within a msg u room s v)
        (λ i. device_record_speed-Within a msg u room s v) w

handle_all-Within :
    (rs : List (Around × String)) (u : ℕ) (s : Server)
    → u + length rs < 2 ^ 64
    → Within u s
    → Each IsValid (handle_all rs s)
unfolding handle_all
handle_all-Within [] u s room v = v.0
handle_all-Within ((a, msg) ∷ rs) u s room v =
    chain-Each (Within (u + 1)) IsValid (handle_msg a msg s) (handle_all rs)
      (λ s₁. handle_all-Within rs (u + 1) s₁ (omega arith))
      (handle_msg-Within a msg u (omega arith) s v)

-- Whatever requests are handled, in any order and with any answers of the SDK, and until the 64-bit
-- counter of logins wraps, a valid server stays valid: each session stands under its own stream id,
-- the map of devices agrees with the list that is saved, and each kept login has a handle that is not 0.
pub handle_all-IsValid :
    (rs : List (Around × String)) (s : Server)
    → s.equipment.uid + length rs < 2 ^ 64
    → IsValid s
    → Each IsValid (handle_all rs s)
handle_all-IsValid rs s room v = handle_all-Within rs s.equipment.uid s room (v, omega arith)
