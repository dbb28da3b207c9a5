-- ===== src/Server/Dispatch.antt =====
-- src/server_manage.cpp, `handle_msg_func`: the task that the dispatcher hands to the thread pool for
-- each request, and any number of them, one after the other.
use rundo_dahua_sdk_edge.Common.{
  ℕ, ◌≡◌, refl, ◌≤◌, arith, Bool, true, false, List, [], ◌∷◌, String, Option, some, ◌>>=◌, ◌==◌,
  if◌then◌else◌,
}
use rundo_dahua_sdk_edge.Gateway.{get_msg_type}
use rundo_dahua_sdk_edge.Server.{Server, Around}
use rundo_dahua_sdk_edge.Server.Devices.{
  channel_sync, confirm, device_add, device_total_sync, device_delete, device_delete_soft,
  device_delete_recover, channel_delete_soft, channel_delete_recover,
}
use rundo_dahua_sdk_edge.Server.Media.{
  channel_ptz_control, channel_ptz_preset, channel_record_info, channel_play, channel_playback,
  channel_stop_play, device_record_pause, device_record_resume, device_record_speed,
}

-- The `switch`. GATEWAY_SIGN_IN has an empty handler, and CHANNEL_3D_OPERATION none.
unfoldable pub handle_msg : Around → String → Server → Option Server
handle_msg a msg s =
    let type = get_msg_type a.parse msg in
    if type == 2
    then some (device_add a msg s)
    else if type == 3
    then some (channel_sync a msg s)
    else if type == 4
    then some (device_total_sync a msg s)
    else if type == 5
    then some (device_delete a msg s)
    else if type == 6
    then some (device_delete_soft a msg s)
    else if type == 7
    then some (device_delete_recover a msg s)
    else if type == 8
    then some (channel_delete_soft a msg s)
    else if type == 9
    then some (channel_delete_recover a msg s)
    else if type == 10
    then channel_ptz_control a msg s
    else if type == 11
    then channel_ptz_preset a msg s
    else if type == 13
    then channel_play a msg s
    else if type == 14
    then channel_record_info a msg s
    else if type == 15
    then channel_playback a msg s
    else if type == 16
    then some (channel_stop_play a msg s)
    else if type == 17
    then device_record_pause a msg s
    else if type == 18
    then device_record_resume a msg s
    else if type == 19
    then device_record_speed a msg s
    else some s

-- Requests in the order in which they are handled, each with what it meets.
unfoldable pub handle_all : List (Around × String) → Server → Option Server
handle_all [] s = some s
handle_all ((a, msg) ∷ rs) s = do s₁ ← handle_msg a msg s; handle_all rs s₁

if-pick :
    {A : Type 0} (Q : A → Type 0) (b : Bool) {x y : A}
    → (b ≡ true → Q x)
    → Q y
    → Q (if b then x else y)
if-pick Q true p q = p refl
if-pick Q false p q = q

abbrev pub Is : Around → String → ℕ → Type 0
Is a msg n = (get_msg_type a.parse msg == n) ≡ true

-- What holds of every handler's result, for the types that it is called for, holds of the dispatch.
pub handle_msg-elim :
    (Q : Option Server → Type 0) (a : Around) (msg : String) (s : Server)
    → (Is a msg 2 → Q (some (device_add a msg s)))
    → (Is a msg 3 → Q (some (channel_sync a msg s)))
    → (Is a msg 4 → Q (some (device_total_sync a msg s)))
    → ((n : ℕ) (msg_type : String)
        → 5 ≤ n
        → n ≤ 9
        → Is a msg n
        → Q (some (confirm a msg_type msg s)))
    → (Is a msg 6 → Q (some (device_delete_soft a msg s)))
    → (Is a msg 10 → Q (channel_ptz_control a msg s))
    → (Is a msg 11 → Q (channel_ptz_preset a msg s))
    → (Is a msg 13 → Q (channel_play a msg s))
    → (Is a msg 14 → Q (channel_record_info a msg s))
    → (Is a msg 15 → Q (channel_playback a msg s))
    → (Is a msg 16 → Q (some (channel_stop_play a msg s)))
    → (Is a msg 17 → Q (device_record_pause a msg s))
    → (Is a msg 18 → Q (device_record_resume a msg s))
    → (Is a msg 19 → Q (device_record_speed a msg s))
    → Q (some s)
    → Q (handle_msg a msg s)
unfolding handle_msg device_delete device_delete_recover channel_delete_soft channel_delete_recover
handle_msg-elim Q a msg s add sync total done soft ptz preset play info back stop pause resume speed
      same =
    let is : ℕ → Bool = λ n. get_msg_type a.parse msg == n in
    if-pick Q (is 2) add (
      if-pick Q (is 3) sync (
        if-pick Q (is 4) total (
          if-pick Q (is 5) (done 5 "DEVICE_DELETE" (omega arith) (omega arith)) (
            if-pick Q (is 6) soft (
              if-pick Q (is 7) (done 7 "DEVICE_DELETE_RECOVER" (omega arith) (omega arith)) (
                if-pick Q (is 8) (done 8 "CHANNEL_DELETE_SOFT" (omega arith) (omega arith)) (
                  if-pick Q (is 9) (done 9 "CHANNEL_DELETE_RECOVER" (omega arith) (omega arith)) (
                    if-pick Q (is 10) ptz (
                      if-pick Q (is 11) preset (
                        if-pick Q (is 13) play (
                          if-pick Q (is 14) info (
                            if-pick Q (is 15) back (
                              if-pick Q (is 16) stop (
                                if-pick Q (is 17) pause (
                                  if-pick Q (is 18) resume
                                    (if-pick Q (is 19) speed same))))))))))))))))
