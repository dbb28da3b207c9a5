-- ===== src/Ptz/Control.antt =====
-- What `ptz_control` sends and remembers.
use rundo_dahua_sdk_edge.Common.{ℕ, ◌≡◌, true, false, List, ◌∷◌, ltb, arith, if◌then◌else◌}
use rundo_dahua_sdk_edge.Sdk.{Sdk, Call, ptz_control_ex, dhsdk_get_last_error}
use rundo_dahua_sdk_edge.Ptz.{Command, PtzCmd, is_preset, is_stop, cmd_of, ptz_control}

-- A stop that follows a movement stops that very movement, on the channel and with the speed (8 at
-- most) of the stop request, and leaves it remembered.
pub ptz_control_stop :
    (sdk : Sdk) (code : Command → ℕ) (handle : ℕ) (move stop : PtzCmd) (temp : ℕ) (t : List Call)
    → is_preset move.contrl_cmd ≡ false
    → is_stop move.contrl_cmd ≡ false
    → is_stop stop.contrl_cmd ≡ true
    → let first = ptz_control sdk code handle move temp t in
      let second = ptz_control sdk code handle stop first.temp_ptz_cmd first.calls in
      (second.calls
        ≡ ptz_control_ex handle stop.channel
            (cmd_of code move.contrl_cmd)
            (if ltb 8 stop.contrl_param then 8 else stop.contrl_param)
            true
          ∷ first.calls)
      × (second.temp_ptz_cmd ≡ cmd_of code move.contrl_cmd)
unfolding ptz_control
ptz_control_stop sdk code handle move stop temp t a b c = ground arith

-- A movement returns 0 and is remembered even when the SDK refuses it, and a stop returns 0 and keeps
-- what is remembered; a preset command returns 0 or the SDK's error, and the remembered command stays.
pub ptz_control-ret :
    (sdk : Sdk) (code : Command → ℕ) (handle : ℕ) (ptz : PtzCmd) (temp : ℕ) (t : List Call)
    → let r = ptz_control sdk code handle ptz temp t in
      let sent =
        ptz_control_ex handle ptz.channel (cmd_of code ptz.contrl_cmd) ptz.contrl_param false in
      (r.ret ≡ (
        if is_preset ptz.contrl_cmd
        then (if sdk.accepts t sent then 0 else dhsdk_get_last_error sdk (sent ∷ t))
        else 0))
      × (r.temp_ptz_cmd ≡ (
          if is_preset ptz.contrl_cmd
          then temp
          else (if is_stop ptz.contrl_cmd then temp else cmd_of code ptz.contrl_cmd)))
unfolding ptz_control
ptz_control-ret sdk code handle ptz temp t = ground arith
