-- ===== src/Ptz.antt =====
-- src/sdk_wrap.cpp, `sdk_wrap::ptz_control`. The numbers of the SDK's commands (dhnetsdk.h) are not
-- part of the repository: `code` gives them.
pub mod Control
pub mod Tests
use rundo_dahua_sdk_edge.Common.{
  ℕ, Bool, true, false, not, List, ◌∷◌, String, Option, none, some, ◌==◌, ◌||◌, ltb, if◌then◌else◌,
}
use rundo_dahua_sdk_edge.Sdk.{Sdk, Call, ptz_control_ex, dhsdk_get_last_error}

pub data Command : Type 0 where
  up down left right left_top right_top left_down right_down : Command
  aperture_dec aperture_add zoom_dec zoom_add focus_dec focus_add : Command
  point_move point_set point_del : Command

-- `PtzCMD`
pub record PtzCmd : Type 0 where
  pub channel : ℕ
  pub contrl_cmd : ℕ
  pub contrl_param : ℕ
  pub dw_stop : Bool

-- `XH_TO_DH_PTZBASECMD`
unfoldable pub command_of : ℕ → Option Command
command_of n =
    if n == 8
    then some up
    else if n == 4
    then some down
    else if n == 2
    then some left
    else if n == 1
    then some right
    else if n == 10
    then some left_top
    else if n == 9
    then some right_top
    else if n == 6
    then some left_down
    else if n == 5
    then some right_down
    else if n == 72
    then some aperture_dec
    else if n == 68
    then some aperture_add
    else if n == 32
    then some zoom_dec
    else if n == 16
    then some zoom_add
    else if n == 65
    then some focus_dec
    else if n == 66
    then some focus_add
    else if n == 130
    then some point_move
    else if n == 129
    then some point_set
    else if n == 131
    then some point_del
    else none

-- What a call leaves: its `int`, `temp_ptz_cmd`, and the calls made.
pub record PtzRan : Type 0 where
  pub ret : ℕ
  pub temp_ptz_cmd : ℕ
  pub calls : List Call

unfoldable pub is_preset : ℕ → Bool
is_preset n = (n == 130) || ((n == 129) || (n == 131))

unfoldable pub is_stop : ℕ → Bool
is_stop n = (n == 0) || (n == 64)

-- `cmd`, before a stop replaces it.
unfoldable pub cmd_of : (Command → ℕ) → ℕ → ℕ
cmd_of code n = elim (command_of n) [ none ↦ 0 | some c ↦ code c ]

unfoldable pub ptz_control : Sdk → (Command → ℕ) → ℕ → PtzCmd → ℕ → List Call → PtzRan
unfolding is_preset is_stop
ptz_control sdk code handle ptz temp t =
    let preset =
      ptz_control_ex handle ptz.channel (cmd_of code ptz.contrl_cmd) ptz.contrl_param false in
    let cmd = if is_stop ptz.contrl_cmd then temp else cmd_of code ptz.contrl_cmd in
    let stop = if is_stop ptz.contrl_cmd then true else ptz.dw_stop in
    let param = if ltb 8 ptz.contrl_param then 8 else ptz.contrl_param in
    let move = ptz_control_ex handle ptz.channel cmd param stop in
    if is_preset ptz.contrl_cmd
    then record {
      ret = if sdk.accepts t preset then 0 else dhsdk_get_last_error sdk (preset ∷ t);
      temp_ptz_cmd = temp;
      calls = preset ∷ t;
    }
    else record { ret = 0; temp_ptz_cmd = cmd; calls = move ∷ t }
