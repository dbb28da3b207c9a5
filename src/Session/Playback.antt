-- ===== src/Session/Playback.antt =====
-- Playback control of `PlaySession`: pause, seek, direction, speed, and the download calls.
use rundo_dahua_sdk_edge.Common.{
  ℕ, zero, suc, ◌+◌, ◌-◌, ◌/◌, ◌%◌, ◌^◌, Bool, true, false, not, List, ◌∷◌, String, ◌==◌,
  if◌then◌else◌,
}
use rundo_dahua_sdk_edge.Sdk.{
  Sdk, Call, pause_play_back, seek_play_back, play_back_direction, fast_play_back, slow_play_back,
  normal_play_back, set_device_mode, record_stream_type, record_type_all, download_by_time,
  get_download_pos, dhsdk_get_last_error,
}
use rundo_dahua_sdk_edge.Session.{PlaySession, Ran, StreamType, stream_mode, float_one}

-- The result of a library call that changes nothing of the session if it is refused.
abbrev answered : Sdk → Call → List Call → PlaySession → PlaySession → Ran
answered sdk c t done undone =
    if sdk.accepts t c
    then record { ret = 0; session = done; calls = c ∷ t }
    else record { ret = dhsdk_get_last_error sdk (c ∷ t); session = undone; calls = c ∷ t }

-- `pausePlayBack`: a refusal negates the flag that was just set.
unfoldable pub pause_play_back_session : Sdk → Bool → PlaySession → List Call → Ran
pause_play_back_session sdk b s t =
    answered sdk (pause_play_back s.record_play_handle b) t (record s { pause = b })
      (record s { pause = not b })

-- `seekPlayBack(const unsigned int&)`
unfoldable pub seek_session : Sdk → ℕ → PlaySession → List Call → Ran
seek_session sdk time s t = answered sdk (seek_play_back s.record_play_handle time) t s s

-- `seekPlayBack(const std::string&)`: `StringToDatetime` of the request and of `m_sStartTime`, which
-- nothing ever fills; the difference of the two `time_t` is cut to 32 bits.
unfoldable pub seek_session_to : Sdk → (String → ℕ) → String → PlaySession → List Call → Ran
seek_session_to sdk string_to_datetime time s t =
    seek_session sdk ((string_to_datetime time + 2 ^ 64 - string_to_datetime "") % 2 ^ 32) s t

unfoldable pub play_back_control_direction : Sdk → PlaySession → List Call → Ran
play_back_control_direction sdk s t =
    answered sdk (play_back_direction s.record_play_handle (not s.backward)) t
      (record s { backward = not s.backward }) (record s { backward = not (not s.backward) })

-- The machine's `float`, by bit patterns: conversion from `int`, the rounds of a loop from 0 up to the
-- `int` of a number, `==`, `>`, `*`, `/`, `sqrt`.
pub record Float : Type 0 where
  pub of_int : ℕ → ℕ
  pub to_int : ℕ → ℕ
  pub eq : ℕ → ℕ → Bool
  pub gt : ℕ → ℕ → Bool
  pub mul : ℕ → ℕ → ℕ
  pub div : ℕ → ℕ → ℕ
  pub sqrt : ℕ → ℕ

pub data SetSpeedType : Type 0 where
  slow_play normal_play fast_play : SetSpeedType

-- `setSpeed(int)`: `1 / 2 * m_nSpeed` divides integers first.
unfoldable pub set_speed_type : Sdk → Float → SetSpeedType → PlaySession → List Call → Ran
set_speed_type sdk f fast_play s t =
    answered sdk (fast_play_back s.record_play_handle) t
      (record s { speed = f.mul (f.of_int 2) s.speed }) s
set_speed_type sdk f slow_play s t =
    answered sdk (slow_play_back s.record_play_handle) t
      (record s { speed = f.mul (f.of_int (1 / 2)) s.speed }) s
set_speed_type sdk f normal_play s t =
    answered sdk (normal_play_back s.record_play_handle) t (record s { speed = float_one }) s

-- What the loops of `setSpeed(float)` carry: `DHRET`, `speed`, and the history.
pub record Tries : Type 0 where
  pub dhret : Bool
  pub speed : ℕ
  pub calls : List Call

-- `for (i = 0; i < n; ++i)`: call, leave the loop on success, set the speed otherwise.
unfoldable pub try_speed : Sdk → Call → ℕ → ℕ → Tries → Tries
try_speed sdk c next zero l = l
try_speed sdk c next (suc n) l =
    let rest =
      try_speed sdk c next n (record { dhret = false; speed = next; calls = c ∷ l.calls }) in
    if sdk.accepts l.calls c then record l { dhret = true; calls = c ∷ l.calls } else rest

-- The end of both overloads: keep the speed, or return the error.
set_if : Sdk → PlaySession → Tries → Ran
set_if sdk s l =
    if l.dhret
    then record { ret = 0; session = record s { speed = l.speed }; calls = l.calls }
    else record { ret = dhsdk_get_last_error sdk l.calls; session = s; calls = l.calls }

-- `setSpeed(float)`
unfoldable pub set_speed : Sdk → Float → ℕ → PlaySession → List Call → Ran
unfolding set_if
set_speed sdk f speed s t =
    let start : Tries = record { dhret = true; speed = speed; calls = t } in
    let normal = normal_play_back s.record_play_handle in
    let up = f.to_int (f.div (f.sqrt speed) (f.sqrt s.speed)) in
    let down = f.to_int (f.div (f.sqrt s.speed) (f.sqrt speed)) in
    if f.eq float_one speed
    then set_if sdk s (record { dhret = sdk.accepts t normal; speed = speed; calls = normal ∷ t })
    else (if f.gt speed s.speed
        then set_if sdk s (
            try_speed sdk (fast_play_back s.record_play_handle) (f.mul (f.of_int 2) s.speed) up
              start)
        else set_if sdk s (
            try_speed sdk (slow_play_back s.record_play_handle) (f.mul (f.of_int (1 / 2)) s.speed)
              down start))

-- `startDownloadPlaySession`, over the two times of the session.
unfoldable pub start_download_play_session : Sdk → StreamType → PlaySession → List Call → Ran
start_download_play_session sdk kind s t =
    let mode = set_device_mode s.login_id (record_stream_type (stream_mode kind)) in
    let t₁ = mode ∷ t in
    let files = set_device_mode s.login_id record_type_all in
    let t₂ = files ∷ t₁ in
    let down = download_by_time s.login_id s.channel s.start_time s.stop_time in
    let h = sdk.opens t₂ down in
    if not (sdk.accepts t mode)
    then record { ret = dhsdk_get_last_error sdk t₁; session = s; calls = t₁ }
    else (if not (sdk.accepts t₁ files)
        then record { ret = dhsdk_get_last_error sdk t₂; session = s; calls = t₂ }
        else record {
          ret = if h == 0 then dhsdk_get_last_error sdk (down ∷ t₂) else 0;
          session = record s { download_handle = h };
          calls = down ∷ t₂;
        })

unfoldable pub pause_download : Bool → PlaySession → PlaySession
pause_download b s = record s { download_pause = b }

-- `getPos` returns 0 on each of its paths, and keeps the position that it asked for to itself.
unfoldable pub get_pos : Sdk → PlaySession → List Call → Ran
get_pos sdk s t =
    if s.download_handle == 0
    then record { ret = 0; session = s; calls = t }
    else record { ret = 0; session = s; calls = get_download_pos s.download_handle ∷ t }
