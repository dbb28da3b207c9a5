-- ===== src/Session/Send.antt =====
-- `PlaySession::sendMS`: packets are framed for RTP over TCP and gathered in a buffer of 64 KiB that
-- is written to the media server. `none` is a `memcpy` past the end of the buffer.
pub mod Stream
pub mod Bounds
pub mod Overflow
pub mod Frames
use rundo_dahua_sdk_edge.Common.{
  ℕ, ◌+◌, ◌-◌, ◌*◌, ◌/◌, ◌%◌, ◌^◌, Bool, true, false, not, ◌&&◌, List, [], ◌∷◌, ◌++◌, Option, none,
  some, length, ltb, ◌==◌, if◌then◌else◌,
}
use rundo_dahua_sdk_edge.Sdk.{Sdk, Call, ms_write}
use rundo_dahua_sdk_edge.Session.{PlaySession, Ran}

-- `MaxGB28181RtpSendVideoMediaBufferLength`
abbrev pub buffer_size : ℕ
buffer_size = 1024 * 64

-- `GB28181VideoStartTimestampFlag`
abbrev pub start_timestamp_flag : ℕ
start_timestamp_flag = 0xEFEFEFEF

-- `'$'`, 0, and the 16-bit length in network order, before the packet.
unfoldable pub frame : List ℕ → List ℕ
frame packet = 0x24 ∷ 0 ∷ (length packet / 256 % 256) ∷ (length packet % 256) ∷ packet

-- `XHNetSDK_Write` of the whole buffer. When it fails the session stops and forgets its connection.
unfoldable pub flush : Sdk → PlaySession → List Call → Ran
flush sdk s t =
    let c = ms_write s.media_client s.buffer in
    if sdk.code t c == 0
    then record { ret = 0; session = record s { buffer = [] }; calls = c ∷ t }
    else record {
      ret = sdk.code t c;
      session = record s { is_run = false; media_client = 0 };
      calls = c ∷ t;
    }

-- The first test: too little room is left. The subtraction is of `int`s and the comparison of
-- `uint32_t`s, so both sides are taken modulo 2 ^ 32.
unfoldable pub is_full : ℕ → PlaySession → Bool
is_full n s =
    not (s.media_client == 0)
    && ltb ((s.max_buffer_length + 2 ^ 32 - length s.buffer) % 2 ^ 32) ((n + 4) % 2 ^ 32)
    && ltb 0 (length s.buffer)

-- The second test: the timestamp has moved on.
unfoldable pub is_new_frame : PlaySession → Bool
is_new_frame s =
    not (s.media_client == 0)
    && not (s.start_video_timestamp == start_timestamp_flag)
    && not (s.start_video_timestamp == s.current_video_timestamp)
    && ltb 0 (length s.buffer)

unfoldable pub flush_if : Bool → Sdk → PlaySession → List Call → Ran
flush_if b sdk s t = if b then flush sdk s t else record { ret = 0; session = s; calls = t }

unfoldable pub tick : PlaySession → PlaySession
tick s = record s { current_video_timestamp = (s.current_video_timestamp + 1) % 2 ^ 32 }

-- The copy of the header and the packet behind what the buffer holds.
unfoldable pub append : List ℕ → PlaySession → List Call → Option Ran
append packet s t =
    if ltb buffer_size (length s.buffer + length packet + 4)
    then none
    else some (record {
      ret = 0;
      session = record s {
        buffer = s.buffer ++ frame packet;
        start_video_timestamp = s.current_video_timestamp;
      };
      calls = t;
    })

unfoldable pub send_ms : Sdk → List ℕ → PlaySession → List Call → Option Ran
send_ms sdk packet s t =
    let r₁ = flush_if (is_full (length packet) s) sdk s t in
    let s₁ = tick r₁.session in
    let r₂ = flush_if (is_new_frame s₁) sdk s₁ r₁.calls in
    if not s.is_run
    then some (record { ret = 0; session = s; calls = t })
    else (if not (r₁.ret == 0)
        then some r₁
        else (if not (r₂.ret == 0) then some r₂ else append packet r₂.session r₂.calls))

-- The packer hands its packets over one by one.
unfoldable pub send_all :
    Sdk → List (List ℕ) → PlaySession → List Call → Option (PlaySession × List Call)
send_all sdk [] s t = some (s, t)
send_all sdk (p ∷ ps) s t = elim (send_ms sdk p s t) [
  | none ↦ none
  | some r ↦ send_all sdk ps r.session r.calls
]
