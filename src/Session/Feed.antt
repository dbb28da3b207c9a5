-- ===== src/Session/Feed.antt =====
-- src/PlaySession.cpp: from the SDK's data callbacks to `sendMS`. The two packers (rtppacket.h and
-- libmpeg's `ps_muxer`) are not part of the repository: what they make of an input is an unknown
-- function of all their inputs, newest first. `none` is undefined behaviour, other than that of
-- `ps_alloc`, which gives the muxer the pointer `s_buffer` that nothing sets.
pub mod Stream
mod Tests
use rundo_dahua_sdk_edge.Common.{
  ℕ, zero, suc, ◌+◌, ◌/◌, ◌%◌, ◌^◌, Bool, true, false, not, ◌&&◌, List, [], ◌∷◌, Option, none, some,
  ◌==◌, ◌>>=◌, if◌then◌else◌,
}
use rundo_dahua_sdk_edge.Sdk.{Sdk, Call}
use rundo_dahua_sdk_edge.Session.{PlaySession}
use rundo_dahua_sdk_edge.Session.Send.{send_ms}

pub record Packers : Type 0 where
  pub rtp : List (List ℕ) → List (List ℕ)  -- `rtp_packet_input`: the packets that it hands on
  pub ps : List (ℕ × List ℕ) → List (List ℕ)  -- `ps_muxer_input`: the blocks that it writes

-- A session with the members that only the callbacks use, and what the packers were given.
pub record Feed : Type 0 where
  pub session : PlaySession
  pub is_first : Bool  -- `_is_frist`
  pub video_pts : ℕ
  pub source_stream_count : ℕ
  pub rtp_inputs : List (List ℕ)
  pub ps_inputs : List (ℕ × List ℕ)
  pub calls : List Call

-- `update_source_stream`, without the time that it notes for the log.
unfoldable pub update_source_stream : Feed → Feed
update_source_stream f = record f { source_stream_count = (f.source_stream_count + 1) % 2 ^ 32 }

-- `GB28181RtpServer_rtp_packet_callback_func_send`: the result of `sendMS` is not used.
unfoldable pub rtp_callback : Sdk → List ℕ → Feed → Option Feed
unfolding update_source_stream
rtp_callback sdk packet f = if not f.session.is_run then some f else (do
  r ← send_ms sdk packet f.session f.calls
  some (record (update_source_stream f) { session = r.session; calls = r.calls }))

-- The packer hands its packets over one by one.
unfoldable pub rtp_callbacks : Sdk → List (List ℕ) → Feed → Option Feed
rtp_callbacks sdk [] f = some f
rtp_callbacks sdk (p ∷ ps) f = do f₁ ← rtp_callback sdk p f; rtp_callbacks sdk ps f₁

unfoldable pub ps_to_rtp : Sdk → Packers → List ℕ → Feed → Option Feed
ps_to_rtp sdk x bytes f =
    let inputs = bytes ∷ f.rtp_inputs in
    if f.session.rtp_handle == 0
    then some f
    else rtp_callbacks sdk (x.rtp inputs) (record f { rtp_inputs = inputs })

unfoldable pub ps_write : Sdk → Packers → List ℕ → Feed → Option Feed
ps_write sdk x bytes f = if f.session.is_run then ps_to_rtp sdk x bytes f else some f

unfoldable pub ps_writes : Sdk → Packers → List (List ℕ) → Feed → Option Feed
ps_writes sdk x [] f = some f
ps_writes sdk x (b ∷ bs) f = do f₁ ← ps_write sdk x b f; ps_writes sdk x bs f₁

unfoldable pub es_to_ps : Sdk → Packers → List ℕ → Feed → Option Feed
es_to_ps sdk x bytes f =
    let inputs = (f.video_pts, bytes) ∷ f.ps_inputs in
    if f.session.ps_muxer == 0 then some f else (do
      f₁ ← ps_writes sdk x (x.ps inputs) (record f { ps_inputs = inputs })
      some (record f₁ { video_pts = (f₁.video_pts + 90000 / 25) % 2 ^ 64 }))

-- `NET_DATA_CALL_BACK_VALUE` plus a type, of which the callbacks know two.
pub data DataType : Type 0 where
  h264 gbps other : DataType

-- `pBuffer[i]`
unfoldable pub byte_at : ℕ → List ℕ → Option ℕ
byte_at i [] = none
byte_at zero (b ∷ bs) = some b
byte_at (suc i) (b ∷ bs) = byte_at i bs

-- An elementary stream is packed; the first sequence parameter set is remembered.
unfoldable pub h264_data : Sdk → Packers → List ℕ → Feed → Option (Bool × Feed)
h264_data sdk x bytes f = do
  b ← byte_at 4 bytes
  f₁ ← es_to_ps sdk x bytes f
  some (
    (b == 0x67) && f.is_first,
    if (b == 0x67) && f.is_first then record f₁ { is_first = false } else f₁,
  )

-- `RecordDataCallbackEx2`: its `int`, or `none` where the function ends without a `return`.
unfoldable pub record_data_callback :
    Sdk → Packers → DataType → List ℕ → Feed → Option (Option ℕ × Feed)
unfolding h264_data
record_data_callback sdk x h264 bytes f = do
  (first, f₁) ← h264_data sdk x bytes f
  some (if first then some 0 else none, f₁)
record_data_callback sdk x gbps bytes f = do f₁ ← ps_to_rtp sdk x bytes f; some (some 0, f₁)
record_data_callback sdk x other bytes f = some (none, f)

-- `RealDataCallbackEx`
unfoldable pub real_data_callback : Sdk → Packers → DataType → List ℕ → Feed → Option Feed
unfolding h264_data
real_data_callback sdk x h264 bytes f = do r ← h264_data sdk x bytes f; some r.1
real_data_callback sdk x gbps bytes f = ps_to_rtp sdk x bytes f
real_data_callback sdk x other bytes f = some f
