-- ===== src/Gateway/Tests.antt =====
-- The theorem on channel ids, applied to the third channel of a device.
use rundo_dahua_sdk_edge.Common.{◌≡◌, refl}
use rundo_dahua_sdk_edge.Gateway.Channels.{
  channel_of, channel_id, IsPlain, after_hash, channel_of-channel_id,
}

device-IsPlain : IsPlain "d1"
unfolding IsPlain after_hash
device-IsPlain = refl

number-IsPlain : IsPlain "3"
unfolding IsPlain after_hash
number-IsPlain = refl

channel_of-channel_id_example : channel_of (λ s. 3) (channel_id (λ n. "3") "d1" 3) 0 ≡ 3
channel_of-channel_id_example =
    channel_of-channel_id (λ s. 3) (λ n. "3") "d1" 3 0 device-IsPlain number-IsPlain refl
