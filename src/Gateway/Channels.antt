-- ===== src/Gateway/Channels.antt =====
-- src/gateway_msg.cpp: a channel is named by the device's id, '#', and the channel's number.
use Prim.Native.Char.{Char, code}
use Prim.Native.String.append
use Prim.Native.String.{◌++◌}
use rundo_dahua_sdk_edge.Common.{
  ℕ, ◌≡◌, refl, String, Option, none, some, ◌==◌, if◌then◌else◌, arith,
}

-- The text before the first '#', the whole text where there is none.
unfoldable pub before_hash : String → String
before_hash String.[] = ""
before_hash (String.◌∷◌ c s) =
    let rest = String.◌∷◌ c (before_hash s) in if code c == b'#' then "" else rest

-- The text behind the first '#'.
unfoldable pub after_hash : String → Option String
after_hash String.[] = none
after_hash (String.◌∷◌ c s) = let rest = after_hash s in if code c == b'#' then some s else rest

-- `boost::split` at '#': `tokens[1]`, where there are two tokens or more.
unfoldable pub second_token : String → Option String
second_token s = elim (after_hash s) [ none ↦ none | some rest ↦ some (before_hash rest) ]

-- `if (tokens.size() >= 2) channel = atoi(tokens[1].c_str())`, over what the member held.
unfoldable pub channel_of : (String → ℕ) → String → ℕ → ℕ
channel_of atoi id old = elim (second_token id) [ none ↦ old | some s ↦ atoi s ]

-- `deviceId + "#" + std::to_string(id)`
unfoldable pub channel_id : (ℕ → String) → String → ℕ → String
channel_id to_string device_id id = device_id ++ ("#" ++ to_string id)

-- No '#' in a text.
unfoldable pub IsPlain : String → Type 0
IsPlain s = after_hash s ≡ none

before_hash_plain : (s : String) → IsPlain s → before_hash s ≡ s
unfolding before_hash IsPlain after_hash
before_hash_plain String.[] h = refl
before_hash_plain (String.◌∷◌ c s) h = ground (arith, before_hash_plain s)

nil-append : (t : String) → "" ++ t ≡ t
nil-append t = λ i. append.nil t i

cons-append : (c : Char) (s t : String) → String.◌∷◌ c s ++ t ≡ String.◌∷◌ c (s ++ t)
cons-append c s t = λ i. append.cons c s t i

after_hash-append : (s t : String) → IsPlain s → after_hash (s ++ ("#" ++ t)) ≡ some t
unfolding IsPlain after_hash
after_hash-append String.[] t h = rw (nil-append ("#" ++ t), cons-append _ "" t, nil-append t)
after_hash-append (String.◌∷◌ c s) t h =
    rw (cons-append c s ("#" ++ t)) (ground (arith, after_hash-append s t))

-- The channel that the gateway reports in a camera list is the channel that it reads in a request that
-- names it, whatever the member held: the device's id and the number's text hold no '#', and `atoi`
-- reads the number's text.
pub channel_of-channel_id :
    (atoi : String → ℕ) (to_string : ℕ → String) (device_id : String) (id old : ℕ)
    → IsPlain device_id
    → IsPlain (to_string id)
    → atoi (to_string id) ≡ id
    → channel_of atoi (channel_id to_string device_id id) old ≡ id
unfolding channel_of channel_id second_token
channel_of-channel_id atoi to_string device_id id old p q r =
    ground (arith, after_hash-append device_id (to_string id), before_hash_plain (to_string id))
