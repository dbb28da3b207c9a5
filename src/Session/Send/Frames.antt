-- ===== src/Session/Send/Frames.antt =====
-- The framing can be undone: what a receiver of the byte stream reads.
use rundo_dahua_sdk_edge.Common.{
  ℕ, zero, suc, ◌+◌, ◌*◌, ◌/◌, ◌%◌, ◌^◌, ◌≡◌, ◌≤◌, ◌<◌, List, [], ◌∷◌, ◌++◌, Option, none, some,
  arith, length, refl, ◌==◌, if◌then◌else◌, All, ◌&&◌,
}
use rundo_dahua_sdk_edge.Session.Send.{frame}
use rundo_dahua_sdk_edge.Session.Send.Stream.{frames}

-- The first `n` bytes and the rest, if there are that many.
pub split_at : ℕ → List ℕ → Option (List ℕ × List ℕ)
split_at zero xs = some ([], xs)
split_at (suc n) [] = none
split_at (suc n) (x ∷ xs) = elim (split_at n xs) [ none ↦ none | some (a, b) ↦ some (x ∷ a, b) ]

-- A receiver: '$', 0, a 16-bit length in network order, and that many bytes, again and again. The
-- first argument bounds the number of packets.
pub deframe : ℕ → List ℕ → Option (List (List ℕ))
deframe n [] = some []
deframe zero (_ ∷ _) = none
deframe (suc n) (a ∷ []) = none
deframe (suc n) (a ∷ b ∷ []) = none
deframe (suc n) (a ∷ b ∷ c ∷ []) = none
deframe (suc n) (a ∷ b ∷ hi ∷ lo ∷ rest) =
    if (a == 0x24) && (b == 0)
    then (elim (split_at (hi * 256 + lo) rest) [
      | none ↦ none
      | some (p, more) ↦ elim (deframe n more) [ none ↦ none | some ps ↦ some (p ∷ ps) ]
    ])
    else none

split_at-length : (p xs : List ℕ) → split_at (length p) (p ++ xs) ≡ some (p, xs)
unfolding split_at
split_at-length [] xs = refl
split_at-length (x ∷ p) xs = ground (arith, split_at-length p xs)

-- A receiver reads from the framed bytes the very packets that were framed, when each is shorter than
-- 2 ^ 16 bytes and it allows for their number.
pub deframe-frames :
    (n : ℕ) (ps : List (List ℕ))
    → length ps ≤ n
    → All (λ p. length p < 2 ^ 16) ps
    → deframe n (frames ps) ≡ some ps
unfolding deframe frames frame
deframe-frames n [] h small = refl
deframe-frames zero (p ∷ ps) h small = absurd (omega arith)
deframe-frames (suc n) (p ∷ ps) h small =
    let l : length p / 256 % 256 * 256 + length p % 256 ≡ length p = omega arith in
    ground (arith, l, split_at-length p (frames ps), deframe-frames n ps)
