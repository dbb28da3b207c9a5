-- ===== src/Common/Dict.antt =====
-- The keyed containers of the program: `boost::unordered_map<std::string, V>`, and the maps that are
-- searched, filled and erased the same way. `insert` keeps an entry that is there, as the
-- container's `insert` does; `assign` is `m[k] = v`.
use mathlib.Core.Path.{◌≡◌, refl, ap, subst₂}
use mathlib.Core.Option.{Option, none, some, get_or}
use mathlib.Core.List.{List, [], ◌∷◌}
use native.Mathlib.Omega.{arith}
use text.Mathlib.Text.{◌==◌}
use text.Mathlib.TextEquality.{eq_iff}
use Prim.Native.String.{String}
use mathlib.Core.Logic.{inl, inr}
use rundo_dahua_sdk_edge.Common.Tests.{if◌then◌else◌, Bool-cases}

abbrev pub Dict {ℓ} : Type ℓ → Type ℓ
Dict V = List (String × V)

module _ {ℓ} {V : Type ℓ} where
  unfoldable pub find : String → Dict V → Option V
  find k [] = none
  find k ((j, v) ∷ m) = if j == k then some v else find k m

  unfoldable pub insert : String → V → Dict V → Dict V
  insert k v [] = (k, v) ∷ []
  insert k v ((j, w) ∷ m) = if j == k then (j, w) ∷ m else (j, w) ∷ insert k v m

  unfoldable pub assign : String → V → Dict V → Dict V
  assign k v [] = (k, v) ∷ []
  assign k v ((j, w) ∷ m) = if j == k then (k, v) ∷ m else (j, w) ∷ assign k v m

  unfoldable pub erase : String → Dict V → Dict V
  erase k [] = []
  erase k ((j, w) ∷ m) = let rest = erase k m in if j == k then rest else (j, w) ∷ rest

  pub find-insert :
      (k j : String) (v : V) (m : Dict V)
      → find j (insert k v m) ≡ (if k == j then some (get_or (find k m) v) else find j m)
  unfolding find insert
  find-insert k j v [] = ground arith
  find-insert k j v ((i, w) ∷ m) =
      ground (arith, eq_iff k j, eq_iff i k, eq_iff i j, find-insert k j v m)

  -- An entry that is there stays, and nothing else changes.
  pub insert-known : (k : String) (v w : V) (m : Dict V) → find k m ≡ some w → insert k v m ≡ m
  unfolding find insert
  insert-known k v w [] e = ground arith
  insert-known k v w ((i, u) ∷ m) e = elim (Bool-cases (i == k)) [
    | inl h ↦ rw (h, insert) refl
    | inr h ↦ rw (h, insert) (ap (◌∷◌ (i, u)) (insert-known k v w m (rw h at e)))
  ]

  pub find-assign :
      (k j : String) (v : V) (m : Dict V)
      → find j (assign k v m) ≡ (if k == j then some v else find j m)
  unfolding find assign
  find-assign k j v [] = refl
  find-assign k j v ((i, w) ∷ m) =
      ground (arith, eq_iff k j, eq_iff i k, eq_iff i j, find-assign k j v m)

  pub find-erase :
      (k j : String) (m : Dict V) → find j (erase k m) ≡ (if k == j then none else find j m)
  unfolding find erase
  find-erase k j [] = ground arith
  find-erase k j ((i, w) ∷ m) = ground (arith, eq_iff k j, eq_iff i k, eq_iff i j, find-erase k j m)

  -- No key stands twice.
  abbrev pub IsDistinct : Dict V → Type ℓ
  IsDistinct [] = Unit
  IsDistinct ((k, v) ∷ m) = (find k m ≡ none) × IsDistinct m

  pub insert-IsDistinct :
      (k : String) (v : V) (m : Dict V) → IsDistinct m → IsDistinct (insert k v m)
  unfolding insert find
  insert-IsDistinct k v [] d = (refl, tt)
  insert-IsDistinct k v ((i, w) ∷ m) d =
      ground (arith, eq_iff i k, eq_iff k i, find-insert k i v m, insert-IsDistinct k v m)

  pub assign-IsDistinct :
      (k : String) (v : V) (m : Dict V) → IsDistinct m → IsDistinct (assign k v m)
  unfolding assign find
  assign-IsDistinct k v [] d = (refl, tt)
  assign-IsDistinct k v ((i, w) ∷ m) d =
      ground (arith, eq_iff i k, eq_iff k i, find-assign k i v m, assign-IsDistinct k v m)

  pub erase-IsDistinct : (k : String) (m : Dict V) → IsDistinct m → IsDistinct (erase k m)
  unfolding erase find
  erase-IsDistinct k [] d = tt
  erase-IsDistinct k ((i, w) ∷ m) d =
      ground (arith, eq_iff i k, eq_iff k i, find-erase k i m, erase-IsDistinct k m)

module _ {ℓ κ} {V : Type ℓ} (P : String → V → Type κ) where
  -- Every entry has the property.
  abbrev pub Entries : Dict V → Type κ
  Entries [] = Unit
  Entries ((k, v) ∷ m) = P k v × Entries m

  pub insert-Entries :
      (k : String) (v : V) (m : Dict V) → P k v → Entries m → Entries (insert k v m)
  unfolding insert
  insert-Entries k v [] p a = (p, tt)
  insert-Entries k v ((i, w) ∷ m) p a = elim (Bool-cases (i == k)) [
    | inl e ↦ rw e a
    | inr e ↦ rw e (a.0, insert-Entries k v m p a.1)
  ]

  pub assign-Entries :
      (k : String) (v : V) (m : Dict V) → P k v → Entries m → Entries (assign k v m)
  unfolding assign
  assign-Entries k v [] p a = (p, tt)
  assign-Entries k v ((i, w) ∷ m) p a = elim (Bool-cases (i == k)) [
    | inl e ↦ rw e (p, a.1)
    | inr e ↦ rw e (a.0, assign-Entries k v m p a.1)
  ]

  pub erase-Entries : (k : String) (m : Dict V) → Entries m → Entries (erase k m)
  unfolding erase
  erase-Entries k [] a = tt
  erase-Entries k ((i, w) ∷ m) a = elim (Bool-cases (i == k)) [
    | inl e ↦ rw e (erase-Entries k m a.1)
    | inr e ↦ rw e (a.0, erase-Entries k m a.1)
  ]

  pub find-Entries : (k : String) (v : V) (m : Dict V) → Entries m → find k m ≡ some v → P k v
  unfolding find
  find-Entries k v [] a e = cc
  find-Entries k v ((i, w) ∷ m) a e = elim (Bool-cases (i == k)) [
    | inl h ↦ let same : w ≡ v = ground arith in subst₂ P ((eq_iff i k).0 h) same a.0
    | inr h ↦ find-Entries k v m a.1 (rw h at e)
  ]
