-- ===== src/Base/ByteOrder.antt =====
-- Byte strings and the lexicographic order of `bytes.Compare` on them, with its laws.
use Prim.Native.Nat.{ℕ, compare, Ordering}
use Prim.Native.Nat.Ordering.{lt, eq, gt}
use mathlib.Core.Path.{◌≡◌, refl}
use mathlib.Core.Logic.{◌⊎◌, inl, inr}
use mathlib.Core.List.{List, [], ◌∷◌}
use native.Mathlib.Omega.{arith}

abbrev pub Bytes : Type 0
Bytes = List ℕ

-- `bytes.Compare`: the first difference decides, and a proper prefix is the lesser.
unfoldable pub compare_bytes : Bytes → Bytes → Ordering
compare_bytes [] [] = eq
compare_bytes [] (b ∷ bs) = lt
compare_bytes (a ∷ as') [] = gt
compare_bytes (a ∷ as') (b ∷ bs) = elim (compare a b) [
  | lt ↦ lt
  | gt ↦ gt
  | eq ↦ compare_bytes as' bs
]

infix 50 ◌≺◌
abbrev pub ◌≺◌ : Bytes → Bytes → Type 0
a ≺ b = compare_bytes a b ≡ lt

pub compare_refl : (a : Bytes) → compare_bytes a a ≡ eq
unfolding compare_bytes
compare_refl [] = refl
compare_refl (a ∷ as') = ground (arith, compare_refl as')

pub eq_of_compare : (a b : Bytes) → compare_bytes a b ≡ eq → a ≡ b
unfolding compare_bytes
eq_of_compare [] [] h = refl
eq_of_compare [] (b ∷ bs) h = ground arith
eq_of_compare (a ∷ as') [] h = ground arith
eq_of_compare (a ∷ as') (b ∷ bs) h = ground (arith, eq_of_compare as' bs)

pub lt_of_gt : (a b : Bytes) → compare_bytes a b ≡ gt → b ≺ a
unfolding compare_bytes
lt_of_gt [] [] h = ground arith
lt_of_gt [] (b ∷ bs) h = ground arith
lt_of_gt (a ∷ as') [] h = refl
lt_of_gt (a ∷ as') (b ∷ bs) h = ground (arith, lt_of_gt as' bs)

pub gt_of_lt : (a b : Bytes) → a ≺ b → compare_bytes b a ≡ gt
unfolding compare_bytes
gt_of_lt [] [] h = ground arith
gt_of_lt [] (b ∷ bs) h = refl
gt_of_lt (a ∷ as') [] h = ground arith
gt_of_lt (a ∷ as') (b ∷ bs) h = ground (arith, gt_of_lt as' bs)

pub ≺_trans : (a b c : Bytes) → a ≺ b → b ≺ c → a ≺ c
unfolding compare_bytes
≺_trans [] [] c h k = ground arith
≺_trans [] (b ∷ bs) [] h k = ground arith
≺_trans [] (b ∷ bs) (c ∷ cs) h k = refl
≺_trans (a ∷ as') [] c h k = ground arith
≺_trans (a ∷ as') (b ∷ bs) [] h k = ground arith
≺_trans (a ∷ as') (b ∷ bs) (c ∷ cs) h k = ground (arith, ≺_trans as' bs cs)

-- To split on a comparison and keep the equation.
pub Ordering-cases : (o : Ordering) → (o ≡ lt) ⊎ (o ≡ eq) ⊎ (o ≡ gt)
Ordering-cases lt = inl refl
Ordering-cases eq = inr (inl refl)
Ordering-cases gt = inr (inr refl)
