-- ===== src/Base/Masks.antt =====
-- The bits that a mask selects, by the binary digits of native numbers.
use Prim.Native.Nat.{
  ℕ, zero, suc, ◌+◌, ◌*◌, ◌/◌, ◌%◌, ◌≤◌, ◌^◌, min, max, bit_and, bit_or, bit_and-bitwise,
  bit_or-bitwise,
}
use mathlib.Core.Path.{◌≡◌, refl, ap, sym, ◌∙◌}
use mathlib.Core.Logic.{◌≢◌}
use native.Mathlib.Nat.{pow-suc}
use native.Mathlib.Omega.{arith}
use nogocommons.Base.Digits.{bitwise_low}

pub zero-bit_and : (b : ℕ) → bit_and 0 b ≡ 0
zero-bit_and b = bit_and-bitwise 0 b

pub zero-bit_or : (b : ℕ) → bit_or 0 b ≡ b
zero-bit_or b = bit_or-bitwise 0 b

low_and : (a b : ℕ) → bit_and a b ≡ bit_and (a / 2) (b / 2) * 2 + min (a % 2) (b % 2)
low_and zero b = omega (arith, zero-bit_and b, zero-bit_and (b / 2))
low_and (suc a) b =
    bit_and-bitwise (suc a) b
    ∙ bitwise_low (λ _. zero) min a b
    ∙ ap (λ high. high * 2 + min (suc a % 2) (b % 2)) (sym (bit_and-bitwise (suc a / 2) (b / 2)))

low_or : (a b : ℕ) → bit_or a b ≡ bit_or (a / 2) (b / 2) * 2 + max (a % 2) (b % 2)
low_or zero b = omega (arith, zero-bit_or b, zero-bit_or (b / 2))
low_or (suc a) b =
    bit_or-bitwise (suc a) b
    ∙ bitwise_low (λ y. y) max a b
    ∙ ap (λ high. high * 2 + max (suc a % 2) (b % 2)) (sym (bit_or-bitwise (suc a / 2) (b / 2)))

half_or :
    (a b : ℕ) → (bit_or a b / 2 ≡ bit_or (a / 2) (b / 2)) × (bit_or a b % 2 ≡ max (a % 2) (b % 2))
half_or a b = (omega (arith, low_or a b), omega (arith, low_or a b))

-- An empty mask, by the number of the digits.
empty_mask : (rounds a : ℕ) → a ≤ rounds → (bit_and a 0 ≡ 0) × (bit_or a 0 ≡ a)
empty_mask rounds zero fits = (zero-bit_and 0, zero-bit_or 0)
empty_mask zero (suc a) fits = absurd (omega (arith, fits))
empty_mask (suc rounds) (suc a) fits =
    let (none_left, all_left) = empty_mask rounds (suc a / 2) (omega (arith, fits)) in
    (omega (arith, low_and (suc a) 0, none_left), omega (arith, low_or (suc a) 0, all_left))

pub bit_and-zero : (a : ℕ) → bit_and a 0 ≡ 0
bit_and-zero a = (empty_mask a a (omega arith)).0

pub bit_or-zero : (a : ℕ) → bit_or a 0 ≡ a
bit_or-zero a = (empty_mask a a (omega arith)).1

self_fuel : (n a z : ℕ) → z ≤ n → bit_and (bit_or a z) z ≡ z
self_fuel zero a z h =
    let e : z ≡ 0 = omega arith in
    rw e (omega (arith, low_and (bit_or a 0) 0, bit_and-zero (bit_or a 0 / 2)))
self_fuel (suc n) a z h =
    let (q, r) = half_or a z in
    omega (
      arith,
      low_and (bit_or a z) z,
      ap (λ t. bit_and t (z / 2)) q,
      r,
      self_fuel n (a / 2) (z / 2) (omega arith),
    )

-- A mask that was set is found.
pub bit_and-or_self : (a z : ℕ) → bit_and (bit_or a z) z ≡ z
bit_and-or_self a z = self_fuel z a z (omega arith)

kept_fuel : (n a y z : ℕ) → a ≤ n → bit_and a z ≤ bit_and (bit_or a y) z
kept_fuel zero a y z h = let e : a ≡ 0 = omega arith in rw e (omega (arith, zero-bit_and z))
kept_fuel (suc n) zero y z h = omega (arith, zero-bit_and z)
kept_fuel (suc n) (suc a) y z h =
    let (q, r) = half_or (suc a) y in
    omega (
      arith,
      low_and (suc a) z,
      low_and (bit_or (suc a) y) z,
      ap (λ t. bit_and t (z / 2)) q,
      r,
      kept_fuel n (suc a / 2) (y / 2) (z / 2) (omega arith),
    )

-- Bits stay set.
pub bit_and-or_le : (a y z : ℕ) → bit_and a z ≤ bit_and (bit_or a y) z
bit_and-or_le a y z = kept_fuel a a y z (omega arith)

-- A bit that is set changes no other bit.
pub bit_and-or_ne : (k j a : ℕ) → k ≢ j → bit_and (bit_or a (2 ^ k)) (2 ^ j) ≡ bit_and a (2 ^ j)
bit_and-or_ne zero zero a d = absurd (d refl)
bit_and-or_ne (suc k) zero a d =
    let (q, r) = half_or a (2 ^ suc k) in
    omega (
      arith,
      pow-suc 2 k,
      r,
      low_and (bit_or a (2 ^ suc k)) 1,
      low_and a 1,
      bit_and-zero (a / 2),
      bit_and-zero (bit_or a (2 ^ suc k) / 2),
    )
bit_and-or_ne zero (suc j) a d =
    let (q, r) = half_or a 1 in
    let e = pow-suc 2 j in
    let z : 2 ^ suc j / 2 ≡ 2 ^ j = omega (arith, e) in
    omega (
      arith,
      e,
      r,
      ap (λ t. bit_and t (2 ^ suc j / 2)) (q ∙ bit_or-zero (a / 2)),
      low_and (bit_or a 1) (2 ^ suc j),
      low_and a (2 ^ suc j),
    )
bit_and-or_ne (suc k) (suc j) a d =
    let (q, r) = half_or a (2 ^ suc k) in
    let e = pow-suc 2 j in
    let e' = pow-suc 2 k in
    let z : 2 ^ suc j / 2 ≡ 2 ^ j = omega (arith, e) in
    let z' : 2 ^ suc k / 2 ≡ 2 ^ k = omega (arith, e') in
    let ih = bit_and-or_ne k j (a / 2) (λ h. d (ap suc h)) in
    omega (
      arith,
      e,
      e',
      r,
      ap (λ t. bit_and t (2 ^ suc j / 2)) (q ∙ ap (bit_or (a / 2)) z'),
      ap (bit_and (bit_or (a / 2) (2 ^ k))) z,
      ap (bit_and (a / 2)) z,
      ih,
      low_and (bit_or a (2 ^ suc k)) (2 ^ suc j),
      low_and a (2 ^ suc j),
    )
