-- ===== src/Base/Bits.antt =====
-- The exclusive or of native numbers, by their binary digits.
use Prim.Native.Nat.{
  ℕ, zero, suc, ◌+◌, ◌*◌, ◌/◌, ◌%◌, ◌≤◌, ◌<◌, ◌^◌, bit_xor, differ, bit_xor-bitwise,
}
use mathlib.Core.Path.{◌≡◌, refl, ap, sym, ◌∙◌}
use native.Mathlib.Omega.{arith}
use native.Mathlib.Nat.{pow-suc}
use nogocommons.Base.Digits.{bitwise_low}

pub zero-bit_xor : (b : ℕ) → bit_xor 0 b ≡ b
zero-bit_xor b = bit_xor-bitwise 0 b

-- The exclusive or of two digits.
pub bit_xor_step : (a b : ℕ) → bit_xor a b ≡ bit_xor (a / 2) (b / 2) * 2 + differ (a % 2) (b % 2)
bit_xor_step zero b = omega (arith, zero-bit_xor b, zero-bit_xor (b / 2))
bit_xor_step (suc a) b =
    bit_xor-bitwise (suc a) b
    ∙ bitwise_low (λ y. y) differ a b
    ∙ ap (λ high. high * 2 + differ (suc a % 2) (b % 2)) (sym (bit_xor-bitwise (suc a / 2) (b / 2)))

differ_table : (x y : ℕ) → x < 2 → y < 2 → differ x y ≡ (x + y) % 2
differ_table zero zero h k = refl
differ_table zero (suc zero) h k = refl
differ_table (suc zero) zero h k = refl
differ_table (suc zero) (suc zero) h k = refl
differ_table zero (suc (suc y)) h k = absurd (omega arith)
differ_table (suc zero) (suc (suc y)) h k = absurd (omega arith)
differ_table (suc (suc x)) y h k = absurd (omega arith)

-- The same with a sum for the last digit.
pub bit_xor_digit : (a b : ℕ) → bit_xor a b ≡ bit_xor (a / 2) (b / 2) * 2 + (a % 2 + b % 2) % 2
bit_xor_digit a b =
    omega (arith, bit_xor_step a b, differ_table (a % 2) (b % 2) (omega arith) (omega arith))

comm_fuel : (n a b : ℕ) → a + b ≤ n → bit_xor a b ≡ bit_xor b a
comm_fuel zero a b h =
    ap (λ z. bit_xor z b) z1
    ∙ ap (bit_xor 0) z2
    ∙ ap (λ z. bit_xor z 0) (sym z2)
    ∙ ap (bit_xor b) (sym z1)
  where
    z1 : a ≡ 0
    z1 = omega arith

    z2 : b ≡ 0
    z2 = omega arith
comm_fuel (suc n) zero zero h = refl
comm_fuel (suc n) zero (suc b) h = omega (
  arith,
  bit_xor_digit 0 (suc b),
  bit_xor_digit (suc b) 0,
  comm_fuel n 0 (suc b / 2) (omega arith),
)
comm_fuel (suc n) (suc a) b h = omega (
  arith,
  bit_xor_digit (suc a) b,
  bit_xor_digit b (suc a),
  comm_fuel n (suc a / 2) (b / 2) (omega arith),
)

pub bit_xor_comm : (a b : ℕ) → bit_xor a b ≡ bit_xor b a
bit_xor_comm a b = comm_fuel (a + b) a b (omega arith)

pub bit_xor-zero : (a : ℕ) → bit_xor a 0 ≡ a
bit_xor-zero a = bit_xor_comm a 0 ∙ zero-bit_xor a

-- The last digit and the others.
half : (a b : ℕ) → bit_xor a b / 2 ≡ bit_xor (a / 2) (b / 2)
half a b = omega (arith, bit_xor_digit a b)

last_digit : (a b : ℕ) → bit_xor a b % 2 ≡ (a % 2 + b % 2) % 2
last_digit a b = omega (arith, bit_xor_digit a b)

assoc_fuel : (n a b c : ℕ) → a ≤ n → bit_xor (bit_xor a b) c ≡ bit_xor a (bit_xor b c)
assoc_fuel n zero b c h = ap (λ z. bit_xor z c) (zero-bit_xor b) ∙ sym (zero-bit_xor (bit_xor b c))
assoc_fuel zero (suc a) b c h = absurd (omega arith)
assoc_fuel (suc n) (suc a) b c h = omega (
  arith,
  bit_xor_digit (bit_xor (suc a) b) c,
  bit_xor_digit (suc a) (bit_xor b c),
  ap (λ z. bit_xor z (c / 2)) (half (suc a) b),
  ap (bit_xor (suc a / 2)) (half b c),
  last_digit (suc a) b,
  last_digit b c,
  assoc_fuel n (suc a / 2) (b / 2) (c / 2) (omega arith),
)

pub bit_xor_assoc : (a b c : ℕ) → bit_xor (bit_xor a b) c ≡ bit_xor a (bit_xor b c)
bit_xor_assoc a b c = assoc_fuel a a b c (omega arith)

self_fuel : (n a : ℕ) → a ≤ n → bit_xor a a ≡ 0
self_fuel n zero h = zero-bit_xor 0
self_fuel zero (suc a) h = absurd (omega arith)
self_fuel (suc n) (suc a) h =
    omega (arith, bit_xor_digit (suc a) (suc a), self_fuel n (suc a / 2) (omega arith))

pub bit_xor_cancel : (a b : ℕ) → bit_xor a (bit_xor a b) ≡ b
bit_xor_cancel a b =
    sym (bit_xor_assoc a a b) ∙ ap (λ z. bit_xor z b) (self_fuel a a (omega arith)) ∙ zero-bit_xor b

-- Shifted by one digit, and by five.
double : (a b : ℕ) → bit_xor (a * 2) (b * 2) ≡ bit_xor a b * 2
double a b =
    let x : a * 2 / 2 ≡ a = omega arith in
    let y : b * 2 / 2 ≡ b = omega arith in
    omega
      (arith, bit_xor_digit (a * 2) (b * 2), ap (λ z. bit_xor z (b * 2 / 2)) x, ap (bit_xor a) y)

-- Digits below the power are changed by digits below the power only.
pub bit_xor-low :
    (k a b y : ℕ)
    → b < 2 ^ k
    → y < 2 ^ k
    → (bit_xor (a * 2 ^ k + b) y ≡ a * 2 ^ k + bit_xor b y) × (bit_xor b y < 2 ^ k)
bit_xor-low zero a b y h l =
    let b0 : b ≡ 0 = omega arith in
    let y0 : y ≡ 0 = omega arith in
    (
      ap (bit_xor (a * 1 + b)) y0
          ∙ bit_xor-zero (a * 1 + b)
          ∙ omega (arith, ap (bit_xor b) y0, bit_xor-zero b),
      omega (arith, ap (bit_xor b) y0, bit_xor-zero b),
    )
bit_xor-low (suc k) a b y h l =
    let e : 2 ^ suc k ≡ 2 ^ k * 2 = pow-suc 2 k in
    let q : a * 2 ^ suc k ≡ a * 2 ^ k * 2 = ap (λ z. a * z) e ∙ omega arith in
    let s : (a * 2 ^ suc k + b) / 2 ≡ a * 2 ^ k + b / 2 = omega arith in
    let (low, below) = bit_xor-low k a (b / 2) (y / 2) (omega arith) (omega arith) in
    (
      omega (
        arith,
        bit_xor_digit (a * 2 ^ suc k + b) y,
        bit_xor_digit b y,
        ap (λ z. bit_xor z (y / 2)) s,
        low,
      ),
      omega (arith, bit_xor_digit b y, below),
    )

pub bit_xor-shift : (k a b : ℕ) → bit_xor (a * 2 ^ k) (b * 2 ^ k) ≡ bit_xor a b * 2 ^ k
bit_xor-shift zero a b =
    let x : a * 2 ^ 0 ≡ a = omega arith in
    let y : b * 2 ^ 0 ≡ b = omega arith in
    ap (λ z. bit_xor z (b * 2 ^ 0)) x ∙ ap (bit_xor a) y ∙ omega arith
bit_xor-shift (suc k) a b =
    let e : 2 ^ suc k ≡ 2 ^ k * 2 = pow-suc 2 k in
    let x : a * 2 ^ suc k ≡ a * 2 ^ k * 2 = ap (λ z. a * z) e ∙ omega arith in
    let y : b * 2 ^ suc k ≡ b * 2 ^ k * 2 = ap (λ z. b * z) e ∙ omega arith in
    let z : bit_xor a b * 2 ^ suc k ≡ bit_xor a b * 2 ^ k * 2 =
      ap (λ z. bit_xor a b * z) e ∙ omega arith in
    ap (λ t. bit_xor t (b * 2 ^ suc k)) x
    ∙ ap (bit_xor (a * 2 ^ k * 2)) y
    ∙ double (a * 2 ^ k) (b * 2 ^ k)
    ∙ ap (λ t. t * 2) (bit_xor-shift k a b)
    ∙ sym z
