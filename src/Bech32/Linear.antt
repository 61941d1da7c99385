-- ===== src/Bech32/Linear.antt =====
-- The checksum of address/bech32/bech32.go is linear: six values at the end are added to it.
use nogocommons.Base.{
  ℕ, ◌+◌, ◌*◌, ◌/◌, ◌%◌, ◌^◌, ◌<◌, ◌≡◌, refl, ap, sym, ◌∙◌, arith, List, [], ◌∷◌,
}
use nogocommons.Base.{Bool-cases, inl, inr, ◌==◌, if◌then◌else◌, All, some}
use nogocommons.Base.{
  zero-bit_xor, bit_xor-zero, bit_xor_comm, bit_xor_assoc, bit_xor_cancel, bit_xor-low,
}
use nogocommons.Base.{bit_xor-shift}
use Prim.Native.Nat.{bit_xor}
use nogocommons.Bech32.Checksum.{
  Version, version0, version_m, version_const, gen, mix, poly_shift, poly_step, poly_all,
  poly_values, polymod, checksum_values, version_of,
}

swap_last : (c d g : ℕ) → bit_xor (bit_xor c d) g ≡ bit_xor (bit_xor c g) d
swap_last c d g =
    bit_xor_assoc c d g ∙ ap (bit_xor c) (bit_xor_comm d g) ∙ sym (bit_xor_assoc c g d)

mix-bit_xor : (b : ℕ) (gs : List ℕ) (c d : ℕ) → mix b gs (bit_xor c d) ≡ bit_xor (mix b gs c) d
unfolding mix
mix-bit_xor b [] c d = refl
mix-bit_xor b (g ∷ gs) c d = elim (Bool-cases (b % 2 == 1)) [
  | inl t ↦ rw t (ap (mix (b / 2) gs) (swap_last c d g) ∙ mix-bit_xor (b / 2) gs (bit_xor c g) d)
  | inr n ↦ rw n (mix-bit_xor (b / 2) gs c d)
]

bit_xor-lt : (k a b : ℕ) → a < 2 ^ k → b < 2 ^ k → bit_xor a b < 2 ^ k
bit_xor-lt k a b h l = (bit_xor-low k 0 a b h l).1

mix-lt : (b : ℕ) (gs : List ℕ) (c : ℕ) → All (λ g. g < 2 ^ 30) gs → c < 2 ^ 30 → mix b gs c < 2 ^ 30
unfolding mix
mix-lt b [] c a h = h
mix-lt b (g ∷ gs) c (l, a) h =
    mix-lt (b / 2) gs (if b % 2 == 1 then bit_xor c g else c) a
      (ground (arith, h, bit_xor-lt 30 c g h l))

pub poly_shift-lt : (x : ℕ) → poly_shift x < 2 ^ 30
unfolding poly_shift
poly_shift-lt x =
    mix-lt (x / 2 ^ 25) gen (x % 2 ^ 25 * 32)
      (omega arith, (omega arith, (omega arith, (omega arith, (omega arith, tt))))) (omega arith)

append_digit : (y v : ℕ) → v < 32 → bit_xor (y * 32) v ≡ y * 32 + v
append_digit y v h =
    let low = (bit_xor-low 5 y 0 v (omega arith) h).0 in
    let same : y * 32 + 0 ≡ y * 32 = omega arith in
    ap (λ z. bit_xor z v) (sym same) ∙ low ∙ ap (λ z. y * 32 + z) (zero-bit_xor v)

-- What lies below the top five bits stays below, one place higher.
step_linear :
    (x y v : ℕ)
    → y < 2 ^ 25
    → v < 32
    → poly_step (bit_xor x y) v ≡ bit_xor (poly_shift x) (y * 32 + v)
unfolding poly_step poly_shift
step_linear x y v h l =
    let hi = x / 2 ^ 25 in
    let lo = x % 2 ^ 25 in
    let (low, below) = bit_xor-low 25 hi lo y (omega arith) h in
    let split : hi * 2 ^ 25 + lo ≡ x = omega arith in
    let parts : bit_xor x y ≡ hi * 2 ^ 25 + bit_xor lo y =
      ap (λ z. bit_xor z y) (sym split) ∙ low in
    let top : bit_xor x y / 2 ^ 25 ≡ hi = omega (arith, parts, below) in
    let rest : bit_xor x y % 2 ^ 25 ≡ bit_xor lo y = omega (arith, parts, below) in
    ap (λ b. mix b gen (bit_xor (bit_xor x y % 2 ^ 25 * 32) v)) top
    ∙ ap (λ r. mix hi gen (bit_xor (r * 32) v)) rest
    ∙ ap (λ r. mix hi gen (bit_xor r v)) (sym (bit_xor-shift 5 lo y))
    ∙ ap (mix hi gen)
        (bit_xor_assoc (lo * 32) (y * 32) v ∙ ap (bit_xor (lo * 32)) (append_digit y v l))
    ∙ mix-bit_xor hi gen (lo * 32) (y * 32 + v)

-- Six values at the end.
abbrev shifted : ℕ → ℕ
shifted x = poly_shift (poly_shift (poly_shift (poly_shift (poly_shift (poly_shift x)))))

six_values :
    (x a b c d e f : ℕ)
    → a < 32
    → b < 32
    → c < 32
    → d < 32
    → e < 32
    → f < 32
    → poly_all (a ∷ b ∷ c ∷ d ∷ e ∷ f ∷ []) x
      ≡ bit_xor (shifted x) (((((a * 32 + b) * 32 + c) * 32 + d) * 32 + e) * 32 + f)
unfolding poly_all
six_values x a b c d e f ha hb hc hd he hf =
    let none_before : 0 * 32 + a ≡ a = omega arith in
    let s1 : poly_step x a ≡ bit_xor (poly_shift x) a =
      ap (λ z. poly_step z a) (sym (bit_xor-zero x))
      ∙ step_linear x 0 a (omega arith) ha
      ∙ ap (bit_xor (poly_shift x)) none_before in
    ap (λ z. poly_step (poly_step (poly_step (poly_step (poly_step z b) c) d) e) f) s1
    ∙ ap (λ z. poly_step (poly_step (poly_step (poly_step z c) d) e) f)
        (step_linear _ a b (omega arith) hb)
    ∙ ap (λ z. poly_step (poly_step (poly_step z d) e) f)
        (step_linear _ (a * 32 + b) c (omega arith) hc)
    ∙ ap (λ z. poly_step (poly_step z e) f)
        (step_linear _ ((a * 32 + b) * 32 + c) d (omega arith) hd)
    ∙ ap (λ z. poly_step z f) (step_linear _ (((a * 32 + b) * 32 + c) * 32 + d) e (omega arith) he)
    ∙ step_linear _ ((((a * 32 + b) * 32 + c) * 32 + d) * 32 + e) f (omega arith) hf

-- The digits of a number below 2^30.
digits_sum :
    (p : ℕ)
    → p < 2 ^ 30
    → (((((p / 2 ^ 25 % 32) * 32 + p / 2 ^ 20 % 32) * 32 + p / 2 ^ 15 % 32) * 32 + p / 2 ^ 10 % 32)
              * 32
            + p / 2 ^ 5 % 32)
          * 32
        + p / 2 ^ 0 % 32
      ≡ p
digits_sum p h = omega arith

version_const-lt : (v : Version) → version_const v < 2 ^ 30
version_const-lt version0 = omega arith
version_const-lt version_m = omega arith

-- The checksum that was computed is found right.
pub polymod-checksum_values :
    (hrp values : List ℕ) (v : Version)
    → polymod hrp values (some (checksum_values hrp values v)) ≡ version_const v
unfolding polymod checksum_values
polymod-checksum_values hrp values v =
    let x = poly_values hrp values in
    let p = bit_xor (shifted x) (version_const v) in
    let below =
      bit_xor-lt 30 (shifted x) (version_const v)
        (poly_shift-lt (poly_shift (poly_shift (poly_shift (poly_shift (poly_shift x))))))
        (version_const-lt v) in
    six_values x (p / 2 ^ 25 % 32) (p / 2 ^ 20 % 32) (p / 2 ^ 15 % 32) (p / 2 ^ 10 % 32)
      (p / 2 ^ 5 % 32) (p / 2 ^ 0 % 32) (omega arith) (omega arith) (omega arith) (omega arith)
      (omega arith) (omega arith)
    ∙ ap (bit_xor (shifted x)) (digits_sum p below)
    ∙ bit_xor_cancel (shifted x) (version_const v)

pub version_of-version_const : (v : Version) → version_of (version_const v) ≡ some v
unfolding version_of
version_of-version_const version0 = refl
version_of-version_const version_m = refl
