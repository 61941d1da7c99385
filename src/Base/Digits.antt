-- ===== src/Base/Digits.antt =====
-- The operations on binary digits of the native numbers, one digit at a time. `past` is the result once
-- the first number has run out, and `digit` the operation on two digits.
use Prim.Native.Nat.{ℕ, zero, suc, ◌+◌, ◌-◌, ◌*◌, ◌/◌, ◌%◌, ◌≤◌, digits, bitwise}
use mathlib.Core.Path.{◌≡◌, refl, ap, ◌∙◌}
use native.Mathlib.Omega.{arith}

module _ (past : ℕ → ℕ) (digit : ℕ → ℕ → ℕ) where
  -- A round more than the number has digits does nothing.
  one_round_more :
      (rounds x y : ℕ)
      → x ≤ rounds
      → digits past digit (suc rounds) x y ≡ digits past digit rounds x y
  one_round_more zero zero y fits = refl
  one_round_more zero (suc x) y fits = absurd (omega (arith, fits))
  one_round_more (suc rounds) zero y fits = refl
  one_round_more (suc rounds) (suc x) y fits =
      ap (λ high. high * 2 + digit (suc x % 2) (y % 2))
        (one_round_more rounds (suc x / 2) (y / 2) (omega (arith, fits)))

  more_rounds :
      (extra rounds x y : ℕ)
      → x ≤ rounds
      → digits past digit (extra + rounds) x y ≡ digits past digit rounds x y
  more_rounds zero rounds x y fits =
      let none_more : 0 + rounds ≡ rounds = omega arith in
      ap (λ k. digits past digit k x y) none_more
  more_rounds (suc extra) rounds x y fits =
      let shifted : suc extra + rounds ≡ suc (extra + rounds) = omega arith in
      ap (λ k. digits past digit k x y) shifted
      ∙ one_round_more (extra + rounds) x y (omega (arith, fits))
      ∙ more_rounds extra rounds x y fits

  -- The lowest digit, and the operation on the others.
  pub bitwise_low :
      (x y : ℕ)
      → bitwise past digit (suc x) y
        ≡ bitwise past digit (suc x / 2) (y / 2) * 2 + digit (suc x % 2) (y % 2)
  bitwise_low x y =
      let split : x ≡ x - suc x / 2 + suc x / 2 = omega arith in
      ap (λ high. high * 2 + digit (suc x % 2) (y % 2))
        (ap (λ k. digits past digit k (suc x / 2) (y / 2)) split
          ∙ more_rounds (x - suc x / 2) (suc x / 2) (suc x / 2) (y / 2) (omega arith))
