-- ===== src/Gcs/Sorted.antt =====
-- The sorted values of a filter of nogoutil/gcs/gcs.go, and which numbers are among them.
use nogocommons.Base.{contains}
use nogocommons.Base.{ℕ, suc, ◌≤◌, ◌<◌, ◌≡◌, refl, ap, ◌∙◌, arith, true, false, ◌||◌}
use nogocommons.Base.{List, [], ◌∷◌, All, length, IsU64, ◌==◌, leb}
use nogocommons.Gcs.Filter.{insert_value, sort_values}
use nogocommons.Gcs.Rice.{Ascends}

contains-insert_value :
    (v w : ℕ) (xs : List ℕ) → contains v (insert_value w xs) ≡ ((w == v) || contains v xs)
unfolding insert_value
contains-insert_value v w [] = refl
contains-insert_value v w (x ∷ xs) = ground (arith, contains-insert_value v w xs)

pub contains-sort_values : (v : ℕ) (xs : List ℕ) → contains v (sort_values xs) ≡ contains v xs
unfolding sort_values
contains-sort_values v [] = refl
contains-sort_values v (x ∷ xs) =
    contains-insert_value v x (sort_values xs) ∙ ap (λ b. (x == v) || b) (contains-sort_values v xs)

Ascends-insert_value :
    (last v : ℕ) (xs : List ℕ)
    → last ≤ v
    → IsU64 v
    → Ascends last xs
    → Ascends last (insert_value v xs)
unfolding insert_value
Ascends-insert_value last v [] le f h = (le, f, tt)
Ascends-insert_value last v (x ∷ xs) le f (lx, fx, h) =
    elim (leb v x)
        as (λ b.
          (leb v x ≡ b)
          → Ascends last (elim b [ true ↦ v ∷ (x ∷ xs) | false ↦ x ∷ insert_value v xs ])) [
            | true ↦ λ e. (le, f, (ground arith, fx, h))
            | false ↦ λ e. (lx, fx, Ascends-insert_value x v xs (ground arith) f h)
          ]
      refl

pub sort_values-Ascends : (xs : List ℕ) → All IsU64 xs → Ascends 0 (sort_values xs)
unfolding sort_values
sort_values-Ascends [] h = tt
sort_values-Ascends (x ∷ xs) (f, h) =
    Ascends-insert_value 0 x (sort_values xs) (omega arith) f (sort_values-Ascends xs h)

length-insert_value : (v : ℕ) (xs : List ℕ) → length (insert_value v xs) ≡ suc (length xs)
unfolding insert_value
length-insert_value v [] = refl
length-insert_value v (x ∷ xs) = ground (arith, length-insert_value v xs)

pub length-sort_values : (xs : List ℕ) → length (sort_values xs) ≡ length xs
unfolding sort_values
length-sort_values [] = refl
length-sort_values (x ∷ xs) =
    length-insert_value x (sort_values xs) ∙ ap suc (length-sort_values xs)

-- A number below the first value is none of them.
pub contains_below : (v last : ℕ) (xs : List ℕ) → Ascends last xs → v < last → contains v xs ≡ false
contains_below v last [] h lt = refl
contains_below v last (x ∷ xs) (le, f, h) lt = ground (arith, contains_below v x xs h (omega arith))
