-- ===== src/ConnMgr/Sets.antt =====
-- The keys of the maps of connmgr/connmanager.go.
use nogocommons.Base.{ℕ, suc, ◌≡◌, refl, arith, true, false, List, [], ◌∷◌}
use nogocommons.Base.{contains, length, ◌==◌, if◌then◌else◌}
use nogocommons.ConnMgr.Manager.{delete_key, put_key}

pub contains-delete_key :
    (j id : ℕ) (xs : List ℕ)
    → contains j (delete_key id xs) ≡ (if id == j then false else contains j xs)
unfolding delete_key
contains-delete_key j id [] = ground arith
contains-delete_key j id (x ∷ xs) = ground (arith, contains-delete_key j id xs)

pub contains-put_key :
    (j id : ℕ) (xs : List ℕ)
    → contains j (put_key id xs) ≡ (if id == j then true else contains j xs)
unfolding put_key
contains-put_key j id xs = ground (arith, contains-delete_key j id xs)

-- No key stands twice.
abbrev pub Once : List ℕ → Type 0
Once [] = Unit
Once (x ∷ xs) = (contains x xs ≡ false) × Once xs

pub delete_key_absent : (id : ℕ) (xs : List ℕ) → contains id xs ≡ false → delete_key id xs ≡ xs
unfolding delete_key
delete_key_absent id [] h = refl
delete_key_absent id (x ∷ xs) h = ground (arith, h, delete_key_absent id xs)

pub Once-delete_key : (id : ℕ) (xs : List ℕ) → Once xs → Once (delete_key id xs)
unfolding delete_key
Once-delete_key id [] h = tt
Once-delete_key id (x ∷ xs) (n, h) =
    elim (x == id)
      as (λ b. Once (elim b [ true ↦ delete_key id xs | false ↦ x ∷ delete_key id xs ])) [
        | true ↦ Once-delete_key id xs h
        | false ↦ (ground (arith, n, contains-delete_key x id xs), Once-delete_key id xs h)
      ]

pub Once-put_key : (id : ℕ) (xs : List ℕ) → Once xs → Once (put_key id xs)
unfolding put_key
Once-put_key id xs h = (ground (arith, contains-delete_key id id xs), Once-delete_key id xs h)

-- Deleting a key that is there takes one away.
pub length-delete_key :
    (id : ℕ) (xs : List ℕ)
    → Once xs
    → contains id xs ≡ true
    → suc (length (delete_key id xs)) ≡ length xs
unfolding delete_key
length-delete_key id [] h c = cc
length-delete_key id (x ∷ xs) (n, h) c =
    ground (arith, n, c, delete_key_absent id xs, length-delete_key id xs h)
