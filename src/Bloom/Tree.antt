-- ===== src/Bloom/Tree.antt =====
-- What the receiver gets out of a tree that nogoutil/bloom/merkleblock.go has built.
use nogocommons.Base.{ℕ, zero, suc, ◌+◌, ◌*◌, ◌^◌, ◌≤◌, ◌<◌, ◌≡◌, refl, arith, ap, sym, ◌∙◌}
use nogocommons.Base.{Bool, true, false, ◌||◌, Option, some, List, [], ◌++◌, Bytes, length, ltb}
use nogocommons.Base.{get_elem?, get_elem?_inside, append_assoc, Bool-cases, inl, inr, ltb→lt}
use nogocommons.Bloom.Filter.{and_then}
use nogocommons.Bloom.Found.{and_then-some}
use nogocommons.Bloom.Merkle.{calc_tree_width, is_parent_from, hash_merkle_branches, calc_hash}
use nogocommons.Bloom.Partial.{leaf_at, matched_from}
use nogocommons.Bloom.Widths.{FitsAt, FitsAt-below, ltb-calc_tree_width, first_child}

-- A hash and a bit for each transaction.
pub record IsTree (n : ℕ) (hashes : List Bytes) (matched : List Bool) : Type 0 where
  pub some_tx : 0 < n
  pub hash_each : length hashes ≡ n
  pub bit_each : length matched ≡ n

pub matched_from-append :
    (matched : List Bool) (hashes : List Bytes) (a b i : ℕ)
    → matched_from matched hashes (a + b) i
      ≡ matched_from matched hashes a i ++ matched_from matched hashes b (i + a)
unfolding matched_from
matched_from-append matched hashes zero b i =
    let e : 0 + b ≡ b = omega arith in
    let z : i ≡ i + 0 = omega arith in
    ap (λ t. matched_from matched hashes t i) e ∙ ap (matched_from matched hashes b) z
matched_from-append matched hashes (suc a) b i =
    let e : suc a + b ≡ suc (a + b) = omega arith in
    let z : suc i + a ≡ i + suc a = omega arith in
    let here = leaf_at (get_elem? matched i) (get_elem? hashes i) i in
    ap (λ t. matched_from matched hashes t i) e
    ∙ ap (λ t. here ++ t)
        (matched_from-append matched hashes a b (suc i)
          ∙ ap (λ t. matched_from matched hashes a (suc i) ++ matched_from matched hashes b t) z)
    ∙ sym (append_assoc here (matched_from matched hashes a (suc i)) _)

-- A node without the bit has no leaf that matches.
pub is_parent_from-none :
    (matched : List Bool) (hashes : List Bytes) (r i : ℕ) (acc : Bool)
    → i + r ≤ length matched
    → (b : Bool) × (is_parent_from matched r i acc ≡ some b)
      × (acc ≡ true → b ≡ true)
      × (b ≡ false → matched_from matched hashes r i ≡ [])
unfolding is_parent_from matched_from
is_parent_from-none matched hashes zero i acc l = (acc, refl, λ h. h, λ h. refl)
is_parent_from-none matched hashes (suc r) i acc l =
    let (c, e) = get_elem?_inside matched i (omega arith) in
    let (b, e', k, z) = is_parent_from-none matched hashes r (suc i) (acc || c) (omega arith) in
    (
      b,
      and_then-some (get_elem? matched i) (λ c. is_parent_from matched r (suc i) (acc || c)) c e
          ∙ e',
      λ h. k (ground (arith, h)),
      λ h.
          let no : c ≡ false = ground (arith, h, k) in
          ap (λ o. leaf_at o (get_elem? hashes i) i ++ matched_from matched hashes r (suc i))
            (e ∙ ap some no)
          ∙ z h,
    )

module _ (sum256 : Bytes → Bytes) (n : ℕ) (hashes : List Bytes) where
  -- A node with two children, and one with one child.
  pub calc_hash-two :
      (h pos : ℕ) (l r : Bytes)
      → ltb (pos * 2 + 1) (calc_tree_width n h) ≡ true
      → calc_hash sum256 n hashes h (pos * 2) ≡ some l
      → calc_hash sum256 n hashes h (pos * 2 + 1) ≡ some r
      → calc_hash sum256 n hashes (suc h) pos ≡ some (hash_merkle_branches sum256 l r)
  unfolding calc_hash
  calc_hash-two h pos l r t el er =
      let two : Option Bytes =
        and_then (calc_hash sum256 n hashes h (pos * 2 + 1))
          λ right. some (hash_merkle_branches sum256 l right) in
      let one : Option Bytes = some (hash_merkle_branches sum256 l l) in
      and_then-some (calc_hash sum256 n hashes h (pos * 2)) _ l el
      ∙ ap (λ (b : Bool). elim b as (λ _. Option Bytes) [ true ↦ two | false ↦ one ]) t
      ∙ and_then-some (calc_hash sum256 n hashes h (pos * 2 + 1)) _ r er

  pub calc_hash-one :
      (h pos : ℕ) (l : Bytes)
      → ltb (pos * 2 + 1) (calc_tree_width n h) ≡ false
      → calc_hash sum256 n hashes h (pos * 2) ≡ some l
      → calc_hash sum256 n hashes (suc h) pos ≡ some (hash_merkle_branches sum256 l l)
  unfolding calc_hash
  calc_hash-one h pos l t el =
      let two : Option Bytes =
        and_then (calc_hash sum256 n hashes h (pos * 2 + 1))
          λ right. some (hash_merkle_branches sum256 l right) in
      let one : Option Bytes = some (hash_merkle_branches sum256 l l) in
      and_then-some (calc_hash sum256 n hashes h (pos * 2)) _ l el
      ∙ ap (λ (b : Bool). elim b as (λ _. Option Bytes) [ true ↦ two | false ↦ one ]) t

  calc_hash-leaf :
      (pos : ℕ)
      → 0 < n
      → length hashes ≡ n
      → pos < n
      → (x : Bytes) × (calc_hash sum256 n hashes 0 pos ≡ some x)
  unfolding calc_hash
  calc_hash-leaf pos p e l = get_elem?_inside hashes pos (omega arith)

  pub calc_hash-some :
      (h pos : ℕ)
      → 0 < n
      → length hashes ≡ n
      → FitsAt n h
      → pos * 2 ^ h < n
      → (x : Bytes) × (calc_hash sum256 n hashes h pos ≡ some x)
  calc_hash-some zero pos p e f l = calc_hash-leaf pos p e (omega (arith, l))
  calc_hash-some (suc h) pos p e f l =
      let f' = FitsAt-below n h f in
      let (a, ea) = calc_hash-some h (pos * 2) p e f' (omega (arith, l, first_child h pos)) in
      let w = ltb-calc_tree_width n h (pos * 2 + 1) p f' in
      elim (Bool-cases (ltb (pos * 2 + 1) (calc_tree_width n h))) [
        | inl t ↦
            let (b, eb) = calc_hash-some h (pos * 2 + 1) p e f' (ltb→lt _ n (sym w ∙ t)) in
            (_, calc_hash-two h pos a b t ea eb)
        | inr t ↦ (_, calc_hash-one h pos a t ea)
      ]
