-- ===== src/Bloom/Widths.antt =====
-- The nodes of the tree in nogoutil/bloom/merkleblock.go, without wrap-around.
use nogocommons.Base.{ℕ, suc, ◌+◌, ◌-◌, ◌*◌, ◌/◌, ◌%◌, ◌^◌, ◌≤◌, ◌<◌, ◌≡◌, arith, min}
use nogocommons.Base.{Bool, false, List, ltb}
use nogocommons.Base.{Bool-cases, inl, inr, lt→ltb, ltb→lt, u32_mod, ap, sym, ◌∙◌}
use nogocommons.Bloom.Merkle.{calc_tree_width, is_parent, is_parent_from}
use nogocommons.Bloom.Partial.{span}
use native.Mathlib.Nat.{one-le-pow, pow-suc, le-div_iff_mul-le, mul-le-mul_left}

-- The words do not wrap around at this height.
abbrev pub FitsAt : ℕ → ℕ → Type 0
FitsAt num_tx h = num_tx + 2 ^ h ≤ u32_mod

pub FitsAt-below : (num_tx h : ℕ) → FitsAt num_tx (suc h) → FitsAt num_tx h
FitsAt-below num_tx h f = omega (arith, pow-suc 2 h)

width_plain :
    (num_tx h : ℕ)
    → 0 < num_tx
    → FitsAt num_tx h
    → calc_tree_width num_tx h ≡ (num_tx + 2 ^ h - 1) / 2 ^ h
unfolding calc_tree_width
width_plain num_tx h p f =
    let a : (num_tx + 2 ^ h % u32_mod + (u32_mod - 1)) % u32_mod ≡ num_tx + 2 ^ h - 1 =
      omega (arith, one-le-pow h 2 (omega arith)) in
    ap (λ z. z / 2 ^ h) a

ltb_iff : (a b c d : ℕ) → (a < b → c < d) → (c < d → a < b) → ltb a b ≡ ltb c d
ltb_iff a b c d to from = elim (Bool-cases (ltb a b)) [
  | inl t ↦ t ∙ sym (lt→ltb c d (to (ltb→lt a b t)))
  | inr n ↦ elim (Bool-cases (ltb c d)) [
    | inl t ↦ absurd (ground (arith, n, lt→ltb a b (from (ltb→lt c d t))))
    | inr n' ↦ n ∙ sym n'
  ]
]

-- A node is there exactly if it has a leaf.
pub ltb-calc_tree_width :
    (num_tx h pos : ℕ)
    → 0 < num_tx
    → FitsAt num_tx h
    → ltb pos (calc_tree_width num_tx h) ≡ ltb (pos * 2 ^ h) num_tx
ltb-calc_tree_width num_tx h pos p f =
    let one : 1 ≤ 2 ^ h = one-le-pow h 2 (omega arith) in
    let (to, from) =
      le-div_iff_mul-le {k = 2 ^ h} {x = pos + 1} {y = num_tx + 2 ^ h - 1} (omega (arith, one)) in
    ap (ltb pos) (width_plain num_tx h p f)
    ∙ ltb_iff pos ((num_tx + 2 ^ h - 1) / 2 ^ h) (pos * 2 ^ h) num_tx
        (λ l. let z = to (omega (arith, l)) in omega (arith, z, one))
        (λ l. let z = from (omega (arith, l, one)) in omega (arith, z))

pub is_parent-span :
    (matched : List Bool) (num_tx h pos : ℕ)
    → FitsAt num_tx h
    → pos * 2 ^ h < num_tx
    → is_parent matched num_tx h pos
      ≡ is_parent_from matched (span num_tx h pos) (pos * 2 ^ h) false
unfolding is_parent
is_parent-span matched num_tx h pos f l =
    let one : 1 ≤ 2 ^ h = one-le-pow h 2 (omega arith) in
    let le : pos ≤ pos * 2 ^ h = omega (arith, mul-le-mul_left {m = 1} {n = 2 ^ h} pos one) in
    let a : pos * 2 ^ h % u32_mod ≡ pos * 2 ^ h = omega arith in
    let c : (pos + 1) % u32_mod ≡ pos + 1 = omega (arith, le, f, l) in
    let b : (pos + 1) % u32_mod * 2 ^ h % u32_mod ≡ (pos + 1) * 2 ^ h =
      ap (λ z. z * 2 ^ h % u32_mod) c ∙ omega (arith, f, l) in
    ap
      (λ z.
        is_parent_from matched (min z num_tx - pos * 2 ^ h % u32_mod) (pos * 2 ^ h % u32_mod) false)
      b
    ∙ ap (λ z. is_parent_from matched (min ((pos + 1) * 2 ^ h) num_tx - z) z false) a

-- The leaves of a node are those of its children.
pub span_children :
    (num_tx h pos : ℕ)
    → pos * 2 ^ suc h < num_tx
    → (pos * 2 + 1) * 2 ^ h < num_tx
    → (span num_tx (suc h) pos ≡ span num_tx h (pos * 2) + span num_tx h (pos * 2 + 1))
      × (pos * 2 * 2 ^ h + span num_tx h (pos * 2) ≡ (pos * 2 + 1) * 2 ^ h)
span_children num_tx h pos l r =
    let e = pow-suc 2 h in
    (omega (arith, e, ap (λ z. pos * z) e), omega (arith, e, ap (λ z. pos * z) e))

pub span_child :
    (num_tx h pos : ℕ)
    → pos * 2 ^ suc h < num_tx
    → num_tx ≤ (pos * 2 + 1) * 2 ^ h
    → span num_tx (suc h) pos ≡ span num_tx h (pos * 2)
span_child num_tx h pos l r = let e = pow-suc 2 h in omega (arith, e, ap (λ z. pos * z) e)

pub first_child : (h pos : ℕ) → pos * 2 * 2 ^ h ≡ pos * 2 ^ suc h
first_child h pos = let e = pow-suc 2 h in omega (arith, ap (λ z. pos * z) e)
