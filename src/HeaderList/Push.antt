-- ===== src/HeaderList/Push.antt =====
-- `PushBack` of neutrino/headerlist/bounded_header_list.go keeps the window of nodes.
use nogocommons.Base.{ℕ, suc, ◌+◌, ◌-◌, ◌%◌, ◌≤◌, ◌<◌, ◌≡◌, refl, ap, ◌∙◌, subst, arith}
use nogocommons.Base.{false, Option, none, some, leb, ltb, ◌==◌, if◌then◌else◌}
use nogocommons.Base.{inl, inr, Bool-cases}
use native.Mathlib.Nat.{mod-eq-sub-mod, mod-eq_of_lt, mod-lt, mod-add-mod}
use mathlib.Core.Option
use nogocommons.Wire.Header.{BlockHeader}
use nogocommons.HeaderList.Node.{Node, get_ancestor_height}
use nogocommons.HeaderList.Ring.{set_node, build_ancestor, build_from}
use nogocommons.HeaderList.Window.{PointsTo, IsWindow, at_height, find_ancestor_lem}

-- Numbers that lie less than the size apart have different slots.
slot_ne : (size k d : ℕ) → suc d < size → (k % size == (k + suc d) % size) ≡ false
slot_ne size k d h = ground (
  arith,
  h,
  mod-lt k {m = size} (omega arith),
  mod-add-mod k size (suc d),
  Bool-cases (ltb (k % size + suc d) size),
  mod-eq_of_lt {n = k % size + suc d} {m = size},
  mod-eq-sub-mod {n = k % size + suc d} {m = size},
  mod-eq_of_lt {n = k % size + suc d - size} {m = size},
)

pub slot_apart : (size k n : ℕ) → k < n → n < k + size → (k % size == n % size) ≡ false
slot_apart size k n l h =
    subst (λ i. (k % size == i % size) ≡ false) (omega arith)
      (slot_ne size k (n - suc k) (omega arith))

at_height-PointsTo :
    (size lo hi base height k : ℕ)
    → k < hi
    → PointsTo size lo hi (if leb height (base + k) then at_height size lo base height else none)
at_height-PointsTo size lo hi base height k h = elim (Bool-cases (leb height (base + k))) [
  | inr n ↦ rw n tt
  | inl t ↦ elim (Bool-cases (leb (base + lo) height)) [
    | inr n ↦ rw (t, n) tt
    | inl u ↦ rw (t, u) (height - base, ground (arith, t, u), ground (arith, t, u, h), refl)
  ]
]

-- Changing a skip pointer to one into the chain keeps the window.
with_ancestor-IsWindow :
    (size lo hi base : ℕ) (headers : ℕ → BlockHeader) (nodes : ℕ → Node) (i : ℕ) (a : Option ℕ)
    → IsWindow size lo hi base headers nodes
    → PointsTo size lo hi a
    → IsWindow size lo hi base headers (set_node i (record (nodes i) { ancestor = a }) nodes)
unfolding set_node
with_ancestor-IsWindow size lo hi base headers nodes i a w p = record {
  height_at = λ k l h. ground (arith, w.height_at k l h);
  header_at = λ k l h. ground (arith, w.header_at k l h);
  prev_first = ground (arith, w.prev_first);
  prev_next = λ k l h. ground (arith, w.prev_next k l h);
  ancestor_at = λ k l h. ground (arith, p, w.ancestor_at k l h);
}

-- The skip pointer of the last node, when it has one before it.
module _ (size lo base m : ℕ) (headers : ℕ → BlockHeader) (nodes : ℕ → Node)
    (w : IsWindow size lo (suc m) base headers nodes) where
  first_ancestor : m ≡ lo → build_ancestor size (m % size) nodes ≡ some nodes
  unfolding build_ancestor build_from
  first_ancestor e =
      ap (build_from size (m % size) nodes) (ap (λ i. (nodes (i % size)).prev) e ∙ w.prev_first)

  found : ℕ → Option ℕ
  found k =
      let height = get_ancestor_height (nodes (m % size)).height in
      if leb height (base + k) then at_height size lo base height else none

  later_ancestor :
      (k : ℕ)
      → m ≡ suc k
      → lo ≤ k
      → k < size + lo
      → build_ancestor size (m % size) nodes
        ≡ some (set_node (m % size) (record (nodes (m % size)) { ancestor = found k }) nodes)
  unfolding build_ancestor build_from found
  later_ancestor k e l f =
      let height = get_ancestor_height (nodes (m % size)).height in
      ap (build_from size (m % size) nodes)
        (ap (λ i. (nodes (i % size)).prev) e ∙ w.prev_next k l (omega arith))
      ∙ ap
          (Option.map (λ a. set_node (m % size) (record (nodes (m % size)) { ancestor = a }) nodes))
          (find_ancestor_lem size lo (suc m) base headers nodes w size height k l (omega arith) f)

  pub build_ancestor-IsWindow :
      lo ≤ m
      → m ≤ size + lo
      → (nodes' : ℕ → Node) × (build_ancestor size (m % size) nodes ≡ some nodes')
        × IsWindow size lo (suc m) base headers nodes'
  unfolding found
  build_ancestor-IsWindow l f = elim (Bool-cases (m == lo)) [
    | inl e ↦ (nodes, first_ancestor (ground (arith, e)), w)
    | inr n ↦ (
      set_node (m % size) (record (nodes (m % size)) { ancestor = found (m - 1) }) nodes,
      later_ancestor (m - 1) (ground (arith, n)) (ground (arith, n)) (ground (arith, n)),
      with_ancestor-IsWindow size lo (suc m) base headers nodes (m % size) (found (m - 1)) w
          (at_height-PointsTo size lo (suc m) base _ (m - 1) (omega arith)),
    )
  ]
