-- ===== src/HeaderList/Pushed.antt =====
-- The new node of `PushBack` of neutrino/headerlist/bounded_header_list.go in its slot: the chain
-- starts, grows by one, or slides on by one when it is full.
use nogocommons.Base.{ℕ, suc, ◌+◌, ◌%◌, ◌≤◌, ◌<◌, ◌≡◌, ap, arith}
use nogocommons.Base.{false, Option, none, some, ◌==◌, if◌then◌else◌}
use nogocommons.Base.{inl, inr, Bool-cases}
use native.Mathlib.Nat.{add-mod_right}
use nogocommons.Wire.Header.{BlockHeader}
use nogocommons.HeaderList.Node.{Node}
use nogocommons.HeaderList.Ring.{set_node}
use nogocommons.HeaderList.Window.{PointsTo, IsWindow}
use nogocommons.HeaderList.Push.{slot_apart}

PointsTo-grow :
    (size lo hi : ℕ) (a : Option ℕ) → PointsTo size lo hi a → PointsTo size lo (suc hi) a
PointsTo-grow size lo hi none p = tt
PointsTo-grow size lo hi (some s) (j, l, h, e) = (j, l, omega arith, e)

PointsTo-slide :
    (size lo hi : ℕ) (a : Option ℕ)
    → 0 < size
    → hi ≡ lo + size
    → PointsTo size lo hi a
    → PointsTo size (suc lo) (suc hi) a
PointsTo-slide size lo hi none z s p = tt
PointsTo-slide size lo hi (some p) z s (j, l, h, e) = elim (Bool-cases (j == lo)) [
  | inl t ↦ (hi, omega arith, omega arith, ground (arith, t, e, s, add-mod_right lo size))
  | inr n ↦ (j, ground (arith, n), omega arith, e)
]

set_node-PointsTo :
    (size lo hi i j : ℕ) (n : Node) (nodes : ℕ → Node)
    → PointsTo size lo hi n.ancestor
    → (j == i ≡ false → PointsTo size lo hi (nodes j).ancestor)
    → PointsTo size lo hi (set_node i n nodes j).ancestor
unfolding set_node
set_node-PointsTo size lo hi i j n nodes p q = elim (Bool-cases (j == i)) [
  | inl t ↦ rw t p
  | inr e ↦ rw e (q e)
]

same_slot : (size k n : ℕ) → k % size == n % size ≡ false → k < suc n → k < n
same_slot size k n e h = elim (Bool-cases (k == n)) [
  | inl t ↦
      let same : k ≡ n = ground (arith, t) in absurd (ground (arith, e, ap (λ i. i % size) same))
  | inr t ↦ ground (arith, t, h)
]

module _ (size base : ℕ) (headers : ℕ → BlockHeader) (nodes : ℕ → Node) (x : Node) where
  abbrev new_node : Option ℕ → Node
  new_node prev = record x { prev = prev; ancestor = none }

  pub start-IsWindow :
      x.height ≡ base
      → headers 0 ≡ x.header
      → IsWindow size 0 1 base headers
          (set_node (0 % size) (record x { prev = none; ancestor = none }) nodes)
  unfolding set_node
  start-IsWindow h e = record {
    height_at = λ k l u. ground (arith, h);
    header_at = λ k l u. ground (arith, e);
    prev_first = ground arith;
    prev_next = λ k l u. absurd (omega arith);
    ancestor_at = λ k l u. ground arith;
  }

  pub grow-IsWindow :
      (lo m : ℕ)
      → lo ≤ m
      → suc m < lo + size
      → x.height ≡ base + suc m
      → headers (suc m) ≡ x.header
      → IsWindow size lo (suc m) base headers nodes
      → IsWindow size lo
          (suc (suc m))
          base
          headers
          (set_node (suc m % size) (record x { prev = some (m % size); ancestor = none }) nodes)
  unfolding set_node
  grow-IsWindow lo m l s h e w = record {
    height_at = λ k l' u.
        ground (arith, h, Bool-cases (k == suc m), w.height_at k l', slot_apart size k (suc m));
    header_at = λ k l' u.
        ground (arith, e, Bool-cases (k == suc m), w.header_at k l', slot_apart size k (suc m));
    prev_first = ground (arith, w.prev_first, slot_apart size lo (suc m));
    prev_next = λ k l' u.
        ground (arith, Bool-cases (k == m), w.prev_next k l', slot_apart size (suc k) (suc m));
    ancestor_at = λ k l' u.
        set_node-PointsTo size lo (suc (suc m)) (suc m % size) (k % size)
          (new_node (some (m % size))) nodes tt
          (λ n.
            PointsTo-grow size lo (suc m) _ (w.ancestor_at k l' (same_slot size k (suc m) n u)));
  }

  pub slide-IsWindow :
      (lo m : ℕ)
      → suc m ≡ lo + size
      → 0 < size
      → x.height ≡ base + suc m
      → headers (suc m) ≡ x.header
      → IsWindow size lo (suc m) base headers nodes
      → IsWindow size (suc lo) (suc (suc m)) base headers (
          set_node
            (suc m % size)
            (record x { prev = if size == 1 then none else some (m % size); ancestor = none })
            (set_node (suc lo % size) (record (nodes (suc lo % size)) { prev = none }) nodes))
  unfolding set_node
  slide-IsWindow lo m s z h e w = record {
    height_at = λ k l' u.
        ground (
          arith,
          h,
          Bool-cases (k == suc m),
          w.height_at k (omega arith),
          slot_apart size k (suc m),
        );
    header_at = λ k l' u.
        ground (
          arith,
          e,
          Bool-cases (k == suc m),
          w.header_at k (omega arith),
          slot_apart size k (suc m),
        );
    prev_first = ground (arith, Bool-cases (size == 1), slot_apart size (suc lo) (suc m));
    prev_next = λ k l' u. ground (
      arith,
      Bool-cases (k == m),
      w.prev_next k (omega arith),
      slot_apart size (suc k) (suc m),
      slot_apart size (suc lo) (suc k),
    );
    ancestor_at = λ k l' u.
        set_node-PointsTo size (suc lo) (suc (suc m)) (suc m % size) (k % size)
          (new_node (if size == 1 then none else some (m % size)))
          (set_node (suc lo % size) (record (nodes (suc lo % size)) { prev = none }) nodes) tt
          (λ n.
            let before = same_slot size k (suc m) n u in
            set_node-PointsTo size (suc lo) (suc (suc m)) (suc lo % size) (k % size)
              (record (nodes (suc lo % size)) { prev = none }) nodes
              (PointsTo-slide size lo (suc m) _ z s
                (w.ancestor_at (suc lo) (omega arith) (omega arith)))
              (λ n'. PointsTo-slide size lo (suc m) _ z s (w.ancestor_at k (omega arith) before)));
  }
