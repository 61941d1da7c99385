-- ===== src/HeaderList/Newest.antt =====
-- A chain of neutrino/headerlist holds the newest nodes that were pushed onto it.
use nogocommons.Base.{ℕ, zero, suc, ◌+◌, ◌-◌, ◌%◌, ◌≤◌, ◌<◌, ◌≡◌, refl, ap, sym, ◌∙◌, subst, arith}
use nogocommons.Base.{◌&&◌, Option, none, some, leb, ltb, if◌then◌else◌}
use nogocommons.Base.{min, List, [], ◌∷◌, take, map, length, length-map}
use mathlib.Core.Option
use nogocommons.Wire.Header.{BlockHeader}
use nogocommons.HeaderList.Node.{Node, find_ancestor}
use nogocommons.HeaderList.Ring.{
  BoundedMemoryChain, new_bounded_memory_chain, push_back, back, front, reset_header_state,
}
use nogocommons.HeaderList.Window.{IsWindow, at_height, find_ancestor_lem}
use nogocommons.HeaderList.Runs.{IsRing, start-IsRing, push_back-IsRing, ring}
use nogocommons.HeaderList.Items.{
  Item, content, AreConsecutive, visit, find_height, oldest, header_of, down, take-down, find-down,
  oldest-down, take-length,
}

-- The insertions, the last one first.
unfoldable pub push_all : ℕ → (ℕ → Node) → List Node → Option BoundedMemoryChain
unfolding new_bounded_memory_chain push_back
push_all size nodes [] = some (new_bounded_memory_chain nodes size)
push_all size nodes (x ∷ xs) = elim (push_all size nodes xs) [
  | none ↦ none
  | some b ↦ push_back x b
]

module _ (size base m lo : ℕ) (headers : ℕ → BlockHeader) (nodes : ℕ → Node)
    (w : IsWindow size lo (suc m) base headers nodes) where
  visit-down :
      (fuel n : ℕ)
      → lo + n ≤ m
      → n < fuel
      → visit (suc fuel) nodes (some ((lo + n) % size)) ≡ down base headers lo (suc n)
  visit-down zero n h f = absurd (omega arith)
  visit-down (suc fuel) zero h f = ground (
    arith,
    w.height_at (lo + 0) (omega arith) (omega arith),
    w.header_at (lo + 0) (omega arith) (omega arith),
    w.prev_first,
  )
  visit-down (suc fuel) (suc n) h f = ground (
    arith,
    w.height_at (lo + suc n) (omega arith) (omega arith),
    w.header_at (lo + suc n) (omega arith) (omega arith),
    w.prev_next (lo + n) (omega arith) (omega arith),
    visit-down fuel n (omega arith) (omega arith),
  )

  -- What a search finds has the height and the header of the number.
  found-content :
      (height : ℕ)
      → Option.map
          (λ i. content (nodes i))
          (if leb height (base + m) then at_height size lo base height else none)
        ≡ (if leb (base + lo) height && leb height (base + m)
            then some (height, headers (height - base))
            else none)
  found-content height = ground (arith, w.height_at (height - base), w.header_at (height - base))

-- What the chain promises of the nodes that it was given, the newest first.
pub record HoldsNewest (size : ℕ) (given : List Item) (b : BoundedMemoryChain) : Type 0 where
  pub len_at : b.len ≡ min (length given) size
  pub visited : visit (suc size) b.chain (back b) ≡ take size given
  pub front_at : Option.map (λ i. content (b.chain i)) (front b) ≡ oldest (take size given)
  pub searched :
      (height : ℕ)
      → Option.map
          (Option.map (λ i. content (b.chain i)))
          (find_ancestor (suc size) b.chain height (back b))
        ≡ some (find_height height (take size given))

module _ (size base : ℕ) (x : Node) (xs : List Node) (z : 0 < size)
    (c : AreConsecutive base (x ∷ xs)) where
  -- The nodes that are kept are numbered from `first` on, `suc span` of them.
  abbrev span : ℕ
  span = min (length xs) (size - 1)

  abbrev first : ℕ
  first = suc (length xs) - size

  taken : take size (map content (x ∷ xs)) ≡ down base (header_of x xs) first (suc span)
  taken =
      let kept : min (length (map content (x ∷ xs))) size ≡ suc span =
        omega (arith, length-map content xs) in
      take-length size (map content (x ∷ xs))
      ∙ ap (λ k. take k (map content (x ∷ xs))) kept
      ∙ take-down base x xs first (suc span) c (omega arith)

  last_kept : length xs ≡ first + span
  last_kept = omega arith

  same_range :
      (height : ℕ) (e : Item)
      → (if leb (base + first) height && leb height (base + length xs) then some e else none) ≡ (
          if leb (base + first) height && ltb height (base + (first + suc span))
          then some e
          else none)
  same_range height e = ground (arith, last_kept)

  ring-HoldsNewest :
      (nodes : ℕ → Node)
      → IsWindow size first (suc (length xs)) base (header_of x xs) nodes
      → HoldsNewest size (map content (x ∷ xs)) (ring size (length xs) nodes)
  unfolding back front
  ring-HoldsNewest nodes w = record {
    len_at = omega (arith, length-map content xs);
    visited =
        ap (λ i. visit (suc size) nodes (some (i % size))) last_kept
        ∙ visit-down size base (length xs) first (header_of x xs) nodes w size span (omega arith)
            (omega arith)
        ∙ sym taken;
    front_at = ground (
      arith,
      w.height_at first (omega arith) (omega arith),
      w.header_at first (omega arith) (omega arith),
      oldest-down base (header_of x xs) first span,
      taken,
    );
    searched = λ height.
        ap (Option.map (Option.map (λ i. content (nodes i)))) (
          find_ancestor_lem size first (suc (length xs)) base (header_of x xs) nodes w size height
            (length xs) (omega arith) (omega arith) (omega arith))
        ∙ ap some (
            found-content size base (length xs) first (header_of x xs) nodes w height
            ∙ same_range height (height, header_of x xs (height - base))
            ∙ sym (find-down base (header_of x xs) first height (suc span))
            ∙ sym (ap (find_height height) taken));
  }

with_headers-IsRing :
    (size base m : ℕ) (f g : ℕ → BlockHeader) (b : BoundedMemoryChain)
    → ((k : ℕ) → k < suc m → f k ≡ g k)
    → IsRing size base m f b
    → IsRing size base m g b
with_headers-IsRing size base m f g b e r = record {
  nodes = r.nodes;
  same = r.same;
  window = record {
    height_at = r.window.height_at;
    header_at = λ k l h. r.window.header_at k l h ∙ e k h;
    prev_first = r.window.prev_first;
    prev_next = r.window.prev_next;
    ancestor_at = r.window.ancestor_at;
  };
}

push_all-IsRing :
    (size base : ℕ) (nodes : ℕ → Node) (x : Node) (xs : List Node)
    → 0 < size
    → AreConsecutive base (x ∷ xs)
    → (b : BoundedMemoryChain) × (push_all size nodes (x ∷ xs) ≡ some b)
      × IsRing size base (length xs) (header_of x xs) b
unfolding push_all
push_all-IsRing size base nodes x [] z (h, c) =
    start-IsRing size base (header_of x []) x nodes z (omega arith) refl
push_all-IsRing size base nodes x (y ∷ ys) z (h, c) =
    let (b, e, r) = push_all-IsRing size base nodes y ys z c in
    let r' =
      with_headers-IsRing size base (length ys) (header_of y ys) (header_of x (y ∷ ys)) b
        (λ k l. ground (arith, l)) r in
    let (b', e', r'') =
      push_back-IsRing size base (length ys) (header_of x (y ∷ ys)) x b z h (ground arith) r' in
    (b', rw (e, e') refl, r'')

-- For a positive size and headers of consecutive heights, pushed one after the other onto a
-- chain with any stale slots: every `PushBack` succeeds, since the walk of `Ancestor` ends; then
-- following `Prev` from the back visits exactly the newest headers, as many as the size allows,
-- the front is the oldest of these, the length is their number, and `Ancestor` from the back
-- finds for every height what a linear search of them finds.
pub push_all-HoldsNewest :
    (size base : ℕ) (nodes : ℕ → Node) (x : Node) (xs : List Node)
    → 0 < size
    → AreConsecutive base (x ∷ xs)
    → (b : BoundedMemoryChain) × (push_all size nodes (x ∷ xs) ≡ some b)
      × HoldsNewest size (map content (x ∷ xs)) b
push_all-HoldsNewest size base nodes x xs z c =
    let (b, e, r) = push_all-IsRing size base nodes x xs z c in
    (
      b,
      e,
      subst (HoldsNewest size (map content (x ∷ xs))) (sym r.same)
          (ring-HoldsNewest size base x xs z c r.nodes r.window),
    )

-- A reset chain is one that only this node was pushed onto.
reset_push :
    (x : Node) (b : BoundedMemoryChain)
    → reset_header_state x b ≡ push_all b.max_size b.chain (x ∷ [])
unfolding reset_header_state push_all new_bounded_memory_chain
reset_push x b = refl
