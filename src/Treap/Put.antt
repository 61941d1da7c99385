-- ===== src/Treap/Put.antt =====
-- `Immutable.put` keeps the invariant and inserts into the abstract view.
use nogocommons.Base.{ℕ, ◌%◌, ◌≡◌, refl, sym, ap, ◌∙◌, arith, Option}
use nogocommons.Base.{List, [], ◌∷◌, ◌++◌, length, length-append, Bytes, u64_mod}
use nogocommons.Treap.Node.{Tree, nil, node, Entry, Parents, descend, bubble}
use nogocommons.Treap.Immutable.{Immutable, KvPair, put, put_at, put_all, stored_value}
use nogocommons.Treap.Inorder.{
  inorder, before, after, inorder-plug, inorder-descend, inorder-bubble,
}
use nogocommons.Treap.Order.{Ascending, IsPlace, descend-IsPlace}
use nogocommons.Treap.SortedMap.{Pairs, insert, pairs-append, sizes, sizes-append}
use nogocommons.Treap.Gaps.{insert_hit, insert_miss, Ascending-set, Ascending-add}
use nogocommons.Treap.Valid.{IsValid, view, around}

module _ (t : Immutable) (e : Entry) (p : Parents) where
  -- What `put` leaves, in the order of a traversal, at a place that the search has found.
  inorder-put_nil : inorder (put_at t e p nil).root ≡ before p ++ (e ∷ after p)
  unfolding put_at
  inorder-put_nil = inorder-bubble nil e nil p

  inorder-put_node :
      (l : Tree) (old : Entry) (r : Tree)
      → inorder (put_at t e p (node l old r)).root
        ≡ (before p ++ inorder l) ++ (record old { value = e.value } ∷ (inorder r ++ after p))
  unfolding put_at
  inorder-put_node l old r =
      inorder-plug p (node l (record old { value = e.value }) r)
      ∙ around p l (record old { value = e.value }) r

-- At a valid treap the empty root is no special case.
put-put_at :
    (t : Immutable) (k : Bytes) (v : Option Bytes) (n : ℕ)
    → IsValid t
    → put t k v n
      ≡ put_at t
          (record { key = k; value = stored_value v; priority = n })
          (descend k t.root []).0
          (descend k t.root []).1
put-put_at t k v n h = go t.root t.count t.total_size h.ordered h.counted h.sized
  where
    go :
        (root : Tree) (count size : ℕ)
        → Ascending (inorder root)
        → count ≡ length (inorder root)
        → size ≡ sizes (inorder root) % u64_mod
        → let t' : Immutable = record { root = root; count = count; total_size = size } in
          put t' k v n
          ≡ put_at t'
              (record { key = k; value = stored_value v; priority = n })
              (descend k root []).0
              (descend k root []).1
    go nil count size o c s = unfold put descend put_at bubble in ground arith
    go (node l e r) count size o c s = unfold put in refl

-- `put_at` keeps the invariant and inserts into the view, for every place that a search has found.
module _ (t : Immutable) (e : Entry) (p : Parents) (v : IsValid t) where
  put_nil-IsValid :
      IsPlace e.key p nil
      → inorder t.root ≡ before p ++ after p
      → IsValid (put_at t e p nil) × (view (put_at t e p nil) ≡ insert e.key e.value (view t))
  put_nil-IsValid i whole = (
    record {
      ordered =
          rw (inorder-put_nil t e p)
            (Ascending-add (before p) (after p) e i.below i.above (rw whole at v.ordered));
      counted = rw (inorder-put_nil t e p) (
          unfold put_at in
          rw length-append
            (omega (arith, v.counted, ap length whole, length-append (before p) (after p))));
      sized = rw (inorder-put_nil t e p) (
          unfold put_at in
          rw sizes-append
            (omega (arith, v.sized, ap sizes whole, sizes-append (before p) (after p))));
    },
    rw (inorder-put_nil t e p, whole, insert_miss e.key (before p) (after p) i.below i.above)
        (pairs-append (before p) (e ∷ after p)),
  )

  put_node-IsValid :
      (l : Tree) (old : Entry) (r : Tree)
      → old.key ≡ e.key
      → inorder t.root ≡ (before p ++ inorder l) ++ (old ∷ (inorder r ++ after p))
      → IsValid (put_at t e p (node l old r))
        × (view (put_at t e p (node l old r)) ≡ insert e.key e.value (view t))
  put_node-IsValid l old r same whole =
      let xs = before p ++ inorder l in
      let ys = inorder r ++ after p in
      let h : Ascending (xs ++ (old ∷ ys)) = rw whole at v.ordered in
      let new : Entry = record old { value = e.value } in
      (
        record {
          ordered = rw (inorder-put_node t e p l old r) (Ascending-set xs ys old h e.value);
          counted = rw (inorder-put_node t e p l old r) (
              unfold put_at in
              omega (
                arith,
                v.counted,
                ap length whole,
                length-append xs (old ∷ ys),
                length-append xs (new ∷ ys),
              ));
          sized = rw (inorder-put_node t e p l old r) (
              unfold put_at in
              omega (
                arith,
                v.sized,
                ap sizes whole,
                sizes-append xs (old ∷ ys),
                sizes-append xs (new ∷ ys),
              ));
        },
        rw (inorder-put_node t e p l old r, whole, ← same) (sym (insert_hit xs ys old h e.value)),
      )

  put_at-IsValid :
      (place : Tree)
      → IsPlace e.key p place
      → inorder t.root ≡ before p ++ (inorder place ++ after p)
      → IsValid (put_at t e p place) × (view (put_at t e p place) ≡ insert e.key e.value (view t))
  put_at-IsValid nil i whole = put_nil-IsValid i whole
  put_at-IsValid (node l old r) i whole =
      put_node-IsValid l old r i.holds (whole ∙ around p l old r)

put-IsValid-view :
    (t : Immutable) (k : Bytes) (v : Option Bytes) (n : ℕ)
    → IsValid t
    → IsValid (put t k v n) × (view (put t k v n) ≡ insert k (stored_value v) (view t))
put-IsValid-view t k v n h = rw (put-put_at t k v n h) (
    put_at-IsValid t (record { key = k; value = stored_value v; priority = n })
      (descend k t.root []).0 h (descend k t.root []).1
      (descend-IsPlace k t.root [] h.ordered tt tt) (inorder-descend k t.root))

-- `put` keeps a treap valid: the keys ascend in order, the count is the number of nodes, and the
-- total size is the sum of the node sizes modulo 2^64.
pub put-IsValid :
    (t : Immutable) (k : Bytes) (v : Option Bytes) (n : ℕ) → IsValid t → IsValid (put t k v n)
put-IsValid t k v n h = (put-IsValid-view t k v n h).0

-- On a valid treap, `put` inserts the key with its value (the empty slice for nil) into the
-- sorted list of the pairs, or replaces the value there, whatever priority is drawn.
pub view-put :
    (t : Immutable) (k : Bytes) (v : Option Bytes) (n : ℕ)
    → IsValid t
    → view (put t k v n) ≡ insert k (stored_value v) (view t)
view-put t k v n h = (put-IsValid-view t k v n h).1

-- The insertions of `Put`, one after the other.
unfoldable pub insert_all : Pairs → List KvPair → Pairs
insert_all m [] = m
insert_all m (p ∷ ps) = insert_all (insert p.key (stored_value p.value) m) ps

-- `Put` of several pairs on a valid treap leaves a valid treap whose sorted list of pairs is
-- that after the insertions in turn.
pub put_all-IsValid-view :
    (ps : List KvPair) (t : Immutable)
    → IsValid t
    → IsValid (put_all t ps) × (view (put_all t ps) ≡ insert_all (view t) ps)
unfolding put_all insert_all
put_all-IsValid-view [] t v = (v, refl)
put_all-IsValid-view (p ∷ ps) t v =
    let (valid, seen) =
      put_all-IsValid-view ps (put t p.key p.value p.drawn_priority)
        (put-IsValid t p.key p.value p.drawn_priority v) in
    (valid, seen ∙ ap (λ m. insert_all m ps) (view-put t p.key p.value p.drawn_priority v))
