-- ===== src/Treap/Delete.antt =====
-- `Immutable.Delete` keeps the invariant and erases from the abstract view.
use nogocommons.Base.{◌-◌, ◌≡◌, refl, sym, ap, ◌∙◌, arith, sub64}
use nogocommons.Base.{[], ◌∷◌, ◌++◌, length, length-append, append_assoc, Bytes}
use nogocommons.Treap.Node.{Tree, nil, node, node_size, Entry, Parents, descend, sink, plug}
use nogocommons.Treap.Immutable.{Immutable, new_immutable, delete, delete_from}
use nogocommons.Treap.Inorder.{inorder, before, after, inorder-plug, inorder-descend, inorder-sink}
use nogocommons.Treap.Order.{Ascending, IsPlace, descend-IsPlace}
use nogocommons.Treap.SortedMap.{erase, sizes, sizes-append}
use nogocommons.Treap.Gaps.{erase_hit, erase_miss, Ascending-remove}
use nogocommons.Treap.Valid.{IsValid, view, around}

-- Sinking the node at the place and cutting it off leaves the other entries.
inorder-cut :
    (l r : Tree) (p : Parents)
    → inorder (plug (sink l r p) nil) ≡ (before p ++ inorder l) ++ (inorder r ++ after p)
inorder-cut l r p = inorder-plug (sink l r p) nil ∙ inorder-sink l r p ∙ simp append_assoc

-- A treap of one node is no special case for the view, the count and the size.
delete_from-parts :
    (t : Immutable) (l : Tree) (e : Entry) (r : Tree) (p : Parents)
    → IsValid t
    → inorder t.root ≡ (before p ++ inorder l) ++ (e ∷ (inorder r ++ after p))
    → delete_from t l e r p ≡ record {
      root = plug (sink l r p) nil;
      count = t.count - 1;
      total_size = sub64 t.total_size (node_size e);
    }
unfolding delete_from
delete_from-parts t nil e nil [] v whole =
    unfold new_immutable plug sink in ground (arith, ap length whole, ap sizes whole)
delete_from-parts t nil e nil (f ∷ p) v whole = refl
delete_from-parts t nil e (node _ _ _) p v whole = refl
delete_from-parts t (node _ _ _) e r p v whole = refl

module _ (t : Immutable) (p : Parents) (v : IsValid t) where
  delete_node-IsValid :
      (l : Tree) (e : Entry) (r : Tree)
      → inorder t.root ≡ (before p ++ inorder l) ++ (e ∷ (inorder r ++ after p))
      → IsValid (delete_from t l e r p) × (view (delete_from t l e r p) ≡ erase e.key (view t))
  delete_node-IsValid l e r whole =
      let xs = before p ++ inorder l in
      let ys = inorder r ++ after p in
      let h : Ascending (xs ++ (e ∷ ys)) = rw whole at v.ordered in
      rw (delete_from-parts t l e r p v whole) (
        record {
          ordered = rw (inorder-cut l r p) (Ascending-remove xs ys e h);
          counted = rw (inorder-cut l r p) (
              omega (
                arith,
                v.counted,
                ap length whole,
                length-append xs (e ∷ ys),
                length-append xs ys,
              ));
          sized = rw (inorder-cut l r p) (
              omega (arith, v.sized, ap sizes whole, sizes-append xs (e ∷ ys), sizes-append xs ys));
        },
        rw (inorder-cut l r p, whole) (sym (erase_hit xs ys e h)),
      )

  delete_place-IsValid :
      (k : Bytes) (place : Tree)
      → IsPlace k p place
      → inorder t.root ≡ before p ++ (inorder place ++ after p)
      → let u : Immutable = elim place [ nil ↦ t | node l e r ↦ delete_from t l e r p ] in
        IsValid u × (view u ≡ erase k (view t))
  delete_place-IsValid k nil i whole =
      (v, rw whole (sym (erase_miss k (before p) (after p) i.below i.above)))
  delete_place-IsValid k (node l e r) i whole =
      rw (← i.holds) (delete_node-IsValid l e r (whole ∙ around p l e r))

delete-IsValid-view :
    (t : Immutable) (k : Bytes)
    → IsValid t
    → IsValid (delete t k) × (view (delete t k) ≡ erase k (view t))
unfolding delete
delete-IsValid-view t k v =
    delete_place-IsValid t (descend k t.root []).0 v k (descend k t.root []).1
      (descend-IsPlace k t.root [] v.ordered tt tt) (inorder-descend k t.root)

-- `Delete` keeps a treap valid: the keys ascend in order, the count is the number of nodes, and
-- the total size is the sum of the node sizes modulo 2^64.
pub delete-IsValid : (t : Immutable) (k : Bytes) → IsValid t → IsValid (delete t k)
delete-IsValid t k v = (delete-IsValid-view t k v).0

-- On a valid treap, `Delete` erases the key from the sorted list of the pairs, and changes
-- nothing when the key is absent.
pub view-delete : (t : Immutable) (k : Bytes) → IsValid t → view (delete t k) ≡ erase k (view t)
view-delete t k v = (delete-IsValid-view t k v).1
