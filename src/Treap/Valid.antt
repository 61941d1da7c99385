-- ===== src/Treap/Valid.antt =====
-- The invariant of an immutable treap, its abstract view, and that `get` reads the view.
use nogocommons.Base.{◌%◌, ◌≡◌, refl, sym, ap, subst, ◌∙◌, arith, Option, none, some}
use nogocommons.Base.{[], ◌∷◌, ◌++◌, length, append_assoc, Bytes, u64_mod}
use nogocommons.Treap.Node.{Tree, nil, node, Entry, Parents, went_left, went_right, descend, find}
use nogocommons.Treap.Immutable.{Immutable, get}
use nogocommons.Treap.Inorder.{inorder, before, after, inorder-descend}
use nogocommons.Treap.Order.{Ascending, IsPlace, descend-IsPlace}
use nogocommons.Treap.SortedMap.{Pairs, pairs, lookup, sizes}
use nogocommons.Treap.Gaps.{lookup_hit, lookup_miss}

-- The keys ascend, and the two cached numbers are the number of the nodes and their bytes.
pub record IsValid (t : Immutable) : Type 0 where
  pub ordered : Ascending (inorder t.root)
  pub counted : t.count ≡ length (inorder t.root)
  pub sized : t.total_size ≡ sizes (inorder t.root) % u64_mod

abbrev pub view : Immutable → Pairs
view t = pairs (inorder t.root)

abbrev pub entry_at : Tree → Option Entry
entry_at nil = none
entry_at (node l e r) = some e

-- `find` finds what stands at the place where the search ends.
find-descend : (k : Bytes) (t : Tree) (p : Parents) → find k t ≡ entry_at (descend k t p).1
unfolding find descend
find-descend k nil p = refl
find-descend k (node l e r) p =
    ground (arith, find-descend k l (went_left e r ∷ p), find-descend k r (went_right e l ∷ p))

abbrev pub value_at : Tree → Option Bytes
value_at nil = none
value_at (node l e r) = some e.value

pub value-find :
    (k : Bytes) (t : Tree)
    → elim (find k t) [ none ↦ none | some e ↦ some e.value ] ≡ value_at (descend k t []).1
value-find k t = rw (find-descend k t []) (value-entry (descend k t []).1)
  where
    value-entry :
        (t : Tree) → elim (entry_at t) [ none ↦ none | some e ↦ some e.value ] ≡ value_at t
    value-entry nil = refl
    value-entry (node l e r) = refl

-- The entries around a node that the search has found.
pub around :
    (p : Parents) (l : Tree) (e : Entry) (r : Tree)
    → before p ++ (inorder (node l e r) ++ after p)
      ≡ (before p ++ inorder l) ++ (e ∷ (inorder r ++ after p))
around p l e r = simp append_assoc

lookup_at :
    (k : Bytes) (p : Parents) (place : Tree)
    → IsPlace k p place
    → Ascending (before p ++ (inorder place ++ after p))
    → value_at place ≡ lookup k (pairs (before p ++ (inorder place ++ after p)))
lookup_at k p nil i h = sym (lookup_miss k (before p) (after p) i.below i.above)
lookup_at k p (node l e r) i h =
    rw (← i.holds, around p l e r)
      (sym (lookup_hit (before p ++ inorder l) (inorder r ++ after p) e (rw (around p l e r) at h)))

-- On a valid treap, `Get` returns the value that the sorted list of the pairs has for the key,
-- and nil exactly when the key is not in it.
pub get-lookup : (t : Immutable) (k : Bytes) → IsValid t → get t k ≡ lookup k (view t)
unfolding get
get-lookup t k v =
    let (p, place) = descend k t.root [] in
    value-find k t.root
    ∙ lookup_at k p place (descend-IsPlace k t.root [] v.ordered tt tt)
        (subst Ascending (inorder-descend k t.root) v.ordered)
    ∙ ap (λ xs. lookup k (pairs xs)) (sym (inorder-descend k t.root))
