-- ===== src/Treap/HeapDelete.antt =====
-- What `Immutable.Delete` does to the heap order of the priorities: it may break it.
use nogocommons.Base.{ℕ, ◌<◌, ◌≡◌, ap, subst, arith, leb, Bool-cases, inl, inr, true}
use nogocommons.Base.{[], ◌∷◌, compare_refl}
use nogocommons.Treap.Node.{Tree, nil, node, Entry, Parents, went_left, went_right}
use nogocommons.Treap.Node.{descend, sink, plug}
use nogocommons.Treap.Immutable.{Immutable, delete, delete_from}
use nogocommons.Treap.Heap.{IsHeap, IsHeapPath, TopLe, TopLeRoot, TopLe-trans}
use nogocommons.Treap.Heap.{top-left-RootGe, top-right-RootGe}

plug-IsHeapPath :
    (p : Parents) (t : Tree) → IsHeap (plug p t) → IsHeap t × TopLeRoot p t × IsHeapPath p
unfolding plug
plug-IsHeapPath [] nil h = (h, tt, tt)
plug-IsHeapPath [] (node l e r) h = (h, tt, tt)
plug-IsHeapPath (went_left e other ∷ p) t h =
    let (inner, top, path) = plug-IsHeapPath p (node t e other) h in
    (inner.2, top-left-RootGe e other t p inner.0, (inner.1, inner.3, top, path))
plug-IsHeapPath (went_right e other ∷ p) t h =
    let (inner, top, path) = plug-IsHeapPath p (node other e t) h in
    (inner.3, top-right-RootGe e other t p inner.1, (inner.0, inner.2, top, path))

sink-IsHeapPath : (l r : Tree) (p : Parents) → IsHeapPath (sink l r p) → IsHeapPath p
unfolding sink
sink-IsHeapPath nil nil p h = h
sink-IsHeapPath nil (node rl re rr) p h = (sink-IsHeapPath nil rl (went_left re rr ∷ p) h).3
sink-IsHeapPath (node ll le lr) nil p h = (sink-IsHeapPath lr nil (went_right le ll ∷ p) h).3
sink-IsHeapPath (node ll le lr) (node rl re rr) p h =
    elim (Bool-cases (leb re.priority le.priority)) [
      | inl up ↦ (sink-IsHeapPath lr (node rl re rr) (went_right le ll ∷ p) (rw (up, sink) at h)).3
      | inr up ↦ (sink-IsHeapPath (node ll le lr) rl (went_left re rr ∷ p) (rw (up, sink) at h)).3
    ]

-- A node of a lesser priority than a parent that was rotated up never gets above it again.
sink-breaks :
    (l c : Tree) (y : Entry) (d : Tree) (p : Parents)
    → ¬ (IsHeapPath p × TopLe p y.priority)
    → ¬ (IsHeapPath (sink l (node c y d) p))
unfolding sink
sink-breaks nil c y d p over h =
    let path = sink-IsHeapPath nil c (went_left y d ∷ p) h in over (path.3, path.2)
sink-breaks (node ll le lr) c y d p over h = elim (Bool-cases (leb y.priority le.priority)) [
  | inl up ↦
      sink-breaks lr c y d (went_right le ll ∷ p)
        (λ q. over (q.0.3, TopLe-trans p le.priority y.priority q.0.2 q.1)) (rw (up, sink) at h)
  | inr up ↦
      let path = sink-IsHeapPath (node ll le lr) c (went_left y d ∷ p) (rw (up, sink) at h) in
      over (path.3, path.2)
]

descend_here :
    (e : Entry) (l r : Tree) (p : Parents) → descend e.key (node l e r) p ≡ (p, node l e r)
unfolding descend
descend_here e l r p = rw (compare_refl e.key, descend)

delete_root :
    (a b c d : Tree) (x e y : Entry) (count size : ℕ)
    → (delete
        (record { root = node (node a x b) e (node c y d); count = count; total_size = size })
        e.key).root
      ≡ plug (sink (node a x b) (node c y d) []) nil
unfolding delete delete_from
delete_root a b c d x e y count size =
    let t : Immutable = record {
      root = node (node a x b) e (node c y d);
      count = count;
      total_size = size;
    } in
    let leave : Parents × Tree → Immutable =
      λ q. elim q.1 [ nil ↦ t | node l e' r ↦ delete_from t l e' r q.0 ] in
    ap (λ q. (leave q).root) (descend_here e (node a x b) (node c y d) [])

sink_left :
    (a b c d : Tree) (x y : Entry)
    → y.priority < x.priority
    → sink (node a x b) (node c y d) [] ≡ sink b (node c y d) (went_right x a ∷ [])
unfolding sink
sink_left a b c d x y h = let up : leb y.priority x.priority ≡ true = ground arith in rw (up, sink)

-- `Delete` of the key at the root leaves a treap that is not a min-heap whenever the root has
-- two children and the left child has the greater priority: the left child goes up, and the
-- right one ends below it.
pub delete_breaks-IsHeap :
    (a b c d : Tree) (x e y : Entry) (count size : ℕ)
    → y.priority < x.priority
    → ¬ (
        IsHeap
          (delete
            (record { root = node (node a x b) e (node c y d); count = count; total_size = size })
            e.key).root)
delete_breaks-IsHeap a b c d x e y count size h heap =
    let cut : IsHeap (plug (sink (node a x b) (node c y d) []) nil) =
      subst IsHeap (delete_root a b c d x e y count size) heap in
    sink-breaks b c y d (went_right x a ∷ []) (λ q. omega (arith, q.1))
      (subst IsHeapPath (sink_left a b c d x y h) (plug-IsHeapPath _ nil cut).2)
