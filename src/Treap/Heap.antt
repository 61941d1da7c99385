-- ===== src/Treap/Heap.antt =====
-- The min-heap order of the priorities: what `put` does to it, and what `Delete` does.
use nogocommons.Base.{ℕ, ◌≤◌, arith, leb, leb→le, Bool-cases, inl, inr, Option, Ordering-cases}
use nogocommons.Base.{[], ◌∷◌, Bytes, compare_bytes}
use nogocommons.Treap.Node.{Tree, nil, node, Entry, Parents, went_left, went_right}
use nogocommons.Treap.Node.{descend, bubble, plug}
use nogocommons.Treap.Immutable.{Immutable, put, put_at, stored_value}

-- The root of a tree, if there is one, has at least the priority `n`.
abbrev pub RootGe : ℕ → Tree → Type 0
RootGe n nil = Unit
RootGe n (node l e r) = n ≤ e.priority

-- No node has a lesser priority than its parent.
abbrev pub IsHeap : Tree → Type 0
IsHeap nil = Unit
IsHeap (node l e r) = RootGe e.priority l × RootGe e.priority r × IsHeap l × IsHeap r

-- The top parent, if there is one, has at most the priority `n`.
abbrev pub TopLe : Parents → ℕ → Type 0
TopLe [] n = Unit
TopLe (went_left e other ∷ p) n = e.priority ≤ n
TopLe (went_right e other ∷ p) n = e.priority ≤ n

abbrev pub TopLeRoot : Parents → Tree → Type 0
TopLeRoot p nil = Unit
TopLeRoot p (node l e r) = TopLe p e.priority

-- The heap order among the parents and the children beside the way.
abbrev pub IsHeapPath : Parents → Type 0
IsHeapPath [] = Unit
IsHeapPath (went_left e other ∷ p) =
    RootGe e.priority other × IsHeap other × TopLe p e.priority × IsHeapPath p
IsHeapPath (went_right e other ∷ p) =
    RootGe e.priority other × IsHeap other × TopLe p e.priority × IsHeapPath p

RootGe-top-left :
    (e : Entry) (other t : Tree) (p : Parents)
    → TopLeRoot (went_left e other ∷ p) t
    → RootGe e.priority t
RootGe-top-left e other nil p h = tt
RootGe-top-left e other (node l x r) p h = h

RootGe-top-right :
    (e : Entry) (other t : Tree) (p : Parents)
    → TopLeRoot (went_right e other ∷ p) t
    → RootGe e.priority t
RootGe-top-right e other nil p h = tt
RootGe-top-right e other (node l x r) p h = h

pub TopLe-trans : (p : Parents) (m n : ℕ) → TopLe p m → m ≤ n → TopLe p n
TopLe-trans [] m n h k = tt
TopLe-trans (went_left e other ∷ p) m n h k = omega arith
TopLe-trans (went_right e other ∷ p) m n h k = omega arith

TopLeRoot-of-RootGe : (p : Parents) (m : ℕ) (t : Tree) → TopLe p m → RootGe m t → TopLeRoot p t
TopLeRoot-of-RootGe p m nil h k = tt
TopLeRoot-of-RootGe p m (node l e r) h k = TopLe-trans p m e.priority h k

pub plug-IsHeap :
    (p : Parents) (t : Tree) → IsHeapPath p → IsHeap t → TopLeRoot p t → IsHeap (plug p t)
unfolding plug
plug-IsHeap [] t hp ht top = ht
plug-IsHeap (went_left e other ∷ p) t (ge, ho, above, hp) ht top =
    plug-IsHeap p (node t e other) hp (RootGe-top-left e other t p top, ge, ht, ho) above
plug-IsHeap (went_right e other ∷ p) t (ge, ho, above, hp) ht top =
    plug-IsHeap p (node other e t) hp (ge, RootGe-top-right e other t p top, ho, ht) above

-- Rotating up restores the heap order, if only the rotated node may break it.
pub bubble-IsHeap :
    (l : Tree) (e : Entry) (r : Tree) (p : Parents)
    → IsHeapPath p
    → IsHeap (node l e r)
    → TopLeRoot p l
    → TopLeRoot p r
    → IsHeap (bubble l e r p)
unfolding bubble
bubble-IsHeap l e r [] hp h tl tr = h
bubble-IsHeap l e r (went_left f other ∷ p) hp h tl tr =
    elim (Bool-cases (leb f.priority e.priority)) [
      | inl stop ↦
          rw (stop, bubble)
            (plug-IsHeap (went_left f other ∷ p) (node l e r) hp h (leb→le _ _ stop))
      | inr on ↦
          rw (on, bubble)
            (bubble-IsHeap l e (node r f other) p hp.3
              (h.0, ground arith, h.2, (RootGe-top-left f other r p tr, hp.0, h.3, hp.1))
              (TopLeRoot-of-RootGe p f.priority l hp.2 (RootGe-top-left f other l p tl)) hp.2)
    ]
bubble-IsHeap l e r (went_right f other ∷ p) hp h tl tr =
    elim (Bool-cases (leb f.priority e.priority)) [
      | inl stop ↦
          rw (stop, bubble)
            (plug-IsHeap (went_right f other ∷ p) (node l e r) hp h (leb→le _ _ stop))
      | inr on ↦
          rw (on, bubble)
            (bubble-IsHeap (node other f l) e r p hp.3
              (ground arith, h.1, (hp.0, RootGe-top-right f other l p tl, hp.1, h.2), h.3) hp.2
              (TopLeRoot-of-RootGe p f.priority r hp.2 (RootGe-top-right f other r p tr)))
    ]

pub top-left-RootGe :
    (e : Entry) (other t : Tree) (p : Parents)
    → RootGe e.priority t
    → TopLeRoot (went_left e other ∷ p) t
top-left-RootGe e other nil p h = tt
top-left-RootGe e other (node l x r) p h = h

pub top-right-RootGe :
    (e : Entry) (other t : Tree) (p : Parents)
    → RootGe e.priority t
    → TopLeRoot (went_right e other ∷ p) t
top-right-RootGe e other nil p h = tt
top-right-RootGe e other (node l x r) p h = h

descend-IsHeapPath :
    (k : Bytes) (t : Tree) (p : Parents)
    → IsHeapPath p
    → IsHeap t
    → TopLeRoot p t
    → IsHeapPath (descend k t p).0
      × IsHeap (descend k t p).1
      × TopLeRoot (descend k t p).0 (descend k t p).1
unfolding descend
descend-IsHeapPath k nil p hp h top = (hp, h, top)
descend-IsHeapPath k (node l e r) p hp h top = elim (Ordering-cases (compare_bytes k e.key)) [
  | inl less ↦
      rw (less, descend)
        (descend-IsHeapPath k l (went_left e r ∷ p) (h.1, h.3, top, hp) h.2
          (top-left-RootGe e r l p h.0))
  | inr (inl same) ↦ rw (same, descend) (hp, h, top)
  | inr (inr more) ↦
      rw (more, descend)
        (descend-IsHeapPath k r (went_right e l ∷ p) (h.0, h.2, top, hp) h.3
          (top-right-RootGe e l r p h.1))
]

put_at-IsHeap :
    (t : Immutable) (e : Entry) (p : Parents) (place : Tree)
    → IsHeapPath p
    → IsHeap place
    → TopLeRoot p place
    → IsHeap (put_at t e p place).root
unfolding put_at
put_at-IsHeap t e p nil hp h top = bubble-IsHeap nil e nil p hp (tt, tt, tt, tt) tt tt
put_at-IsHeap t e p (node l old r) hp h top =
    plug-IsHeap p (node l (record old { value = e.value }) r) hp h top

-- `put` keeps the min-heap order of the priorities of any treap that has it, whatever priority
-- is drawn: no node has a lesser priority than its parent.
pub put-IsHeap :
    (t : Immutable) (k : Bytes) (v : Option Bytes) (n : ℕ)
    → IsHeap t.root
    → IsHeap (put t k v n).root
put-IsHeap t k v n = go t.root t.count t.total_size
  where
    go :
        (root : Tree) (count size : ℕ)
        → IsHeap root
        → IsHeap (put (record { root = root; count = count; total_size = size }) k v n).root
    go nil count size h = unfold put in (tt, tt, tt, tt)
    go (node l e r) count size h =
        let (path, place, top) = descend-IsHeapPath k (node l e r) [] tt h tt in
        unfold put in
        put_at-IsHeap (record { root = node l e r; count = count; total_size = size })
          (record { key = k; value = stored_value v; priority = n }) (descend k (node l e r) []).0
          (descend k (node l e r) []).1 path place top
