-- ===== src/Treap/Traverse.antt =====
-- `ForEach` of immutable.go and mutable.go: the loop over a stack of nodes, whose left children are
-- done. The callback is a function on a state `S`, and answers whether to go on.
use nogocommons.Base.{ℕ, zero, suc, ◌+◌, ◌≤◌, ◌≡◌, refl, ◌∙◌, arith, Bool, true, false, Option}
use nogocommons.Base.{
  none, some, List, [], ◌∷◌, ◌++◌, length, length-append, append-nil, append_assoc, Bytes,
}
use nogocommons.Treap.Node.{Tree, nil, node, Entry}
use nogocommons.Treap.Immutable.{Immutable}
use nogocommons.Treap.Mutable.{Mutable}
use nogocommons.Treap.Inorder.{inorder}
use nogocommons.Treap.SortedMap.{Pairs, pairs}

abbrev pub Pending : Type 0
Pending = List (Entry × Tree)

-- Push a node and all children to the left of it.
unfoldable pub push_left : Tree → Pending → Pending
push_left nil s = s
push_left (node l e r) s = push_left l ((e, r) ∷ s)

-- The number of nodes: as many rounds as the loop takes at most.
unfoldable pub nodes : Tree → ℕ
nodes nil = 0
nodes (node l e r) = nodes l + suc (nodes r)

module _ {ℓ} {S : Type ℓ} (fn : S → Bytes → Bytes → S × Bool) where
  -- `none` means that the rounds ran out.
  unfoldable pub walk : ℕ → Pending → S → Option S
  walk fuel [] s = some s
  walk zero (x ∷ stack) s = none
  walk (suc fuel) ((e, r) ∷ stack) s =
      let (s', more) = fn s e.key e.value in
      elim more [ true ↦ walk fuel (push_left r stack) s' | false ↦ some s' ]

  unfoldable pub for_each : Immutable → S → Option S
  unfolding walk push_left nodes
  for_each t s = walk (nodes t.root) (push_left t.root []) s

  unfoldable pub for_each_mutable : Mutable → S → Option S
  unfolding walk push_left nodes
  for_each_mutable t s = walk (nodes t.root) (push_left t.root []) s

  -- The callback on the pairs in turn, until it answers `false`.
  unfoldable pub visit : Pairs → S → S
  visit [] s = s
  visit ((k, v) ∷ m) s = let (s', more) = fn s k v in elim more [ true ↦ visit m s' | false ↦ s' ]

nodes-length : (t : Tree) → nodes t ≡ length (inorder t)
unfolding nodes
nodes-length nil = refl
nodes-length (node l e r) =
    omega (arith, nodes-length l, nodes-length r, length-append (inorder l) (e ∷ inorder r))

-- The entries that the stack still stands for.
abbrev pending : Pending → List Entry
pending [] = []
pending ((e, r) ∷ s) = e ∷ (inorder r ++ pending s)

pending-push_left : (t : Tree) (s : Pending) → pending (push_left t s) ≡ inorder t ++ pending s
unfolding push_left
pending-push_left nil s = refl
pending-push_left (node l e r) s = pending-push_left l ((e, r) ∷ s) ∙ simp append_assoc

module _ {ℓ} {S : Type ℓ} (fn : S → Bytes → Bytes → S × Bool) where
  walk-visit :
      (fuel : ℕ) (stack : Pending) (s : S)
      → length (pending stack) ≤ fuel
      → walk fn fuel stack s ≡ some (visit fn (pairs (pending stack)) s)
  unfolding walk visit
  walk-visit zero [] s h = refl
  walk-visit (suc fuel) [] s h = refl
  walk-visit zero (x ∷ stack) s h = absurd (omega arith)
  walk-visit (suc fuel) ((e, r) ∷ stack) s h =
      ground (
        arith,
        pending-push_left r stack,
        walk-visit fuel (push_left r stack) (fn s e.key e.value).0,
      )

  -- `ForEach` ends on every treap after at most as many rounds as there are nodes, and has then
  -- called the callback on the pairs in the order of the traversal, until it first answered
  -- false.
  pub for_each-visit :
      (t : Immutable) (s : S) → for_each fn t s ≡ some (visit fn (pairs (inorder t.root)) s)
  unfolding for_each
  for_each-visit t s = ground (
    arith,
    append-nil (inorder t.root),
    nodes-length t.root,
    pending-push_left t.root [],
    walk-visit (nodes t.root) (push_left t.root []) s,
  )
