-- ===== src/Treap/Mutable.antt =====
-- database/internal/treap/mutable.go: the operations of `Mutable`, which change the treap in place:
-- an operation returns the treap as it is afterwards. No node is shared between two treaps, so a
-- tree of values says what the pointers reach. The node and the parent that `get` finds are the
-- place and the top of the parents that `descend` returns, and `relinkGrandparent` is how `bubble`
-- and `sink` hang the rotated node under the parents that are left.
use nogocommons.Base.{ℕ, ◌+◌, ◌-◌, ◌%◌, u64_mod, Bool, true, false, Option, none, some}
use nogocommons.Base.{[], ◌∷◌, length, Bytes, add64, sub64}
use nogocommons.Treap.Node.{Tree, nil, node, Entry, Parents, frame_entry, node_size}
use nogocommons.Treap.Node.{descend, bubble, sink, plug}
use nogocommons.Treap.Immutable.{stored_value}

pub record Mutable : Type 0 where
  pub root : Tree
  pub count : ℕ
  pub total_size : ℕ

-- `NewMutable`
unfoldable pub new_mutable : Mutable
new_mutable = record { root = nil; count = 0; total_size = 0 }

unfoldable pub len : Mutable → ℕ
len t = t.count

unfoldable pub size : Mutable → ℕ
size t = t.total_size

-- `get`: the node that holds the key and its parent; `none` is nil.
unfoldable pub get_node : Mutable → Bytes → Option Entry × Option Entry
get_node t k =
    let (parents, place) = descend k t.root [] in
    elim place [
      | nil ↦ (none, none)
      | node l e r ↦ (some e, elim parents [ [] ↦ none | f ∷ p ↦ some (frame_entry f) ])
    ]

-- `Get` and `Has`
unfoldable pub get : Mutable → Bytes → Option Bytes
unfolding get_node
get t k = elim (get_node t k).0 [ none ↦ none | some e ↦ some e.value ]

unfoldable pub has : Mutable → Bytes → Bool
unfolding get_node
has t k = elim (get_node t k).0 [ none ↦ false | some e ↦ true ]

-- `Put` at the place where the search has ended
unfoldable pub put_at : Mutable → Entry → Parents → Tree → Mutable
put_at t e parents nil = record {
  root = bubble nil e nil parents;
  count = t.count + 1;
  total_size = add64 t.total_size (node_size e);
}
put_at t e parents (node l old r) = record {
  root = plug parents (node l (record old { value = e.value }) r);
  count = t.count;
  total_size = add64 (sub64 t.total_size (length old.value)) (length e.value);
}

-- `Put`
unfoldable pub put : Mutable → Bytes → Option Bytes → ℕ → Mutable
unfolding put_at
put t k v priority =
    let e : Entry = record { key = k; value = stored_value v; priority = priority } in
    let (parents, place) = descend k t.root [] in
    elim t.root [
      | nil ↦ record { root = node nil e nil; count = 1; total_size = node_size e % u64_mod }
      | node _ _ _ ↦ put_at t e parents place
    ]

-- `Reset`
unfoldable pub reset : Mutable → Mutable
reset t = record { root = nil; count = 0; total_size = 0 }

-- `Delete`
unfoldable pub delete_from : Mutable → Tree → Entry → Tree → Parents → Mutable
delete_from t nil e nil [] = record { root = nil; count = 0; total_size = 0 }
delete_from t l e r parents = record {
  root = plug (sink l r parents) nil;
  count = t.count - 1;
  total_size = sub64 t.total_size (node_size e);
}

unfoldable pub delete : Mutable → Bytes → Mutable
unfolding delete_from
delete t k =
    let (parents, place) = descend k t.root [] in
    elim place [ nil ↦ t | node l e r ↦ delete_from t l e r parents ]
