-- ===== src/Treap/Immutable.antt =====
-- database/internal/treap/immutable.go: the operations of `Immutable`. An operation returns the new
-- treap, and the old one is still the value that it was. The priority that `rand.Int` draws for a
-- new node is an argument. The node pool is left out: it only reuses the memory of nodes that
-- nothing reaches.
use nogocommons.Base.{ℕ, ◌+◌, ◌-◌, ◌%◌, u64_mod, Bool, true, false, Option, none, some}
use nogocommons.Base.{List, [], ◌∷◌, length, Bytes, add64, sub64}
use nogocommons.Treap.Node.{
  Tree, nil, node, Entry, Parents, node_size, descend, find, bubble, sink, plug,
}

pub record Immutable : Type 0 where
  pub root : Tree
  pub count : ℕ
  pub total_size : ℕ

-- `NewImmutable`
unfoldable pub new_immutable : Immutable
new_immutable = record { root = nil; count = 0; total_size = 0 }

-- A nil value is stored as the empty slice.
abbrev pub stored_value : Option Bytes → Bytes
stored_value none = []
stored_value (some v) = v

unfoldable pub len : Immutable → ℕ
len t = t.count

unfoldable pub size : Immutable → ℕ
size t = t.total_size

-- `get`, `Get` and `Has`; `none` is nil.
unfoldable pub get_node : Immutable → Bytes → Option Entry
get_node t k = find k t.root

unfoldable pub get : Immutable → Bytes → Option Bytes
unfolding get_node
get t k = elim (get_node t k) [ none ↦ none | some e ↦ some e.value ]

unfoldable pub has : Immutable → Bytes → Bool
unfolding get_node
has t k = elim (get_node t k) [ none ↦ false | some e ↦ true ]

-- `put` at the place where the search has ended: at nil a new node is linked and rotated up, and a
-- node that holds the key gets the new value.
unfoldable pub put_at : Immutable → Entry → Parents → Tree → Immutable
put_at t e parents nil = record {
  root = bubble nil e nil parents;
  count = t.count + 1;
  total_size = add64 t.total_size (node_size e);
}
put_at t e parents (node l old r) = record {
  root = plug parents (node l (record old { value = e.value }) r);
  count = t.count;
  total_size = add64 (sub64 t.total_size (length old.value)) (length e.value);
}

-- `put`
unfoldable pub put : Immutable → Bytes → Option Bytes → ℕ → Immutable
unfolding put_at
put t k v priority =
    let e : Entry = record { key = k; value = stored_value v; priority = priority } in
    let (parents, place) = descend k t.root [] in
    elim t.root [
      | nil ↦ record { root = node nil e nil; count = 1; total_size = node_size e % u64_mod }
      | node _ _ _ ↦ put_at t e parents place
    ]

pub record KvPair : Type 0 where
  pub key : Bytes
  pub value : Option Bytes
  pub drawn_priority : ℕ

-- `Put`
unfoldable pub put_all : Immutable → List KvPair → Immutable
put_all t [] = t
put_all t (p ∷ ps) = put_all (put t p.key p.value p.drawn_priority) ps

-- `Delete`: the node sinks to a leaf, which is cut off. A treap of one node becomes the empty one.
unfoldable pub delete_from : Immutable → Tree → Entry → Tree → Parents → Immutable
delete_from t nil e nil [] = new_immutable
delete_from t l e r parents = record {
  root = plug (sink l r parents) nil;
  count = t.count - 1;
  total_size = sub64 t.total_size (node_size e);
}

unfoldable pub delete : Immutable → Bytes → Immutable
unfolding delete_from
delete t k =
    let (parents, place) = descend k t.root [] in
    elim place [ nil ↦ t | node l e r ↦ delete_from t l e r parents ]
