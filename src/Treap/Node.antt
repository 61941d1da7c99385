-- ===== src/Treap/Node.antt =====
-- database/internal/treap/common.go, and the loops that immutable.go and mutable.go share.
-- A pointer that may be nil is a tree; a node on the way down from the root is a frame, which holds
-- the node's own fields and the child that the way does not take. The stack of parents is the list
-- of the frames, the latest first, so `plug` is what the pointers reach from the root.
use nogocommons.Base.{ℕ, ◌+◌, true, false, Option, none, some, lt, eq, gt}
use nogocommons.Base.{List, [], ◌∷◌, length, leb, Bytes, compare_bytes}

-- The fields `key`, `value` and `priority` of a `treapNode`. A stored value is never nil.
pub record Entry : Type 0 where
  pub key : Bytes
  pub value : Bytes
  pub priority : ℕ

pub data Tree : Type 0 where
  nil : Tree
  node : Tree → Entry → Tree → Tree

-- `nodeFieldsSize`
abbrev pub node_fields_size : ℕ
node_fields_size = 72

-- `nodeSize`
abbrev pub node_size : Entry → ℕ
node_size e = node_fields_size + (length e.key + length e.value)

-- A parent on the way: its fields, and the child on the other side of the way.
pub data Frame : Type 0 where
  went_left : Entry → Tree → Frame
  went_right : Entry → Tree → Frame

abbrev pub Parents : Type 0
Parents = List Frame

abbrev pub attach : Frame → Tree → Tree
attach (went_left e other) t = node t e other
attach (went_right e other) t = node other e t

abbrev pub frame_entry : Frame → Entry
frame_entry (went_left e other) = e
frame_entry (went_right e other) = e

-- What hangs under the root when `t` hangs under the top parent.
unfoldable pub plug : Parents → Tree → Tree
plug [] t = t
plug (f ∷ p) t = plug p (attach f t)

-- The search loop that pushes each node it passes, down to the key or to a nil child.
unfoldable pub descend : Bytes → Tree → Parents → Parents × Tree
descend k nil p = (p, nil)
descend k (node l e r) p = elim (compare_bytes k e.key) [
  | lt ↦ descend k l (went_left e r ∷ p)
  | gt ↦ descend k r (went_right e l ∷ p)
  | eq ↦ (p, node l e r)
]

-- The loop of `get`, which keeps no parents.
unfoldable pub find : Bytes → Tree → Option Entry
find k nil = none
find k (node l e r) = elim (compare_bytes k e.key) [ lt ↦ find k l | gt ↦ find k r | eq ↦ some e ]

-- The loop of the insertion that rotates the node with entry `e` above each parent of a greater
-- priority: a right rotation where the node is the left child, a left rotation where it is the right.
unfoldable pub bubble : Tree → Entry → Tree → Parents → Tree
bubble l e r [] = node l e r
bubble l e r (went_left pe other ∷ p) = elim (leb pe.priority e.priority) [
  | true ↦ plug (went_left pe other ∷ p) (node l e r)
  | false ↦ bubble l e (node r pe other) p
]
bubble l e r (went_right pe other ∷ p) = elim (leb pe.priority e.priority) [
  | true ↦ plug (went_right pe other ∷ p) (node l e r)
  | false ↦ bubble (node other pe l) e r p
]

-- The loop of the deletion that rotates the node to delete, whose children are the two trees, down
-- to a leaf, and returns the parents that it has then. Between two children the left one goes up if
-- its priority is not less than the right one's.
unfoldable pub sink : Tree → Tree → Parents → Parents
sink nil nil p = p
sink nil (node rl re rr) p = sink nil rl (went_left re rr ∷ p)
sink (node ll le lr) nil p = sink lr nil (went_right le ll ∷ p)
sink (node ll le lr) (node rl re rr) p = elim (leb re.priority le.priority) [
  | true ↦ sink lr (node rl re rr) (went_right le ll ∷ p)
  | false ↦ sink (node ll le lr) rl (went_left re rr ∷ p)
]
