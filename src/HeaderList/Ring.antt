-- ===== src/HeaderList/Ring.antt =====
-- neutrino/headerlist/bounded_header_list.go. An index that is -1 is `none`; the size is positive and
-- fits into an `int32`, as the other indexes then do.
use nogocommons.Base.{ℕ, suc, ◌%◌, Bool, true, Option, none, some, leb, ltb}
use nogocommons.Base.{◌==◌, if◌then◌else◌}
use mathlib.Core.Option
use nogocommons.HeaderList.Node.{Node, find_ancestor, get_ancestor_height}

pub record BoundedMemoryChain : Type 0 where
  pub head_ptr : Option ℕ
  pub tail_ptr : Option ℕ
  pub len : ℕ
  pub max_size : ℕ
  pub chain : ℕ → Node

-- A slot that was not written holds any node.
unfoldable pub new_bounded_memory_chain : (ℕ → Node) → ℕ → BoundedMemoryChain
new_bounded_memory_chain nodes max_nodes = record {
  head_ptr = none;
  tail_ptr = none;
  len = 0;
  max_size = max_nodes;
  chain = nodes;
}

-- `ptr++; ptr %= b.maxSize`
unfoldable pub next_ptr : ℕ → Option ℕ → ℕ
next_ptr size none = 0 % size
next_ptr size (some p) = suc p % size

unfoldable pub set_node : ℕ → Node → (ℕ → Node) → ℕ → Node
set_node i n nodes j = if j == i then n else nodes j

-- `buildAncestor` of the node at an index, by its previous node; the walk is at most as long as the
-- chain.
unfoldable pub build_from : ℕ → ℕ → (ℕ → Node) → Option ℕ → Option (ℕ → Node)
unfolding find_ancestor set_node
build_from size i nodes none = some nodes
build_from size i nodes (some p) =
    Option.map (λ a. set_node i (record (nodes i) { ancestor = a }) nodes)
      (find_ancestor (suc size) nodes (get_ancestor_height (nodes i).height) (some p))

unfoldable pub build_ancestor : ℕ → ℕ → (ℕ → Node) → Option (ℕ → Node)
unfolding build_from
build_ancestor size i nodes = build_from size i nodes (nodes i).prev

-- Whether the head moves on: the first insertion, or the tail has reached it.
unfoldable pub head_moves : ℕ → Option ℕ → Bool
head_moves tail none = true
head_moves tail (some head) = leb tail head

-- `PushBack`, and the new node, which is the back.
unfoldable pub push_back : Node → BoundedMemoryChain → Option BoundedMemoryChain
unfolding next_ptr head_moves set_node build_ancestor
push_back n b =
    let prev_elem = if b.max_size == 1 then none else b.tail_ptr in
    let tail = next_ptr b.max_size b.tail_ptr in
    let moves = head_moves tail b.head_ptr in
    let head = next_ptr b.max_size b.head_ptr in
    let cut =
      if moves then set_node head (record (b.chain head) { prev = none }) b.chain else b.chain in
    Option.map
      (λ nodes. record {
        head_ptr = if moves then some head else b.head_ptr;
        tail_ptr = some tail;
        len = if ltb b.max_size (suc b.len) then b.max_size else suc b.len;
        max_size = b.max_size;
        chain = nodes;
      })
      (build_ancestor b.max_size tail
        (set_node tail (record n { prev = prev_elem; ancestor = none }) cut))

-- `ResetHeaderState`
unfoldable pub reset_header_state : Node → BoundedMemoryChain → Option BoundedMemoryChain
unfolding push_back
reset_header_state n b = push_back n (record b { head_ptr = none; tail_ptr = none; len = 0 })

-- `Back` and `Front`; both indices are set by the first insertion.
unfoldable pub back : BoundedMemoryChain → Option ℕ
back b = b.tail_ptr

unfoldable pub front : BoundedMemoryChain → Option ℕ
front b = b.head_ptr
