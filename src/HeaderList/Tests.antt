-- ===== src/HeaderList/Tests.antt =====
-- Chains of neutrino/headerlist at concrete headers.
use nogocommons.Base.{ℕ, zero, suc, ◌+◌, ◌≡◌, refl, arith, none, some, List, [], ◌∷◌, map}
use mathlib.Core.Option
use nogocommons.Wire.Header.{BlockHeader}
use nogocommons.HeaderList.Node.{
  Node, get_ancestor_height, invert_lowest_one, find_ancestor, walk, next_back,
}
use nogocommons.HeaderList.Ring.{
  BoundedMemoryChain, new_bounded_memory_chain, push_back, back, front, next_ptr, head_moves,
  set_node, build_ancestor, build_from,
}
use nogocommons.HeaderList.Items.{content}
use nogocommons.HeaderList.Newest.{push_all, HoldsNewest, push_all-HoldsNewest}

abbrev header_with : ℕ → BlockHeader
header_with nonce = record {
  version = 1;
  prev_block = [];
  merkle_root = [];
  timestamp = 0;
  bits = 0;
  nonce = nonce;
}

abbrev node_at : ℕ → Node
node_at h = record { height = h; header = header_with h; prev = none; ancestor = none }

-- Nodes from the height 100 on, the last one first.
abbrev nodes_up_to : ℕ → List Node
nodes_up_to zero = node_at 100 ∷ []
nodes_up_to (suc n) = node_at (100 + suc n) ∷ nodes_up_to n

-- Seven nodes in a ring of three.
push_all-HoldsNewest_example :
    (b : BoundedMemoryChain) × (push_all 3 (λ i. node_at 0) (nodes_up_to 6) ≡ some b)
    × HoldsNewest 3 (map content (nodes_up_to 6)) b
push_all-HoldsNewest_example =
    push_all-HoldsNewest 3 100 (λ i. node_at 0) (node_at 106) (nodes_up_to 5) (omega arith)
      (refl, (refl, (refl, (refl, (refl, (refl, (refl, tt)))))))

-- The front stands in the slot after the back.
wrapped :
    (Option.map back (push_all 3 (λ i. node_at 0) (nodes_up_to 6)) ≡ some (some 0))
    × (Option.map front (push_all 3 (λ i. node_at 0) (nodes_up_to 6)) ≡ some (some 1))
unfolding push_all new_bounded_memory_chain push_back next_ptr head_moves set_node build_ancestor
    build_from find_ancestor walk next_back get_ancestor_height invert_lowest_one back front
wrapped = (refl, refl)

skips : map get_ancestor_height (6 ∷ 7 ∷ 12 ∷ 15 ∷ []) ≡ 0 ∷ 4 ∷ 0 ∷ 12 ∷ []
unfolding get_ancestor_height invert_lowest_one
skips = refl
