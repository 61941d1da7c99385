-- ===== src/Bloom/Merkle.antt =====
-- nogoutil/bloom/merkleblock.go: the partial merkle tree of the transactions that match. A byte 0x01 or
-- 0x00 is a Boolean here, a result `none` is an index out of range, and sha256 is a parameter. The number
-- of a node stays below that of the transactions, so `pos*2` and `pos*2+1` are no words that wrap around.
use nogocommons.Base.{ℕ, zero, suc, ◌+◌, ◌-◌, ◌*◌, ◌/◌, ◌%◌, ◌^◌, min, Bool, true, false, ◌||◌}
use nogocommons.Base.{Option, some, List, [], ◌∷◌, ◌++◌, Bytes, get_elem?, ltb, u32_mod}
use nogocommons.Bloom.Filter.{and_then}

pub record MerkleBlock : Type 0 where
  pub num_tx : ℕ
  pub all_hashes : List Bytes
  pub final_hashes : List Bytes
  pub matched_bits : List Bool
  pub bits : List Bool

-- In 32-bit words, where the sum and the shift wrap around.
unfoldable pub calc_tree_width : ℕ → ℕ → ℕ
calc_tree_width num_tx height =
    (num_tx + 2 ^ height % u32_mod + (u32_mod - 1)) % u32_mod / 2 ^ height

-- The rounds of the loop over the leaves of a node, from the number `i` on.
unfoldable pub is_parent_from : List Bool → ℕ → ℕ → Bool → Option Bool
is_parent_from matched zero i acc = some acc
is_parent_from matched (suc n) i acc =
    and_then (get_elem? matched i) λ b. is_parent_from matched n (suc i) (acc || b)

-- Whether a leaf below a node matches.
unfoldable pub is_parent : List Bool → ℕ → ℕ → ℕ → Option Bool
unfolding is_parent_from
is_parent matched num_tx height pos =
    let first = pos * 2 ^ height % u32_mod in
    let end = (pos + 1) % u32_mod * 2 ^ height % u32_mod in
    is_parent_from matched (min end num_tx - first) first false

module _ (sum256 : Bytes → Bytes) where
  abbrev pub hash_merkle_branches : Bytes → Bytes → Bytes
  hash_merkle_branches left right = sum256 (sum256 (left ++ right))

  -- The hash of a node, from the number of the transactions and their hashes.
  unfoldable pub calc_hash : ℕ → List Bytes → ℕ → ℕ → Option Bytes
  unfolding calc_tree_width
  calc_hash num_tx hashes zero pos = get_elem? hashes pos
  calc_hash num_tx hashes (suc h) pos = and_then (calc_hash num_tx hashes h (pos * 2)) λ left.
      elim (ltb (pos * 2 + 1) (calc_tree_width num_tx h)) [
        | true ↦
            and_then (calc_hash num_tx hashes h (pos * 2 + 1))
              λ right. some (hash_merkle_branches left right)
        | false ↦ some (hash_merkle_branches left left)
      ]

  -- The hash of a node becomes a final one.
  unfoldable pub add_hash : ℕ → ℕ → MerkleBlock → Option MerkleBlock
  unfolding calc_hash
  add_hash height pos m =
      and_then (calc_hash m.num_tx m.all_hashes height pos)
        λ x. some (record m { final_hashes = m.final_hashes ++ (x ∷ []) })

  abbrev pub add_bit : Bool → MerkleBlock → MerkleBlock
  add_bit b m = record m { bits = m.bits ++ (b ∷ []) }

  unfoldable pub traverse_and_build : ℕ → ℕ → MerkleBlock → Option MerkleBlock
  unfolding is_parent add_hash calc_tree_width
  traverse_and_build zero pos m =
      and_then (is_parent m.matched_bits m.num_tx 0 pos) λ b. add_hash 0 pos (add_bit b m)
  traverse_and_build (suc h) pos m = and_then (is_parent m.matched_bits m.num_tx (suc h) pos) λ b.
      elim b [
        | false ↦ add_hash (suc h) pos (add_bit false m)
        | true ↦ and_then (traverse_and_build h (pos * 2) (add_bit true m)) λ m'.
            elim (ltb (pos * 2 + 1) (calc_tree_width m.num_tx h)) [
              | true ↦ traverse_and_build h (pos * 2 + 1) m'
              | false ↦ some m'
            ]
      ]
