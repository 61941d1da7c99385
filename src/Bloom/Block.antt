-- ===== src/Bloom/Block.antt =====
-- nogoutil/bloom/merkleblock.go: `NewMerkleBlock`, with the transactions of the block as a list, and
-- `AddTxHash` of wire/msgmerkleblock.go. The block's header goes into the message as it is.
use nogocommons.Base.{
  ℕ, zero, suc, ◌+◌, ◌*◌, ◌/◌, ◌%◌, ◌^◌, Bool, true, false, Option, none, some, List,
}
use nogocommons.Base.{
  [], ◌∷◌, ◌++◌, Bytes, length, get_elem?, set, replicate, ltb, if◌then◌else◌, u32_mod,
}
use nogocommons.Wire.Header.{BlockHeader}
use nogocommons.Wire.Tx.{MsgTx}
use nogocommons.Bloom.Filter.{Filter, and_then}
use nogocommons.Bloom.Match.{tx_hash, match_tx_and_update}
use nogocommons.Bloom.Merkle.{MerkleBlock, calc_tree_width, traverse_and_build}
use Prim.Native.Nat.{bit_or}

pub record MsgMerkleBlock : Type 0 where
  pub header : BlockHeader
  pub transactions : ℕ
  pub hashes : List Bytes
  pub flags : Bytes

abbrev pub max_tx_per_block : ℕ
max_tx_per_block = 400001

unfoldable pub add_tx_hash : List Bytes → Bytes → Option (List Bytes)
add_tx_hash hashes x =
    if ltb max_tx_per_block (length hashes + 1) then none else some (hashes ++ (x ∷ []))

-- The caller passes over an error.
abbrev pub kept_hashes : List Bytes → Option (List Bytes) → List Bytes
kept_hashes hashes none = hashes
kept_hashes hashes (some hashes') = hashes'

unfoldable pub add_tx_hashes : List Bytes → List Bytes → List Bytes
unfolding add_tx_hash
add_tx_hashes hashes [] = hashes
add_tx_hashes hashes (x ∷ xs) = add_tx_hashes (kept_hashes hashes (add_tx_hash hashes x)) xs

abbrev pub bit_value : Bool → ℕ
bit_value true = 1
bit_value false = 0

-- The loop over the bits from the number `i` on.
unfoldable pub set_flags : Bytes → ℕ → List Bool → Option Bytes
set_flags flags i [] = some flags
set_flags flags i (b ∷ bs) =
    and_then (get_elem? flags (i / 8))
      λ old. set_flags (set flags (i / 8) (bit_or old (bit_value b * 2 ^ (i % 8)))) (suc i) bs

-- The rounds of the loop that counts the height, with fuel.
unfoldable pub tree_height : ℕ → ℕ → ℕ → ℕ
unfolding calc_tree_width
tree_height zero num_tx height = height
tree_height (suc fuel) num_tx height = elim (ltb 1 (calc_tree_width num_tx height)) [
  | true ↦ tree_height fuel num_tx (suc height)
  | false ↦ height
]

-- The filter after the block, a bit for each transaction, and the numbers of those that match.
pub record BlockMatch : Type 0 where
  pub filter : Filter
  pub matched_bits : List Bool
  pub matched_indices : List ℕ

module _ (sum256 : Bytes → Bytes) where
  abbrev pub hashes_of : List MsgTx → List Bytes
  hashes_of [] = []
  hashes_of (tx ∷ txs) = tx_hash sum256 tx ∷ hashes_of txs

  -- The message, from the number of the transactions and the matches.
  unfoldable pub message_from : BlockHeader → ℕ → List MsgTx → List Bool → Option MsgMerkleBlock
  unfolding tree_height traverse_and_build set_flags add_tx_hashes
  message_from header num_tx txs matched =
      let start : MerkleBlock = record {
        num_tx = num_tx;
        all_hashes = hashes_of txs;
        final_hashes = [];
        matched_bits = matched;
        bits = [];
      } in
      and_then (traverse_and_build sum256 (tree_height 31 num_tx 0) 0 start) λ m.
        and_then (set_flags (replicate ((length m.bits + 7) / 8) 0) 0 m.bits) λ flags. some record {
          header = header;
          transactions = num_tx;
          hashes = add_tx_hashes [] m.final_hashes;
          flags = flags;
        }

  unfoldable pub build_message : BlockHeader → List MsgTx → List Bool → Option MsgMerkleBlock
  unfolding message_from
  build_message header txs matched = message_from header (length txs % u32_mod) txs matched

module _ (sum256 : Bytes → Bytes) (extract : Bytes → Option (List Bytes))
    (classify : Bytes → ℕ) where
  -- The loop over the transactions, the next one has the number `i`.
  unfoldable pub match_block : Filter → ℕ → List MsgTx → Option BlockMatch
  unfolding match_tx_and_update
  match_block f i [] = some record { filter = f; matched_bits = []; matched_indices = [] }
  match_block f i (tx ∷ txs) = and_then (match_tx_and_update sum256 extract classify f tx) λ r.
      and_then (match_block r.0 (suc i) txs) λ m. some record {
        filter = m.filter;
        matched_bits = r.1 ∷ m.matched_bits;
        matched_indices = if r.1 then i % u32_mod ∷ m.matched_indices else m.matched_indices;
      }

  unfoldable pub new_merkle_block :
      BlockHeader → List MsgTx → Filter → Option (MsgMerkleBlock × List ℕ × Filter)
  unfolding match_block build_message
  new_merkle_block header txs f = and_then (match_block f 0 txs) λ b.
      and_then (build_message sum256 header txs b.matched_bits)
        λ msg. some (msg, b.matched_indices, b.filter)
