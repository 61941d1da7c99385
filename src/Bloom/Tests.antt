-- ===== src/Bloom/Tests.antt =====
-- The vectors of nogoutil/bloom/murmurhash3_test.go, and a small filter.
use nogocommons.Base.{
  ◌≡◌, refl, [], ◌∷◌, arith, List, Bytes, Option, none, some, Bool, true, false, length, All,
}
use nogocommons.Bloom.Filter.{
  and_then, MsgFilterLoad, Filter, normalize, matches, matches_from, add, add_from, add_all, hash,
  bit_at, set_bit_at,
}
use nogocommons.Base.{take, ◌++◌, map, replicate}
use nogocommons.Wire.Header.{BlockHeader}
use nogocommons.Bloom.Merkle.{
  calc_tree_width, is_parent, is_parent_from, calc_hash, add_hash, traverse_and_build,
}
use nogocommons.Bloom.Partial.{matched_from}
use nogocommons.Bloom.Built.{block}
use nogocommons.Bloom.Block.{
  MsgMerkleBlock, BlockMatch, hashes_of, match_block, new_merkle_block, set_flags, tree_height,
}
use nogocommons.Bloom.Flags.{flag_bits, set_flags-flag_bits}
use nogocommons.Bloom.Message.{IsReadable}
use nogocommons.Bloom.Delivered.{number, new_merkle_block-IsReadable}
use nogocommons.Wire.Number.{le_value, put_le}
use nogocommons.Wire.Codec.{write_many}
use nogocommons.Wire.VarInt.{write_var_int}
use nogocommons.Wire.Tx.{MsgTx, TxIn, encode_tx, has_witness, write_tx_out, write_tx_in}
use nogocommons.Bloom.Kept.{IsUsable}
use nogocommons.Bloom.Added.{add_all-matches, normalize-answers}
use nogocommons.Bloom.Match.{
  any_matches, tx_hash, match_output, match_outputs, match_input, match_inputs, after_outputs,
  matches_out_point, out_point_bytes, add_out_point, match_tx_and_update, pushed_data,
  get_script_class,
}
use nogocommons.Bloom.Spends.{match_tx_and_update-unchanged}
use nogocommons.Bloom.Watched.{Tells, match_tx_and_update-Tells}
use nogocommons.Bloom.Murmur.{scramble, hash_blocks, hash_tail, finalize, murmur_hash3}

murmur_empty : murmur_hash3 4294967295 [] ≡ 2180083513
unfolding murmur_hash3 scramble hash_blocks hash_tail finalize le_value
murmur_empty = refl

murmur_two : murmur_hash3 0 (0 ∷ 17 ∷ []) ≡ 382121899
unfolding murmur_hash3 scramble hash_blocks hash_tail finalize le_value
murmur_two = refl

murmur_nine : murmur_hash3 0 (0 ∷ 17 ∷ 34 ∷ 51 ∷ 68 ∷ 85 ∷ 102 ∷ 119 ∷ 136 ∷ []) ≡ 3026816495
unfolding murmur_hash3 scramble hash_blocks hash_tail finalize le_value
murmur_nine = refl

abbrev some_load : MsgFilterLoad
some_load = record { filter = 0 ∷ 0 ∷ 0 ∷ []; hash_funcs = 2; tweak = 5; flags = 1 }

abbrev two_data : List Bytes
two_data = (1 ∷ 2 ∷ 3 ∷ []) ∷ (9 ∷ []) ∷ []

abbrev full_load : MsgFilterLoad
full_load = record { filter = 0 ∷ 40 ∷ 16 ∷ []; hash_funcs = 2; tweak = 5; flags = 1 }

adds_two : add_all (some some_load) two_data ≡ some (some full_load)
unfolding add_all add add_from hash set_bit_at murmur_hash3 scramble hash_blocks hash_tail finalize
    le_value
adds_two = refl

nine_found : matches (some full_load) (9 ∷ []) ≡ some true
unfolding matches matches_from hash bit_at murmur_hash3 scramble hash_blocks hash_tail finalize
    le_value
nine_found = refl

ten_absent : matches (some full_load) (10 ∷ []) ≡ some false
unfolding matches matches_from hash bit_at murmur_hash3 scramble hash_blocks hash_tail finalize
    le_value
ten_absent = refl

some_load-IsUsable : IsUsable some_load
some_load-IsUsable = record { has_bytes = omega arith; fits = omega arith }

full_load-IsUsable : IsUsable full_load
full_load-IsUsable = record { has_bytes = omega arith; fits = omega arith }

add_all-matches_example :
    (m' : MsgFilterLoad) × (add_all (some some_load) two_data ≡ some (some m'))
    × All (λ d. matches (some m') d ≡ some true) two_data
    × (matches (some some_load) [] ≡ some true → matches (some m') [] ≡ some true)
add_all-matches_example = add_all-matches two_data some_load [] some_load-IsUsable (omega arith)

normalize-answers_example :
    ((b : Bool) × (matches (normalize (some full_load)) (9 ∷ []) ≡ some b))
    × ((f : Filter) × (add (normalize (some full_load)) (9 ∷ []) ≡ some f))
normalize-answers_example = normalize-answers full_load (9 ∷ []) (omega arith)

-- A hash, and scripts of one push each.
abbrev no_hash : Bytes → Bytes
no_hash bytes = take 4 bytes

abbrev whole : Bytes → Option (List Bytes)
whole script = some (script ∷ [])

abbrev paying_tx : MsgTx
paying_tx = record {
  version = 1;
  tx_in = [];
  tx_out = record { value = 5; pk_script = 9 ∷ [] } ∷ [];
  lock_time = 0;
}

abbrev spending_in : TxIn
spending_in = record {
  previous_out_point = record { hash = tx_hash no_hash paying_tx; index = 0 };
  signature_script = [];
  witness = none;
  sequence = 0;
}

abbrev spending_tx : MsgTx
spending_tx = record { version = 1; tx_in = spending_in ∷ []; tx_out = []; lock_time = 0 }

match_tx_and_update-Tells_example :
    (b : Bool) × (match_tx_and_update no_hash pushed_data get_script_class
        (some full_load)
        spending_tx
      ≡ some (some full_load, b))
    × Tells no_hash (some full_load) spending_tx b
match_tx_and_update-Tells_example =
    match_tx_and_update-Tells no_hash full_load spending_tx full_load-IsUsable

abbrev answer_of : Option (Filter × Bool) → Option Bool
answer_of none = none
answer_of (some r) = some r.1

-- Once the outpoint is added, the transaction that spends it is found, and not before.
spending_found :
    (answer_of
        (match_tx_and_update no_hash pushed_data get_script_class (some full_load) spending_tx)
      ≡ some false)
    × (answer_of (
          and_then
            (add_out_point (some full_load) spending_in.previous_out_point)
            λ f. match_tx_and_update no_hash pushed_data get_script_class f spending_tx)
        ≡ some true)
unfolding match_tx_and_update match_outputs match_output match_inputs match_input after_outputs
    any_matches matches_out_point out_point_bytes add_out_point add add_from set_bit_at tx_hash
    encode_tx put_le matches matches_from hash bit_at murmur_hash3 scramble hash_blocks hash_tail
    finalize le_value has_witness write_many write_var_int write_tx_out write_tx_in
spending_found = (refl, refl)

-- With the placeholders, the output is not found.
paying_not_found :
    match_tx_and_update no_hash pushed_data get_script_class (some full_load) paying_tx
    ≡ some (some full_load, false)
unfolding match_tx_and_update match_outputs match_output match_inputs after_outputs any_matches
    tx_hash encode_tx put_le matches matches_from hash bit_at murmur_hash3 scramble hash_blocks
    hash_tail finalize le_value has_witness write_many write_var_int write_tx_out write_tx_in
paying_not_found = refl

match_tx_and_update-unchanged_example : some full_load ≡ some full_load
match_tx_and_update-unchanged_example =
    match_tx_and_update-unchanged no_hash (some full_load) (some full_load) paying_tx false
      paying_not_found

abbrev some_header : BlockHeader
some_header = record {
  version = 1;
  prev_block = [];
  merkle_root = [];
  timestamp = 0;
  bits = 0;
  nonce = 0;
}

abbrev three_txs : List MsgTx
three_txs = spending_tx ∷ paying_tx ∷ spending_tx ∷ []

new_merkle_block-IsReadable_example :
    (msg : MsgMerkleBlock) × (b : BlockMatch) × (match_block no_hash whole get_script_class
        (some full_load)
        0
        three_txs
      ≡ some b)
    × (new_merkle_block no_hash whole get_script_class some_header three_txs (some full_load)
        ≡ some (msg, b.matched_indices, b.filter))
    × IsReadable no_hash three_txs b.matched_bits msg
    × (map number (matched_from b.matched_bits (hashes_of no_hash three_txs) 3 0)
        ≡ b.matched_indices)
new_merkle_block-IsReadable_example =
    new_merkle_block-IsReadable no_hash whole get_script_class some_header three_txs full_load
      full_load-IsUsable (omega arith) (omega arith)

set_flags-flag_bits_example :
    (flags : Bytes) × (set_flags (replicate 1 0) 0 (true ∷ false ∷ true ∷ []) ≡ some flags)
    × (length flags ≡ 1)
    × (flag_bits flags 8 0 ≡ (true ∷ false ∷ true ∷ []) ++ replicate 5 false)
set_flags-flag_bits_example = set_flags-flag_bits (true ∷ false ∷ true ∷ []) 1 refl

-- The tree of three transactions of which the second matches.
abbrev three_hashes : List Bytes
three_hashes = (1 ∷ []) ∷ (2 ∷ []) ∷ (3 ∷ []) ∷ []

three_built :
    traverse_and_build no_hash
      (tree_height 31 3 0)
      0
      (block no_hash 3 three_hashes (false ∷ true ∷ false ∷ []) [] [])
    ≡ some (
        block no_hash 3 three_hashes
          (false ∷ true ∷ false ∷ [])
          (true ∷ true ∷ false ∷ true ∷ false ∷ [])
          ((1 ∷ []) ∷ (2 ∷ []) ∷ (3 ∷ 3 ∷ []) ∷ []))
unfolding traverse_and_build is_parent is_parent_from add_hash calc_hash calc_tree_width tree_height
three_built = refl
