-- ===== src/Wire/Tx/Tests.antt =====
-- A transaction with a witness, encoded and decoded.
use nogocommons.Base.{◌≡◌, refl, arith, none, some, [], ◌∷◌, ◌++◌, replicate, length}
use nogocommons.Wire.Codec.{ok}
use nogocommons.Wire.Tx.Sizes.{serialize_size, base_size}
use nogocommons.Wire.Tx.{
  TxIn, MsgTx, base_encoding, witness_encoding, encode_tx, decode_tx, has_witness,
}
use nogocommons.Wire.Tx.Laws.{IsTxIn}
use nogocommons.Wire.Tx.RoundTrip.{IsTx, seen, decode-encode_tx}
use nogocommons.Wire.Tx.Size.{length-encode_tx}
use nogocommons.Wire.Tx.Locs.{Located, pk_script_locs, pk_script_locs-Located_exact}
use nogocommons.Wire.Tx.Locs.{pk_script_locs-Located_early}

abbrev input : TxIn
input = record {
  previous_out_point = record { hash = replicate 32 0x11; index = 1 };
  signature_script = 0x51 ∷ [];
  witness = some ((1 ∷ 2 ∷ []) ∷ ([] ∷ []));
  sequence = 0xffffffff;
}

abbrev spend : MsgTx
spend = record {
  version = 2;
  tx_in = input ∷ (record input { witness = none } ∷ []);
  tx_out = record { value = 5000; pk_script = 0x6a ∷ [] } ∷ [];
  lock_time = 0;
}

input-IsTxIn : IsTxIn input
input-IsTxIn = record {
  hash_fits = refl;
  index_fits = omega arith;
  script_fits = omega arith;
  sequence_fits = omega arith;
}

second-IsTxIn : IsTxIn (record input { witness = none })
second-IsTxIn = record {
  hash_fits = refl;
  index_fits = omega arith;
  script_fits = omega arith;
  sequence_fits = omega arith;
}

spend-IsTx : IsTx witness_encoding spend
unfolding has_witness
spend-IsTx = record {
  version_fits = omega arith;
  lock_time_fits = omega arith;
  ins_fit = (input-IsTxIn, (second-IsTxIn, tt));
  outs_fit = (record { value_fits = omega arith; pk_script_fits = omega arith }, tt);
  witnesses_fit = (
    record { few = omega arith; items_fit = omega arith },
    (record { few = omega arith; items_fit = tt }, tt),
  );
  ins_few = omega arith;
  outs_few = omega arith;
  marked = refl;
  scripts_fit = omega arith;
}

decode-encode_tx_example :
    decode_tx witness_encoding (encode_tx witness_encoding spend ++ (7 ∷ []))
    ≡ ok (seen witness_encoding spend, 7 ∷ [])
decode-encode_tx_example = decode-encode_tx witness_encoding spend (7 ∷ []) spend-IsTx

length-encode_tx_example :
    (length (encode_tx witness_encoding spend) ≡ serialize_size spend)
    × (length (encode_tx base_encoding spend) ≡ base_size spend)
length-encode_tx_example = length-encode_tx spend (input-IsTxIn, (second-IsTxIn, tt))

pk_script_locs-Located_exact_example :
    Located
      (record { value = 5000; pk_script = 0x6a ∷ [] })
      0
      0
      (pk_script_locs spend)
      (encode_tx witness_encoding spend)
unfolding has_witness
pk_script_locs-Located_exact_example =
    pk_script_locs-Located_exact spend 0 (record { value = 5000; pk_script = 0x6a ∷ [] })
      (input-IsTxIn, (second-IsTxIn, tt)) refl refl

-- The same transaction with its inputs in the other order.
abbrev swapped : MsgTx
swapped = record spend { tx_in = record input { witness = none } ∷ (input ∷ []) }

pk_script_locs-Located_early_example :
    Located
      (record { value = 5000; pk_script = 0x6a ∷ [] })
      0
      2
      (pk_script_locs swapped)
      (encode_tx witness_encoding swapped)
unfolding has_witness
pk_script_locs-Located_early_example =
    pk_script_locs-Located_early swapped 0 (record { value = 5000; pk_script = 0x6a ∷ [] })
      (second-IsTxIn, (input-IsTxIn, tt)) refl refl refl
