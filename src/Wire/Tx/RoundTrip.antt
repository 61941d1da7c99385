-- ===== src/Wire/Tx/RoundTrip.antt =====
-- A transaction decodes to what was encoded, up to the witnesses that the encoding leaves out.
use nogocommons.Base.{ℕ, ◌+◌, ◌-◌, ◌^◌, ◌≤◌, ◌<◌, ◌≡◌, refl, ap, ◌∙◌, arith, true, false}
use nogocommons.Base.{if◌then◌else◌, leb, ◌==◌, ◌&&◌, Bool-cases, inl, inr}
use nogocommons.Base.{List, ◌∷◌, ◌++◌, map, length, append_assoc, Bytes, All}
use nogocommons.Wire.Codec.{ok, ◌>>=◌, write_many}
use nogocommons.Wire.Number.{put_le, read_le-put_le}
use nogocommons.Wire.VarInt.{read_var_int, write_var_int}
use nogocommons.Wire.VarIntLaws.{read-write_var_int}
use nogocommons.Wire.Header.{IsU32}
use nogocommons.Wire.Tx.{
  TxIn, MsgTx, Input, Encoding, is_witness_encoding, has_witness, does_witness, max_tx_in,
  max_tx_out, script_slab_size, read_tx_out, write_tx_out, write_witness, read_flagged, read_marker,
  decode_tx_into, decode_tx, encode_tx,
}
use nogocommons.Wire.Tx.Laws.{
  metered, total, read_many-metered, IsTxIn, IsTxOut, IsWitness, bare, script_length,
  pk_script_length, read_tx_out-metered,
}
use nogocommons.Wire.Tx.Inputs.{
  items_of, with_items, items_length, read_ins, read_witnesses-metered, has_witness-with_items,
}

-- What is read back.
abbrev pub seen : Encoding → MsgTx → MsgTx
seen enc tx = record tx {
  tx_in = if does_witness enc tx then map with_items tx.tx_in else map bare tx.tx_in;
}

-- The bytes of all scripts that the encoding carries.
abbrev pub script_bytes : Encoding → MsgTx → ℕ
script_bytes enc tx =
    total script_length tx.tx_in
    + (total pk_script_length tx.tx_out
        + (if does_witness enc tx then total items_length tx.tx_in else 0))

-- The fields fit, the limits are kept, and a witness encoding has an input, since a count of zero
-- would be read as the marker.
pub record IsTx (enc : Encoding) (tx : MsgTx) : Type 0 where
  pub version_fits : IsU32 tx.version
  pub lock_time_fits : IsU32 tx.lock_time
  pub ins_fit : All IsTxIn tx.tx_in
  pub outs_fit : All IsTxOut tx.tx_out
  pub witnesses_fit : All (λ ti. IsWitness (items_of ti)) tx.tx_in
  pub ins_few : length tx.tx_in ≤ max_tx_in
  pub outs_few : length tx.tx_out ≤ max_tx_out
  pub marked : (is_witness_encoding enc && (length tx.tx_in == 0)) ≡ false
  pub scripts_fit : script_bytes enc tx ≤ script_slab_size

guarded : (n m : ℕ) → n ≤ m → leb n m ≡ true
guarded n m h = ground arith

read_marker_plain :
    (enc : Encoding) (count : ℕ) (r : Bytes)
    → (is_witness_encoding enc && (count == 0)) ≡ false
    → read_marker enc count r ≡ ok (false, count, r)
unfolding read_marker
read_marker_plain enc count r h = ground arith

read_marker_flag :
    (enc : Encoding) (count : ℕ) (r : Bytes)
    → is_witness_encoding enc ≡ true
    → count < 256 ^ 4
    → read_marker enc 0 (1 ∷ (write_var_int count ++ r)) ≡ ok (true, count, r)
unfolding read_marker put_le
read_marker_flag enc count r h fits =
    ground (arith, read_le-put_le 1 1 (write_var_int count ++ r), read-write_var_int count r)

read_zero : (r : Bytes) → read_var_int (0 ∷ r) ≡ ok (0, r)
unfolding read_var_int
read_zero r = refl

does_both :
    (enc : Encoding) (tis : List TxIn)
    → (is_witness_encoding enc && has_witness tis) ≡ true
    → (is_witness_encoding enc ≡ true) × (has_witness tis ≡ true)
does_both enc tis h = ground arith

-- The two shapes of the decoding, with a slab that has the room `k` left at the end.
module _ (tx : MsgTx) (rest : Bytes) (k : ℕ) where
  decode_plain :
      (enc : Encoding)
      → IsTx enc tx
      → does_witness enc tx ≡ false
      → decode_tx_into
          (total script_length tx.tx_in + (total pk_script_length tx.tx_out + k))
          enc
          (encode_tx enc tx ++ rest)
        ≡ ok (record tx { tx_in = map bare tx.tx_in }, rest)
  unfolding decode_tx_into encode_tx
  decode_plain enc h plain =
      let end : Input = record { bytes = put_le 4 tx.lock_time ++ rest; room = k } in
      let outs = metered (write_many write_tx_out) (total pk_script_length) tx.tx_out end in
      rw plain (
        simp append_assoc (
          rw (
            read_le-put_le 4 tx.version _ h.version_fits,
            ◌>>=◌,
            read-write_var_int (length tx.tx_in) _ (omega (arith, h.ins_few)),
            ◌>>=◌,
            read_marker_plain enc (length tx.tx_in) _ h.marked,
            ◌>>=◌,
            guarded (length tx.tx_in) max_tx_in h.ins_few,
            read_ins tx.tx_in
                (record {
                  bytes = write_var_int (length tx.tx_out) ++ outs.bytes;
                  room = outs.room;
                })
                h.ins_fit,
            ◌>>=◌,
            read-write_var_int (length tx.tx_out) _ (omega (arith, h.outs_few)),
            ◌>>=◌,
            guarded (length tx.tx_out) max_tx_out h.outs_few,
            read_many-metered read_tx_out write_tx_out pk_script_length read_tx_out-metered
                tx.tx_out end h.outs_fit,
            ◌>>=◌,
            read_le-put_le 4 tx.lock_time rest h.lock_time_fits,
            ◌>>=◌,
          )))

  decode_witness :
      (enc : Encoding)
      → IsTx enc tx
      → does_witness enc tx ≡ true
      → decode_tx_into
          (total script_length tx.tx_in
            + (total pk_script_length tx.tx_out + (total items_length tx.tx_in + k)))
          enc
          (encode_tx enc tx ++ rest)
        ≡ ok (record tx { tx_in = map with_items tx.tx_in }, rest)
  unfolding decode_tx_into encode_tx read_flagged
  decode_witness enc h does =
      let items = λ (ti : TxIn). write_witness (items_of ti) in
      let end : Input = record { bytes = put_le 4 tx.lock_time ++ rest; room = k } in
      let wits = metered (write_many items) (total items_length) tx.tx_in end in
      let outs = metered (write_many write_tx_out) (total pk_script_length) tx.tx_out wits in
      let both = does_both enc tx.tx_in does in
      rw does (
        simp append_assoc (
          rw (
            read_le-put_le 4 tx.version _ h.version_fits,
            ◌>>=◌,
            read_zero _,
            ◌>>=◌,
            read_marker_flag enc (length tx.tx_in) _ both.0 (omega (arith, h.ins_few)),
            ◌>>=◌,
            guarded (length tx.tx_in) max_tx_in h.ins_few,
            read_ins tx.tx_in
                (record {
                  bytes = write_var_int (length tx.tx_out) ++ outs.bytes;
                  room = outs.room;
                })
                h.ins_fit,
            ◌>>=◌,
            read-write_var_int (length tx.tx_out) _ (omega (arith, h.outs_few)),
            ◌>>=◌,
            guarded (length tx.tx_out) max_tx_out h.outs_few,
            read_many-metered read_tx_out write_tx_out pk_script_length read_tx_out-metered
                tx.tx_out wits h.outs_fit,
            ◌>>=◌,
            read_witnesses-metered tx.tx_in end h.witnesses_fit,
            ◌>>=◌,
            has_witness-with_items tx.tx_in,
            both.1,
            read_le-put_le 4 tx.lock_time rest h.lock_time_fits,
            ◌>>=◌,
          )))

-- Decoding what `btcEncode` writes gives the transaction back, whatever bytes follow it, for
-- both encodings: with the witness encoding and some witness every input has its witness as a
-- non-nil slice, and otherwise every input has none. The fields must fit their widths, the
-- counts and script sizes their limits, all scripts together the slab, and a transaction without
-- inputs must not be encoded with witnesses.
pub decode-encode_tx :
    (enc : Encoding) (tx : MsgTx) (rest : Bytes)
    → IsTx enc tx
    → decode_tx enc (encode_tx enc tx ++ rest) ≡ ok (seen enc tx, rest)
unfolding decode_tx
decode-encode_tx enc tx rest h = elim (Bool-cases (does_witness enc tx)) [
  | inl does ↦
      let fit : total script_length tx.tx_in
            + (total pk_script_length tx.tx_out + total items_length tx.tx_in)
          ≤ script_slab_size =
        rw does at h.scripts_fit in
      let k = script_slab_size - script_bytes enc tx in
      ap (λ n. decode_tx_into n enc (encode_tx enc tx ++ rest)) (rw does (omega (arith, fit)))
      ∙ decode_witness tx rest k enc h does
      ∙ rw does
  | inr plain ↦
      let fit : total script_length tx.tx_in + (total pk_script_length tx.tx_out + 0)
          ≤ script_slab_size =
        rw plain at h.scripts_fit in
      let k = script_slab_size - script_bytes enc tx in
      ap (λ n. decode_tx_into n enc (encode_tx enc tx ++ rest)) (rw plain (omega (arith, fit)))
      ∙ decode_plain tx rest k enc h plain
      ∙ rw plain
]
