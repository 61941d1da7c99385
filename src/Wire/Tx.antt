-- ===== src/Wire/Tx.antt =====
-- wire/msgtx.go: transactions, their encoding and its size. Scripts are read into a slab that all
-- scripts of a transaction share; what matters of it is the room that is left, and the bytes are
-- copied out of it at the end.
pub mod Sizes
pub mod Laws
pub mod Inputs
pub mod RoundTrip
pub mod Size
pub mod Locs
mod Tests
use nogocommons.Base.{
  ℕ, ◌+◌, ◌-◌, Bool, true, false, Option, none, some, if◌then◌else◌, leb, ◌==◌, ◌&&◌,
}
use nogocommons.Base.{List, [], ◌∷◌, ◌++◌, length, Bytes}
use nogocommons.Wire.Codec.{Result, ok, err, guard, ◌>>=◌, ◌>>◌, read_full, read_many, write_many}
use nogocommons.Wire.Codec.{too_large, exceeds_buffer, bad_flag, superfluous_witness}
use nogocommons.Wire.Number.{put_le, read_le}
use nogocommons.Wire.VarInt.{read_var_int, write_var_int, write_var_bytes, var_int_serialize_size}
use nogocommons.Wire.Header.{hash_size}

pub record OutPoint : Type 0 where
  pub hash : Bytes
  pub index : ℕ

-- `none` is a nil slice.
abbrev pub TxWitness : Type 0
TxWitness = Option (List Bytes)

pub record TxIn : Type 0 where
  pub previous_out_point : OutPoint
  pub signature_script : Bytes
  pub witness : TxWitness
  pub sequence : ℕ

pub record TxOut : Type 0 where
  pub value : ℕ
  pub pk_script : Bytes

pub record MsgTx : Type 0 where
  pub version : ℕ
  pub tx_in : List TxIn
  pub tx_out : List TxOut
  pub lock_time : ℕ

-- `MessageEncoding`
pub data Encoding : Type 0 where
  base_encoding : Encoding
  witness_encoding : Encoding

abbrev pub is_witness_encoding : Encoding → Bool
is_witness_encoding base_encoding = false
is_witness_encoding witness_encoding = true

-- The limits of the source: `maxTxInPerMessage`, `maxTxOutPerMessage`, `maxWitnessItemsPerInput`,
-- `maxWitnessItemSize` and `scriptSlabSize`.
abbrev pub max_tx_in : ℕ
max_tx_in = 818401

abbrev pub max_tx_out : ℕ
max_tx_out = 3728271

abbrev pub max_witness_items : ℕ
max_witness_items = 4000000

abbrev pub max_script_size : ℕ
max_script_size = 4000000

abbrev pub script_slab_size : ℕ
script_slab_size = 4194304

-- The reader, with the length of the slab that is left.
pub record Input : Type 0 where
  pub bytes : Bytes
  pub room : ℕ

abbrev pub witness_items : TxWitness → List Bytes
witness_items none = []
witness_items (some items) = items

abbrev pub is_empty : {A : Type 0} → List A → Bool
is_empty [] = true
is_empty (x ∷ xs) = false

-- `HasWitness`
unfoldable pub has_witness : List TxIn → Bool
has_witness [] = false
has_witness (ti ∷ tis) = if is_empty (witness_items ti.witness) then has_witness tis else true

-- `readOutPointBuf`
unfoldable pub read_out_point : Bytes → Result (OutPoint × Bytes)
read_out_point r = do
  (hash, r1) ← read_full hash_size r
  (index, r2) ← read_le 4 r1
  ok (record { hash = hash; index = index }, r2)

-- `writeOutPointBuf`
unfoldable pub write_out_point : OutPoint → Bytes
write_out_point op = op.hash ++ put_le 4 op.index

-- `readScriptBuf`, and that the caller then takes the script's length off the slab.
unfoldable pub read_script : Input → Result (Bytes × Input)
read_script s = do
  (count, r1) ← read_var_int s.bytes
  guard (leb count max_script_size) too_large
  guard (leb count s.room) exceeds_buffer
  (script, r2) ← read_full count r1
  ok (script, record { bytes = r2; room = s.room - count })

-- `readTxInBuf`
unfoldable pub read_tx_in : Input → Result (TxIn × Input)
read_tx_in s = do
  (out_point, r1) ← read_out_point s.bytes
  (script, s1) ← read_script (record { bytes = r1; room = s.room })
  (sequence, r2) ← read_le 4 s1.bytes
  ok (
    record {
      previous_out_point = out_point;
      signature_script = script;
      witness = none;
      sequence = sequence;
    },
    record { bytes = r2; room = s1.room },
  )

-- `writeTxInBuf`
unfoldable pub write_tx_in : TxIn → Bytes
write_tx_in ti =
    write_out_point ti.previous_out_point
    ++ (write_var_bytes ti.signature_script ++ put_le 4 ti.sequence)

-- `readTxOutBuf`
unfoldable pub read_tx_out : Input → Result (TxOut × Input)
read_tx_out s = do
  (value, r1) ← read_le 8 s.bytes
  (script, s1) ← read_script (record { bytes = r1; room = s.room })
  ok (record { value = value; pk_script = script }, s1)

-- `WriteTxOutBuf`
unfoldable pub write_tx_out : TxOut → Bytes
write_tx_out to = put_le 8 to.value ++ write_var_bytes to.pk_script

-- The witness of one input, as `btcDecode` reads it.
unfoldable pub read_witness : Input → Result (List Bytes × Input)
read_witness s = do
  (wit_count, r1) ← read_var_int s.bytes
  guard (leb wit_count max_witness_items) too_large
  read_many read_script wit_count (record { bytes = r1; room = s.room })

-- `writeTxWitnessBuf`
unfoldable pub write_witness : List Bytes → Bytes
write_witness items = write_var_int (length items) ++ write_many write_var_bytes items

-- The loop of `btcDecode` over the inputs that gives each its witness.
unfoldable pub read_witnesses : List TxIn → Input → Result (List TxIn × Input)
read_witnesses [] s = ok ([], s)
read_witnesses (ti ∷ tis) s = do
  (items, s1) ← read_witness s
  (rest, s2) ← read_witnesses tis s1
  ok (record ti { witness = some items } ∷ rest, s2)

-- The part of `btcDecode` that the flag byte decides.
unfoldable pub read_flagged : Bool → List TxIn → Input → Result (List TxIn × Input)
unfolding read_witnesses has_witness
read_flagged false tis s = ok (tis, s)
read_flagged true tis s = do
  (tis', s1) ← read_witnesses tis s
  guard (has_witness tis') superfluous_witness
  ok (tis', s1)

-- A count of zero is the marker of a flag byte, if witnesses are read at all.
unfoldable pub read_marker : Encoding → ℕ → Bytes → Result (Bool × ℕ × Bytes)
read_marker enc count r =
    if count == 0 && is_witness_encoding enc
    then (do
      (flag, r1) ← read_le 1 r
      guard (flag == 1) bad_flag
      (count', r2) ← read_var_int r1
      ok (true, count', r2))
    else ok (false, count, r)

-- `btcDecode` with a slab of the length `room`
unfoldable pub decode_tx_into : ℕ → Encoding → Bytes → Result (MsgTx × Bytes)
unfolding read_marker read_flagged
decode_tx_into room enc r = do
  (version, r1) ← read_le 4 r
  (marker, r2) ← read_var_int r1
  (flag, in_count, r3) ← read_marker enc marker r2
  guard (leb in_count max_tx_in) too_large
  (tx_in, s1) ← read_many read_tx_in in_count (record { bytes = r3; room = room })
  (out_count, r4) ← read_var_int s1.bytes
  guard (leb out_count max_tx_out) too_large
  (tx_out, s2) ← read_many read_tx_out out_count (record { bytes = r4; room = s1.room })
  (tx_in', s3) ← read_flagged flag tx_in s2
  (lock_time, r5) ← read_le 4 s3.bytes
  ok (record { version = version; tx_in = tx_in'; tx_out = tx_out; lock_time = lock_time }, r5)

-- `BtcDecode`
unfoldable pub decode_tx : Encoding → Bytes → Result (MsgTx × Bytes)
decode_tx enc r = decode_tx_into script_slab_size enc r

abbrev pub does_witness : Encoding → MsgTx → Bool
does_witness enc tx = is_witness_encoding enc && has_witness tx.tx_in

-- `btcEncode`
unfoldable pub encode_tx : Encoding → MsgTx → Bytes
unfolding has_witness
encode_tx enc tx =
    put_le 4 tx.version
    ++ ((if does_witness enc tx then 0 ∷ (1 ∷ []) else [])
        ++ (write_var_int (length tx.tx_in)
            ++ (write_many write_tx_in tx.tx_in
                ++ (write_var_int (length tx.tx_out)
                    ++ (write_many write_tx_out tx.tx_out
                        ++ ((if does_witness enc tx
                              then write_many (λ ti. write_witness (witness_items ti.witness))
                                  tx.tx_in
                              else [])
                            ++ put_le 4 tx.lock_time))))))
