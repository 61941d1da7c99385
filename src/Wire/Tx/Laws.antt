-- ===== src/Wire/Tx/Laws.antt =====
-- The parts of a transaction read back as they were written, and each script takes its length off
-- the room that is left.
use nogocommons.Base.{ℕ, ◌+◌, ◌≤◌, ◌<◌, ◌^◌, ◌≡◌, refl, sym, ap, ◌∙◌, arith}
use nogocommons.Base.{none, List, [], ◌∷◌, ◌++◌, length, append_assoc, Bytes, All}
use nogocommons.Wire.Codec.{Result, ok, ◌>>=◌, read_full-append}
use nogocommons.Wire.Codec.{read_many, write_many, feed_all, read_many-feed_all}
use nogocommons.Wire.Number.{put_le, read_le-put_le}
use nogocommons.Wire.VarInt.{write_var_int, write_var_bytes}
use nogocommons.Wire.VarIntLaws.{read-write_var_int}
use nogocommons.Wire.Header.{hash_size, IsU32}
use nogocommons.Wire.Tx.{
  TxIn, TxOut, Input, max_script_size, max_witness_items, read_out_point, write_out_point,
  read_script, read_tx_in, write_tx_in, read_tx_out, write_tx_out, read_witness, write_witness,
}

-- What a reader is fed to read `x`: the bytes of `x` in front, and room for the scripts of `x`.
abbrev pub metered : {A : Type 0} → (A → Bytes) → (A → ℕ) → A → Input → Input
metered write cost x s = record { bytes = write x ++ s.bytes; room = cost x + s.room }

abbrev pub total : {A : Type 0} → (A → ℕ) → List A → ℕ
total cost [] = 0
total cost (x ∷ xs) = cost x + total cost xs

-- The first of several items is fed in front of the others.
pub metered-cons :
    {A : Type 0} (write : A → Bytes) (cost : A → ℕ) (x : A) (xs : List A) (s : Input)
    → metered (write_many write) (total cost) (x ∷ xs) s
      ≡ metered write cost x (metered (write_many write) (total cost) xs s)
unfolding write_many
metered-cons write cost x xs s =
    ground (arith, append_assoc (write x) (write_many write xs) s.bytes)

feed_all-metered :
    {A : Type 0} (write : A → Bytes) (cost : A → ℕ) (xs : List A) (s : Input)
    → feed_all (metered write cost) xs s ≡ metered (write_many write) (total cost) xs s
unfolding feed_all write_many
feed_all-metered write cost [] s = ground arith
feed_all-metered write cost (x ∷ xs) s =
    ground (
      arith,
      feed_all-metered write cost xs s,
      append_assoc (write x) (write_many write xs) s.bytes,
    )

-- The items of a loop read back, and each takes its own room.
pub read_many-metered :
    {A : Type 0} {P : A → Type 0} (read : Input → Result (A × Input)) (write : A → Bytes)
    (cost : A → ℕ)
    → ((x : A) (s : Input) → P x → read (metered write cost x s) ≡ ok (x, s))
    → (xs : List A) (s : Input) → All P xs
    → read_many read (length xs) (metered (write_many write) (total cost) xs s) ≡ ok (xs, s)
read_many-metered read write cost law xs s h =
    ap (read_many read (length xs)) (sym (feed_all-metered write cost xs s))
    ∙ read_many-feed_all read (metered write cost) law xs s h

abbrev pub IsScript : Bytes → Type 0
IsScript bs = length bs ≤ max_script_size

pub read_script-metered :
    (bs : Bytes) (s : Input)
    → IsScript bs
    → read_script (metered write_var_bytes length bs s) ≡ ok (bs, s)
unfolding read_script write_var_bytes
read_script-metered bs s h = ground (
  arith,
  append_assoc (write_var_int (length bs)) bs s.bytes,
  read-write_var_int (length bs) (bs ++ s.bytes),
  read_full-append (length bs) bs s.bytes refl,
)

pub record IsTxIn (ti : TxIn) : Type 0 where
  pub hash_fits : length ti.previous_out_point.hash ≡ hash_size
  pub index_fits : IsU32 ti.previous_out_point.index
  pub script_fits : IsScript ti.signature_script
  pub sequence_fits : IsU32 ti.sequence

-- An input as it is read, before the witnesses.
abbrev pub bare : TxIn → TxIn
bare ti = record ti { witness = none }

abbrev pub script_length : TxIn → ℕ
script_length ti = length ti.signature_script

pub read_tx_in-metered :
    (ti : TxIn) (s : Input)
    → IsTxIn ti
    → read_tx_in (metered write_tx_in script_length ti s) ≡ ok (bare ti, s)
unfolding read_tx_in write_tx_in write_out_point read_out_point
read_tx_in-metered ti s h =
    let op = ti.previous_out_point in
    simp append_assoc (
      rw (
        read_full-append hash_size op.hash _ h.hash_fits,
        ◌>>=◌,
        read_le-put_le 4 op.index _ h.index_fits,
        ◌>>=◌,
        read_script-metered ti.signature_script
            (record { bytes = put_le 4 ti.sequence ++ s.bytes; room = s.room }) h.script_fits,
        ◌>>=◌,
        read_le-put_le 4 ti.sequence _ h.sequence_fits,
        ◌>>=◌,
      ))

pub record IsTxOut (to : TxOut) : Type 0 where
  pub value_fits : to.value < 256 ^ 8
  pub pk_script_fits : IsScript to.pk_script

abbrev pub pk_script_length : TxOut → ℕ
pk_script_length to = length to.pk_script

pub read_tx_out-metered :
    (to : TxOut) (s : Input)
    → IsTxOut to
    → read_tx_out (metered write_tx_out pk_script_length to s) ≡ ok (to, s)
unfolding read_tx_out write_tx_out
read_tx_out-metered to s h = simp append_assoc (
    rw (
      read_le-put_le 8 to.value _ h.value_fits,
      ◌>>=◌,
      read_script-metered to.pk_script s h.pk_script_fits,
      ◌>>=◌,
    ))

pub record IsWitness (items : List Bytes) : Type 0 where
  pub few : length items ≤ max_witness_items
  pub items_fit : All IsScript items

pub read_witness-metered :
    (items : List Bytes) (s : Input)
    → IsWitness items
    → read_witness (metered write_witness (total length) items s) ≡ ok (items, s)
unfolding read_witness write_witness
read_witness-metered items s h = ground (
  arith,
  append_assoc (write_var_int (length items)) (write_many write_var_bytes items) s.bytes,
  read-write_var_int (length items) (write_many write_var_bytes items ++ s.bytes),
  read_many-metered read_script write_var_bytes length read_script-metered items s h.items_fit,
)
