-- ===== src/Wire/Tx/Size.antt =====
-- The announced size of a transaction is the number of bytes that its encoding has.
use nogocommons.Base.{ℕ, ◌+◌, ◌≡◌, refl, arith, Bool-cases, inl, inr}
use nogocommons.Base.{List, [], ◌∷◌, length, length-append, Bytes, All}
use nogocommons.Wire.Codec.{write_many}
use nogocommons.Wire.Number.{length-put_le}
use nogocommons.Wire.VarInt.{write_var_int, write_var_bytes, var_int_serialize_size}
use nogocommons.Wire.VarIntLaws.{length-write_var_int}
use nogocommons.Wire.Tx.Sizes.{
  tx_in_size, tx_out_size, items_size, witness_size, sum_sizes, base_size, serialize_size,
}
use nogocommons.Wire.Tx.{
  TxIn, TxOut, MsgTx, base_encoding, witness_encoding, witness_items, has_witness, write_out_point,
  write_tx_in, write_tx_out, write_witness, encode_tx,
}
use nogocommons.Wire.Tx.Laws.{IsTxIn}

pub length-write_many :
    {A : Type 0} {P : A → Type 0} (write : A → Bytes) (size : A → ℕ)
    → ((x : A) → P x → length (write x) ≡ size x)
    → (xs : List A) → All P xs
    → length (write_many write xs) ≡ sum_sizes size xs
unfolding write_many sum_sizes
length-write_many write size law [] h = refl
length-write_many write size law (x ∷ xs) (h, hs) = omega (
  arith,
  length-append (write x) (write_many write xs),
  law x h,
  length-write_many write size law xs hs,
)

length-write_var_bytes :
    (bs : Bytes) → length (write_var_bytes bs) ≡ var_int_serialize_size (length bs) + length bs
unfolding write_var_bytes
length-write_var_bytes bs =
    omega (arith, length-append (write_var_int (length bs)) bs, length-write_var_int (length bs))

pub length-write_tx_in : (ti : TxIn) → IsTxIn ti → length (write_tx_in ti) ≡ tx_in_size ti
unfolding write_tx_in write_out_point tx_in_size
length-write_tx_in ti h =
    simp (length-append {0}, length-put_le, length-write_var_bytes) (omega (arith, h.hash_fits))

pub length-write_tx_out : (to : TxOut) → Unit {0} → length (write_tx_out to) ≡ tx_out_size to
unfolding write_tx_out tx_out_size
length-write_tx_out to _ =
    simp (length-append {0}, length-put_le, length-write_var_bytes) (omega arith)

length-items : (items : List Bytes) → length (write_many write_var_bytes items) ≡ items_size items
unfolding write_many items_size
length-items [] = refl
length-items (item ∷ items) = simp (length-append {0}, length-write_var_bytes, length-items items)

length-write_witness :
    (ti : TxIn)
    → Unit {0}
    → length (write_witness (witness_items ti.witness)) ≡ witness_size ti.witness
unfolding write_witness witness_size
length-write_witness ti _ = simp (length-append {0}, length-write_var_int, length-items)

units : {A : Type 0} (xs : List A) → All (λ (x : A). Unit {0}) xs
units [] = tt
units (x ∷ xs) = (tt, units xs)

-- For a transaction whose inputs are well formed, `SerializeSize` is the number of bytes that
-- the witness encoding has, and `SerializeSizeStripped` that of the encoding without witnesses.
pub length-encode_tx :
    (tx : MsgTx)
    → All IsTxIn tx.tx_in
    → (length (encode_tx witness_encoding tx) ≡ serialize_size tx)
      × (length (encode_tx base_encoding tx) ≡ base_size tx)
unfolding encode_tx serialize_size base_size
length-encode_tx tx h =
    let ins = length-write_many write_tx_in tx_in_size length-write_tx_in tx.tx_in h in
    let outs =
      length-write_many write_tx_out tx_out_size length-write_tx_out tx.tx_out (units tx.tx_out) in
    let wits =
      length-write_many (λ (ti : TxIn). write_witness (witness_items ti.witness))
        (λ (ti : TxIn). witness_size ti.witness) length-write_witness tx.tx_in (units tx.tx_in) in
    (
      elim (Bool-cases (has_witness tx.tx_in)) [
        | inl does ↦ rw does (
            simp (length-append {0}, length-put_le, length-write_var_int, ins, outs, wits)
              (omega arith))
        | inr plain ↦
            rw plain (
              simp (length-append {0}, length-put_le, length-write_var_int, ins, outs)
                (omega arith))
      ],
      simp (length-append {0}, length-put_le, length-write_var_int, ins, outs) (omega arith),
    )
