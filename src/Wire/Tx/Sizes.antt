-- ===== src/Wire/Tx/Sizes.antt =====
-- The serialized sizes of wire/msgtx.go.
use nogocommons.Base.{ℕ, ◌+◌, if◌then◌else◌, List, [], ◌∷◌, length, Bytes}
use nogocommons.Wire.VarInt.{var_int_serialize_size}
use nogocommons.Wire.Tx.{TxIn, TxOut, TxWitness, MsgTx, witness_items, has_witness}

-- `TxIn.SerializeSize`, `TxOut.SerializeSize` and `TxWitness.SerializeSize`
unfoldable pub tx_in_size : TxIn → ℕ
tx_in_size ti =
    40 + var_int_serialize_size (length ti.signature_script) + length ti.signature_script

unfoldable pub tx_out_size : TxOut → ℕ
tx_out_size to = 8 + var_int_serialize_size (length to.pk_script) + length to.pk_script

unfoldable pub items_size : List Bytes → ℕ
items_size [] = 0
items_size (item ∷ items) = var_int_serialize_size (length item) + length item + items_size items

unfoldable pub witness_size : TxWitness → ℕ
unfolding items_size
witness_size w = var_int_serialize_size (length (witness_items w)) + items_size (witness_items w)

-- The loops that add up the sizes of the inputs, the outputs and the witnesses.
unfoldable pub sum_sizes : {A : Type 0} → (A → ℕ) → List A → ℕ
sum_sizes size [] = 0
sum_sizes size (x ∷ xs) = size x + sum_sizes size xs

-- `baseSize`, which is also `SerializeSizeStripped`
unfoldable pub base_size : MsgTx → ℕ
unfolding sum_sizes tx_in_size tx_out_size
base_size tx =
    8
    + var_int_serialize_size (length tx.tx_in)
    + var_int_serialize_size (length tx.tx_out)
    + sum_sizes tx_in_size tx.tx_in
    + sum_sizes tx_out_size tx.tx_out

-- `SerializeSize`
unfoldable pub serialize_size : MsgTx → ℕ
unfolding base_size witness_size has_witness
serialize_size tx =
    if has_witness tx.tx_in
    then base_size tx + 2 + sum_sizes (λ ti. witness_size ti.witness) tx.tx_in
    else base_size tx
