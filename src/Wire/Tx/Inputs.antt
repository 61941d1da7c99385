-- ===== src/Wire/Tx/Inputs.antt =====
-- The inputs of a transaction and their witnesses, read back from their encodings.
use nogocommons.Base.{ℕ, suc, ◌≡◌, refl, ap, ◌∙◌, arith}
use nogocommons.Base.{some}
use nogocommons.Base.{List, [], ◌∷◌, map, length, Bytes, All}
use nogocommons.Wire.Codec.{ok, ◌>>=◌, read_many, write_many}
use nogocommons.Wire.Tx.{
  TxIn, Input, witness_items, has_witness, read_tx_in, write_tx_in, write_witness, read_witnesses,
}
use nogocommons.Wire.Tx.Laws.{
  metered, metered-cons, total, read_many-metered, IsTxIn, IsWitness, bare, script_length,
  read_tx_in-metered, read_witness-metered,
}

-- The items of an input's witness, and an input that has them as a slice that is not nil.
abbrev pub items_of : TxIn → List Bytes
items_of ti = witness_items ti.witness

abbrev pub with_items : TxIn → TxIn
with_items ti = record ti { witness = some (items_of ti) }

abbrev pub items_length : TxIn → ℕ
items_length ti = total length (items_of ti)

-- The inputs, read before the witnesses.
abbrev IsBare : TxIn → Type 0
IsBare ti = IsTxIn ti × (bare ti ≡ ti)

read_bare :
    (ti : TxIn) (s : Input)
    → IsBare ti
    → read_tx_in (metered write_tx_in script_length ti s) ≡ ok (ti, s)
read_bare ti s (h, e) = read_tx_in-metered ti s h ∙ ap (λ (t : TxIn). ok (t, s)) e

bare-IsBare : (tis : List TxIn) → All IsTxIn tis → All IsBare (map bare tis)
bare-IsBare [] h = tt
bare-IsBare (ti ∷ tis) (h, hs) = (
  (
    record {
      hash_fits = h.hash_fits;
      index_fits = h.index_fits;
      script_fits = h.script_fits;
      sequence_fits = h.sequence_fits;
    },
    refl,
  ),
  bare-IsBare tis hs,
)

write_bare : (tis : List TxIn) → write_many write_tx_in (map bare tis) ≡ write_many write_tx_in tis
unfolding write_many write_tx_in
write_bare [] = refl
write_bare (ti ∷ tis) = rw (write_bare tis)

total-bare : (tis : List TxIn) → total script_length (map bare tis) ≡ total script_length tis
total-bare [] = refl
total-bare (ti ∷ tis) = rw (total-bare tis)

length-bare : (tis : List TxIn) → length (map bare tis) ≡ length tis
length-bare [] = refl
length-bare (ti ∷ tis) = ap suc (length-bare tis)

pub read_ins :
    (tis : List TxIn) (s : Input)
    → All IsTxIn tis
    → read_many read_tx_in
        (length tis)
        (metered (write_many write_tx_in) (total script_length) tis s)
      ≡ ok (map bare tis, s)
read_ins tis s h =
    rw (← length-bare tis, ← write_bare tis, ← total-bare tis)
      (read_many-metered read_tx_in write_tx_in script_length read_bare (map bare tis) s
        (bare-IsBare tis h))

read_witnesses-cons :
    (ti : TxIn) (tis : List TxIn) (s : Input)
    → IsWitness (items_of ti)
    → read_witnesses
        (map bare tis)
        (metered (write_many (λ ti. write_witness (items_of ti))) (total items_length) tis s)
      ≡ ok (map with_items tis, s)
    → read_witnesses
        (map bare (ti ∷ tis))
        (metered (write_many (λ ti. write_witness (items_of ti))) (total items_length) (ti ∷ tis) s)
      ≡ ok (map with_items (ti ∷ tis), s)
read_witnesses-cons ti tis s h ih =
    let rest =
      metered (write_many (λ ti. write_witness (items_of ti))) (total items_length) tis s in
    ap (read_witnesses (map bare (ti ∷ tis)))
      (metered-cons (λ ti. write_witness (items_of ti)) items_length ti tis s)
    ∙ unfold read_witnesses in rw (read_witness-metered (items_of ti) rest h, ◌>>=◌, ih, ◌>>=◌)

pub read_witnesses-metered :
    (tis : List TxIn) (s : Input)
    → All (λ ti. IsWitness (items_of ti)) tis
    → read_witnesses
        (map bare tis)
        (metered (write_many (λ ti. write_witness (items_of ti))) (total items_length) tis s)
      ≡ ok (map with_items tis, s)
read_witnesses-metered [] s h = unfold read_witnesses write_many in ground arith
read_witnesses-metered (ti ∷ tis) s (h, hs) =
    read_witnesses-cons ti tis s h (read_witnesses-metered tis s hs)

pub has_witness-with_items : (tis : List TxIn) → has_witness (map with_items tis) ≡ has_witness tis
unfolding has_witness
has_witness-with_items [] = refl
has_witness-with_items (ti ∷ tis) = rw (has_witness-with_items tis)
