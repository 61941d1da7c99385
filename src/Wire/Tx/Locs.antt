-- ===== src/Wire/Tx/Locs.antt =====
-- `PkScriptLocs` of wire/msgtx.go: where the public key scripts start in the encoded transaction.
use nogocommons.Base.{ℕ, zero, suc, ◌+◌, ◌≡◌, refl, sym, ◌∙◌, arith, Bool, true, false}
use nogocommons.Base.{none, some, List, [], ◌∷◌, ◌++◌, append_assoc, length, length-append}
use nogocommons.Base.{get_elem?, subst, Bool-cases, inl, inr, Bytes, All, if◌then◌else◌}
use nogocommons.Wire.Codec.{write_many}
use nogocommons.Wire.Number.{put_le, length-put_le}
use nogocommons.Wire.VarInt.{write_var_int, write_var_bytes, var_int_serialize_size}
use nogocommons.Wire.VarIntLaws.{length-write_var_int}
use nogocommons.Wire.Tx.Sizes.{tx_in_size, sum_sizes}
use nogocommons.Wire.Tx.{
  TxIn, TxOut, MsgTx, witness_encoding, has_witness, write_tx_in, write_tx_out, write_witness,
  encode_tx, does_witness, witness_items,
}
use nogocommons.Wire.Tx.Laws.{IsTxIn}
use nogocommons.Wire.Tx.Size.{length-write_many, length-write_tx_in}

-- `msg.TxIn[0].Witness != nil`, if there is an input
abbrev pub first_has_witness : List TxIn → Bool
first_has_witness [] = false
first_has_witness (ti ∷ tis) = elim ti.witness [ none ↦ false | some items ↦ true ]

-- The loop over the outputs, from the offset `n`.
unfoldable pub script_locs : ℕ → List TxOut → List ℕ
script_locs n [] = []
script_locs n (to ∷ tos) =
    let loc = n + (8 + var_int_serialize_size (length to.pk_script)) in
    loc ∷ script_locs (loc + length to.pk_script) tos

-- `PkScriptLocs`; nil is the empty list.
unfoldable pub pk_script_locs : MsgTx → List ℕ
unfolding script_locs sum_sizes tx_in_size
pk_script_locs tx =
    let n =
      4 + var_int_serialize_size (length tx.tx_in) + var_int_serialize_size (length tx.tx_out) in
    let n' = if first_has_witness tx.tx_in then n + 2 else n in
    script_locs (n' + sum_sizes tx_in_size tx.tx_in) tx.tx_out

-- The script stands in the bytes at the offset.
pub record StandsAt (script : Bytes) (offset : ℕ) (bs : Bytes) : Type 0 where
  pub before : Bytes
  pub behind : Bytes
  pub bytes_are : bs ≡ before ++ (script ++ behind)
  pub offset_is : length before ≡ offset

-- The offset of the output `i` is there, and its script stands `off` bytes behind it.
pub record Located (to : TxOut) (i off : ℕ) (locs : List ℕ) (bs : Bytes) : Type 0 where
  pub loc : ℕ
  pub listed : get_elem? locs i ≡ some loc
  pub stands : StandsAt to.pk_script (loc + off) bs

script_locs-Located :
    (n off : ℕ) (before : Bytes) (tos : List TxOut) (behind : Bytes) (i : ℕ) (to : TxOut)
    → length before ≡ n + off
    → get_elem? tos i ≡ some to
    → Located to i off (script_locs n tos) (before ++ (write_many write_tx_out tos ++ behind))
unfolding script_locs write_many write_tx_out write_var_bytes
script_locs-Located n off before [] behind i to h g = absurd cc
script_locs-Located n off before (t ∷ tos) behind zero to h g =
    let same : t ≡ to = ground (arith, g) in
    let len = length t.pk_script in
    subst
      (λ x.
        Located x zero off (script_locs n (t ∷ tos))
          (before ++ (write_many write_tx_out (t ∷ tos) ++ behind)))
      same
      (record {
        loc = n + (8 + var_int_serialize_size len);
        listed = refl;
        stands = record {
          before = before ++ (put_le 8 t.value ++ write_var_int len);
          behind = write_many write_tx_out tos ++ behind;
          bytes_are = simp append_assoc;
          offset_is =
              simp (length-append {0}, length-put_le, length-write_var_int) (omega (arith, h));
        };
      })
script_locs-Located n off before (t ∷ tos) behind (suc i) to h g =
    let len = length t.pk_script in
    let loc = n + (8 + var_int_serialize_size len) in
    let longer : length (before ++ write_tx_out t) ≡ (loc + len) + off =
      simp (length-append {0}, length-put_le, length-write_var_int) (omega (arith, h)) in
    let rest =
      script_locs-Located (loc + len) off (before ++ write_tx_out t) tos behind i to longer g in
    record {
      loc = rest.loc;
      listed = rest.listed;
      stands = subst (StandsAt to.pk_script (rest.loc + off)) (simp append_assoc) rest.stands;
    }

-- The bytes of the marker and the flag, and those that `PkScriptLocs` counts for them.
marker_size : MsgTx → ℕ
marker_size tx = if has_witness tx.tx_in then 2 else 0

counted_size : MsgTx → ℕ
counted_size tx = if first_has_witness tx.tx_in then 2 else 0

-- What the encoding has before the outputs.
abbrev until_outputs : MsgTx → Bytes
until_outputs tx =
    put_le 4 tx.version
    ++ ((if does_witness witness_encoding tx then 0 ∷ (1 ∷ []) else [])
        ++ (write_var_int (length tx.tx_in)
            ++ (write_many write_tx_in tx.tx_in ++ write_var_int (length tx.tx_out))))

abbrev from_outputs : MsgTx → Bytes
from_outputs tx =
    (if does_witness witness_encoding tx
      then write_many (λ ti. write_witness (witness_items ti.witness)) tx.tx_in
      else [])
    ++ put_le 4 tx.lock_time

encode_tx_split :
    (tx : MsgTx)
    → encode_tx witness_encoding tx
      ≡ until_outputs tx ++ (write_many write_tx_out tx.tx_out ++ from_outputs tx)
unfolding encode_tx
encode_tx_split tx = simp append_assoc

length-until_outputs :
    (tx : MsgTx)
    → All IsTxIn tx.tx_in
    → length (until_outputs tx)
      ≡ 4
        + marker_size tx
        + var_int_serialize_size (length tx.tx_in)
        + sum_sizes tx_in_size tx.tx_in
        + var_int_serialize_size (length tx.tx_out)
unfolding marker_size
length-until_outputs tx h =
    let ins = length-write_many write_tx_in tx_in_size length-write_tx_in tx.tx_in h in
    elim (Bool-cases (has_witness tx.tx_in)) [
      | inl t ↦
          rw (t) (simp (length-append {0}, length-put_le, length-write_var_int, ins) (omega arith))
      | inr f ↦
          rw (f) (simp (length-append {0}, length-put_le, length-write_var_int, ins) (omega arith))
    ]

pk_script_locs-Located :
    (tx : MsgTx) (off i : ℕ) (to : TxOut)
    → All IsTxIn tx.tx_in
    → marker_size tx ≡ counted_size tx + off
    → get_elem? tx.tx_out i ≡ some to
    → Located to i off (pk_script_locs tx) (encode_tx witness_encoding tx)
unfolding pk_script_locs counted_size
pk_script_locs-Located tx off i to ins m g =
    let n =
      (if first_has_witness tx.tx_in
        then 4
          + var_int_serialize_size (length tx.tx_in)
          + var_int_serialize_size (length tx.tx_out)
          + 2
        else 4
          + var_int_serialize_size (length tx.tx_in)
          + var_int_serialize_size (length tx.tx_out))
      + sum_sizes tx_in_size tx.tx_in in
    let starts : length (until_outputs tx) ≡ n + off =
      length-until_outputs tx ins ∙ ground (arith, m) in
    subst (Located to i off (pk_script_locs tx)) (sym (encode_tx_split tx))
      (script_locs-Located n off (until_outputs tx) tx.tx_out (from_outputs tx) i to starts g)

-- For well-formed inputs of which the first has a non-nil witness slice exactly if some input
-- has a witness item, `PkScriptLocs` lists for each output the offset at which its public key
-- script stands in the witness encoding.
pub pk_script_locs-Located_exact :
    (tx : MsgTx) (i : ℕ) (to : TxOut)
    → All IsTxIn tx.tx_in
    → first_has_witness tx.tx_in ≡ has_witness tx.tx_in
    → get_elem? tx.tx_out i ≡ some to
    → Located to i 0 (pk_script_locs tx) (encode_tx witness_encoding tx)
unfolding marker_size counted_size
pk_script_locs-Located_exact tx i to ins h g =
    pk_script_locs-Located tx 0 i to ins (ground (arith, h)) g

-- If the first of well-formed inputs has a nil witness and another one has a witness item, every
-- offset that `PkScriptLocs` lists is two bytes before the script in the witness encoding.
pub pk_script_locs-Located_early :
    (tx : MsgTx) (i : ℕ) (to : TxOut)
    → All IsTxIn tx.tx_in
    → first_has_witness tx.tx_in ≡ false
    → has_witness tx.tx_in ≡ true
    → get_elem? tx.tx_out i ≡ some to
    → Located to i 2 (pk_script_locs tx) (encode_tx witness_encoding tx)
unfolding marker_size counted_size
pk_script_locs-Located_early tx i to ins h w g =
    pk_script_locs-Located tx 2 i to ins (ground (arith, h, w)) g
