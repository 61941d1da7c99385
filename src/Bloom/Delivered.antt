-- ===== src/Bloom/Delivered.antt =====
-- `NewMerkleBlock` of nogoutil/bloom/merkleblock.go, from the filter to the receiver.
use nogocommons.Base.{ℕ, suc, ◌+◌, ◌%◌, ◌≤◌, ◌<◌, ◌≡◌, refl, ap, sym, ◌∙◌, arith}
use nogocommons.Base.{Bool, true, false, Option, some, List, [], ◌∷◌, ◌++◌, Bytes, length, map}
use nogocommons.Base.{get_elem?, get_elem?_inside, if◌then◌else◌, u32_mod}
use nogocommons.Wire.Header.{BlockHeader}
use nogocommons.Wire.Tx.{MsgTx}
use nogocommons.Bloom.Filter.{MsgFilterLoad}
use nogocommons.Bloom.Kept.{IsUsable, Grows-IsUsable}
use nogocommons.Bloom.Found.{and_then-some}
use nogocommons.Bloom.Match.{match_tx_and_update}
use nogocommons.Bloom.Spends.{match_tx_and_update-Answers}
use nogocommons.Bloom.Partial.{Leaf, leaf_at, matched_from}
use nogocommons.Bloom.Block.{
  MsgMerkleBlock, max_tx_per_block, BlockMatch, hashes_of, match_block, build_message,
  new_merkle_block,
}
use nogocommons.Bloom.Message.{length-hashes_of, IsReadable, build_message-IsReadable}

abbrev pub number : Leaf → ℕ
number l = l.0

-- The numbers of the transactions with the bit, from `i` on.
abbrev indices_of : ℕ → List Bool → List ℕ
indices_of i [] = []
indices_of i (b ∷ bs) = if b then i % u32_mod ∷ indices_of (suc i) bs else indices_of (suc i) bs

number_at :
    (b : Bool) (x : Bytes) (i : ℕ) (ls : List Leaf) (is : List ℕ)
    → i < u32_mod
    → map number ls ≡ is
    → map number (leaf_at (some b) (some x) i ++ ls) ≡ (if b then i % u32_mod ∷ is else is)
number_at true x i ls is l e =
    let w : i ≡ i % u32_mod = omega (arith, l) in
    ap (λ k. k ∷ map number ls) w ∙ ap (λ z. i % u32_mod ∷ z) e
number_at false x i ls is l e = e

matched_from-indices :
    (matched : List Bool) (hashes : List Bytes) (bs : List Bool) (i : ℕ)
    → ((k : ℕ) → get_elem? matched (i + k) ≡ get_elem? bs k)
    → i + length bs ≤ length hashes
    → length hashes < u32_mod
    → map number (matched_from matched hashes (length bs) i) ≡ indices_of i bs
unfolding matched_from
matched_from-indices matched hashes [] i at l w = refl
matched_from-indices matched hashes (b ∷ bs) i at l w =
    let (x, e) = get_elem?_inside hashes i (omega (arith, l)) in
    let z : i ≡ i + 0 = omega arith in
    let rest = matched_from matched hashes (length bs) (suc i) in
    let at' : (k : ℕ) → get_elem? matched (suc i + k) ≡ get_elem? bs k =
      λ k. let q : suc i + k ≡ i + suc k = omega arith in ap (get_elem? matched) q ∙ at (suc k) in
    ap (λ o. map number (leaf_at o (get_elem? hashes i) i ++ rest))
      (ap (get_elem? matched) z ∙ at 0)
    ∙ ap (λ o. map number (leaf_at (some b) o i ++ rest)) e
    ∙ number_at b x i rest (indices_of (suc i) bs) (omega (arith, l, w))
        (matched_from-indices matched hashes bs (suc i) at' (omega (arith, l)) w)

module _ (sum256 : Bytes → Bytes) (extract : Bytes → Option (List Bytes))
    (classify : Bytes → ℕ) where
  match_block-some :
      (txs : List MsgTx) (m : MsgFilterLoad) (i : ℕ)
      → IsUsable m
      → (b : BlockMatch) × (match_block sum256 extract classify (some m) i txs ≡ some b)
        × (length b.matched_bits ≡ length txs)
        × (b.matched_indices ≡ indices_of i b.matched_bits)
  unfolding match_block
  match_block-some [] m i u = (_, refl, refl, refl)
  match_block-some (tx ∷ txs) m i u =
      let (m', c, e, a) = match_tx_and_update-Answers sum256 extract classify m tx u in
      let (b, e', l, is) = match_block-some txs m' (suc i) (Grows-IsUsable a.grows u) in
      (
        record {
          filter = b.filter;
          matched_bits = c ∷ b.matched_bits;
          matched_indices = if c then i % u32_mod ∷ b.matched_indices else b.matched_indices;
        },
        and_then-some (match_tx_and_update sum256 extract classify (some m) tx) _ (some m', c) e
            ∙ and_then-some (match_block sum256 extract classify (some m') (suc i) txs) _ b e',
        ap suc l,
        ap (λ z. if c then i % u32_mod ∷ z else z) is,
      )

  -- For any sha256 and any reading of the scripts, a loaded filter that has bytes, fewer than
  -- 2^29, and a block of at least one and at most maxTxPerBlock transactions: `NewMerkleBlock`
  -- panics nowhere, and its message has the number of the transactions. A receiver that walks
  -- the tree by the hashes and the flags of the message, as BIP 37 says, uses all the hashes and
  -- all the bits but fewer than eight, which are zero; the root that it computes is the one of
  -- the whole tree; and it finds the number and the hash of each transaction that the filter
  -- matched, in order. These numbers are the indices that `NewMerkleBlock` returns.
  pub new_merkle_block-IsReadable :
      (header : BlockHeader) (txs : List MsgTx) (m : MsgFilterLoad)
      → IsUsable m
      → 0 < length txs
      → length txs ≤ max_tx_per_block
      → (msg : MsgMerkleBlock) × (b : BlockMatch) × (match_block sum256 extract classify
            (some m)
            0
            txs
          ≡ some b)
        × (new_merkle_block sum256 extract classify header txs (some m)
            ≡ some (msg, b.matched_indices, b.filter))
        × IsReadable sum256 txs b.matched_bits msg
        × (map number (matched_from b.matched_bits (hashes_of sum256 txs) (length txs) 0)
            ≡ b.matched_indices)
  unfolding new_merkle_block
  new_merkle_block-IsReadable header txs m u p l =
      let (b, e, lb, is) = match_block-some txs m 0 u in
      let (msg, e', r) = build_message-IsReadable sum256 header txs b.matched_bits p l lb in
      let hashes = hashes_of sum256 txs in
      let lh = length-hashes_of sum256 txs in
      let at : (k : ℕ) → get_elem? b.matched_bits (0 + k) ≡ get_elem? b.matched_bits k =
        λ k. let q : 0 + k ≡ k = omega arith in ap (get_elem? b.matched_bits) q in
      (
        msg,
        b,
        e,
        and_then-some (match_block sum256 extract classify (some m) 0 txs) _ b e
            ∙ and_then-some (build_message sum256 header txs b.matched_bits)
                (λ msg. some (msg, b.matched_indices, b.filter)) msg e',
        r,
        ap (λ k. map number (matched_from b.matched_bits hashes k 0)) (sym lb)
            ∙ matched_from-indices b.matched_bits hashes b.matched_bits 0 at (omega (arith, lb, lh))
                (omega (arith, lh, l))
            ∙ sym is,
      )
