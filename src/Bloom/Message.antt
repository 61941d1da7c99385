-- ===== src/Bloom/Message.antt =====
-- The message of `NewMerkleBlock` in nogoutil/bloom/merkleblock.go, read by its receiver.
use nogocommons.Base.{
  ℕ, zero, suc, ◌+◌, ◌-◌, ◌*◌, ◌/◌, ◌%◌, ◌^◌, ◌≤◌, ◌<◌, ◌≡◌, refl, ap, sym, ◌∙◌, arith,
}
use nogocommons.Base.{Bool, true, false, none, some, List, [], ◌∷◌, ◌++◌, Bytes, length, ltb, subst}
use nogocommons.Base.{append-nil, append_assoc, length-append, replicate, Bool-cases, inl, inr}
use nogocommons.Base.{if◌then◌else◌, u32_mod}
use nogocommons.Wire.Header.{BlockHeader}
use nogocommons.Wire.Tx.{MsgTx}
use nogocommons.Bloom.Found.{and_then-some}
use nogocommons.Bloom.Merkle.{calc_tree_width, calc_hash, traverse_and_build}
use nogocommons.Bloom.Partial.{extract, matched_from, span}
use nogocommons.Bloom.Widths.{FitsAt, ltb-calc_tree_width}
use nogocommons.Bloom.Tree.{IsTree}
use nogocommons.Bloom.Built.{block, below, IsWritten}
use nogocommons.Bloom.Whole.{traverse_and_build-Built}
use nogocommons.Bloom.Block.{
  MsgMerkleBlock, max_tx_per_block, add_tx_hash, kept_hashes, add_tx_hashes, set_flags, tree_height,
  hashes_of, message_from, build_message,
}
use nogocommons.Bloom.Flags.{flag_bits, set_flags-flag_bits}
use native.Mathlib.Nat.{pow-le-pow_right}

-- No hash is lost in a block that is not too large.
add_tx_hashes-append :
    (hs hs' : List Bytes)
    → length hs + length hs' ≤ max_tx_per_block
    → add_tx_hashes hs hs' ≡ hs ++ hs'
unfolding add_tx_hashes add_tx_hash
add_tx_hashes-append hs [] l = sym (append-nil hs)
add_tx_hashes-append hs (x ∷ xs) l =
    let n : ltb max_tx_per_block (length hs + 1) ≡ false = ground (arith, l) in
    ap (λ (b : Bool). add_tx_hashes (kept_hashes hs (if b then none else some (hs ++ (x ∷ [])))) xs)
      n
    ∙ add_tx_hashes-append (hs ++ (x ∷ [])) xs (omega (arith, l, length-append hs (x ∷ [])))
    ∙ append_assoc hs (x ∷ []) xs

fits_word : (n h : ℕ) → n ≤ 2 ^ 31 → h ≤ 31 → FitsAt n h
fits_word n h l k = omega (arith, l, pow-le-pow_right {n = 2} (omega arith) k)

-- The count of the height ends at a height whose root has all the leaves.
tree_height-root :
    (fuel n h : ℕ)
    → 0 < n
    → n ≤ 2 ^ 31
    → h + fuel ≡ 31
    → FitsAt n (tree_height fuel n h) × (n ≤ 2 ^ tree_height fuel n h)
unfolding tree_height
tree_height-root zero n h p l e =
    let q : h ≡ 31 = omega (arith, e) in
    (fits_word n h l (omega (arith, e)), subst (λ z. n ≤ 2 ^ z) (sym q) l)
tree_height-root (suc fuel) n h p l e =
    let f = fits_word n h l (omega (arith, e)) in
    let w = ltb-calc_tree_width n h 1 p f in
    let rest = tree_height-root fuel n (suc h) p l (omega (arith, e)) in
    let go : Bool → ℕ = λ b. elim b [ true ↦ tree_height fuel n (suc h) | false ↦ h ] in
    let P : ℕ → Type 0 = λ z. FitsAt n z × (n ≤ 2 ^ z) in
    elim (Bool-cases (ltb 1 (calc_tree_width n h))) [
      | inl t ↦ subst P (ap go (sym t)) rest
      | inr t ↦
          let no : ltb (1 * 2 ^ h) n ≡ false = sym w ∙ t in
          subst P (ap go (sym t)) (f, ground (arith, no))
    ]

pub length-hashes_of :
    (sum256 : Bytes → Bytes) (txs : List MsgTx) → length (hashes_of sum256 txs) ≡ length txs
length-hashes_of sum256 [] = refl
length-hashes_of sum256 (tx ∷ txs) = ap suc (length-hashes_of sum256 txs)

root_below :
    (sum256 : Bytes → Bytes) (n h : ℕ) (hashes : List Bytes) (matched : List Bool)
    → n ≤ 2 ^ h
    → below sum256 n hashes matched h 0 ≡ matched_from matched hashes n 0
root_below sum256 n h hashes matched l =
    let s : span n h 0 ≡ n = omega (arith, l) in
    let z : 0 * 2 ^ h ≡ 0 = omega arith in
    ap (λ k. matched_from matched hashes k (0 * 2 ^ h)) s ∙ ap (matched_from matched hashes n) z

module _ (sum256 : Bytes → Bytes) where
  -- What the receiver makes of a message: the root, and the transactions that match.
  pub record IsReadable (txs : List MsgTx) (matched : List Bool) (msg : MsgMerkleBlock)
      : Type 0 where
    pub root : Bytes
    pub padding : ℕ
    pub count : msg.transactions ≡ length txs
    pub is_root :
        calc_hash sum256 (length txs) (hashes_of sum256 txs) (tree_height 31 (length txs) 0) 0
        ≡ some root
    pub short : padding < 8
    pub reads :
        extract sum256 msg.transactions
          (tree_height 31 msg.transactions 0)
          0
          (flag_bits msg.flags (8 * length msg.flags) 0)
          msg.hashes
        ≡ some record {
          root = root;
          leaves = matched_from matched (hashes_of sum256 txs) (length txs) 0;
          bits_left = replicate padding false;
          hashes_left = [];
        }

  written_message : BlockHeader → ℕ → List Bytes → Bytes → MsgMerkleBlock
  written_message header n hs flags = record {
    header = header;
    transactions = n;
    hashes = hs;
    flags = flags;
  }

  read_back :
      (header : BlockHeader) (txs : List MsgTx) (matched bs : List Bool) (hs : List Bytes)
      (x flags : Bytes)
      → length txs ≤ 2 ^ tree_height 31 (length txs) 0
      → IsWritten sum256
          (length txs)
          (hashes_of sum256 txs)
          matched
          (tree_height 31 (length txs) 0)
          0
          bs
          hs
          x
      → length flags ≡ (length bs + 7) / 8
      → flag_bits flags (8 * length flags) 0 ≡ bs ++ replicate (8 * length flags - length bs) false
      → IsReadable txs matched (written_message header (length txs) hs flags)
  unfolding written_message
  read_back header txs matched bs hs x flags top w s r =
      let n = length txs in
      let h = tree_height 31 n 0 in
      let padding : ℕ = 8 * length flags - length bs in
      record {
        root = x;
        padding = padding;
        count = refl;
        is_root = w.root;
        short = omega (arith, s);
        reads =
            ap (λ z. extract sum256 n h 0 z hs) r
            ∙ ap (extract sum256 n h 0 (bs ++ replicate padding false)) (sym (append-nil hs))
            ∙ w.reads (replicate padding false) []
            ∙ ap
                (λ ls. some record {
                  root = x;
                  leaves = ls;
                  bits_left = replicate padding false;
                  hashes_left = [];
                })
                (root_below sum256 n h (hashes_of sum256 txs) matched top);
      }

  pub build_message-IsReadable :
      (header : BlockHeader) (txs : List MsgTx) (matched : List Bool)
      → 0 < length txs
      → length txs ≤ max_tx_per_block
      → length matched ≡ length txs
      → (msg : MsgMerkleBlock) × (build_message sum256 header txs matched ≡ some msg)
        × IsReadable txs matched msg
  unfolding build_message message_from written_message
  build_message-IsReadable header txs matched p l e =
      let n = length txs in
      let hashes = hashes_of sum256 txs in
      let word : n % u32_mod ≡ n = omega (arith, l) in
      let h = tree_height 31 n 0 in
      let (f, top) = tree_height-root 31 n 0 p (omega (arith, l)) refl in
      let t : IsTree n hashes matched = record {
        some_tx = p;
        hash_each = length-hashes_of sum256 txs;
        bit_each = e;
      } in
      let (bs, hs, x, b, w) =
        traverse_and_build-Built sum256 n hashes matched h 0 [] [] t f (omega (arith, p)) in
      let (flags, b', s, r) = set_flags-flag_bits bs ((length bs + 7) / 8) refl in
      let few : length hs ≤ n = omega (arith, w.few) in
      (
        written_message header n hs flags,
        ap (λ z. message_from sum256 header z txs matched) word
            ∙ and_then-some (traverse_and_build sum256 h 0 (block sum256 n hashes matched [] [])) _
                (block sum256 n hashes matched bs hs) b
            ∙ and_then-some (set_flags (replicate ((length bs + 7) / 8) 0) 0 bs) _ flags b'
            ∙ ap (λ o. some (written_message header n o flags))
                (add_tx_hashes-append [] hs (omega (arith, few, l))),
        read_back header txs matched bs hs x flags top w s (
            ap (λ k. flag_bits flags (8 * k) 0) s
            ∙ r
            ∙ ap (λ k. bs ++ replicate (8 * k - length bs) false) (sym s)),
      )
