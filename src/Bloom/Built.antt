-- ===== src/Bloom/Built.antt =====
-- A tree that nogoutil/bloom/merkleblock.go has built, read by its receiver.
use nogocommons.Base.{ℕ, ◌*◌, ◌^◌, ◌≤◌, ◌<◌, ◌≡◌, refl, arith, ap, sym, ◌∙◌}
use nogocommons.Base.{Bool, true, false, ◌||◌, Option, some, List, [], ◌∷◌, ◌++◌, Bytes, length}
use nogocommons.Base.{get_elem?, get_elem?_inside}
use nogocommons.Base.{if◌then◌else◌}
use nogocommons.Bloom.Found.{and_then-some}
use nogocommons.Bloom.Merkle.{
  MerkleBlock, is_parent, is_parent_from, calc_hash, add_hash, traverse_and_build,
}
use nogocommons.Bloom.Partial.{Leaf, extract, leaf_at, matched_from, span}
use nogocommons.Bloom.Widths.{FitsAt, is_parent-span}
use nogocommons.Bloom.Tree.{IsTree}

module _ (sum256 : Bytes → Bytes) (n : ℕ) (hashes : List Bytes) (matched : List Bool) where
  abbrev pub block : List Bool → List Bytes → MerkleBlock
  block bits final = record {
    num_tx = n;
    all_hashes = hashes;
    final_hashes = final;
    matched_bits = matched;
    bits = bits;
  }

  -- The leaves below a node that match.
  abbrev pub below : ℕ → ℕ → List Leaf
  below h pos = matched_from matched hashes (span n h pos) (pos * 2 ^ h)

  -- What the receiver reads, whatever comes behind.
  abbrev pub Reads : ℕ → ℕ → List Bool → List Bytes → Bytes → Type 0
  Reads h pos bs hs x =
      (r : List Bool) (r' : List Bytes)
      → extract sum256 n h pos (bs ++ r) (hs ++ r')
        ≡ some record { root = x; leaves = below h pos; bits_left = r; hashes_left = r' }

  -- A node is written as some bits and some hashes, no more than it has leaves.
  pub record IsWritten (h pos : ℕ) (bs : List Bool) (hs : List Bytes) (x : Bytes) : Type 0 where
    pub root : calc_hash sum256 n hashes h pos ≡ some x
    pub reads : Reads h pos bs hs x
    pub few : length hs ≤ span n h pos

  abbrev pub Built : ℕ → ℕ → List Bool → List Bytes → Option MerkleBlock → Type 0
  Built h pos bits final o =
      (bs : List Bool) × (hs : List Bytes) × (x : Bytes) × (o
        ≡ some (block (bits ++ bs) (final ++ hs)))
      × IsWritten h pos bs hs x

  pub add_hash-of :
      (h pos : ℕ) (x : Bytes) (bits : List Bool) (final : List Bytes)
      → calc_hash sum256 n hashes h pos ≡ some x
      → add_hash sum256 h pos (block bits final) ≡ some (block bits (final ++ (x ∷ [])))
  unfolding add_hash
  add_hash-of h pos x bits final e =
      and_then-some (calc_hash sum256 n hashes h pos) (λ x. some (block bits (final ++ (x ∷ [])))) x
        e

  leaf_bit :
      (pos : ℕ) (c : Bool)
      → FitsAt n 0
      → pos < n
      → get_elem? matched pos ≡ some c
      → is_parent matched n 0 pos ≡ some c
  unfolding is_parent_from
  leaf_bit pos c f l e =
      let one : span n 0 pos ≡ 1 = omega arith in
      let at : pos * 2 ^ 0 ≡ pos = omega arith in
      is_parent-span matched n 0 pos f (omega arith)
      ∙ ap (λ z. is_parent_from matched z (pos * 2 ^ 0) false) one
      ∙ ap (λ z. is_parent_from matched 1 z false) at
      ∙ and_then-some (get_elem? matched pos) (λ b. some (false || b)) c e

  leaf_below :
      (pos : ℕ) (c : Bool) (x : Bytes)
      → pos < n
      → get_elem? matched pos ≡ some c
      → get_elem? hashes pos ≡ some x
      → (if c then (pos, x) ∷ [] else []) ≡ below 0 pos
  unfolding matched_from
  leaf_below pos c x l e e' =
      let one : span n 0 pos ≡ 1 = omega arith in
      let at : pos * 2 ^ 0 ≡ pos = omega arith in
      at_leaf c
      ∙ ap (λ o. leaf_at o (some x) pos ++ []) (sym e)
      ∙ ap (λ o. leaf_at (get_elem? matched pos) o pos ++ []) (sym e')
      ∙ ap (λ z. matched_from matched hashes 1 z) (sym at)
      ∙ ap (λ z. matched_from matched hashes z (pos * 2 ^ 0)) (sym one)
    where
      at_leaf : (c : Bool) → (if c then (pos, x) ∷ [] else []) ≡ leaf_at (some c) (some x) pos ++ []
      at_leaf true = refl
      at_leaf false = refl

  pub Built-leaf :
      (pos : ℕ) (bits : List Bool) (final : List Bytes)
      → IsTree n hashes matched
      → FitsAt n 0
      → pos < n
      → Built 0 pos bits final (traverse_and_build sum256 0 pos (block bits final))
  unfolding traverse_and_build extract calc_hash
  Built-leaf pos bits final t f l =
      let (c, e) = get_elem?_inside matched pos (omega (arith, t.bit_each)) in
      let (x, e') = get_elem?_inside hashes pos (omega (arith, t.hash_each)) in
      (
        c ∷ [],
        x ∷ [],
        x,
        and_then-some (is_parent matched n 0 pos)
              (λ b. add_hash sum256 0 pos (block (bits ++ (b ∷ [])) final)) c (leaf_bit pos c f l e)
            ∙ add_hash-of 0 pos x (bits ++ (c ∷ [])) final e',
        record {
          root = e';
          reads = λ r r'.
              ap (λ ls. some record { root = x; leaves = ls; bits_left = r; hashes_left = r' })
                (leaf_below pos c x l e e');
          few = omega (arith, l);
        },
      )
