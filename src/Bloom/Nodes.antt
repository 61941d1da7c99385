-- ===== src/Bloom/Nodes.antt =====
-- The inner nodes of a tree that nogoutil/bloom/merkleblock.go has built.
use nogocommons.Base.{ℕ, suc, ◌+◌, ◌*◌, ◌^◌, ◌≤◌, ◌<◌, ◌≡◌, arith, ap, sym, ◌∙◌}
use nogocommons.Base.{Bool, true, false, Option, some, List, [], ◌∷◌, ◌++◌, Bytes, ltb}
use nogocommons.Base.{append_assoc, ltb→lt}
use nogocommons.Base.{length-append}
use nogocommons.Bloom.Filter.{and_then}
use nogocommons.Bloom.Found.{and_then-some}
use nogocommons.Bloom.Merkle.{calc_tree_width, hash_merkle_branches, add_hash, traverse_and_build}
use nogocommons.Bloom.Partial.{Extracted, join, double, extract, matched_from, span}
use nogocommons.Bloom.Widths.{FitsAt, ltb-calc_tree_width, span_children, span_child, first_child}
use nogocommons.Bloom.Tree.{
  IsTree, matched_from-append, calc_hash-two, calc_hash-one, calc_hash-some,
}
use native.Mathlib.Nat.{one-le-pow}
use nogocommons.Bloom.Built.{block, below, IsWritten, Built, add_hash-of}

module _ (sum256 : Bytes → Bytes) (n : ℕ) (hashes : List Bytes) (matched : List Bool) where
  -- A node that is not entered.
  pub closed_node :
      (h pos : ℕ) (bits : List Bool) (final : List Bytes)
      → IsTree n hashes matched
      → FitsAt n (suc h)
      → pos * 2 ^ suc h < n
      → below sum256 n hashes matched (suc h) pos ≡ []
      → Built sum256 n hashes matched
          (suc h)
          pos
          bits
          final
          (add_hash sum256 (suc h) pos (block sum256 n hashes matched (bits ++ (false ∷ [])) final))
  unfolding extract
  closed_node h pos bits final t f l none_below =
      let (x, e) = calc_hash-some sum256 n hashes (suc h) pos t.some_tx t.hash_each f l in
      (
        false ∷ [],
        x ∷ [],
        x,
        add_hash-of sum256 n hashes matched (suc h) pos x (bits ++ (false ∷ [])) final e,
        record {
          root = e;
          reads = λ r r'.
              ap (λ ls. some record { root = x; leaves = ls; bits_left = r; hashes_left = r' })
                (sym none_below);
          few = omega (arith, l, one-le-pow (suc h) 2 (omega arith));
        },
      )

  below_one :
      (h pos : ℕ)
      → pos * 2 ^ suc h < n
      → n ≤ (pos * 2 + 1) * 2 ^ h
      → below sum256 n hashes matched h (pos * 2) ≡ below sum256 n hashes matched (suc h) pos
  below_one h pos l q =
      ap (matched_from matched hashes (span n h (pos * 2))) (first_child h pos)
      ∙ ap (λ z. matched_from matched hashes z (pos * 2 ^ suc h)) (sym (span_child n h pos l q))

  below_two :
      (h pos : ℕ)
      → pos * 2 ^ suc h < n
      → (pos * 2 + 1) * 2 ^ h < n
      → below sum256 n hashes matched h (pos * 2) ++ below sum256 n hashes matched h (pos * 2 + 1)
        ≡ below sum256 n hashes matched (suc h) pos
  below_two h pos l q =
      let (s, e) = span_children n h pos l q in
      let left = span n h (pos * 2) in
      let right = span n h (pos * 2 + 1) in
      ap
        (λ z.
          matched_from matched hashes left (pos * 2 * 2 ^ h) ++ matched_from matched hashes right z)
        (sym e)
      ∙ sym (matched_from-append matched hashes left right (pos * 2 * 2 ^ h))
      ∙ ap (matched_from matched hashes (left + right)) (first_child h pos)
      ∙ ap (λ z. matched_from matched hashes z (pos * 2 ^ suc h)) (sym s)

  -- The bits and hashes of two children, one behind the other.
  two_children :
      (h pos : ℕ) (bs bs' : List Bool) (hs hs' : List Bytes) (x x' : Bytes)
      → 0 < n
      → FitsAt n h
      → pos * 2 ^ suc h < n
      → (pos * 2 + 1) * 2 ^ h < n
      → IsWritten sum256 n hashes matched h (pos * 2) bs hs x
      → IsWritten sum256 n hashes matched h (pos * 2 + 1) bs' hs' x'
      → IsWritten sum256 n hashes matched
          (suc h)
          pos
          (true ∷ (bs ++ bs'))
          (hs ++ hs')
          (hash_merkle_branches sum256 x x')
  unfolding extract
  two_children h pos bs bs' hs hs' x x' p f l q w w' =
      let wide = ltb-calc_tree_width n h (pos * 2 + 1) p f in
      let yes' : ltb ((pos * 2 + 1) * 2 ^ h) n ≡ true = ground (arith, q) in
      record {
        root = calc_hash-two sum256 n hashes h pos x x' (wide ∙ yes') w.root w'.root;
        reads = λ r r'.
            let here : Extracted = record {
              root = x;
              leaves = below sum256 n hashes matched h (pos * 2);
              bits_left = bs' ++ r;
              hashes_left = hs' ++ r';
            } in
            let there : Extracted = record {
              root = x';
              leaves = below sum256 n hashes matched h (pos * 2 + 1);
              bits_left = r;
              hashes_left = r';
            } in
            ap (λ b. extract sum256 n (suc h) pos (true ∷ b) ((hs ++ hs') ++ r'))
              (append_assoc bs bs' r)
            ∙ ap (λ o. extract sum256 n (suc h) pos (true ∷ (bs ++ (bs' ++ r))) o)
                (append_assoc hs hs' r')
            ∙ and_then-some (extract sum256 n h (pos * 2) (bs ++ (bs' ++ r)) (hs ++ (hs' ++ r'))) _
                here (w.reads (bs' ++ r) (hs' ++ r'))
            ∙ ap
                (λ (b : Bool). elim b as (λ _. Option Extracted) [
                  | true ↦
                      and_then (extract sum256 n h (pos * 2 + 1) (bs' ++ r) (hs' ++ r'))
                        λ o. some (join sum256 n here o)
                  | false ↦ some (double sum256 n here)
                ])
                yes'
            ∙ and_then-some (extract sum256 n h (pos * 2 + 1) (bs' ++ r) (hs' ++ r')) _ there
                (w'.reads r r')
            ∙ ap
                (λ ls. some record {
                  root = hash_merkle_branches sum256 x x';
                  leaves = ls;
                  bits_left = r;
                  hashes_left = r';
                })
                (below_two h pos l q);
        few =
            let (s, e) = span_children n h pos l q in
            omega (arith, w.few, w'.few, s, length-append hs hs');
      }

  one_child :
      (h pos : ℕ) (bs : List Bool) (hs : List Bytes) (x : Bytes)
      → 0 < n
      → FitsAt n h
      → pos * 2 ^ suc h < n
      → n ≤ (pos * 2 + 1) * 2 ^ h
      → IsWritten sum256 n hashes matched h (pos * 2) bs hs x
      → IsWritten sum256 n hashes matched
          (suc h)
          pos
          (true ∷ bs)
          hs
          (hash_merkle_branches sum256 x x)
  unfolding extract
  one_child h pos bs hs x p f l q w =
      let wide = ltb-calc_tree_width n h (pos * 2 + 1) p f in
      let no : ltb ((pos * 2 + 1) * 2 ^ h) n ≡ false = ground (arith, q) in
      record {
        root = calc_hash-one sum256 n hashes h pos x (wide ∙ no) w.root;
        reads = λ r r'.
            let here : Extracted = record {
              root = x;
              leaves = below sum256 n hashes matched h (pos * 2);
              bits_left = r;
              hashes_left = r';
            } in
            and_then-some (extract sum256 n h (pos * 2) (bs ++ r) (hs ++ r')) _ here (w.reads r r')
            ∙ ap
                (λ (b : Bool). elim b as (λ _. Option Extracted) [
                  | true ↦
                      and_then (extract sum256 n h (pos * 2 + 1) r r')
                        λ o. some (join sum256 n here o)
                  | false ↦ some (double sum256 n here)
                ])
                no
            ∙ ap
                (λ ls. some record {
                  root = hash_merkle_branches sum256 x x;
                  leaves = ls;
                  bits_left = r;
                  hashes_left = r';
                })
                (below_one h pos l q);
        few = omega (arith, w.few, span_child n h pos l q);
      }

  -- A node that is entered, with the test whether it has a second child.
  pub children :
      (h pos : ℕ) (bits : List Bool) (final : List Bytes) (second : Bool)
      → IsTree n hashes matched
      → FitsAt n h
      → pos * 2 ^ suc h < n
      → ltb (pos * 2 + 1) (calc_tree_width n h) ≡ second
      → Built sum256 n hashes matched h (pos * 2) (bits ++ (true ∷ [])) final (
          traverse_and_build sum256 h
            (pos * 2)
            (block sum256 n hashes matched (bits ++ (true ∷ [])) final))
      → ((bits : List Bool) (final : List Bytes)
          → (pos * 2 + 1) * 2 ^ h < n
          → Built sum256 n hashes matched h (pos * 2 + 1) bits final (
              traverse_and_build sum256 h (pos * 2 + 1) (block sum256 n hashes matched bits final)))
      → Built sum256 n hashes matched (suc h) pos bits final (
          and_then
            (traverse_and_build sum256 h
              (pos * 2)
              (block sum256 n hashes matched (bits ++ (true ∷ [])) final))
            λ m'. elim second [
              | true ↦ traverse_and_build sum256 h (pos * 2 + 1) m'
              | false ↦ some m'
            ])
  children h pos bits final false t f l e (bs, hs, x, b, w) right = (
    true ∷ bs,
    hs,
    hash_merkle_branches sum256 x x,
    and_then-some _ _ _ b
        ∙ ap (λ z. some (block sum256 n hashes matched z (final ++ hs)))
            (append_assoc bits (true ∷ []) bs),
    one_child h pos bs hs x t.some_tx f l
        (ground (arith, sym (ltb-calc_tree_width n h (pos * 2 + 1) t.some_tx f) ∙ e)) w,
  )
  children h pos bits final true t f l e (bs, hs, x, b, w) right =
      let q : (pos * 2 + 1) * 2 ^ h < n =
        ltb→lt _ n (sym (ltb-calc_tree_width n h (pos * 2 + 1) t.some_tx f) ∙ e) in
      let (bs', hs', x', b', w') = right ((bits ++ (true ∷ [])) ++ bs) (final ++ hs) q in
      (
        true ∷ (bs ++ bs'),
        hs ++ hs',
        hash_merkle_branches sum256 x x',
        and_then-some _ _ _ b
            ∙ b'
            ∙ ap (λ z. some (block sum256 n hashes matched z ((final ++ hs) ++ hs')))
                (append_assoc (bits ++ (true ∷ [])) bs bs'
                  ∙ append_assoc bits (true ∷ []) (bs ++ bs'))
            ∙ ap (λ z. some (block sum256 n hashes matched (bits ++ (true ∷ (bs ++ bs'))) z))
                (append_assoc final hs hs'),
        two_children h pos bs bs' hs hs' x x' t.some_tx f l q w w',
      )
