-- ===== src/Bloom/Whole.antt =====
-- A whole tree that nogoutil/bloom/merkleblock.go has built.
use nogocommons.Base.{ℕ, zero, suc, ◌+◌, ◌*◌, ◌^◌, ◌<◌, ◌≡◌, refl, arith, sym, ◌∙◌, subst}
use nogocommons.Base.{Bool, true, false, Option, some, List, [], ◌∷◌, ◌++◌, Bytes, ltb}
use nogocommons.Bloom.Filter.{and_then}
use nogocommons.Bloom.Found.{and_then-some}
use nogocommons.Bloom.Merkle.{MerkleBlock, calc_tree_width, is_parent, add_hash, traverse_and_build}
use nogocommons.Bloom.Partial.{span}
use nogocommons.Bloom.Widths.{FitsAt, FitsAt-below, is_parent-span, first_child}
use nogocommons.Bloom.Tree.{IsTree, is_parent_from-none}
use nogocommons.Bloom.Built.{block, below, Built, Built-leaf}
use nogocommons.Bloom.Nodes.{closed_node, children}

module _ (sum256 : Bytes → Bytes) (n : ℕ) (hashes : List Bytes) (matched : List Bool) where
  enter :
      (h pos : ℕ) (bits : List Bool) (final : List Bytes) (b : Bool)
      → IsTree n hashes matched
      → FitsAt n (suc h)
      → pos * 2 ^ suc h < n
      → is_parent matched n (suc h) pos ≡ some b
      → (b ≡ false → below sum256 n hashes matched (suc h) pos ≡ [])
      → ((pos : ℕ) (bits : List Bool) (final : List Bytes)
          → pos * 2 ^ h < n
          → Built sum256 n hashes matched h pos bits final
              (traverse_and_build sum256 h pos (block sum256 n hashes matched bits final)))
      → Built sum256 n hashes matched
          (suc h)
          pos
          bits
          final
          (traverse_and_build sum256 (suc h) pos (block sum256 n hashes matched bits final))
  unfolding traverse_and_build
  enter h pos bits final false t f l e z ih =
      let go : Bool → Option MerkleBlock = λ b. elim b [
        | false ↦
            add_hash sum256 (suc h) pos (block sum256 n hashes matched (bits ++ (false ∷ [])) final)
        | true ↦
            and_then
              (traverse_and_build sum256 h (pos * 2)
                (block sum256 n hashes matched (bits ++ (true ∷ [])) final))
              λ m'. elim (ltb (pos * 2 + 1) (calc_tree_width n h)) [
                | true ↦ traverse_and_build sum256 h (pos * 2 + 1) m'
                | false ↦ some m'
              ]
      ] in
      subst (Built sum256 n hashes matched (suc h) pos bits final)
        (sym (and_then-some (is_parent matched n (suc h) pos) go false e))
        (closed_node sum256 n hashes matched h pos bits final t f l (z refl))
  enter h pos bits final true t f l e z ih =
      let go : Bool → Option MerkleBlock = λ b. elim b [
        | false ↦
            add_hash sum256 (suc h) pos (block sum256 n hashes matched (bits ++ (false ∷ [])) final)
        | true ↦
            and_then
              (traverse_and_build sum256 h (pos * 2)
                (block sum256 n hashes matched (bits ++ (true ∷ [])) final))
              λ m'. elim (ltb (pos * 2 + 1) (calc_tree_width n h)) [
                | true ↦ traverse_and_build sum256 h (pos * 2 + 1) m'
                | false ↦ some m'
              ]
      ] in
      subst (Built sum256 n hashes matched (suc h) pos bits final)
        (sym (and_then-some (is_parent matched n (suc h) pos) go true e))
        (children sum256 n hashes matched h pos bits final (ltb (pos * 2 + 1) (calc_tree_width n h))
          t (FitsAt-below n h f) l refl
          (ih (pos * 2) (bits ++ (true ∷ [])) final (omega (arith, l, first_child h pos)))
          (ih (pos * 2 + 1)))

  parent_at :
      (h pos : ℕ)
      → IsTree n hashes matched
      → FitsAt n h
      → pos * 2 ^ h < n
      → (b : Bool) × (is_parent matched n h pos ≡ some b)
        × (b ≡ false → below sum256 n hashes matched h pos ≡ [])
  parent_at h pos t f l =
      let (b, e, k, z) =
        is_parent_from-none matched hashes (span n h pos) (pos * 2 ^ h) false
          (omega (arith, l, t.bit_each)) in
      (b, is_parent-span matched n h pos f l ∙ e, z)

  pub traverse_and_build-Built :
      (h pos : ℕ) (bits : List Bool) (final : List Bytes)
      → IsTree n hashes matched
      → FitsAt n h
      → pos * 2 ^ h < n
      → Built sum256 n hashes matched h pos bits final
          (traverse_and_build sum256 h pos (block sum256 n hashes matched bits final))
  traverse_and_build-Built zero pos bits final t f l =
      Built-leaf sum256 n hashes matched pos bits final t f (omega (arith, l))
  traverse_and_build-Built (suc h) pos bits final t f l =
      let (b, e, z) = parent_at (suc h) pos t f l in
      enter h pos bits final b t f l e z
        (λ pos bits final l. traverse_and_build-Built h pos bits final t (FitsAt-below n h f) l)
