-- ===== src/Bloom/Partial.antt =====
-- The receiver of a partial merkle tree of nogoutil/bloom/merkleblock.go, as BIP 37 describes it: it walks
-- the same tree, depth first, and takes a bit for each node and a hash for each that is not entered.
use nogocommons.Base.{ℕ, zero, suc, ◌+◌, ◌-◌, ◌*◌, ◌^◌, min}
use nogocommons.Base.{
  Bool, true, false, Option, none, some, List, [], ◌∷◌, ◌++◌, Bytes, get_elem?, ltb,
}
use nogocommons.Base.{if◌then◌else◌}
use nogocommons.Bloom.Filter.{and_then}
use nogocommons.Bloom.Merkle.{hash_merkle_branches}

-- A transaction that matches, by its number and its hash.
abbrev pub Leaf : Type 0
Leaf = ℕ × Bytes

-- What the receiver knows of a node: its hash, the transactions below it, and what is left to read.
pub record Extracted : Type 0 where
  pub root : Bytes
  pub leaves : List Leaf
  pub bits_left : List Bool
  pub hashes_left : List Bytes

module _ (sum256 : Bytes → Bytes) (num_tx : ℕ) where
  -- A node with one child has its hash twice.
  abbrev pub join : Extracted → Extracted → Extracted
  join l r = record r {
    root = hash_merkle_branches sum256 l.root r.root;
    leaves = l.leaves ++ r.leaves;
  }

  abbrev pub double : Extracted → Extracted
  double l = record l { root = hash_merkle_branches sum256 l.root l.root }

  unfoldable pub extract : ℕ → ℕ → List Bool → List Bytes → Option Extracted
  extract h pos [] hashes = none
  extract zero pos (b ∷ bits) [] = none
  extract zero pos (b ∷ bits) (x ∷ hashes) = some record {
    root = x;
    leaves = if b then (pos, x) ∷ [] else [];
    bits_left = bits;
    hashes_left = hashes;
  }
  extract (suc h) pos (false ∷ bits) [] = none
  extract (suc h) pos (false ∷ bits) (x ∷ hashes) =
      some record { root = x; leaves = []; bits_left = bits; hashes_left = hashes }
  extract (suc h) pos (true ∷ bits) hashes = and_then (extract h (pos * 2) bits hashes) λ l.
      elim (ltb ((pos * 2 + 1) * 2 ^ h) num_tx) [
        | true ↦ and_then (extract h (pos * 2 + 1) l.bits_left l.hashes_left) λ r. some (join l r)
        | false ↦ some (double l)
      ]

-- The transactions that match among so many from the number `i` on.
abbrev pub leaf_at : Option Bool → Option Bytes → ℕ → List Leaf
leaf_at none x i = []
leaf_at (some false) x i = []
leaf_at (some true) none i = []
leaf_at (some true) (some x) i = (i, x) ∷ []

unfoldable pub matched_from : List Bool → List Bytes → ℕ → ℕ → List Leaf
matched_from matched hashes zero i = []
matched_from matched hashes (suc n) i =
    leaf_at (get_elem? matched i) (get_elem? hashes i) i ++ matched_from matched hashes n (suc i)

-- The number of leaves below a node.
abbrev pub span : ℕ → ℕ → ℕ → ℕ
span num_tx h pos = min ((pos + 1) * 2 ^ h) num_tx - pos * 2 ^ h
