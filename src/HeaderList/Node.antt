-- ===== src/HeaderList/Node.antt =====
-- neutrino/headerlist/header_list.go. The nodes of a chain stand in the slice of the chain, and a
-- `*Node` is an index of it. Heights are not negative.
use nogocommons.Base.{ℕ, zero, suc, ◌-◌, ◌&&◌, Option, none, some, leb, ltb, ◌==◌}
use nogocommons.Base.{if◌then◌else◌}
use Prim.Native.Nat.{bit_and}
use nogocommons.Wire.Header.{BlockHeader}

pub record Node : Type 0 where
  pub height : ℕ
  pub header : BlockHeader
  pub prev : Option ℕ
  pub ancestor : Option ℕ

-- `invertLowestOne` and `getAncestorHeight`
unfoldable pub invert_lowest_one : ℕ → ℕ
invert_lowest_one n = bit_and n (n - 1)

unfoldable pub get_ancestor_height : ℕ → ℕ
unfolding invert_lowest_one
get_ancestor_height height = if height == 0 then 0 else invert_lowest_one (invert_lowest_one height)

-- Where one round of `Ancestor` goes from a node.
unfoldable pub next_back : (ℕ → Node) → ℕ → Node → Option ℕ
unfolding get_ancestor_height
next_back nodes height n = elim n.ancestor [
  | none ↦ n.prev
  | some a ↦
      if leb height (get_ancestor_height n.height)
        && leb height (nodes a).height
        && ltb (nodes a).height n.height
      then some a
      else n.prev
]

-- The loop of `Ancestor`, on fuel.
unfoldable pub walk : ℕ → (ℕ → Node) → ℕ → Option ℕ → Option (Option ℕ)
unfolding next_back
walk zero nodes height at = none
walk (suc fuel) nodes height none = some none
walk (suc fuel) nodes height (some i) =
    let rest = walk fuel nodes height (next_back nodes height (nodes i)) in
    if (nodes i).height == height then some (some i) else rest

-- `Ancestor`
unfoldable pub find_ancestor : ℕ → (ℕ → Node) → ℕ → Option ℕ → Option (Option ℕ)
unfolding walk
find_ancestor fuel nodes height none = some none
find_ancestor fuel nodes height (some i) =
    if ltb (nodes i).height height then some none else walk fuel nodes height (some i)
