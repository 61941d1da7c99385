-- ===== src/HeaderList/Runs.antt =====
-- Chains of neutrino/headerlist/bounded_header_list.go after any number of insertions.
use nogocommons.Base.{ℕ, suc, ◌+◌, ◌-◌, ◌%◌, ◌≤◌, ◌<◌, ◌≡◌, refl, ap, ◌∙◌, subst, arith}
use nogocommons.Base.{Option, none, some, ltb, ◌==◌, if◌then◌else◌}
use nogocommons.Base.{inl, inr, Bool-cases, min}
use native.Mathlib.Nat.{suc-mod, mod-eq-sub-mod, mod-eq_of_lt, zero-mod}
use mathlib.Core.Option
use nogocommons.Wire.Header.{BlockHeader}
use nogocommons.HeaderList.Node.{Node}
use nogocommons.HeaderList.Ring.{
  BoundedMemoryChain, new_bounded_memory_chain, next_ptr, set_node, build_ancestor, head_moves,
  push_back,
}
use nogocommons.HeaderList.Window.{IsWindow}
use nogocommons.HeaderList.Push.{build_ancestor-IsWindow}
use nogocommons.HeaderList.Pushed.{start-IsWindow, grow-IsWindow, slide-IsWindow}

-- The chain whose last node is number m.
abbrev pub ring : (size m : ℕ) → (ℕ → Node) → BoundedMemoryChain
ring size m nodes = record {
  head_ptr = some ((suc m - size) % size);
  tail_ptr = some (m % size);
  len = min (suc m) size;
  max_size = size;
  chain = nodes;
}

abbrev with_prev : Node → Option ℕ → Node
with_prev x p = record x { prev = p; ancestor = none }

-- The slots before the skip pointer of the new node is set.
abbrev grown_nodes : ℕ → ℕ → Node → (ℕ → Node) → ℕ → Node
grown_nodes size m x nodes = set_node (suc m % size) (with_prev x (some (m % size))) nodes

abbrev slid_nodes : ℕ → ℕ → Node → (ℕ → Node) → ℕ → Node
slid_nodes size m x nodes =
    let first = suc (suc m - size) % size in
    set_node (suc m % size) (with_prev x (if size == 1 then none else some (m % size)))
      (set_node first (record (nodes first) { prev = none }) nodes)

push_back-grown :
    (size m : ℕ) (x : Node) (nodes : ℕ → Node)
    → suc m < size
    → push_back x (ring size m nodes)
      ≡ Option.map
          (ring size (suc m))
          (build_ancestor size (suc m % size) (grown_nodes size m x nodes))
unfolding push_back next_ptr head_moves
push_back-grown size m x nodes h = ground (
  arith,
  suc-mod m size,
  mod-eq_of_lt {n = m} {m = size},
  mod-eq_of_lt {n = suc m} {m = size},
  zero-mod size,
)

push_back-slid :
    (size m : ℕ) (x : Node) (nodes : ℕ → Node)
    → 0 < size
    → size ≤ suc m
    → push_back x (ring size m nodes)
      ≡ Option.map
          (ring size (suc m))
          (build_ancestor size (suc m % size) (slid_nodes size m x nodes))
unfolding push_back next_ptr head_moves
push_back-slid size m x nodes z h =
    ground
      (arith, suc-mod m size, suc-mod (suc m - size) size, mod-eq-sub-mod {n = suc m} {m = size})

push_back-start :
    (size : ℕ) (x : Node) (nodes : ℕ → Node)
    → 0 < size
    → push_back x (new_bounded_memory_chain nodes size)
      ≡ Option.map (ring size 0) (
          build_ancestor size (0 % size) (
            set_node
              (0 % size)
              (with_prev x none)
              (set_node (0 % size) (record (nodes (0 % size)) { prev = none }) nodes)))
unfolding push_back next_ptr head_moves new_bounded_memory_chain
push_back-start size x nodes z = ground (arith, zero-mod size, mod-eq_of_lt {n = 1} {m = size})

-- The chain whose last node is number m, with its window.
pub record IsRing (size base m : ℕ) (headers : ℕ → BlockHeader) (b : BoundedMemoryChain)
    : Type 0 where
  pub nodes : ℕ → Node
  pub same : b ≡ ring size m nodes
  pub window : IsWindow size (suc m - size) (suc m) base headers nodes

module _ (size base m : ℕ) (headers : ℕ → BlockHeader) (z : 0 < size) where
  -- The skip pointer is set, and the result is a chain.
  built-IsRing :
      (x : Node) (b : BoundedMemoryChain) (nodes : ℕ → Node)
      → push_back x b ≡ Option.map (ring size m) (build_ancestor size (m % size) nodes)
      → IsWindow size (suc m - size) (suc m) base headers nodes
      → (b' : BoundedMemoryChain) × (push_back x b ≡ some b') × IsRing size base m headers b'
  built-IsRing x b nodes e w =
      let (nodes', built, w') =
        build_ancestor-IsWindow size (suc m - size) base m headers nodes w (omega arith)
          (omega arith) in
      (
        ring size m nodes',
        e ∙ ap (Option.map (ring size m)) built,
        record { nodes = nodes'; same = refl; window = w' },
      )

pub push_back-IsRing :
    (size base m : ℕ) (headers : ℕ → BlockHeader) (x : Node) (b : BoundedMemoryChain)
    → 0 < size
    → x.height ≡ base + suc m
    → headers (suc m) ≡ x.header
    → IsRing size base m headers b
    → (b' : BoundedMemoryChain) × (push_back x b ≡ some b') × IsRing size base (suc m) headers b'
push_back-IsRing size base m headers x b z h e r = elim (Bool-cases (ltb (suc m) size)) [
  | inl t ↦
      built-IsRing size base (suc m) headers z x b (grown_nodes size m x r.nodes)
        (ap (push_back x) r.same ∙ push_back-grown size m x r.nodes (ground (arith, t)))
        (subst (λ lo. IsWindow size lo (suc (suc m)) base headers (grown_nodes size m x r.nodes))
          (ground (arith, t))
          (grow-IsWindow size base headers r.nodes x (suc m - size) m (omega arith)
            (ground (arith, t)) h e r.window))
  | inr n ↦
      built-IsRing size base (suc m) headers z x b (slid_nodes size m x r.nodes)
        (ap (push_back x) r.same ∙ push_back-slid size m x r.nodes z (ground (arith, n)))
        (subst (λ lo. IsWindow size lo (suc (suc m)) base headers (slid_nodes size m x r.nodes))
          (ground (arith, n))
          (slide-IsWindow size base headers r.nodes x (suc m - size) m (ground (arith, n)) z h e
            r.window))
]

pub start-IsRing :
    (size base : ℕ) (headers : ℕ → BlockHeader) (x : Node) (nodes : ℕ → Node)
    → 0 < size
    → x.height ≡ base
    → headers 0 ≡ x.header
    → (b : BoundedMemoryChain) × (push_back x (new_bounded_memory_chain nodes size) ≡ some b)
      × IsRing size base 0 headers b
start-IsRing size base headers x nodes z h e =
    let cut = set_node (0 % size) (record (nodes (0 % size)) { prev = none }) nodes in
    let started = set_node (0 % size) (with_prev x none) cut in
    built-IsRing size base 0 headers z x (new_bounded_memory_chain nodes size) started
      (push_back-start size x nodes z)
      (subst (λ lo. IsWindow size lo 1 base headers started) (omega arith)
        (start-IsWindow size base headers cut x h e))
