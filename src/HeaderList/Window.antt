-- ===== src/HeaderList/Window.antt =====
-- The nodes of neutrino/headerlist that are in the chain: those numbered from `lo` to before `hi`, the
-- number k in the slot k % size, at the height base + k.
use nogocommons.Base.{ℕ, zero, suc, ◌+◌, ◌-◌, ◌%◌, ◌≤◌, ◌<◌, ◌≡◌, refl, ap, sym, ◌∙◌, subst, arith}
use nogocommons.Base.{◌&&◌, Option, none, some, leb, ltb, ◌==◌, if◌then◌else◌}
use nogocommons.Base.{inl, inr, Bool-cases}
use nogocommons.Wire.Header.{BlockHeader}
use nogocommons.HeaderList.Node.{Node, next_back, walk, find_ancestor, get_ancestor_height}

-- An optional index is the slot of a node that is in the chain.
abbrev pub PointsTo : (size lo hi : ℕ) → Option ℕ → Type 0
PointsTo size lo hi none = Unit
PointsTo size lo hi (some p) = (j : ℕ) × (lo ≤ j) × (j < hi) × (p ≡ j % size)

pub record IsWindow (size lo hi base : ℕ) (headers : ℕ → BlockHeader) (nodes : ℕ → Node)
    : Type 0 where
  pub height_at : (k : ℕ) → lo ≤ k → k < hi → (nodes (k % size)).height ≡ base + k
  pub header_at : (k : ℕ) → lo ≤ k → k < hi → (nodes (k % size)).header ≡ headers k
  pub prev_first : (nodes (lo % size)).prev ≡ none
  pub prev_next : (k : ℕ) → lo ≤ k → suc k < hi → (nodes (suc k % size)).prev ≡ some (k % size)
  pub ancestor_at : (k : ℕ) → lo ≤ k → k < hi → PointsTo size lo hi (nodes (k % size)).ancestor

-- What a walk finds: the node at the height, if it is still there.
abbrev pub at_height : (size lo base height : ℕ) → Option ℕ
at_height size lo base height =
    if leb (base + lo) height then some ((height - base) % size) else none

module _ (size lo hi base : ℕ) (headers : ℕ → BlockHeader) (nodes : ℕ → Node)
    (w : IsWindow size lo hi base headers nodes) where
  -- One step back from a node above the height comes to a node before it, not below the height, or
  -- from the first node to none.
  abbrev StepsBack : (height k : ℕ) → Option ℕ → Type 0
  StepsBack height k none = k ≡ lo
  StepsBack height k (some p) = (j : ℕ) × (lo ≤ j) × (j < k) × (height ≤ base + j) × (p ≡ j % size)

  first_steps : (height k : ℕ) → k ≡ lo → StepsBack height k (nodes (k % size)).prev
  first_steps height k e =
      subst (StepsBack height k) (sym (ap (λ i. (nodes (i % size)).prev) e ∙ w.prev_first)) e

  prev_steps :
      (height k : ℕ)
      → lo ≤ k
      → k < hi
      → height < base + k
      → StepsBack height k (nodes (k % size)).prev
  prev_steps height zero l h t = first_steps height zero (omega arith)
  prev_steps height (suc k) l h t = elim (Bool-cases (leb lo k)) [
    | inl e ↦
        subst (StepsBack height (suc k)) (sym (w.prev_next k (ground (arith, e)) h))
          (k, ground (arith, e), omega arith, omega arith, refl)
    | inr e ↦ first_steps height (suc k) (ground (arith, e))
  ]

  jump_steps :
      (height k : ℕ)
      → lo ≤ k
      → k < hi
      → height < base + k
      → (a : Option ℕ) → PointsTo size lo hi a
      → StepsBack height k (next_back nodes height (record (nodes (k % size)) { ancestor = a }))
  unfolding next_back
  jump_steps height k l h t none p = prev_steps height k l h t
  jump_steps height k l h t (some a) (j, l', h', e) =
      elim (Bool-cases (
        leb height (get_ancestor_height (nodes (k % size)).height)
        && leb height (nodes a).height
        && ltb (nodes a).height (nodes (k % size)).height)) [
          | inl t' ↦ rw t' (
            j,
            l',
            ground (arith, t', e, w.height_at k l h, w.height_at j l' h'),
            ground (arith, t', e, w.height_at k l h, w.height_at j l' h'),
            e,
          )
          | inr n ↦ rw n (prev_steps height k l h t)
        ]

  next_steps :
      (height k : ℕ)
      → lo ≤ k
      → k < hi
      → height < base + k
      → StepsBack height k (next_back nodes height (nodes (k % size)))
  next_steps height k l h t =
      jump_steps height k l h t (nodes (k % size)).ancestor (w.ancestor_at k l h)

  -- With this fuel a walk from any node finds what there is.
  abbrev Finds : (fuel height : ℕ) → Type 0
  Finds fuel height =
      (k : ℕ)
      → lo ≤ k
      → k < hi
      → height ≤ base + k
      → k < fuel + lo
      → walk (suc fuel) nodes height (some (k % size)) ≡ some (at_height size lo base height)

  -- The walk goes on from where a step came to.
  walk_on :
      (fuel height k : ℕ)
      → Finds fuel height
      → k < hi
      → height < base + k
      → k < suc fuel + lo
      → (c : Option ℕ) → StepsBack height k c
      → walk (suc fuel) nodes height c ≡ some (at_height size lo base height)
  unfolding walk
  walk_on fuel height k ih h t f none s = ground (arith, s)
  walk_on fuel height k ih h t f (some p) (j, l, b, u, e) =
      ap (λ i. walk (suc fuel) nodes height (some i)) e ∙ ih j l (omega arith) u (omega arith)

  walk_lem : (fuel height : ℕ) → Finds fuel height
  unfolding walk
  walk_lem zero height k l h t f = absurd (omega arith)
  walk_lem (suc fuel) height k l h t f = elim (Bool-cases ((nodes (k % size)).height == height)) [
    | inl e ↦ rw e (ground (arith, e, w.height_at k l h))
    | inr n ↦ rw n (
        walk_on fuel height k (walk_lem fuel height) h (ground (arith, n, w.height_at k l h)) f
          (next_back nodes height (nodes (k % size)))
          (next_steps height k l h (ground (arith, n, w.height_at k l h))))
  ]

  -- With fuel for every node.
  pub find_ancestor_lem :
      (fuel height k : ℕ)
      → lo ≤ k
      → k < hi
      → k < fuel + lo
      → find_ancestor (suc fuel) nodes height (some (k % size))
        ≡ some (if leb height (base + k) then at_height size lo base height else none)
  unfolding find_ancestor
  find_ancestor_lem fuel height k l h f =
      ground (arith, w.height_at k l h, walk_lem fuel height k l h)
