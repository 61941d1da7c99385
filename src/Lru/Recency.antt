-- ===== src/Lru/Recency.antt =====
-- The cache of neutrino/cache/lru/lru.go as the list of its pairs, the least recently used first: what
-- the cache promises, and when the fields of a `Cache` stand for such a list.
use nogocommons.Base.{ℕ, Bool, ◌+◌, ◌≤◌, ◌<◌, ◌≡◌, ◌≢◌, true, false, Option, none, some}
use nogocommons.Base.{List, [], ◌∷◌, ◌++◌, All, leb, IsU64}
use nogocommons.Lru.Cache.{Interface, Element, Cache, load}

module _ {K V : Type 0} (inter : Interface K V) where
  -- The size of a value, zero where it is unknown.
  abbrev pub size_or_zero : V → ℕ
  size_or_zero v = elim (inter.size_of v) [ none ↦ 0 | some n ↦ n ]

  unfoldable pub total : List (K × V) → ℕ
  total [] = 0
  total ((k, v) ∷ m) = size_or_zero v + total m

  unfoldable pub lookup : K → List (K × V) → Option V
  lookup k [] = none
  lookup k ((j, v) ∷ m) = elim (inter.same j k) [ true ↦ some v | false ↦ lookup k m ]

  unfoldable pub without : K → List (K × V) → List (K × V)
  without k [] = []
  without k ((j, v) ∷ m) = elim (inter.same j k) [
    | true ↦ without k m
    | false ↦ (j, v) ∷ without k m
  ]

  -- Drop the least recently used pairs until the sizes of the others add up to `room` at most.
  unfoldable pub trim : ℕ → List (K × V) → List (K × V)
  unfolding total
  trim room [] = []
  trim room (x ∷ m) = elim (leb (total (x ∷ m)) room) [ true ↦ x ∷ m | false ↦ trim room m ]

  -- A pair that is read becomes the most recently used one.
  unfoldable pub touch : K → List (K × V) → List (K × V)
  unfolding lookup without
  touch k m = elim (lookup k m) [ none ↦ m | some v ↦ without k m ++ ((k, v) ∷ []) ]

  -- The first element of a key.
  unfoldable pub find_key : K → List (Element K V) → Option (Element K V)
  find_key k [] = none
  find_key k (e ∷ es) = elim (inter.same e.key k) [ true ↦ some e | false ↦ find_key k es ]

  -- The elements have different keys and different numbers.
  unfoldable pub Distinct : List (Element K V) → Type 0
  Distinct [] = Unit
  Distinct (e ∷ es) = All (λ x. (inter.same e.key x.key ≡ false) × (x.id ≢ e.id)) es × Distinct es

  -- An element whose size is known and whose number has been given away.
  pub record IsHeld (next : ℕ) (e : Element K V) : Type 0 where
    pub sized : inter.size_of e.value ≡ some (size_or_zero e.value)
    pub older : e.id < next

module _ {K V : Type 0} where
  abbrev pub is_nonempty : List (K × V) → Bool
  is_nonempty [] = false
  is_nonempty (x ∷ m) = true

  -- The record of the callback's calls after those on the pairs `m` in turn.
  abbrev pub called_on : List (K × V) → List (K × V) → List (K × V)
  called_on [] calls = calls
  called_on (x ∷ m) calls = called_on m (x ∷ calls)

  abbrev pub view : List (Element K V) → List (K × V)
  view [] = []
  view (e ∷ es) = (e.key, e.value) ∷ view es

module _ {K V : Type 0} (inter : Interface K V) where
  -- What holds in the midst of `Put`, when no element of the list has the key.
  pub record Ready (k : K) (c : Cache K V) (es : List (Element K V)) : Type 0 where
    pub capacity_fits : IsU64 c.capacity
    pub size_is : c.size ≡ total inter (view es)
    pub fits : c.size ≤ c.capacity
    pub held : All (IsHeld inter c.next_id) es
    pub distinct : Distinct inter es
    pub absent : find_key inter k es ≡ none
    pub mapped : (j : K) → inter.same k j ≡ false → load inter j c.cache ≡ find_key inter j es

  -- A well-formed cache: it is not locked, its size is that of its values and within the
  -- capacity, the elements differ, and the map leads to the element of each key.
  pub record IsValid (c : Cache K V) : Type 0 where
    pub capacity_fits : IsU64 c.capacity
    pub size_is : c.size ≡ total inter (view c.ll)
    pub fits : c.size ≤ c.capacity
    pub held : All (IsHeld inter c.next_id) c.ll
    pub distinct : Distinct inter c.ll
    pub mapped : (j : K) → load inter j c.cache ≡ find_key inter j c.ll
    pub unlocked : c.locked ≡ false
