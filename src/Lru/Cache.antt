-- ===== src/Lru/Cache.antt =====
-- neutrino/cache/lru/lru.go: the `Cache` over a linked list and a `syncMap`. An `*Element` is its
-- number with the entry it holds, and the list `ll` is the sequence of its elements from the back,
-- the least recently used one, to the front. The map is an association list. The calls of the
-- callback `onDelete` are recorded in `deleted`, the latest first, and `locked` says whether the
-- mutex is held. One call runs at a time.
use nogocommons.Base.{ℕ, ◌+◌, ◌≡◌, Bool, true, false, Option, none, some, List, [], ◌∷◌, ◌++◌}
use nogocommons.Base.{length, ltb, ◌==◌, if◌then◌else◌, IsU64, add64, sub64}

-- The `comparable` keys, and the interface `cache.Value`: `Size` is a 64-bit number or an error.
pub record Interface (K V : Type 0) : Type 0 where
  pub same : K → K → Bool
  pub same_refl : (k : K) → same k k ≡ true
  pub same-≡ : (k j : K) → same k j ≡ true → k ≡ j
  pub size_of : V → Option ℕ
  pub size_of-IsU64 : (v : V) (n : ℕ) → size_of v ≡ some n → IsU64 n

pub record Element (K V : Type 0) : Type 0 where
  pub id : ℕ
  pub key : K
  pub value : V

pub record Cache (K V : Type 0) : Type 0 where
  pub capacity : ℕ
  pub size : ℕ
  pub ll : List (Element K V)
  pub cache : List (K × Element K V)
  pub locked : Bool
  pub deleted : List (K × V)
  pub next_id : ℕ

-- The errors of `evict` and `Put`, in the order of the source.
pub data CacheError : Type 0 where
  over_capacity : CacheError
  all_evicted : CacheError
  unknown_size : CacheError

-- `(evicted, err)`
pub data Outcome : Type 0 where
  done : (evicted : Bool) → Outcome
  failed : CacheError → Outcome

module _ {K V : Type 0} where
  -- `NewCache`
  unfoldable pub new_cache : ℕ → Cache K V
  new_cache capacity = record {
    capacity = capacity;
    size = 0;
    ll = [];
    cache = [];
    locked = false;
    deleted = [];
    next_id = 0;
  }

  -- `List.Remove`, which does nothing to an element that is not in the list.
  unfoldable pub remove : ℕ → List (Element K V) → List (Element K V)
  remove i [] = []
  remove i (e ∷ es) = elim (e.id == i) [ true ↦ es | false ↦ e ∷ remove i es ]

  unfoldable pub contains : ℕ → List (Element K V) → Bool
  contains i [] = false
  contains i (e ∷ es) = elim (e.id == i) [ true ↦ true | false ↦ contains i es ]

  -- `List.MoveToFront`
  unfoldable pub move_to_front : Element K V → List (Element K V) → List (Element K V)
  unfolding contains remove
  move_to_front el es = if contains el.id es then remove el.id es ++ (el ∷ []) else es

  unfoldable pub len : Cache K V → ℕ
  len c = length c.ll

module _ {K V : Type 0} (inter : Interface K V) where
  -- `syncMap`: `Load`, `Delete` and `Store`
  unfoldable pub load : K → List (K × Element K V) → Option (Element K V)
  load k [] = none
  load k ((j, el) ∷ m) = elim (inter.same j k) [ true ↦ some el | false ↦ load k m ]

  unfoldable pub map_delete : K → List (K × Element K V) → List (K × Element K V)
  map_delete k [] = []
  map_delete k ((j, el) ∷ m) = elim (inter.same j k) [
    | true ↦ map_delete k m
    | false ↦ (j, el) ∷ map_delete k m
  ]

  unfoldable pub store : K → Element K V → List (K × Element K V) → List (K × Element K V)
  unfolding map_delete
  store k el m = (k, el) ∷ map_delete k m

  -- The loop of `evict`; the list is that of the cache.
  unfoldable pub evict_from : ℕ → Bool → Cache K V → List (Element K V) → Cache K V × Outcome
  evict_from needed evicted c [] = elim (ltb (sub64 c.capacity c.size) needed) [
    | true ↦ (record c { ll = [] }, failed all_evicted)
    | false ↦ (record c { ll = [] }, done evicted)
  ]
  evict_from needed evicted c (e ∷ es) = elim (ltb (sub64 c.capacity c.size) needed) [
    | true ↦ elim (inter.size_of e.value) [
      | none ↦ (record c { ll = e ∷ es }, failed unknown_size)
      | some n ↦
          evict_from needed true
            (record c {
              size = sub64 c.size n;
              deleted = (e.key, e.value) ∷ c.deleted;
              cache = map_delete e.key c.cache;
            })
            es
    ]
    | false ↦ (record c { ll = e ∷ es }, done evicted)
  ]

  -- `evict`
  unfoldable pub evict : ℕ → Cache K V → Cache K V × Outcome
  unfolding evict_from
  evict needed c = elim (ltb c.capacity needed) [
    | true ↦ (c, failed over_capacity)
    | false ↦ evict_from needed false c c.ll
  ]

  -- The rest of `Put`, after the eviction. An error of it is returned with the mutex held.
  unfoldable pub put_evicted : K → V → ℕ → Cache K V × Outcome → Cache K V × Outcome
  unfolding store
  put_evicted k v vs (c, failed e) = (c, failed e)
  put_evicted k v vs (c, done evicted) =
      let el : Element K V = record { id = c.next_id; key = k; value = v } in
      (
        record c {
          ll = c.ll ++ (el ∷ []);
          size = add64 c.size vs;
          locked = false;
          cache = store k el c.cache;
          next_id = c.next_id + 1;
        },
        done evicted,
      )

  -- `Put` with a value that is not larger than the capacity: an element of the key is removed.
  unfoldable pub put_over : K → V → ℕ → Cache K V → Option (Element K V) → Cache K V × Outcome
  unfolding put_evicted evict
  put_over k v vs c none = put_evicted k v vs (evict vs (record c { locked = true }))
  put_over k v vs c (some el) = elim (inter.size_of el.value) [
    | none ↦ (c, failed unknown_size)
    | some n ↦
        put_evicted k v vs
          (evict vs (record c { locked = true; ll = remove el.id c.ll; size = sub64 c.size n }))
  ]

  -- `Put`
  unfoldable pub put : Cache K V → K → V → Cache K V × Outcome
  unfolding put_over load
  put c k v = elim (inter.size_of v) [
    | none ↦ (c, failed unknown_size)
    | some vs ↦ elim (ltb c.capacity vs) [
      | true ↦ (c, failed over_capacity)
      | false ↦ put_over k v vs c (load k c.cache)
    ]
  ]

  -- `Get`; `none` is `ErrElementNotFound`.
  unfoldable pub get : Cache K V → K → Cache K V × Option V
  unfolding load move_to_front
  get c k = elim (load k c.cache) [
    | none ↦ (c, none)
    | some el ↦ (record c { ll = move_to_front el c.ll }, some el.value)
  ]

  -- `LoadAndDelete`: an element whose size is unknown leaves the map, and stays in the list.
  unfoldable pub load_and_delete : Cache K V → K → Cache K V × Option V
  unfolding load map_delete remove
  load_and_delete c k = elim (load k c.cache) [
    | none ↦ (c, none)
    | some el ↦ elim (inter.size_of el.value) [
      | none ↦ (record c { cache = map_delete k c.cache }, none)
      | some n ↦ (
        record c {
          cache = map_delete k c.cache;
          deleted = (k, el.value) ∷ c.deleted;
          ll = remove el.id c.ll;
          size = sub64 c.size n;
        },
        some el.value,
      )
    ]
  ]
