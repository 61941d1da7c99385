-- ===== src/Lru/Runs.antt =====
-- Runs of the cache of neutrino/cache/lru/lru.go: what holds after any calls of its methods.
use nogocommons.Base.{ℕ, subst, ◌≡◌, refl, ap, sym, ◌∙◌, arith, true, Option-cases}
use nogocommons.Base.{List, [], ◌∷◌, ◌++◌, none, some, inl, inr, ltb, Bool-cases, IsU64, ◌≤◌, ◌-◌}
use nogocommons.Lru.Cache.{Interface, Cache, new_cache, load, put, get, load_and_delete}
use nogocommons.Lru.Recency.{IsValid, lookup, without, trim, find_key, view, Distinct, total}
use nogocommons.Lru.Put.{put-Stored, put_refuses}
use nogocommons.Lru.Methods.{get-Reads, load_and_delete-Reads}

module _ {K V : Type 0} (inter : Interface K V) where
  -- The caches that calls of the methods make of a new one, those that answer an error included.
  pub data Reachable (capacity : ℕ) : Cache K V → Type 0 where
    start : Reachable capacity (new_cache capacity)
    after_put :
        {c : Cache K V}
        → Reachable capacity c
        → (k : K) (v : V) → Reachable capacity (put inter c k v).0
    after_get :
        {c : Cache K V} → Reachable capacity c → (k : K) → Reachable capacity (get inter c k).0
    after_delete :
        {c : Cache K V}
        → Reachable capacity c
        → (k : K) → Reachable capacity (load_and_delete inter c k).0

  new_cache-IsValid : (capacity : ℕ) → IsU64 capacity → IsValid inter (new_cache capacity)
  unfolding new_cache total Distinct load find_key
  new_cache-IsValid capacity h = record {
    capacity_fits = h;
    size_is = refl;
    fits = omega arith;
    held = tt;
    distinct = tt;
    mapped = λ j. refl;
    unlocked = refl;
  }

  pub put-IsValid :
      (c : Cache K V) (k : K) (v : V) → IsValid inter c → IsValid inter (put inter c k v).0
  put-IsValid c k v h = elim (Option-cases (inter.size_of v)) [
    | inl e ↦ subst (λ r. IsValid inter r.0) (sym ((put_refuses inter c k v).0 e)) h
    | inr (vs, e) ↦ elim (Bool-cases (ltb c.capacity vs)) [
      | inl over ↦
          subst (λ r. IsValid inter r.0)
            (sym ((put_refuses inter c k v).1 vs e (ground (arith, over)))) h
      | inr fits ↦ (put-Stored inter c k v vs h e (ground (arith, fits))).valid
    ]
  ]

  -- Any calls of `Put`, `Get` and `LoadAndDelete` on a new cache, refused ones included, leave a
  -- valid cache: the size is that of the values and within the capacity, the map leads to the
  -- element of each key, the elements have different keys, and the mutex is free.
  pub Reachable-IsValid :
      {capacity : ℕ} {c : Cache K V} → IsU64 capacity → Reachable capacity c → IsValid inter c
  Reachable-IsValid {capacity} h start = new_cache-IsValid capacity h
  Reachable-IsValid h (after_put {c} r k v) = put-IsValid c k v (Reachable-IsValid h r)
  Reachable-IsValid h (after_get {c} r k) = (get-Reads inter c k (Reachable-IsValid h r)).valid
  Reachable-IsValid h (after_delete {c} r k) =
      (load_and_delete-Reads inter c k (Reachable-IsValid h r)).valid

  lookup-without :
      (k j : K) (m : List (K × V))
      → inter.same k j ≡ true
      → lookup inter j (without inter k m) ≡ none
  unfolding lookup without
  lookup-without k j [] t = refl
  lookup-without k j ((i, v) ∷ m) t = ground (arith, inter.same-≡ k j t, lookup-without k j m t)

  lookup-trim :
      (k : K) (room : ℕ) (m : List (K × V))
      → lookup inter k m ≡ none
      → lookup inter k (trim inter room m) ≡ none
  unfolding lookup trim
  lookup-trim k room [] h = refl
  lookup-trim k room (x ∷ m) h = ground (arith, h, lookup-trim k room m)

  lookup-append :
      (k : K) (m : List (K × V)) (v : V)
      → lookup inter k m ≡ none
      → lookup inter k (m ++ ((k, v) ∷ [])) ≡ some v
  unfolding lookup
  lookup-append k [] v h = ground (arith, inter.same_refl k)
  lookup-append k ((j, w) ∷ m) v h = ground (arith, h, lookup-append k m v)

  -- `Get` after `Put` of a value that is not larger than the capacity of a valid cache returns
  -- that value, whatever had to be evicted.
  pub get-put :
      (c : Cache K V) (k : K) (v : V) (vs : ℕ)
      → IsValid inter c
      → inter.size_of v ≡ some vs
      → vs ≤ c.capacity
      → (get inter (put inter c k v).0 k).1 ≡ some v
  get-put c k v vs h sized fits =
      let stored = put-Stored inter c k v vs h sized fits in
      let kept = trim inter (c.capacity - vs) (without inter k (view c.ll)) in
      (get-Reads inter (put inter c k v).0 k stored.valid).answers
      ∙ ap (lookup inter k) stored.view_is
      ∙ lookup-append k kept v (
          lookup-trim k (c.capacity - vs) (without inter k (view c.ll))
            (lookup-without k k (view c.ll) (inter.same_refl k)))
