-- ===== src/PowCache/Data.antt =====
-- nogopow/cache.go: `GetData` and `Remove` of the cache, one call at a time. What `calcSeedCache` makes
-- of a seed is a parameter.
use nogocommons.Base.{ℕ, none, some, List, [], ◌∷◌, ◌++◌, Bytes, length, replicate, take, ◌-◌}
use nogocommons.PowCache.Recent.{SimpleLru, get, add, remove, new_simple_lru}

abbrev pub max_cache_items : ℕ
max_cache_items = 64

-- `copy` of a seed into an array of 32 bytes.
abbrev pub seed_key : Bytes → Bytes
seed_key seed = take 32 seed ++ replicate (32 - length seed) 0

-- A call, with what it gives back for a seed.
pub data Call : Type 0 where
  get_call : (seed : Bytes) → Call
  remove_call : (seed : Bytes) → Call

module _ {V : Type 0} (calc_seed_cache : Bytes → V) where
  abbrev pub generate : Bytes → V
  generate seed = calc_seed_cache (seed_key seed)

  -- The function that `group.Do` runs.
  unfoldable pub fill : Bytes → SimpleLru V → V × SimpleLru V
  unfolding get add
  fill seed l =
      let r = get seed l in
      elim r.0 [ some v ↦ (v, r.1) | none ↦ let v = generate seed in (v, add seed v r.1) ]

  unfoldable pub get_data : Bytes → SimpleLru V → V × SimpleLru V
  unfolding get fill
  get_data seed l = let r = get seed l in elim r.0 [ some v ↦ (v, r.1) | none ↦ fill seed r.1 ]

  unfoldable pub call : Call → SimpleLru V → SimpleLru V
  unfolding get_data remove
  call (get_call seed) l = (get_data seed l).1
  call (remove_call seed) l = (remove seed l).1

  -- The calls, the last one first, on a new cache.
  unfoldable pub run_calls : List Call → SimpleLru V
  unfolding call new_simple_lru
  run_calls [] = new_simple_lru max_cache_items
  run_calls (c ∷ cs) = call c (run_calls cs)
