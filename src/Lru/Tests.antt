-- ===== src/Lru/Tests.antt =====
-- Runs of the cache of neutrino/cache/lru/lru.go, and the theorems at concrete inputs.
use nogocommons.Base.{ℕ, ◌≡◌, refl, arith, true, false, none, some, [], ◌∷◌}
use nogocommons.Base.{◌==◌, ==_iff, ltb, u64_mod}
use nogocommons.Lru.Cache.{
  Interface, Cache, new_cache, put, put_over, put_evicted, evict, evict_from,
}
use nogocommons.Lru.Cache.{get, load, map_delete, store, remove}
use nogocommons.Lru.Recency.{view, touch}
use nogocommons.Lru.Put.{put-Stored}
use nogocommons.Lru.Insert.{Stored}
use nogocommons.Lru.Methods.{get-Reads, Reads}
use nogocommons.Lru.Runs.{Reachable, start, after_put, after_get, Reachable-IsValid}

-- Keys and values are numbers, and a value is its own size, unless it has more than 64 bits.
abbrev numbers : Interface ℕ ℕ
numbers = record {
  same = λ a b. a == b;
  same_refl = λ a. (==_iff a a).1 refl;
  same-≡ = λ a b h. (==_iff a b).0 h;
  size_of = λ v. elim (ltb v u64_mod) [ true ↦ some v | false ↦ none ];
  size_of-IsU64 = λ v n h. ground (arith, h);
}

-- A cache of capacity 10 with values of the sizes 4, 3 and 3, of which the second was read last.
abbrev three : Cache ℕ ℕ
three = (get numbers (put numbers (put numbers (put numbers (new_cache 10) 1 4).0 2 3).0 3 3).0 2).0

three_reached : Reachable numbers 10 three
three_reached = after_get (after_put (after_put (after_put start 1 4) 2 3) 3 3) 2

three_view : view three.ll ≡ (1, 4) ∷ (3, 3) ∷ (2, 3) ∷ []
unfolding new_cache put put_over put_evicted evict evict_from get load map_delete store remove
three_view = refl

three_capacity : three.capacity ≡ 10
unfolding new_cache put put_over put_evicted evict evict_from get load map_delete store remove
three_capacity = refl

-- A value of size 4 makes the pair that was used least recently go, and one pair is enough.
evicting : view (put numbers three 4 4).0.ll ≡ (3, 3) ∷ (2, 3) ∷ (4, 4) ∷ []
unfolding new_cache put put_over put_evicted evict evict_from get load map_delete store remove
evicting = refl

put-Stored_example : Stored numbers 4 4 4 three (put numbers three 4 4)
put-Stored_example =
    put-Stored numbers three 4 4 4 (Reachable-IsValid numbers (omega arith) three_reached) refl
      (omega (arith, three_capacity))

get-Reads_example : Reads numbers 3 three (touch numbers 3 (view three.ll)) (get numbers three 3)
get-Reads_example =
    get-Reads numbers three 3 (Reachable-IsValid numbers (omega arith) three_reached)
