-- ===== src/PowCache/Calls.antt =====
-- The cache of nogopow/cache.go gives the data of the seed that it is asked for.
use nogocommons.Base.{ℕ, ◌≡◌, refl, ap, ◌∙◌, arith, Bool, true, false, Option, none, some, Bytes}
use nogocommons.Base.{if◌then◌else◌, ◌⊎◌, inl, inr, List, [], ◌∷◌}
use nogocommons.PowCache.Recent.{
  SimpleLru, new_simple_lru, with_item, remove_oldest, remove_element, move_to_front, value_of, get,
  push_front, add, remove, exceeds,
}
use nogocommons.PowCache.Data.{
  seed_key, generate, fill, get_data, Call, get_call, remove_call, call, run_calls,
}
use nogocommons.PowCache.Tame.{remove_element-IsTame, remove_oldest-IsTame, move_to_front-IsTame}
use nogocommons.PowCache.Answers.{
  IsFaithful, IsTame-IsFaithful, push_front-IsFaithful, set_value-IsFaithful,
}

module _ {V : Type 0} (make : Bytes → V) where
  -- A hit has the value for the key.
  abbrev pub IsRight : Bytes → Option V × SimpleLru V → Type 0
  IsRight k r = ((r.0 ≡ none) ⊎ (r.0 ≡ some (make k))) × IsFaithful make r.1

  get_at :
      (k : Bytes) (l : SimpleLru V) (o : Option ℕ)
      → l.items k ≡ o
      → IsFaithful make l
      → IsRight k (elim o [
        | none ↦ (none, l)
        | some id ↦ let l' = move_to_front id l in (value_of (l'.store id), l')
      ])
  get_at k l none e f = (inl refl, f)
  get_at k l (some id) e f =
      let (item, r) = f k id e in
      let t = move_to_front-IsTame id l in
      let (item', s, d) = t.store_kept id item r.stored in
      (
        inr (ap value_of s ∙ ap some (d.value_same ∙ r.value_right)),
        IsTame-IsFaithful make l (move_to_front id l) t f,
      )

  get-IsRight : (k : Bytes) (l : SimpleLru V) → IsFaithful make l → IsRight k (get k l)
  unfolding get
  get-IsRight k l f = get_at k l (l.items k) refl f

  trimmed :
      (b : Bool) (l : SimpleLru V)
      → IsFaithful make l
      → IsFaithful make (if b then remove_oldest l else l)
  trimmed true l f = IsTame-IsFaithful make l (remove_oldest l) (remove_oldest-IsTame l) f
  trimmed false l f = f

  add_at :
      (k : Bytes) (v : V) (l : SimpleLru V) (o : Option ℕ)
      → v ≡ make k
      → l.items k ≡ o
      → IsFaithful make l
      → IsFaithful make (elim o [
        | some id ↦ with_item id (λ item. record item { value = v }) (move_to_front id l)
        | none ↦
            let l' = push_front k v l in
            if exceeds l'.size l'.capacity then remove_oldest l' else l'
      ])
  add_at k v l none q e f =
      let l' = push_front k v l in
      trimmed (exceeds l'.size l'.capacity) l' (push_front-IsFaithful make k v l q f)
  add_at k v l (some id) q e f =
      let (item, r) = f k id e in
      let t = move_to_front-IsTame id l in
      let (item', s, d) = t.store_kept id item r.stored in
      set_value-IsFaithful make k id v (move_to_front id l) q (item', s, d.key_same ∙ r.key_right)
        (IsTame-IsFaithful make l (move_to_front id l) t f)

  add-IsFaithful :
      (k : Bytes) (v : V) (l : SimpleLru V)
      → v ≡ make k
      → IsFaithful make l
      → IsFaithful make (add k v l)
  unfolding add
  add-IsFaithful k v l q f = add_at k v l (l.items k) q refl f

  remove-IsFaithful :
      (k : Bytes) (l : SimpleLru V) → IsFaithful make l → IsFaithful make (remove k l).1
  unfolding remove
  remove-IsFaithful k l f = removed (l.items k)
    where
      removed :
          (o : Option ℕ)
          → IsFaithful make
              (elim o as (λ _. Bool × SimpleLru V) [
                | none ↦ (false, l)
                | some id ↦ (true, remove_element id l)
              ]).1
      removed none = f
      removed (some id) =
          IsTame-IsFaithful make l (remove_element id l) (remove_element-IsTame id l) f

module _ {V : Type 0} (calc_seed_cache : Bytes → V) where
  abbrev pub Gives : Bytes → V × SimpleLru V → Type 0
  Gives seed r = (r.0 ≡ generate calc_seed_cache seed) × IsFaithful (generate calc_seed_cache) r.1

  filled :
      (seed : Bytes) (o : Option V) (l : SimpleLru V)
      → (o ≡ none) ⊎ (o ≡ some (generate calc_seed_cache seed))
      → IsFaithful (generate calc_seed_cache) l
      → Gives seed (elim o [
        | some v ↦ (v, l)
        | none ↦ let v = generate calc_seed_cache seed in (v, add seed v l)
      ])
  filled seed none l h f = (
    refl,
    add-IsFaithful (generate calc_seed_cache) seed (generate calc_seed_cache seed) l refl f,
  )
  filled seed (some v) l (inl e) f = absurd (ground (arith, e))
  filled seed (some v) l (inr e) f = (ground (arith, e), f)

  fill-Gives :
      (seed : Bytes) (l : SimpleLru V)
      → IsFaithful (generate calc_seed_cache) l
      → Gives seed (fill calc_seed_cache seed l)
  unfolding fill
  fill-Gives seed l f =
      let (h, f') = get-IsRight (generate calc_seed_cache) seed l f in
      filled seed (get seed l).0 (get seed l).1 h f'

  given :
      (seed : Bytes) (o : Option V) (l : SimpleLru V)
      → (o ≡ none) ⊎ (o ≡ some (generate calc_seed_cache seed))
      → IsFaithful (generate calc_seed_cache) l
      → Gives seed (elim o [ some v ↦ (v, l) | none ↦ fill calc_seed_cache seed l ])
  given seed none l h f = fill-Gives seed l f
  given seed (some v) l (inl e) f = absurd (ground (arith, e))
  given seed (some v) l (inr e) f = (ground (arith, e), f)

  pub get_data-Gives :
      (seed : Bytes) (l : SimpleLru V)
      → IsFaithful (generate calc_seed_cache) l
      → Gives seed (get_data calc_seed_cache seed l)
  unfolding get_data
  get_data-Gives seed l f =
      let (h, f') = get-IsRight (generate calc_seed_cache) seed l f in
      given seed (get seed l).0 (get seed l).1 h f'

  pub run_calls-IsFaithful :
      (cs : List Call) → IsFaithful (generate calc_seed_cache) (run_calls calc_seed_cache cs)
  unfolding run_calls call new_simple_lru
  run_calls-IsFaithful [] = λ k id h. absurd (ground (arith, h))
  run_calls-IsFaithful (get_call seed ∷ cs) =
      (get_data-Gives seed (run_calls calc_seed_cache cs) (run_calls-IsFaithful cs)).1
  run_calls-IsFaithful (remove_call seed ∷ cs) =
      remove-IsFaithful (generate calc_seed_cache) seed (run_calls calc_seed_cache cs)
        (run_calls-IsFaithful cs)

  -- After any calls of `GetData` and `Remove`, one at a time, on a new cache, `GetData` gives
  -- the data that `calcSeedCache` makes of the seed, cut or filled up with zeros to 32 bytes.
  -- What `calcSeedCache` makes is a parameter.
  pub get_data-run_calls :
      (cs : List Call) (seed : Bytes)
      → (get_data calc_seed_cache seed (run_calls calc_seed_cache cs)).0
        ≡ calc_seed_cache (seed_key seed)
  get_data-run_calls cs seed =
      (get_data-Gives seed (run_calls calc_seed_cache cs) (run_calls-IsFaithful cs)).0
