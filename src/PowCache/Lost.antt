-- ===== src/PowCache/Lost.antt =====
-- What a hit does to the map of nogopow/cache.go.
use nogocommons.Base.{
  ℕ, ◌≡◌, refl, ap, ◌∙◌, arith, Bool, true, false, Option, none, some, Bytes, compare_refl,
}
use nogocommons.Base.{if◌then◌else◌, List}
use nogocommons.PowCache.Data.{generate, Call, run_calls}
use nogocommons.PowCache.Tame.{move_to_front-IsTame}
use nogocommons.PowCache.Calls.{run_calls-IsFaithful}
use nogocommons.PowCache.Recent.{
  decrement, ListItem, SimpleLru, same_key, is_item, unlink_before, unlink_behind, prev_of, next_of,
  delete_item, remove_element, link_before, to_front, move_to_front, value_of, get,
}

module _ {V : Type 0} where
  unlink_before-items :
      (p next : Option ℕ) (l : SimpleLru V) → (unlink_before p next l).items ≡ l.items
  unlink_before-items none next l = refl
  unlink_before-items (some p) next l = refl

  unlink_behind-items :
      (n prev : Option ℕ) (l : SimpleLru V) → (unlink_behind n prev l).items ≡ l.items
  unlink_behind-items none prev l = refl
  unlink_behind-items (some n) prev l = refl

  link_before-items :
      (o : Option ℕ) (id : ℕ) (l : SimpleLru V) → (link_before o id l).items ≡ l.items
  link_before-items none id l = refl
  link_before-items (some h) id l = refl

  remove_element-items :
      (id : ℕ) (l : SimpleLru V) → (remove_element id l).items ≡ (delete_item (l.store id) l).items
  unfolding remove_element
  remove_element-items id l =
      let l1 = delete_item (l.store id) l in
      let l2 : SimpleLru V = record l1 { size = decrement l.size } in
      let l3 = unlink_before (prev_of (l2.store id)) (next_of (l2.store id)) l2 in
      unlink_behind-items (next_of (l3.store id)) (prev_of (l3.store id)) l3
      ∙ unlink_before-items (prev_of (l2.store id)) (next_of (l2.store id)) l2

  to_front-items : (id : ℕ) (l : SimpleLru V) → (to_front id l).items ≡ l.items
  unfolding to_front
  to_front-items id l = link_before-items l.head id _

  -- The key of an item that is moved is deleted.
  move_to_front-lost :
      (k : Bytes) (id : ℕ) (l : SimpleLru V) (item : ListItem V)
      → l.store id ≡ some item
      → item.key ≡ k
      → is_item id l.head ≡ false
      → (move_to_front id l).items k ≡ none
  unfolding move_to_front
  move_to_front-lost k id l item s q n =
      let same : same_key k k ≡ true = ground (arith, compare_refl k) in
      ap (λ (b : Bool). (if b then l else to_front id (remove_element id l)).items k) n
      ∙ ap (λ (m : Bytes → Option ℕ). m k)
          (to_front-items id (remove_element id l) ∙ remove_element-items id l)
      ∙ ap (λ o. (delete_item o l).items k) s
      ∙ ap (λ z. if same_key z k then none else l.items k) q
      ∙ ap (λ (b : Bool). if b then none else l.items k) same

  get-hit :
      (k : Bytes) (id : ℕ) (l : SimpleLru V)
      → l.items k ≡ some id
      → get k l ≡ (value_of ((move_to_front id l).store id), move_to_front id l)
  unfolding get
  get-hit k id l e =
      ap
        (λ (o : Option ℕ). elim o as (λ _. Option V × SimpleLru V) [
          | none ↦ (none, l)
          | some id ↦ let l' = move_to_front id l in (value_of (l'.store id), l')
        ])
        e

  get-miss : (k : Bytes) (l : SimpleLru V) → l.items k ≡ none → (get k l).0 ≡ none
  unfolding get
  get-miss k l e =
      ap
        (λ (o : Option ℕ).
          (elim o as (λ _. Option V × SimpleLru V) [
            | none ↦ (none, l)
            | some id ↦ let l' = move_to_front id l in (value_of (l'.store id), l')
          ]).0)
        e

  -- After any calls of `GetData` and `Remove`, one at a time, on a new cache: if the map has an
  -- item for a seed that is not in front of the list, `Get` finds the data of the seed, and the
  -- next `Get` of that seed is a miss.
  pub get-run_calls-lost :
      (calc_seed_cache : Bytes → V) (cs : List Call) (seed : Bytes) (id : ℕ)
      → (run_calls calc_seed_cache cs).items seed ≡ some id
      → is_item id (run_calls calc_seed_cache cs).head ≡ false
      → ((get seed (run_calls calc_seed_cache cs)).0 ≡ some (generate calc_seed_cache seed))
        × ((get seed (get seed (run_calls calc_seed_cache cs)).1).0 ≡ none)
  get-run_calls-lost calc_seed_cache cs seed id e n =
      let l = run_calls calc_seed_cache cs in
      let (item, r) = run_calls-IsFaithful calc_seed_cache cs seed id e in
      let gone = move_to_front-lost seed id l item r.stored r.key_right n in
      let t = move_to_front-IsTame id l in
      let (item', s, d) = t.store_kept id item r.stored in
      (
        ap (λ p. p.0) (get-hit seed id l e)
            ∙ ap value_of s
            ∙ ap some (d.value_same ∙ r.value_right),
        ap (λ p. (get seed p.1).0) (get-hit seed id l e) ∙ get-miss seed (move_to_front id l) gone,
      )
