-- ===== src/Lru/Put.antt =====
-- `Put` of neutrino/cache/lru/lru.go against the list of pairs.
use nogocommons.Base.{ℕ, subst, ◌≤◌, ◌<◌, ◌≡◌, refl, ap, sym, ◌∙◌, arith, true}
use nogocommons.Base.{none, some}
use nogocommons.Base.{inl, inr, Option-cases, sub64}
use nogocommons.Lru.Cache.{Interface, Element, Cache, failed, load, remove}
use nogocommons.Lru.Cache.{evict, put_evicted, put_over, put, unknown_size, over_capacity}
use nogocommons.Lru.Recency.{total, find_key, view, size_or_zero}
use nogocommons.Lru.Recency.{Ready, IsValid}
use nogocommons.Lru.Elements.{sub64_lem, find_key-Found, All-remove, Distinct-remove}
use nogocommons.Lru.Elements.{without_absent, All-find_key}
use nogocommons.Lru.Insert.{Stored, put_evicted-Stored}
use nogocommons.Lru.Evict.{evict-Evicted}

module _ {K V : Type 0} (inter : Interface K V) where
  new_key-Ready :
      (k : K) (c : Cache K V)
      → IsValid inter c
      → load inter k c.cache ≡ none
      → Ready inter k (record c { locked = true }) c.ll
  new_key-Ready k c h none_there = record {
    capacity_fits = h.capacity_fits;
    size_is = h.size_is;
    fits = h.fits;
    held = h.held;
    distinct = h.distinct;
    absent = sym (h.mapped k) ∙ none_there;
    mapped = λ j _. h.mapped j;
  }

  -- The cache without the element of the key that is put.
  abbrev without_element : Cache K V → Element K V → Cache K V
  without_element c el = record c {
    locked = true;
    ll = remove el.id c.ll;
    size = sub64 c.size (size_or_zero inter el.value);
  }

  old_key-Ready :
      (k : K) (c : Cache K V) (el : Element K V)
      → IsValid inter c
      → find_key inter k c.ll ≡ some el
      → Ready inter k (without_element c el) (remove el.id c.ll)
  old_key-Ready k c el h there =
      let found = find_key-Found inter k el c.ll h.distinct there in
      let smaller : sub64 c.size (size_or_zero inter el.value)
          ≡ total inter (view (remove el.id c.ll)) =
        sub64_lem c.size (size_or_zero inter el.value) (omega (arith, h.size_is, found.total_rest))
          (omega (arith, h.fits, h.capacity_fits))
        ∙ omega (arith, h.size_is, found.total_rest) in
      record {
        capacity_fits = h.capacity_fits;
        size_is = smaller;
        fits = omega (arith, smaller, h.size_is, h.fits, found.total_rest);
        held = All-remove inter _ el.id c.ll h.held;
        distinct = Distinct-remove inter el.id c.ll h.distinct;
        absent = found.absent_rest;
        mapped = λ j m. h.mapped j ∙ sym (found.find_rest j m);
      }

  put_over-Stored :
      (k : K) (v : V) (vs : ℕ) (c : Cache K V)
      → IsValid inter c
      → inter.size_of v ≡ some vs
      → vs ≤ c.capacity
      → Stored inter k v vs c (put_over inter k v vs c (load inter k c.cache))
  unfolding put_over
  put_over-Stored k v vs c h sized fits = elim (Option-cases (load inter k c.cache)) [
    | inl e ↦
        let locked = record c { locked = true } in
        let step : put_over inter k v vs c (load inter k c.cache)
            ≡ put_evicted inter k v vs (evict inter vs locked) =
          ap (put_over inter k v vs c) e in
        subst (Stored inter k v vs c) (sym step) (
          put_evicted-Stored inter k v vs c locked (evict inter vs locked)
            (evict-Evicted inter k vs locked fits (new_key-Ready k c h e)) sized refl
            (sym (without_absent inter k c.ll (sym (h.mapped k) ∙ e))) refl)
    | inr (el, e) ↦
        let there : find_key inter k c.ll ≡ some el = sym (h.mapped k) ∙ e in
        let c1 = without_element c el in
        let held = All-find_key inter _ k el c.ll h.held there in
        let step : put_over inter k v vs c (load inter k c.cache)
            ≡ put_evicted inter k v vs (evict inter vs c1) =
          ap (put_over inter k v vs c) e ∙ ground (arith, held.sized) in
        subst (Stored inter k v vs c) (sym step) (
          put_evicted-Stored inter k v vs c c1 (evict inter vs c1)
            (evict-Evicted inter k vs c1 fits (old_key-Ready k c el h there)) sized refl
            (find_key-Found inter k el c.ll h.distinct there).view_rest refl)
  ]

  -- `Put` on a valid cache of a value that is not larger than the capacity succeeds: the pairs
  -- that are left are those of the other keys, without as many of the least recently used ones
  -- as must go to make the room, with the new pair as the most recently used. It reports whether
  -- any went and has called the callback on those that did, in turn; the cache is valid and the
  -- mutex released.
  pub put-Stored :
      (c : Cache K V) (k : K) (v : V) (vs : ℕ)
      → IsValid inter c
      → inter.size_of v ≡ some vs
      → vs ≤ c.capacity
      → Stored inter k v vs c (put inter c k v)
  unfolding put
  put-Stored c k v vs h sized fits =
      let step : put inter c k v ≡ put_over inter k v vs c (load inter k c.cache) =
        ground (arith, sized, fits) in
      subst (Stored inter k v vs c) (sym step) (put_over-Stored k v vs c h sized fits)

  pub put_refuses :
      (c : Cache K V) (k : K) (v : V)
      → (inter.size_of v ≡ none → put inter c k v ≡ (c, failed unknown_size))
        × ((vs : ℕ)
            → inter.size_of v ≡ some vs
            → c.capacity < vs
            → put inter c k v ≡ (c, failed over_capacity))
  unfolding put
  put_refuses c k v = (λ e. ground (arith, e), λ vs e over. ground (arith, e, over))
