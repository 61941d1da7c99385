-- ===== src/Lru/Insert.antt =====
-- The end of `Put` in neutrino/cache/lru/lru.go: the new element after an eviction.
use nogocommons.Base.{ℕ, subst, ◌+◌, ◌-◌, ◌≤◌, ◌≡◌, ◌≢◌, refl, ap, sym, ◌∙◌, arith, Bool, true}
use nogocommons.Base.{false, List, [], ◌∷◌, ◌++◌, All, All-imp, All-append, none, some}
use nogocommons.Base.{inl, inr, Bool-cases, add64}
use nogocommons.Lru.Cache.{Interface, Element, Cache, Outcome, done, failed, load}
use nogocommons.Lru.Cache.{put_evicted, store}
use nogocommons.Lru.Recency.{trim, without, find_key, IsHeld, view, size_or_zero}
use nogocommons.Lru.Recency.{is_nonempty, called_on, Ready, IsValid}
use nogocommons.Lru.Elements.{load-store}
use nogocommons.Lru.Evict.{Evicted}
use nogocommons.Lru.Append.{view-append, total-append, find_key-append, Distinct-append}

module _ {K V : Type 0} (inter : Interface K V) where
  older-other_ids :
      (next : ℕ) (es : List (Element K V)) → All (IsHeld inter next) es → All (λ x. x.id ≢ next) es
  older-other_ids next es h = All-imp (λ x held e. absurd (omega (arith, held.older, e))) es h

  IsHeld-later :
      (next : ℕ) (es : List (Element K V))
      → All (IsHeld inter next) es
      → All (IsHeld inter (next + 1)) es
  IsHeld-later next es h =
      All-imp (λ x held. record { sized = held.sized; older = omega (arith, held.older) }) es h

  insert-mapped :
      (k : K) (el : Element K V) (c : Cache K V)
      → Ready inter k c c.ll
      → (j : K) → el.key ≡ k
      → load inter j (store inter k el c.cache) ≡ find_key inter j (c.ll ++ (el ∷ []))
  insert-mapped k el c r j key_is = elim (Bool-cases (inter.same k j)) [
    | inl t ↦
        let absent : find_key inter j c.ll ≡ none =
          subst (λ i. find_key inter i c.ll ≡ none) (inter.same-≡ k j t) r.absent in
        let found : inter.same el.key j ≡ true = ap (λ i. inter.same i j) key_is ∙ t in
        ground (
          arith,
          t,
          absent,
          found,
          load-store inter k j el c.cache,
          find_key-append inter j c.ll el,
        )
    | inr f ↦
        let other : inter.same el.key j ≡ false = ap (λ i. inter.same i j) key_is ∙ f in
        ground (
          arith,
          f,
          other,
          r.mapped j f,
          load-store inter k j el c.cache,
          find_key-append inter j c.ll el,
        )
  ]

  insert-IsValid :
      (k : K) (v : V) (vs : ℕ) (c : Cache K V) (evicted : Bool)
      → Ready inter k c c.ll
      → c.size + vs ≤ c.capacity
      → inter.size_of v ≡ some vs
      → IsValid inter (put_evicted inter k v vs (c, done evicted)).0
  unfolding put_evicted
  insert-IsValid k v vs c evicted r room sized =
      let el : Element K V = record { id = c.next_id; key = k; value = v } in
      let known : size_or_zero inter v ≡ vs = ground (arith, sized) in
      let sum : add64 c.size vs ≡ c.size + vs = omega (arith, room, r.capacity_fits) in
      record {
        capacity_fits = r.capacity_fits;
        size_is = sum ∙ omega (arith, total-append inter c.ll el, r.size_is, known);
        fits = omega (arith, sum, room);
        held =
            All-append (IsHeld inter (c.next_id + 1)) c.ll (el ∷ [])
              (IsHeld-later c.next_id c.ll r.held)
              (record { sized = sized ∙ ap some (sym known); older = omega arith }, tt);
        distinct =
            Distinct-append inter c.ll el r.distinct r.absent
              (older-other_ids c.next_id c.ll r.held);
        mapped = λ j. insert-mapped k el c r j refl;
        unlocked = refl;
      }

  inserted-view :
      (k : K) (v : V) (vs : ℕ) (c : Cache K V) (evicted : Bool)
      → view (put_evicted inter k v vs (c, done evicted)).0.ll ≡ view c.ll ++ ((k, v) ∷ [])
  unfolding put_evicted
  inserted-view k v vs c evicted = view-append c.ll _

  inserted-deleted :
      (k : K) (v : V) (vs : ℕ) (c : Cache K V) (evicted : Bool)
      → (put_evicted inter k v vs (c, done evicted)).0.deleted ≡ c.deleted
  unfolding put_evicted
  inserted-deleted k v vs c evicted = refl

  inserted-outcome :
      (k : K) (v : V) (vs : ℕ) (c : Cache K V) (evicted : Bool)
      → (put_evicted inter k v vs (c, done evicted)).1 ≡ done evicted
  unfolding put_evicted
  inserted-outcome k v vs c evicted = refl

  -- What `Put` makes of a cache if the value fits.
  pub record Stored (k : K) (v : V) (vs : ℕ) (c : Cache K V) (r : Cache K V × Outcome)
      : Type 0 where
    pub valid : IsValid inter r.0
    pub view_is :
        view r.0.ll ≡ trim inter (c.capacity - vs) (without inter k (view c.ll)) ++ ((k, v) ∷ [])
    pub dropped : List (K × V)
    pub split_is :
        without inter k (view c.ll)
        ≡ dropped ++ trim inter (c.capacity - vs) (without inter k (view c.ll))
    pub called : r.0.deleted ≡ called_on dropped c.deleted
    pub succeeds : r.1 ≡ done (is_nonempty dropped)

  pub put_evicted-Stored :
      (k : K) (v : V) (vs : ℕ) (c c1 : Cache K V) (r : Cache K V × Outcome)
      → Evicted inter k vs false c1 c1.ll r
      → inter.size_of v ≡ some vs
      → c1.capacity ≡ c.capacity
      → view c1.ll ≡ without inter k (view c.ll)
      → c1.deleted ≡ c.deleted
      → Stored k v vs c (put_evicted inter k v vs r)
  put_evicted-Stored k v vs c c1 (c', failed e) h sized cap v_is calls =
      absurd (ground (arith, h.succeeds))
  put_evicted-Stored k v vs c c1 (c', done flag) h sized cap v_is calls =
      let room : c'.size + vs ≤ c'.capacity = omega (arith, h.room, h.capacity_is) in
      let kept : view c'.ll ≡ trim inter (c.capacity - vs) (without inter k (view c.ll)) =
        h.view_is
        ∙ ap (λ n. trim inter (n - vs) (view c1.ll)) cap
        ∙ ap (trim inter (c.capacity - vs)) v_is in
      record {
        valid = insert-IsValid k v vs c' flag h.ready room sized;
        view_is = inserted-view k v vs c' flag ∙ ap (λ m. m ++ ((k, v) ∷ [])) kept;
        dropped = h.dropped;
        split_is = sym v_is ∙ h.split_is ∙ ap (λ m. h.dropped ++ m) kept;
        called = inserted-deleted k v vs c' flag ∙ h.called ∙ ap (called_on h.dropped) calls;
        succeeds = inserted-outcome k v vs c' flag ∙ h.succeeds;
      }
