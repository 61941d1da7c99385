-- ===== src/Lru/Methods.antt =====
-- `Get` and `LoadAndDelete` of neutrino/cache/lru/lru.go against the list of pairs.
use nogocommons.Base.{subst, ◌≡◌, ap, sym, ◌∙◌, arith, true, false}
use nogocommons.Base.{List, [], ◌∷◌, ◌++◌, All-append, none, some}
use nogocommons.Base.{inl, inr, Bool-cases, Option, Option-cases, sub64}
use nogocommons.Lru.Cache.{
  Interface, Element, Cache, load, map_delete, remove, move_to_front, contains,
}
use nogocommons.Lru.Cache.{get, load_and_delete}
use nogocommons.Lru.Recency.{total, lookup, touch, without, find_key, view, size_or_zero, IsHeld}
use nogocommons.Lru.Recency.{IsValid}
use nogocommons.Lru.Elements.{sub64_lem, load-map_delete, find_key-Found, find_key-lookup}
use nogocommons.Lru.Elements.{All-remove, Distinct-remove, All-find_key, without_absent, Found}
use nogocommons.Lru.Append.{view-append, total-append, find_key-append, Distinct-append}

module _ {K V : Type 0} (inter : Interface K V) where
  -- A method keeps the cache valid, answers the value of the key, and leaves the pairs `m`.
  pub record Reads (k : K) (c : Cache K V) (m : List (K × V)) (r : Cache K V × Option V)
      : Type 0 where
    pub valid : IsValid inter r.0
    pub answers : r.1 ≡ lookup inter k (view c.ll)
    pub leaves : view r.0.ll ≡ m

  move_to_front_in :
      (el : Element K V) (es : List (Element K V))
      → contains el.id es ≡ true
      → move_to_front el es ≡ remove el.id es ++ (el ∷ [])
  unfolding move_to_front
  move_to_front_in el es h = ground (arith, h)

  moved-mapped :
      (k : K) (el : Element K V) (es : List (Element K V))
      → Found inter k el es
      → find_key inter k es ≡ some el
      → (j : K) → find_key inter j es ≡ find_key inter j (remove el.id es ++ (el ∷ []))
  moved-mapped k el es found there j = elim (Bool-cases (inter.same k j)) [
    | inl t ↦
        let k_is : k ≡ j = inter.same-≡ k j t in
        let there' : find_key inter j es ≡ some el =
          subst (λ i. find_key inter i es ≡ some el) k_is there in
        let absent : find_key inter j (remove el.id es) ≡ none =
          subst (λ i. find_key inter i (remove el.id es) ≡ none) k_is found.absent_rest in
        let same_el : inter.same el.key j ≡ true = ap (λ i. inter.same i j) found.key_is ∙ t in
        ground (arith, there', absent, same_el, find_key-append inter j (remove el.id es) el)
    | inr f ↦
        let other : inter.same el.key j ≡ false = ap (λ i. inter.same i j) found.key_is ∙ f in
        ground (
          arith,
          other,
          found.find_rest j f,
          find_key-append inter j (remove el.id es) el,
          Option-cases (find_key inter j es),
        )
  ]

  moved-Reads :
      (k : K) (c : Cache K V) (el : Element K V)
      → IsValid inter c
      → find_key inter k c.ll ≡ some el
      → Reads k c
          (touch inter k (view c.ll))
          (record c { ll = remove el.id c.ll ++ (el ∷ []) }, some el.value)
  unfolding touch
  moved-Reads k c el h there =
      let found = find_key-Found inter k el c.ll h.distinct there in
      let value_is : lookup inter k (view c.ll) ≡ some el.value =
        ground (arith, there, find_key-lookup inter k c.ll) in
      let rest = remove el.id c.ll in
      record {
        valid = record {
          capacity_fits = h.capacity_fits;
          size_is = omega (arith, h.size_is, found.total_rest, total-append inter rest el);
          fits = h.fits;
          held =
              All-append (IsHeld inter c.next_id) rest (el ∷ [])
                (All-remove inter _ el.id c.ll h.held)
                (All-find_key inter _ k el c.ll h.held there, tt);
          distinct =
              Distinct-append inter rest el (Distinct-remove inter el.id c.ll h.distinct)
                (subst (λ i. find_key inter i rest ≡ none) (sym found.key_is) found.absent_rest)
                found.other_ids;
          mapped = λ j. h.mapped j ∙ moved-mapped k el c.ll found there j;
          unlocked = h.unlocked;
        };
        answers = sym value_is;
        leaves =
            view-append rest el
            ∙ ap (λ m. m ++ ((el.key, el.value) ∷ [])) found.view_rest
            ∙ ap (λ i. without inter k (view c.ll) ++ ((i, el.value) ∷ [])) found.key_is
            ∙ ground (arith, value_is);
      }

  -- `Get` on a valid cache returns the value of the key, or the error when the key has none,
  -- makes its pair the most recently used one, and leaves the cache valid.
  pub get-Reads :
      (c : Cache K V) (k : K)
      → IsValid inter c
      → Reads k c (touch inter k (view c.ll)) (get inter c k)
  unfolding get touch
  get-Reads c k h = elim (Option-cases (load inter k c.cache)) [
    | inl e ↦
        let nothing : lookup inter k (view c.ll) ≡ none =
          ground (arith, e, h.mapped k, find_key-lookup inter k c.ll) in
        let step : get inter c k ≡ (c, none) = ground (arith, e) in
        subst (Reads k c (touch inter k (view c.ll))) (sym step)
          (record { valid = h; answers = sym nothing; leaves = ground (arith, nothing) })
    | inr (el, e) ↦
        let there : find_key inter k c.ll ≡ some el = sym (h.mapped k) ∙ e in
        let found = find_key-Found inter k el c.ll h.distinct there in
        let moves : move_to_front el c.ll ≡ remove el.id c.ll ++ (el ∷ []) =
          move_to_front_in el c.ll found.contained in
        let step : get inter c k
            ≡ (record c { ll = remove el.id c.ll ++ (el ∷ []) }, some el.value) =
          ground (arith, e, moves) in
        subst (Reads k c (touch inter k (view c.ll))) (sym step) (moved-Reads k c el h there)
  ]

  deleted-mapped :
      (k : K) (el : Element K V) (c : Cache K V)
      → IsValid inter c
      → Found inter k el c.ll
      → (j : K)
      → elim (inter.same k j) [ true ↦ none | false ↦ load inter j c.cache ]
        ≡ find_key inter j (remove el.id c.ll)
  deleted-mapped k el c h found j = elim (Bool-cases (inter.same k j)) [
    | inl t ↦
        let absent : find_key inter j (remove el.id c.ll) ≡ none =
          subst (λ i. find_key inter i (remove el.id c.ll) ≡ none) (inter.same-≡ k j t)
            found.absent_rest in
        ground (arith, t, absent)
    | inr f ↦ ground (arith, f, h.mapped j, found.find_rest j f)
  ]

  deleted-Reads :
      (k : K) (c : Cache K V) (el : Element K V)
      → IsValid inter c
      → find_key inter k c.ll ≡ some el
      → Reads k c (without inter k (view c.ll)) (
        record c {
          cache = map_delete inter k c.cache;
          deleted = (k, el.value) ∷ c.deleted;
          ll = remove el.id c.ll;
          size = sub64 c.size (size_or_zero inter el.value);
        },
        some el.value,
      )
  deleted-Reads k c el h there =
      let found = find_key-Found inter k el c.ll h.distinct there in
      let rest = remove el.id c.ll in
      let smaller : sub64 c.size (size_or_zero inter el.value) ≡ total inter (view rest) =
        sub64_lem c.size (size_or_zero inter el.value) (omega (arith, h.size_is, found.total_rest))
          (omega (arith, h.fits, h.capacity_fits))
        ∙ omega (arith, h.size_is, found.total_rest) in
      record {
        valid = record {
          capacity_fits = h.capacity_fits;
          size_is = smaller;
          fits = omega (arith, smaller, h.size_is, h.fits, found.total_rest);
          held = All-remove inter _ el.id c.ll h.held;
          distinct = Distinct-remove inter el.id c.ll h.distinct;
          mapped = λ j. load-map_delete inter k j c.cache ∙ deleted-mapped k el c h found j;
          unlocked = h.unlocked;
        };
        answers = sym (ground (arith, there, find_key-lookup inter k c.ll));
        leaves = found.view_rest;
      }

  -- `LoadAndDelete` on a valid cache returns the value of the key, takes its pair out and leaves
  -- the others in their order, and the cache valid.
  pub load_and_delete-Reads :
      (c : Cache K V) (k : K)
      → IsValid inter c
      → Reads k c (without inter k (view c.ll)) (load_and_delete inter c k)
  unfolding load_and_delete
  load_and_delete-Reads c k h = elim (Option-cases (load inter k c.cache)) [
    | inl e ↦
        let nothing : lookup inter k (view c.ll) ≡ none =
          ground (arith, e, h.mapped k, find_key-lookup inter k c.ll) in
        let step : load_and_delete inter c k ≡ (c, none) = ground (arith, e) in
        subst (Reads k c (without inter k (view c.ll))) (sym step) (record {
          valid = h;
          answers = sym nothing;
          leaves = sym (without_absent inter k c.ll (sym (h.mapped k) ∙ e));
        })
    | inr (el, e) ↦
        let there : find_key inter k c.ll ≡ some el = sym (h.mapped k) ∙ e in
        let held = All-find_key inter _ k el c.ll h.held there in
        subst (Reads k c (without inter k (view c.ll))) (sym (ground (arith, e, held.sized)))
          (deleted-Reads k c el h there)
  ]
