-- ===== src/Lru/Elements.antt =====
-- The map and the list of the cache of neutrino/cache/lru/lru.go, one operation at a time.
use nogocommons.Base.{ℕ, ◌+◌, ◌-◌, ◌≤◌, ◌≡◌, ◌≢◌, subst, refl, ap, sym, ◌∙◌, arith, true, false}
use nogocommons.Base.{List, [], ◌∷◌, All, All-imp, none, some}
use nogocommons.Base.{◌==◌, inl, inr, Bool-cases, IsU64, sub64}
use nogocommons.Lru.Cache.{Interface, Element, load, map_delete, store, remove, contains}
use nogocommons.Lru.Recency.{total, lookup, without, find_key, Distinct, view, size_or_zero}

pub sub64_lem : (a b : ℕ) → b ≤ a → IsU64 a → sub64 a b ≡ a - b
sub64_lem a b h f = omega arith

module _ {K V : Type 0} (inter : Interface K V) where
  pub same_sym : (k j : K) → inter.same k j ≡ true → inter.same j k ≡ true
  same_sym k j h = ap (λ i. inter.same i k) (sym (inter.same-≡ k j h)) ∙ inter.same_refl k

  pub load-map_delete :
      (i j : K) (m : List (K × Element K V))
      → load inter j (map_delete inter i m)
        ≡ elim (inter.same i j) [ true ↦ none | false ↦ load inter j m ]
  unfolding load map_delete
  load-map_delete i j [] = ground arith
  load-map_delete i j ((x, el) ∷ m) = ground (
    arith,
    inter.same-≡ x i,
    inter.same-≡ x j,
    inter.same-≡ i j,
    inter.same_refl x,
    load-map_delete i j m,
  )

  pub load-store :
      (i j : K) (el : Element K V) (m : List (K × Element K V))
      → load inter j (store inter i el m)
        ≡ elim (inter.same i j) [ true ↦ some el | false ↦ load inter j m ]
  unfolding load store
  load-store i j el m = ground (arith, load-map_delete i j m)

  pub find_key-other :
      (i j : K) (es : List (Element K V))
      → All (λ x. (inter.same i x.key ≡ false)) es
      → inter.same i j ≡ true
      → find_key inter j es ≡ none
  unfolding find_key
  find_key-other i j [] d h = refl
  find_key-other i j (x ∷ es) (d, ds) h =
      ground (arith, inter.same-≡ x.key j, inter.same-≡ i j, find_key-other i j es ds h)

  pub find_key-lookup :
      (k : K) (es : List (Element K V))
      → lookup inter k (view es)
        ≡ elim (find_key inter k es) [ none ↦ none | some e ↦ some e.value ]
  unfolding find_key lookup
  find_key-lookup k [] = refl
  find_key-lookup k (e ∷ es) = ground (arith, find_key-lookup k es)

  pub without_absent :
      (k : K) (es : List (Element K V))
      → find_key inter k es ≡ none
      → without inter k (view es) ≡ view es
  unfolding find_key without
  without_absent k [] h = refl
  without_absent k (e ∷ es) h = ground (arith, without_absent k es)

  -- What the element that `find_key` finds has to do with the list.
  pub record Found (k : K) (el : Element K V) (es : List (Element K V)) : Type 0 where
    pub key_is : el.key ≡ k
    pub contained : contains el.id es ≡ true
    pub view_rest : view (remove el.id es) ≡ without inter k (view es)
    pub total_rest :
        total inter (view es) ≡ size_or_zero inter el.value + total inter (view (remove el.id es))
    pub absent_rest : find_key inter k (remove el.id es) ≡ none
    pub other_ids : All (λ x. x.id ≢ el.id) (remove el.id es)
    pub find_rest :
        (j : K) → inter.same k j ≡ false → find_key inter j (remove el.id es) ≡ find_key inter j es

  pub All-remove :
      (P : Element K V → Type 0) (i : ℕ) (es : List (Element K V)) → All P es → All P (remove i es)
  unfolding remove
  All-remove P i [] h = tt
  All-remove P i (e ∷ es) (h, hs) =
      elim (e.id == i) as (λ b. All P (elim b [ true ↦ es | false ↦ e ∷ remove i es ])) [
        | true ↦ hs
        | false ↦ (h, All-remove P i es hs)
      ]

  pub Distinct-remove :
      (i : ℕ) (es : List (Element K V)) → Distinct inter es → Distinct inter (remove i es)
  unfolding remove Distinct
  Distinct-remove i [] h = tt
  Distinct-remove i (e ∷ es) (h, hs) =
      elim (e.id == i) as (λ b. Distinct inter (elim b [ true ↦ es | false ↦ e ∷ remove i es ])) [
        | true ↦ hs
        | false ↦ (All-remove _ i es h, Distinct-remove i es hs)
      ]

  pub All-find_key :
      (P : Element K V → Type 0) (k : K) (el : Element K V) (es : List (Element K V))
      → All P es
      → find_key inter k es ≡ some el
      → P el
  unfolding find_key
  All-find_key P k el [] h f = absurd cc
  All-find_key P k el (e ∷ es) (h, hs) f = elim (Bool-cases (inter.same e.key k)) [
    | inl t ↦ (let same_el : e ≡ el = ground (arith, t, f) in subst P same_el h)
    | inr n ↦ All-find_key P k el es hs (ground (arith, n, f))
  ]

  first-Found :
      (k : K) (e : Element K V) (es : List (Element K V))
      → Distinct inter (e ∷ es)
      → inter.same e.key k ≡ true
      → Found k e (e ∷ es)
  unfolding find_key Distinct remove contains without total
  first-Found k e es (d, ds) t =
      let gone : find_key inter k es ≡ none =
        find_key-other e.key k es (All-imp (λ _ h. h.0) es d) t in
      let here : (e.id == e.id) ≡ true = ground arith in
      let rest : remove e.id (e ∷ es) ≡ es = ground (arith, here) in
      record {
        key_is = inter.same-≡ e.key k t;
        contained = ground (arith, here);
        view_rest = ground (arith, rest, t, without_absent k es gone);
        total_rest = ground (arith, rest);
        absent_rest = ground (arith, rest, gone);
        other_ids = subst (All (λ x. x.id ≢ e.id)) (sym rest) (All-imp (λ _ h. h.1) es d);
        find_rest = λ j n. ground (arith, rest, inter.same-≡ e.key j, inter.same-≡ e.key k t, n);
      }

  later-Found :
      (k : K) (el e : Element K V) (es : List (Element K V))
      → Found k el es
      → el.id ≢ e.id
      → inter.same e.key k ≡ false
      → Found k el (e ∷ es)
  unfolding find_key remove contains without total
  later-Found k el e es r ne n =
      let apart : (e.id == el.id) ≡ false = ground (arith, ne) in
      let rest : remove el.id (e ∷ es) ≡ e ∷ remove el.id es = ground (arith, apart) in
      record {
        key_is = r.key_is;
        contained = ground (arith, apart, r.contained);
        view_rest = ground (arith, rest, n, r.view_rest);
        total_rest = ground (arith, rest, r.total_rest);
        absent_rest = ground (arith, rest, n, r.absent_rest);
        other_ids = subst (All (λ x. x.id ≢ el.id)) (sym rest) ((λ i. ne (sym i)), r.other_ids);
        find_rest = λ j m. ground (arith, rest, r.find_rest j m);
      }

  pub find_key-Found :
      (k : K) (el : Element K V) (es : List (Element K V))
      → Distinct inter es
      → find_key inter k es ≡ some el
      → Found k el es
  unfolding find_key Distinct
  find_key-Found k el [] d f = absurd cc
  find_key-Found k el (e ∷ es) (d, ds) f = elim (Bool-cases (inter.same e.key k)) [
    | inl t ↦
        let same_el : e ≡ el = ground (arith, t, f) in
        subst (λ x. Found k x (e ∷ es)) same_el (first-Found k e es (d, ds) t)
    | inr n ↦
        let later : find_key inter k es ≡ some el = ground (arith, n, f) in
        let ne = (All-find_key _ k el es d later).1 in
        later-Found k el e es (find_key-Found k el es ds later) ne n
  ]
