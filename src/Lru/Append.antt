-- ===== src/Lru/Append.antt =====
-- An element that goes to the front of the list of the cache of neutrino/cache/lru/lru.go.
use nogocommons.Base.{◌+◌, ◌≡◌, ◌≢◌, refl, ap, sym, arith, true, false}
use nogocommons.Base.{List, [], ◌∷◌, ◌++◌, All, All-append, none, some}
use nogocommons.Lru.Cache.{Interface, Element}
use nogocommons.Lru.Recency.{total, find_key, Distinct, view, size_or_zero}

module _ {K V : Type 0} where
  pub view-append :
      (es : List (Element K V)) (el : Element K V)
      → view (es ++ (el ∷ [])) ≡ view es ++ ((el.key, el.value) ∷ [])
  view-append [] el = refl
  view-append (e ∷ es) el = ap (λ m. (e.key, e.value) ∷ m) (view-append es el)

module _ {K V : Type 0} (inter : Interface K V) where
  pub total-append :
      (es : List (Element K V)) (el : Element K V)
      → total inter (view (es ++ (el ∷ []))) ≡ total inter (view es) + size_or_zero inter el.value
  unfolding total
  total-append [] el = omega arith
  total-append (e ∷ es) el = omega (arith, total-append es el)

  pub find_key-append :
      (j : K) (es : List (Element K V)) (el : Element K V)
      → find_key inter j (es ++ (el ∷ [])) ≡ elim (find_key inter j es) [
        | some e ↦ some e
        | none ↦ elim (inter.same el.key j) [ true ↦ some el | false ↦ none ]
      ]
  unfolding find_key
  find_key-append j [] el = refl
  find_key-append j (e ∷ es) el = ground (arith, find_key-append j es el)

  pub Distinct-append :
      (es : List (Element K V)) (el : Element K V)
      → Distinct inter es
      → find_key inter el.key es ≡ none
      → All (λ x. x.id ≢ el.id) es
      → Distinct inter (es ++ (el ∷ []))
  unfolding Distinct find_key
  Distinct-append [] el d a i = (tt, tt)
  Distinct-append (e ∷ es) el (d, ds) a (i, is) =
      let apart : inter.same e.key el.key ≡ false = ground (arith, a) in
      let absent : find_key inter el.key es ≡ none = ground (arith, a) in
      (
        All-append _ es (el ∷ []) d ((apart, λ h. i (sym h)), tt),
        Distinct-append es el ds absent is,
      )
