-- ===== src/Bloom/Added.antt =====
-- Calls on a filter of nogoutil/bloom/filter.go, one after the other.
use nogocommons.Base.{◌<◌, ◌^◌, ◌≡◌, refl, sym, ◌∙◌, arith, subst}
use nogocommons.Base.{Bool, true, false, some, List, [], ◌∷◌, ◌==◌, Bytes, length, All}
use nogocommons.Base.{Bool-cases, inl, inr}
use nogocommons.Bloom.Filter.{
  MsgFilterLoad, Filter, normalize, matches_from, matches, add_from, add, add_all,
}
use nogocommons.Bloom.Kept.{IsUsable, Grows, Grows-refl, Grows-trans, Grows-IsUsable}
use nogocommons.Bloom.Found.{and_then-some, matches-Answers, matches-Grows, add-Grows}

add_all-Grows :
    (ds : List Bytes) (m : MsgFilterLoad)
    → IsUsable m
    → 0 < m.hash_funcs
    → (m' : MsgFilterLoad) × (add_all (some m) ds ≡ some (some m'))
      × Grows m m'
      × All (λ d. matches (some m') d ≡ some true) ds
unfolding add_all
add_all-Grows [] m u f = (m, refl, Grows-refl m, tt)
add_all-Grows (d ∷ ds) m u f =
    let (m1, e1, g1, h1) = add-Grows d m u in
    let u1 = Grows-IsUsable g1 u in
    let (m2, e2, g2, h2) = add_all-Grows ds m1 u1 (subst (λ n. 0 < n) (sym g1.same_funcs) f) in
    (
      m2,
      and_then-some (add (some m) d) (λ x. add_all x ds) (some m1) e1 ∙ e2,
      Grows-trans g1 g2,
      (matches-Grows d m1 m2 u1 g2 (h1 f), h2),
    )

-- For a loaded filter that has bytes, fewer than 2^29, and at least one hash function: calls of
-- `Add` panic nowhere, and the filter then matches each of the added data, and any data that it
-- matched before.
pub add_all-matches :
    (ds : List Bytes) (m : MsgFilterLoad) (found : Bytes)
    → IsUsable m
    → 0 < m.hash_funcs
    → (m' : MsgFilterLoad) × (add_all (some m) ds ≡ some (some m'))
      × All (λ d. matches (some m') d ≡ some true) ds
      × (matches (some m) found ≡ some true → matches (some m') found ≡ some true)
add_all-matches ds m found u f =
    let (m', e, g, h) = add_all-Grows ds m u f in (m', e, h, matches-Grows found m m' u g)

-- For a message with fewer than 2^29 filter bytes, also none, after `normalize`: neither
-- `matches` nor `add` panics.
pub normalize-answers :
    (m : MsgFilterLoad) (bytes : Bytes)
    → length m.filter < 2 ^ 29
    → ((b : Bool) × (matches (normalize (some m)) bytes ≡ some b))
      × ((f : Filter) × (add (normalize (some m)) bytes ≡ some f))
unfolding matches matches_from add add_from
normalize-answers m bytes l = elim (Bool-cases (length m.filter == 0)) [
  | inl t ↦ simp t ((false, refl), (_, refl))
  | inr n ↦
      let u : IsUsable m = record { has_bytes = ground (arith, n); fits = l } in
      let (b, a) = matches-Answers bytes m u in
      let (m', e, g, h) = add-Grows bytes m u in simp n ((b, a.answer), (some m', e))
]
