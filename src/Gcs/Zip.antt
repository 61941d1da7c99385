-- ===== src/Gcs/Zip.antt =====
-- `ZipMatchAny` of nogoutil/gcs/gcs.go finds what a search for each item would find.
use nogocommons.Base.{contains}
use nogocommons.Base.{ℕ, ◌-◌, ◌≤◌, ◌<◌, ◌≡◌, refl, ap, sym, ◌∙◌, subst, arith, Bool, true, false}
use nogocommons.Base.{some, List, [], ◌∷◌, ◌++◌, append_assoc, length, length-append}
use nogocommons.Base.{IsU64, add64, ltb, ◌==◌, inl, inr, Bool-cases}
use nogocommons.Gcs.Stream.{Streams, IsStreams}
use nogocommons.Gcs.Rice.{rice, rices, Ascends, read_full_uint64-Reads}
use nogocommons.Gcs.Sorted.{contains_below}
use nogocommons.Gcs.MatchAny.{meets, Advance, exhausted, found, go_on, advance, zip_from}

Ascends-weaken : (a b : ℕ) (xs : List ℕ) → a ≤ b → Ascends b xs → Ascends a xs
Ascends-weaken a b [] le h = tt
Ascends-weaken a b (x ∷ xs) le (lx, fx, h) = (omega arith, fx, h)

-- Queries above a value are not that value.
meets_above : (v b : ℕ) (qs vs : List ℕ) → Ascends b qs → v < b → meets qs (v ∷ vs) ≡ meets qs vs
meets_above v b [] vs h lt = refl
meets_above v b (q ∷ qs) vs (le, f, h) lt = ground (arith, meets_above v q qs vs h (omega arith))

-- What each end of the inner loop says about the queries `qs` and the values from `v` on.
abbrev Advanced : ℕ → List ℕ → ℕ → List ℕ → Advance → Type 0
Advanced b qs v vs exhausted = meets qs (v ∷ vs) ≡ false
Advanced b qs v vs found = meets qs (v ∷ vs) ≡ true
Advanced b qs v vs (go_on qs') = (meets qs (v ∷ vs) ≡ meets qs' vs) × Ascends b qs'

Advanced-cons :
    (b q : ℕ) (qs : List ℕ) (v : ℕ) (vs : List ℕ) (o : Advance)
    → contains q (v ∷ vs) ≡ false
    → Advanced b qs v vs o
    → Advanced b (q ∷ qs) v vs o
Advanced-cons b q qs v vs exhausted n h = ground (arith, n, h)
Advanced-cons b q qs v vs found n h = ground (arith, n, h)
Advanced-cons b q qs v vs (go_on qs') n (h, hq) = (ground (arith, n, h), hq)

advance-Advanced :
    (b : ℕ) (qs : List ℕ) (v : ℕ) (vs : List ℕ)
    → Ascends b qs
    → IsU64 v
    → Ascends v vs
    → Advanced b qs v vs (advance v qs)
unfolding advance
advance-Advanced b [] v vs hq fv hv = refl
advance-Advanced b (q ∷ qs) v vs (le, f, hq) fv hv = elim (Bool-cases (q == v)) [
  | inl t ↦
      let here : advance v (q ∷ qs) ≡ found = ground (arith, t) in
      subst (Advanced b (q ∷ qs) v vs) (sym here) (ground (arith, t))
  | inr n ↦ elim (Bool-cases (ltb v q)) [
    | inl above ↦
        let here : advance v (q ∷ qs) ≡ go_on (q ∷ qs) = ground (arith, n, above) in
        subst (Advanced b (q ∷ qs) v vs) (sym here)
          (meets_above v q (q ∷ qs) vs (omega arith, f, hq) (ground (arith, above)), (le, f, hq))
    | inr below ↦
        let here : advance v (q ∷ qs) ≡ advance v qs = ground (arith, n, below) in
        subst (Advanced b (q ∷ qs) v vs) (sym here) (
          Advanced-cons b q qs v vs (advance v qs)
            (contains_below q v (v ∷ vs) (omega arith, fv, hv) (ground (arith, n, below)))
            (advance-Advanced b qs v vs (Ascends-weaken b q qs le hq) fv hv))
  ]
]

meets-none : (qs : List ℕ) → meets qs [] ≡ false
meets-none [] = refl
meets-none (q ∷ qs) = meets-none qs

module _ (s : Streams) (laws : IsStreams s) where
  open laws use {written, left}

  pub zip_from-meets :
      (fuel p last : ℕ) (vs : List ℕ) (bs : List Bool) (r : s.Reader) (qs : List ℕ)
      → Ascends last vs
      → Ascends 0 qs
      → left r ≡ rices p last vs ++ bs
      → length (left r) < fuel
      → zip_from s fuel p (length vs) last r qs ≡ some (meets qs vs)
  unfolding zip_from
  zip_from-meets fuel p last [] bs r qs a hq l h = ap some (sym (meets-none qs))
  zip_from-meets fuel p last (v ∷ vs) bs r qs (le, f, a) hq l h =
      let split = l ∙ append_assoc (rice p (v - last)) (rices p v vs) bs in
      let first =
        read_full_uint64-Reads s laws fuel p (v - last) (rices p v vs ++ bs) r split h
          (omega arith) in
      let next : add64 last (v - last) ≡ v = omega arith in
      let shorter : length (left first.behind) < fuel = omega (
        arith,
        h,
        ap length split,
        ap length first.left_is,
        length-append (rice p (v - last)) (rices p v vs ++ bs),
      ) in
      elim (advance v qs)
          as (λ o.
            advance v qs ≡ o
            → Advanced 0 qs v vs o
            → zip_from s fuel p (length (v ∷ vs)) last r qs ≡ some (meets qs (v ∷ vs))) [
              | exhausted ↦ λ e m. ground (arith, first.value_is, next, e, m)
              | found ↦ λ e m. ground (arith, first.value_is, next, e, m)
              | go_on qs' ↦ λ e m. ground (
                arith,
                first.value_is,
                next,
                e,
                m.0,
                zip_from-meets fuel p v vs bs first.behind qs' a m.1 first.left_is shorter,
              )
            ]
        refl (advance-Advanced 0 qs v vs hq f a)
