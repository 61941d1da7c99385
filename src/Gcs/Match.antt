-- ===== src/Gcs/Match.antt =====
-- `Match` of nogoutil/gcs/gcs.go. `none` means that the fuel has run out.
use nogocommons.Base.{contains}
use nogocommons.Base.{
  ℕ, zero, suc, ◌+◌, ◌-◌, ◌*◌, ◌<◌, ◌≡◌, refl, ap, ◌∙◌, arith, Bool, true, false,
}
use nogocommons.Base.{Option, none, some, List, [], ◌∷◌, ◌++◌, append_assoc, length, length-append}
use nogocommons.Base.{Bytes, add64, ltb, ◌==◌}
use nogocommons.Gcs.Stream.{Streams, IsStreams}
use nogocommons.Gcs.Filter.{Filter, out_of_fuel, eof, got, reduced, read_full_uint64}
use nogocommons.Gcs.Rice.{rice, rices, Ascends, read_full_uint64-Reads}
use nogocommons.Gcs.Sorted.{contains_below}

module _ (s : Streams) where
  -- The loop over the `n` values that are still to be read.
  unfoldable pub match_from : ℕ → ℕ → ℕ → ℕ → ℕ → s.Reader → Option Bool
  match_from fuel p term zero value r = some false
  match_from fuel p term (suc n) value r = elim (read_full_uint64 s fuel p r) [
    | out_of_fuel ↦ none
    | eof ↦ some false
    | got delta r' ↦ elim (add64 value delta == term) [
      | true ↦ some true
      | false ↦ elim (ltb term (add64 value delta)) [
        | true ↦ some false
        | false ↦ match_from fuel p term n (add64 value delta) r'
      ]
    ]
  ]

  -- `Match`
  unfoldable pub match_one : Filter → Bytes → Bytes → Option Bool
  unfolding match_from reduced
  match_one f key d =
      match_from (8 * length f.filter_data + 1) f.p (reduced s f.modulus_np key d) f.n 0
        (s.new_reader f.filter_data)

module _ (s : Streams) (laws : IsStreams s) where
  open laws use {written, left}

  pub match_from-contains :
      (fuel p term last : ℕ) (vs : List ℕ) (bs : List Bool) (r : s.Reader)
      → Ascends last vs
      → left r ≡ rices p last vs ++ bs
      → length (left r) < fuel
      → match_from s fuel p term (length vs) last r ≡ some (contains term vs)
  unfolding match_from
  match_from-contains fuel p term last [] bs r a l h = refl
  match_from-contains fuel p term last (v ∷ vs) bs r (le, f, a) l h =
      let split = l ∙ append_assoc (rice p (v - last)) (rices p v vs) bs in
      let first =
        read_full_uint64-Reads s laws fuel p (v - last) (rices p v vs ++ bs) r split h
          (omega arith) in
      let next : add64 last (v - last) ≡ v = omega arith in
      let shorter : length (left first.behind) < fuel = omega (
        arith,
        h,
        ap length split,
        ap length first.left_is,
        length-append (rice p (v - last)) (rices p v vs ++ bs),
      ) in
      ground (
        arith,
        first.value_is,
        next,
        contains_below term v vs a,
        match_from-contains fuel p term v vs bs first.behind a first.left_is shorter,
      )
