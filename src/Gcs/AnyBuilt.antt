-- ===== src/Gcs/AnyBuilt.antt =====
-- What `MatchAny` of nogoutil/gcs/gcs.go answers on a filter that `BuildGCSFilter` has made.
use nogocommons.Base.{length-map}
use nogocommons.Base.{contains}
use nogocommons.Base.{ℕ, ◌+◌, ◌*◌, ◌/◌, ◌≤◌, ◌<◌, ◌^◌, ◌≡◌, refl, ap, sym, ◌∙◌, arith}
use nogocommons.Base.{Bool, true, false, ◌||◌, some, inr, leb, ◌==◌}
use nogocommons.Base.{List, [], ◌∷◌, map, length, replicate, Bytes, if◌then◌else◌}
use nogocommons.Gcs.Reduction.{mul64}
use nogocommons.Gcs.Stream.{Streams, IsStreams}
use nogocommons.Gcs.Filter.{Filter, reduced, insert_value, sort_values, build}
use nogocommons.Gcs.Sorted.{contains-sort_values, length-sort_values, sort_values-Ascends}
use nogocommons.Gcs.MatchAny.{meets, low32, zip_match_any, hash_match_any, any_collected, collect}
use nogocommons.Gcs.MatchAny.{match_any}
use nogocommons.Gcs.Zip.{zip_from-meets}
use nogocommons.Gcs.Hash.{collect-Collects}
use nogocommons.Gcs.Built.{values_of, Holds, build-Holds, reduced-IsU64}

meets-insert_value :
    (v : ℕ) (xs vs : List ℕ) → meets (insert_value v xs) vs ≡ (contains v vs || meets xs vs)
unfolding insert_value
meets-insert_value v [] vs = refl
meets-insert_value v (x ∷ xs) vs = ground (arith, meets-insert_value v xs vs)

meets-sort_values : (xs vs : List ℕ) → meets (sort_values xs) vs ≡ meets xs vs
unfolding sort_values
meets-sort_values [] vs = refl
meets-sort_values (x ∷ xs) vs =
    meets-insert_value x (sort_values xs) vs
    ∙ ap (λ b. contains x vs || b) (meets-sort_values xs vs)

meets_same :
    (qs vs ws : List ℕ) → ((x : ℕ) → contains x vs ≡ contains x ws) → meets qs vs ≡ meets qs ws
meets_same [] vs ws h = refl
meets_same (q ∷ qs) vs ws h = ground (arith, h q, meets_same qs vs ws h)

contains_low-insert_value :
    (x v : ℕ) (vs : List ℕ)
    → contains x (map low32 (insert_value v vs)) ≡ ((low32 v == x) || contains x (map low32 vs))
unfolding insert_value
contains_low-insert_value x v [] = refl
contains_low-insert_value x v (w ∷ vs) =
    elim (leb v w)
      as (λ b.
        contains x (map low32 (elim b [ true ↦ v ∷ (w ∷ vs) | false ↦ w ∷ insert_value v vs ]))
        ≡ ((low32 v == x) || contains x (map low32 (w ∷ vs)))) [
          | true ↦ refl
          | false ↦ ap (λ b. (low32 w == x) || b) (contains_low-insert_value x v vs) ∙ ground arith
        ]

contains_low-sort_values :
    (x : ℕ) (vs : List ℕ) → contains x (map low32 (sort_values vs)) ≡ contains x (map low32 vs)
unfolding sort_values
contains_low-sort_values x [] = refl
contains_low-sort_values x (v ∷ vs) =
    contains_low-insert_value x v (sort_values vs)
    ∙ ap (λ b. (low32 v == x) || b) (contains_low-sort_values x vs)

or_false : (b : Bool) → (b || false) ≡ b
or_false true = refl
or_false false = refl

module _ (s : Streams) where
  any_collected-meets :
      (n : ℕ) (key : Bytes) (values : List ℕ) (items : List Bytes)
      → any_collected s n key values items ≡ meets (map low32 (map (reduced s n key) items)) values
  unfolding any_collected
  any_collected-meets n key values [] = refl
  any_collected-meets n key values (d ∷ items) =
      ground (arith, any_collected-meets n key values items)

module _ (s : Streams) (laws : IsStreams s) where
  open laws use {written, left}

  zip_match_any-Holds :
      (p m : ℕ) (key : Bytes) (items : List Bytes) (f : Filter) (key' : Bytes) (items' : List Bytes)
      → Holds s laws p m key items f
      → zip_match_any s f key' items'
        ≡ some (meets (map (reduced s f.modulus_np key') items') (values_of s m key items))
  unfolding zip_match_any
  zip_match_any-Holds p m key items f key' [] h = refl
  zip_match_any-Holds p m key items f key' (d ∷ items') h =
      let vs = sort_values (values_of s m key items) in
      let qs = map (reduced s f.modulus_np key') (d ∷ items') in
      let merged : zip_match_any s f key' (d ∷ items') ≡ some (meets (sort_values qs) vs) =
        rw (h.p_is, h.n_is)
          (zip_from-meets s laws (8 * length f.filter_data + 1) p 0 vs (replicate h.zeros false)
            (s.new_reader f.filter_data) (sort_values qs) h.ascends
            (sort_values-Ascends qs (reduced-IsU64 s laws f.modulus_np key' (d ∷ items'))) h.left_is
            (omega (arith, laws.left-new_reader f.filter_data))) in
      merged
      ∙ ap some (
          meets-sort_values qs vs
          ∙ meets_same qs vs (values_of s m key items)
              (λ x. contains-sort_values x (values_of s m key items)))

  hash_match_any-Holds :
      (p m : ℕ) (key : Bytes) (items : List Bytes) (f : Filter) (key' : Bytes) (items' : List Bytes)
      → Holds s laws p m key items f
      → hash_match_any s f key' items'
        ≡ some (
            meets
              (map low32 (map (reduced s f.modulus_np key') items'))
              (map low32 (values_of s m key items)))
  unfolding hash_match_any
  hash_match_any-Holds p m key items f key' [] h = refl
  hash_match_any-Holds p m key items f key' (d ∷ items') h =
      let vs = sort_values (values_of s m key items) in
      let r = s.new_reader f.filter_data in
      let fuel = 8 * length f.filter_data + 1 in
      let enough : length (left r) < fuel = omega (arith, laws.left-new_reader f.filter_data) in
      let count : length vs ≡ length items =
        length-sort_values (values_of s m key items) ∙ length-map _ items in
      let got_all =
        collect-Collects s laws fuel fuel p 0 h.zeros vs r [] h.ascends h.left_is enough enough
          (omega arith) (λ e z. absurd (z (h.none_if_empty (sym count ∙ e)))) in
      let at_p = ap (λ n. collect s fuel fuel n 0 r []) h.p_is ∙ got_all.collected in
      let low_same = λ (x : ℕ).
        got_all.members x
        ∙ or_false (contains x (map low32 vs))
        ∙ contains_low-sort_values x (values_of s m key items) in
      ground (arith, at_p)
      ∙ ap some (
          any_collected-meets s f.modulus_np key' got_all.all (d ∷ items')
          ∙ meets_same (map low32 (map (reduced s f.modulus_np key') (d ∷ items'))) got_all.all
              (map low32 (values_of s m key items)) low_same)

  -- With bit streams and a hash that behave as documented, on the filter that `BuildGCSFilter`
  -- makes of fewer than 2^32 items with P up to 32, `MatchAny` answers for fewer queries than
  -- half the items exactly whether some query has a reduced hash among those of the items, and
  -- for more queries whether the low 32 bits of the one are those of the other.
  pub match_any-build :
      (p m : ℕ) (key : Bytes) (items : List Bytes) (key' : Bytes) (items' : List Bytes)
      → length items < 2 ^ 32
      → p ≤ 32
      → (f : Filter) × (build s p m key items ≡ inr f)
        × (match_any s f key' items'
            ≡ some (
                let qs = map (reduced s (mul64 (length items) m) key') items' in
                if leb (length items / 2) (length items')
                then meets (map low32 qs) (map low32 (values_of s m key items))
                else meets qs (values_of s m key items)))
  unfolding match_any
  match_any-build p m key items key' items' few small =
      let (f, built, holds) = build-Holds s laws p m key items few small in
      let n_is : f.n ≡ length items =
        holds.n_is ∙ length-sort_values (values_of s m key items) ∙ length-map _ items in
      (
        f,
        built,
        ap
              (λ n.
                if leb (n / 2) (length items')
                then hash_match_any s f key' items'
                else zip_match_any s f key' items')
              n_is
            ∙ ground (
              arith,
              zip_match_any-Holds p m key items f key' items' holds,
              hash_match_any-Holds p m key items f key' items' holds,
              holds.modulus_is,
            ),
      )
