-- ===== src/Gcs/Built.antt =====
-- What `BuildGCSFilter` of nogoutil/gcs/gcs.go makes, and what `Match` finds in it.
use nogocommons.Base.{contains, length-map}
use nogocommons.Base.{ℕ, ◌+◌, ◌*◌, ◌≤◌, ◌<◌, ◌^◌, ◌≡◌, ◌≢◌, refl, ap, sym, ◌∙◌, arith}
use nogocommons.Base.{Bool, false, some, inr}
use nogocommons.Base.{List, [], ◌∷◌, ◌++◌, map, All, length, replicate, Bytes, IsU64}
use nogocommons.Gcs.Reduction.{mul64, fast_reduction-IsU64}
use nogocommons.Gcs.Stream.{Streams, IsStreams}
use nogocommons.Gcs.Filter.{Filter, filter_of, reduced, sort_values, write_values, build}
use nogocommons.Gcs.Rice.{rices, Ascends, written-write_values}
use nogocommons.Gcs.Sorted.{contains-sort_values, sort_values-Ascends, length-sort_values}
use nogocommons.Gcs.Match.{match_one, match_from-contains}

module _ (s : Streams) where
  -- The values that a filter of these items holds.
  abbrev pub values_of : ℕ → Bytes → List Bytes → List ℕ
  values_of m key items = map (reduced s (mul64 (length items) m) key) items

module _ (s : Streams) (laws : IsStreams s) where
  open laws use {written, left}

  pub reduced-IsU64 :
      (n : ℕ) (key : Bytes) (items : List Bytes) → All IsU64 (map (reduced s n key) items)
  unfolding reduced
  reduced-IsU64 n key [] = tt
  reduced-IsU64 n key (d ∷ items) = (fast_reduction-IsU64 _ _ _, reduced-IsU64 n key items)

  -- The filter's data are the codes of the sorted values, and fewer than eight zeros or none.
  pub record Holds (p m : ℕ) (key : Bytes) (items : List Bytes) (f : Filter) : Type 0 where
    pub p_is : f.p ≡ p
    pub n_is : f.n ≡ length (sort_values (values_of s m key items))
    pub modulus_is : f.modulus_np ≡ mul64 (length items) m
    pub ascends : Ascends 0 (sort_values (values_of s m key items))
    pub zeros : ℕ
    pub none_if_empty : length items ≡ 0 → zeros ≡ 0
    pub left_is :
        left (s.new_reader f.filter_data)
        ≡ rices p 0 (sort_values (values_of s m key items)) ++ replicate zeros false

  nothing_left : (bs : List Bool) → length bs ≡ 0 → bs ≡ []
  nothing_left [] h = refl
  nothing_left (b ∷ bs) h = absurd (omega arith)

  empty-Holds : (p m : ℕ) (key : Bytes) → Holds p m key [] (filter_of 0 p m [])
  unfolding sort_values
  empty-Holds p m key = record {
    p_is = refl;
    n_is = refl;
    modulus_is = refl;
    ascends = tt;
    zeros = 0;
    none_if_empty = λ _. refl;
    left_is = nothing_left _ (laws.left-new_reader []);
  }

  written-Holds :
      (p m : ℕ) (key : Bytes) (items : List Bytes)
      → length items ≢ 0
      → Holds p m key items (
          filter_of
            (length items)
            p
            m
            (s.bytes (write_values s p 0 (sort_values (values_of s m key items)) s.new_writer)))
  written-Holds p m key items some_there =
      let vs = sort_values (values_of s m key items) in
      let ascends =
        sort_values-Ascends (values_of s m key items)
          (reduced-IsU64 (mul64 (length items) m) key items) in
      let w = write_values s p 0 vs s.new_writer in
      record {
        p_is = refl;
        n_is = sym (length-sort_values (values_of s m key items) ∙ length-map _ items);
        modulus_is = refl;
        ascends = ascends;
        zeros = laws.padding w;
        none_if_empty = λ e. absurd (some_there e);
        left_is =
            laws.left-bytes w
            ∙ ap (λ l. l ++ replicate (laws.padding w) false)
                (written-write_values s laws p 0 vs s.new_writer ascends
                  ∙ ap (λ l. l ++ rices p 0 vs) laws.written-new_writer);
      }

  pub build-Holds :
      (p m : ℕ) (key : Bytes) (items : List Bytes)
      → length items < 2 ^ 32
      → p ≤ 32
      → (f : Filter) × (build s p m key items ≡ inr f) × Holds p m key items f
  unfolding build
  build-Holds p m key [] few small =
      (filter_of 0 p m [], ground (arith, few, small), empty-Holds p m key)
  build-Holds p m key (d ∷ items) few small = (
    filter_of (length (d ∷ items)) p m
        (s.bytes (write_values s p 0 (sort_values (values_of s m key (d ∷ items))) s.new_writer)),
    ground (arith, few, small),
    written-Holds p m key (d ∷ items) (omega arith),
  )

  pub match_one-Holds :
      (p m : ℕ) (key : Bytes) (items : List Bytes) (f : Filter) (key' d : Bytes)
      → Holds p m key items f
      → match_one s f key' d
        ≡ some (contains (reduced s (mul64 (length items) m) key' d) (values_of s m key items))
  unfolding match_one
  match_one-Holds p m key items f key' d h =
      let vs = sort_values (values_of s m key items) in
      let term = reduced s f.modulus_np key' d in
      let r = s.new_reader f.filter_data in
      let fuel = 8 * length f.filter_data + 1 in
      let found : match_one s f key' d ≡ some (contains term vs) =
        rw (h.p_is, h.n_is)
          (match_from-contains s laws fuel p term 0 vs (replicate h.zeros false) r h.ascends
            h.left_is (omega (arith, laws.left-new_reader f.filter_data))) in
      found
      ∙ ap some (contains-sort_values term (values_of s m key items))
      ∙ ap (λ n. some (contains (reduced s n key' d) (values_of s m key items))) h.modulus_is

  -- With bit streams and a hash that behave as documented, `BuildGCSFilter` succeeds for fewer
  -- than 2^32 items and P up to 32, and `Match` on the filter answers, for every item and key,
  -- exactly whether the reduced hash of the item is among those of the items that the filter was
  -- built from; so every item of the filter matches.
  pub match_one-build :
      (p m : ℕ) (key : Bytes) (items : List Bytes) (key' d : Bytes)
      → length items < 2 ^ 32
      → p ≤ 32
      → (f : Filter) × (build s p m key items ≡ inr f)
        × (match_one s f key' d
            ≡ some (contains (reduced s (mul64 (length items) m) key' d) (values_of s m key items)))
  match_one-build p m key items key' d few small =
      let (f, built, holds) = build-Holds p m key items few small in
      (f, built, match_one-Holds p m key items f key' d holds)
