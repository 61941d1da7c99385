-- ===== src/Gcs/MatchAny.antt =====
-- `MatchAny` of nogoutil/gcs/gcs.go with its two strategies. `none` means that the fuel has run out.
use nogocommons.Base.{u32_mod}
use nogocommons.Base.{contains}
use nogocommons.Base.{ℕ, zero, suc, ◌+◌, ◌*◌, ◌/◌, ◌%◌, Bool, true, false, ◌||◌, Option, none, some}
use nogocommons.Base.{List, [], ◌∷◌, map, length, Bytes, add64, ltb, leb, ◌==◌, if◌then◌else◌}
use nogocommons.Gcs.Stream.{Streams}
use nogocommons.Gcs.Filter.{Filter, out_of_fuel, eof, got, reduced, read_full_uint64, sort_values}

-- Some number of the first list is in the second.
abbrev pub meets : List ℕ → List ℕ → Bool
meets [] vs = false
meets (q ∷ qs) vs = contains q vs || meets qs vs

-- Where the inner loop of `ZipMatchAny` ends: at the end of the queries, at an equal one, or at the
-- first greater one.
pub data Advance : Type 0 where
  exhausted : Advance
  found : Advance
  go_on : List ℕ → Advance

unfoldable pub advance : ℕ → List ℕ → Advance
advance value [] = exhausted
advance value (q ∷ qs) = elim (q == value) [
  | true ↦ found
  | false ↦ elim (ltb value q) [ true ↦ go_on (q ∷ qs) | false ↦ advance value qs ]
]

-- `uint32(v)`
abbrev pub low32 : ℕ → ℕ
low32 v = v % u32_mod

module _ (s : Streams) where
  -- The outer loop of `ZipMatchAny` over the `n` values that are still to be read.
  unfoldable pub zip_from : ℕ → ℕ → ℕ → ℕ → s.Reader → List ℕ → Option Bool
  unfolding advance
  zip_from fuel p zero value r qs = some false
  zip_from fuel p (suc n) value r qs = elim (read_full_uint64 s fuel p r) [
    | out_of_fuel ↦ none
    | eof ↦ some false
    | got delta r' ↦ elim (advance (add64 value delta) qs) [
      | exhausted ↦ some false
      | found ↦ some true
      | go_on qs' ↦ zip_from fuel p n (add64 value delta) r' qs'
    ]
  ]

  -- `ZipMatchAny`
  unfoldable pub zip_match_any : Filter → Bytes → List Bytes → Option Bool
  unfolding zip_from
  zip_match_any f key [] = some false
  zip_match_any f key (d ∷ items) =
      zip_from (8 * length f.filter_data + 1) f.p f.n 0 (s.new_reader f.filter_data)
        (sort_values (map (reduced s f.modulus_np key) (d ∷ items)))

  -- The loop of `HashMatchAny` that reads to the end; the map's keys are a list.
  unfoldable pub collect : ℕ → ℕ → ℕ → ℕ → s.Reader → List ℕ → Option (List ℕ)
  collect zero fuel p last r values = none
  collect (suc rounds) fuel p last r values = elim (read_full_uint64 s fuel p r) [
    | out_of_fuel ↦ none
    | eof ↦ some values
    | got delta r' ↦ collect rounds fuel p (add64 last delta) r' (low32 (add64 last delta) ∷ values)
  ]

  -- The loop over the items.
  unfoldable pub any_collected : ℕ → Bytes → List ℕ → List Bytes → Bool
  any_collected modulus key values [] = false
  any_collected modulus key values (d ∷ items) =
      elim (contains (low32 (reduced s modulus key d)) values) [
        | true ↦ true
        | false ↦ any_collected modulus key values items
      ]

  -- `HashMatchAny`
  unfoldable pub hash_match_any : Filter → Bytes → List Bytes → Option Bool
  unfolding collect any_collected
  hash_match_any f key [] = some false
  hash_match_any f key (d ∷ items) =
      let fuel = 8 * length f.filter_data + 1 in
      elim (collect fuel fuel f.p 0 (s.new_reader f.filter_data) []) [
        | none ↦ none
        | some values ↦ some (any_collected f.modulus_np key values (d ∷ items))
      ]

  -- `MatchAny`
  unfoldable pub match_any : Filter → Bytes → List Bytes → Option Bool
  unfolding hash_match_any zip_match_any
  match_any f key items =
      if leb (f.n / 2) (length items) then hash_match_any f key items else zip_match_any f key items
