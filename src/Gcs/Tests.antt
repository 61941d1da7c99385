-- ===== src/Gcs/Tests.antt =====
-- A filter of nogoutil/gcs/gcs.go in memory, and the theorems at concrete inputs.
use nogocommons.Base.{u32_mod}
use nogocommons.Base.{contains}
use nogocommons.Base.{◌≡◌, ◌*◌, ◌/◌, ◌%◌, refl, arith, Bool, true, false, some, inl, inr, map}
use nogocommons.Base.{List, [], ◌∷◌, Bytes, length, leb, if◌then◌else◌, ◌⊎◌, u64_mod}
use nogocommons.Gcs.Reduction.{mul64, fast_reduction, sum_products, fast_reduction_lem}
use nogocommons.Gcs.Filter.{
  Filter, FilterError, reduced, build, sort_values, insert_value, write_values, write_value,
  write_ones, read_full_uint64, read_quotient,
}
use nogocommons.Gcs.Match.{match_one, match_from}
use nogocommons.Gcs.MatchAny.{match_any, meets, low32}
use nogocommons.Gcs.Built.{values_of, match_one-build}
use nogocommons.Gcs.AnyBuilt.{match_any-build}
use nogocommons.Gcs.Memory.{memory, memory-IsStreams, pack, unpack, next_bit, next_bits, byte_of}

abbrev key : Bytes
key = 1 ∷ 2 ∷ []

abbrev scripts : List Bytes
scripts = (7 ∷ []) ∷ (8 ∷ 9 ∷ []) ∷ (1 ∷ 2 ∷ 3 ∷ []) ∷ []

-- The filter of these scripts, and that two of three items are in it.
abbrev found_in : FilterError ⊎ Filter → Bytes → Bool
found_in (inl e) d = false
found_in (inr f) d = elim (match_one memory f key d) [ some b ↦ b | _ ↦ false ]

abbrev sample_filter : FilterError ⊎ Filter
sample_filter = build memory 4 16 key scripts

found_there : found_in sample_filter (8 ∷ 9 ∷ []) ≡ true
unfolding build sort_values insert_value write_values write_value write_ones reduced fast_reduction
    sum_products match_one match_from read_full_uint64 read_quotient pack byte_of unpack next_bit
    next_bits
found_there = refl

not_there : found_in sample_filter (8 ∷ 9 ∷ 8 ∷ 9 ∷ 8 ∷ 9 ∷ 8 ∷ []) ≡ false
unfolding build sort_values insert_value write_values write_value write_ones reduced fast_reduction
    sum_products match_one match_from read_full_uint64 read_quotient pack byte_of unpack next_bit
    next_bits
not_there = refl

match_one-build_example :
    (f : Filter) × (build memory 4 16 key scripts ≡ inr f)
    × (match_one memory f key (7 ∷ [])
        ≡ some (
            contains
              (reduced memory (mul64 (length scripts) 16) key (7 ∷ []))
              (values_of memory 16 key scripts)))
match_one-build_example =
    match_one-build memory memory-IsStreams 4 16 key scripts key (7 ∷ []) (omega arith)
      (omega arith)

match_any-build_example :
    (f : Filter) × (build memory 4 16 key scripts ≡ inr f)
    × (match_any memory f key scripts
        ≡ some (
            let qs = map (reduced memory (mul64 (length scripts) 16) key) scripts in
            if leb (length scripts / 2) (length scripts)
            then meets (map low32 qs) (map low32 (values_of memory 16 key scripts))
            else meets qs (values_of memory 16 key scripts)))
match_any-build_example =
    match_any-build memory memory-IsStreams 4 16 key scripts key scripts (omega arith) (omega arith)

fast_reduction_lem_example :
    fast_reduction 0xfedcba9876543210 (2353953 / u32_mod) (2353953 % u32_mod)
    ≡ 0xfedcba9876543210 * 2353953 / u64_mod
fast_reduction_lem_example =
    fast_reduction_lem 0xfedcba9876543210 2353953 (omega arith) (omega arith)
