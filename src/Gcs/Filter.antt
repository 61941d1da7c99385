-- ===== src/Gcs/Filter.antt =====
-- nogoutil/gcs/gcs.go: building a filter, its serialized forms, and reading a value of it. A loop
-- that reads until the bits run out takes fuel, as many rounds as the filter has bits, and one.
use nogocommons.Base.{u32_mod}
use nogocommons.Base.{ℕ, zero, suc, ◌*◌, ◌/◌, ◌%◌, ◌^◌, true, false, ◌⊎◌, inl, inr}
use nogocommons.Base.{none, some, List, [], ◌∷◌, ◌++◌, map, length, Bytes, add64, sub64, u64_mod}
use nogocommons.Base.{ltb, leb, ◌==◌, if◌then◌else◌}
use nogocommons.Wire.Codec.{Error, ok, err}
use nogocommons.Wire.VarInt.{read_var_int, write_var_int}
use nogocommons.Gcs.Reduction.{mul64, fast_reduction}
use nogocommons.Gcs.Stream.{Streams}

pub data FilterError : Type 0 where
  n_too_big : FilterError
  p_too_big : FilterError
  not_read : Error → FilterError

pub record Filter : Type 0 where
  pub n : ℕ
  pub p : ℕ
  pub modulus_np : ℕ
  pub filter_data : Bytes

-- `sort.Slice` of numbers by `<`.
unfoldable pub insert_value : ℕ → List ℕ → List ℕ
insert_value v [] = v ∷ []
insert_value v (x ∷ xs) = elim (leb v x) [ true ↦ v ∷ (x ∷ xs) | false ↦ x ∷ insert_value v xs ]

unfoldable pub sort_values : List ℕ → List ℕ
unfolding insert_value
sort_values [] = []
sort_values (v ∷ vs) = insert_value v (sort_values vs)

-- What a read gives: a value and the reader behind it, or `io.EOF`; or the fuel has run out.
pub data Read (R : Type 0) : Type 0 where
  out_of_fuel : Read R
  eof : Read R
  got : (value : ℕ) → R → Read R

-- The filter without its data.
abbrev pub filter_of : ℕ → ℕ → ℕ → Bytes → Filter
filter_of n p m bs = record { n = n; p = p; modulus_np = mul64 n m; filter_data = bs }

module _ (s : Streams) where
  -- A hash, reduced to the range of the filter.
  unfoldable pub reduced : ℕ → Bytes → Bytes → ℕ
  reduced modulus key d = fast_reduction (s.sum64 d key) (modulus / u32_mod) (modulus % u32_mod)

  -- `for value > 0 { b.WriteBit(true) }`
  unfoldable pub write_ones : ℕ → s.Writer → s.Writer
  write_ones zero w = w
  write_ones (suc value) w = write_ones value (s.write_bit w true)

  -- One value of the sorted list, as its difference to the value before.
  unfoldable pub write_value : ℕ → ℕ → s.Writer → s.Writer
  unfolding write_ones
  write_value p delta w =
      let remainder = delta % 2 ^ p in
      s.write_bits (s.write_bit (write_ones (sub64 delta remainder / 2 ^ p) w) false) remainder p

  unfoldable pub write_values : ℕ → ℕ → List ℕ → s.Writer → s.Writer
  unfolding write_value
  write_values p last [] w = w
  write_values p last (v ∷ vs) w = write_values p v vs (write_value p (sub64 v last) w)

  -- `BuildGCSFilter`
  unfoldable pub build : ℕ → ℕ → Bytes → List Bytes → FilterError ⊎ Filter
  unfolding write_values reduced sort_values
  build p m key items =
      if leb (2 ^ 32) (length items)
      then inl n_too_big
      else if ltb 32 p
      then inl p_too_big
      else if length items == 0
      then inr (filter_of 0 p m [])
      else inr (
          filter_of (length items) p m (
            s.bytes (
              write_values p 0 (sort_values (map (reduced (mul64 (length items) m) key) items))
                s.new_writer)))

  -- The loop of `readFullUint64` over the bits that are set.
  unfoldable pub read_quotient : ℕ → ℕ → s.Reader → Read s.Reader
  read_quotient zero quotient r = out_of_fuel
  read_quotient (suc fuel) quotient r = elim (s.read_bit r) [
    | none ↦ eof
    | some (c, r') ↦ elim c [
      | true ↦ read_quotient fuel (add64 quotient 1) r'
      | false ↦ got quotient r'
    ]
  ]

  -- `readFullUint64`
  unfoldable pub read_full_uint64 : ℕ → ℕ → s.Reader → Read s.Reader
  unfolding read_quotient
  read_full_uint64 fuel p r = elim (read_quotient fuel 0 r) [
    | out_of_fuel ↦ out_of_fuel
    | eof ↦ eof
    | got quotient r' ↦ elim (s.read_bits r' p) [
      | none ↦ eof
      | some (remainder, r'') ↦ got (add64 (quotient * 2 ^ p % u64_mod) remainder) r''
    ]
  ]

-- `FromBytes`
unfoldable pub from_bytes : ℕ → ℕ → ℕ → Bytes → FilterError ⊎ Filter
from_bytes n p m d = if ltb 32 p then inl p_too_big else inr (filter_of n p m d)

-- `FromNBytes`
unfoldable pub from_n_bytes : ℕ → ℕ → Bytes → FilterError ⊎ Filter
unfolding from_bytes
from_n_bytes p m d = elim (read_var_int d) [
  | err e ↦ inl (not_read e)
  | ok (n, rest) ↦ if leb (2 ^ 32) n then inl n_too_big else from_bytes n p m rest
]

-- `NBytes`, `PBytes` and `NPBytes`
unfoldable pub n_bytes : Filter → Bytes
n_bytes f = write_var_int f.n ++ f.filter_data

unfoldable pub p_bytes : Filter → Bytes
p_bytes f = f.p ∷ f.filter_data

unfoldable pub np_bytes : Filter → Bytes
np_bytes f = write_var_int f.n ++ (f.p ∷ f.filter_data)
