-- ===== src/Bech32/Text.antt =====
-- Encoding and decoding of address/bech32/bech32.go. `strings.ToLower` is that of ASCII, which the
-- characters are.
use nogocommons.Base.{ℕ, suc, ◌+◌, ◌-◌, Bool, false, ◌&&◌, ◌||◌, Option, none, some, List}
use nogocommons.Base.{
  [], ◌∷◌, ◌++◌, ◌==◌, leb, ltb, if◌then◌else◌, map, take, drop, length, get_elem?,
}
use nogocommons.Base.{◌⊎◌, inl, inr}
use nogocommons.Bech32.Checksum.{Version, version0, version_m, checksum_values, verify_checksum}

pub data Bech32Error : Type 0 where
  mixed_case : Bech32Error
  invalid_length : (n : ℕ) → Bech32Error
  invalid_character : (c : ℕ) → Bech32Error
  invalid_separator_index : (one : Option ℕ) → Bech32Error
  non_charset_char : (c : ℕ) → Bech32Error
  invalid_checksum : (expected expected_m actual : List ℕ) → Bech32Error
  invalid_data_byte : (b : ℕ) → Bech32Error

abbrev pub charset : List ℕ
charset =
    113 ∷ 112 ∷ 122 ∷ 114 ∷ 121 ∷ 57 ∷ 120 ∷ 56 ∷ 103 ∷ 102 ∷ 50 ∷ 116 ∷ 118 ∷ 100 ∷ 119 ∷ 48 ∷ 115
    ∷ 51 ∷ 106 ∷ 110 ∷ 53 ∷ 52 ∷ 107 ∷ 104 ∷ 99 ∷ 101 ∷ 54 ∷ 109 ∷ 117 ∷ 97 ∷ 55 ∷ 108 ∷ []

-- `charset[b]` for b in range.
unfoldable pub char_of : ℕ → ℕ
char_of b = elim (get_elem? charset b) [ none ↦ 0 | some c ↦ c ]

-- `strings.IndexByte` and `strings.LastIndexByte`
unfoldable pub index_byte : ℕ → List ℕ → Option ℕ
index_byte c [] = none
index_byte c (x ∷ xs) =
    let rest = index_byte c xs in
    if x == c then some 0 else elim rest [ none ↦ none | some i ↦ some (suc i) ]

unfoldable pub last_index_byte : ℕ → List ℕ → Option ℕ
last_index_byte c [] = none
last_index_byte c (x ∷ xs) = elim (last_index_byte c xs) [
  | none ↦ if x == c then some 0 else none
  | some i ↦ some (suc i)
]

-- `toBytes`
unfoldable pub to_bytes : List ℕ → Bech32Error ⊎ List ℕ
unfolding index_byte
to_bytes [] = inr []
to_bytes (c ∷ cs) = elim (index_byte c charset) [
  | none ↦ inl (non_charset_char c)
  | some i ↦ elim (to_bytes cs) [ inl e ↦ inl e | inr bs ↦ inr (i ∷ bs) ]
]

unfoldable pub to_lower : List ℕ → List ℕ
to_lower = map (λ c. if leb 65 c && leb c 90 then c + 32 else c)

-- `writeBech32Checksum`
unfoldable pub write_checksum : List ℕ → List ℕ → Version → List ℕ
unfolding checksum_values char_of
write_checksum hrp values version = map char_of (checksum_values hrp values version)

-- The characters are printable and of one case; whether there is an upper case one.
unfoldable pub check_chars : Bool → Bool → List ℕ → Bech32Error ⊎ Bool
check_chars has_lower has_upper [] = inr has_upper
check_chars has_lower has_upper (c ∷ cs) =
    let lower = has_lower || (leb 97 c && leb c 122) in
    let upper = has_upper || (leb 65 c && leb c 90) in
    let rest = check_chars lower upper cs in
    if ltb c 33 || ltb 126 c
    then inl (invalid_character c)
    else if lower && upper
    then inl mixed_case
    else rest

abbrev pub Decoded : Type 0
Decoded = List ℕ × List ℕ × Version

-- The characters after the separator.
unfoldable pub decode_data : List ℕ → List ℕ → List ℕ → Bech32Error ⊎ Decoded
unfolding to_bytes verify_checksum write_checksum
decode_data bech hrp chars = elim (to_bytes chars) [
  | inl e ↦ inl e
  | inr decoded ↦
      let payload = take (length decoded - 6) decoded in
      elim (verify_checksum hrp decoded) [
        | some v ↦ inr (hrp, payload, v)
        | none ↦ inl (
            invalid_checksum (write_checksum hrp payload version0)
              (write_checksum hrp payload version0 ++ write_checksum hrp payload version_m)
              (drop (length bech - 6) bech))
      ]
]

-- The string in lower case.
unfoldable pub decode_lower : List ℕ → Bech32Error ⊎ Decoded
unfolding last_index_byte decode_data
decode_lower bech = elim (last_index_byte 49 bech) [
  | none ↦ inl (invalid_separator_index none)
  | some one ↦
      if ltb one 1 || ltb (length bech) (one + 7)
      then inl (invalid_separator_index (some one))
      else decode_data bech (take one bech) (drop (suc one) bech)
]

-- `DecodeNoLimitWithVersion`
unfoldable pub decode_no_limit_with_version : List ℕ → Bech32Error ⊎ Decoded
unfolding check_chars to_lower decode_lower
decode_no_limit_with_version bech =
    if ltb (length bech) 8
    then inl (invalid_length (length bech))
    else elim (check_chars false false bech) [
      | inl e ↦ inl e
      | inr has_upper ↦ decode_lower (if has_upper then to_lower bech else bech)
    ]

-- `DecodeGeneric`
unfoldable pub decode_generic : List ℕ → Bech32Error ⊎ Decoded
unfolding decode_no_limit_with_version
decode_generic bech =
    if ltb 90 (length bech)
    then inl (invalid_length (length bech))
    else decode_no_limit_with_version bech

unfoldable pub write_data : List ℕ → Bech32Error ⊎ List ℕ
unfolding char_of
write_data [] = inr []
write_data (b ∷ bs) =
    let rest = write_data bs in
    if leb (length charset) b
    then inl (invalid_data_byte b)
    else elim rest [ inl e ↦ inl e | inr cs ↦ inr (char_of b ∷ cs) ]

-- `encodeGeneric`
unfoldable pub encode_generic : List ℕ → List ℕ → Version → Bech32Error ⊎ List ℕ
unfolding to_lower write_data write_checksum
encode_generic hrp values version = elim (write_data values) [
  | inl e ↦ inl e
  | inr chars ↦ inr (to_lower hrp ++ (49 ∷ (chars ++ write_checksum (to_lower hrp) values version)))
]
