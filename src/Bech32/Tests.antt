-- ===== src/Bech32/Tests.antt =====
-- Strings of BIP 173 and BIP 350 with address/bech32/bech32.go.
use nogocommons.Base.{ℕ, ◌≡◌, refl, arith, Option, none, some}
use nogocommons.Base.{List, [], ◌∷◌, length, inl, inr, ◌⊎◌}
use nogocommons.Bech32.Checksum.{
  Version, version0, version_m, checksum_values, verify_checksum, polymod, poly_values, poly_all,
  poly_step, poly_shift, mix, version_of,
}
use nogocommons.Bech32.Text.{
  Bech32Error, invalid_checksum, encode_generic, decode_no_limit_with_version, decode_lower,
  decode_data, check_chars, to_lower, last_index_byte, index_byte, to_bytes, write_checksum,
  char_of, decode_generic,
}
use nogocommons.Bech32.Encoded.{decode-encode_generic}

-- A12UEL5L
abbrev upper_text : List ℕ
upper_text = 65 ∷ 49 ∷ 50 ∷ 85 ∷ 69 ∷ 76 ∷ 53 ∷ 76 ∷ []

-- a1lqfn3a
abbrev m_text : List ℕ
m_text = 97 ∷ 49 ∷ 108 ∷ 113 ∷ 102 ∷ 110 ∷ 51 ∷ 97 ∷ []

upper_text_decodes : decode_generic upper_text ≡ inr (97 ∷ [], [], version0)
unfolding decode_generic decode_no_limit_with_version decode_lower decode_data check_chars to_lower
    last_index_byte index_byte to_bytes verify_checksum polymod poly_values poly_all poly_step
    poly_shift mix version_of
upper_text_decodes = refl

abbrev version_found : Bech32Error ⊎ (List ℕ × List ℕ × Version) → Option Version
version_found (inl e) = none
version_found (inr (hrp, vs, v)) = some v

m_text_decodes : version_found (decode_generic m_text) ≡ some version_m
unfolding decode_generic decode_no_limit_with_version decode_lower decode_data check_chars to_lower
    last_index_byte index_byte to_bytes verify_checksum polymod poly_values poly_all poly_step
    poly_shift mix version_of
m_text_decodes = refl

-- The error for a wrong checksum carries both checksums where that of version M is expected.
abbrev expected_lengths : Bech32Error ⊎ (List ℕ × List ℕ × Version) → List ℕ
expected_lengths (inl (invalid_checksum expected expected_m actual)) =
    length expected ∷ length expected_m ∷ length actual ∷ []
expected_lengths _ = []

-- A12UEL5Q
wrong_checksum :
    expected_lengths (decode_generic (65 ∷ 49 ∷ 50 ∷ 85 ∷ 69 ∷ 76 ∷ 53 ∷ 81 ∷ [])) ≡ 6 ∷ 12 ∷ 6 ∷ []
unfolding decode_generic decode_no_limit_with_version decode_lower decode_data check_chars to_lower
    last_index_byte index_byte to_bytes verify_checksum polymod poly_values poly_all poly_step
    poly_shift mix version_of write_checksum checksum_values char_of
wrong_checksum = refl

-- The prefix BC and five values.
decode-encode_generic_example :
    (bech : List ℕ) × (encode_generic (66 ∷ 67 ∷ []) (0 ∷ 14 ∷ 20 ∷ 15 ∷ 31 ∷ []) version0
      ≡ inr bech)
    × (decode_no_limit_with_version bech
        ≡ inr (to_lower (66 ∷ 67 ∷ []), 0 ∷ 14 ∷ 20 ∷ 15 ∷ 31 ∷ [], version0))
decode-encode_generic_example =
    decode-encode_generic (66 ∷ 67 ∷ []) (0 ∷ 14 ∷ 20 ∷ 15 ∷ 31 ∷ []) version0 (omega arith)
      (refl, (refl, tt))
      (omega arith, (omega arith, (omega arith, (omega arith, (omega arith, tt)))))
