-- ===== src/Bech32/Encoded.antt =====
-- Whole strings of address/bech32/bech32.go.
use nogocommons.Base.{ℕ, suc, ◌+◌, ◌<◌, ◌≡◌, refl, ap, sym, arith, true, false}
use nogocommons.Base.{List, [], ◌∷◌, ◌++◌}
use nogocommons.Base.{map, drop, length, length-append, length-map, All}
use nogocommons.Base.{inr}
use nogocommons.Wire.Codec.{take-append}
use nogocommons.Bech32.Checksum.{Version, checksum_values}
use nogocommons.Bech32.Text.{
  char_of, to_lower, decode_lower, decode_no_limit_with_version, write_checksum, encode_generic,
}
use nogocommons.Bech32.RoundTrip.{
  is_plain, is_printable, body, decode_data-body, check_chars-plain, last_index_byte_at,
  lower-is_plain, chars-is_plain, map-chars, All-append, checksum_values-lt, write_data-chars,
  length-checksum_values,
}

drop_past : (xs : List ℕ) (c : ℕ) (ys : List ℕ) → drop (suc (length xs)) (xs ++ (c ∷ ys)) ≡ ys
drop_past [] c ys = refl
drop_past (x ∷ xs) c ys = drop_past xs c ys

module _ (hrp vs : List ℕ) (v : Version) (h : All (λ c. c < 32) vs) where
  body-lt : All (λ c. c < 32) (body hrp vs v)
  body-lt = All-append (λ c. c < 32) vs _ h (checksum_values-lt hrp vs v)

  abbrev text : List ℕ
  text = hrp ++ (49 ∷ map char_of (body hrp vs v))

  length-text : length text ≡ length hrp + (length vs + 7)
  length-text = omega (
    arith,
    length-append hrp (49 ∷ map char_of (body hrp vs v)),
    length-map char_of (body hrp vs v),
    length-append vs (checksum_values hrp vs v),
    length-checksum_values hrp vs v,
  )

  decode_lower-text : 0 < length hrp → decode_lower text ≡ inr (hrp, vs, v)
  unfolding decode_lower
  decode_lower-text z = ground (
    arith,
    z,
    length-text,
    last_index_byte_at 49 hrp (map char_of (body hrp vs v)) (chars-is_plain _ body-lt).1,
    take-append hrp (49 ∷ map char_of (body hrp vs v)),
    drop_past hrp 49 (map char_of (body hrp vs v)),
    decode_data-body hrp vs v text h,
  )

  decode-text :
      0 < length hrp
      → All (λ c. is_plain c ≡ true) hrp
      → decode_no_limit_with_version text ≡ inr (hrp, vs, v)
  unfolding decode_no_limit_with_version
  decode-text z p = ground (
    arith,
    z,
    length-text,
    check_chars-plain false text
        (All-append (λ c. is_plain c ≡ true) hrp _ p (refl, (chars-is_plain _ body-lt).0)),
    decode_lower-text z,
  )

write-text :
    (hrp vs : List ℕ) (v : Version) (h : All (λ c. c < 32) vs)
    → encode_generic hrp vs v ≡ inr (text (to_lower hrp) vs v h)
unfolding encode_generic write_checksum
write-text hrp vs v h =
    rw (encode_generic, write_data-chars vs h)
      (ap (λ t. inr (to_lower hrp ++ (49 ∷ t)))
        (sym (map-chars vs (checksum_values (to_lower hrp) vs v))))

length-to_lower : (hrp : List ℕ) → length (to_lower hrp) ≡ length hrp
unfolding to_lower
length-to_lower hrp = length-map _ hrp

-- For a prefix of printable ASCII characters that is not empty, and data of five bits each, in
-- both versions: `encodeGeneric` succeeds, and `DecodeNoLimitWithVersion` of its string answers
-- the prefix in lower case, the data and the version, so the checksum that was written passes
-- its test.
pub decode-encode_generic :
    (hrp vs : List ℕ) (v : Version)
    → 0 < length hrp
    → All (λ c. is_printable c ≡ true) hrp
    → All (λ c. c < 32) vs
    → (bech : List ℕ) × (encode_generic hrp vs v ≡ inr bech)
      × (decode_no_limit_with_version bech ≡ inr (to_lower hrp, vs, v))
decode-encode_generic hrp vs v z p h = (
  text (to_lower hrp) vs v h,
  write-text hrp vs v h,
  decode-text (to_lower hrp) vs v h (omega (arith, length-to_lower hrp)) (lower-is_plain hrp p),
)
