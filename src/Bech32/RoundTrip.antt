-- ===== src/Bech32/RoundTrip.antt =====
-- Decoding what address/bech32/bech32.go encoded.
use nogocommons.Base.{ℕ, zero, suc, ◌-◌, ◌<◌, ◌≡◌, refl, ap, ◌∙◌, arith, Bool, true, false}
use nogocommons.Base.{◌&&◌, ◌||◌, not, Option, none, some, List, [], ◌∷◌, ◌++◌, ◌==◌, leb}
use nogocommons.Base.{map, take, drop, length, length-append, All}
use nogocommons.Base.{inr}
use nogocommons.Wire.Codec.{take-append, drop-append}
use nogocommons.Bech32.Checksum.{Version, checksum_values, verify_checksum, polymod, version_of}
use nogocommons.Bech32.Text.{
  charset, char_of, index_byte, last_index_byte, to_bytes, to_lower, check_chars, decode_data,
  write_data,
}
use nogocommons.Bech32.Linear.{polymod-checksum_values, version_of-version_const}

-- Printable, and not of upper case.
abbrev pub is_plain : ℕ → Bool
is_plain c = leb 33 c && leb c 126 && not (leb 65 c && leb c 90)

abbrev pub is_printable : ℕ → Bool
is_printable c = leb 33 c && leb c 126

abbrev is_some_of : ℕ → Option ℕ → Bool
is_some_of v none = false
is_some_of v (some w) = w == v

-- The character of a value is plain, is no separator, and stands at the value's place only.
abbrev is_good : ℕ → Bool
is_good v =
    is_plain (char_of v) && not (char_of v == 49) && is_some_of v (index_byte (char_of v) charset)

abbrev all_below : ℕ → (ℕ → Bool) → Bool
all_below zero p = true
all_below (suc n) p = p n && all_below n p

below-all_below : (n : ℕ) (p : ℕ → Bool) (x : ℕ) → all_below n p ≡ true → x < n → p x ≡ true
below-all_below zero p x h l = absurd (omega arith)
below-all_below (suc n) p x h l = ground (arith, h, below-all_below n p x)

good_table : all_below 32 is_good ≡ true
unfolding char_of index_byte
good_table = refl

char_of-is_good : (v : ℕ) → v < 32 → is_good v ≡ true
char_of-is_good v h = below-all_below 32 is_good v good_table h

is_some_of_lem : (v : ℕ) (o : Option ℕ) → is_some_of v o ≡ true → o ≡ some v
is_some_of_lem v none h = cc
is_some_of_lem v (some w) h = ground (arith, h)

index_byte-char_of : (v : ℕ) → v < 32 → index_byte (char_of v) charset ≡ some v
index_byte-char_of v h = is_some_of_lem v _ (ground (arith, char_of-is_good v h))

to_bytes-chars : (vs : List ℕ) → All (λ v. v < 32) vs → to_bytes (map char_of vs) ≡ inr vs
unfolding to_bytes
to_bytes-chars [] h = refl
to_bytes-chars (v ∷ vs) (l, h) = ground (arith, index_byte-char_of v l, to_bytes-chars vs h)

pub write_data-chars : (vs : List ℕ) → All (λ v. v < 32) vs → write_data vs ≡ inr (map char_of vs)
unfolding write_data
write_data-chars [] h = refl
write_data-chars (v ∷ vs) (l, h) = ground (arith, l, write_data-chars vs h)

-- A plain string passes the test of the characters and has no upper case one.
pub check_chars-plain :
    (lower : Bool) (cs : List ℕ)
    → All (λ c. is_plain c ≡ true) cs
    → check_chars lower false cs ≡ inr false
unfolding check_chars
check_chars-plain lower [] h = refl
check_chars-plain lower (c ∷ cs) (l, h) =
    ground (arith, l, check_chars-plain (lower || (leb 97 c && leb c 122)) cs h)

last_index_byte-none :
    (c : ℕ) (xs : List ℕ) → All (λ x. (x == c) ≡ false) xs → last_index_byte c xs ≡ none
unfolding last_index_byte
last_index_byte-none c [] h = refl
last_index_byte-none c (x ∷ xs) (l, h) = rw (last_index_byte-none c xs h, l) refl

pub last_index_byte_at :
    (c : ℕ) (xs ys : List ℕ)
    → All (λ x. (x == c) ≡ false) ys
    → last_index_byte c (xs ++ (c ∷ ys)) ≡ some (length xs)
unfolding last_index_byte
last_index_byte_at c [] ys h = rw (last_index_byte-none c ys h) (ground arith)
last_index_byte_at c (x ∷ xs) ys h = rw (last_index_byte_at c xs ys h) refl

pub lower-is_plain :
    (cs : List ℕ) → All (λ c. is_printable c ≡ true) cs → All (λ c. is_plain c ≡ true) (to_lower cs)
unfolding to_lower
lower-is_plain [] h = tt
lower-is_plain (c ∷ cs) (l, h) = (ground (arith, l), lower-is_plain cs h)

pub chars-is_plain :
    (vs : List ℕ)
    → All (λ v. v < 32) vs
    → All (λ c. is_plain c ≡ true) (map char_of vs) × All (λ c. (c == 49) ≡ false) (map char_of vs)
chars-is_plain [] h = (tt, tt)
chars-is_plain (v ∷ vs) (l, h) =
    let good = char_of-is_good v l in
    let (p, q) = chars-is_plain vs h in ((ground (arith, good), p), (ground (arith, good), q))

pub map-chars : (vs ws : List ℕ) → map char_of (vs ++ ws) ≡ map char_of vs ++ map char_of ws
map-chars [] ws = refl
map-chars (v ∷ vs) ws = ap (λ t. char_of v ∷ t) (map-chars vs ws)

pub All-append : (p : ℕ → Type 0) (xs ys : List ℕ) → All p xs → All p ys → All p (xs ++ ys)
All-append p [] ys h k = k
All-append p (x ∷ xs) ys (l, h) k = (l, All-append p xs ys h k)

pub length-checksum_values : (hrp vs : List ℕ) (v : Version) → length (checksum_values hrp vs v) ≡ 6
unfolding checksum_values
length-checksum_values hrp vs v = refl

pub checksum_values-lt :
    (hrp vs : List ℕ) (v : Version) → All (λ c. c < 32) (checksum_values hrp vs v)
unfolding checksum_values
checksum_values-lt hrp vs v =
    (omega arith, (omega arith, (omega arith, (omega arith, (omega arith, (omega arith, tt))))))

module _ (hrp vs : List ℕ) (v : Version) where
  abbrev pub body : List ℕ
  body = vs ++ checksum_values hrp vs v

  payload_length : length body - 6 ≡ length vs
  payload_length =
      omega (arith, length-append vs (checksum_values hrp vs v), length-checksum_values hrp vs v)

  payload : take (length body - 6) body ≡ vs
  payload = ap (λ n. take n body) payload_length ∙ take-append vs (checksum_values hrp vs v)

  verify_checksum-body : verify_checksum hrp body ≡ some v
  unfolding verify_checksum
  verify_checksum-body =
      ap (λ n. version_of (polymod hrp (take n body) (some (drop n body)))) payload_length
      ∙ ap (λ t. version_of (polymod hrp t (some (drop (length vs) body))))
          (take-append vs (checksum_values hrp vs v))
      ∙ ap (λ t. version_of (polymod hrp vs (some t))) (drop-append vs (checksum_values hrp vs v))
      ∙ ap version_of (polymod-checksum_values hrp vs v)
      ∙ version_of-version_const v

  pub decode_data-body :
      (bech : List ℕ)
      → All (λ c. c < 32) vs
      → decode_data bech hrp (map char_of body) ≡ inr (hrp, vs, v)
  unfolding decode_data
  decode_data-body bech h = ground (
    arith,
    to_bytes-chars body (All-append (λ c. c < 32) vs _ h (checksum_values-lt hrp vs v)),
    verify_checksum-body,
    payload,
  )
