-- ===== src/Wire/Number.antt =====
-- The little-endian numbers of `binary.LittleEndian`: `PutUint16`, `PutUint32` and `PutUint64` are
-- `put_le` at 2, 4 and 8 bytes, and `Uint16`, `Uint32` and `Uint64` are `le_value` of so many bytes.
use nogocommons.Base.{ℕ, zero, suc, ◌+◌, ◌*◌, ◌/◌, ◌%◌, ◌^◌, ◌<◌, ◌≡◌, refl, ap, subst, arith}
use nogocommons.Base.{[], ◌∷◌, ◌++◌, length, Bytes, All, All-append_left}
use nogocommons.Wire.Codec.{
  Result, ok, read_full, read_full-append, read_full-ok, ◌>>=◌, >>=-ok_both,
}
use native.Mathlib.Nat.{pow-suc}

abbrev pub IsByte : ℕ → Type 0
IsByte b = b < 256

unfoldable pub put_le : ℕ → ℕ → Bytes
put_le zero v = []
put_le (suc w) v = (v % 256) ∷ put_le w (v / 256)

unfoldable pub le_value : Bytes → ℕ
le_value [] = 0
le_value (b ∷ bs) = b + 256 * le_value bs

pub length-put_le : (w v : ℕ) → length (put_le w v) ≡ w
unfolding put_le
length-put_le zero v = refl
length-put_le (suc w) v = ap suc (length-put_le w (v / 256))

pub put_le-IsByte : (w v : ℕ) → All IsByte (put_le w v)
unfolding put_le
put_le-IsByte zero v = tt
put_le-IsByte (suc w) v = (omega arith, put_le-IsByte w (v / 256))

pub le_value-put_le : (w v : ℕ) → v < 256 ^ w → le_value (put_le w v) ≡ v
unfolding put_le le_value
le_value-put_le zero v h = omega arith
le_value-put_le (suc w) v h =
    let fits : v / 256 < 256 ^ w = omega (arith, pow-suc 256 w) in
    omega (arith, le_value-put_le w (v / 256) fits)

pub put_le-le_value : (bs : Bytes) → All IsByte bs → put_le (length bs) (le_value bs) ≡ bs
unfolding put_le le_value
put_le-le_value [] h = refl
put_le-le_value (b ∷ bs) (h, hs) =
    let low : (b + 256 * le_value bs) % 256 ≡ b = omega arith in
    let high : (b + 256 * le_value bs) / 256 ≡ le_value bs = omega arith in
    rw (low, high, put_le-le_value bs hs)

pub le_value-lt : (bs : Bytes) → All IsByte bs → le_value bs < 256 ^ length bs
unfolding le_value
le_value-lt [] h = omega arith
le_value-lt (b ∷ bs) (h, hs) = omega (arith, pow-suc 256 (length bs), le_value-lt bs hs)

-- A number of `w` bytes from the reader.
unfoldable pub read_le : ℕ → Bytes → Result (ℕ × Bytes)
read_le w r = do (bs, r') ← read_full w r; ok (le_value bs, r')

pub read_le-put_le :
    (w v : ℕ) (rest : Bytes) → v < 256 ^ w → read_le w (put_le w v ++ rest) ≡ ok (v, rest)
unfolding read_le
read_le-put_le w v rest h =
    rw (read_full-append w (put_le w v) rest (length-put_le w v), ◌>>=◌, le_value-put_le w v h)

-- What `read_le` takes from the reader is the encoding of the number.
pub read_le-ok :
    (w : ℕ) (r : Bytes) (v : ℕ) (rest : Bytes)
    → All IsByte r
    → read_le w r ≡ ok (v, rest)
    → (r ≡ put_le w v ++ rest) × (v < 256 ^ w)
unfolding read_le
read_le-ok w r v rest bytes h =
    let (p, got, out) = >>=-ok_both (read_full w r) (λ p. ok (le_value p.0, p.1)) h in
    let (front, size) = read_full-ok w r p.0 p.1 got in
    let small : All IsByte p.0 = All-append_left IsByte p.0 p.1 (subst (All IsByte) front bytes) in
    let value : le_value p.0 ≡ v = ground arith in
    let left : p.1 ≡ rest = ground arith in
    (
      ground (arith, front, size, put_le-le_value p.0 small),
      subst (λ n. n < 256 ^ w) value
          (subst (λ n. le_value p.0 < 256 ^ n) size (le_value-lt p.0 small)),
    )
