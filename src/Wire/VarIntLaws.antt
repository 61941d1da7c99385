-- ===== src/Wire/VarIntLaws.antt =====
-- Variable length integers and byte strings read back what was written, and nothing else is read.
use nogocommons.Base.{ℕ, ◌≤◌, ◌<◌, ◌^◌, ◌≡◌, refl, subst, arith, IsU64}
use nogocommons.Base.{[], ◌∷◌, ◌++◌, length, append_assoc, Bytes, All, leb}
use nogocommons.Base.{if◌then◌else◌}
use nogocommons.Wire.Codec.{
  Result, ok, err, too_large, non_canonical, guard, ◌>>◌, >>=-ok_both, read_full-append,
}
use nogocommons.Wire.Number.{put_le, read_le, read_le-put_le, length-put_le, IsByte}
use nogocommons.Wire.Number.{read_le-ok}
use nogocommons.Wire.VarInt.{
  read_canonical, read_var_int, write_var_int, var_int_serialize_size, read_var_bytes,
  write_var_bytes, read_var_string, write_var_string, max_message_payload,
}

read_canonical-put_le :
    (w least v : ℕ) (rest : Bytes)
    → v < 256 ^ w
    → least ≤ v
    → read_canonical w least (put_le w v ++ rest) ≡ ok (v, rest)
unfolding read_canonical
read_canonical-put_le w least v rest fits le = ground (arith, read_le-put_le w v rest fits)

-- `ReadVarIntBuf` reads back every 64-bit number that `WriteVarIntBuf` wrote, and leaves the
-- bytes that follow it.
pub read-write_var_int :
    (v : ℕ) (rest : Bytes) → IsU64 v → read_var_int (write_var_int v ++ rest) ≡ ok (v, rest)
unfolding read_var_int write_var_int
read-write_var_int v rest h = ground (
  arith,
  read_canonical-put_le 2 0xfd v rest,
  read_canonical-put_le 4 0x10000 v rest,
  read_canonical-put_le 8 0x100000000 v rest,
)

-- `VarIntSerializeSize` is the number of bytes that `WriteVarIntBuf` writes, for every number.
pub length-write_var_int : (v : ℕ) → length (write_var_int v) ≡ var_int_serialize_size v
unfolding write_var_int var_int_serialize_size
length-write_var_int v = ground (arith, length-put_le 2 v, length-put_le 4 v, length-put_le 8 v)

read_canonical-ok :
    (w least : ℕ) (r : Bytes) (v : ℕ) (rest : Bytes)
    → All IsByte r
    → read_canonical w least r ≡ ok (v, rest)
    → (r ≡ put_le w v ++ rest) × (least ≤ v) × (v < 256 ^ w)
unfolding read_canonical
read_canonical-ok w least r v rest bytes h =
    let after : ℕ × Bytes → Result (ℕ × Bytes) =
      λ p. guard (leb least p.0) non_canonical >> ok (p.0, p.1) in
    let (p, got, out) = >>=-ok_both (read_le w r) after h in
    let value : p.0 ≡ v = ground arith in
    let left : p.1 ≡ rest = ground arith in
    let (front, fits) = read_le-ok w r p.0 p.1 bytes got in
    (ground (arith, front), ground arith, subst (λ n. n < 256 ^ w) value fits)

-- If `ReadVarIntBuf` reads a value from bytes, the value fits into 64 bits and the bytes taken
-- are exactly those that `WriteVarIntBuf` writes of it: no value has a second accepted encoding.
pub write-read_var_int :
    (r : Bytes) (v : ℕ) (rest : Bytes)
    → All IsByte r
    → read_var_int r ≡ ok (v, rest)
    → (r ≡ write_var_int v ++ rest) × IsU64 v
unfolding read_var_int write_var_int
write-read_var_int [] v rest bytes h = cc
write-read_var_int (d ∷ r) v rest (small, bytes) h = ground (
  arith,
  read_canonical-ok 2 0xfd r v rest bytes,
  read_canonical-ok 4 0x10000 r v rest bytes,
  read_canonical-ok 8 0x100000000 r v rest bytes,
)

-- `ReadVarBytesBuf` reads back the bytes that `WriteVarBytesBuf` wrote, with what follows left,
-- if they are not more than allowed.
pub read-write_var_bytes :
    (max_allowed : ℕ) (bs rest : Bytes)
    → length bs ≤ max_allowed
    → IsU64 (length bs)
    → read_var_bytes max_allowed (write_var_bytes bs ++ rest) ≡ ok (bs, rest)
unfolding read_var_bytes write_var_bytes
read-write_var_bytes max_allowed bs rest le fits = ground (
  arith,
  append_assoc (write_var_int (length bs)) bs rest,
  read-write_var_int (length bs) (bs ++ rest) fits,
  read_full-append (length bs) bs rest refl,
)

-- `ReadVarBytesBuf` refuses an announced length above the allowed one, whatever bytes follow and
-- even if they are missing.
pub read_var_bytes_too_large :
    (max_allowed count : ℕ) (rest : Bytes)
    → max_allowed < count
    → IsU64 count
    → read_var_bytes max_allowed (write_var_int count ++ rest) ≡ err too_large
unfolding read_var_bytes
read_var_bytes_too_large max_allowed count rest lt fits =
    ground (arith, read-write_var_int count rest fits)

-- `readVarStringBuf` reads back the string that `writeVarStringBuf` wrote if it is not longer
-- than a message may be, and answers that it is too long otherwise.
pub read-write_var_string :
    (str rest : Bytes)
    → IsU64 (length str)
    → read_var_string (write_var_string str ++ rest)
      ≡ (if leb (length str) max_message_payload then ok (str, rest) else err too_large)
unfolding read_var_string write_var_string
read-write_var_string str rest fits = ground (
  arith,
  append_assoc (write_var_int (length str)) str rest,
  read-write_var_int (length str) (str ++ rest) fits,
  read_full-append (length str) str rest refl,
)
