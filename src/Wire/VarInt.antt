-- ===== src/Wire/VarInt.antt =====
-- wire/common.go: variable length integers and byte strings. The scratch buffer of the source has
-- eight bytes (`binaryFreeList.Borrow`), so `io.ReadFull(r, buf)` reads eight.
use nogocommons.Base.{ℕ, ◌%◌}
use nogocommons.Base.{[], ◌∷◌, ◌++◌, length, Bytes, ltb, leb, ◌==◌, if◌then◌else◌}
use nogocommons.Wire.Codec.{eof, non_canonical, too_large, Result, ok, err, guard, ◌>>=◌, ◌>>◌}
use nogocommons.Wire.Codec.{read_full}
use nogocommons.Wire.Number.{put_le, read_le}

-- `MaxMessagePayload`
abbrev pub max_message_payload : ℕ
max_message_payload = 33554432

-- A number that must not be encoded in fewer bytes: at least `least`.
unfoldable pub read_canonical : ℕ → ℕ → Bytes → Result (ℕ × Bytes)
unfolding read_le
read_canonical w least r = do
  (rv, r') ← read_le w r
  guard (leb least rv) non_canonical
  ok (rv, r')

-- `ReadVarIntBuf`, by the discriminant that has been read.
unfoldable pub read_var_int_as : ℕ → Bytes → Result (ℕ × Bytes)
read_var_int_as d r =
    if d == 0xff
    then read_canonical 8 0x100000000 r
    else if d == 0xfe
    then read_canonical 4 0x10000 r
    else if d == 0xfd
    then read_canonical 2 0xfd r
    else ok (d, r)

unfoldable pub read_var_int : Bytes → Result (ℕ × Bytes)
unfolding read_var_int_as
read_var_int [] = err eof
read_var_int (d ∷ r) = read_var_int_as d r

-- `WriteVarIntBuf`
unfoldable pub write_var_int : ℕ → Bytes
write_var_int v =
    if ltb v 0xfd
    then (v % 256) ∷ []
    else if leb v 0xffff
    then 0xfd ∷ put_le 2 v
    else if leb v 0xffffffff
    then 0xfe ∷ put_le 4 v
    else 0xff ∷ put_le 8 v

-- `VarIntSerializeSize`
unfoldable pub var_int_serialize_size : ℕ → ℕ
var_int_serialize_size v =
    if ltb v 0xfd then 1 else if leb v 0xffff then 3 else if leb v 0xffffffff then 5 else 9

-- `ReadVarBytesBuf`; the field's name only words the error.
unfoldable pub read_var_bytes : ℕ → Bytes → Result (Bytes × Bytes)
read_var_bytes max_allowed r = do
  (count, r') ← read_var_int r
  guard (leb count max_allowed) too_large
  read_full count r'

-- `WriteVarBytesBuf`
unfoldable pub write_var_bytes : Bytes → Bytes
write_var_bytes bs = write_var_int (length bs) ++ bs

-- `readVarStringBuf` and `writeVarStringBuf`: a Go string is its bytes.
unfoldable pub read_var_string : Bytes → Result (Bytes × Bytes)
read_var_string r = do
  (count, r') ← read_var_int r
  guard (leb count max_message_payload) too_large
  read_full count r'

unfoldable pub write_var_string : Bytes → Bytes
write_var_string str = write_var_int (length str) ++ str
