-- ===== src/Wire/Messages.antt =====
-- wire/msginv.go and wire/msgheaders.go: messages that are a counted list of items.
use nogocommons.Base.{ℕ, ◌+◌, ◌≡◌, arith, IsU64}
use nogocommons.Base.{
  List, [], ◌∷◌, ◌++◌, length, append_assoc, Bytes, All, ltb, leb, ◌==◌, if◌then◌else◌,
}
use nogocommons.Wire.Codec.{Result, ok, err, guard, ◌>>=◌, ◌>>◌, too_large, has_transactions}
use nogocommons.Wire.Codec.{read_many, write_many, read_many-write_many}
use nogocommons.Wire.VarInt.{read_var_int, write_var_int}
use nogocommons.Wire.VarIntLaws.{read-write_var_int}
use nogocommons.Wire.Header.{
  BlockHeader, IsHeader, read_block_header, write_block_header, read-write_block_header, InvVect,
  IsInvVect, read_inv_vect, write_inv_vect, read-write_inv_vect,
}

-- `MaxInvPerMsg` and `MaxBlockHeadersPerMsg`
abbrev pub max_inv_per_msg : ℕ
max_inv_per_msg = 50000

abbrev pub max_block_headers_per_msg : ℕ
max_block_headers_per_msg = 2000

-- `MsgInv.AddInvVect`
unfoldable pub add_inv_vect : List InvVect → InvVect → Result (List InvVect)
add_inv_vect inv_list iv =
    if ltb max_inv_per_msg (length inv_list + 1) then err too_large else ok (inv_list ++ (iv ∷ []))

-- `MsgInv.BtcDecode`
unfoldable pub decode_inv : Bytes → Result (List InvVect × Bytes)
decode_inv r = do
  (count, r1) ← read_var_int r
  guard (leb count max_inv_per_msg) too_large
  read_many read_inv_vect count r1

-- `MsgInv.BtcEncode`
unfoldable pub encode_inv : List InvVect → Result Bytes
encode_inv inv_list = do
  guard (leb (length inv_list) max_inv_per_msg) too_large
  ok (write_var_int (length inv_list) ++ write_many write_inv_vect inv_list)

-- One round of the loop of `MsgHeaders.BtcDecode`: a header, and that no transactions follow it.
unfoldable pub read_bare_header : Bytes → Result (BlockHeader × Bytes)
read_bare_header r = do
  (h, r1) ← read_block_header r
  (tx_count, r2) ← read_var_int r1
  guard (leb tx_count 0) has_transactions
  ok (h, r2)

-- `MsgHeaders.BtcDecode`
unfoldable pub decode_headers : Bytes → Result (List BlockHeader × Bytes)
unfolding read_bare_header
decode_headers r = do
  (count, r1) ← read_var_int r
  guard (leb count max_block_headers_per_msg) too_large
  read_many read_bare_header count r1

unfoldable pub write_bare_header : BlockHeader → Bytes
write_bare_header h = write_block_header h ++ write_var_int 0

-- `MsgHeaders.BtcEncode`
unfoldable pub encode_headers : List BlockHeader → Result Bytes
unfolding write_bare_header
encode_headers headers = do
  guard (leb (length headers) max_block_headers_per_msg) too_large
  ok (write_var_int (length headers) ++ write_many write_bare_header headers)

-- `MsgHeaders.AddBlockHeader`
unfoldable pub add_block_header : List BlockHeader → BlockHeader → Result (List BlockHeader)
add_block_header headers bh =
    if ltb max_block_headers_per_msg (length headers + 1)
    then err too_large
    else ok (headers ++ (bh ∷ []))

-- An inventory message of well-formed vectors is encoded exactly if it has at most 50000 of
-- them, and then `BtcDecode` reads the vectors back in order with what follows left.
pub decode-encode_inv :
    (ivs : List InvVect) (rest : Bytes)
    → All IsInvVect ivs
    → (do bs ← encode_inv ivs; decode_inv (bs ++ rest))
      ≡ (if leb (length ivs) max_inv_per_msg then ok (ivs, rest) else err too_large)
unfolding encode_inv decode_inv
decode-encode_inv ivs rest h = ground (
  arith,
  append_assoc (write_var_int (length ivs)) (write_many write_inv_vect ivs) rest,
  read-write_var_int (length ivs) (write_many write_inv_vect ivs ++ rest),
  read_many-write_many read_inv_vect write_inv_vect read-write_inv_vect ivs rest h,
)

read-write_bare_header :
    (h : BlockHeader) (rest : Bytes)
    → IsHeader h
    → read_bare_header (write_bare_header h ++ rest) ≡ ok (h, rest)
unfolding read_bare_header write_bare_header
read-write_bare_header h rest v =
    simp append_assoc
      (rw (read-write_block_header h _ v, ◌>>=◌, read-write_var_int 0 rest (omega arith), ◌>>=◌))

-- The count of the headers, and each header with no transactions after it.
abbrev pub headers_bytes : List BlockHeader → Bytes
headers_bytes headers = write_var_int (length headers) ++ write_many write_bare_header headers

-- For well-formed headers, their number in 64 bits: `BtcEncode` of a headers message gives the
-- count and the headers, each with no transactions after it, if there are at most 2000 of them,
-- and refuses more; and from these bytes `BtcDecode` by itself reads the headers back in order
-- with what follows left, if there are at most 2000 of them, and refuses more.
pub decode-encode_headers :
    (headers : List BlockHeader) (rest : Bytes)
    → All IsHeader headers
    → IsU64 (length headers)
    → (encode_headers headers
        ≡ (if leb (length headers) 2000 then ok (headers_bytes headers) else err too_large))
      × (decode_headers (headers_bytes headers ++ rest)
          ≡ (if leb (length headers) 2000 then ok (headers, rest) else err too_large))
unfolding encode_headers decode_headers
decode-encode_headers headers rest h fits = (
  ground arith,
  ground (
    arith,
    append_assoc (write_var_int (length headers)) (write_many write_bare_header headers) rest,
    read-write_var_int (length headers) (write_many write_bare_header headers ++ rest) fits,
    read_many-write_many read_bare_header write_bare_header read-write_bare_header headers rest h,
  ),
)

-- In a headers message, a well-formed header is accepted if it announces no transactions, and
-- refused for every other 64-bit number of them.
pub read_bare_header_refuses :
    (h : BlockHeader) (n : ℕ) (rest : Bytes)
    → IsHeader h
    → IsU64 n
    → read_bare_header ((write_block_header h ++ write_var_int n) ++ rest)
      ≡ (if n == 0 then ok (h, rest) else err has_transactions)
unfolding read_bare_header
read_bare_header_refuses h n rest v fits = ground (
  arith,
  append_assoc (write_block_header h) (write_var_int n) rest,
  read-write_block_header h (write_var_int n ++ rest) v,
  read-write_var_int n rest fits,
)
