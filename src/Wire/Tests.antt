-- ===== src/Wire/Tests.antt =====
-- Runs of the codecs of wire, and the theorems at concrete inputs.
use nogocommons.Base.{◌≡◌, refl, arith, IsU64, List, [], ◌∷◌, ◌++◌, Bytes, All, replicate}
use nogocommons.Wire.Codec.{ok, err, unexpected_eof, non_canonical, read_full}
use nogocommons.Wire.Number.{read_le, le_value}
use nogocommons.Wire.VarInt.{read_var_int, write_var_int}
use nogocommons.Wire.VarInt.{read_canonical}
use nogocommons.Wire.VarIntLaws.{write-read_var_int}
use nogocommons.Wire.Header.{BlockHeader, IsHeader, InvVect, IsInvVect}
use nogocommons.Wire.Locators.{LocatorRequest}
use nogocommons.Wire.Messages.{encode_headers, decode_headers, headers_bytes, decode-encode_headers}

abbrev two_bytes : Bytes
two_bytes = 0xfd ∷ 0x34 ∷ 0x12 ∷ 7 ∷ []

two_bytes_read : read_var_int two_bytes ≡ ok (0x1234, 7 ∷ [])
unfolding read_var_int read_canonical read_le le_value read_full
two_bytes_read = refl

write-read_var_int_example : (two_bytes ≡ write_var_int 0x1234 ++ (7 ∷ [])) × IsU64 0x1234
write-read_var_int_example =
    write-read_var_int two_bytes 0x1234 (7 ∷ []) (omega arith) two_bytes_read

-- 5 in three bytes is refused, and so is a number that is cut off.
padded_refused : read_var_int (0xfd ∷ 5 ∷ 0 ∷ []) ≡ err non_canonical
unfolding read_var_int read_canonical read_le le_value read_full
padded_refused = refl

cut_refused : read_var_int (0xfe ∷ 5 ∷ 0 ∷ []) ≡ err unexpected_eof
unfolding read_var_int read_canonical read_le le_value read_full
cut_refused = refl

abbrev abc : Bytes
abc = b'a' ∷ b'b' ∷ b'c' ∷ []

abbrev some_hash : Bytes
some_hash = replicate 32 0xab

abbrev header : BlockHeader
header = record {
  version = 2;
  prev_block = some_hash;
  merkle_root = some_hash;
  timestamp = 1700000000;
  bits = 0x1d00ffff;
  nonce = 42;
}

header-IsHeader : IsHeader header
header-IsHeader = record {
  version_fits = omega arith;
  prev_fits = refl;
  merkle_fits = refl;
  time_fits = omega arith;
  bits_fits = omega arith;
  nonce_fits = omega arith;
}

abbrev inventory : List InvVect
inventory = record { kind = 2; hash = some_hash } ∷ (record { kind = 1; hash = some_hash } ∷ [])

inventory_fits : All IsInvVect inventory
inventory_fits = (
  record { kind_fits = omega arith; hash_fits = refl },
  (record { kind_fits = omega arith; hash_fits = refl }, tt),
)

abbrev two_headers : List BlockHeader
two_headers = header ∷ (header ∷ [])

decode-encode_headers_example :
    (encode_headers two_headers ≡ ok (headers_bytes two_headers))
    × (decode_headers (headers_bytes two_headers ++ []) ≡ ok (two_headers, []))
decode-encode_headers_example =
    decode-encode_headers two_headers [] (header-IsHeader, (header-IsHeader, tt)) (omega arith)

abbrev request : LocatorRequest
request = record {
  protocol_version = 70016;
  block_locator_hashes = replicate 32 1 ∷ (replicate 32 2 ∷ []);
  hash_stop = replicate 32 0;
}
