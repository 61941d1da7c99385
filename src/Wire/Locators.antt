-- ===== src/Wire/Locators.antt =====
-- wire/msggetheaders.go and wire/msggetblocks.go: the two requests that carry a block locator, which
-- are encoded in the same way.
use nogocommons.Base.{ℕ, ◌+◌, ◌≤◌, ◌≡◌, arith, List, [], ◌∷◌, ◌++◌, length, append_assoc, Bytes}
use nogocommons.Base.{All, ltb, leb, if◌then◌else◌, true}
use nogocommons.Wire.Codec.{Result, ok, err, guard, ◌>>=◌, ◌>>◌, too_large, read_full}
use nogocommons.Wire.Codec.{read_full-append, read_many, write_many, read_many-write_many}
use nogocommons.Wire.Number.{put_le, read_le, read_le-put_le}
use nogocommons.Wire.VarInt.{read_var_int, write_var_int}
use nogocommons.Wire.VarIntLaws.{read-write_var_int}
use nogocommons.Wire.Header.{hash_size, IsU32}

-- `MaxBlockLocatorsPerMsg`
abbrev pub max_block_locators_per_msg : ℕ
max_block_locators_per_msg = 500

-- `MsgGetHeaders` and `MsgGetBlocks`
pub record LocatorRequest : Type 0 where
  pub protocol_version : ℕ
  pub block_locator_hashes : List Bytes
  pub hash_stop : Bytes

-- `AddBlockLocatorHash`
unfoldable pub add_block_locator_hash : LocatorRequest → Bytes → Result LocatorRequest
add_block_locator_hash msg hash =
    if ltb max_block_locators_per_msg (length msg.block_locator_hashes + 1)
    then err too_large
    else ok (record msg { block_locator_hashes = msg.block_locator_hashes ++ (hash ∷ []) })

-- `BtcDecode`
unfoldable pub decode_locator_request : Bytes → Result (LocatorRequest × Bytes)
decode_locator_request r = do
  (version, r1) ← read_le 4 r
  (count, r2) ← read_var_int r1
  guard (leb count max_block_locators_per_msg) too_large
  (hashes, r3) ← read_many (read_full hash_size) count r2
  (stop, r4) ← read_full hash_size r3
  ok (record { protocol_version = version; block_locator_hashes = hashes; hash_stop = stop }, r4)

-- `BtcEncode`
unfoldable pub encode_locator_request : LocatorRequest → Result Bytes
encode_locator_request msg = do
  guard (leb (length msg.block_locator_hashes) max_block_locators_per_msg) too_large
  ok (
      put_le 4 msg.protocol_version
      ++ (write_var_int (length msg.block_locator_hashes)
          ++ (write_many (λ hash. hash) msg.block_locator_hashes ++ msg.hash_stop)))

pub record IsLocatorRequest (msg : LocatorRequest) : Type 0 where
  pub version_fits : IsU32 msg.protocol_version
  pub hashes_fit : All (λ hash. length hash ≡ hash_size) msg.block_locator_hashes
  pub stop_fits : length msg.hash_stop ≡ hash_size

decode_encoded :
    (msg : LocatorRequest) (rest : Bytes)
    → IsLocatorRequest msg
    → length msg.block_locator_hashes ≤ max_block_locators_per_msg
    → decode_locator_request (
        (put_le 4 msg.protocol_version
          ++ (write_var_int (length msg.block_locator_hashes)
              ++ (write_many (λ hash. hash) msg.block_locator_hashes ++ msg.hash_stop)))
        ++ rest)
      ≡ ok (msg, rest)
unfolding decode_locator_request
decode_encoded msg rest h few =
    let hashes = msg.block_locator_hashes in
    let allowed : leb (length hashes) max_block_locators_per_msg ≡ true = ground (arith, few) in
    simp append_assoc (
      rw (
        read_le-put_le 4 msg.protocol_version _ h.version_fits,
        ◌>>=◌,
        read-write_var_int (length hashes) _ (omega (arith, few)),
        ◌>>=◌,
        allowed,
        read_many-write_many (read_full hash_size) (λ hash. hash)
            (λ hash s fits. read_full-append hash_size hash s fits) hashes (msg.hash_stop ++ rest)
            h.hashes_fit,
        ◌>>=◌,
        read_full-append hash_size msg.hash_stop rest h.stop_fits,
        ◌>>=◌,
      ))

-- A getheaders message with a 32-bit version and hashes of 32 bytes is encoded exactly if it has
-- at most 500 locator hashes, and then `BtcDecode` reads the message back with what follows
-- left.
pub decode-encode_locator_request :
    (msg : LocatorRequest) (rest : Bytes)
    → IsLocatorRequest msg
    → (do bs ← encode_locator_request msg; decode_locator_request (bs ++ rest)) ≡ (
        if leb (length msg.block_locator_hashes) max_block_locators_per_msg
        then ok (msg, rest)
        else err too_large)
unfolding encode_locator_request
decode-encode_locator_request msg rest h = ground (arith, decode_encoded msg rest h)
