-- ===== src/Wire/Header.antt =====
-- wire/blockheader.go and wire/invvect.go: block headers and inventory vectors. A signed field is
-- its bit pattern, and a time its seconds since 1970. A hash is 32 bytes.
use nogocommons.Base.{ℕ, ◌<◌, ◌^◌, ◌≡◌, arith, ◌++◌, length, length-append, append_assoc, Bytes}
use nogocommons.Wire.Codec.{Result, ok, ◌>>=◌, read_full, read_full-append}
use nogocommons.Wire.Number.{put_le, read_le, read_le-put_le, length-put_le}

-- `chainhash.HashSize`
abbrev pub hash_size : ℕ
hash_size = 32

abbrev pub IsU32 : ℕ → Type 0
IsU32 v = v < 256 ^ 4

pub record BlockHeader : Type 0 where
  pub version : ℕ
  pub prev_block : Bytes
  pub merkle_root : Bytes
  pub timestamp : ℕ
  pub bits : ℕ
  pub nonce : ℕ

-- `readBlockHeaderBuf`
unfoldable pub read_block_header : Bytes → Result (BlockHeader × Bytes)
read_block_header r = do
  (version, r1) ← read_le 4 r
  (prev_block, r2) ← read_full hash_size r1
  (merkle_root, r3) ← read_full hash_size r2
  (timestamp, r4) ← read_le 4 r3
  (bits, r5) ← read_le 4 r4
  (nonce, r6) ← read_le 4 r5
  ok (
    record {
      version = version;
      prev_block = prev_block;
      merkle_root = merkle_root;
      timestamp = timestamp;
      bits = bits;
      nonce = nonce;
    },
    r6,
  )

-- `writeBlockHeaderBuf`
unfoldable pub write_block_header : BlockHeader → Bytes
write_block_header h =
    put_le 4 h.version
    ++ (h.prev_block
        ++ (h.merkle_root ++ (put_le 4 h.timestamp ++ (put_le 4 h.bits ++ put_le 4 h.nonce))))

pub record IsHeader (h : BlockHeader) : Type 0 where
  pub version_fits : IsU32 h.version
  pub prev_fits : length h.prev_block ≡ hash_size
  pub merkle_fits : length h.merkle_root ≡ hash_size
  pub time_fits : IsU32 h.timestamp
  pub bits_fits : IsU32 h.bits
  pub nonce_fits : IsU32 h.nonce

-- `readBlockHeaderBuf` reads back the header that `writeBlockHeaderBuf` wrote, if its hashes
-- have 32 bytes, its numbers fit into 32 bits, and its time does.
pub read-write_block_header :
    (h : BlockHeader) (rest : Bytes)
    → IsHeader h
    → read_block_header (write_block_header h ++ rest) ≡ ok (h, rest)
unfolding read_block_header write_block_header
read-write_block_header h rest v = simp append_assoc (
    rw (
      read_le-put_le 4 h.version _ v.version_fits,
      ◌>>=◌,
      read_full-append hash_size h.prev_block _ v.prev_fits,
      ◌>>=◌,
      read_full-append hash_size h.merkle_root _ v.merkle_fits,
      ◌>>=◌,
      read_le-put_le 4 h.timestamp _ v.time_fits,
      ◌>>=◌,
      read_le-put_le 4 h.bits _ v.bits_fits,
      ◌>>=◌,
      read_le-put_le 4 h.nonce _ v.nonce_fits,
      ◌>>=◌,
    ))

-- A header whose hashes have 32 bytes is written in 80 bytes.
pub length-write_block_header : (h : BlockHeader) → IsHeader h → length (write_block_header h) ≡ 80
unfolding write_block_header
length-write_block_header h v =
    simp (length-append {0}, length-put_le) (omega (arith, v.prev_fits, v.merkle_fits))

pub record InvVect : Type 0 where
  pub kind : ℕ
  pub hash : Bytes

-- `readInvVectBuf`
unfoldable pub read_inv_vect : Bytes → Result (InvVect × Bytes)
read_inv_vect r = do
  (kind, r1) ← read_le 4 r
  (hash, r2) ← read_full hash_size r1
  ok (record { kind = kind; hash = hash }, r2)

-- `writeInvVectBuf`
unfoldable pub write_inv_vect : InvVect → Bytes
write_inv_vect iv = put_le 4 iv.kind ++ iv.hash

pub record IsInvVect (iv : InvVect) : Type 0 where
  pub kind_fits : IsU32 iv.kind
  pub hash_fits : length iv.hash ≡ hash_size

pub read-write_inv_vect :
    (iv : InvVect) (rest : Bytes)
    → IsInvVect iv
    → read_inv_vect (write_inv_vect iv ++ rest) ≡ ok (iv, rest)
unfolding read_inv_vect write_inv_vect
read-write_inv_vect iv rest v = simp append_assoc (
    rw (
      read_le-put_le 4 iv.kind _ v.kind_fits,
      ◌>>=◌,
      read_full-append hash_size iv.hash _ v.hash_fits,
      ◌>>=◌,
    ))
