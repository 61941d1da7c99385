-- ===== src/Gcs/Stream.antt =====
-- What nogoutil/gcs uses of other packages: the bit streams of `kkdai/bstream` and the keyed hash
-- of `aead/siphash`. Both are parameters, with what they document: a writer appends bits and pads
-- the last byte with zero bits, a reader takes them off again in their order, the highest bit of
-- a number first, and the only error is that the bits have run out; a hash has 64 bits.
use nogocommons.Base.{ℕ, zero, suc, ◌*◌, ◌/◌, ◌%◌, ◌^◌, ◌<◌, ◌≡◌, Bool, false}
use nogocommons.Base.{
  Option, none, some, List, [], ◌∷◌, ◌++◌, length, replicate, Bytes, IsU64, ◌==◌,
}

-- The lowest `n` bits of a number, the highest first.
abbrev pub to_bits : ℕ → ℕ → List Bool
to_bits zero v = []
to_bits (suc n) v = (v / 2 ^ n % 2 == 1) ∷ to_bits n v

pub record Streams : Type 1 where
  pub Writer : Type 0
  pub new_writer : Writer
  pub write_bit : Writer → Bool → Writer
  pub write_bits : Writer → ℕ → ℕ → Writer
  pub bytes : Writer → Bytes
  pub Reader : Type 0
  pub new_reader : Bytes → Reader
  pub read_bit : Reader → Option (Bool × Reader)
  pub read_bits : Reader → ℕ → Option (ℕ × Reader)
  pub sum64 : Bytes → Bytes → ℕ

-- The documented behaviour, in terms of the bits that a writer has taken and a reader has left.
pub record IsStreams (s : Streams) : Type 0 where
  pub written : s.Writer → List Bool
  pub left : s.Reader → List Bool
  pub written-new_writer : written s.new_writer ≡ []
  pub written-write_bit :
      (w : s.Writer) (b : Bool) → written (s.write_bit w b) ≡ written w ++ (b ∷ [])
  pub written-write_bits :
      (w : s.Writer) (v n : ℕ) → written (s.write_bits w v n) ≡ written w ++ to_bits n v
  pub left-new_reader : (bs : Bytes) → length (left (s.new_reader bs)) ≡ 8 * length bs
  pub padding : s.Writer → ℕ
  pub left-bytes :
      (w : s.Writer) → left (s.new_reader (s.bytes w)) ≡ written w ++ replicate (padding w) false
  pub read_bit_next :
      (r : s.Reader) (b : Bool) (bs : List Bool)
      → left r ≡ b ∷ bs
      → (r' : s.Reader) × (s.read_bit r ≡ some (b, r')) × (left r' ≡ bs)
  pub read_bit_end : (r : s.Reader) → left r ≡ [] → s.read_bit r ≡ none
  pub read_bits_next :
      (r : s.Reader) (n v : ℕ) (bs : List Bool)
      → v < 2 ^ n
      → left r ≡ to_bits n v ++ bs
      → (r' : s.Reader) × (s.read_bits r n ≡ some (v, r')) × (left r' ≡ bs)
  pub read_bits_end : (r : s.Reader) (n : ℕ) → length (left r) < n → s.read_bits r n ≡ none
  pub sum64-IsU64 : (d key : Bytes) → IsU64 (s.sum64 d key)
