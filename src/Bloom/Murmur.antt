-- ===== src/Bloom/Murmur.antt =====
-- nogoutil/bloom/murmurhash3.go, on unsigned 32-bit words.
use nogocommons.Base.{ℕ, zero, suc, ◌*◌, ◌/◌, ◌%◌, ◌^◌, Bytes, [], ◌∷◌, length, drop}
use nogocommons.Base.{take, u32_mod, add32, mul32}
use nogocommons.Wire.Number.{le_value}
use Prim.Native.Nat.{bit_or, bit_xor}

-- A shift to the left, which loses the high bits, joined with a shift to the right.
abbrev pub rotate_left : ℕ → ℕ → ℕ → ℕ
rotate_left a up down = bit_or (a * 2 ^ up % u32_mod) (a / 2 ^ down)

abbrev murmur_c1 : ℕ
murmur_c1 = 3432918353

abbrev murmur_c2 : ℕ
murmur_c2 = 461845907

abbrev murmur_m : ℕ
murmur_m = 5

abbrev murmur_n : ℕ
murmur_n = 3864292196

unfoldable pub scramble : ℕ → ℕ
scramble k = mul32 (rotate_left (mul32 k murmur_c1) 15 17) murmur_c2

-- The rounds over chunks of 4 bytes.
unfoldable pub hash_blocks : ℕ → Bytes → ℕ → ℕ
unfolding scramble le_value
hash_blocks zero bytes hash = hash
hash_blocks (suc n) bytes hash =
    let k = scramble (le_value (take 4 bytes)) in
    hash_blocks n (drop 4 bytes)
      (add32 (mul32 (rotate_left (bit_xor hash k) 13 19) murmur_m) murmur_n)

-- The last one, two or three bytes.
unfoldable pub hash_tail : Bytes → ℕ → ℕ
unfolding scramble
hash_tail [] hash = hash
hash_tail (a ∷ []) hash = bit_xor hash (scramble a)
hash_tail (a ∷ b ∷ []) hash = bit_xor hash (scramble (bit_xor (b * 2 ^ 8) a))
hash_tail (a ∷ b ∷ c ∷ rest) hash =
    bit_xor hash (scramble (bit_xor (bit_xor (c * 2 ^ 16) (b * 2 ^ 8)) a))

unfoldable pub finalize : ℕ → ℕ → ℕ
finalize data_len hash =
    let h1 : ℕ = bit_xor hash data_len in
    let h2 : ℕ = mul32 (bit_xor h1 (h1 / 2 ^ 16)) 2246822507 in
    let h3 : ℕ = mul32 (bit_xor h2 (h2 / 2 ^ 13)) 3266489909 in bit_xor h3 (h3 / 2 ^ 16)

-- A slice of fewer than 2 ^ 32 bytes.
unfoldable pub murmur_hash3 : ℕ → Bytes → ℕ
unfolding hash_blocks hash_tail finalize
murmur_hash3 seed bytes =
    let data_len = length bytes % u32_mod in
    let num_blocks = data_len / 4 in
    finalize data_len (
      hash_tail (take (data_len % 4) (drop (num_blocks * 4) bytes))
        (hash_blocks num_blocks bytes seed))
