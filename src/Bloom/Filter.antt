-- ===== src/Bloom/Filter.antt =====
-- nogoutil/bloom/filter.go: the filter that is loaded, and what adds to it and looks into it. Its mutex
-- orders the calls. A result `none` is a panic: a nil message, a division by zero or an index that is
-- out of range.
use nogocommons.Base.{
  ℕ, zero, suc, ◌*◌, ◌/◌, ◌%◌, ◌^◌, Bool, true, false, ◌&&◌, Option, none, some, List,
}
use nogocommons.Base.{
  [], ◌∷◌, ◌==◌, ltb, Bytes, length, get_elem?, set, u32_mod, add32, mul32, if◌then◌else◌,
}
use nogocommons.Bloom.Murmur.{murmur_hash3}
use Prim.Native.Nat.{bit_and, bit_or}

pub record MsgFilterLoad : Type 0 where
  pub filter : Bytes
  pub hash_funcs : ℕ
  pub tweak : ℕ
  pub flags : ℕ

-- `msgFilterLoad` of the filter, which may be nil.
abbrev pub Filter : Type 0
Filter = Option MsgFilterLoad

-- A filter without bytes has no hash functions.
abbrev pub normalize : Filter → Filter
normalize none = none
normalize (some m) = if length m.filter == 0 then some (record m { hash_funcs = 0 }) else some m

-- The bit offset for the hash function `num`.
unfoldable pub hash : ℕ → Bytes → MsgFilterLoad → Option ℕ
hash num bytes m =
    let bits = length m.filter % u32_mod * 2 ^ 3 % u32_mod in
    if bits == 0
    then none
    else some (murmur_hash3 (add32 (mul32 num 4221880213) m.tweak) bytes % bits)

abbrev pub and_then : {A B : Type 0} → Option A → (A → Option B) → Option B
and_then none f = none
and_then (some a) f = f a

-- Whether the bit at an offset is set.
unfoldable pub bit_at : Bytes → ℕ → Option Bool
bit_at filter idx =
    and_then (get_elem? filter (idx / 8)) λ b. some (ltb 0 (bit_and b (2 ^ (idx % 8))))

unfoldable pub set_bit_at : MsgFilterLoad → ℕ → Option MsgFilterLoad
set_bit_at m idx =
    and_then (get_elem? m.filter (idx / 8))
      λ b. some (record m { filter = set m.filter (idx / 8) (bit_or b (2 ^ (idx % 8))) })

-- The rounds of `matches` that are left, from the hash function `i` on.
unfoldable pub matches_from : ℕ → ℕ → Bytes → MsgFilterLoad → Option Bool
unfolding hash bit_at
matches_from zero i bytes m = some true
matches_from (suc n) i bytes m = and_then (hash i bytes m) λ idx.
    and_then (bit_at m.filter idx)
      λ b. elim b [ false ↦ some false | true ↦ matches_from n (suc i) bytes m ]

unfoldable pub matches : Filter → Bytes → Option Bool
unfolding matches_from
matches none bytes = some false
matches (some m) bytes =
    and_then (matches_from m.hash_funcs 0 bytes m) λ b. some (b && ltb 0 m.hash_funcs)

-- The rounds of `add` that are left.
unfoldable pub add_from : ℕ → ℕ → Bytes → MsgFilterLoad → Option MsgFilterLoad
unfolding hash set_bit_at
add_from zero i bytes m = some m
add_from (suc n) i bytes m =
    and_then (hash i bytes m) λ idx. and_then (set_bit_at m idx) λ m'. add_from n (suc i) bytes m'

unfoldable pub add : Filter → Bytes → Option Filter
unfolding add_from
add none bytes = some none
add (some m) bytes = and_then (add_from m.hash_funcs 0 bytes m) λ m'. some (some m')

-- Calls of `Add`, one after the other.
unfoldable pub add_all : Filter → List Bytes → Option Filter
unfolding add
add_all f [] = some f
add_all f (d ∷ ds) = and_then (add f d) λ f'. add_all f' ds
