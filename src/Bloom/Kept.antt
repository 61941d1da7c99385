-- ===== src/Bloom/Kept.antt =====
-- A filter of nogoutil/bloom/filter.go finds what was added to it.
use nogocommons.Base.{ℕ, ◌*◌, ◌/◌, ◌%◌, ◌^◌, ◌<◌, ◌≡◌, ◌≢◌, refl, ap, sym, ◌∙◌, arith}
use nogocommons.Base.{Bool, true, false, some, ◌==◌, ltb, Bytes, length}
use nogocommons.Base.{
  get_elem?, get_elem?_inside, set, length-set, get_elem?-set_self, get_elem?-set_ne, u32_mod,
  subst,
}
use nogocommons.Base.{Bool-cases, lt→ltb, inl, inr, add32, mul32}
use nogocommons.Base.Masks.{bit_and-or_self, bit_and-or_le}
use nogocommons.Bloom.Murmur.{murmur_hash3}
use nogocommons.Bloom.Filter.{MsgFilterLoad, hash, bit_at, set_bit_at, and_then}
use Prim.Native.Nat.{bit_and, bit_or}
use native.Mathlib.Nat.{mod-lt, one-le-pow}

-- The filter has bytes, and the number of its bits is a 32-bit word.
pub record IsUsable (m : MsgFilterLoad) : Type 0 where
  pub has_bytes : 0 < length m.filter
  pub fits : length m.filter < 2 ^ 29

-- The same filter with more bits set.
pub record Grows (m m' : MsgFilterLoad) : Type 0 where
  pub same_length : length m'.filter ≡ length m.filter
  pub same_funcs : m'.hash_funcs ≡ m.hash_funcs
  pub same_tweak : m'.tweak ≡ m.tweak
  pub same_flags : m'.flags ≡ m.flags
  pub kept : (idx : ℕ) → bit_at m.filter idx ≡ some true → bit_at m'.filter idx ≡ some true

-- The offset is in the filter.
pub hash-fits :
    (num : ℕ) (bytes : Bytes) (m : MsgFilterLoad)
    → IsUsable m
    → (idx : ℕ) × (hash num bytes m ≡ some idx) × (idx / 8 < length m.filter)
unfolding hash
hash-fits num bytes m u =
    let h : ℕ = murmur_hash3 (add32 (mul32 num 4221880213) m.tweak) bytes in
    let bits : ℕ = length m.filter % u32_mod * 2 ^ 3 % u32_mod in
    let b : bits ≡ length m.filter * 8 = omega (arith, u.fits) in
    let n : (bits == 0) ≡ false = ground (arith, b, u.has_bytes) in
    let l : h % bits < bits = mod-lt h (omega (arith, b, u.has_bytes)) in
    (h % bits, rw n refl, omega (arith, b, l))

pub hash-same :
    (num : ℕ) (bytes : Bytes) (m m' : MsgFilterLoad)
    → Grows m m'
    → hash num bytes m' ≡ hash num bytes m
unfolding hash
hash-same num bytes m m' g = rw (g.same_length, g.same_tweak) refl

-- A bit that was set is still set when its byte gets more bits.
kept_in_byte : (b y z : ℕ) → ltb 0 (bit_and b z) ≡ true → ltb 0 (bit_and (bit_or b y) z) ≡ true
kept_in_byte b y z h = ground (arith, h, bit_and-or_le b y z)

pub bit_at-of :
    (f : Bytes) (idx b : ℕ)
    → get_elem? f (idx / 8) ≡ some b
    → bit_at f idx ≡ some (ltb 0 (bit_and b (2 ^ (idx % 8))))
unfolding bit_at
bit_at-of f idx b e = ap (λ o. and_then o (λ c. some (ltb 0 (bit_and c (2 ^ (idx % 8)))))) e

kept_in :
    (f : Bytes) (j b y idx : ℕ)
    → get_elem? f j ≡ some b
    → j < length f
    → bit_at f idx ≡ some true
    → bit_at (set f j (bit_or b y)) idx ≡ some true
kept_in f j b y idx e h t = elim (Bool-cases (j == idx / 8)) [
  | inl s ↦
      let q : j ≡ idx / 8 = ground (arith, s) in
      let o = sym (bit_at-of f idx b (subst (λ k. get_elem? f k ≡ some b) q e)) ∙ t in
      bit_at-of (set f j (bit_or b y)) idx (bit_or b y) (
        subst (λ k. get_elem? (set f j (bit_or b y)) k ≡ some (bit_or b y)) q
          (get_elem?-set_self f j (bit_or b y) h))
      ∙ ap some (kept_in_byte b y (2 ^ (idx % 8)) (ground (arith, o)))
  | inr n ↦
      let d : j ≢ idx / 8 = λ q. ground (arith, n, q) in
      unfold bit_at in
      ap (λ o. and_then o (λ c. some (ltb 0 (bit_and c (2 ^ (idx % 8))))))
        (get_elem?-set_ne f j (idx / 8) (bit_or b y) d)
      ∙ t
]

set_at :
    (m : MsgFilterLoad) (idx b : ℕ)
    → get_elem? m.filter (idx / 8) ≡ some b
    → set_bit_at m idx
      ≡ some (record m { filter = set m.filter (idx / 8) (bit_or b (2 ^ (idx % 8))) })
unfolding set_bit_at
set_at m idx b e =
    ap
      (λ o.
        and_then o
          (λ c. some (record m { filter = set m.filter (idx / 8) (bit_or c (2 ^ (idx % 8))) })))
      e

pub set_bit_at-Grows :
    (m : MsgFilterLoad) (idx : ℕ)
    → idx / 8 < length m.filter
    → (m' : MsgFilterLoad) × (set_bit_at m idx ≡ some m')
      × Grows m m'
      × (bit_at m'.filter idx ≡ some true)
set_bit_at-Grows m idx h =
    let (b, e) = get_elem?_inside m.filter (idx / 8) h in
    let y = 2 ^ (idx % 8) in
    let m' = record m { filter = set m.filter (idx / 8) (bit_or b y) } in
    (
      m',
      set_at m idx b e,
      record {
        same_length = length-set m.filter (idx / 8) (bit_or b y);
        same_funcs = refl;
        same_tweak = refl;
        same_flags = refl;
        kept = λ i t. kept_in m.filter (idx / 8) b y i e h t;
      },
      bit_at-of m'.filter idx (bit_or b y) (get_elem?-set_self m.filter (idx / 8) (bit_or b y) h)
          ∙ ap some (
              lt→ltb 0 _
                (omega (arith, bit_and-or_self b y, one-le-pow (idx % 8) 2 (omega arith)))),
    )

pub Grows-refl : (m : MsgFilterLoad) → Grows m m
Grows-refl m = record {
  same_length = refl;
  same_funcs = refl;
  same_tweak = refl;
  same_flags = refl;
  kept = λ i t. t;
}

pub Grows-trans : {a b c : MsgFilterLoad} → Grows a b → Grows b c → Grows a c
Grows-trans g h = record {
  same_length = h.same_length ∙ g.same_length;
  same_funcs = h.same_funcs ∙ g.same_funcs;
  same_tweak = h.same_tweak ∙ g.same_tweak;
  same_flags = h.same_flags ∙ g.same_flags;
  kept = λ i t. h.kept i (g.kept i t);
}

pub Grows-IsUsable : {a b : MsgFilterLoad} → Grows a b → IsUsable a → IsUsable b
Grows-IsUsable g u = record {
  has_bytes = omega (arith, g.same_length, u.has_bytes);
  fits = omega (arith, g.same_length, u.fits);
}

-- The bit for a hash function is set.
abbrev pub Has : ℕ → Bytes → MsgFilterLoad → Type 0
Has i bytes m = (idx : ℕ) × (hash i bytes m ≡ some idx) × (bit_at m.filter idx ≡ some true)

pub bit_at-answers :
    (f : Bytes) (idx : ℕ) → idx / 8 < length f → (b : Bool) × (bit_at f idx ≡ some b)
bit_at-answers f idx h = let (b, e) = get_elem?_inside f (idx / 8) h in (_, bit_at-of f idx b e)
