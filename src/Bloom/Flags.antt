-- ===== src/Bloom/Flags.antt =====
-- The flags of nogoutil/bloom/merkleblock.go, written bit for bit and read again.
use nogocommons.Base.{
  ℕ, zero, suc, ◌+◌, ◌-◌, ◌*◌, ◌/◌, ◌%◌, ◌^◌, ◌≤◌, ◌<◌, ◌≡◌, ◌≢◌, refl, ap, sym, ◌∙◌, arith,
}
use nogocommons.Base.{
  Bool, true, false, Option, none, some, List, [], ◌∷◌, ◌++◌, Bytes, length, ltb, subst,
}
use nogocommons.Base.{
  get_elem?, get_elem?_inside, get_elem?-set_self, get_elem?-set_ne, set, length-set,
}
use nogocommons.Base.{replicate, length-replicate, Bool-cases, inl, inr, lt→ltb, ◌==◌}
use nogocommons.Base.Masks.{bit_and-or_self, bit_and-or_ne, bit_or-zero, zero-bit_and}
use nogocommons.Bloom.Filter.{and_then, bit_at}
use nogocommons.Bloom.Kept.{bit_at-of}
use nogocommons.Bloom.Found.{and_then-some}
use nogocommons.Bloom.Block.{bit_value, set_flags}
use native.Mathlib.Nat.{one-le-pow}
use Prim.Native.Nat.{bit_and, bit_or}

-- The bits of the flags, the lowest of each byte first.
unfoldable pub flag_bits : Bytes → ℕ → ℕ → List Bool
unfolding bit_at
flag_bits flags zero i = []
flag_bits flags (suc n) i = elim (bit_at flags i) [
  | none ↦ []
  | some b ↦ b ∷ flag_bits flags n (suc i)
]

-- The byte has the bit, and no other bit is changed.
byte_bit :
    (a k : ℕ) (b : Bool)
    → bit_and a (2 ^ k) ≡ 0
    → ltb 0 (bit_and (bit_or a (bit_value b * 2 ^ k)) (2 ^ k)) ≡ b
byte_bit a k true h =
    let e : 1 * 2 ^ k ≡ 2 ^ k = omega arith in
    ap (λ z. ltb 0 (bit_and (bit_or a z) (2 ^ k))) e
    ∙ lt→ltb 0 _ (omega (arith, bit_and-or_self a (2 ^ k), one-le-pow k 2 (omega arith)))
byte_bit a k false h =
    let e : 0 * 2 ^ k ≡ 0 = omega arith in
    ap (λ z. ltb 0 (bit_and (bit_or a z) (2 ^ k))) e
    ∙ ap (λ z. ltb 0 (bit_and z (2 ^ k))) (bit_or-zero a)
    ∙ ap (ltb 0) h

byte_other :
    (a k j : ℕ) (b : Bool)
    → k ≢ j
    → bit_and (bit_or a (bit_value b * 2 ^ k)) (2 ^ j) ≡ bit_and a (2 ^ j)
byte_other a k j true d =
    let e : 1 * 2 ^ k ≡ 2 ^ k = omega arith in
    ap (λ z. bit_and (bit_or a z) (2 ^ j)) e ∙ bit_and-or_ne k j a d
byte_other a k j false d =
    let e : 0 * 2 ^ k ≡ 0 = omega arith in
    ap (λ z. bit_and (bit_or a z) (2 ^ j)) e ∙ ap (λ z. bit_and z (2 ^ j)) (bit_or-zero a)

-- The same for the bit number `i` of a slice.
abbrev written : Bytes → ℕ → ℕ → Bool → Bytes
written flags i old b = set flags (i / 8) (bit_or old (bit_value b * 2 ^ (i % 8)))

written_bit :
    (flags : Bytes) (i old : ℕ) (b : Bool)
    → i / 8 < length flags
    → get_elem? flags (i / 8) ≡ some old
    → bit_at flags i ≡ some false
    → bit_at (written flags i old b) i ≡ some b
written_bit flags i old b l e f =
    let z : bit_and old (2 ^ (i % 8)) ≡ 0 = ground (arith, sym (bit_at-of flags i old e) ∙ f) in
    bit_at-of (written flags i old b) i (bit_or old (bit_value b * 2 ^ (i % 8)))
      (get_elem?-set_self flags (i / 8) _ l)
    ∙ ap some (byte_bit old (i % 8) b z)

written_other :
    (flags : Bytes) (i j old : ℕ) (b : Bool)
    → i / 8 < length flags
    → get_elem? flags (i / 8) ≡ some old
    → i ≢ j
    → bit_at (written flags i old b) j ≡ bit_at flags j
written_other flags i j old b l e d = elim (Bool-cases (i / 8 == j / 8)) [
  | inl t ↦
      let q : i / 8 ≡ j / 8 = ground (arith, t) in
      let k : i % 8 ≢ j % 8 = λ h. d (omega (arith, q, h)) in
      let new = bit_or old (bit_value b * 2 ^ (i % 8)) in
      bit_at-of (written flags i old b) j new (
        subst (λ z. get_elem? (written flags i old b) z ≡ some new) q
          (get_elem?-set_self flags (i / 8) new l))
      ∙ ap (λ z. some (ltb 0 z)) (byte_other old (i % 8) (j % 8) b k)
      ∙ sym (bit_at-of flags j old (subst (λ z. get_elem? flags z ≡ some old) q e))
  | inr n ↦
      let k : i / 8 ≢ j / 8 = λ h. ground (arith, n, h) in
      unfold bit_at in
      ap (λ o. and_then o (λ c. some (ltb 0 (bit_and c (2 ^ (j % 8))))))
        (get_elem?-set_ne flags (i / 8) (j / 8) _ k)
]

flag_bits-some :
    (flags : Bytes) (n i : ℕ) (b : Bool)
    → bit_at flags i ≡ some b
    → flag_bits flags (suc n) i ≡ b ∷ flag_bits flags n (suc i)
unfolding flag_bits
flag_bits-some flags n i b e =
    ap
      (λ (o : Option Bool). elim o as (λ _. List Bool) [
        | none ↦ []
        | some b ↦ b ∷ flag_bits flags n (suc i)
      ])
      e

-- From the number `i` on, no bit is set.
abbrev IsClear : Bytes → ℕ → Type 0
IsClear flags i = (j : ℕ) → i ≤ j → j < 8 * length flags → bit_at flags j ≡ some false

flag_bits-clear :
    (flags : Bytes) (k i : ℕ)
    → IsClear flags i
    → i + k ≤ 8 * length flags
    → flag_bits flags k i ≡ replicate k false
unfolding flag_bits
flag_bits-clear flags zero i c l = refl
flag_bits-clear flags (suc k) i c l =
    flag_bits-some flags k i false (c i (omega arith) (omega (arith, l)))
    ∙ ap (λ bs. false ∷ bs)
        (flag_bits-clear flags k (suc i) (λ j h h'. c j (omega (arith, h)) h') (omega (arith, l)))

-- What the loop leaves: the bits from `i` on, and those before as they were.
record IsFilled (flags flags' : Bytes) (i : ℕ) (bits : List Bool) : Type 0 where
  same_length : length flags' ≡ length flags
  before : (j : ℕ) → j < i → bit_at flags' j ≡ bit_at flags j
  after :
      (k : ℕ)
      → i + length bits + k ≤ 8 * length flags
      → flag_bits flags' (length bits + k) i ≡ bits ++ replicate k false

set_flags-IsFilled :
    (flags : Bytes) (i : ℕ) (bits : List Bool)
    → IsClear flags i
    → i + length bits ≤ 8 * length flags
    → (flags' : Bytes) × (set_flags flags i bits ≡ some flags') × IsFilled flags flags' i bits
unfolding set_flags
set_flags-IsFilled flags i [] c l = (
  flags,
  refl,
  record {
    same_length = refl;
    before = λ j h. refl;
    after = λ k h.
        let e : 0 + k ≡ k = omega arith in
        ap (λ z. flag_bits flags z i) e ∙ flag_bits-clear flags k i c (omega (arith, h));
  },
)
set_flags-IsFilled flags i (b ∷ bits) c l =
    let (old, e) = get_elem?_inside flags (i / 8) (omega (arith, l)) in
    let in_flags : i / 8 < length flags = omega (arith, l) in
    let next = written flags i old b in
    let s : length next ≡ length flags = length-set flags (i / 8) _ in
    let c' : IsClear next (suc i) = λ j h h'.
      written_other flags i j old b in_flags e (λ q. omega (arith, q, h))
      ∙ c j (omega (arith, h)) (omega (arith, h', s)) in
    let (flags', e', f) = set_flags-IsFilled next (suc i) bits c' (omega (arith, l, s)) in
    let here : bit_at flags' i ≡ some b =
      f.before i (omega arith)
      ∙ written_bit flags i old b in_flags e (c i (omega arith) (omega (arith, l))) in
    (
      flags',
      and_then-some (get_elem? flags (i / 8))
            (λ old. set_flags (written flags i old b) (suc i) bits) old e
          ∙ e',
      record {
        same_length = f.same_length ∙ s;
        before = λ j h.
            f.before j (omega (arith, h))
            ∙ written_other flags i j old b in_flags e (λ q. omega (arith, q, h));
        after = λ k h.
            let z : suc (length bits) + k ≡ suc (length bits + k) = omega arith in
            ap (λ z. flag_bits flags' z i) z
            ∙ flag_bits-some flags' (length bits + k) i b here
            ∙ ap (λ bs. b ∷ bs) (f.after k (omega (arith, h, s)));
      },
    )

get_elem?-replicate : (n i a : ℕ) → i < n → get_elem? (replicate n a) i ≡ some a
get_elem?-replicate zero i a h = absurd (omega arith)
get_elem?-replicate (suc n) zero a h = refl
get_elem?-replicate (suc n) (suc i) a h = get_elem?-replicate n i a (omega arith)

-- For as many zero bytes as the bits need: the loop that sets the flags panics nowhere and keeps
-- the number of bytes, and the bits of the bytes, the lowest first, are the given ones followed
-- by zeros.
pub set_flags-flag_bits :
    (bits : List Bool) (size : ℕ)
    → size ≡ (length bits + 7) / 8
    → (flags : Bytes) × (set_flags (replicate size 0) 0 bits ≡ some flags)
      × (length flags ≡ size)
      × (flag_bits flags (8 * size) 0 ≡ bits ++ replicate (8 * size - length bits) false)
set_flags-flag_bits bits size h =
    let empty : Bytes = replicate size 0 in
    let n : length empty ≡ size = length-replicate size 0 in
    let c : IsClear empty 0 = λ j _ l.
      bit_at-of empty j 0 (get_elem?-replicate size (j / 8) 0 (omega (arith, l, n)))
      ∙ ap (λ z. some (ltb 0 z)) (zero-bit_and (2 ^ (j % 8))) in
    let (flags, e, f) = set_flags-IsFilled empty 0 bits c (omega (arith, h, n)) in
    let z : 8 * size ≡ length bits + (8 * size - length bits) = omega (arith, h) in
    (
      flags,
      e,
      f.same_length ∙ n,
      ap (λ k. flag_bits flags k 0) z ∙ f.after (8 * size - length bits) (omega (arith, h, n)),
    )
