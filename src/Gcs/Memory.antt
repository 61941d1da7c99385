-- ===== src/Gcs/Memory.antt =====
-- Streams of bits in memory and a hash, with the behaviour that nogoutil/gcs relies on.
use nogocommons.Base.{
  ℕ, zero, suc, ◌+◌, ◌*◌, ◌/◌, ◌%◌, ◌^◌, ◌≤◌, ◌<◌, ◌≡◌, refl, ap, sym, ◌∙◌, arith,
}
use nogocommons.Base.{Bool, true, false, Option, none, some, ◌==◌, u64_mod}
use nogocommons.Base.{List, [], ◌∷◌, ◌++◌, length, length-append, replicate, Bytes}
use nogocommons.Gcs.Stream.{Streams, IsStreams, to_bits}
use native.Mathlib.Nat.{div-add-mod', mod-lt, mod-eq_of_lt, mul-add-mod_self_left}
use nogocommons.Gcs.Rice.{length-to_bits, pow_pos}

abbrev bit : Bool → ℕ
bit true = 1
bit false = 0

unfoldable pub byte_of : Bool → Bool → Bool → Bool → Bool → Bool → Bool → Bool → ℕ
byte_of a b c d e f g h =
    bit a * 128 + bit b * 64 + bit c * 32 + bit d * 16 + bit e * 8 + bit f * 4 + bit g * 2 + bit h

unfoldable pub pack : List Bool → Bytes
unfolding byte_of
pack [] = []
pack (a ∷ []) = byte_of a false false false false false false false ∷ []
pack (a ∷ b ∷ []) = byte_of a b false false false false false false ∷ []
pack (a ∷ b ∷ c ∷ []) = byte_of a b c false false false false false ∷ []
pack (a ∷ b ∷ c ∷ d ∷ []) = byte_of a b c d false false false false ∷ []
pack (a ∷ b ∷ c ∷ d ∷ e ∷ []) = byte_of a b c d e false false false ∷ []
pack (a ∷ b ∷ c ∷ d ∷ e ∷ f ∷ []) = byte_of a b c d e f false false ∷ []
pack (a ∷ b ∷ c ∷ d ∷ e ∷ f ∷ g ∷ []) = byte_of a b c d e f g false ∷ []
pack (a ∷ b ∷ c ∷ d ∷ e ∷ f ∷ g ∷ h ∷ l) = byte_of a b c d e f g h ∷ pack l

fill : List Bool → ℕ
fill [] = 0
fill (a ∷ []) = 7
fill (a ∷ b ∷ []) = 6
fill (a ∷ b ∷ c ∷ []) = 5
fill (a ∷ b ∷ c ∷ d ∷ []) = 4
fill (a ∷ b ∷ c ∷ d ∷ e ∷ []) = 3
fill (a ∷ b ∷ c ∷ d ∷ e ∷ f ∷ []) = 2
fill (a ∷ b ∷ c ∷ d ∷ e ∷ f ∷ g ∷ []) = 1
fill (a ∷ b ∷ c ∷ d ∷ e ∷ f ∷ g ∷ h ∷ l) = fill l

unfoldable pub unpack : Bytes → List Bool
unpack [] = []
unpack (x ∷ xs) = to_bits 8 x ++ unpack xs

bit-le : (b : Bool) → bit b ≤ 1
bit-le true = omega arith
bit-le false = omega arith

set_bit : (x : ℕ) (b : Bool) → x ≡ bit b → (x == 1) ≡ b
set_bit x true h = ground arith
set_bit x false h = ground arith

cons_eq : {x y : Bool} {xs ys : List Bool} → x ≡ y → xs ≡ ys → x ∷ xs ≡ y ∷ ys
cons_eq p q = cc

to_bits-byte_of :
    (a b c d e f g h : Bool)
    → to_bits 8 (byte_of a b c d e f g h) ≡ a ∷ b ∷ c ∷ d ∷ e ∷ f ∷ g ∷ h ∷ []
unfolding byte_of
to_bits-byte_of a b c d e f g h =
    let la = bit-le a in
    let lb = bit-le b in
    let lc = bit-le c in
    let ld = bit-le d in
    let le = bit-le e in
    let lf = bit-le f in
    let lg = bit-le g in
    let lh = bit-le h in
    cons_eq (set_bit _ a (omega arith)) (
      cons_eq (set_bit _ b (omega arith)) (
        cons_eq (set_bit _ c (omega arith)) (
          cons_eq (set_bit _ d (omega arith)) (
            cons_eq (set_bit _ e (omega arith)) (
              cons_eq (set_bit _ f (omega arith)) (
                cons_eq (set_bit _ g (omega arith)) (cons_eq (set_bit _ h (omega arith)) refl)))))))

unpack-pack : (l : List Bool) → unpack (pack l) ≡ l ++ replicate (fill l) false
unfolding pack unpack fill
unpack-pack [] = refl
unpack-pack (a ∷ []) =
    ap (λ l. l ++ []) (to_bits-byte_of a false false false false false false false)
unpack-pack (a ∷ b ∷ []) =
    ap (λ l. l ++ []) (to_bits-byte_of a b false false false false false false)
unpack-pack (a ∷ b ∷ c ∷ []) =
    ap (λ l. l ++ []) (to_bits-byte_of a b c false false false false false)
unpack-pack (a ∷ b ∷ c ∷ d ∷ []) =
    ap (λ l. l ++ []) (to_bits-byte_of a b c d false false false false)
unpack-pack (a ∷ b ∷ c ∷ d ∷ e ∷ []) =
    ap (λ l. l ++ []) (to_bits-byte_of a b c d e false false false)
unpack-pack (a ∷ b ∷ c ∷ d ∷ e ∷ f ∷ []) =
    ap (λ l. l ++ []) (to_bits-byte_of a b c d e f false false)
unpack-pack (a ∷ b ∷ c ∷ d ∷ e ∷ f ∷ g ∷ []) =
    ap (λ l. l ++ []) (to_bits-byte_of a b c d e f g false)
unpack-pack (a ∷ b ∷ c ∷ d ∷ e ∷ f ∷ g ∷ h ∷ l) =
    ap (λ x. x ++ unpack (pack l)) (to_bits-byte_of a b c d e f g h)
    ∙ ap (λ x. a ∷ b ∷ c ∷ d ∷ e ∷ f ∷ g ∷ h ∷ x) (unpack-pack l)

length-unpack : (bs : Bytes) → length (unpack bs) ≡ 8 * length bs
unfolding unpack
length-unpack [] = refl
length-unpack (x ∷ bs) =
    omega (arith, length-append (to_bits 8 x) (unpack bs), length-to_bits 8 x, length-unpack bs)

unfoldable pub next_bit : List Bool → Option (Bool × List Bool)
next_bit [] = none
next_bit (b ∷ l) = some (b, l)

unfoldable pub next_bits : List Bool → ℕ → Option (ℕ × List Bool)
next_bits l zero = some (0, l)
next_bits [] (suc n) = none
next_bits (b ∷ l) (suc n) = elim (next_bits l n) [
  | none ↦ none
  | some (v, l') ↦ some (bit b * 2 ^ n + v, l')
]

doubled : (q m : ℕ) → q * m ≡ (2 * (q / 2) + q % 2) * m
doubled q m = ap (λ x. x * m) (omega arith)

below_double : (a m r : ℕ) → a ≤ 1 → r < m → a * m + r < 2 * m
below_double zero m r ha hr = omega arith
below_double (suc zero) m r ha hr = omega arith
below_double (suc (suc a)) m r ha hr = absurd (omega arith)

top_bit : (v m : ℕ) → 0 < m → bit (v / m % 2 == 1) * m + v % m ≡ v % (2 * m)
top_bit v m h =
    let q = v / m in
    let t = q % 2 * m + v % m in
    let bit_is : bit (q % 2 == 1) ≡ q % 2 = ground arith in
    let whole : v ≡ 2 * m * (q / 2) + t =
      sym (div-add-mod' v m) ∙ ap (λ x. x + v % m) (doubled q m) ∙ grind arith in
    let small : t < 2 * m = below_double (q % 2) m (v % m) (omega arith) (mod-lt v h) in
    ap (λ x. x * m + v % m) bit_is
    ∙ sym (mod-eq_of_lt small)
    ∙ sym (mul-add-mod_self_left (2 * m) (q / 2) t)
    ∙ ap (λ x. x % (2 * m)) (sym whole)

next_bits-to_bits : (n v : ℕ) (l : List Bool) → next_bits (to_bits n v ++ l) n ≡ some (v % 2 ^ n, l)
unfolding next_bits
next_bits-to_bits zero v l = ground arith
next_bits-to_bits (suc n) v l =
    ground (arith, next_bits-to_bits n v l, top_bit v (2 ^ n) (pow_pos n))

next_bits_end : (l : List Bool) (n : ℕ) → length l < n → next_bits l n ≡ none
unfolding next_bits
next_bits_end l zero h = absurd (omega arith)
next_bits_end [] (suc n) h = refl
next_bits_end (b ∷ l) (suc n) h = ground (arith, next_bits_end l n)

abbrev pub memory : Streams
memory = record {
  Writer = List Bool;
  new_writer = [];
  write_bit = λ w b. w ++ (b ∷ []);
  write_bits = λ w v n. w ++ to_bits n v;
  bytes = pack;
  Reader = List Bool;
  new_reader = unpack;
  read_bit = next_bit;
  read_bits = next_bits;
  sum64 = λ d key. length d * 0x123456789abcdef % u64_mod;
}

next_bits_next :
    (r : List Bool) (n v : ℕ) (bs : List Bool)
    → v < 2 ^ n
    → r ≡ to_bits n v ++ bs
    → (r' : List Bool) × (next_bits r n ≡ some (v, r')) × (r' ≡ bs)
next_bits_next r n v bs h e = (
  bs,
  ap (λ l. next_bits l n) e ∙ next_bits-to_bits n v bs ∙ ap (λ x. some (x, bs)) (mod-eq_of_lt h),
  refl,
)

next_bit_next :
    (r : List Bool) (b : Bool) (bs : List Bool)
    → r ≡ b ∷ bs
    → (r' : List Bool) × (next_bit r ≡ some (b, r')) × (r' ≡ bs)
unfolding next_bit
next_bit_next r b bs e = (bs, ap next_bit e, refl)

next_bit_end : (r : List Bool) → r ≡ [] → next_bit r ≡ none
unfolding next_bit
next_bit_end r e = ap next_bit e

pub memory-IsStreams : IsStreams memory
memory-IsStreams = record {
  written = λ w. w;
  left = λ r. r;
  written-new_writer = refl;
  written-write_bit = λ w b. refl;
  written-write_bits = λ w v n. refl;
  left-new_reader = length-unpack;
  padding = fill;
  left-bytes = unpack-pack;
  read_bit_next = next_bit_next;
  read_bit_end = next_bit_end;
  read_bits_next = next_bits_next;
  read_bits_end = next_bits_end;
  sum64-IsU64 = λ d key. omega arith;
}
