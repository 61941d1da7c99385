-- ===== src/Gcs/Rice.antt =====
-- The Golomb-Rice code of nogoutil/gcs/gcs.go: the bits of a value, written and read back.
use nogocommons.Base.{ℕ, zero, suc, ◌+◌, ◌-◌, ◌*◌, ◌/◌, ◌%◌, ◌^◌, ◌≤◌, ◌<◌, ◌≡◌, refl, ap, sym, ◌∙◌}
use nogocommons.Base.{arith, Bool, true, false, List, [], ◌∷◌, ◌++◌, append_assoc}
use nogocommons.Base.{
  length, length-append, replicate, length-replicate, u64_mod, IsU64, sub64, add64,
}
use nogocommons.Base.{append-nil}
use nogocommons.Gcs.Stream.{Streams, IsStreams, to_bits}
use nogocommons.Gcs.Filter.{Read, got, write_ones, write_value, write_values, read_quotient}
use nogocommons.Gcs.Filter.{read_full_uint64}

-- The code of one value, and of an ascending list of values by their differences.
abbrev pub rice : ℕ → ℕ → List Bool
rice p v = replicate (v / 2 ^ p) true ++ (false ∷ to_bits p (v % 2 ^ p))

abbrev pub rices : ℕ → ℕ → List ℕ → List Bool
rices p last [] = []
rices p last (v ∷ vs) = rice p (v - last) ++ rices p v vs

-- The values ascend from `last` on and have 64 bits.
abbrev pub Ascends : ℕ → List ℕ → Type 0
Ascends last [] = Unit
Ascends last (v ∷ vs) = (last ≤ v) × IsU64 v × Ascends v vs

pub pow_pos : (p : ℕ) → 0 < 2 ^ p
pow_pos zero = omega arith
pow_pos (suc p) = omega (arith, pow_pos p)

quotient_of_rest : (d m : ℕ) → 0 < m → (d - d % m) / m ≡ d / m
quotient_of_rest d m h = grind arith

remainder-le : (d m : ℕ) → 0 < m → d % m ≤ d
remainder-le d m h = grind arith

remainder-lt : (d p : ℕ) → d % 2 ^ p < 2 ^ p
remainder-lt d p = grind (arith, pow_pos p)

put_together : (d m : ℕ) → 0 < m → d / m * m + d % m ≡ d
put_together d m h = grind arith

quotient_fits : (d m : ℕ) → 0 < m → IsU64 d → IsU64 (0 + d / m)
quotient_fits d m h f = grind arith

zero-add : (n : ℕ) → 0 + n ≡ n
zero-add n = omega arith

assembled : (a b v : ℕ) → a + b ≡ v → IsU64 v → add64 (a % u64_mod) b ≡ v
assembled a b v e f = omega arith

pub length-to_bits : (n v : ℕ) → length (to_bits n v) ≡ n
length-to_bits zero v = refl
length-to_bits (suc n) v = ap suc (length-to_bits n v)

replicate-snoc :
    (n : ℕ) (b : Bool) (bs : List Bool) → replicate n b ++ (b ∷ bs) ≡ b ∷ (replicate n b ++ bs)
replicate-snoc zero b bs = refl
replicate-snoc (suc n) b bs = ap (λ l. b ∷ l) (replicate-snoc n b bs)

module _ (s : Streams) (laws : IsStreams s) where
  open laws use {written, left}

  written-write_ones :
      (n : ℕ) (w : s.Writer) → written (write_ones s n w) ≡ written w ++ replicate n true
  unfolding write_ones
  written-write_ones zero w = sym (append-nil (written w))
  written-write_ones (suc n) w =
      written-write_ones n (s.write_bit w true)
      ∙ ap (λ l. l ++ replicate n true) (laws.written-write_bit w true)
      ∙ append_assoc (written w) (true ∷ []) (replicate n true)

  pub written-write_value :
      (p d : ℕ) (w : s.Writer) → IsU64 d → written (write_value s p d w) ≡ written w ++ rice p d
  unfolding write_value
  written-write_value p d w h =
      let small = remainder-le d (2 ^ p) (pow_pos p) in
      let rest : sub64 d (d % 2 ^ p) / 2 ^ p ≡ d / 2 ^ p =
        ap (λ x. x / 2 ^ p) (omega (arith, small, h)) ∙ quotient_of_rest d (2 ^ p) (pow_pos p) in
      let ones = write_ones s (sub64 d (d % 2 ^ p) / 2 ^ p) w in
      laws.written-write_bits (s.write_bit ones false) (d % 2 ^ p) p
      ∙ ap (λ l. l ++ to_bits p (d % 2 ^ p))
          (laws.written-write_bit ones false
            ∙ ap (λ l. l ++ (false ∷ []))
                (written-write_ones (sub64 d (d % 2 ^ p) / 2 ^ p) w
                  ∙ ap (λ n. written w ++ replicate n true) rest))
      ∙ simp append_assoc

  pub written-write_values :
      (p last : ℕ) (vs : List ℕ) (w : s.Writer)
      → Ascends last vs
      → written (write_values s p last vs w) ≡ written w ++ rices p last vs
  unfolding write_values
  written-write_values p last [] w h = sym (append-nil (written w))
  written-write_values p last (v ∷ vs) w (le, fits, h) =
      let delta : sub64 v last ≡ v - last = omega (arith, le, fits) in
      written-write_values p v vs (write_value s p (sub64 v last) w) h
      ∙ ap (λ l. l ++ rices p v vs)
          (written-write_value p (sub64 v last) w (omega (arith, delta, fits))
            ∙ ap (λ d. written w ++ rice p d) delta)
      ∙ append_assoc (written w) (rice p (v - last)) (rices p v vs)

  -- The value is read, and the bits behind it are left.
  pub record Reads (v : ℕ) (bs : List Bool) (o : Read s.Reader) : Type 0 where
    pub behind : s.Reader
    pub value_is : o ≡ got v behind
    pub left_is : left behind ≡ bs

  read_quotient-Reads :
      (fuel q n : ℕ) (bs : List Bool) (r : s.Reader)
      → left r ≡ replicate n true ++ (false ∷ bs)
      → n < fuel
      → IsU64 (q + n)
      → Reads (q + n) bs (read_quotient s fuel q r)
  unfolding read_quotient
  read_quotient-Reads zero q n bs r l h f = absurd (omega arith)
  read_quotient-Reads (suc fuel) q zero bs r l h f =
      let (r', e, l') = laws.read_bit_next r false bs l in
      record { behind = r'; value_is = ground (arith, e); left_is = l' }
  read_quotient-Reads (suc fuel) q (suc n) bs r l h f =
      let (r', e, l') = laws.read_bit_next r true (replicate n true ++ (false ∷ bs)) l in
      let rest = read_quotient-Reads fuel (add64 q 1) n bs r' l' (omega arith) (omega arith) in
      let sum : add64 q 1 + n ≡ q + suc n = omega arith in
      record {
        behind = rest.behind;
        value_is = ground (arith, e, rest.value_is, sum);
        left_is = rest.left_is;
      }

  pub read_full_uint64-Reads :
      (fuel p v : ℕ) (bs : List Bool) (r : s.Reader)
      → left r ≡ rice p v ++ bs
      → length (left r) < fuel
      → IsU64 v
      → Reads v bs (read_full_uint64 s fuel p r)
  unfolding read_full_uint64
  read_full_uint64-Reads fuel p v bs r l h f =
      let rem = v % 2 ^ p in
      let q = v / 2 ^ p in
      let whole = put_together v (2 ^ p) (pow_pos p) in
      let few : q < fuel = omega (
        arith,
        h,
        ap length l,
        length-append (rice p v) bs,
        length-append (replicate q true) (false ∷ to_bits p rem),
        length-replicate q true,
      ) in
      let ones =
        read_quotient-Reads fuel 0 q (to_bits p rem ++ bs) r
          (l ∙ append_assoc (replicate q true) (false ∷ to_bits p rem) bs) few
          (quotient_fits v (2 ^ p) (pow_pos p) f) in
      let (r', e, l') = laws.read_bits_next ones.behind p rem bs (remainder-lt v p) ones.left_is in
      record {
        behind = r';
        value_is = ground (
          arith,
          ones.value_is,
          e,
          assembled (q * 2 ^ p) rem v whole f,
          ap (λ x. add64 (x * 2 ^ p % u64_mod) rem) (zero-add q),
        );
        left_is = l';
      }
