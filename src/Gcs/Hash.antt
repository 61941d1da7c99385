-- ===== src/Gcs/Hash.antt =====
-- `HashMatchAny` of nogoutil/gcs/gcs.go: what reading to the end collects. The zeros that fill the last
-- byte may read as differences of zero, which only repeat the last value.
use nogocommons.Base.{contains}
use nogocommons.Base.{ℕ, zero, suc, ◌-◌, ◌/◌, ◌%◌, ◌^◌, ◌≤◌, ◌<◌, ◌≡◌, ◌≢◌, refl, ap, sym, ◌∙◌}
use nogocommons.Base.{arith, Bool, true, false, ◌||◌, ◌⊎◌, inl, inr, Option, some, Bool-cases}
use nogocommons.Base.{List, [], ◌∷◌, ◌++◌, map, append_assoc, length, length-append, replicate}
use nogocommons.Base.{length-replicate, IsU64, add64, leb, ◌==◌}
use nogocommons.Gcs.Stream.{Streams, IsStreams, to_bits}
use nogocommons.Gcs.Filter.{Read, eof, got, read_full_uint64, read_quotient}
use nogocommons.Gcs.Rice.{rice, rices, Ascends, read_full_uint64-Reads, pow_pos}
use nogocommons.Gcs.MatchAny.{low32, collect}

zero_bit : (m : ℕ) → 0 < m → (0 / m % 2 == 1) ≡ false
zero_bit m h = grind arith

to_bits-zero : (n : ℕ) → to_bits n 0 ≡ replicate n false
to_bits-zero zero = refl
to_bits-zero (suc n) = ground (arith, zero_bit (2 ^ n) (pow_pos n), to_bits-zero n)

replicate-split :
    (p k : ℕ) (b : Bool) → p ≤ k → replicate k b ≡ replicate p b ++ replicate (k - p) b
replicate-split zero k b h = ap (λ n. replicate n b) (omega arith)
replicate-split (suc p) zero b h = absurd (omega arith)
replicate-split (suc p) (suc k) b h =
    let same : k - p ≡ suc k - suc p = omega arith in
    ap (λ l. b ∷ l) (replicate-split p k b (omega arith))
    ∙ ap (λ n. (b ∷ replicate p b) ++ replicate n b) same

-- A number that is there already adds none.
contains_again :
    (y x : ℕ) (values : List ℕ)
    → contains y values ≡ true
    → ((y == x) || contains x values) ≡ contains x values
contains_again y x values h = elim (Bool-cases (y == x)) [
  | inl t ↦
      let same : y ≡ x = ground (arith, t) in
      let there : contains x values ≡ true = ap (λ i. contains i values) (sym same) ∙ h in
      ground (arith, t, there)
  | inr f ↦ ground (arith, f)
]

module _ (s : Streams) (laws : IsStreams s) where
  open laws use {written, left}

  -- A zero is read, and fewer zeros are left.
  record ReadsZero (k : ℕ) (o : Read s.Reader) : Type 0 where
    behind : s.Reader
    fewer : ℕ
    zero_is : o ≡ got 0 behind
    left_is : left behind ≡ replicate fewer false
    fewer-lt : fewer < k

  read_zeros :
      (fuel p k : ℕ) (r : s.Reader)
      → left r ≡ replicate k false
      → 0 < fuel
      → (read_full_uint64 s fuel p r ≡ eof) ⊎ ReadsZero k (read_full_uint64 s fuel p r)
  unfolding read_full_uint64 read_quotient
  read_zeros zero p k r l h = absurd (omega arith)
  read_zeros (suc fuel) p zero r l h = inl (ground (arith, laws.read_bit_end r l))
  read_zeros (suc fuel) p (suc k) r l h =
      let (r', e, l') = laws.read_bit_next r false (replicate k false) l in
      elim (Bool-cases (leb p k)) [
        | inr f ↦
            let more : k < p = ground (arith, f) in
            let short =
              laws.read_bits_end r' p
                (omega (arith, more, ap length l', length-replicate k false)) in
            inl (ground (arith, e, short))
        | inl t ↦
            let whole : left r' ≡ to_bits p 0 ++ replicate (k - p) false =
              l'
              ∙ replicate-split p k false (ground (arith, t))
              ∙ ap (λ l. l ++ replicate (k - p) false) (sym (to_bits-zero p)) in
            let (r'', e', l'') =
              laws.read_bits_next r' p 0 (replicate (k - p) false) (pow_pos p) whole in
            inr (record {
              behind = r'';
              fewer = k - p;
              zero_is = ground (arith, e, e');
              left_is = l'';
              fewer-lt = omega arith;
            })
      ]

  -- The list that is collected has the numbers of `vs` and `values`.
  pub record Collects (vs values : List ℕ) (o : Option (List ℕ)) : Type 0 where
    pub all : List ℕ
    pub collected : o ≡ some all
    pub members : (x : ℕ) → contains x all ≡ (contains x vs || contains x values)

  collect_zeros :
      (rounds fuel p last k : ℕ) (r : s.Reader) (values : List ℕ)
      → left r ≡ replicate k false
      → k < rounds
      → 0 < fuel
      → IsU64 last
      → (k ≢ 0 → contains (low32 last) values ≡ true)
      → Collects [] values (collect s rounds fuel p last r values)
  unfolding collect
  collect_zeros zero fuel p last k r values l more some_fuel f c = absurd (omega arith)
  collect_zeros (suc rounds) fuel p last k r values l more some_fuel f c =
      elim (read_zeros fuel p k r l some_fuel) [
        | inl e ↦ record { all = values; collected = ground (arith, e); members = λ x. refl }
        | inr z ↦
            let same : add64 last 0 ≡ last = omega arith in
            let there = c (λ e. absurd (omega (arith, e, z.fewer-lt))) in
            let again = ap (λ n. contains (low32 n) values) same ∙ there in
            let rest =
              collect_zeros rounds fuel p (add64 last 0) z.fewer z.behind
                (low32 (add64 last 0) ∷ values) z.left_is (omega (arith, z.fewer-lt)) some_fuel
                (omega arith) (λ _. ground arith) in
            record {
              all = rest.all;
              collected = ground (arith, z.zero_is, rest.collected);
              members = λ x. rest.members x ∙ contains_again (low32 (add64 last 0)) x values again;
            }
      ]

  pub collect-Collects :
      (rounds fuel p last k : ℕ) (vs : List ℕ) (r : s.Reader) (values : List ℕ)
      → Ascends last vs
      → left r ≡ rices p last vs ++ replicate k false
      → length (left r) < rounds
      → length (left r) < fuel
      → IsU64 last
      → (length vs ≡ 0 → k ≢ 0 → contains (low32 last) values ≡ true)
      → Collects (map low32 vs) values (collect s rounds fuel p last r values)
  unfolding collect
  collect-Collects rounds fuel p last k [] r values a l more h f c =
      collect_zeros rounds fuel p last k r values l
        (omega (arith, more, ap length l, length-replicate k false)) (omega (arith, h)) f (c refl)
  collect-Collects zero fuel p last k (v ∷ vs) r values a l more h f c = absurd (omega arith)
  collect-Collects (suc rounds) fuel p last k (v ∷ vs) r values (le, fv, a) l more h f c =
      let split = l ∙ append_assoc (rice p (v - last)) (rices p v vs) (replicate k false) in
      let first =
        read_full_uint64-Reads s laws fuel p (v - last) (rices p v vs ++ replicate k false) r split
          h (omega arith) in
      let next : add64 last (v - last) ≡ v = omega arith in
      let shorter : suc (length (left first.behind)) ≤ length (left r) = omega (
        arith,
        ap length split,
        ap length first.left_is,
        length-append (rice p (v - last)) (rices p v vs ++ replicate k false),
        length-append (replicate ((v - last) / 2 ^ p) true)
            (false ∷ to_bits p ((v - last) % 2 ^ p)),
      ) in
      let rest =
        collect-Collects rounds fuel p v k vs first.behind (low32 v ∷ values) a first.left_is
          (omega (arith, shorter, more)) (omega (arith, shorter, h)) fv (λ _ _. ground arith) in
      record {
        all = rest.all;
        collected = ground (arith, first.value_is, next, rest.collected);
        members = λ x. rest.members x ∙ ground arith;
      }
