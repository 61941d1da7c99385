-- ===== src/Bloom/Found.antt =====
-- A filter of nogoutil/bloom/filter.go finds what was added to it.
use nogocommons.Base.{ℕ, zero, suc, ◌<◌, ◌≡◌, refl, ap, sym, ◌∙◌, arith, subst}
use nogocommons.Base.{Bool, true, false, ◌&&◌, Option, none, some, ltb, Bytes}
use nogocommons.Base.{lt→ltb, ltb→lt}
use nogocommons.Bloom.Filter.{
  MsgFilterLoad, hash, bit_at, set_bit_at, and_then, matches_from, matches, add_from, add,
}
use nogocommons.Bloom.Kept.{
  IsUsable, Grows, Has, hash-fits, hash-same, set_bit_at-Grows, Grows-refl, Grows-trans,
  Grows-IsUsable, bit_at-answers,
}

pub Has-Grows :
    (i : ℕ) (bytes : Bytes) (m m' : MsgFilterLoad) → Grows m m' → Has i bytes m → Has i bytes m'
Has-Grows i bytes m m' g (idx, e, t) = (idx, hash-same i bytes m m' g ∙ e, g.kept idx t)

-- The bits for so many hash functions from `i` on.
abbrev pub HasFrom : ℕ → ℕ → Bytes → MsgFilterLoad → Type 0
HasFrom zero i bytes m = Unit
HasFrom (suc n) i bytes m = Has i bytes m × HasFrom n (suc i) bytes m

pub HasFrom-Grows :
    (n i : ℕ) (bytes : Bytes) (m m' : MsgFilterLoad)
    → Grows m m'
    → HasFrom n i bytes m
    → HasFrom n i bytes m'
HasFrom-Grows zero i bytes m m' g h = tt
HasFrom-Grows (suc n) i bytes m m' g (h, hs) =
    (Has-Grows i bytes m m' g h, HasFrom-Grows n (suc i) bytes m m' g hs)

pub and_then-some :
    {A B : Type 0} (o : Option A) (f : A → Option B) (a : A) → o ≡ some a → and_then o f ≡ f a
and_then-some o f a e = ap (λ t. and_then t f) e

add_from-Grows :
    (n i : ℕ) (bytes : Bytes) (m : MsgFilterLoad)
    → IsUsable m
    → (m' : MsgFilterLoad) × (add_from n i bytes m ≡ some m') × Grows m m' × HasFrom n i bytes m'
unfolding add_from
add_from-Grows zero i bytes m u = (m, refl, Grows-refl m, tt)
add_from-Grows (suc n) i bytes m u =
    let (idx, e, l) = hash-fits i bytes m u in
    let (m1, e1, g1, t1) = set_bit_at-Grows m idx l in
    let (m2, e2, g2, h2) = add_from-Grows n (suc i) bytes m1 (Grows-IsUsable g1 u) in
    (
      m2,
      and_then-some (hash i bytes m) _ idx e ∙ and_then-some (set_bit_at m idx) _ m1 e1 ∙ e2,
      Grows-trans g1 g2,
      (Has-Grows i bytes m1 m2 g2 (idx, hash-same i bytes m m1 g1 ∙ e, t1), h2),
    )

matches_from-HasFrom :
    (n i : ℕ) (bytes : Bytes) (m : MsgFilterLoad)
    → HasFrom n i bytes m
    → matches_from n i bytes m ≡ some true
unfolding matches_from
matches_from-HasFrom zero i bytes m h = refl
matches_from-HasFrom (suc n) i bytes m ((idx, e, t), hs) =
    and_then-some (hash i bytes m) _ idx e
    ∙ and_then-some (bit_at m.filter idx) _ true t
    ∙ matches_from-HasFrom n (suc i) bytes m hs

-- The answer is no panic, and says that the bits are set.
abbrev Tells : ℕ → ℕ → Bytes → MsgFilterLoad → Option Bool → Type 0
Tells n i bytes m none = ⊥
Tells n i bytes m (some true) = HasFrom n i bytes m
Tells n i bytes m (some false) = Unit

Tells-round :
    (n i : ℕ) (bytes : Bytes) (m : MsgFilterLoad) (idx : ℕ) (b : Bool) (r : Option Bool)
    → hash i bytes m ≡ some idx
    → bit_at m.filter idx ≡ some b
    → Tells n (suc i) bytes m r
    → Tells (suc n) i bytes m (elim b [ false ↦ some false | true ↦ r ])
Tells-round n i bytes m idx false r e t h = tt
Tells-round n i bytes m idx true none e t h = elim h [ ]
Tells-round n i bytes m idx true (some false) e t h = tt
Tells-round n i bytes m idx true (some true) e t h = ((idx, e, t), h)

matches_from-Tells :
    (n i : ℕ) (bytes : Bytes) (m : MsgFilterLoad)
    → IsUsable m
    → Tells n i bytes m (matches_from n i bytes m)
unfolding matches_from
matches_from-Tells zero i bytes m u = tt
matches_from-Tells (suc n) i bytes m u =
    let (idx, e, l) = hash-fits i bytes m u in
    let (b, t) = bit_at-answers m.filter idx l in
    let r = matches_from n (suc i) bytes m in
    subst (Tells (suc n) i bytes m)
      (sym (
        and_then-some (hash i bytes m)
          (λ x. and_then (bit_at m.filter x) λ b. elim b [ false ↦ some false | true ↦ r ]) idx e
        ∙ and_then-some (bit_at m.filter idx) (λ b. elim b [ false ↦ some false | true ↦ r ]) b t))
      (Tells-round n i bytes m idx b r e t (matches_from-Tells n (suc i) bytes m u))

-- What `matches` answers for a filter that is loaded.
pub record Answers (bytes : Bytes) (m : MsgFilterLoad) (b : Bool) : Type 0 where
  pub answer : matches (some m) bytes ≡ some b
  pub set_bits : b ≡ true → HasFrom m.hash_funcs 0 bytes m
  pub some_funcs : b ≡ true → 0 < m.hash_funcs

matches-of :
    (bytes : Bytes) (m : MsgFilterLoad) (o : Option Bool)
    → matches_from m.hash_funcs 0 bytes m ≡ o
    → Tells m.hash_funcs 0 bytes m o
    → (b : Bool) × Answers bytes m b
unfolding matches
matches-of bytes m none e t = elim t [ ]
matches-of bytes m (some false) e t = (
  false,
  record {
    answer = ap (λ o. and_then o (λ b. some (b && ltb 0 m.hash_funcs))) e;
    set_bits = λ h. cc;
    some_funcs = λ h. cc;
  },
)
matches-of bytes m (some true) e t = (
  ltb 0 m.hash_funcs,
  record {
    answer = ap (λ o. and_then o (λ b. some (b && ltb 0 m.hash_funcs))) e;
    set_bits = λ h. t;
    some_funcs = λ h. ltb→lt 0 m.hash_funcs h;
  },
)

pub matches-Answers :
    (bytes : Bytes) (m : MsgFilterLoad) → IsUsable m → (b : Bool) × Answers bytes m b
matches-Answers bytes m u =
    matches-of bytes m (matches_from m.hash_funcs 0 bytes m) refl
      (matches_from-Tells m.hash_funcs 0 bytes m u)

pub HasFrom-matches :
    (bytes : Bytes) (m : MsgFilterLoad)
    → 0 < m.hash_funcs
    → HasFrom m.hash_funcs 0 bytes m
    → matches (some m) bytes ≡ some true
unfolding matches
HasFrom-matches bytes m f h =
    ap (λ o. and_then o (λ b. some (b && ltb 0 m.hash_funcs)))
      (matches_from-HasFrom m.hash_funcs 0 bytes m h)
    ∙ ap some (lt→ltb 0 m.hash_funcs f)

pub matches-HasFrom :
    (bytes : Bytes) (m : MsgFilterLoad)
    → IsUsable m
    → matches (some m) bytes ≡ some true
    → (0 < m.hash_funcs) × HasFrom m.hash_funcs 0 bytes m
matches-HasFrom bytes m u h =
    let (b, a) = matches-Answers bytes m u in
    let e : b ≡ true = ground (arith, h, a.answer) in (a.some_funcs e, a.set_bits e)

-- A match stays one while bits are set.
pub matches-Grows :
    (bytes : Bytes) (m m' : MsgFilterLoad)
    → IsUsable m
    → Grows m m'
    → matches (some m) bytes ≡ some true
    → matches (some m') bytes ≡ some true
matches-Grows bytes m m' u g h =
    let (f, hs) = matches-HasFrom bytes m u h in
    HasFrom-matches bytes m' (subst (λ n. 0 < n) (sym g.same_funcs) f) (
      subst (λ n. HasFrom n 0 bytes m') (sym g.same_funcs)
        (HasFrom-Grows m.hash_funcs 0 bytes m m' g hs))

pub add-Grows :
    (bytes : Bytes) (m : MsgFilterLoad)
    → IsUsable m
    → (m' : MsgFilterLoad) × (add (some m) bytes ≡ some (some m'))
      × Grows m m'
      × (0 < m.hash_funcs → matches (some m') bytes ≡ some true)
unfolding add
add-Grows bytes m u =
    let (m', e, g, h) = add_from-Grows m.hash_funcs 0 bytes m u in
    (
      m',
      and_then-some (add_from m.hash_funcs 0 bytes m) (λ x. some (some x)) m' e,
      g,
      λ f.
          HasFrom-matches bytes m' (subst (λ n. 0 < n) (sym g.same_funcs) f)
            (subst (λ n. HasFrom n 0 bytes m') (sym g.same_funcs) h),
    )
