-- ===== src/Bloom/Outputs.antt =====
-- The loop over the outputs in MatchTxAndUpdate of nogoutil/bloom/filter.go.
use nogocommons.Base.{ℕ, zero, suc, ◌+◌, ◌<◌, ◌≡◌, refl, sym, ◌∙◌, arith, subst}
use nogocommons.Base.{Bool, true, false, ◌||◌, Option, none, some, List, [], ◌∷◌, Bytes}
use nogocommons.Base.{get_elem?}
use nogocommons.Wire.Tx.{OutPoint, TxOut}
use nogocommons.Bloom.Filter.{MsgFilterLoad, Filter, and_then}
use nogocommons.Bloom.Kept.{IsUsable, Grows, Grows-refl, Grows-trans, Grows-IsUsable}
use nogocommons.Bloom.Found.{matches-Grows, and_then-some, matches-HasFrom}
use nogocommons.Bloom.Match.{
  bloom_update_all, out_point_bytes, matches_out_point, any_matches, maybe_add_outpoint,
  match_output, match_outputs,
}
use nogocommons.Bloom.Adds.{Matched, Matched-Grows, any_matches-Finds, maybe_add_outpoint-Added}

-- The script has data that the filter finds.
abbrev pub HasData : (Bytes → Option (List Bytes)) → MsgFilterLoad → Bytes → Type 0
HasData extract m script = (ds : List Bytes) × (extract script ≡ some ds) × Matched m ds

-- A match of the output in the list, and its outpoint in the filter.
abbrev pub Updated : MsgFilterLoad → OutPoint → Bool → Type 0
Updated m' op b =
    (b ≡ true) × (m'.flags ≡ bloom_update_all → matches_out_point (some m') op ≡ some true)

module _ (extract : Bytes → Option (List Bytes)) (classify : Bytes → ℕ) where
  pub record OutputAnswer (m : MsgFilterLoad) (op : OutPoint) (script : Bytes) (m' : MsgFilterLoad)
      (b : Bool) : Type 0 where
    pub grows : Grows m m'
    pub updated : HasData extract m script → Updated m' op b

  abbrev OneOutput : MsgFilterLoad → OutPoint → Bytes → Option (Filter × Bool) → Type 0
  OneOutput m op script o =
      (m' : MsgFilterLoad) × (b : Bool) × (o ≡ some (some m', b)) × OutputAnswer m op script m' b

  Matched-funcs :
      (m : MsgFilterLoad) (ds : List Bytes) → IsUsable m → Matched m ds → 0 < m.hash_funcs
  Matched-funcs m ds u (k, d, e, h) = (matches-HasFrom d m u h).0

  output_at :
      (m : MsgFilterLoad) (script hash : Bytes) (i : ℕ) (ds : List Bytes) (b : Bool)
      → IsUsable m
      → extract script ≡ some ds
      → (b ≡ true → Matched m ds)
      → (Matched m ds → b ≡ true)
      → OneOutput m
          (record { hash = hash; index = i })
          script
          (elim b [
            | false ↦ some (some m, false)
            | true ↦
                and_then (maybe_add_outpoint classify (some m) script hash i) λ f'. some (f', true)
          ])
  output_at m script hash i ds false u e t h = (
    m,
    false,
    refl,
    record {
      grows = Grows-refl m;
      updated = λ (ds', e', w).
          let s : ds' ≡ ds = ground (arith, e, e') in
          let q = h (subst (Matched m) s w) in (q, λ fl. absurd (ground (arith, q)));
    },
  )
  output_at m script hash i ds true u e t h =
      let (m', e', g, a) =
        maybe_add_outpoint-Added classify m script hash i u (Matched-funcs m ds u (t refl)) in
      (
        m',
        true,
        and_then-some (maybe_add_outpoint classify (some m) script hash i) (λ f'. some (f', true))
            (some m') e',
        record { grows = g; updated = λ w. (refl, λ fl. a (ground (arith, fl, g.same_flags))) },
      )

  output_of :
      (m : MsgFilterLoad) (script hash : Bytes) (i : ℕ) (o : Option (List Bytes))
      → IsUsable m
      → extract script ≡ o
      → OneOutput m
          (record { hash = hash; index = i })
          script
          (elim o [
            | none ↦ some (some m, false)
            | some ds ↦ and_then (any_matches (some m) ds) λ b. elim b [
              | false ↦ some (some m, false)
              | true ↦
                  and_then
                    (maybe_add_outpoint classify (some m) script hash i)
                    λ f'. some (f', true)
            ]
          ])
  output_of m script hash i none u e = (
    m,
    false,
    refl,
    record { grows = Grows-refl m; updated = λ (ds', e', w). absurd (ground (arith, e, e')) },
  )
  output_of m script hash i (some ds) u e =
      let (b, e', t, h) = any_matches-Finds m ds u in
      let go : Bool → Option (Filter × Bool) = λ b. elim b [
        | false ↦ some (some m, false)
        | true ↦ and_then (maybe_add_outpoint classify (some m) script hash i) λ f'. some (f', true)
      ] in
      subst (OneOutput m (record { hash = hash; index = i }) script)
        (sym (and_then-some (any_matches (some m) ds) go b e'))
        (output_at m script hash i ds b u e t h)

  match_output-One :
      (m : MsgFilterLoad) (hash : Bytes) (i : ℕ) (out : TxOut)
      → IsUsable m
      → OneOutput m
          (record { hash = hash; index = i })
          out.pk_script
          (match_output extract classify (some m) hash i out)
  unfolding match_output
  match_output-One m hash i out u = output_of m out.pk_script hash i (extract out.pk_script) u refl

  -- Each output of the list from the number `i` on.
  pub record OutputsAnswer (m : MsgFilterLoad) (hash : Bytes) (i : ℕ) (os : List TxOut)
      (matched : Bool) (m' : MsgFilterLoad) (b : Bool) : Type 0 where
    pub grows : Grows m m'
    pub keeps : matched ≡ true → b ≡ true
    pub updated :
        (k : ℕ) (out : TxOut)
        → get_elem? os k ≡ some out
        → HasData extract m out.pk_script
        → Updated m' (record { hash = hash; index = i + k }) b

  HasData-Grows :
      (m m' : MsgFilterLoad) (script : Bytes)
      → IsUsable m
      → Grows m m'
      → HasData extract m script
      → HasData extract m' script
  HasData-Grows m m' script u g (ds, e, w) = (ds, e, Matched-Grows m m' ds u g w)

  Updated-cons :
      (m m1 m2 : MsgFilterLoad) (hash : Bytes) (i : ℕ) (o : TxOut) (os : List TxOut)
      (matched b1 b2 : Bool)
      → IsUsable m
      → OutputAnswer m (record { hash = hash; index = i }) o.pk_script m1 b1
      → OutputsAnswer m1 hash (suc i) os (matched || b1) m2 b2
      → (k : ℕ) (out : TxOut) → get_elem? (o ∷ os) k ≡ some out
      → HasData extract m out.pk_script
      → Updated m2 (record { hash = hash; index = i + k }) b2
  unfolding matches_out_point
  Updated-cons m m1 m2 hash i o os matched b1 b2 u a1 a2 zero out e w =
      let q : o ≡ out = ground (arith, e) in
      let (t, h) = a1.updated (subst (λ x. HasData extract m x.pk_script) (sym q) w) in
      let op : ℕ → OutPoint = λ j. record { hash = hash; index = j } in
      let z : i ≡ i + 0 = omega arith in
      let same : m2.flags ≡ m1.flags = a2.grows.same_flags in
      subst (λ j. Updated m2 (op j) b2) z
        (
          a2.keeps (ground (arith, t)),
          λ fl.
              matches-Grows (out_point_bytes (op i)) m1 m2 (Grows-IsUsable a1.grows u) a2.grows
                (h (sym same ∙ fl)),
        )
  Updated-cons m m1 m2 hash i o os matched b1 b2 u a1 a2 (suc k) out e w =
      let op : ℕ → OutPoint = λ j. record { hash = hash; index = j } in
      let j : suc i + k ≡ i + suc k = omega arith in
      subst (λ j. Updated m2 (op j) b2) j
        (a2.updated k out e (HasData-Grows m m1 out.pk_script u a1.grows w))

  pub match_outputs-Answer :
      (m : MsgFilterLoad) (hash : Bytes) (i : ℕ) (os : List TxOut) (matched : Bool)
      → IsUsable m
      → (m' : MsgFilterLoad) × (b : Bool) × (match_outputs extract classify
            (some m)
            hash
            i
            os
            matched
          ≡ some (some m', b))
        × OutputsAnswer m hash i os matched m' b
  unfolding match_outputs
  match_outputs-Answer m hash i [] matched u =
      (m, matched, refl, record { grows = Grows-refl m; keeps = λ h. h; updated = λ k out e w. cc })
  match_outputs-Answer m hash i (o ∷ os) matched u =
      let (m1, b1, e1, a1) = match_output-One m hash i o u in
      let u1 = Grows-IsUsable a1.grows u in
      let (m2, b2, e2, a2) = match_outputs-Answer m1 hash (suc i) os (matched || b1) u1 in
      (
        m2,
        b2,
        and_then-some (match_output extract classify (some m) hash i o)
              (λ r. match_outputs extract classify r.0 hash (suc i) os (matched || r.1))
              (some m1, b1) e1
            ∙ e2,
        record {
          grows = Grows-trans a1.grows a2.grows;
          keeps = λ h. a2.keeps (ground (arith, h));
          updated = Updated-cons m m1 m2 hash i o os matched b1 b2 u a1 a2;
        },
      )
