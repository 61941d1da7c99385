-- ===== src/Bloom/Spends.antt =====
-- The transactions that MatchTxAndUpdate of nogoutil/bloom/filter.go matches.
use nogocommons.Base.{
  ℕ, suc, ◌≡◌, refl, ap, sym, ◌∙◌, arith, subst, Bool, true, false, Option, none, some,
}
use nogocommons.Base.{◌+◌, List, [], ◌∷◌, Bytes, get_elem?, inl, inr, ◌||◌}
use nogocommons.Wire.Tx.{TxIn, TxOut, MsgTx}
use nogocommons.Bloom.Filter.{MsgFilterLoad, Filter, and_then, matches}
use nogocommons.Bloom.Kept.{IsUsable, Grows, Grows-IsUsable}
use nogocommons.Bloom.Found.{matches-Answers, matches-Grows, and_then-some}
use nogocommons.Bloom.Match.{
  out_point_bytes, matches_out_point, any_matches, tx_hash, match_output, match_outputs,
  match_inputs, after_outputs, match_tx_and_update, pushed_data, get_script_class,
}
use nogocommons.Bloom.Adds.{Matched-Grows}
use nogocommons.Bloom.Outputs.{HasData, Updated, OutputsAnswer, match_outputs-Answer}
use nogocommons.Bloom.Inputs.{InputMatches, match_inputs-Answer}

module _ (sum256 : Bytes → Bytes) (extract : Bytes → Option (List Bytes))
    (classify : Bytes → ℕ) where
  -- What the answer says of the hash, the outputs and the inputs.
  pub record TxAnswer (m : MsgFilterLoad) (tx : MsgTx) (m' : MsgFilterLoad) (b : Bool)
      : Type 0 where
    pub grows : Grows m m'
    pub by_hash : matches (some m) (tx_hash sum256 tx) ≡ some true → b ≡ true
    pub by_output :
        (k : ℕ) (out : TxOut)
        → get_elem? tx.tx_out k ≡ some out
        → HasData extract m out.pk_script
        → Updated m' (record { hash = tx_hash sum256 tx; index = k }) b
    pub by_input :
        (k : ℕ) (ti : TxIn) → get_elem? tx.tx_in k ≡ some ti → InputMatches extract m ti → b ≡ true

  abbrev TxAnswers : MsgFilterLoad → MsgTx → Option (Filter × Bool) → Type 0
  TxAnswers m tx o =
      (m' : MsgFilterLoad) × (b : Bool) × (o ≡ some (some m', b)) × TxAnswer m tx m' b

  InputMatches-Grows :
      (m m' : MsgFilterLoad) (ti : TxIn)
      → IsUsable m
      → Grows m m'
      → InputMatches extract m ti
      → InputMatches extract m' ti
  unfolding matches_out_point
  InputMatches-Grows m m' ti u g (inl h) =
      inl (matches-Grows (out_point_bytes ti.previous_out_point) m m' u g h)
  InputMatches-Grows m m' ti u g (inr (ds, e, w)) = inr (ds, e, Matched-Grows m m' ds u g w)

  tx_at :
      (m m' : MsgFilterLoad) (tx : MsgTx) (b b' : Bool)
      → IsUsable m
      → matches (some m) (tx_hash sum256 tx) ≡ some b
      → OutputsAnswer extract classify m (tx_hash sum256 tx) 0 tx.tx_out b m' b'
      → TxAnswers m tx (after_outputs extract (some m') tx.tx_in b')
  unfolding after_outputs
  tx_at m m' tx b true u e a = (
    m',
    true,
    refl,
    record {
      grows = a.grows;
      by_hash = λ h. refl;
      by_output = λ k out i w.
          let z : 0 + k ≡ k = omega arith in
          subst (λ j. Updated m' (record { hash = tx_hash sum256 tx; index = j }) true) z
            (a.updated k out i w);
      by_input = λ k ti e w. refl;
    },
  )
  tx_at m m' tx b false u e a =
      let (c, e', r) = match_inputs-Answer extract m' tx.tx_in (Grows-IsUsable a.grows u) in
      (
        m',
        c,
        and_then-some (match_inputs extract (some m') tx.tx_in) (λ c. some (some m', c)) c e',
        record {
          grows = a.grows;
          by_hash = λ h. absurd (ground (arith, a.keeps (ground (arith, e, h))));
          by_output = λ k out i w. absurd (ground (arith, (a.updated k out i w).0));
          by_input = λ k ti i w. r k ti i (InputMatches-Grows m m' ti u a.grows w);
        },
      )

  pub match_tx_and_update-Answers :
      (m : MsgFilterLoad) (tx : MsgTx)
      → IsUsable m
      → TxAnswers m tx (match_tx_and_update sum256 extract classify (some m) tx)
  unfolding match_tx_and_update
  match_tx_and_update-Answers m tx u =
      let hash = tx_hash sum256 tx in
      let (b, a) = matches-Answers hash m u in
      let (m', b', e', o) = match_outputs-Answer extract classify m hash 0 tx.tx_out b u in
      let inner : Filter × Bool → Option (Filter × Bool) =
        λ r. after_outputs extract r.0 tx.tx_in r.1 in
      let outer : Bool → Option (Filter × Bool) =
        λ b. and_then (match_outputs extract classify (some m) hash 0 tx.tx_out b) inner in
      subst (TxAnswers m tx)
        (sym (
          and_then-some (matches (some m) hash) outer b a.answer
          ∙ and_then-some (match_outputs extract classify (some m) hash 0 tx.tx_out b) inner
              (some m', b') e'))
        (tx_at m m' tx b b' u a.answer o)

-- The scripts have no data, as far as txscript says.
pub outputs_unchanged :
    (f : Filter) (hash : Bytes) (i : ℕ) (os : List TxOut) (b : Bool)
    → match_outputs pushed_data get_script_class f hash i os b ≡ some (f, b)
unfolding match_outputs match_output any_matches
outputs_unchanged f hash i [] b = refl
outputs_unchanged f hash i (o ∷ os) b =
    outputs_unchanged f hash (suc i) os (b || false) ∙ ap (λ c. some (f, c)) (ground arith)

and_then-first :
    {A B : Type 0} (o : Option A) (go : A → Option (B × A)) (f g : B) (b : A)
    → ((c : A) → go c ≡ some (f, c))
    → and_then o go ≡ some (g, b)
    → g ≡ f
and_then-first none go f g b e h = cc
and_then-first (some a) go f g b e h = ground (arith, e a, h)

after_outputs-unchanged :
    (f f' : Filter) (tis : List TxIn) (b c : Bool)
    → after_outputs pushed_data f tis c ≡ some (f', b)
    → f' ≡ f
unfolding after_outputs
after_outputs-unchanged f f' tis b true h = ground (arith, h)
after_outputs-unchanged f f' tis b false h =
    and_then-first (match_inputs pushed_data f tis) (λ c. some (f, c)) f f' b (λ c. refl) h

hash_unchanged :
    (f f' : Filter) (hash : Bytes) (outs : List TxOut) (tis : List TxIn) (b : Bool)
    (o : Option Bool)
    → and_then o (λ c.
      and_then
        (match_outputs pushed_data get_script_class f hash 0 outs c)
        λ r. after_outputs pushed_data r.0 tis r.1)
      ≡ some (f', b)
    → f' ≡ f
hash_unchanged f f' hash outs tis b none h = cc
hash_unchanged f f' hash outs tis b (some c) h = after_outputs-unchanged f f' tis b c (
    sym (
      and_then-some (match_outputs pushed_data get_script_class f hash 0 outs c)
        (λ r. after_outputs pushed_data r.0 tis r.1) (f, c) (outputs_unchanged f hash 0 outs c))
    ∙ h)

-- With `PushedData` and `GetScriptClass` of txscript as they stand: whatever `matchTxAndUpdate`
-- answers, it leaves the filter as it was.
pub match_tx_and_update-unchanged :
    (sum256 : Bytes → Bytes) (f f' : Filter) (tx : MsgTx) (b : Bool)
    → match_tx_and_update sum256 pushed_data get_script_class f tx ≡ some (f', b)
    → f' ≡ f
unfolding match_tx_and_update
match_tx_and_update-unchanged sum256 f f' tx b h =
    hash_unchanged f f' (tx_hash sum256 tx) tx.tx_out tx.tx_in b (matches f (tx_hash sum256 tx)) h
