-- ===== src/Bloom/Inputs.antt =====
-- The loop over the inputs in MatchTxAndUpdate of nogoutil/bloom/filter.go.
use nogocommons.Base.{ℕ, zero, suc, ◌≡◌, refl, sym, arith, subst}
use nogocommons.Base.{Bool, true, false, Option, none, some, List, [], ◌∷◌, Bytes}
use nogocommons.Base.{get_elem?, ◌⊎◌, inl, inr}
use nogocommons.Wire.Tx.{TxIn}
use nogocommons.Bloom.Filter.{MsgFilterLoad}
use nogocommons.Bloom.Kept.{IsUsable}
use nogocommons.Bloom.Found.{matches-Answers, and_then-some}
use nogocommons.Bloom.Match.{
  out_point_bytes, matches_out_point, any_matches, match_input, match_inputs,
}
use nogocommons.Bloom.Adds.{Matched, any_matches-Finds}
use nogocommons.Bloom.Outputs.{HasData}

module _ (extract : Bytes → Option (List Bytes)) where
  -- An input that matches by its outpoint or by its data.
  abbrev pub InputMatches : MsgFilterLoad → TxIn → Type 0
  InputMatches m ti =
      (matches_out_point (some m) ti.previous_out_point ≡ some true)
      ⊎ HasData extract m ti.signature_script

  abbrev OneInput : MsgFilterLoad → TxIn → Option Bool → Type 0
  OneInput m ti o = (b : Bool) × (o ≡ some b) × (InputMatches m ti → b ≡ true)

  input_of :
      (m : MsgFilterLoad) (ti : TxIn) (b : Bool) (o : Option (List Bytes))
      → IsUsable m
      → matches_out_point (some m) ti.previous_out_point ≡ some b
      → extract ti.signature_script ≡ o
      → OneInput m ti (elim b [
        | true ↦ some true
        | false ↦ elim o [ none ↦ some false | some ds ↦ any_matches (some m) ds ]
      ])
  input_of m ti true o u e x = (true, refl, λ w. refl)
  input_of m ti false none u e x = (false, refl, no_data)
    where
      no_data : InputMatches m ti → false ≡ true
      no_data (inl p) = ground (arith, p, e)
      no_data (inr (ds, p, w)) = ground (arith, p, x)
  input_of m ti false (some ds) u e x =
      let (b, e', t, h) = any_matches-Finds m ds u in (b, e', data_found m ti ds b e x h)
    where
      data_found :
          (m : MsgFilterLoad) (ti : TxIn) (ds : List Bytes) (b : Bool)
          → matches_out_point (some m) ti.previous_out_point ≡ some false
          → extract ti.signature_script ≡ some ds
          → (Matched m ds → b ≡ true)
          → InputMatches m ti
          → b ≡ true
      data_found m ti ds b e x h (inl p) = ground (arith, p, e)
      data_found m ti ds b e x h (inr (ds', p, w)) =
          let s : ds' ≡ ds = ground (arith, p, x) in h (subst (Matched m) s w)

  match_input-One :
      (m : MsgFilterLoad) (ti : TxIn) → IsUsable m → OneInput m ti (match_input extract (some m) ti)
  unfolding match_input matches_out_point
  match_input-One m ti u =
      let (b, a) = matches-Answers (out_point_bytes ti.previous_out_point) m u in
      let go : Bool → Option Bool = λ b. elim b [
        | true ↦ some true
        | false ↦ elim (extract ti.signature_script) [
          | none ↦ some false
          | some ds ↦ any_matches (some m) ds
        ]
      ] in
      subst (OneInput m ti)
        (sym (and_then-some (matches_out_point (some m) ti.previous_out_point) go b a.answer))
        (input_of m ti b (extract ti.signature_script) u a.answer refl)

  -- The inputs, with what the answer says of each.
  abbrev pub Inputs : MsgFilterLoad → List TxIn → Option Bool → Type 0
  Inputs m tis o =
      (b : Bool) × (o ≡ some b)
      × ((k : ℕ) (ti : TxIn) → get_elem? tis k ≡ some ti → InputMatches m ti → b ≡ true)

  Inputs-step :
      (m : MsgFilterLoad) (ti : TxIn) (tis : List TxIn) (b : Bool) (o : Option Bool)
      → (InputMatches m ti → b ≡ true)
      → Inputs m tis o
      → Inputs m (ti ∷ tis) (elim b [ true ↦ some true | false ↦ o ])
  Inputs-step m ti tis true o h r = (true, refl, λ k ti' e w. refl)
  Inputs-step m ti tis false o h (c, e, r) = (c, e, at)
    where
      at : (k : ℕ) (ti' : TxIn) → get_elem? (ti ∷ tis) k ≡ some ti' → InputMatches m ti' → c ≡ true
      at zero ti' e w =
          let q : ti ≡ ti' = ground (arith, e) in
          absurd (ground (arith, h (subst (InputMatches m) (sym q) w)))
      at (suc k) ti' e w = r k ti' e w

  pub match_inputs-Answer :
      (m : MsgFilterLoad) (tis : List TxIn)
      → IsUsable m
      → Inputs m tis (match_inputs extract (some m) tis)
  unfolding match_inputs
  match_inputs-Answer m [] u = (false, refl, λ k ti e w. cc)
  match_inputs-Answer m (ti ∷ tis) u =
      let (b, e, h) = match_input-One m ti u in
      let go : Bool → Option Bool =
        λ b. elim b [ true ↦ some true | false ↦ match_inputs extract (some m) tis ] in
      subst (Inputs m (ti ∷ tis)) (sym (and_then-some (match_input extract (some m) ti) go b e))
        (Inputs-step m ti tis b (match_inputs extract (some m) tis) h (match_inputs-Answer m tis u))
