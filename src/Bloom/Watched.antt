-- ===== src/Bloom/Watched.antt =====
-- Which transactions `matchTxAndUpdate` of nogoutil/bloom/filter.go finds, with the placeholders of txscript.
use nogocommons.Base.{ℕ, suc, ◌≡◌, refl, sym, ◌∙◌, Bool, true, false, Option, none, some}
use nogocommons.Base.{List, [], ◌∷◌, Bytes, get_elem?, ◌⊎◌, inl, inr, arith, ap}
use nogocommons.Wire.Tx.{TxIn, MsgTx}
use nogocommons.Bloom.Filter.{MsgFilterLoad, Filter, and_then, matches}
use nogocommons.Bloom.Kept.{IsUsable}
use nogocommons.Bloom.Found.{and_then-some}
use nogocommons.Bloom.Match.{
  matches_out_point, any_matches, tx_hash, match_input, match_outputs, match_inputs, after_outputs,
  match_tx_and_update, pushed_data, get_script_class,
}
use nogocommons.Bloom.Spends.{
  match_tx_and_update-Answers, outputs_unchanged, match_tx_and_update-unchanged,
}

-- Some input spends an outpoint that the filter matches.
abbrev pub SpendsWatched : Filter → List TxIn → Type 0
SpendsWatched f tis =
    (k : ℕ) × (ti : TxIn) × (get_elem? tis k ≡ some ti)
    × (matches_out_point f ti.previous_out_point ≡ some true)

-- The filter matches the hash of the transaction or an outpoint that it spends.
abbrev pub IsWatched : (Bytes → Bytes) → Filter → MsgTx → Type 0
IsWatched sum256 f tx = (matches f (tx_hash sum256 tx) ≡ some true) ⊎ SpendsWatched f tx.tx_in

-- The answer is right.
abbrev pub Tells : (Bytes → Bytes) → Filter → MsgTx → Bool → Type 0
Tells sum256 f tx true = IsWatched sum256 f tx
Tells sum256 f tx false = ¬ IsWatched sum256 f tx

first_or_rest :
    (f : Filter) (ti : TxIn) (tis : List TxIn) (o : Option Bool)
    → matches_out_point f ti.previous_out_point ≡ o
    → and_then
        (and_then o (λ b. elim b [ true ↦ some true | false ↦ some false ]))
        (λ b. elim b [ true ↦ some true | false ↦ match_inputs pushed_data f tis ])
      ≡ some true
    → (match_inputs pushed_data f tis ≡ some true → SpendsWatched f tis)
    → SpendsWatched f (ti ∷ tis)
first_or_rest f ti tis none e h r = cc
first_or_rest f ti tis (some true) e h r = (0, ti, refl, e)
first_or_rest f ti tis (some false) e h r = let (k, ti', g, w) = r h in (suc k, ti', g, w)

match_inputs-SpendsWatched :
    (f : Filter) (tis : List TxIn)
    → match_inputs pushed_data f tis ≡ some true
    → SpendsWatched f tis
unfolding match_inputs match_input any_matches
match_inputs-SpendsWatched f [] h = cc
match_inputs-SpendsWatched f (ti ∷ tis) h =
    first_or_rest f ti tis (matches_out_point f ti.previous_out_point) refl h
      (match_inputs-SpendsWatched f tis)

and_then-true :
    (o : Option Bool) (f f' : Filter)
    → and_then {B = Filter × Bool} o (λ c. some (f, c)) ≡ some (f', true)
    → o ≡ some true
and_then-true none f f' h = cc
and_then-true (some b) f f' h = cc

found_by :
    (sum256 : Bytes → Bytes) (f f' : Filter) (tx : MsgTx) (o : Option Bool)
    → matches f (tx_hash sum256 tx) ≡ o
    → and_then o (λ b.
      and_then
        (match_outputs pushed_data get_script_class f (tx_hash sum256 tx) 0 tx.tx_out b)
        λ r. after_outputs pushed_data r.0 tx.tx_in r.1)
      ≡ some (f', true)
    → IsWatched sum256 f tx
unfolding after_outputs
found_by sum256 f f' tx none e h = cc
found_by sum256 f f' tx (some true) e h = inl e
found_by sum256 f f' tx (some false) e h = inr (
    match_inputs-SpendsWatched f tx.tx_in (
      and_then-true (match_inputs pushed_data f tx.tx_in) f f' (
        sym (
          and_then-some
            (match_outputs pushed_data get_script_class f (tx_hash sum256 tx) 0 tx.tx_out false)
            (λ r. after_outputs pushed_data r.0 tx.tx_in r.1) (f, false)
            (outputs_unchanged f (tx_hash sum256 tx) 0 tx.tx_out false))
        ∙ h)))

match_tx_and_update-IsWatched :
    (sum256 : Bytes → Bytes) (f f' : Filter) (tx : MsgTx)
    → match_tx_and_update sum256 pushed_data get_script_class f tx ≡ some (f', true)
    → IsWatched sum256 f tx
unfolding match_tx_and_update
match_tx_and_update-IsWatched sum256 f f' tx h =
    found_by sum256 f f' tx (matches f (tx_hash sum256 tx)) refl h

told :
    (sum256 : Bytes → Bytes) (m m' : MsgFilterLoad) (tx : MsgTx) (b : Bool)
    → match_tx_and_update sum256 pushed_data get_script_class (some m) tx ≡ some (some m', b)
    → (IsWatched sum256 (some m) tx → b ≡ true)
    → Tells sum256 (some m) tx b
told sum256 m m' tx true e c = match_tx_and_update-IsWatched sum256 (some m) (some m') tx e
told sum256 m m' tx false e c = λ w. absurd (ground (arith, c w))

-- With `PushedData` and `GetScriptClass` of txscript as they stand, for any sha256 and a loaded
-- filter with bytes, fewer than 2^29: `matchTxAndUpdate` panics nowhere and leaves the filter as
-- it was; where it answers true, the filter matches the hash of the transaction or the outpoint
-- of some input, and where it answers false, it matches neither the hash nor the outpoint of any
-- input.
pub match_tx_and_update-Tells :
    (sum256 : Bytes → Bytes) (m : MsgFilterLoad) (tx : MsgTx)
    → IsUsable m
    → (b : Bool) × (match_tx_and_update sum256 pushed_data get_script_class (some m) tx
        ≡ some (some m, b))
      × Tells sum256 (some m) tx b
match_tx_and_update-Tells sum256 m tx u =
    let (m', b, e, a) = match_tx_and_update-Answers sum256 pushed_data get_script_class m tx u in
    let same = match_tx_and_update-unchanged sum256 (some m) (some m') tx b e in
    let complete : IsWatched sum256 (some m) tx → b ≡ true =
      λ w. elim w [ inl h ↦ a.by_hash h | inr (k, ti, g, h) ↦ a.by_input k ti g (inl h) ] in
    (b, e ∙ ap (λ f. some (f, b)) same, told sum256 m m' tx b e complete)
