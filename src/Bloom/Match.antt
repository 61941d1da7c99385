-- ===== src/Bloom/Match.antt =====
-- nogoutil/bloom/filter.go: the transactions that a filter matches, and the outpoints that it then adds.
-- The hash function sha256 is a parameter. What txscript takes out of a script is one too, since that
-- package has placeholders only, which stand below.
use nogocommons.Base.{
  ℕ, suc, Bool, true, false, ◌&&◌, ◌||◌, Option, none, some, List, [], ◌∷◌, ◌++◌, Bytes, ◌==◌,
}
use nogocommons.Base.{if◌then◌else◌}
use nogocommons.Wire.Number.{put_le}
use nogocommons.Wire.Tx.{OutPoint, TxIn, TxOut, MsgTx, Encoding, encode_tx}
use nogocommons.Bloom.Filter.{Filter, and_then, matches, add}

abbrev pub bloom_update_all : ℕ
bloom_update_all = 1

abbrev pub bloom_update_p2pubkey_only : ℕ
bloom_update_p2pubkey_only = 2

abbrev pub pub_key_ty : ℕ
pub_key_ty = 1

abbrev pub multi_sig_ty : ℕ
multi_sig_ty = 6

-- `PushedData` and `GetScriptClass` of txscript, as they stand.
abbrev pub pushed_data : Bytes → Option (List Bytes)
pushed_data script = some []

abbrev pub get_script_class : Bytes → ℕ
get_script_class script = 0

unfoldable pub out_point_bytes : OutPoint → Bytes
out_point_bytes op = op.hash ++ put_le 4 op.index

unfoldable pub matches_out_point : Filter → OutPoint → Option Bool
unfolding out_point_bytes
matches_out_point f op = matches f (out_point_bytes op)

unfoldable pub add_out_point : Filter → OutPoint → Option Filter
unfolding out_point_bytes
add_out_point f op = add f (out_point_bytes op)

-- The loop over the data of a script, up to the first that matches.
unfoldable pub any_matches : Filter → List Bytes → Option Bool
any_matches f [] = some false
any_matches f (d ∷ ds) =
    and_then (matches f d) λ b. elim b [ true ↦ some true | false ↦ any_matches f ds ]

module _ (sum256 : Bytes → Bytes) where
  -- `Hash` of a transaction whose raw bytes are not kept.
  unfoldable pub tx_hash : MsgTx → Bytes
  tx_hash tx = sum256 (sum256 (encode_tx Encoding.base_encoding tx))

module _ (classify : Bytes → ℕ) where
  unfoldable pub maybe_add_outpoint : Filter → Bytes → Bytes → ℕ → Option Filter
  unfolding add_out_point
  maybe_add_outpoint none pk_script hash idx = none
  maybe_add_outpoint (some m) pk_script hash idx =
      let added = add_out_point (some m) (record { hash = hash; index = idx }) in
      if m.flags == bloom_update_all
      then added
      else if (m.flags == bloom_update_p2pubkey_only)
          && ((classify pk_script == pub_key_ty) || (classify pk_script == multi_sig_ty))
      then added
      else some (some m)

module _ (extract : Bytes → Option (List Bytes)) (classify : Bytes → ℕ) where
  -- One output: whether it matches, and the filter then.
  unfoldable pub match_output : Filter → Bytes → ℕ → TxOut → Option (Filter × Bool)
  unfolding any_matches maybe_add_outpoint
  match_output f hash i out = elim (extract out.pk_script) [
    | none ↦ some (f, false)
    | some ds ↦ and_then (any_matches f ds) λ b. elim b [
      | false ↦ some (f, false)
      | true ↦ and_then (maybe_add_outpoint classify f out.pk_script hash i) λ f'. some (f', true)
    ]
  ]

  unfoldable pub match_outputs : Filter → Bytes → ℕ → List TxOut → Bool → Option (Filter × Bool)
  unfolding match_output
  match_outputs f hash i [] matched = some (f, matched)
  match_outputs f hash i (o ∷ os) matched =
      and_then (match_output f hash i o) λ r. match_outputs r.0 hash (suc i) os (matched || r.1)

module _ (extract : Bytes → Option (List Bytes)) where
  unfoldable pub match_input : Filter → TxIn → Option Bool
  unfolding any_matches matches_out_point
  match_input f ti = and_then (matches_out_point f ti.previous_out_point) λ b. elim b [
    | true ↦ some true
    | false ↦ elim (extract ti.signature_script) [ none ↦ some false | some ds ↦ any_matches f ds ]
  ]

  unfoldable pub match_inputs : Filter → List TxIn → Option Bool
  unfolding match_input
  match_inputs f [] = some false
  match_inputs f (ti ∷ tis) =
      and_then (match_input f ti) λ b. elim b [ true ↦ some true | false ↦ match_inputs f tis ]

  -- The inputs are looked at only where nothing matched before.
  unfoldable pub after_outputs : Filter → List TxIn → Bool → Option (Filter × Bool)
  unfolding match_inputs
  after_outputs f tis true = some (f, true)
  after_outputs f tis false = and_then (match_inputs f tis) λ c. some (f, c)

module _ (sum256 : Bytes → Bytes) (extract : Bytes → Option (List Bytes))
    (classify : Bytes → ℕ) where
  unfoldable pub match_tx_and_update : Filter → MsgTx → Option (Filter × Bool)
  unfolding tx_hash match_outputs after_outputs
  match_tx_and_update f tx = and_then (matches f (tx_hash sum256 tx)) λ b.
      and_then (match_outputs extract classify f (tx_hash sum256 tx) 0 tx.tx_out b)
        λ r. after_outputs extract r.0 tx.tx_in r.1
