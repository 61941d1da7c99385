-- ===== src/Bloom/Adds.antt =====
-- The data that a filter of nogoutil/bloom/filter.go finds, and the outpoints that it adds.
use nogocommons.Base.{ℕ, zero, suc, ◌<◌, ◌≡◌, refl, sym, arith, subst}
use nogocommons.Base.{Bool, true, false, Option, some, List, [], ◌∷◌, ◌==◌, Bytes}
use nogocommons.Base.{get_elem?, if◌then◌else◌}
use nogocommons.Wire.Tx.{OutPoint}
use nogocommons.Bloom.Filter.{MsgFilterLoad, Filter, matches}
use nogocommons.Bloom.Kept.{IsUsable, Grows, Grows-refl}
use nogocommons.Bloom.Found.{matches-Answers, matches-Grows, add-Grows, and_then-some}
use nogocommons.Bloom.Match.{
  bloom_update_all, out_point_bytes, matches_out_point, add_out_point, any_matches,
  maybe_add_outpoint,
}

-- Some of the data is found.
abbrev pub Matched : MsgFilterLoad → List Bytes → Type 0
Matched m ds = (k : ℕ) × (d : Bytes) × (get_elem? ds k ≡ some d) × (matches (some m) d ≡ some true)

pub Matched-Grows :
    (m m' : MsgFilterLoad) (ds : List Bytes)
    → IsUsable m
    → Grows m m'
    → Matched m ds
    → Matched m' ds
Matched-Grows m m' ds u g (k, d, e, h) = (k, d, e, matches-Grows d m m' u g h)

Matched-rest :
    (m : MsgFilterLoad) (d : Bytes) (ds : List Bytes)
    → matches (some m) d ≡ some false
    → Matched m (d ∷ ds)
    → Matched m ds
Matched-rest m d ds n (zero, d', e, h) = absurd (ground (arith, n, h, e))
Matched-rest m d ds n (suc k, d', e, h) = (k, d', e, h)

-- The answer of `any_matches`, and what it says.
abbrev pub Finds : MsgFilterLoad → List Bytes → Option Bool → Type 0
Finds m ds o = (b : Bool) × (o ≡ some b) × (b ≡ true → Matched m ds) × (Matched m ds → b ≡ true)

Finds-step :
    (m : MsgFilterLoad) (d : Bytes) (ds : List Bytes) (b : Bool) (o : Option Bool)
    → matches (some m) d ≡ some b
    → Finds m ds o
    → Finds m (d ∷ ds) (elim b [ true ↦ some true | false ↦ o ])
Finds-step m d ds true o e r = (true, refl, λ h. (0, d, refl, e), λ t. refl)
Finds-step m d ds false o e (c, e', t, h) =
    (c, e', λ q. let (k, x, i, y) = t q in (suc k, x, i, y), λ w. h (Matched-rest m d ds e w))

pub any_matches-Finds :
    (m : MsgFilterLoad) (ds : List Bytes) → IsUsable m → Finds m ds (any_matches (some m) ds)
unfolding any_matches
any_matches-Finds m [] u = (false, refl, λ h. cc, λ (k, d, e, h). cc)
any_matches-Finds m (d ∷ ds) u =
    let (b, a) = matches-Answers d m u in
    let go : Bool → Option Bool =
      λ b. elim b [ true ↦ some true | false ↦ any_matches (some m) ds ] in
    subst (Finds m (d ∷ ds)) (sym (and_then-some (matches (some m) d) go b a.answer))
      (Finds-step m d ds b (any_matches (some m) ds) a.answer (any_matches-Finds m ds u))

-- The filter grows, and holds the outpoint where the flags say so.
abbrev pub Added : MsgFilterLoad → OutPoint → Bool → Option Filter → Type 0
Added m op holds o =
    (m' : MsgFilterLoad) × (o ≡ some (some m'))
    × Grows m m'
    × (holds ≡ true → matches_out_point (some m') op ≡ some true)

if_Added :
    (m : MsgFilterLoad) (op : OutPoint) (b c : Bool) (x : Option Filter)
    → Added m op true x
    → Added m op b (if b then x else if c then x else some (some m))
if_Added m op true c x a = a
if_Added m op false true x (m', e, g, h) = (m', e, g, λ q. cc)
if_Added m op false false x a = (m, refl, Grows-refl m, λ q. cc)

pub maybe_add_outpoint-Added :
    (classify : Bytes → ℕ) (m : MsgFilterLoad) (script hash : Bytes) (idx : ℕ)
    → IsUsable m
    → 0 < m.hash_funcs
    → Added m
        (record { hash = hash; index = idx })
        (m.flags == bloom_update_all)
        (maybe_add_outpoint classify (some m) script hash idx)
unfolding maybe_add_outpoint add_out_point matches_out_point
maybe_add_outpoint-Added classify m script hash idx u f =
    let op : OutPoint = record { hash = hash; index = idx } in
    let (m', e, g, h) = add-Grows (out_point_bytes op) m u in
    if_Added m op (m.flags == bloom_update_all) _ (add_out_point (some m) op) (m', e, g, λ q. h f)
