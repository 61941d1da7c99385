-- ===== src/Coinset/Select.antt =====
-- What `MinIndexCoinSelector` of nogoutil/coinset/coins.go selects.
use nogocommons.Base.{
  ℕ, zero, suc, ◌+◌, ◌^◌, ◌≤◌, ◌<◌, ◌≡◌, refl, sym, ◌∙◌, subst, arith, Bool, true, false,
}
use nogocommons.Base.{◌||◌, Option, none, some, List, [], ◌∷◌, ◌++◌, length, take, append_assoc}
use nogocommons.Base.{◌==◌, leb, Bool-cases, inl, inr}
use nogocommons.Coinset.Coins.{
  Coin, CoinSet, empty_set, push_coin, new_coin_set, push_coins, satisfies_target_value,
  select_from, coin_select,
}
use nogocommons.Coinset.Totals.{
  sum_of, sum_of-append, IsTotalled, push_coin-IsTotalled, empty_set-IsTotalled,
}

-- The coins pay the target exactly, or with enough change.
abbrev pub pays : ℕ → ℕ → List Coin → Bool
pays min_change target_value coins =
    let total = sum_of (λ c. c.value) coins in
    (total == target_value) || leb (target_value + min_change) total

-- The result is the shortest start of the coins that pays, if one of at most so many coins does.
abbrev pub IsFirst : ℕ → (ℕ → List Coin) → (List Coin → Bool) → ℕ → Option CoinSet → Type 0
IsFirst max_inputs start ok count none =
    (n : ℕ) → 0 < n → n ≤ max_inputs → n ≤ count → ok (start n) ≡ false
IsFirst max_inputs start ok count (some cs) =
    (n : ℕ) × (0 < n)
    × (n ≤ max_inputs)
    × (n ≤ count)
    × (cs.coins ≡ start n)
    × (ok (start n) ≡ true)
    × ((k : ℕ) → 0 < k → k < n → ok (start k) ≡ false)
    × IsTotalled cs

-- What is false of the first start and of the later ones up to a number.
none_before :
    (p : ℕ → Bool) (b : ℕ)
    → p 1 ≡ false
    → ((k : ℕ) → 0 < k → k < b → p (suc k) ≡ false)
    → (k : ℕ) → 0 < k
    → k < suc b
    → p k ≡ false
none_before p b f h zero z l = absurd (omega arith)
none_before p b f h (suc zero) z l = f
none_before p b f h (suc (suc k)) z l = h (suc k) (omega arith) (omega arith)

-- One more coin in front: what holds from there on holds from here on.
IsFirst-suc :
    (max_inputs : ℕ) (start : ℕ → List Coin) (ok : List Coin → Bool) (count : ℕ)
    (r : Option CoinSet)
    → ok (start 1) ≡ false
    → IsFirst max_inputs (λ n. start (suc n)) ok count r
    → IsFirst (suc max_inputs) start ok (suc count) r
IsFirst-suc max_inputs start ok count none f h = λ n z m l.
    none_before (λ k. ok (start k)) n f (λ k y b. h k y (omega arith) (omega arith)) n z
      (omega arith)
IsFirst-suc max_inputs start ok count (some cs) f (n, z, m, l, e, p, q, t) =
    (suc n, omega arith, omega arith, omega arith, e, p, none_before (λ k. ok (start k)) n f q, t)

-- The test of the code, where no sum overflows.
satisfies-pays :
    (min_change target_value : ℕ) (cs : CoinSet)
    → IsTotalled cs
    → sum_of (λ c. c.value) cs.coins < 2 ^ 63
    → target_value + min_change < 2 ^ 63
    → satisfies_target_value target_value min_change cs.total_value
      ≡ pays min_change target_value cs.coins
unfolding satisfies_target_value
satisfies-pays min_change target_value cs t s h = ground (arith, t.value_at, s, h)

module _ (min_change target_value : ℕ) (h : target_value + min_change < 2 ^ 63) where
  select_from-IsFirst :
      (max_inputs : ℕ) (cs : CoinSet) (rest : List Coin)
      → IsTotalled cs
      → sum_of (λ c. c.value) (cs.coins ++ rest) < 2 ^ 63
      → IsFirst max_inputs
          (λ n. cs.coins ++ take n rest)
          (pays min_change target_value)
          (length rest)
          (select_from max_inputs min_change target_value cs rest)
  unfolding select_from push_coin
  select_from-IsFirst zero cs [] t s = λ n z m l. absurd (omega arith)
  select_from-IsFirst (suc max_inputs) cs [] t s = λ n z m l. absurd (omega arith)
  select_from-IsFirst zero cs (c ∷ rest) t s = λ n z m l. absurd (omega arith)
  select_from-IsFirst (suc max_inputs) cs (c ∷ rest) t s =
      let cs' = push_coin c cs in
      let t' = push_coin-IsTotalled c cs t in
      let moved : cs'.coins ++ rest ≡ cs.coins ++ (c ∷ rest) =
        append_assoc cs.coins (c ∷ []) rest in
      let later =
        select_from-IsFirst max_inputs cs' rest t'
          (subst (λ xs. sum_of (λ c. c.value) xs < 2 ^ 63) (sym moved) s) in
      let ok = pays min_change target_value in
      let small = subst (λ xs. sum_of (λ c. c.value) xs < 2 ^ 63) (sym moved) s in
      let tested =
        satisfies-pays min_change target_value cs' t'
          (omega (arith, sum_of-append (λ c. c.value) cs'.coins rest, small)) h in
      elim (Bool-cases (satisfies_target_value target_value min_change cs'.total_value)) [
        | inl y ↦ rw y (
          1,
          omega arith,
          omega arith,
          omega arith,
          refl,
          sym tested ∙ y,
          (λ k z l. absurd (omega arith)),
          t',
        )
        | inr n ↦ rw n (
            IsFirst-suc max_inputs (λ k. cs.coins ++ take k (c ∷ rest)) ok (length rest)
              (select_from max_inputs min_change target_value cs' rest) (sym tested ∙ n)
              (subst
                (λ start.
                  IsFirst max_inputs start ok (length rest)
                    (select_from max_inputs min_change target_value cs' rest))
                (λ i k. append_assoc cs.coins (c ∷ []) (take k rest) i) later))
      ]

-- For amounts whose sums fit into an int64: `CoinSelect` of MinIndexCoinSelector answers the
-- shortest start of the coins, of at least one and at most MaxInputs coins, that pays the target
-- exactly or with at least the least change, with right totals; and it answers an error only if
-- no such start pays.
pub coin_select-IsFirst :
    (max_inputs min_change target_value : ℕ) (coins : List Coin)
    → target_value + min_change < 2 ^ 63
    → sum_of (λ c. c.value) coins < 2 ^ 63
    → IsFirst max_inputs
        (λ n. take n coins)
        (pays min_change target_value)
        (length coins)
        (coin_select max_inputs min_change target_value coins)
unfolding coin_select new_coin_set push_coins
coin_select-IsFirst max_inputs min_change target_value coins h s =
    select_from-IsFirst min_change target_value h max_inputs empty_set coins empty_set-IsTotalled s
