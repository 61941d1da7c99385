-- ===== src/Coinset/Fewest.antt =====
-- `MinNumberCoinSelector` of nogoutil/coinset/coins.go takes as few coins as possible. How `sort.Sort`
-- orders coins of the same value is its own, so the sorting is a parameter.
use nogocommons.Base.{
  ℕ, zero, suc, ◌^◌, ◌≤◌, ◌<◌, ◌≡◌, refl, ap, sym, subst, ◌∙◌, arith, Bool, true, false,
}
use nogocommons.Base.{Option, none, some, List, [], ◌∷◌, ◌++◌, length, take, drop}
use nogocommons.Coinset.Coins.{Coin, CoinSet, coin_select}
use nogocommons.Coinset.Totals.{sum_of}
use nogocommons.Coinset.Select.{pays, IsFirst, coin_select-IsFirst}

-- `MinNumberCoinSelector.CoinSelect`
unfoldable pub coin_select_number : (List Coin → List Coin) → ℕ → ℕ → ℕ → List Coin → Option CoinSet
unfolding coin_select
coin_select_number sort_reverse max_inputs min_change target_value coins =
    coin_select max_inputs min_change target_value (sort_reverse coins)

-- The same coins in another order.
pub data Reorders : List Coin → List Coin → Type 0 where
  same_nil : Reorders [] []
  same_head : {c : Coin} {xs ys : List Coin} → Reorders xs ys → Reorders (c ∷ xs) (c ∷ ys)
  swapped : {c d : Coin} {xs : List Coin} → Reorders (c ∷ d ∷ xs) (d ∷ c ∷ xs)
  both : {xs ys zs : List Coin} → Reorders xs ys → Reorders ys zs → Reorders xs zs

abbrev pub IsDescending : List Coin → Type 0
IsDescending [] = Unit
IsDescending (c ∷ []) = Unit
IsDescending (c ∷ d ∷ cs) = (d.value ≤ c.value) × IsDescending (d ∷ cs)

-- What `sort.Sort` of `sort.Reverse` does by its documentation.
abbrev pub IsSorting : (List Coin → List Coin) → Type 0
IsSorting sort_reverse =
    (coins : List Coin) → Reorders coins (sort_reverse coins) × IsDescending (sort_reverse coins)

-- Any choice of coins.
abbrev pub pick : List Bool → List Coin → List Coin
pick [] cs = []
pick (b ∷ m) [] = []
pick (true ∷ m) (c ∷ cs) = c ∷ pick m cs
pick (false ∷ m) (c ∷ cs) = pick m cs

abbrev total : List Coin → ℕ
total = sum_of (λ c. c.value)

take-next :
    (n : ℕ) (c : Coin) (cs : List Coin)
    → IsDescending (c ∷ cs)
    → total (take n cs) ≤ total (take n (c ∷ cs))
take-next zero c cs h = omega arith
take-next (suc n) c [] h = omega arith
take-next (suc n) c (d ∷ cs) (l, h) = omega (arith, l, take-next n d cs h)

IsDescending-rest : (c : Coin) (cs : List Coin) → IsDescending (c ∷ cs) → IsDescending cs
IsDescending-rest c [] h = tt
IsDescending-rest c (d ∷ cs) h = h.1

-- No choice is worth more than as many coins from the start.
pick-take :
    (m : List Bool) (cs : List Coin)
    → IsDescending cs
    → total (pick m cs) ≤ total (take (length (pick m cs)) cs)
pick-take [] cs h = omega arith
pick-take (b ∷ m) [] h = omega arith
pick-take (true ∷ m) (c ∷ cs) h = omega (arith, pick-take m cs (IsDescending-rest c cs h))
pick-take (false ∷ m) (c ∷ cs) h =
    omega (arith, pick-take m cs (IsDescending-rest c cs h), take-next (length (pick m cs)) c cs h)

-- The same choice after a reordering.
abbrev SamePick : List Coin → List Coin → List Bool → Type 0
SamePick xs ys m =
    (m' : List Bool) × (total (pick m' ys) ≡ total (pick m xs))
    × (length (pick m' ys) ≡ length (pick m xs))

pick-Reorders : {xs ys : List Coin} → Reorders xs ys → (m : List Bool) → SamePick xs ys m
pick-Reorders same_nil [] = ([], refl, refl)
pick-Reorders same_nil (b ∷ m) = ([], refl, refl)
pick-Reorders (same_head d) [] = ([], refl, refl)
pick-Reorders (same_head d) (true ∷ m) =
    let (m', s, l) = pick-Reorders d m in (true ∷ m', omega (arith, s), omega (arith, l))
pick-Reorders (same_head d) (false ∷ m) = let (m', s, l) = pick-Reorders d m in (false ∷ m', s, l)
pick-Reorders swapped [] = ([], refl, refl)
pick-Reorders swapped (true ∷ []) = (false ∷ true ∷ [], refl, refl)
pick-Reorders swapped (false ∷ []) = ([], refl, refl)
pick-Reorders swapped (true ∷ true ∷ m) = (true ∷ true ∷ m, omega arith, refl)
pick-Reorders swapped (true ∷ false ∷ m) = (false ∷ true ∷ m, refl, refl)
pick-Reorders swapped (false ∷ true ∷ m) = (true ∷ false ∷ m, refl, refl)
pick-Reorders swapped (false ∷ false ∷ m) = (false ∷ false ∷ m, refl, refl)
pick-Reorders (both d d') m =
    let (m', s, l) = pick-Reorders d m in
    let (m'', s', l') = pick-Reorders d' m' in (m'', s' ∙ s, l' ∙ l)

-- The answered coins are among the given ones, each at most once, and their number is the least that
-- a choice paying the target can have.
abbrev pub IsFewest : ℕ → ℕ → List Coin → Option CoinSet → Type 0
IsFewest max_inputs target_value coins none =
    (m : List Bool)
    → 0 < length (pick m coins)
    → length (pick m coins) ≤ max_inputs
    → total (pick m coins) < target_value
IsFewest max_inputs target_value coins (some cs) =
    ((left : List Coin) × Reorders coins (cs.coins ++ left))
    × (length cs.coins ≤ max_inputs)
    × (target_value ≤ total cs.coins)
    × ((m : List Bool)
        → 0 < length (pick m coins)
        → length (pick m coins) < length cs.coins
        → total (pick m coins) < target_value)

total-Reorders : {xs ys : List Coin} → Reorders xs ys → total ys ≡ total xs
total-Reorders same_nil = refl
total-Reorders (same_head d) = omega (arith, total-Reorders d)
total-Reorders swapped = omega arith
total-Reorders (both d d') = total-Reorders d' ∙ total-Reorders d

length-pick : (m : List Bool) (cs : List Coin) → length (pick m cs) ≤ length cs
length-pick [] cs = omega arith
length-pick (b ∷ m) [] = omega arith
length-pick (true ∷ m) (c ∷ cs) = omega (arith, length-pick m cs)
length-pick (false ∷ m) (c ∷ cs) = omega (arith, length-pick m cs)

length-take : (n : ℕ) (cs : List Coin) → n ≤ length cs → length (take n cs) ≡ n
length-take zero cs h = refl
length-take (suc n) [] h = absurd (omega arith)
length-take (suc n) (c ∷ cs) h = omega (arith, length-take n cs (omega arith))

take-drop : (n : ℕ) (cs : List Coin) → cs ≡ take n cs ++ drop n cs
take-drop zero cs = refl
take-drop (suc n) [] = refl
take-drop (suc n) (c ∷ cs) = ap (λ ds. c ∷ ds) (take-drop n cs)

pays-false :
    (target_value : ℕ) (xs : List Coin) → pays 0 target_value xs ≡ false → total xs < target_value
pays-false target_value xs h = ground (arith, h)

pays-true :
    (target_value : ℕ) (xs : List Coin) → pays 0 target_value xs ≡ true → target_value ≤ total xs
pays-true target_value xs h = ground (arith, h)

module _ (max_inputs target_value : ℕ) (coins xs : List Coin) (r : Reorders coins xs)
    (d : IsDescending xs) where
  -- A choice that has as many coins as a start that does not pay.
  choice-lt :
      (m : List Bool)
      → ((n : ℕ)
          → n ≡ length (pick m coins)
          → n ≤ length xs
          → pays 0 target_value (take n xs) ≡ false)
      → total (pick m coins) < target_value
  choice-lt m f =
      let (m', s, l) = pick-Reorders r m in
      let n = length (pick m' xs) in
      omega (
        arith,
        s,
        pick-take m' xs d,
        pays-false target_value (take n xs) (f n l (length-pick m' xs)),
      )

  first-IsFewest :
      (answer : Option CoinSet)
      → IsFirst max_inputs (λ n. take n xs) (pays 0 target_value) (length xs) answer
      → IsFewest max_inputs target_value coins answer
  first-IsFewest none f = λ m z h. choice-lt m (λ n e l. f n (omega arith) (omega arith) l)
  first-IsFewest (some cs) (n, z, h, l, e, p, q, t) =
      let size : length cs.coins ≡ n = ap length e ∙ length-take n xs l in
      (
        (drop n xs, subst (Reorders coins) (take-drop n xs ∙ ap (λ ds. ds ++ drop n xs) (sym e)) r),
        omega (arith, size),
        omega (arith, pays-true target_value (take n xs) p, ap total e),
        (λ m y b. choice-lt m (λ k i j. q k (omega arith) (omega (arith, size)))),
      )

-- With a sorting that puts the coins in descending order of value, no least change, and sums
-- that fit into an int64: `CoinSelect` of MinNumberCoinSelector answers coins that are among the
-- given ones, each used at most once, that pay the target and are at most MaxInputs, and every
-- choice of fewer coins, at least one, is worth less than the target, so that none pays with
-- fewer; it answers an error only if every choice of at least one and at most MaxInputs coins is
-- worth less.
pub coin_select_number-IsFewest :
    (sort_reverse : List Coin → List Coin)
    → IsSorting sort_reverse
    → (max_inputs target_value : ℕ) (coins : List Coin) → target_value < 2 ^ 63
    → sum_of (λ c. c.value) coins < 2 ^ 63
    → IsFewest max_inputs target_value coins
        (coin_select_number sort_reverse max_inputs 0 target_value coins)
unfolding coin_select_number
coin_select_number-IsFewest sort_reverse laws max_inputs target_value coins h s =
    let (r, d) = laws coins in
    first-IsFewest max_inputs target_value coins (sort_reverse coins) r d
      (coin_select max_inputs 0 target_value (sort_reverse coins))
      (coin_select-IsFirst max_inputs 0 target_value (sort_reverse coins) (omega arith)
        (omega (arith, s, total-Reorders r)))
