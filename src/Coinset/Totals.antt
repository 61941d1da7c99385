-- ===== src/Coinset/Totals.antt =====
-- The totals of a coin set of nogoutil/coinset/coins.go are those of its coins.
use nogocommons.Base.{ℕ, ◌+◌, ◌%◌, ◌≡◌, refl, ap, arith, Option, none, some, List, [], ◌∷◌, ◌++◌}
use nogocommons.Base.{u64_mod}
use nogocommons.Coinset.Coins.{
  Coin, CoinSet, empty_set, push_coin, remove_element, split_last, split_first, take_out, pop_coin,
  shift_coin, push_coins, new_coin_set,
}

abbrev pub sum_of : (Coin → ℕ) → List Coin → ℕ
sum_of f [] = 0
sum_of f (c ∷ cs) = f c + sum_of f cs

pub record IsTotalled (cs : CoinSet) : Type 0 where
  pub value_at : cs.total_value ≡ sum_of (λ c. c.value) cs.coins % u64_mod
  pub value_age_at : cs.total_value_age ≡ sum_of (λ c. c.value_age) cs.coins % u64_mod

pub sum_of-append :
    (f : Coin → ℕ) (xs ys : List Coin) → sum_of f (xs ++ ys) ≡ sum_of f xs + sum_of f ys
sum_of-append f [] ys = omega arith
sum_of-append f (x ∷ xs) ys = omega (arith, sum_of-append f xs ys)

-- What a split leaves: the last coin and the others.
abbrev Leaves : List Coin → Option (List Coin × Coin) → Type 0
Leaves xs none = Unit
Leaves xs (some (left, c)) = (f : Coin → ℕ) → sum_of f xs ≡ f c + sum_of f left

Leaves-cons :
    (x : Coin) (xs : List Coin) (o : Option (List Coin × Coin))
    → Leaves xs o
    → (o ≡ none → xs ≡ [])
    → Leaves (x ∷ xs) (elim o [ none ↦ some ([], x) | some (r, l) ↦ some (x ∷ r, l) ])
Leaves-cons x xs none h e = λ f. ap (λ t. f x + sum_of f t) (e refl)
Leaves-cons x xs (some (r, l)) h e = λ f. omega (arith, h f)

split_last-none : (xs : List Coin) → split_last xs ≡ none → xs ≡ []
unfolding split_last
split_last-none [] h = refl
split_last-none (x ∷ xs) h = ground (arith, h)

split_last-Leaves : (xs : List Coin) → Leaves xs (split_last xs)
unfolding split_last
split_last-Leaves [] = tt
split_last-Leaves (x ∷ xs) =
    Leaves-cons x xs (split_last xs) (split_last-Leaves xs) (split_last-none xs)

pub push_coin-IsTotalled : (c : Coin) (cs : CoinSet) → IsTotalled cs → IsTotalled (push_coin c cs)
unfolding push_coin
push_coin-IsTotalled c cs t = record {
  value_at = omega (arith, t.value_at, sum_of-append (λ c. c.value) cs.coins (c ∷ []));
  value_age_at = omega (arith, t.value_age_at, sum_of-append (λ c. c.value_age) cs.coins (c ∷ []));
}

-- A coin is taken out, with the other coins left.
remove_element-IsTotalled :
    (left : List Coin) (c : Coin) (cs : CoinSet)
    → ((f : Coin → ℕ) → sum_of f cs.coins ≡ f c + sum_of f left)
    → IsTotalled cs
    → IsTotalled (remove_element left c cs)
unfolding remove_element
remove_element-IsTotalled left c cs s t = record {
  value_at = omega (arith, t.value_at, s (λ c. c.value));
  value_age_at = omega (arith, t.value_age_at, s (λ c. c.value_age));
}

take_out-IsTotalled :
    (cs : CoinSet) (o : Option (List Coin × Coin))
    → Leaves cs.coins o
    → IsTotalled cs
    → IsTotalled (take_out cs o).0
unfolding take_out
take_out-IsTotalled cs none h t = t
take_out-IsTotalled cs (some (left, c)) h t = remove_element-IsTotalled left c cs h t

pop_coin-IsTotalled : (cs : CoinSet) → IsTotalled cs → IsTotalled (pop_coin cs).0
unfolding pop_coin
pop_coin-IsTotalled cs t =
    take_out-IsTotalled cs (split_last cs.coins) (split_last-Leaves cs.coins) t

split_first-Leaves : (xs : List Coin) → Leaves xs (split_first xs)
unfolding split_first
split_first-Leaves [] = tt
split_first-Leaves (x ∷ xs) = λ f. refl

shift_coin-IsTotalled : (cs : CoinSet) → IsTotalled cs → IsTotalled (shift_coin cs).0
unfolding shift_coin
shift_coin-IsTotalled cs t =
    take_out-IsTotalled cs (split_first cs.coins) (split_first-Leaves cs.coins) t

-- What is done with a set.
pub data SetOp : Type 0 where
  push : (c : Coin) → SetOp
  pop : SetOp
  shift : SetOp

unfoldable pub run_op : SetOp → CoinSet → CoinSet
unfolding push_coin pop_coin shift_coin
run_op (push c) cs = push_coin c cs
run_op pop cs = (pop_coin cs).0
run_op shift cs = (shift_coin cs).0

-- The operations, the last one first, on a new set of these coins.
unfoldable pub run_ops : List Coin → List SetOp → CoinSet
unfolding run_op new_coin_set
run_ops coins [] = new_coin_set coins
run_ops coins (o ∷ os) = run_op o (run_ops coins os)

pub push_coins-IsTotalled :
    (coins : List Coin) (cs : CoinSet) → IsTotalled cs → IsTotalled (push_coins coins cs)
unfolding push_coins
push_coins-IsTotalled [] cs t = t
push_coins-IsTotalled (c ∷ rest) cs t =
    push_coins-IsTotalled rest (push_coin c cs) (push_coin-IsTotalled c cs t)

run_op-IsTotalled : (o : SetOp) (cs : CoinSet) → IsTotalled cs → IsTotalled (run_op o cs)
unfolding run_op
run_op-IsTotalled (push c) cs t = push_coin-IsTotalled c cs t
run_op-IsTotalled pop cs t = pop_coin-IsTotalled cs t
run_op-IsTotalled shift cs t = shift_coin-IsTotalled cs t

pub empty_set-IsTotalled : IsTotalled empty_set
empty_set-IsTotalled = record { value_at = refl; value_age_at = refl }

-- After `NewCoinSet` of any coins and any calls of PushCoin, PopCoin and ShiftCoin, the cached
-- total value and value-age are, modulo 2^64, the sums over the coins in the set.
pub run_ops-IsTotalled : (coins : List Coin) (os : List SetOp) → IsTotalled (run_ops coins os)
unfolding run_ops new_coin_set
run_ops-IsTotalled coins [] = push_coins-IsTotalled coins empty_set empty_set-IsTotalled
run_ops-IsTotalled coins (o ∷ os) =
    run_op-IsTotalled o (run_ops coins os) (run_ops-IsTotalled coins os)
