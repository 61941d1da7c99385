-- ===== src/Coinset/Coins.antt =====
-- nogoutil/coinset/coins.go: the coin set, and the selector that takes the coins in their order. An
-- `Amount` and a value-age are int64 numbers, as bit patterns.
use nogocommons.Base.{ℕ, zero, suc, ◌^◌, Bool, ◌||◌, Option, none, some, List, [], ◌∷◌, ◌++◌}
use nogocommons.Base.{◌==◌, leb, if◌then◌else◌, add64, sub64, Bytes}

-- What the interface `Coin` answers and the set uses.
pub record Coin : Type 0 where
  pub hash : Bytes
  pub index : ℕ
  pub value : ℕ
  pub value_age : ℕ

pub record CoinSet : Type 0 where
  pub coins : List Coin
  pub total_value : ℕ
  pub total_value_age : ℕ

abbrev pub empty_set : CoinSet
empty_set = record { coins = []; total_value = 0; total_value_age = 0 }

-- `PushCoin`
unfoldable pub push_coin : Coin → CoinSet → CoinSet
push_coin c cs = record {
  coins = cs.coins ++ (c ∷ []);
  total_value = add64 cs.total_value c.value;
  total_value_age = add64 cs.total_value_age c.value_age;
}

-- `removeElement`, with the coins that are left.
unfoldable pub remove_element : List Coin → Coin → CoinSet → CoinSet
remove_element left c cs = record {
  coins = left;
  total_value = sub64 cs.total_value c.value;
  total_value_age = sub64 cs.total_value_age c.value_age;
}

-- The coins before the last one, and the last one.
unfoldable pub split_last : List Coin → Option (List Coin × Coin)
split_last [] = none
split_last (c ∷ cs) = elim (split_last cs) [ none ↦ some ([], c) | some (r, l) ↦ some (c ∷ r, l) ]

-- The first coin, with the coins after it.
unfoldable pub split_first : List Coin → Option (List Coin × Coin)
split_first [] = none
split_first (c ∷ left) = some (left, c)

unfoldable pub take_out : CoinSet → Option (List Coin × Coin) → CoinSet × Option Coin
unfolding remove_element
take_out cs none = (cs, none)
take_out cs (some (left, c)) = (remove_element left c cs, some c)

-- `PopCoin` and `ShiftCoin`
unfoldable pub pop_coin : CoinSet → CoinSet × Option Coin
unfolding split_last take_out
pop_coin cs = take_out cs (split_last cs.coins)

unfoldable pub shift_coin : CoinSet → CoinSet × Option Coin
unfolding split_first take_out
shift_coin cs = take_out cs (split_first cs.coins)

-- `NewCoinSet`
unfoldable pub push_coins : List Coin → CoinSet → CoinSet
unfolding push_coin
push_coins [] cs = cs
push_coins (c ∷ rest) cs = push_coins rest (push_coin c cs)

unfoldable pub new_coin_set : List Coin → CoinSet
unfolding push_coins
new_coin_set coins = push_coins coins empty_set

-- `a <= b` of two int64 numbers.
abbrev pub le_int64 : ℕ → ℕ → Bool
le_int64 a b = leb (add64 a (2 ^ 63)) (add64 b (2 ^ 63))

-- `satisfiesTargetValue`
unfoldable pub satisfies_target_value : ℕ → ℕ → ℕ → Bool
satisfies_target_value target_value min_change total_value =
    (total_value == target_value) || le_int64 (add64 target_value min_change) total_value

-- The loop of `MinIndexCoinSelector.CoinSelect`, with the inputs that may still be taken; `none` is
-- `ErrCoinsNoSelectionAvailable`.
unfoldable pub select_from : ℕ → ℕ → ℕ → CoinSet → List Coin → Option CoinSet
unfolding push_coin satisfies_target_value
select_from max_inputs min_change target_value cs [] = none
select_from zero min_change target_value cs (c ∷ rest) = none
select_from (suc max_inputs) min_change target_value cs (c ∷ rest) =
    let cs' = push_coin c cs in
    let later = select_from max_inputs min_change target_value cs' rest in
    if satisfies_target_value target_value min_change cs'.total_value then some cs' else later

-- `MinIndexCoinSelector.CoinSelect`
unfoldable pub coin_select : ℕ → ℕ → ℕ → List Coin → Option CoinSet
unfolding new_coin_set select_from
coin_select max_inputs min_change target_value coins =
    select_from max_inputs min_change target_value (new_coin_set []) coins
