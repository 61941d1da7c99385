-- ===== src/Coinset/Tests.antt =====
-- Selections of nogoutil/coinset/coins.go from concrete coins.
use nogocommons.Base.{◌*◌}
use nogocommons.Base.{ℕ, ◌≡◌, refl, arith, Option, none, some, List, [], ◌∷◌, length, take}
use nogocommons.Coinset.Coins.{
  Coin, CoinSet, push_coin, pop_coin, shift_coin, new_coin_set, push_coins, coin_select,
  select_from, satisfies_target_value, split_last, split_first, take_out, remove_element,
}
use nogocommons.Coinset.Totals.{IsTotalled, push, pop, shift, run_ops, run_op, run_ops-IsTotalled}
use nogocommons.Base.{leb, subst, sym, true, false, ◌≤◌, inl, inr, Bool-cases}
use nogocommons.Coinset.Fewest.{
  Reorders, same_nil, same_head, swapped, both, IsDescending, IsSorting, IsFewest,
  coin_select_number, coin_select_number-IsFewest,
}
use nogocommons.Coinset.Select.{IsFirst, pays, coin_select-IsFirst}

abbrev coin_of : ℕ → Coin
coin_of v = record { hash = []; index = 0; value = v; value_age = 10 * v }

abbrev three_coins : List Coin
three_coins = coin_of 10 ∷ coin_of 20 ∷ coin_of 30 ∷ []

run_ops-IsTotalled_example : IsTotalled (run_ops three_coins (shift ∷ push (coin_of 5) ∷ pop ∷ []))
run_ops-IsTotalled_example = run_ops-IsTotalled three_coins (shift ∷ push (coin_of 5) ∷ pop ∷ [])

totals_left : (run_ops three_coins (shift ∷ push (coin_of 5) ∷ pop ∷ [])).total_value ≡ 25
unfolding run_ops run_op new_coin_set push_coins push_coin pop_coin shift_coin split_last
    split_first take_out remove_element
totals_left = refl

coin_select-IsFirst_example :
    IsFirst 3 (λ n. take n three_coins) (pays 5 25) 3 (coin_select 3 5 25 three_coins)
coin_select-IsFirst_example = coin_select-IsFirst 3 5 25 three_coins (omega arith) (omega arith)

abbrev how_many : Option CoinSet → ℕ
how_many none = 0
how_many (some cs) = length cs.coins

two_taken : how_many (coin_select 3 5 25 three_coins) ≡ 2
unfolding coin_select select_from satisfies_target_value push_coin new_coin_set push_coins
two_taken = refl

-- Insertion sort, the highest value first.
abbrev insert_coin : Coin → List Coin → List Coin
insert_coin c [] = c ∷ []
insert_coin c (d ∷ cs) = elim (leb d.value c.value) [
  | true ↦ c ∷ d ∷ cs
  | false ↦ d ∷ insert_coin c cs
]

abbrev sort_coins : List Coin → List Coin
sort_coins [] = []
sort_coins (c ∷ cs) = insert_coin c (sort_coins cs)

same_coins : (cs : List Coin) → Reorders cs cs
same_coins [] = same_nil
same_coins (c ∷ cs) = same_head (same_coins cs)

insert_coin-Reorders : (c : Coin) (cs : List Coin) → Reorders (c ∷ cs) (insert_coin c cs)
insert_coin-Reorders c [] = same_coins (c ∷ [])
insert_coin-Reorders c (d ∷ cs) =
    elim (leb d.value c.value)
      as (λ b.
        Reorders (c ∷ d ∷ cs) (elim b [ true ↦ c ∷ d ∷ cs | false ↦ d ∷ insert_coin c cs ])) [
          | true ↦ same_coins (c ∷ d ∷ cs)
          | false ↦ both swapped (same_head (insert_coin-Reorders c cs))
        ]

insert_below :
    (b c : Coin) (cs : List Coin)
    → c.value ≤ b.value
    → IsDescending (b ∷ cs)
    → IsDescending (b ∷ insert_coin c cs)
insert_below b c [] l h = (l, tt)
insert_below b c (d ∷ cs) l (k, h) = elim (Bool-cases (leb d.value c.value)) [
  | inl t ↦
      subst (λ x. IsDescending (b ∷ elim x [ true ↦ c ∷ d ∷ cs | false ↦ d ∷ insert_coin c cs ]))
        (sym t) (l, (ground (arith, t), h))
  | inr n ↦
      subst (λ x. IsDescending (b ∷ elim x [ true ↦ c ∷ d ∷ cs | false ↦ d ∷ insert_coin c cs ]))
        (sym n) (k, insert_below d c cs (ground (arith, n)) h)
]

insert_coin-IsDescending :
    (c : Coin) (cs : List Coin) → IsDescending cs → IsDescending (insert_coin c cs)
insert_coin-IsDescending c [] h = tt
insert_coin-IsDescending c (d ∷ cs) h = elim (Bool-cases (leb d.value c.value)) [
  | inl t ↦
      subst (λ x. IsDescending (elim x [ true ↦ c ∷ d ∷ cs | false ↦ d ∷ insert_coin c cs ]))
        (sym t) (ground (arith, t), h)
  | inr n ↦
      subst (λ x. IsDescending (elim x [ true ↦ c ∷ d ∷ cs | false ↦ d ∷ insert_coin c cs ]))
        (sym n) (insert_below d c cs (ground (arith, n)) h)
]

sort_coins-IsSorting : IsSorting sort_coins
sort_coins-IsSorting [] = (same_nil, tt)
sort_coins-IsSorting (c ∷ cs) =
    let (r, d) = sort_coins-IsSorting cs in
    (
      both (same_head r) (insert_coin-Reorders c (sort_coins cs)),
      insert_coin-IsDescending c (sort_coins cs) d,
    )

coin_select_number-IsFewest_example :
    IsFewest 3 45 three_coins (coin_select_number sort_coins 3 0 45 three_coins)
coin_select_number-IsFewest_example =
    coin_select_number-IsFewest sort_coins sort_coins-IsSorting 3 45 three_coins (omega arith)
      (omega arith)

two_highest : how_many (coin_select_number sort_coins 3 0 45 three_coins) ≡ 2
unfolding coin_select_number coin_select select_from satisfies_target_value push_coin new_coin_set
    push_coins
two_highest = refl
