-- ===== src/PowCache/Tests.antt =====
-- Calls of nogopow/cache.go, with the length of the array for the data of a seed.
use nogocommons.Base.{◌≡◌, refl, false, none, some, List, [], ◌∷◌, Bytes}
use nogocommons.Base.{compare_bytes}
use nogocommons.PowCache.Recent.{
  pos, is_item, new_simple_lru, get, add, remove, push_front, move_to_front, to_front,
  remove_element, remove_oldest,
}
use nogocommons.PowCache.Data.{Call, get_call, seed_key, generate, get_data, fill, call, run_calls}
use nogocommons.PowCache.Calls.{get_data-run_calls}
use nogocommons.PowCache.Lost.{get-run_calls-lost}

abbrev first_byte : Bytes → Bytes
first_byte [] = []
first_byte (b ∷ bs) = b ∷ []

abbrev one : Bytes
one = 1 ∷ []

abbrev two : Bytes
two = 2 ∷ []

abbrev some_calls : List Call
some_calls = get_call two ∷ get_call one ∷ []

get_data-run_calls_example :
    (get_data first_byte one (run_calls first_byte some_calls)).0 ≡ first_byte (seed_key one)
get_data-run_calls_example = get_data-run_calls first_byte some_calls one

one_stored : (run_calls first_byte some_calls).items one ≡ some 0
unfolding run_calls call get_data fill get add remove new_simple_lru push_front move_to_front
    to_front remove_element remove_oldest compare_bytes
one_stored = refl

two_in_front : is_item 0 (run_calls first_byte some_calls).head ≡ false
unfolding run_calls call get_data fill get add remove new_simple_lru push_front move_to_front
    to_front remove_element remove_oldest compare_bytes
two_in_front = refl

get-run_calls-lost_example :
    ((get one (run_calls first_byte some_calls)).0 ≡ some (generate first_byte one))
    × ((get one (get one (run_calls first_byte some_calls)).1).0 ≡ none)
get-run_calls-lost_example = get-run_calls-lost first_byte some_calls one 0 one_stored two_in_front

-- Three calls for two seeds leave one of them in the map, and two in the list.
size_too_small : (run_calls first_byte (get_call one ∷ some_calls)).size ≡ pos 1
unfolding run_calls call get_data fill get add remove new_simple_lru push_front move_to_front
    to_front remove_element remove_oldest compare_bytes
size_too_small = refl
