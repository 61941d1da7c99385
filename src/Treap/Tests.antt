-- ===== src/Treap/Tests.antt =====
-- Runs of the treaps, and the theorems at concrete inputs.
use nogocommons.Base.{ℕ, ◌≡◌, refl, arith, Bool, none, some, ltb, ◌+◌}
use nogocommons.Base.{List, [], ◌∷◌, Bytes, compare_bytes, length}
use nogocommons.Treap.Node.{nil, node, Entry}
use nogocommons.Treap.Node.{plug, descend, bubble}
use nogocommons.Treap.Immutable.{Immutable, KvPair, new_immutable, put, put_all, delete}
use nogocommons.Treap.Mutable
use nogocommons.Treap.Mutable.{Mutable}
use nogocommons.Treap.SortedMap.{lookup, insert, erase}
use nogocommons.Treap.Valid.{IsValid, view}
use nogocommons.Treap.Put.{put-IsValid, view-put}
use nogocommons.Treap.Delete.{delete-IsValid, view-delete}
use nogocommons.Treap.Heap.{IsHeap, put-IsHeap}
use nogocommons.Treap.HeapDelete.{delete_breaks-IsHeap}
use nogocommons.Treap.Traverse.{for_each, visit, for_each-visit}
use nogocommons.Treap.MutableLaws.{snapshot, mutable_refines}
use nogocommons.Treap.ParentStack.{ParentStack, Represents, empty_stack, empty-Represents}
use nogocommons.Treap.ParentStack.{ParentStack, push, push-Represents}

abbrev key_a : Bytes
key_a = b'a' ∷ []

abbrev key_b : Bytes
key_b = b'b' ∷ []

abbrev key_c : Bytes
key_c = b'b' ∷ b'c' ∷ []

abbrev entry_a : Entry
entry_a = record { key = key_a; value = 1 ∷ []; priority = 9 }

abbrev entry_b : Entry
entry_b = record { key = key_b; value = []; priority = 3 }

abbrev entry_c : Entry
entry_c = record { key = key_c; value = 7 ∷ 8 ∷ []; priority = 5 }

abbrev sample : Immutable
sample = record {
  root = node (node nil entry_a nil) entry_b (node nil entry_c nil);
  count = 3;
  total_size = 223;
}

-- Three insertions into the empty treap, each rotated to its place.
sample_lem :
    put_all new_immutable (
      record { key = key_a; value = some (1 ∷ []); drawn_priority = 9 }
      ∷ (record { key = key_c; value = some (7 ∷ 8 ∷ []); drawn_priority = 5 }
          ∷ (record { key = key_b; value = none; drawn_priority = 3 } ∷ [])))
    ≡ sample
unfolding put_all put new_immutable descend bubble plug compare_bytes
sample_lem = refl

sample-IsValid : IsValid sample
unfolding compare_bytes
sample-IsValid = record {
  ordered = ((refl, (refl, tt)), ((refl, tt), (tt, tt)));
  counted = refl;
  sized = refl;
}

put-IsValid_example : IsValid (put sample (5 ∷ []) (some []) 1)
put-IsValid_example = put-IsValid sample (5 ∷ []) (some []) 1 sample-IsValid

view-put_example : view (put sample key_c none 4) ≡ insert key_c [] (view sample)
view-put_example = view-put sample key_c none 4 sample-IsValid

abbrev two_more : List KvPair
two_more =
    record { key = 5 ∷ []; value = none; drawn_priority = 0 }
    ∷ (record { key = key_a; value = some (2 ∷ []); drawn_priority = 8 } ∷ [])

delete-IsValid_example : IsValid (delete sample key_b)
delete-IsValid_example = delete-IsValid sample key_b sample-IsValid

view-delete_example : view (delete sample key_b) ≡ erase key_b (view sample)
view-delete_example = view-delete sample key_b sample-IsValid

put-IsHeap_example : IsHeap (put sample (5 ∷ []) none 1).root
put-IsHeap_example = put-IsHeap sample (5 ∷ []) none 1 (omega arith)

-- `entry_a`, of priority 9, goes above `entry_c`, of priority 5.
delete_breaks-IsHeap_example : ¬ (IsHeap (delete sample key_b).root)
delete_breaks-IsHeap_example =
    delete_breaks-IsHeap nil nil nil nil entry_a entry_b entry_c 3 223 (omega arith)

-- A callback that counts, and stops at the key `key_b`.
abbrev count_to_b : ℕ → Bytes → Bytes → ℕ × Bool
count_to_b n k v = (n + 1, ltb (length v) 1)

for_each-visit_example : for_each count_to_b sample 0 ≡ some (visit count_to_b (view sample) 0)
for_each-visit_example = for_each-visit count_to_b sample 0

for_each_stops : for_each count_to_b sample 0 ≡ some 1
unfolding for_each
for_each_stops = refl

abbrev mutable_sample : Mutable
mutable_sample = record { root = sample.root; count = 3; total_size = 223 }

mutable_refines_example :
    (Mutable.get mutable_sample key_c ≡ lookup key_c (view sample))
    × IsValid (snapshot (Mutable.put mutable_sample key_c none 4))
    × (view (snapshot (Mutable.put mutable_sample key_c none 4)) ≡ insert key_c [] (view sample))
    × IsValid (snapshot (Mutable.delete mutable_sample key_c))
    × (view (snapshot (Mutable.delete mutable_sample key_c)) ≡ erase key_c (view sample))
mutable_refines_example = mutable_refines mutable_sample key_c none 4 sample-IsValid

abbrev one_pushed : ParentStack ℕ
one_pushed = push empty_stack 7

abbrev seven : List ℕ
seven = 7 ∷ []

one_pushed-Represents : Represents one_pushed seven
one_pushed-Represents = push-Represents empty_stack 7 [] empty-Represents
