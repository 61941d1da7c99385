-- ===== src/Treap/SortedMap.antt =====
-- The abstract view of a treap: its key/value pairs in ascending order of the keys, with the three
-- operations of a map on such a list. Priorities and shape are forgotten.
use nogocommons.Base.{ℕ, ◌+◌, ◌≡◌, refl, lt, eq, gt, arith, Option, none, some}
use nogocommons.Base.{List, [], ◌∷◌, ◌++◌, Bytes, compare_bytes}
use nogocommons.Base.{gt_of_lt, compare_refl, eq_of_compare}
use nogocommons.Treap.Node.{Entry, node_size}
use nogocommons.Treap.Order.{Below, Above, Ascending}

abbrev pub Pairs : Type 0
Pairs = List (Bytes × Bytes)

abbrev pub pairs : List Entry → Pairs
pairs [] = []
pairs (e ∷ xs) = (e.key, e.value) ∷ pairs xs

unfoldable pub lookup : Bytes → Pairs → Option Bytes
lookup k [] = none
lookup k ((j, v) ∷ m) = elim (compare_bytes k j) [ eq ↦ some v | _ ↦ lookup k m ]

unfoldable pub insert : Bytes → Bytes → Pairs → Pairs
insert k v [] = (k, v) ∷ []
insert k v ((j, w) ∷ m) = elim (compare_bytes k j) [
  | lt ↦ (k, v) ∷ ((j, w) ∷ m)
  | eq ↦ (k, v) ∷ m
  | gt ↦ (j, w) ∷ insert k v m
]

unfoldable pub erase : Bytes → Pairs → Pairs
erase k [] = []
erase k ((j, w) ∷ m) = elim (compare_bytes k j) [ eq ↦ m | _ ↦ (j, w) ∷ erase k m ]

-- The operations pass over what stands before the key, and meet the key or what stands behind it.
pub lookup-append :
    (k : Bytes) (xs ys : List Entry)
    → Below k xs
    → lookup k (pairs (xs ++ ys)) ≡ lookup k (pairs ys)
unfolding lookup
lookup-append k [] ys b = refl
lookup-append k (x ∷ xs) ys (h, b) = ground (arith, gt_of_lt x.key k h, lookup-append k xs ys b)

pub lookup-Above : (k : Bytes) (xs : List Entry) → Above k xs → lookup k (pairs xs) ≡ none
unfolding lookup
lookup-Above k [] a = refl
lookup-Above k (x ∷ xs) (h, a) = ground (arith, lookup-Above k xs a)

pub lookup_here : (k v : Bytes) (m : Pairs) → lookup k ((k, v) ∷ m) ≡ some v
unfolding lookup
lookup_here k v m = ground (arith, compare_refl k)

pub insert-append :
    (k v : Bytes) (xs ys : List Entry)
    → Below k xs
    → insert k v (pairs (xs ++ ys)) ≡ pairs xs ++ insert k v (pairs ys)
unfolding insert
insert-append k v [] ys b = refl
insert-append k v (x ∷ xs) ys (h, b) = ground (arith, gt_of_lt x.key k h, insert-append k v xs ys b)

pub insert-Above :
    (k v : Bytes) (xs : List Entry) → Above k xs → insert k v (pairs xs) ≡ (k, v) ∷ pairs xs
unfolding insert
insert-Above k v [] a = refl
insert-Above k v (x ∷ xs) (h, a) = ground arith

pub insert_here : (k v w : Bytes) (m : Pairs) → insert k v ((k, w) ∷ m) ≡ (k, v) ∷ m
unfolding insert
insert_here k v w m = ground (arith, compare_refl k)

pub erase-append :
    (k : Bytes) (xs ys : List Entry)
    → Below k xs
    → erase k (pairs (xs ++ ys)) ≡ pairs xs ++ erase k (pairs ys)
unfolding erase
erase-append k [] ys b = refl
erase-append k (x ∷ xs) ys (h, b) = ground (arith, gt_of_lt x.key k h, erase-append k xs ys b)

pub erase-Above : (k : Bytes) (xs : List Entry) → Above k xs → erase k (pairs xs) ≡ pairs xs
unfolding erase
erase-Above k [] a = refl
erase-Above k (x ∷ xs) (h, a) = ground (arith, erase-Above k xs a)

pub erase_here : (k w : Bytes) (m : Pairs) → erase k ((k, w) ∷ m) ≡ m
unfolding erase
erase_here k w m = ground (arith, compare_refl k)

pub pairs-append : (xs ys : List Entry) → pairs (xs ++ ys) ≡ pairs xs ++ pairs ys
pairs-append [] ys = refl
pairs-append (x ∷ xs) ys = ground (arith, pairs-append xs ys)

-- The bytes that a list of nodes takes.
abbrev pub sizes : List Entry → ℕ
sizes [] = 0
sizes (e ∷ xs) = node_size e + sizes xs

pub sizes-append : (xs ys : List Entry) → sizes (xs ++ ys) ≡ sizes xs + sizes ys
sizes-append [] ys = ground arith
sizes-append (x ∷ xs) ys = ground (arith, sizes-append xs ys)

-- The laws of a map.
pub lookup-insert :
    (k j v : Bytes) (m : Pairs)
    → lookup j (insert k v m) ≡ elim (compare_bytes j k) [ eq ↦ some v | _ ↦ lookup j m ]
unfolding lookup insert
lookup-insert k j v [] = refl
lookup-insert k j v ((i, w) ∷ m) = ground (
  arith,
  eq_of_compare k i,
  eq_of_compare j k,
  eq_of_compare j i,
  compare_refl i,
  compare_refl j,
  compare_refl k,
  lookup-insert k j v m,
)

pub lookup-erase :
    (k j : Bytes) (xs : List Entry)
    → Ascending xs
    → lookup j (erase k (pairs xs))
      ≡ elim (compare_bytes j k) [ eq ↦ none | _ ↦ lookup j (pairs xs) ]
unfolding lookup erase
lookup-erase k j [] h = ground arith
lookup-erase k j (x ∷ xs) (h, hs) = ground (
  arith,
  eq_of_compare k x.key,
  eq_of_compare j k,
  eq_of_compare j x.key,
  compare_refl x.key,
  compare_refl j,
  compare_refl k,
  lookup-Above x.key xs h,
  lookup-erase k j xs hs,
)
