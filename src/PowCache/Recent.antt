-- ===== src/PowCache/Recent.antt =====
-- nogopow/cache.go: `simpleLRU`. An item is a cell of a store, and a pointer is its number. The map is a
-- function from the keys. `onEvict` only logs.
use nogocommons.Base.{
  ℕ, zero, suc, Bool, true, false, Option, none, some, Bytes, compare_bytes, eq, ltb, ◌==◌,
}
use nogocommons.Base.{if◌then◌else◌}

-- The size is an `int`, which can fall below zero.
pub data ℤ : Type 0 where
  pos : ℕ → ℤ
  negsuc : ℕ → ℤ

abbrev pub increment : ℤ → ℤ
increment (pos n) = pos (suc n)
increment (negsuc zero) = pos zero
increment (negsuc (suc n)) = negsuc n

abbrev pub decrement : ℤ → ℤ
decrement (pos zero) = negsuc zero
decrement (pos (suc n)) = pos n
decrement (negsuc n) = negsuc (suc n)

abbrev pub exceeds : ℤ → ℕ → Bool
exceeds (pos n) capacity = ltb capacity n
exceeds (negsuc n) capacity = false

pub record ListItem (V : Type 0) : Type 0 where
  pub key : Bytes
  pub value : V
  pub prev : Option ℕ
  pub next : Option ℕ

-- `fresh` is the number of the next item that is made.
pub record SimpleLru (V : Type 0) : Type 0 where
  pub size : ℤ
  pub capacity : ℕ
  pub items : Bytes → Option ℕ
  pub head : Option ℕ
  pub tail : Option ℕ
  pub store : ℕ → Option (ListItem V)
  pub fresh : ℕ

abbrev pub same_key : Bytes → Bytes → Bool
same_key a b = elim (compare_bytes a b) [ eq ↦ true | _ ↦ false ]

abbrev pub is_item : ℕ → Option ℕ → Bool
is_item id none = false
is_item id (some j) = j == id

abbrev pub tail_or : Option ℕ → ℕ → Option ℕ
tail_or none id = some id
tail_or (some t) id = some t

-- A list that was empty gets a last item.
abbrev pub tail_of_push : Option ℕ → Option ℕ → ℕ → Option ℕ
tail_of_push none tail id = some id
tail_of_push (some h) tail id = tail

module _ {V : Type 0} where
  unfoldable pub new_simple_lru : ℕ → SimpleLru V
  new_simple_lru capacity = record {
    size = pos 0;
    capacity = capacity;
    items = λ k. none;
    head = none;
    tail = none;
    store = λ id. none;
    fresh = 0;
  }

  abbrev pub map_item : (ListItem V → ListItem V) → Option (ListItem V) → Option (ListItem V)
  map_item f none = none
  map_item f (some item) = some (f item)

  -- A write to fields of an item.
  abbrev pub with_item : ℕ → (ListItem V → ListItem V) → SimpleLru V → SimpleLru V
  with_item id f l = record l { store = λ j. if j == id then map_item f (l.store j) else l.store j }

  abbrev pub delete_key : Bytes → SimpleLru V → SimpleLru V
  delete_key k l = record l { items = λ k'. if same_key k k' then none else l.items k' }

  abbrev pub put_key : Bytes → ℕ → SimpleLru V → SimpleLru V
  put_key k id l = record l { items = λ k'. if same_key k k' then some id else l.items k' }

  -- The item before is linked to the one behind, or the head is.
  abbrev pub unlink_before : Option ℕ → Option ℕ → SimpleLru V → SimpleLru V
  unlink_before none next l = record l { head = next }
  unlink_before (some p) next l = with_item p (λ item. record item { next = next }) l

  abbrev pub unlink_behind : Option ℕ → Option ℕ → SimpleLru V → SimpleLru V
  unlink_behind none prev l = record l { tail = prev }
  unlink_behind (some n) prev l = with_item n (λ item. record item { prev = prev }) l

  -- The links of an item as they are now.
  abbrev pub prev_of : Option (ListItem V) → Option ℕ
  prev_of none = none
  prev_of (some item) = item.prev

  abbrev pub next_of : Option (ListItem V) → Option ℕ
  next_of none = none
  next_of (some item) = item.next

  abbrev pub delete_item : Option (ListItem V) → SimpleLru V → SimpleLru V
  delete_item none l = l
  delete_item (some item) l = delete_key item.key l

  unfoldable pub remove_element : ℕ → SimpleLru V → SimpleLru V
  remove_element id l =
      let l1 = delete_item (l.store id) l in
      let l2 = record l1 { size = decrement l.size } in
      let l3 = unlink_before (prev_of (l2.store id)) (next_of (l2.store id)) l2 in
      unlink_behind (next_of (l3.store id)) (prev_of (l3.store id)) l3

  unfoldable pub remove_oldest : SimpleLru V → SimpleLru V
  unfolding remove_element
  remove_oldest l = elim l.tail [ none ↦ l | some id ↦ remove_element id l ]

  abbrev pub link_before : Option ℕ → ℕ → SimpleLru V → SimpleLru V
  link_before none id l = l
  link_before (some h) id l = with_item h (λ item. record item { prev = some id }) l

  unfoldable pub to_front : ℕ → SimpleLru V → SimpleLru V
  to_front id l =
      let l1 = with_item id (λ item. record item { next = l.head; prev = none }) l in
      let l2 = link_before l1.head id l1 in record l2 { head = some id; tail = tail_or l2.tail id }

  unfoldable pub move_to_front : ℕ → SimpleLru V → SimpleLru V
  unfolding remove_element to_front
  move_to_front id l = if is_item id l.head then l else to_front id (remove_element id l)

  abbrev pub value_of : Option (ListItem V) → Option V
  value_of none = none
  value_of (some item) = some item.value

  -- The value, or `none` for a miss.
  unfoldable pub get : Bytes → SimpleLru V → Option V × SimpleLru V
  unfolding move_to_front
  get k l = elim (l.items k) [
    | none ↦ (none, l)
    | some id ↦ let l' = move_to_front id l in (value_of (l'.store id), l')
  ]

  -- A new item in front, with its links.
  unfoldable pub push_front : Bytes → V → SimpleLru V → SimpleLru V
  push_front k v l =
      let id = l.fresh in
      let item : ListItem V = record { key = k; value = v; prev = none; next = l.head } in
      let l1 = put_key k id l in
      let l2 = record l1 {
        store = λ j. if j == id then some item else l.store j;
        fresh = suc l.fresh;
      } in
      let l3 = link_before l.head id l2 in
      record l3 { head = some id; tail = tail_of_push l.head l3.tail id; size = increment l3.size }

  unfoldable pub add : Bytes → V → SimpleLru V → SimpleLru V
  unfolding move_to_front push_front remove_oldest
  add k v l = elim (l.items k) [
    | some id ↦ with_item id (λ item. record item { value = v }) (move_to_front id l)
    | none ↦
        let l' = push_front k v l in if exceeds l'.size l'.capacity then remove_oldest l' else l'
  ]

  unfoldable pub remove : Bytes → SimpleLru V → Bool × SimpleLru V
  unfolding remove_element
  remove k l = elim (l.items k) [ none ↦ (false, l) | some id ↦ (true, remove_element id l) ]
