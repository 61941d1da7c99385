-- ===== src/PowCache/Tame.antt =====
-- What the list operations of nogopow/cache.go leave alone: an item keeps its key and its value, and the
-- map only loses keys.
use nogocommons.Base.{
  ℕ, ◌≡◌, refl, sym, ap, ◌∙◌, arith, Bool, true, false, Option, none, some, Bytes, ◌==◌,
}
use nogocommons.Base.{if◌then◌else◌, Bool-cases, inl, inr}
use nogocommons.PowCache.Recent.{
  ListItem, SimpleLru, same_key, map_item, with_item, delete_key, is_item, unlink_before,
  unlink_behind, prev_of, next_of, delete_item, remove_element, remove_oldest, link_before,
  to_front, move_to_front, decrement,
}

module _ {V : Type 0} where
  pub record SameData (a b : ListItem V) : Type 0 where
    pub key_same : b.key ≡ a.key
    pub value_same : b.value ≡ a.value

  pub record IsTame (l l' : SimpleLru V) : Type 0 where
    pub map_kept : (k : Bytes) (id : ℕ) → l'.items k ≡ some id → l.items k ≡ some id
    pub fresh_same : l'.fresh ≡ l.fresh
    pub store_kept :
        (id : ℕ) (item : ListItem V)
        → l.store id ≡ some item
        → (item' : ListItem V) × (l'.store id ≡ some item') × SameData item item'

  pub IsTame-refl : (l : SimpleLru V) → IsTame l l
  IsTame-refl l = record {
    map_kept = λ k id h. h;
    fresh_same = refl;
    store_kept = λ id item h. (item, h, record { key_same = refl; value_same = refl });
  }

  pub IsTame-trans : (a b c : SimpleLru V) → IsTame a b → IsTame b c → IsTame a c
  IsTame-trans a b c t t' = record {
    map_kept = λ k id h. t.map_kept k id (t'.map_kept k id h);
    fresh_same = t'.fresh_same ∙ t.fresh_same;
    store_kept = λ id item h.
        let (i, e, s) = t.store_kept id item h in
        let (i', e', s') = t'.store_kept id i e in
        (
          i',
          e',
          record { key_same = s'.key_same ∙ s.key_same; value_same = s'.value_same ∙ s.value_same },
        );
  }

  -- A write to the links of an item.
  with_item-IsTame :
      (j : ℕ) (f : ListItem V → ListItem V) (l : SimpleLru V)
      → ((item : ListItem V) → SameData item (f item))
      → IsTame l (with_item j f l)
  with_item-IsTame j f l s = record {
    map_kept = λ k id h. h;
    fresh_same = refl;
    store_kept = λ id item h. elim (Bool-cases (id == j)) [
      | inl t ↦ (
        f item,
        ap (λ (b : Bool). if b then map_item f (l.store id) else l.store id) t ∙ ap (map_item f) h,
        s item,
      )
      | inr n ↦ (
        item,
        ap (λ (b : Bool). if b then map_item f (l.store id) else l.store id) n ∙ h,
        record { key_same = refl; value_same = refl },
      )
    ];
  }

  -- A change of the ends or the size.
  pub same-IsTame :
      (l l' : SimpleLru V)
      → l'.items ≡ l.items
      → l'.store ≡ l.store
      → l'.fresh ≡ l.fresh
      → IsTame l l'
  same-IsTame l l' e e' f = record {
    fresh_same = f;
    map_kept = λ k id h. ap (λ (m : Bytes → Option ℕ). m k) (sym e) ∙ h;
    store_kept = λ id item h. (
      item,
      ap (λ (m : ℕ → Option (ListItem V)). m id) e' ∙ h,
      record { key_same = refl; value_same = refl },
    );
  }

  delete_key-IsTame : (k : Bytes) (l : SimpleLru V) → IsTame l (delete_key k l)
  delete_key-IsTame k l = record {
    map_kept = λ k' id h. elim (Bool-cases (same_key k k')) [
      | inl t ↦
          absurd (ground (arith, sym (ap (λ (b : Bool). if b then none else l.items k') t) ∙ h))
      | inr n ↦ sym (ap (λ (b : Bool). if b then none else l.items k') n) ∙ h
    ];
    fresh_same = refl;
    store_kept = λ id item h. (item, h, record { key_same = refl; value_same = refl });
  }

  delete_item-IsTame : (o : Option (ListItem V)) (l : SimpleLru V) → IsTame l (delete_item o l)
  delete_item-IsTame none l = IsTame-refl l
  delete_item-IsTame (some item) l = delete_key-IsTame item.key l

  unlink_before-IsTame : (p next : Option ℕ) (l : SimpleLru V) → IsTame l (unlink_before p next l)
  unlink_before-IsTame none next l = same-IsTame l (record l { head = next }) refl refl refl
  unlink_before-IsTame (some p) next l =
      with_item-IsTame p (λ item. record item { next = next }) l
        (λ item. record { key_same = refl; value_same = refl })

  unlink_behind-IsTame : (n prev : Option ℕ) (l : SimpleLru V) → IsTame l (unlink_behind n prev l)
  unlink_behind-IsTame none prev l = same-IsTame l (record l { tail = prev }) refl refl refl
  unlink_behind-IsTame (some n) prev l =
      with_item-IsTame n (λ item. record item { prev = prev }) l
        (λ item. record { key_same = refl; value_same = refl })

  pub link_before-IsTame : (o : Option ℕ) (id : ℕ) (l : SimpleLru V) → IsTame l (link_before o id l)
  link_before-IsTame none id l = IsTame-refl l
  link_before-IsTame (some h) id l =
      with_item-IsTame h (λ item. record item { prev = some id }) l
        (λ item. record { key_same = refl; value_same = refl })

  pub remove_element-IsTame : (id : ℕ) (l : SimpleLru V) → IsTame l (remove_element id l)
  unfolding remove_element
  remove_element-IsTame id l =
      let l1 = delete_item (l.store id) l in
      let l2 : SimpleLru V = record l1 { size = decrement l.size } in
      let l3 = unlink_before (prev_of (l2.store id)) (next_of (l2.store id)) l2 in
      IsTame-trans l l1 (remove_element id l) (delete_item-IsTame (l.store id) l) (
        IsTame-trans l1 l2 (remove_element id l) (same-IsTame l1 l2 refl refl refl) (
          IsTame-trans l2 l3 (remove_element id l)
            (unlink_before-IsTame (prev_of (l2.store id)) (next_of (l2.store id)) l2)
            (unlink_behind-IsTame (next_of (l3.store id)) (prev_of (l3.store id)) l3)))

  pub remove_oldest-IsTame : (l : SimpleLru V) → IsTame l (remove_oldest l)
  unfolding remove_oldest
  remove_oldest-IsTame l = oldest l.tail
    where
      oldest : (o : Option ℕ) → IsTame l (elim o [ none ↦ l | some id ↦ remove_element id l ])
      oldest none = IsTame-refl l
      oldest (some id) = remove_element-IsTame id l

  to_front-IsTame : (id : ℕ) (l : SimpleLru V) → IsTame l (to_front id l)
  unfolding to_front
  to_front-IsTame id l =
      let l1 = with_item id (λ item. record item { next = l.head; prev = none }) l in
      let l2 = link_before l1.head id l1 in
      IsTame-trans l l1 (to_front id l)
        (with_item-IsTame id (λ item. record item { next = l.head; prev = none }) l
          (λ item. record { key_same = refl; value_same = refl }))
        (IsTame-trans l1 l2 (to_front id l) (link_before-IsTame l1.head id l1)
          (same-IsTame l2 (to_front id l) refl refl refl))

  pub move_to_front-IsTame : (id : ℕ) (l : SimpleLru V) → IsTame l (move_to_front id l)
  unfolding move_to_front
  move_to_front-IsTame id l = moved (is_item id l.head)
    where
      moved : (b : Bool) → IsTame l (if b then l else to_front id (remove_element id l))
      moved true = IsTame-refl l
      moved false =
          IsTame-trans l (remove_element id l) (to_front id (remove_element id l))
            (remove_element-IsTame id l) (to_front-IsTame id (remove_element id l))
