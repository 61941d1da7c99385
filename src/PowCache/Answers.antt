-- ===== src/PowCache/Answers.antt =====
-- What the map of nogopow/cache.go holds for its keys.
use nogocommons.Base.{
  ℕ, suc, ◌<◌, ◌≡◌, refl, sym, ap, ◌∙◌, arith, Bool, true, false, none, some, Bytes, ◌==◌,
}
use nogocommons.Base.{if◌then◌else◌, Bool-cases, inl, inr, eq_of_compare, subst}
use nogocommons.PowCache.Recent.{
  ListItem, SimpleLru, same_key, map_item, with_item, put_key, link_before, push_front,
}
use nogocommons.PowCache.Tame.{IsTame, IsTame-trans, same-IsTame, link_before-IsTame}

same_key-eq : (a b : Bytes) → same_key a b ≡ true → a ≡ b
same_key-eq a b h = eq_of_compare a b (ground (arith, h))

module _ {V : Type 0} (make : Bytes → V) where
  -- What the map has for a key.
  pub record IsEntry (l : SimpleLru V) (k : Bytes) (id : ℕ) (item : ListItem V) : Type 0 where
    pub stored : l.store id ≡ some item
    pub key_right : item.key ≡ k
    pub value_right : item.value ≡ make k
    pub made : id < l.fresh

  abbrev pub IsFaithful : SimpleLru V → Type 0
  IsFaithful l =
      (k : Bytes) (id : ℕ) → l.items k ≡ some id → (item : ListItem V) × IsEntry l k id item

  pub IsTame-IsFaithful : (l l' : SimpleLru V) → IsTame l l' → IsFaithful l → IsFaithful l'
  IsTame-IsFaithful l l' t f k id h =
      let (item, e) = f k id (t.map_kept k id h) in
      let (item', s, d) = t.store_kept id item e.stored in
      (
        item',
        record {
          stored = s;
          key_right = d.key_same ∙ e.key_right;
          value_right = d.value_same ∙ e.value_right;
          made = subst (λ n. id < n) (sym t.fresh_same) e.made;
        },
      )

  -- The new item is in the map for its key, and no other item is touched.
  new_item : (k : Bytes) (v : V) (l : SimpleLru V) → SimpleLru V
  new_item k v l = record (put_key k l.fresh l) {
    store = λ j.
        if j == l.fresh
        then some record { key = k; value = v; prev = none; next = l.head }
        else l.store j;
    fresh = suc l.fresh;
  }

  new_item-IsFaithful :
      (k : Bytes) (v : V) (l : SimpleLru V)
      → v ≡ make k
      → IsFaithful l
      → IsFaithful (new_item k v l)
  unfolding new_item
  new_item-IsFaithful k v l e f k' id h = elim (Bool-cases (same_key k k')) [
    | inl t ↦
        let q : k ≡ k' = same_key-eq k k' t in
        let i : l.fresh ≡ id =
          ground (arith, sym (ap (λ (b : Bool). if b then some l.fresh else l.items k') t) ∙ h) in
        let item : ListItem V = record { key = k; value = v; prev = none; next = l.head } in
        let here : (id == l.fresh) ≡ true = ground (arith, i) in
        (
          item,
          record {
            stored = ap (λ (b : Bool). if b then some item else l.store id) here;
            key_right = q;
            value_right = e ∙ ap make q;
            made = omega (arith, i);
          },
        )
    | inr n ↦
        let (item, r) =
          f k' id (sym (ap (λ (b : Bool). if b then some l.fresh else l.items k') n) ∙ h) in
        let there : (id == l.fresh) ≡ false = ground (arith, r.made) in
        let new : ListItem V = record { key = k; value = v; prev = none; next = l.head } in
        (
          item,
          record {
            stored = ap (λ (b : Bool). if b then some new else l.store id) there ∙ r.stored;
            key_right = r.key_right;
            value_right = r.value_right;
            made = omega (arith, r.made);
          },
        )
  ]

  pub push_front-IsFaithful :
      (k : Bytes) (v : V) (l : SimpleLru V)
      → v ≡ make k
      → IsFaithful l
      → IsFaithful (push_front k v l)
  unfolding push_front new_item
  push_front-IsFaithful k v l e f =
      let l2 = new_item k v l in
      let l3 = link_before l.head l.fresh l2 in
      IsTame-IsFaithful l2 (push_front k v l)
        (IsTame-trans l2 l3 (push_front k v l) (link_before-IsTame l.head l.fresh l2)
          (same-IsTame l3 (push_front k v l) refl refl refl))
        (new_item-IsFaithful k v l e f)

  -- The value of an entry is set again.
  pub set_value-IsFaithful :
      (k : Bytes) (id : ℕ) (v : V) (l : SimpleLru V)
      → v ≡ make k
      → (item : ListItem V) × (l.store id ≡ some item) × (item.key ≡ k)
      → IsFaithful l
      → IsFaithful (with_item id (λ item. record item { value = v }) l)
  set_value-IsFaithful k id v l e (at, s, q) f k' id' h =
      let (item, r) = f k' id' h in
      let set : ListItem V → ListItem V = λ item. record item { value = v } in
      elim (Bool-cases (id' == id)) [
        | inl t ↦
            let i : id' ≡ id = ground (arith, t) in
            let same : item ≡ at = ground (arith, sym r.stored ∙ ap l.store i ∙ s) in
            let kk : k ≡ k' = sym q ∙ ap (λ (x : ListItem V). x.key) (sym same) ∙ r.key_right in
            (
              set item,
              record {
                stored =
                    ap (λ (b : Bool). if b then map_item set (l.store id') else l.store id') t
                    ∙ ap (map_item set) r.stored;
                key_right = r.key_right;
                value_right = e ∙ ap make kk;
                made = r.made;
              },
            )
        | inr n ↦ (
          item,
          record {
            stored =
                ap (λ (b : Bool). if b then map_item set (l.store id') else l.store id') n
                ∙ r.stored;
            key_right = r.key_right;
            value_right = r.value_right;
            made = r.made;
          },
        )
      ]
