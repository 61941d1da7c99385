-- ===== src/Treap/Gaps.antt =====
-- The map operations, and the order, around one position of an ascending list of entries: at an
-- entry that holds the key, and at a gap where the key would stand.
use nogocommons.Base.{◌≡◌, sym, ◌∙◌, none, some, List, ◌∷◌, ◌++◌, Bytes}
use nogocommons.Treap.Node.{Entry}
use nogocommons.Treap.Order.{
  Below, Above, Ascending, Ascending-split, Ascending-append, Ascending-join,
}
use nogocommons.Treap.Order.{Ascending-left, Ascending-right}
use nogocommons.Treap.SortedMap.{
  pairs, lookup, insert, erase, pairs-append, lookup-append, lookup-Above, lookup_here,
  insert-append, insert-Above, insert_here, erase-append, erase-Above, erase_here,
}

module _ (xs ys : List Entry) (e : Entry) (h : Ascending (xs ++ (e ∷ ys))) where
  pub lookup_hit : lookup e.key (pairs (xs ++ (e ∷ ys))) ≡ some e.value
  lookup_hit =
      lookup-append e.key xs (e ∷ ys) (Ascending-split xs e ys h).0
      ∙ lookup_here e.key e.value (pairs ys)

  pub insert_hit :
      (v : Bytes)
      → insert e.key v (pairs (xs ++ (e ∷ ys))) ≡ pairs (xs ++ (record e { value = v } ∷ ys))
  insert_hit v =
      insert-append e.key v xs (e ∷ ys) (Ascending-split xs e ys h).0
      ∙ rw insert_here (sym (pairs-append xs (record e { value = v } ∷ ys)))

  pub erase_hit : erase e.key (pairs (xs ++ (e ∷ ys))) ≡ pairs (xs ++ ys)
  erase_hit =
      erase-append e.key xs (e ∷ ys) (Ascending-split xs e ys h).0
      ∙ rw erase_here (sym (pairs-append xs ys))

  pub Ascending-set : (v : Bytes) → Ascending (xs ++ (record e { value = v } ∷ ys))
  Ascending-set v =
      let (below, above, left, right) = Ascending-split xs e ys h in
      Ascending-join xs (record e { value = v }) ys below above left right

  pub Ascending-remove : Ascending (xs ++ ys)
  Ascending-remove =
      let (below, above, left, right) = Ascending-split xs e ys h in
      Ascending-append e.key xs ys below above left right

module _ (k : Bytes) (xs ys : List Entry) (b : Below k xs) (a : Above k ys) where
  pub lookup_miss : lookup k (pairs (xs ++ ys)) ≡ none
  lookup_miss = lookup-append k xs ys b ∙ lookup-Above k ys a

  pub insert_miss : (v : Bytes) → insert k v (pairs (xs ++ ys)) ≡ pairs xs ++ ((k, v) ∷ pairs ys)
  insert_miss v = insert-append k v xs ys b ∙ rw (insert-Above k v ys a)

  pub erase_miss : erase k (pairs (xs ++ ys)) ≡ pairs (xs ++ ys)
  erase_miss = erase-append k xs ys b ∙ rw (erase-Above k ys a) (sym (pairs-append xs ys))

pub Ascending-add :
    (xs ys : List Entry) (e : Entry)
    → Below e.key xs
    → Above e.key ys
    → Ascending (xs ++ ys)
    → Ascending (xs ++ (e ∷ ys))
Ascending-add xs ys e b a h =
    Ascending-join xs e ys b a (Ascending-left xs ys h) (Ascending-right xs ys h)
