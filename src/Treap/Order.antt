-- ===== src/Treap/Order.antt =====
-- The order of the keys in a treap, and where the search for a key ends.
use nogocommons.Base.{
  ◌≡◌, sym, inl, inr, Ordering-cases, List, [], ◌∷◌, ◌++◌, All, All-append, All-imp,
}
use nogocommons.Base.{All-append_left, All-append_right}
use nogocommons.Base.{Bytes, compare_bytes, ◌≺◌, ≺_trans, eq_of_compare, lt_of_gt}
use nogocommons.Treap.Node.{Tree, nil, node, Entry, went_left, went_right, Parents, descend}
use nogocommons.Treap.Inorder.{inorder, before, after}

-- Every key of the list is less, or greater, than `k`.
abbrev pub Below : Bytes → List Entry → Type 0
Below k xs = All (λ e. e.key ≺ k) xs

abbrev pub Above : Bytes → List Entry → Type 0
Above k xs = All (λ e. k ≺ e.key) xs

abbrev pub Ascending : List Entry → Type 0
Ascending [] = Unit
Ascending (e ∷ xs) = Above e.key xs × Ascending xs

pub Above-trans : (j k : Bytes) (xs : List Entry) → j ≺ k → Above k xs → Above j xs
Above-trans j k xs h = All-imp (λ e g. ≺_trans j k e.key h g) xs

pub Below-trans : (j k : Bytes) (xs : List Entry) → j ≺ k → Below j xs → Below k xs
Below-trans j k xs h = All-imp (λ e g. ≺_trans e.key j k g h) xs

-- A list is ascending around an entry exactly if its two sides are, below and above the entry.
pub Ascending-split :
    (xs : List Entry) (e : Entry) (ys : List Entry)
    → Ascending (xs ++ (e ∷ ys))
    → Below e.key xs × Above e.key ys × Ascending xs × Ascending ys
Ascending-split [] e ys h = (tt, h.0, tt, h.1)
Ascending-split (x ∷ xs) e ys (h, hs) =
    let (below, above, left, right) = Ascending-split xs e ys hs in
    let over = All-append_right (λ (a : Entry). x.key ≺ a.key) xs (e ∷ ys) h in
    (
      (over.0, below),
      above,
      (All-append_left (λ (a : Entry). x.key ≺ a.key) xs (e ∷ ys) h, left),
      right,
    )

pub Ascending-append :
    (k : Bytes) (xs ys : List Entry)
    → Below k xs
    → Above k ys
    → Ascending xs
    → Ascending ys
    → Ascending (xs ++ ys)
Ascending-append k [] ys bx ay hx hy = hy
Ascending-append k (x ∷ xs) ys (b, bx) ay (h, hx) hy = (
  All-append (λ (a : Entry). x.key ≺ a.key) xs ys h (Above-trans x.key k ys b ay),
  Ascending-append k xs ys bx ay hx hy,
)

pub Ascending-join :
    (xs : List Entry) (e : Entry) (ys : List Entry)
    → Below e.key xs
    → Above e.key ys
    → Ascending xs
    → Ascending ys
    → Ascending (xs ++ (e ∷ ys))
Ascending-join [] e ys b a hx hy = (a, hy)
Ascending-join (x ∷ xs) e ys (b, bs) a (h, hx) hy = (
  All-append (λ (y : Entry). x.key ≺ y.key) xs (e ∷ ys) h (b, Above-trans x.key e.key ys b a),
  Ascending-join xs e ys bs a hx hy,
)

pub Ascending-left : (xs ys : List Entry) → Ascending (xs ++ ys) → Ascending xs
Ascending-left [] ys h = tt
Ascending-left (x ∷ xs) ys (h, hs) =
    (All-append_left (λ (a : Entry). x.key ≺ a.key) xs ys h, Ascending-left xs ys hs)

pub Ascending-right : (xs ys : List Entry) → Ascending (xs ++ ys) → Ascending ys
Ascending-right [] ys h = h
Ascending-right (x ∷ xs) ys (h, hs) = Ascending-right xs ys hs

-- The place for the key `k`: what stands before is less, what stands behind is greater, and a node
-- at the place holds `k`.
abbrev Holds : Bytes → Tree → Type 0
Holds k nil = Unit
Holds k (node l e r) = e.key ≡ k

pub record IsPlace (k : Bytes) (p : Parents) (t : Tree) : Type 0 where
  pub below : Below k (before p)
  pub above : Above k (after p)
  pub holds : Holds k t

pub descend-IsPlace :
    (k : Bytes) (t : Tree) (p : Parents)
    → Ascending (inorder t)
    → Below k (before p)
    → Above k (after p)
    → IsPlace k (descend k t p).0 (descend k t p).1
unfolding descend
descend-IsPlace k nil p h b a = record { below = b; above = a; holds = tt }
descend-IsPlace k (node l e r) p h b a =
    let (below, above, left, right) = Ascending-split (inorder l) e (inorder r) h in
    elim (Ordering-cases (compare_bytes k e.key)) [
      | inl less ↦
          rw (less, descend)
            (descend-IsPlace k l (went_left e r ∷ p) left b (
              less,
              All-append (λ x. k ≺ x.key) (inorder r) (after p)
                  (Above-trans k e.key (inorder r) less above) a,
            ))
      | inr (inl same) ↦
          rw (same, descend)
            (record { below = b; above = a; holds = sym (eq_of_compare k e.key same) })
      | inr (inr more) ↦
          let over = lt_of_gt k e.key more in
          rw (more, descend)
            (descend-IsPlace k r (went_right e l ∷ p) right
              (All-append (λ x. x.key ≺ k) (before p) (inorder l ++ (e ∷ [])) b
                (All-append (λ x. x.key ≺ k) (inorder l) (e ∷ [])
                  (Below-trans e.key k (inorder l) over below) (over, tt)))
              a)
    ]
