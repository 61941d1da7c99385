-- ===== src/Treap/MutableLaws.antt =====
-- A mutable treap does what the immutable treap of the same tree does.
use nogocommons.Base.{ℕ, ◌≡◌, refl, ap, ◌∙◌, sym, Option, none, some, [], ◌∷◌, Bytes}
use nogocommons.Treap.Node.{Tree, nil, node, Entry, Parents, descend, frame_entry}
use nogocommons.Treap.Immutable
use nogocommons.Treap.Immutable.{Immutable}
use nogocommons.Treap.Mutable
use nogocommons.Treap.Mutable.{Mutable}
use nogocommons.Treap.SortedMap.{insert, erase, lookup}
use nogocommons.Treap.Valid.{IsValid, view, value_at, value-find, get-lookup}
use nogocommons.Treap.Put.{put-IsValid, view-put}
use nogocommons.Treap.Delete.{delete-IsValid, view-delete}

-- The immutable treap with the same fields.
abbrev pub snapshot : Mutable → Immutable
snapshot t = record { root = t.root; count = t.count; total_size = t.total_size }

put_at-snapshot :
    (t : Mutable) (e : Entry) (p : Parents) (place : Tree)
    → snapshot (Mutable.put_at t e p place) ≡ Immutable.put_at (snapshot t) e p place
unfolding Mutable.put_at Immutable.put_at
put_at-snapshot t e p nil = refl
put_at-snapshot t e p (node l old r) = refl

pub put-snapshot :
    (t : Mutable) (k : Bytes) (v : Option Bytes) (n : ℕ)
    → snapshot (Mutable.put t k v n) ≡ Immutable.put (snapshot t) k v n
put-snapshot t k v n = go t.root t.count t.total_size
  where
    go :
        (root : Tree) (count size : ℕ)
        → let t' : Mutable = record { root = root; count = count; total_size = size } in
          snapshot (Mutable.put t' k v n) ≡ Immutable.put (snapshot t') k v n
    go nil count size = unfold Mutable.put Immutable.put in refl
    go (node l e r) count size =
        unfold Mutable.put Immutable.put in
        put_at-snapshot (record { root = node l e r; count = count; total_size = size })
          (record { key = k; value = Immutable.stored_value v; priority = n })
          (descend k (node l e r) []).0 (descend k (node l e r) []).1

delete_from-snapshot :
    (t : Mutable) (l : Tree) (e : Entry) (r : Tree) (p : Parents)
    → snapshot (Mutable.delete_from t l e r p) ≡ Immutable.delete_from (snapshot t) l e r p
unfolding Mutable.delete_from Immutable.delete_from Immutable.new_immutable
delete_from-snapshot t nil e nil [] = refl
delete_from-snapshot t nil e nil (f ∷ p) = refl
delete_from-snapshot t nil e (node _ _ _) p = refl
delete_from-snapshot t (node _ _ _) e r p = refl

delete_place-snapshot :
    (t : Mutable) (p : Parents) (place : Tree)
    → let u : Mutable = elim place [ nil ↦ t | node l e r ↦ Mutable.delete_from t l e r p ] in
      let w : Immutable = elim place [
        | nil ↦ snapshot t
        | node l e r ↦ Immutable.delete_from (snapshot t) l e r p
      ] in
      snapshot u ≡ w
delete_place-snapshot t p nil = refl
delete_place-snapshot t p (node l e r) = delete_from-snapshot t l e r p

pub delete-snapshot :
    (t : Mutable) (k : Bytes) → snapshot (Mutable.delete t k) ≡ Immutable.delete (snapshot t) k
unfolding Mutable.delete Immutable.delete
delete-snapshot t k = delete_place-snapshot t (descend k t.root []).0 (descend k t.root []).1

get_place-snapshot :
    (p : Parents) (place : Tree)
    → let found : Option Entry × Option Entry = elim place [
      | nil ↦ (none, none)
      | node l e r ↦ (some e, elim p [ [] ↦ none | f ∷ p' ↦ some (frame_entry f) ])
    ] in
      let value : Option Bytes = elim found.0 [ none ↦ none | some e ↦ some e.value ] in
      value ≡ value_at place
get_place-snapshot p nil = refl
get_place-snapshot p (node l e r) = refl

pub get-snapshot : (t : Mutable) (k : Bytes) → Mutable.get t k ≡ Immutable.get (snapshot t) k
unfolding Mutable.get Immutable.get
get-snapshot t k =
    get_place-snapshot (descend k t.root []).0 (descend k t.root []).1 ∙ sym (value-find k t.root)

-- On a mutable treap whose fields are those of a valid immutable one, `Get` reads the sorted
-- list of the pairs, `Put` and `Delete` leave a valid treap, and the list is then that after the
-- insertion or the erasure.
pub mutable_refines :
    (t : Mutable) (k : Bytes) (v : Option Bytes) (n : ℕ)
    → IsValid (snapshot t)
    → (Mutable.get t k ≡ lookup k (view (snapshot t)))
      × IsValid (snapshot (Mutable.put t k v n))
      × (view (snapshot (Mutable.put t k v n))
          ≡ insert k (Immutable.stored_value v) (view (snapshot t)))
      × IsValid (snapshot (Mutable.delete t k))
      × (view (snapshot (Mutable.delete t k)) ≡ erase k (view (snapshot t)))
mutable_refines t k v n h = (
  get-snapshot t k ∙ get-lookup (snapshot t) k h,
  rw (put-snapshot t k v n) (put-IsValid (snapshot t) k v n h),
  ap view (put-snapshot t k v n) ∙ view-put (snapshot t) k v n h,
  rw (delete-snapshot t k) (delete-IsValid (snapshot t) k h),
  ap view (delete-snapshot t k) ∙ view-delete (snapshot t) k h,
)
