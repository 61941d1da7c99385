-- ===== src/Treap/ParentStack.antt =====
-- database/internal/treap/common.go: `parentStack`, an array of 128 slots with an overflow slice
-- behind it, and that it is a stack: the list of its items, the topmost first.
use nogocommons.Base.{ℕ, zero, suc, ◌+◌, ◌-◌, ◌<◌, ◌≡◌, refl, arith, Option, none, some}
use nogocommons.Base.{List, [], ◌∷◌, ◌++◌, length, length-set, get_elem?, set, replicate, ltb, leb}
use nogocommons.Base.{get_elem?-set_self, get_elem?-set_ne, get_elem?_beyond, get_elem?-append_left}
use nogocommons.Base.{if◌then◌else◌, length-append, length-replicate}

abbrev pub static_depth : ℕ
static_depth = 128

-- A slot that holds nil is `none`. The slice's length is its capacity, since `make` sets both.
pub record ParentStack (A : Type 0) : Type 0 where
  pub index : ℕ
  pub items : List (Option A)
  pub overflow : List (Option A)

module _ {A : Type 0} where
  abbrev pub empty_stack : ParentStack A
  empty_stack = record { index = 0; items = replicate static_depth none; overflow = [] }

  abbrev pointer_in : Option (Option A) → Option A
  pointer_in none = none
  pointer_in (some p) = p

  -- The slot with the number `i`.
  unfoldable pub slot : ParentStack A → ℕ → Option (Option A)
  slot s i =
      if ltb i static_depth then get_elem? s.items i else get_elem? s.overflow (i - static_depth)

  -- `At`
  unfoldable pub at : ParentStack A → ℕ → Option A
  at s n = if leb s.index n then none else pointer_in (slot s (s.index - n - 1))

  -- `Pop`
  unfoldable pub pop : ParentStack A → ParentStack A × Option A
  pop s =
      let i = s.index - 1 in
      if leb s.index 0
      then (s, none)
      else if ltb i static_depth
      then (record s { index = i; items = set s.items i none }, pointer_in (get_elem? s.items i))
      else (
        record s { index = i; overflow = set s.overflow (i - static_depth) none },
        pointer_in (get_elem? s.overflow (i - static_depth)),
      )

  -- The overflow slice grown to hold the position `i`.
  unfoldable pub grown : List (Option A) → ℕ → List (Option A)
  grown overflow i =
      if ltb (length overflow) (i + 1)
      then overflow ++ replicate (i + 1 - length overflow) none
      else overflow

  -- `Push`
  unfoldable pub push : ParentStack A → A → ParentStack A
  unfolding grown
  push s x =
      let i = s.index - static_depth in
      if ltb s.index static_depth
      then record s { index = s.index + 1; items = set s.items s.index (some x) }
      else record s { index = s.index + 1; overflow = set (grown s.overflow i) i (some x) }

  length-grown : (overflow : List (Option A)) (i : ℕ) → i < length (grown overflow i)
  unfolding grown
  length-grown overflow i = ground (
    arith,
    length-append overflow (replicate (i + 1 - length overflow) none),
    length-replicate {A = Option A} (i + 1 - length overflow) none,
  )

  get_elem?-grown :
      (overflow : List (Option A)) (i j : ℕ) (v : Option A)
      → get_elem? overflow j ≡ some v
      → get_elem? (grown overflow i) j ≡ some v
  unfolding grown
  get_elem?-grown overflow i j v h =
      ground
        (arith, get_elem?-append_left overflow (replicate (i + 1 - length overflow) none) j v h)

  -- The list stands in the slots, its last item lowest.
  abbrev Holds : ParentStack A → List A → Type 0
  Holds s [] = Unit
  Holds s (x ∷ xs) = (slot s (length xs) ≡ some (some x)) × Holds s xs

  pub record Represents (s : ParentStack A) (xs : List A) : Type 0 where
    pub index_length : s.index ≡ length xs
    pub fixed : length s.items ≡ static_depth
    pub holds : Holds s xs

  Holds-imp :
      (s u : ParentStack A) (xs : List A)
      → ((i : ℕ) (v : Option A) → i < length xs → slot s i ≡ some v → slot u i ≡ some v)
      → Holds s xs
      → Holds u xs
  Holds-imp s u [] f h = tt
  Holds-imp s u (x ∷ xs) f (h, hs) = (
    f (length xs) (some x) (omega arith) h,
    Holds-imp s u xs (λ i v lt e. f i v (omega arith) e) hs,
  )

  Holds-get :
      (s : ParentStack A) (xs : List A) (n : ℕ)
      → Holds s xs
      → n < length xs
      → pointer_in (slot s (length xs - n - 1)) ≡ get_elem? xs n
  Holds-get s (x ∷ xs) zero (h, hs) lt =
      let e : suc (length xs) - 0 - 1 ≡ length xs = omega arith in rw (e, h)
  Holds-get s (x ∷ xs) (suc n) (h, hs) lt =
      let e : suc (length xs) - suc n - 1 ≡ length xs - n - 1 = omega arith in
      rw e (Holds-get s xs n hs (omega arith))
  Holds-get s [] n h lt = absurd (omega arith)

  -- On a stack that represents a list, `At` returns the item of that position from the top, and
  -- nil beyond the bottom.
  pub at-get_elem? :
      (s : ParentStack A) (xs : List A) (n : ℕ) → Represents s xs → at s n ≡ get_elem? xs n
  unfolding at
  at-get_elem? s xs n r = ground (arith, get_elem?_beyond xs n, Holds-get s xs n r.holds)

  pub empty-Represents : Represents empty_stack []
  empty-Represents = record {
    index_length = refl;
    fixed = length-replicate {A = Option A} static_depth none;
    holds = tt;
  }

  slot-push_self :
      (s : ParentStack A) (x : A)
      → length s.items ≡ static_depth
      → slot (push s x) s.index ≡ some (some x)
  unfolding slot push
  slot-push_self s x f = ground (
    arith,
    get_elem?-set_self s.items s.index (some x),
    get_elem?-set_self (grown s.overflow (s.index - 128)) (s.index - 128) (some x),
    length-grown s.overflow (s.index - 128),
  )

  slot-push_other :
      (s : ParentStack A) (x : A) (i : ℕ) (v : Option A)
      → i < s.index
      → slot s i ≡ some v
      → slot (push s x) i ≡ some v
  unfolding slot push
  slot-push_other s x i v h e = ground (
    arith,
    get_elem?-set_ne s.items s.index i (some x),
    get_elem?-set_ne (grown s.overflow (s.index - 128)) (s.index - 128) (i - 128) (some x),
    get_elem?-grown s.overflow (s.index - 128) (i - 128) v,
  )

  -- `Push` on a stack that represents a list leaves one that represents the list with the item
  -- on top, in the array or in the overflow slice.
  pub push-Represents :
      (s : ParentStack A) (x : A) (xs : List A) → Represents s xs → Represents (push s x) (x ∷ xs)
  push-Represents s x xs r =
      let self = slot-push_self s x r.fixed in
      record {
        index_length = unfold push in ground (arith, r.index_length);
        fixed = unfold push in ground (arith, r.fixed, length-set s.items s.index (some x));
        holds = (
          rw (← r.index_length) self,
          Holds-imp s (push s x) xs
              (λ i v h e. slot-push_other s x i v (omega (arith, r.index_length)) e) r.holds,
        );
      }

  slot-pop_other :
      (s : ParentStack A) (i : ℕ) (v : Option A)
      → i + 1 < s.index
      → slot s i ≡ some v
      → slot (pop s).0 i ≡ some v
  unfolding slot pop
  slot-pop_other s i v h e = ground (
    arith,
    get_elem?-set_ne s.items (s.index - 1) i none,
    get_elem?-set_ne s.overflow (s.index - 1 - 128) (i - 128) none,
  )

  -- `Pop` on a stack that represents a list with an item on top returns the item, and leaves a
  -- stack that represents the rest.
  pub pop-Represents :
      (s : ParentStack A) (x : A) (xs : List A)
      → Represents s (x ∷ xs)
      → ((pop s).1 ≡ some x) × Represents (pop s).0 xs
  pop-Represents s x xs r = (
    unfold pop slot in ground (arith, r.index_length, r.holds.0),
    record {
      index_length = unfold pop in ground (arith, r.index_length);
      fixed = unfold pop in ground (arith, r.fixed, length-set s.items (s.index - 1) none);
      holds =
          Holds-imp s (pop s).0 xs
            (λ i v h e. slot-pop_other s i v (omega (arith, r.index_length)) e) r.holds.1;
    },
  )

  pub pop_empty : (s : ParentStack A) → Represents s [] → pop s ≡ (s, none)
  unfolding pop
  pop_empty s r = ground (arith, r.index_length)
