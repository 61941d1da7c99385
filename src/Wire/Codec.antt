-- ===== src/Wire/Codec.antt =====
-- What the readers and writers of wire share. A reader takes the bytes that are still to come and
-- returns its value with the bytes behind it; a writer returns the bytes that it writes. The writers
-- of the source fail only where the `io.Writer` below them does, which is left out.
use nogocommons.Base.{ℕ, zero, suc, ◌≤◌, ◌≡◌, refl, ◌∙◌, ap, arith, Bool, true, false}
use nogocommons.Base.{
  List, [], ◌∷◌, ◌++◌, append_assoc, length, length-append, take, drop, leb, ◌==◌,
}
use nogocommons.Base.{if◌then◌else◌, Bytes, All}

-- The errors of `io.ReadFull`, and the `messageError`s that the readers raise.
pub data Error : Type 0 where
  eof : Error
  unexpected_eof : Error
  non_canonical : Error
  too_large : Error
  exceeds_buffer : Error
  bad_flag : Error
  superfluous_witness : Error
  has_transactions : Error

-- What a reader returns: a value, or the error that stopped it.
pub data Result (Value : Type 0) : Type 0 where
  err : (why : Error) → Result Value
  ok : (value : Value) → Result Value

-- An early return of an error, unless the test holds.
abbrev pub guard : (holds : Bool) → Error → Result (Unit {0})
guard holds why = elim holds [ true ↦ ok tt | false ↦ err why ]

infixl 5 ◌>>=◌ ◌>>◌
abbrev pub ◌>>=◌ : {S T : Type 0} → Result S → (next : S → Result T) → Result T
err why >>= next = err why
ok value >>= next = next value

abbrev pub ◌>>◌ : {T : Type 0} → Result (Unit {0}) → Result T → Result T
first >> second = first >>= λ _. second

-- A sequence that succeeds has a first step that does.
pub >>=-ok_both :
    {S T : Type 0} (m : Result S) (next : S → Result T) {t : T}
    → m >>= next ≡ ok t
    → (s : S) × (m ≡ ok s) × (next s ≡ ok t)
>>=-ok_both (err why) next both = cc
>>=-ok_both (ok s) next both = (s, refl, both)

-- `io.ReadFull` into a slice of `n` bytes.
unfoldable pub read_full : ℕ → Bytes → Result (Bytes × Bytes)
read_full n r =
    if leb n (length r)
    then ok (take n r, drop n r)
    else if length r == 0
    then err eof
    else err unexpected_eof

pub take-append : (xs ys : Bytes) → take (length xs) (xs ++ ys) ≡ xs
take-append [] ys = refl
take-append (x ∷ xs) ys = ground (arith, take-append xs ys)

pub drop-append : (xs ys : Bytes) → drop (length xs) (xs ++ ys) ≡ ys
drop-append [] ys = refl
drop-append (x ∷ xs) ys = drop-append xs ys

pub read_full-append :
    (n : ℕ) (xs rest : Bytes) → length xs ≡ n → read_full n (xs ++ rest) ≡ ok (xs, rest)
unfolding read_full
read_full-append n xs rest h =
    ground (arith, length-append xs rest, take-append xs rest, drop-append xs rest)

-- What `read_full` returns is what stood at the front.
take-drop : (n : ℕ) (r : Bytes) → take n r ++ drop n r ≡ r
take-drop zero r = refl
take-drop (suc n) [] = refl
take-drop (suc n) (x ∷ r) = ground (arith, take-drop n r)

length-take : (n : ℕ) (r : Bytes) → n ≤ length r → length (take n r) ≡ n
length-take zero r h = refl
length-take (suc n) [] h = absurd (omega arith)
length-take (suc n) (x ∷ r) h = omega (arith, length-take n r (omega arith))

pub read_full-ok :
    (n : ℕ) (r xs rest : Bytes) → read_full n r ≡ ok (xs, rest) → (r ≡ xs ++ rest) × (length xs ≡ n)
unfolding read_full
read_full-ok n r xs rest h = ground (arith, take-drop n r, length-take n r)

-- If `feed x s` is a state from which `x` is read and `s` is left, the items are read in turn.
unfoldable pub feed_all : {S A : Type 0} → (A → S → S) → List A → S → S
feed_all feed [] s = s
feed_all feed (x ∷ xs) s = feed x (feed_all feed xs s)

-- `for i := 0; i < count; i++`: read `count` items, or stop at the first error.
module _ {S A : Type 0} (read : S → Result (A × S)) where
  unfoldable pub read_many : ℕ → S → Result (List A × S)
  read_many zero s = ok ([], s)
  read_many (suc n) s = do (x, s') ← read s; (xs, s'') ← read_many n s'; ok (x ∷ xs, s'')

  pub read_many-feed_all :
      {P : A → Type 0} (feed : A → S → S)
      → ((x : A) (s : S) → P x → read (feed x s) ≡ ok (x, s))
      → (xs : List A) (s : S) → All P xs
      → read_many (length xs) (feed_all feed xs s) ≡ ok (xs, s)
  unfolding read_many feed_all
  read_many-feed_all feed law [] s h = refl
  read_many-feed_all feed law (x ∷ xs) s (h, hs) =
      rw (law x (feed_all feed xs s) h, ◌>>=◌, read_many-feed_all feed law xs s hs, ◌>>=◌)

-- The loop of a writer over the items.
unfoldable pub write_many : {A : Type 0} → (A → Bytes) → List A → Bytes
write_many write [] = []
write_many write (x ∷ xs) = write x ++ write_many write xs

written-feed_all :
    {A : Type 0} (write : A → Bytes) (xs : List A) (rest : Bytes)
    → write_many write xs ++ rest ≡ feed_all (λ x s. write x ++ s) xs rest
unfolding write_many feed_all
written-feed_all write [] rest = refl
written-feed_all write (x ∷ xs) rest =
    append_assoc (write x) (write_many write xs) rest
    ∙ ap (λ s. write x ++ s) (written-feed_all write xs rest)

-- Reading back what such a loop has written.
pub read_many-write_many :
    {A : Type 0} {P : A → Type 0} (read : Bytes → Result (A × Bytes)) (write : A → Bytes)
    → ((x : A) (s : Bytes) → P x → read (write x ++ s) ≡ ok (x, s))
    → (xs : List A) (rest : Bytes) → All P xs
    → read_many read (length xs) (write_many write xs ++ rest) ≡ ok (xs, rest)
read_many-write_many read write law xs rest h =
    ap (read_many read (length xs)) (written-feed_all write xs rest)
    ∙ read_many-feed_all read (λ x s. write x ++ s) law xs rest h
