-- ===== src/HeaderList/Items.antt =====
-- Lists of the headers of neutrino/headerlist with their heights, and chains as such lists.
use nogocommons.Base.{ℕ, zero, suc, ◌+◌, ◌-◌, ◌<◌, ◌≡◌, refl, ap, sym, ◌∙◌, arith}
use nogocommons.Base.{◌&&◌, Option, none, some, leb, ltb, ◌==◌, if◌then◌else◌}
use nogocommons.Base.{min, List, [], ◌∷◌, take, map, length}
use nogocommons.Wire.Header.{BlockHeader}
use nogocommons.HeaderList.Node.{Node}

-- A height with its header.
abbrev pub Item : Type 0
Item = ℕ × BlockHeader

abbrev pub content : Node → Item
content n = (n.height, n.header)

-- The nodes stand one above the other.
abbrev pub AreConsecutive : ℕ → List Node → Type 0
AreConsecutive base [] = Unit
AreConsecutive base (x ∷ xs) = (x.height ≡ base + length xs) × AreConsecutive base xs

-- What following `Prev` from a node visits.
abbrev pub visit : ℕ → (ℕ → Node) → Option ℕ → List Item
visit zero nodes at = []
visit (suc fuel) nodes none = []
visit (suc fuel) nodes (some i) = content (nodes i) ∷ visit fuel nodes (nodes i).prev

-- A linear search.
abbrev pub find_height : ℕ → List Item → Option Item
find_height height [] = none
find_height height ((h, x) ∷ xs) =
    let rest = find_height height xs in if h == height then some (h, x) else rest

abbrev pub oldest : List Item → Option Item
oldest [] = none
oldest (x ∷ []) = some x
oldest (x ∷ y ∷ xs) = oldest (y ∷ xs)

-- The headers by their numbers in the order of the insertions.
abbrev pub header_of : Node → List Node → ℕ → BlockHeader
header_of x [] k = x.header
header_of x (y ∷ ys) k =
    let rest = header_of y ys k in if k == suc (length ys) then x.header else rest

-- n items, the newest first, from the number lo on.
abbrev pub down : ℕ → (ℕ → BlockHeader) → (lo n : ℕ) → List Item
down base headers lo zero = []
down base headers lo (suc n) = (base + (lo + n), headers (lo + n)) ∷ down base headers lo n

pub down-cong :
    (base : ℕ) (f g : ℕ → BlockHeader) (lo n : ℕ)
    → ((k : ℕ) → k < lo + n → f k ≡ g k)
    → down base f lo n ≡ down base g lo n
down-cong base f g lo zero h = refl
down-cong base f g lo (suc n) h =
    ground (arith, h (lo + n) (omega arith), down-cong base f g lo n (λ k l. h k (omega arith)))

pub take-down :
    (base : ℕ) (x : Node) (xs : List Node) (lo n : ℕ)
    → AreConsecutive base (x ∷ xs)
    → lo + n ≡ suc (length xs)
    → take n (map content (x ∷ xs)) ≡ down base (header_of x xs) lo n
take-down base x xs lo zero c e = refl
take-down base x [] lo (suc zero) (h, c) e = ground (arith, h, e)
take-down base x [] lo (suc (suc n)) (h, c) e = absurd (omega arith)
take-down base x (y ∷ ys) lo (suc n) (h, c) e = ground (
  arith,
  h,
  e,
  take-down base y ys lo n c (omega arith),
  down-cong base (header_of y ys) (header_of x (y ∷ ys)) lo n (λ k l. ground (arith, l, e)),
)

pub find-down :
    (base : ℕ) (headers : ℕ → BlockHeader) (lo height n : ℕ)
    → find_height height (down base headers lo n) ≡ (
        if leb (base + lo) height && ltb height (base + (lo + n))
        then some (height, headers (height - base))
        else none)
find-down base headers lo height zero = ground arith
find-down base headers lo height (suc n) = ground (arith, find-down base headers lo height n)

pub oldest-down :
    (base : ℕ) (headers : ℕ → BlockHeader) (lo n : ℕ)
    → oldest (down base headers lo (suc n)) ≡ some (base + lo, headers lo)
oldest-down base headers lo zero = ground arith
oldest-down base headers lo (suc n) = oldest-down base headers lo n

take_nil : (n : ℕ) → take {A = Item} n [] ≡ []
take_nil zero = refl
take_nil (suc n) = refl

pub take-length : (n : ℕ) (xs : List Item) → take n xs ≡ take (min (length xs) n) xs
take-length zero xs = ground arith
take-length (suc n) [] = sym (take_nil (min 0 (suc n)))
take-length (suc n) (x ∷ xs) =
    let one_more : suc (min (length xs) n) ≡ min (suc (length xs)) (suc n) = omega arith in
    ap (λ t. x ∷ t) (take-length n xs) ∙ ap (λ k. take k (x ∷ xs)) one_more
