-- ===== src/Gcs/Reduction.antt =====
-- `fastReduction` of nogoutil/gcs/gcs.go: a 64-bit product's high half from four 32-bit ones.
use nogocommons.Base.{ℕ, ◌+◌, ◌*◌, ◌/◌, ◌%◌, ◌≤◌, ◌<◌, ◌≡◌, ◌∙◌, ap, sym, arith}
use nogocommons.Base.{u32_mod, u64_mod, IsU64, add64}

-- `uint64` multiplication.
abbrev pub mul64 : ℕ → ℕ → ℕ
mul64 a b = (a * b) % u64_mod

-- The sums of the four products, which are `vnphi`, `vnpmid`, `npvmid` and `vnplo`.
unfoldable pub sum_products : ℕ → ℕ → ℕ → ℕ → ℕ
sum_products vnphi vnpmid npvmid vnplo =
    let carry = add64 (add64 (vnpmid % u32_mod) (npvmid % u32_mod)) (vnplo / u32_mod) / u32_mod in
    add64 (add64 (add64 vnphi (vnpmid / u32_mod)) (npvmid / u32_mod)) carry

-- `fastReduction`
unfoldable pub fast_reduction : ℕ → ℕ → ℕ → ℕ
unfolding sum_products
fast_reduction v n_hi n_lo =
    let vhi = v / u32_mod in
    let vlo = v % u32_mod in
    sum_products (mul64 vhi n_hi) (mul64 vhi n_lo) (mul64 n_hi vlo) (mul64 vlo n_lo)

-- The product of two halves fits.
product-le : (a b : ℕ) → a < u32_mod → b < u32_mod → a * b ≤ 18446744065119617025
product-le a b ha hb = grind arith

schoolbook :
    (a b c d : ℕ)
    → (a * u32_mod + b) * (c * u32_mod + d) ≡ (a * c) * u64_mod + (a * d + c * b) * u32_mod + b * d
schoolbook a b c d = grind arith

sum_products_lem :
    (p q r s : ℕ)
    → p ≤ 18446744065119617025
    → q ≤ 18446744065119617025
    → r ≤ 18446744065119617025
    → s ≤ 18446744065119617025
    → sum_products (p % u64_mod) (q % u64_mod) (r % u64_mod) (s % u64_mod)
      ≡ (p * u64_mod + (q + r) * u32_mod + s) / u64_mod
unfolding sum_products
sum_products_lem p q r s hp hq hr hs = omega arith

halves : (x : ℕ) → x / u32_mod * u32_mod + x % u32_mod ≡ x
halves x = omega arith

-- `fastReduction` of a 64-bit hash, with the halves of a 64-bit modulus N, is v * N / 2^64: no
-- partial sum overflows and the carry is right.
pub fast_reduction_lem :
    (v n : ℕ) → IsU64 v → IsU64 n → fast_reduction v (n / u32_mod) (n % u32_mod) ≡ v * n / u64_mod
unfolding fast_reduction
fast_reduction_lem v n hv hn =
    let a = v / u32_mod in
    let b = v % u32_mod in
    let c = n / u32_mod in
    let d = n % u32_mod in
    let ha : a < u32_mod = omega arith in
    let hb : b < u32_mod = omega arith in
    let hc : c < u32_mod = omega arith in
    let hd : d < u32_mod = omega arith in
    sum_products_lem (a * c) (a * d) (c * b) (b * d) (product-le a c ha hc) (product-le a d ha hd)
      (product-le c b hc hb) (product-le b d hb hd)
    ∙ ap (λ x. x / u64_mod) (sym (schoolbook a b c d))
    ∙ ap (λ x. x * (c * u32_mod + d) / u64_mod) (halves v)
    ∙ ap (λ x. v * x / u64_mod) (halves n)

pub fast_reduction-IsU64 : (v h l : ℕ) → IsU64 (fast_reduction v h l)
unfolding fast_reduction
fast_reduction-IsU64 v h l = omega arith
