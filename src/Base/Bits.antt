-- ===== src/Base/Bits.antt =====
-- Masks, shifted masks and the union of disjoint bits as arithmetic.
use Prim.Native.Nat.{digits, bit_and, bit_or, bit_and-bitwise, bit_or-bitwise}
use native.Mathlib.Nat.{
  pow-suc, zero-div, div-div-eq-div-mul, zero-mod, mod-one, one-le-pow, div-add-mod,
  mul-add-mod_self_left, mod-eq_of_lt, mod-lt,
}
use matrixcache.Base.{
  ℕ, zero, suc, ◌+◌, ◌-◌, ◌*◌, ◌/◌, ◌%◌, ◌^◌, ◌≤◌, ◌<◌, min, max, ◌≡◌, refl, sym, ◌∙◌, ap, arith,
}

-- A remainder by `2 * p` from the number's half and its low bit.
mod-double : (x p : ℕ) → 1 ≤ p → x % (p * 2) ≡ x / 2 % p * 2 + x % 2
mod-double x p pos =
    let q = x / 2 / p in
    let r = x / 2 % p in
    let whole : p * q + r ≡ x / 2 = div-add-mod (x / 2) p in
    let small : r < p = mod-lt (x / 2) pos in
    let split : x ≡ p * 2 * q + (r * 2 + x % 2) = grind arith in
    ap (λ t. t % (p * 2)) split
    ∙ (mul-add-mod_self_left (p * 2) q (r * 2 + x % 2) ∙ mod-eq_of_lt (omega (arith, small)))

half_mask : (p : ℕ) → 1 ≤ p → (p * 2 - 1) / 2 ≡ p - 1
half_mask p pos = omega arith

mask_digits : (n k x : ℕ) → x ≤ n → digits (λ b. zero) min n x (2 ^ k - 1) ≡ x % 2 ^ k
mask_digits zero k zero h = sym (zero-mod (2 ^ k))
mask_digits zero k (suc x) h = absurd (omega arith)
mask_digits (suc n) k zero h = sym (zero-mod (2 ^ k))
mask_digits (suc n) zero (suc x) h =
    omega (arith, mask_digits n zero (suc x / 2) (omega arith), mod-one (suc x))
mask_digits (suc n) (suc k) (suc x) h =
    let pos : 1 ≤ 2 ^ k = one-le-pow k 2 (omega arith) in
    let ih = mask_digits n k (suc x / 2) (omega arith) in
    rw (pow-suc 2 k, half_mask (2 ^ k) pos, ih, mod-double (suc x) (2 ^ k) pos) (omega arith)

-- The code's mask: one less than a power of two.
pub bit_and-mask : (x k : ℕ) → bit_and x (2 ^ k - 1) ≡ x % 2 ^ k
bit_and-mask x k = bit_and-bitwise x (2 ^ k - 1) ∙ mask_digits x k x (omega arith)

pub bit_or-one_odd : (x : ℕ) → bit_or x 1 % 2 ≡ 1
bit_or-one_odd zero = refl
bit_or-one_odd (suc x) = omega (arith, bit_or-bitwise (suc x) 1)

shifted_digits :
    (n k j x : ℕ)
    → x ≤ n
    → digits (λ b. zero) min n x ((2 ^ j - 1) * 2 ^ k) ≡ x / 2 ^ k % 2 ^ j * 2 ^ k
shifted_digits n zero j x h =
    let whole : (2 ^ j - 1) * 2 ^ 0 ≡ 2 ^ j - 1 = omega arith in
    let one : x / 2 ^ 0 ≡ x = omega arith in rw (whole, one) (omega (arith, mask_digits n j x h))
shifted_digits zero (suc k) j zero h = rw (zero-div (2 ^ suc k), zero-mod (2 ^ j)) (omega arith)
shifted_digits zero (suc k) j (suc x) h = absurd (omega arith)
shifted_digits (suc n) (suc k) j zero h = rw (zero-div (2 ^ suc k), zero-mod (2 ^ j)) (omega arith)
shifted_digits (suc n) (suc k) j (suc x) h =
    let p = 2 ^ k in
    let m = 2 ^ j - 1 in
    let double : 2 ^ suc k ≡ 2 * p = omega (arith, pow-suc 2 k) in
    let half : m * (2 * p) / 2 ≡ m * p = grind arith in
    let even : m * (2 * p) % 2 ≡ 0 = grind arith in
    let ih = shifted_digits n k j (suc x / 2) (omega arith) in
    rw (double, half, even, ih, div-div-eq-div-mul (suc x) 2 p) (omega arith)

-- A mask of `j` bits, shifted by `k`.
pub bit_and-shifted_mask : (x k j : ℕ) → bit_and x ((2 ^ j - 1) * 2 ^ k) ≡ x / 2 ^ k % 2 ^ j * 2 ^ k
bit_and-shifted_mask x k j =
    bit_and-bitwise x ((2 ^ j - 1) * 2 ^ k) ∙ shifted_digits x k j x (omega arith)

or_digits :
    (n k low high : ℕ)
    → low ≤ n
    → low < 2 ^ k
    → digits (λ b. b) max n low (high * 2 ^ k) ≡ low + high * 2 ^ k
or_digits zero k zero high h small = omega arith
or_digits zero k (suc low) high h small = absurd (omega arith)
or_digits (suc n) k zero high h small = omega arith
or_digits (suc n) zero (suc low) high h small = absurd (omega (arith, small))
or_digits (suc n) (suc k) (suc low) high h small =
    let p = 2 ^ k in
    let double = pow-suc 2 k in
    let half : high * (p * 2) / 2 ≡ high * p = grind arith in
    let even : high * (p * 2) % 2 ≡ 0 = grind arith in
    let ih = or_digits n k (suc low / 2) high (omega arith) (omega (arith, small, double)) in
    rw (double, half, even, ih) (omega arith)

-- Bits below 2 ^ k and bits from there on do not meet.
pub bit_or-disjoint :
    (k low high : ℕ) → low < 2 ^ k → bit_or low (high * 2 ^ k) ≡ low + high * 2 ^ k
bit_or-disjoint k low high small =
    bit_or-bitwise low (high * 2 ^ k) ∙ or_digits low k low high (omega arith) small

high_digits :
    (n k high low : ℕ)
    → high ≤ n
    → high % 2 ^ k ≡ 0
    → low < 2 ^ k
    → digits (λ b. b) max n high low ≡ high + low
high_digits zero k zero low h clear small = omega arith
high_digits zero k (suc high) low h clear small = absurd (omega arith)
high_digits (suc n) k zero low h clear small = omega arith
high_digits (suc n) zero (suc high) low h clear small =
    let ih =
      high_digits n zero (suc high / 2) (low / 2) (omega arith) (mod-one (suc high / 2))
        (omega (arith, small)) in
    rw (ih) (omega (arith, small))
high_digits (suc n) (suc k) (suc high) low h clear small =
    let p = 2 ^ k in
    let pos : 1 ≤ p = one-le-pow k 2 (omega arith) in
    let double : 2 ^ suc k ≡ p * 2 = pow-suc 2 k in
    let both = mod-double (suc high) p pos in
    let whole : suc high % (p * 2) ≡ 0 = ap (λ t. suc high % t) (sym double) ∙ clear in
    let ih =
      high_digits n k (suc high / 2) (low / 2) (omega arith) (omega (arith, whole, both))
        (omega (arith, small, double)) in
    rw (ih) (omega (arith, whole, both))

-- The same, with the high bits first.
pub bit_or-high : (k high low : ℕ) → high % 2 ^ k ≡ 0 → low < 2 ^ k → bit_or high low ≡ high + low
bit_or-high k high low clear small =
    bit_or-bitwise high low ∙ high_digits high k high low (omega arith) clear small
