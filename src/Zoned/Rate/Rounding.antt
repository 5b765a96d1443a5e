-- ===== src/Zoned/Rate/Rounding.antt =====
-- src/runtime/zoned_store.rs, `ZoneGroup::garbage_rate`: how far a rounded quotient can be off.
use native.Mathlib.Nat.{
  div-add-mod, mod-lt, zero-div, zero-mod, le-div_iff_mul-le, mul-le-mul_left, mul-le-mul_right,
  one-le-pow, pow-suc,
}
use matrixcache.Base.{
  ℕ, zero, suc, ◌+◌, ◌-◌, ◌*◌, ◌/◌, ◌%◌, ◌^◌, ◌≤◌, ◌<◌, ◌≡◌, ap, ◌∙◌, ltb, leb, arith, Bool-cases,
  inl, inr, ◌⊎◌,
}
use matrixcache.Zoned.Rate.{nearest, log2, exponent, as_f64, f64_quotient}

mod_two : (q : ℕ) → (q % 2 ≡ 0) ⊎ (q % 2 ≡ 1)
mod_two q = elim (Bool-cases (ltb (q % 2) 1)) [
  | inl e ↦ inl (ground (arith, e))
  | inr e ↦ inr (ground (arith, e))
]

-- The nearest number is off by at most a half.
nearest-close :
    (num den : ℕ)
    → 0 < den
    → (2 * (nearest num den * den) ≤ 2 * num + den) × (2 * num ≤ 2 * (nearest num den * den) + den)
unfolding nearest
nearest-close num den positive =
    let q = num / den in
    let r = num % den in
    let whole : den * q + r ≡ num = div-add-mod num den in
    let part : r < den = mod-lt num positive in
    elim (Bool-cases (ltb (2 * r) den)) [
      | inl e ↦ rw e (
          let small : 2 * r < den = ground (arith, e) in
          (grind (arith, whole), grind (arith, whole)))
      | inr e ↦ elim (Bool-cases (ltb den (2 * r))) [
        | inl d ↦
            rw (e, d)
              (let large : den < 2 * r = ground (arith, d) in
                (grind (arith, whole), grind (arith, whole)))
        | inr d ↦
            (let even : 2 * r ≡ den = ground (arith, e, d) in
              elim (mod_two q) [
                | inl z ↦ rw (e, d, z) (grind (arith, whole), grind (arith, whole))
                | inr o ↦ rw (e, d, o) (grind (arith, whole), grind (arith, whole))
              ])
      ]
    ]

one_more : (n : ℕ) → n + 1 ≡ suc n
one_more n = omega arith

pow-log2 : (steps n : ℕ) → 0 < n → 2 ^ log2 steps n ≤ n
unfolding log2
pow-log2 zero n h = omega (arith, h)
pow-log2 (suc steps) n h = elim (Bool-cases (ltb n 2)) [
  | inl e ↦ rw e (omega (arith, h))
  | inr e ↦
      (let large : 2 ≤ n = ground (arith, e) in
        let ih = pow-log2 steps (n / 2) (omega (arith, large)) in
        let double = pow-suc 2 (log2 steps (n / 2)) in
        rw e (omega (arith, ap (λ k. 2 ^ k) (one_more (log2 steps (n / 2))), double, ih)))
]

two-pow-plus : (k m : ℕ) → 2 ^ (k + m) ≡ 2 ^ k * 2 ^ m
two-pow-plus k zero = ap (λ n. 2 ^ n) (the_same k) ∙ omega arith
  where
    the_same : (k : ℕ) → k + 0 ≡ k
    the_same k = omega arith
two-pow-plus k (suc m) =
    ap (λ n. 2 ^ n) (later k m) ∙ (pow-suc 2 (k + m) ∙ grind (arith, two-pow-plus k m, pow-suc 2 m))
  where
    later : (k m : ℕ) → k + suc m ≡ suc (k + m)
    later k m = omega arith

-- The last of 53 digits is at most one part in 2 ^ 52.
pow-exponent : (n : ℕ) → 2 ^ 52 ≤ n → 2 ^ exponent n * 2 ^ 52 ≤ n
unfolding exponent
pow-exponent n h =
    let l = log2 256 n in
    elim (Bool-cases (leb l 52)) [
      | inl e ↦ (let none : l - 52 ≡ 0 = ground (arith, e) in rw none (omega (arith, h)))
      | inr e ↦
          (let split : l ≡ (l - 52) + 52 = ground (arith, e) in
            let whole : 2 ^ l ≡ 2 ^ (l - 52) * 2 ^ 52 =
              ap (λ k. 2 ^ k) split ∙ two-pow-plus (l - 52) 52 in
            omega (arith, whole, pow-log2 256 n (omega (arith, h))))
    ]

-- One number is another, but for one part in 2 ^ 53.
pub record Close (a b : ℕ) : Type 0 where
  pub above : 2 ^ 53 * a ≤ (2 ^ 53 + 1) * b
  pub below : (2 ^ 53 - 1) * b ≤ 2 ^ 53 * a

as_f64-Close : (num den : ℕ) → 0 < den → 2 ^ 52 ≤ num / den → Close (as_f64 num den * den) num
unfolding as_f64
as_f64-Close num den positive large =
    let e = exponent (num / den) in
    let d = den * 2 ^ e in
    let n = nearest num d in
    let pos : 1 ≤ 2 ^ e = one-le-pow e 2 (omega arith) in
    let some_den : 0 < d = grind (arith, positive, pos) in
    let (over, under) = nearest-close num d some_den in
    let last = pow-exponent (num / den) large in
    let whole = div-add-mod num den in
    let times : den * (2 ^ e * 2 ^ 52) ≤ den * (num / den) = mul-le-mul_left den last in
    let small : d * 2 ^ 52 ≤ num = grind (arith, times, whole) in
    let same : n * 2 ^ e * den ≡ n * d = grind arith in
    record { above = omega (arith, same, over, small); below = omega (arith, same, under, small) }

nearest-whole : (n : ℕ) → nearest n 1 ≡ n
unfolding nearest
nearest-whole n =
    let q : n / 1 ≡ n = omega arith in let r : n % 1 ≡ 0 = omega arith in ground (arith, q, r)

log2-le : (steps n k : ℕ) → n < 2 ^ k → log2 steps n ≤ k
unfolding log2
log2-le zero n k h = omega arith
log2-le (suc steps) n zero h = ground (arith, h)
log2-le (suc steps) n (suc k) h =
    let half : n / 2 < 2 ^ k = omega (arith, h, pow-suc 2 k) in
    ground (arith, log2-le steps (n / 2) k half)

exponent-small : (n : ℕ) → n < 2 ^ 52 → exponent n ≡ 0
unfolding exponent
exponent-small n h = omega (arith, log2-le 256 n 52 h)

as_f64-exact : (n : ℕ) → exponent (n / 1) ≡ 0 → as_f64 n 1 ≡ n
unfolding as_f64
as_f64-exact n h = rw h (omega (arith, nearest-whole n))

-- A `u64` as an `f64`.
as_f64-one : (n : ℕ) → Close (as_f64 n 1) n
as_f64-one n = elim (Bool-cases (leb (2 ^ 52) n)) [
  | inl e ↦
      (let large : 2 ^ 52 ≤ n / 1 = ground (arith, e) in
        let c = as_f64-Close n 1 (omega arith) large in
        record { above = omega (arith, c.above); below = omega (arith, c.below) })
  | inr e ↦
      (let low : n < 2 ^ 52 = ground (arith, e) in
        let whole : n / 1 ≡ n = omega arith in
        let none : exponent (n / 1) ≡ 0 = rw whole (exponent-small n low) in
        let exact : as_f64 n 1 ≡ n = as_f64-exact n none in
        record { above = omega (arith, exact); below = omega (arith, exact) })
]

-- The quotient by a size that is a `u64`.
quotient-Close :
    (a size : ℕ)
    → 0 < a
    → 0 < size
    → size < 2 ^ 64
    → Close (f64_quotient a size * as_f64 size 1) (as_f64 a 1 * 2 ^ 128)
unfolding f64_quotient
quotient-Close a size some_a some_size small =
    let x = as_f64 a 1 in
    let z = as_f64 size 1 in
    let cx = as_f64-one a in
    let cz = as_f64-one size in
    let positive : 0 < z = omega (arith, cz.below, some_size) in
    let bounded : z ≤ 2 ^ 65 = omega (arith, cz.above, small) in
    let some_x : 0 < x = omega (arith, cx.below, some_a) in
    let large : 2 ^ 52 ≤ x * 2 ^ 128 / z =
      (le-div_iff_mul-le {k = z} positive).1 (omega (arith, bounded, some_x)) in
    as_f64-Close (x * 2 ^ 128) z positive large

-- `a` is no more than `b`, but for the rounding.
abbrev pub AtMostRounded : ℕ → ℕ → Type 0
AtMostRounded a b = (2 ^ 53 - 1) * (2 ^ 53 - 1) * a ≤ (2 ^ 53 + 1) * (2 ^ 53 + 1) * b

nearest-zero : (den : ℕ) → nearest 0 den ≡ 0
unfolding nearest
nearest-zero den = ground (arith, zero-div den, zero-mod den)

as_f64-zero : (den : ℕ) → as_f64 0 den ≡ 0
unfolding as_f64
as_f64-zero den = let e = exponent (0 / den) in rw (nearest-zero (den * 2 ^ e)) (omega arith)

f64_quotient-zero : (size : ℕ) → f64_quotient 0 size ≡ 0
unfolding f64_quotient
f64_quotient-zero size =
    let none : as_f64 0 1 ≡ 0 = as_f64-zero 1 in
    ap (λ t. as_f64 (t * 2 ^ 128) (as_f64 size 1)) none ∙ as_f64-zero (as_f64 size 1)

-- If the quotient of one number is no more than that of another, then so is the number.
pub f64_quotient-order :
    (a b size : ℕ)
    → 0 < size
    → size < 2 ^ 64
    → f64_quotient a size ≤ f64_quotient b size
    → AtMostRounded a b
f64_quotient-order zero b size some_size small h = omega arith
f64_quotient-order (suc a) zero size some_size small h =
    let z = as_f64 size 1 in
    let ca = quotient-Close (suc a) size (omega arith) some_size small in
    let none : f64_quotient (suc a) size ≤ 0 = omega (arith, h, f64_quotient-zero size) in
    let scaled = mul-le-mul_right z none in
    absurd (omega (arith, ca.below, scaled, (as_f64-one (suc a)).below))
f64_quotient-order (suc a) (suc b) size some_size small h =
    let z = as_f64 size 1 in
    let ca = quotient-Close (suc a) size (omega arith) some_size small in
    let cb = quotient-Close (suc b) size (omega arith) some_size small in
    let scaled = mul-le-mul_right z h in
    omega
      (arith, ca.below, cb.above, scaled, (as_f64-one (suc a)).below, (as_f64-one (suc b)).above)
