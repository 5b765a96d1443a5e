-- ===== src/Zoned/Rate.antt =====
-- src/runtime/zoned_store.rs, `ZoneGroup::garbage_rate`: the quotient of two `u64`s as an `f64`.
pub mod Rounding
use matrixcache.Base.{ℕ, zero, suc, ◌+◌, ◌-◌, ◌*◌, ◌/◌, ◌%◌, ◌^◌, ltb, if◌then◌else◌}

-- The nearest number to a fraction, the even one of two that are as near.
unfoldable pub nearest : ℕ → ℕ → ℕ
nearest num den =
    let q = num / den in
    let r = num % den in
    if ltb (2 * r) den then q else (if ltb den (2 * r) then q + 1 else q + q % 2)

-- How often a number can be halved, up to a number of steps.
unfoldable pub log2 : ℕ → ℕ → ℕ
log2 zero n = 0
log2 (suc steps) n = let rest = log2 steps (n / 2) in if ltb n 2 then 0 else rest + 1

-- The place of the last of 53 digits of a number below 2 ^ 256.
unfoldable pub exponent : ℕ → ℕ
exponent n = log2 256 n - 52

-- A fraction as an `f64`: rounded to 53 binary digits.
unfoldable pub as_f64 : ℕ → ℕ → ℕ
as_f64 num den = let e = exponent (num / den) in nearest num (den * 2 ^ e) * 2 ^ e

-- The quotient of two `u64`s as an `f64`, in units of 2 ^ -128: it has no digit below that.
unfoldable pub f64_quotient : ℕ → ℕ → ℕ
f64_quotient a b = as_f64 (as_f64 a 1 * 2 ^ 128) (as_f64 b 1)
