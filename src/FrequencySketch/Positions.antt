-- ===== src/FrequencySketch/Positions.antt =====
-- src/core/frequency_sketch.rs, `with_capacity` and `positions`: the size of the counter table, and
-- where a key's counters stand in it.
use Prim.Native.Nat.{bit_xor, ◌∣◌}
use native.Mathlib.Nat.{pow-suc, one-le-pow, mod-lt, mod-mod_of_dvd, dvd-mul_right}
use matrixcache.Base.{
  ℕ, zero, suc, ◌+◌, ◌-◌, ◌*◌, ◌%◌, ◌^◌, ◌≤◌, ◌<◌, max, ◌≡◌, refl, sym, ◌∙◌, ap, arith, List, [],
  ◌∷◌, length,
}
use mathlib.Core.Path.{subst}
use matrixcache.Arena.Segment.{Distinct}
use matrixcache.Xxh32.{xxh32_with_seed}
use matrixcache.FrequencySketch.{
  CacheKey, FrequencySketch, exponent_from, next_power_of_two, zeros, width_for, with_capacity,
  identity, first_of, step_of, position_at, positions, width,
}
use matrixcache.Base.Bits.{bit_and-mask, bit_or-one_odd}

pow_large : (n : ℕ) → n < 2 ^ n
pow_large zero = omega arith
pow_large (suc n) = omega (arith, pow-suc 2 n, pow_large n)

exponent_from-reaches : (fuel k n : ℕ) → n ≤ 2 ^ k * 2 ^ fuel → n ≤ 2 ^ exponent_from fuel k n
unfolding exponent_from
exponent_from-reaches zero k n h = ground arith
exponent_from-reaches (suc fuel) k n h =
    let moved : 2 ^ k * 2 ^ suc fuel ≡ 2 ^ suc k * 2 ^ fuel =
      rw (pow-suc 2 k, pow-suc 2 fuel) (grind arith) in
    let h' : n ≤ 2 ^ suc k * 2 ^ fuel = subst (λ t. n ≤ t) moved h in
    ground (arith, exponent_from-reaches fuel (suc k) n h')

exponent_from-least : (fuel k n : ℕ) → 0 < n → 2 ^ k < 2 * n → 2 ^ exponent_from fuel k n < 2 * n
unfolding exponent_from
exponent_from-least zero k n pos h = h
exponent_from-least (suc fuel) k n pos h =
    ground (arith, pow-suc 2 k, exponent_from-least fuel (suc k) n pos)

-- For a number above zero, the power of two is at least the number and less than twice it, so that
-- it is the least one.
pub next_power_of_two-least :
    (n : ℕ) → 0 < n → (n ≤ next_power_of_two n) × (next_power_of_two n < 2 * n)
unfolding next_power_of_two
next_power_of_two-least n pos = (
  exponent_from-reaches n 0 n (omega (arith, pow_large n)),
  exponent_from-least n 0 n pos (omega arith),
)

pub length-zeros : (n : ℕ) → length (zeros n) ≡ n
unfolding zeros
length-zeros zero = refl
length-zeros (suc n) = omega (arith, length-zeros n)

-- The table has a power of two of counters, at least as many as for one entry, and the mask fits.
pub record IsSized (s : FrequencySketch) : Type 0 where
  pub exponent : ℕ
  pub width : width s ≡ 2 ^ exponent
  pub mask : s.mask ≡ 2 ^ exponent - 1
  pub wide : 32 ≤ 2 ^ exponent

-- The table for so many entries that its size is a 64-bit number.
width_for-power :
    (entries : ℕ)
    → entries ≤ 2 ^ 58
    → let n = max entries 1 * 32 in
      (width_for entries ≡ 2 ^ exponent_from n 0 n)
      × (32 ≤ width_for entries)
      × (width_for entries < 2 ^ 64)
unfolding width_for next_power_of_two
width_for-power entries few =
    let n = max entries 1 * 32 in
    let whole : n % 2 ^ 64 ≡ n = omega (arith, few) in
    let (reaches, least) = next_power_of_two-least n (omega arith) in
    rw whole (omega (arith, reaches, least, few), omega (arith, reaches, least, few), omega arith)

pub with_capacity-IsSized : (entries : ℕ) → entries ≤ 2 ^ 58 → IsSized (with_capacity entries)
unfolding with_capacity
with_capacity-IsSized entries few =
    let n = max entries 1 * 32 in
    let (power, wide, small) = width_for-power entries few in
    record {
      exponent = exponent_from n 0 n;
      width = length-zeros (width_for entries) ∙ power;
      mask = omega (arith, power, wide, small);
      wide = omega (arith, power, wide);
    }

abbrev pub Below : ℕ → List ℕ → Type 0
Below w [] = Unit {0}
Below w (p ∷ ps) = (p < w) × Below w ps

pow_three : (e : ℕ) → 2 ^ suc (suc (suc e)) ≡ 8 * 2 ^ e
pow_three e = omega (arith, pow-suc 2 e, pow-suc 2 (suc e), pow-suc 2 (suc (suc e)))

wide-eight : (e : ℕ) → 32 ≤ 2 ^ e → 8 ∣ 2 ^ e
wide-eight zero h = absurd (omega arith)
wide-eight (suc zero) h = absurd (omega arith)
wide-eight (suc (suc zero)) h = absurd (omega arith)
wide-eight (suc (suc (suc e))) h = subst (λ t. 8 ∣ t) (sym (pow_three e)) (dvd-mul_right 8 (2 ^ e))

position-low :
    (first step e row : ℕ)
    → 32 ≤ 2 ^ e
    → position_at first step (2 ^ e - 1) row % 8 ≡ (first + row * step) % 8
unfolding position_at
position-low first step e row h =
    let x = (first + row * step % 2 ^ 64) % 2 ^ 64 in
    ap (λ t. t % 8) (bit_and-mask x e) ∙ (mod-mod_of_dvd 8 x (wide-eight e h) ∙ grind arith)

position-below : (first step e row : ℕ) → position_at first step (2 ^ e - 1) row < 2 ^ e
unfolding position_at
position-below first step e row =
    rw (bit_and-mask ((first + row * step % 2 ^ 64) % 2 ^ 64) e)
      (mod-lt ((first + row * step % 2 ^ 64) % 2 ^ 64) (one-le-pow e 2 (omega arith)))

step_of-odd : (key : CacheKey) → step_of key % 2 ≡ 1
unfolding step_of
step_of-odd key = bit_or-one_odd (xxh32_with_seed key.selector (bit_xor (identity key) 0x9E37_79B9))

-- The rows differ in their low three bits, as the step is odd.
rows-Distinct :
    (first step e : ℕ)
    → 32 ≤ 2 ^ e
    → step % 2 ≡ 1
    → let row = position_at first step (2 ^ e - 1) in Distinct (row 0 ∷ row 1 ∷ row 2 ∷ row 3 ∷ [])
rows-Distinct first step e wide odd =
    let low0 = position-low first step e 0 wide in
    let low1 = position-low first step e 1 wide in
    let low2 = position-low first step e 2 wide in
    let low3 = position-low first step e 3 wide in
    (
      (
        λ h. omega (arith, low0, low1, h),
        (λ h. omega (arith, low0, low2, h), (λ h. omega (arith, low0, low3, h), tt)),
      ),
      (
        (λ h. omega (arith, low1, low2, h), (λ h. omega (arith, low1, low3, h), tt)),
        ((λ h. omega (arith, low2, low3, h), tt), (tt, tt)),
      ),
    )

-- In a sketch whose table and mask are as `with_capacity` makes them, the four counters of a key
-- are in the table, and are four different ones.
pub positions-Distinct :
    (key : CacheKey) (s : FrequencySketch)
    → IsSized s
    → Below (width s) (positions key s) × Distinct (positions key s)
unfolding positions
positions-Distinct key s v =
    let f = first_of key in
    let g = step_of key in
    let e = v.exponent in
    let odd : g % 2 ≡ 1 = step_of-odd key in
    rw (v.mask, v.width)
      (
        (
          position-below f g e 0,
          (position-below f g e 1, (position-below f g e 2, (position-below f g e 3, tt))),
        ),
        rows-Distinct f g e v.wide odd,
      )
