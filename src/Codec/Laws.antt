-- ===== src/Codec/Laws.antt =====
-- src/core/storage_config.rs: numbers are read back as they were put.
use matrixcache.Base.{
  arith, ℕ, zero, suc, ◌+◌, ◌-◌, ◌*◌, ◌/◌, ◌^◌, ◌<◌, ◌≤◌, ◌≡◌, refl, ap, ◌∙◌, List, [], ◌∷◌, ◌++◌,
  some, length, length-append, take, drop, u64_max, true, leb,
}
use mathlib.Core.Path.{subst}
use mathlib.Core.List.{append_assoc}
use matrixcache.Codec.{
  to_le_bytes, from_le_bytes, put_fixed, slice, get_fixed, Xxh128, put_fixed_hash128,
  get_fixed_hash128,
}

-- The first number that so many bytes cannot hold.
abbrev bound : ℕ → ℕ
bound zero = 1
bound (suc count) = 256 * bound count

from_le_bytes-to_le_bytes :
    (count n : ℕ) → n < bound count → from_le_bytes (to_le_bytes count n) ≡ n
unfolding from_le_bytes to_le_bytes
from_le_bytes-to_le_bytes zero n h = omega arith
from_le_bytes-to_le_bytes (suc count) n h =
    omega (arith, from_le_bytes-to_le_bytes count (n / 256) (omega arith))

length-to_le_bytes : (count n : ℕ) → length (to_le_bytes count n) ≡ count
unfolding to_le_bytes
length-to_le_bytes zero n = refl
length-to_le_bytes (suc count) n = omega (arith, length-to_le_bytes count (n / 256))

drop-append : (xs ys : List ℕ) → drop (length xs) (xs ++ ys) ≡ ys
drop-append [] ys = refl
drop-append (x ∷ xs) ys = drop-append xs ys

take-append : (xs ys : List ℕ) → take (length xs) (xs ++ ys) ≡ xs
take-append [] ys = refl
take-append (x ∷ xs) ys = ap (λ t. x ∷ t) (take-append xs ys)

-- The middle of a buffer.
slice-middle :
    (xs ys zs : List ℕ) → slice (length xs) (length xs + length ys) (xs ++ (ys ++ zs)) ≡ some ys
slice-middle xs ys zs =
    let size : length xs + length ys - length xs ≡ length ys = omega arith in
    let after = drop-append xs (ys ++ zs) in
    let all = length-append xs (ys ++ zs) in
    let end = length-append ys zs in
    let in_order : leb (length xs) (length xs + length ys) ≡ true = ground arith in
    let inside : leb (length xs + length ys) (length (xs ++ (ys ++ zs))) ≡ true =
      ground (arith, all, end) in
    rw (in_order, inside, size, after) (ap some (take-append ys zs))

-- A number that fits in `count` bytes, put behind a buffer, is read back at the end of that buffer,
-- with the place behind it.
get_fixed-put_fixed :
    (count num : ℕ) (buf rest : List ℕ)
    → num < bound count
    → length buf + count ≤ u64_max
    → get_fixed count ((put_fixed count num buf).0 ++ rest) (length buf)
      ≡ some (num, (put_fixed count num buf).1)
unfolding get_fixed put_fixed
get_fixed-put_fixed count num buf rest fits room =
    let bytes = to_le_bytes count num in
    let size : length bytes ≡ count = length-to_le_bytes count num in
    let end : length (buf ++ bytes) ≡ length buf + count =
      omega (arith, length-append buf bytes, size) in
    let added : leb (length buf + count) u64_max ≡ true = ground (arith, room) in
    let found : slice (length buf) (length buf + count) ((buf ++ bytes) ++ rest) ≡ some bytes =
      ap (slice (length buf) (length buf + count)) (append_assoc buf bytes rest)
      ∙ subst (λ n. slice (length buf) (length buf + n) (buf ++ (bytes ++ rest)) ≡ some bytes) size
          (slice-middle buf bytes rest) in
    rw (added, found, end, from_le_bytes-to_le_bytes count num fits) refl

-- Two 64-bit numbers, put behind a buffer, are read back as they were, whatever follows them, with the
-- place behind them.
pub get_fixed_hash128-put_fixed_hash128 :
    (hash : Xxh128) (buf rest : List ℕ)
    → hash.first < 2 ^ 64
    → hash.second < 2 ^ 64
    → length buf + 16 ≤ u64_max
    → get_fixed_hash128 ((put_fixed_hash128 hash buf).0 ++ rest) (length buf)
      ≡ some (hash, (put_fixed_hash128 hash buf).1)
unfolding get_fixed_hash128 put_fixed_hash128 put_fixed
get_fixed_hash128-put_fixed_hash128 hash buf rest small small' room =
    let b1 = buf ++ to_le_bytes 8 hash.first in
    let tail = to_le_bytes 8 hash.second in
    let whole = (b1 ++ tail) ++ rest in
    let long : length b1 ≡ length buf + 8 =
      omega
        (arith, length-append buf (to_le_bytes 8 hash.first), length-to_le_bytes 8 hash.first) in
    let one : get_fixed 8 whole (length buf) ≡ some (hash.first, length b1) =
      ap (λ t. get_fixed 8 t (length buf)) (append_assoc b1 tail rest)
      ∙ get_fixed-put_fixed 8 hash.first buf (tail ++ rest) small (omega (arith, room)) in
    let two : get_fixed 8 whole (length b1) ≡ some (hash.second, length (b1 ++ tail)) =
      get_fixed-put_fixed 8 hash.second b1 rest small' (omega (arith, room, long)) in
    rw (one, two) refl
