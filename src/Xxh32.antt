-- ===== src/Xxh32.antt =====
-- src/core/rdma.rs, `xxh32_with_seed`: the hash of a byte string. A `u32` is a number below 2 ^ 32
-- and a byte one below 256; the two `while` loops over lanes recurse on the bytes that are left.
use Prim.Native.Nat.{bit_xor}
use matrixcache.Base.{ℕ, ◌+◌, ◌-◌, ◌*◌, ◌/◌, ◌%◌, ◌^◌, List, [], ◌∷◌, length, leb, if◌then◌else◌}

abbrev prime1 : ℕ
prime1 = 2_654_435_761

abbrev prime2 : ℕ
prime2 = 2_246_822_519

abbrev prime3 : ℕ
prime3 = 3_266_489_917

abbrev prime4 : ℕ
prime4 = 668_265_263

abbrev prime5 : ℕ
prime5 = 374_761_393

abbrev wrapping_add : ℕ → ℕ → ℕ
wrapping_add a b = (a + b) % 2 ^ 32

abbrev wrapping_sub : ℕ → ℕ → ℕ
wrapping_sub a b = (a + 2 ^ 32 - b) % 2 ^ 32

abbrev wrapping_mul : ℕ → ℕ → ℕ
wrapping_mul a b = a * b % 2 ^ 32

abbrev rotate_left : ℕ → ℕ → ℕ
rotate_left x r = x * 2 ^ r % 2 ^ 32 + x / 2 ^ (32 - r)

abbrev from_le_bytes : ℕ → ℕ → ℕ → ℕ → ℕ
from_le_bytes a b c d = a + 2 ^ 8 * b + 2 ^ 16 * c + 2 ^ 24 * d

unfoldable pub round : ℕ → ℕ → ℕ
round acc lane = wrapping_mul (rotate_left (wrapping_add acc (wrapping_mul lane prime2)) 13) prime1

-- The four accumulators, and the bytes that are left.
pub record Stripes : Type 0 where
  pub v1 : ℕ
  pub v2 : ℕ
  pub v3 : ℕ
  pub v4 : ℕ
  pub rest : List ℕ

unfoldable pub stripes : ℕ → ℕ → ℕ → ℕ → List ℕ → Stripes
stripes v1 v2 v3 v4
      (a0 ∷ a1 ∷ a2 ∷ a3 ∷ b0 ∷ b1 ∷ b2 ∷ b3 ∷ c0 ∷ c1 ∷ c2 ∷ c3 ∷ d0 ∷ d1 ∷ d2 ∷ d3 ∷ input) =
    stripes (round v1 (from_le_bytes a0 a1 a2 a3)) (round v2 (from_le_bytes b0 b1 b2 b3))
      (round v3 (from_le_bytes c0 c1 c2 c3)) (round v4 (from_le_bytes d0 d1 d2 d3)) input
stripes v1 v2 v3 v4 input = record { v1 = v1; v2 = v2; v3 = v3; v4 = v4; rest = input }

unfoldable pub tail_bytes : ℕ → List ℕ → ℕ
tail_bytes hash [] = hash
tail_bytes hash (b ∷ input) =
    tail_bytes (wrapping_mul (rotate_left (wrapping_add hash (wrapping_mul b prime5)) 11) prime1)
      input

unfoldable pub tail_lanes : ℕ → List ℕ → ℕ
tail_lanes hash (a ∷ b ∷ c ∷ d ∷ input) =
    tail_lanes
      (wrapping_mul
        (rotate_left (wrapping_add hash (wrapping_mul (from_le_bytes a b c d) prime3)) 17) prime4)
      input
tail_lanes hash input = tail_bytes hash input

-- The sum of the accumulators, and the bytes after the whole stripes.
unfoldable pub start : List ℕ → ℕ → ℕ × List ℕ
start input seed =
    let s =
      stripes (wrapping_add (wrapping_add seed prime1) prime2) (wrapping_add seed prime2) seed
        (wrapping_sub seed prime1) input in
    if leb 16 (length input)
    then (
      wrapping_add
          (wrapping_add (wrapping_add (rotate_left s.v1 1) (rotate_left s.v2 7))
            (rotate_left s.v3 12))
          (rotate_left s.v4 18),
      s.rest,
    )
    else (wrapping_add seed prime5, input)

-- The last three mixing steps.
unfoldable pub avalanche : ℕ → ℕ
avalanche hash =
    let a = wrapping_mul (bit_xor hash (hash / 2 ^ 15)) prime2 in
    let b = wrapping_mul (bit_xor a (a / 2 ^ 13)) prime3 in bit_xor b (b / 2 ^ 16)

unfoldable pub xxh32_with_seed : List ℕ → ℕ → ℕ
xxh32_with_seed input seed =
    let (hash, rest) = start input seed in
    avalanche (tail_lanes (wrapping_add hash (length input % 2 ^ 32)) rest)
