-- ===== src/FrequencySketch.antt =====
-- src/core/frequency_sketch.rs, `FrequencySketch`: counters of how often keys were asked for. The
-- model is of one thread, so that an atomic update is an update. A text is the list of its bytes,
-- and a `u8` a number below 256. An index past the counters, where the code panics, reads zero and
-- writes nothing.
pub mod Positions
pub mod Counters
pub mod Estimate
pub mod Repeated
pub mod Private
use Prim.Native.Nat.{bit_and, bit_or, bit_xor}
use matrixcache.Base.{
  ℕ, zero, suc, ◌+◌, ◌-◌, ◌*◌, ◌/◌, ◌%◌, ◌^◌, min, max, List, [], ◌∷◌, map, Bool, true, false,
  length, get_or, set, ltb, leb, ◌==◌, if◌then◌else◌, saturating_mul,
}
use matrixcache.Xxh32.{xxh32_with_seed}

abbrev pub sketch_hashes : ℕ
sketch_hashes = 4

abbrev pub counters_per_entry : ℕ
counters_per_entry = 32

abbrev pub window_to_capacity_ratio : ℕ
window_to_capacity_ratio = 32

pub record CacheKey : Type 0 where
  pub shard_id : ℕ
  pub record_key : List ℕ
  pub namespace : List ℕ
  pub selector : List ℕ

pub record FrequencySketch : Type 0 where
  pub counters : List ℕ
  pub mask : ℕ
  pub window : ℕ
  pub max_window : ℕ
  pub aging : Bool

-- The exponent of `next_power_of_two`: the first from `k` on whose power reaches `n`, on fuel.
unfoldable pub exponent_from : ℕ → ℕ → ℕ → ℕ
exponent_from zero k n = k
exponent_from (suc fuel) k n =
    let rest = exponent_from fuel (suc k) n in if leb n (2 ^ k) then k else rest

-- The exponent `n` is large enough, so no more steps are needed.
unfoldable pub next_power_of_two : ℕ → ℕ
next_power_of_two n = 2 ^ exponent_from n 0 n

unfoldable pub zeros : ℕ → List ℕ
zeros zero = []
zeros (suc n) = 0 ∷ zeros n

-- As in a release build, where the product wraps round, and a power of two past 64 bits is zero.
unfoldable pub width_for : ℕ → ℕ
width_for entries = next_power_of_two (max entries 1 * counters_per_entry % 2 ^ 64) % 2 ^ 64

unfoldable pub with_capacity : ℕ → FrequencySketch
with_capacity entries = record {
  counters = zeros (width_for entries);
  mask = (width_for entries + (2 ^ 64 - 1)) % 2 ^ 64;
  window = 0;
  max_window = saturating_mul (max entries 1) window_to_capacity_ratio;
  aging = false;
}

-- `to_le_bytes`, of as many bytes as asked for.
unfoldable pub to_le_bytes : ℕ → ℕ → List ℕ
to_le_bytes zero x = []
to_le_bytes (suc n) x = x % 2 ^ 8 ∷ to_le_bytes n (x / 2 ^ 8)

unfoldable pub identity : CacheKey → ℕ
identity key =
    xxh32_with_seed key.record_key
      (xxh32_with_seed (to_le_bytes 8 key.shard_id) (xxh32_with_seed key.namespace 0))

unfoldable pub first_of : CacheKey → ℕ
first_of key = xxh32_with_seed key.selector (identity key)

-- `| 1` forces an odd step.
unfoldable pub step_of : CacheKey → ℕ
step_of key = bit_or (xxh32_with_seed key.selector (bit_xor (identity key) 0x9E37_79B9)) 1

-- One row of `positions`: `first.wrapping_add(row.wrapping_mul(step)) & mask`.
unfoldable pub position_at : ℕ → ℕ → ℕ → ℕ → ℕ
position_at first step mask row = bit_and ((first + row * step % 2 ^ 64) % 2 ^ 64) mask

unfoldable pub positions : CacheKey → FrequencySketch → List ℕ
positions key s =
    let position = position_at (first_of key) (step_of key) s.mask in
    position 0 ∷ position 1 ∷ position 2 ∷ position 3 ∷ []

-- A counter at its maximum is left alone.
unfoldable pub bump : ℕ → ℕ
bump count = if count == 255 then count else count + 1

unfoldable pub bump_all : List ℕ → List ℕ → List ℕ
bump_all [] counters = counters
bump_all (p ∷ ps) counters = bump_all ps (set counters p (bump (get_or counters p 0)))

unfoldable pub decay : FrequencySketch → FrequencySketch
decay s =
    if s.aging
    then s
    else (if ltb s.window s.max_window then record s { aging = false } else record s {
      counters = map (λ count. count / 2) s.counters;
      window = s.window / 2;
      aging = false;
    })

unfoldable pub record_positions : List ℕ → FrequencySketch → FrequencySketch
record_positions ps s =
    let s' = record s { counters = bump_all ps s.counters; window = (s.window + 1) % 2 ^ 64 } in
    if leb s'.max_window s'.window then decay s' else s'

unfoldable pub record_access : CacheKey → FrequencySketch → FrequencySketch
record_access key s = record_positions (positions key s) s

unfoldable pub repeat_positions : ℕ → List ℕ → FrequencySketch → FrequencySketch
repeat_positions zero ps s = s
repeat_positions (suc count) ps s = repeat_positions count ps (record_positions ps s)

unfoldable pub record_many : CacheKey → ℕ → FrequencySketch → FrequencySketch
record_many key count s = if count == 0 then s else repeat_positions count (positions key s) s

-- `min().unwrap_or(0)`
unfoldable pub least : List ℕ → ℕ
least [] = 0
least (x ∷ []) = x
least (x ∷ y ∷ xs) = min x (least (y ∷ xs))

unfoldable pub estimate : CacheKey → FrequencySketch → ℕ
estimate key s = least (map (λ p. get_or s.counters p 0) (positions key s))

abbrev pub width : FrequencySketch → ℕ
width s = length s.counters
