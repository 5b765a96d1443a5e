-- ===== src/Tests/Sketch.antt =====
-- src/core/frequency_sketch.rs and `xxh32_with_seed` of src/core/rdma.rs: runs, and the theorems at
-- concrete inputs.
use matrixcache.Base.{list_eq, ◌*◌, ◌<◌, ◌≤◌, ◌≡◌, refl, List, [], ◌∷◌, true, arith}
use matrixcache.Arena.Segment.{Distinct}
use matrixcache.Xxh32
use matrixcache.Xxh32.{xxh32_with_seed}
use matrixcache.FrequencySketch.{
  CacheKey, exponent_from, next_power_of_two, zeros, width_for, with_capacity, to_le_bytes,
  identity, first_of, step_of, position_at, positions, bump, bump_all, decay, record_positions,
  record_access, record_many, repeat_positions, least, estimate, width,
}
use matrixcache.FrequencySketch.Positions.{
  Below, next_power_of_two-least, positions-Distinct, with_capacity-IsSized,
}
use matrixcache.FrequencySketch.Estimate.{
  key_eq, tick, exact_from, exact, record_all, exact-le-estimate,
}
use matrixcache.FrequencySketch.Repeated.{copies, record_many-copies}
use matrixcache.FrequencySketch.Counters.{among}
use matrixcache.FrequencySketch.Private.{IsPrivate, estimate-exact}

program : Unit {0}
unfolding Xxh32.round Xxh32.stripes Xxh32.tail_bytes Xxh32.tail_lanes Xxh32.start Xxh32.avalanche
    xxh32_with_seed exponent_from next_power_of_two zeros width_for with_capacity to_le_bytes
    identity first_of step_of position_at positions bump bump_all decay record_positions
    record_access record_many repeat_positions least estimate list_eq key_eq tick exact_from
    record_all
program = tt

hash_empty : xxh32_with_seed [] 0 ≡ 0x02cc_5d05
unfolding program
hash_empty = refl

-- "hello"
hash_hello : xxh32_with_seed (104 ∷ 101 ∷ 108 ∷ 108 ∷ 111 ∷ []) 0 ≡ 0xfb00_77f9
unfolding program
hash_hello = refl

abbrev page : CacheKey
page = record { shard_id = 7; record_key = 112 ∷ 49 ∷ []; namespace = 112 ∷ []; selector = 48 ∷ [] }

abbrev other : CacheKey
other = record page { record_key = 112 ∷ 50 ∷ [] }

places :
    (positions page (with_capacity 1) ≡ 4 ∷ 3 ∷ 2 ∷ 1 ∷ [])
    × (positions other (with_capacity 1) ≡ 16 ∷ 13 ∷ 10 ∷ 7 ∷ [])
unfolding program
places = (refl, refl)

abbrev accesses : List CacheKey
accesses = page ∷ other ∷ page ∷ []

counted : estimate page (record_all accesses (with_capacity 1)) ≡ 2
unfolding program
counted = refl

-- The window of 32 accesses is full at the last one, which halves the count.
halved : estimate page (record_many page 32 (with_capacity 1)) ≡ 16
unfolding program
halved = refl

next_power_of_two-least_example : (33 ≤ next_power_of_two 33) × (next_power_of_two 33 < 2 * 33)
next_power_of_two-least_example = next_power_of_two-least 33 (omega arith)

positions-Distinct_example :
    Below (width (with_capacity 1)) (positions page (with_capacity 1))
    × Distinct (positions page (with_capacity 1))
positions-Distinct_example =
    positions-Distinct page (with_capacity 1) (with_capacity-IsSized 1 (omega arith))

exact-le-estimate_example :
    exact (with_capacity 1).max_window page accesses
    ≤ estimate page (record_all accesses (with_capacity 1))
exact-le-estimate_example = exact-le-estimate 1 accesses page (omega arith)

record_many-copies_example :
    record_many page 3 (with_capacity 1) ≡ record_all (copies 3 page) (with_capacity 1)
record_many-copies_example = record_many-copies 3 page (with_capacity 1)

accesses-IsPrivate : IsPrivate 4 page (with_capacity 1) accesses
unfolding program
accesses-IsPrivate = ground arith

among_four : among 4 (positions page (with_capacity 1)) ≡ true
unfolding program
among_four = refl

estimate-exact_example :
    estimate page (record_all accesses (with_capacity 1))
    ≡ exact (with_capacity 1).max_window page accesses
estimate-exact_example =
    estimate-exact 1 accesses page 4 (omega arith) among_four accesses-IsPrivate
