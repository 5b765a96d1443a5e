-- ===== src/Lib.antt =====
-- Verification library of matrixcache, a multi-tier block cache in Rust.
--
-- The program. `src/runtime` holds the cache: its tiers and their storage, and in `replacement.rs`
-- the policies that choose which key to evict. `src/core` holds what the runtime is built from: the
-- budget in `write_budget.rs` that limits what is written to flash, the sketch in
-- `frequency_sketch.rs` that says which of two keys is asked for more, `health.rs`, which turns the
-- cache's counters into findings for an operator, and `config_check.rs`, which does the like for
-- options. The cache asks a policy on every put, get and delete of a key, the sketch before it lets
-- a key in, and the budget before a block goes to flash.
--
-- The files.
--   Base           shared names, machine arithmetic, lists, association lists
--   Arena          `KeyArena` and `KeyList`: doubly linked lists in a vector of nodes. Nodes, Segment,
--                  Link, Unlink and Collect prove what the operations do to a well-linked list
--   Lru            `BaseLruList`: a linked list and an index. Holds says which keys a list has;
--                  Take, Refront, Touch and Evict do the operations, Run any sequence of calls
--   Ghost          `GhostLruList`: keys with data and ghosts, over two of those
--   Arc            `ArcList` and, in Arc/Policy, `ReplacementArc`. Model is the algorithm of the paper,
--                  Room, Refine, Growth and Bounds tie the code to it, Counts and Exclusive say where a key
--                  stands, Policy/Step does each request and Policy/Run any sequence of them
--   Buffer         what a policy reads of a `CacheBuffer`, and the policies' count of bytes
--   Fifo           `ReplacementFifo`. Model is the plain list of buffers that it stands for, Holds ties
--                  the two together, Queue, Drop, Write, Append and Evict do the operations, Put and Step
--                  each call, Run any sequence of calls, Errors the errors
--   Zoned          `src/runtime/zoned_store.rs`, zones on a file. Device is the file and its zones, Group the
--                  state of the `ZoneManager`, Monad how operations with errors follow one another, Appending
--                  how a group is opened, filled and sealed, Manager all else. Rate is the rate of
--                  garbage as an `f64`, and Rate/Rounding says how far it can be off. Quiet, Places, Recovering,
--                  Starting and Run say where a group is, Past and MetaLog what becomes of a written log,
--                  Filling and Ensured that appends which were allowed succeed, Reclaim which group is reclaimed, Errors
--                  what an error leaves
--   Codec          numbers in byte buffers and the packed pointers of `src/core/storage_config.rs`. Laws says
--                  what is read back from a buffer, Pointer from a pointer
--   SsdIndex       `SsdIndex` of the same file. Model is what it stands for, Holds ties the two together,
--                  Change does the operations, Step each call, Run any sequence of calls
--   WriteBudget    `SsdWriteBudget`
--   Xxh32          `xxh32_with_seed` of `src/core/rdma.rs`
--   FrequencySketch  the counters of `src/core/frequency_sketch.rs`. Positions says where a key's
--                  counters stand, Counters what an access does to them, Estimate and Private how an
--                  estimate compares to an exact count, Repeated what `record_many` does
--   Health         `cache_health_report` of `src/core/health.rs`: Rules has its rules and the report, Sort
--                  the order of the findings, Verdict when a cache is healthy, Reads what a reader sees
--   Names          the configuration names of `src/runtime/replacement.rs` and `src/core/storage_config.rs`
--   ConfigCheck    `validate` and its like of `src/core/config_check.rs`
--   Tests          runs on small inputs, and the theorems at concrete inputs
-- A method `f` of a struct is the function `f` of the struct's module, with the struct as its last
-- argument and, if the method changes it, the new struct as the first part of the result. Methods
-- in CamelCase only forward, and are left out.
--
-- Numbers. A `usize` or `u64` is a natural number, with the saturation or wrap-around of each
-- operation written out; a `usize` has 64 bits. An `f64` is a number of units of 2 ^ -128, rounded
-- to 53 binary digits after each operation. An `Instant` is a number of nanoseconds. A `HashMap` is
-- an association list with each key once. The file of a zoned store is a byte for each offset, with
-- a list of how its next accesses end: any of them may fail, and a write then stops after any
-- number of bytes.
--
-- Fuel. The loops of `BaseLruList::evict` and `ReplacementFifo::evict_to_capacity` have one round
-- for each entry, which is enough as each round takes an entry out or is the last.
-- `next_power_of_two` has as many rounds as the number, whose power of two is larger. The digits of
-- an `f64` are found in 256 halvings, and no number there has more. The padding of a zone has a
-- round for each byte, of which a round writes one at least. `collect_from_tail` has a round for
-- each key asked for.
--
-- Not modelled: everything of `src/runtime` but the policies and the zoned store above, that is the
-- other storage, the threads, locks and files of the tiers, and the segmented policy; and
-- everything of `src/core` but the write budget, the sketch with its hash, the health report, the
-- configuration check and names, the index and the codec; of the two reports, the messages and the
-- text for a metrics server. The sketch is that of one thread. Memory and time limits are not
-- modelled, nor is a panic: where an index would be out of range the model reads a blank node, and
-- the invariants show that no index is.
pub mod Base
pub mod WriteBudget
pub mod Arena
pub mod Lru
pub mod Ghost
pub mod Arc
pub mod Xxh32
pub mod FrequencySketch
pub mod Health
pub mod Names
pub mod ConfigCheck
pub mod Buffer
pub mod Fifo
pub mod Zoned
pub mod Codec
pub mod SsdIndex
mod Tests
