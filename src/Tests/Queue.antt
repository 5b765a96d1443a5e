-- ===== src/Tests/Queue.antt =====
-- src/runtime/replacement.rs: a run of `ReplacementFifo`, and its theorems at concrete inputs.
use matrixcache.Base.{
  ◌≡◌, refl, ◌↔◌, List, [], ◌∷◌, String, none, some, is_some, if◌then◌else◌, ok, err, arith,
}
use matrixcache.Base.Map.{lookup, insert, remove}
use matrixcache.Arena.{
  set_prev, set_next, alloc_from, alloc, release, link_back, unlink_prev, unlink_next, unlink,
}
use matrixcache.Base.{list_eq}
use matrixcache.Buffer.{
  CacheBuffer, CacheError, not_found, replace_mismatch, byte_length, size, cache_buffer_space,
  new_base, init_base, set_base_capacity, free_space, reaccount,
}
use matrixcache.Fifo.{
  new, init, reset, register_mem_eviction_handler, free_node, evict_entry, evict_node, evict_front,
  evict_from, evict_to_capacity, put_at, put, update_at, update_cache_buffer, get, delete_at,
  delete, set_capacity, item_count, queue_len,
}
use matrixcache.Fifo.Step.{Call, Reply, step}
use matrixcache.Fifo.Run.{run, queue_run, new_model, run-queue_run}
use matrixcache.Fifo.Errors.{bytes_of, update_cache_buffer-error}

program : Unit {0}
unfolding lookup insert remove list_eq set_prev set_next alloc_from alloc release link_back
    unlink_prev unlink_next unlink byte_length size cache_buffer_space new_base init_base
    set_base_capacity free_space reaccount new init reset register_mem_eviction_handler free_node
    evict_entry evict_node evict_front evict_from evict_to_capacity put_at put update_at
    update_cache_buffer get delete_at delete set_capacity item_count queue_len step run
program = tt

-- A buffer of five bytes under a key of one.
abbrev five : String → CacheBuffer
five k = record { key = k; value = 1 ∷ 2 ∷ 3 ∷ 4 ∷ 5 ∷ []; logical_size = none }

-- A write under an old key keeps its place, so `a` is the first to leave.
abbrev calls : List Call
calls =
    Call.put_buffer (five "z")
    ∷ Call.init_all
    ∷ Call.watch
    ∷ Call.put_buffer (five "a")
    ∷ Call.put_buffer (five "b")
    ∷ Call.put_buffer (five "a")
    ∷ Call.put_buffer (five "c")
    ∷ Call.update_buffer "b" [] (five "b")
    ∷ Call.delete_key "b"
    ∷ Call.set_capacity_to 5
    ∷ Call.items_of
    ∷ []

run-calls :
    run calls (new 12)
    ≡ (Reply.evicted [], [])
      ∷ (Reply.done, [])
      ∷ (Reply.done, [])
      ∷ (Reply.evicted [], [])
      ∷ (Reply.evicted [], [])
      ∷ (Reply.evicted [], [])
      ∷ (Reply.evicted (five "a" ∷ []), five "a" ∷ [])
      ∷ (Reply.updated (err replace_mismatch), five "a" ∷ [])
      ∷ (Reply.found (some (five "b")), five "a" ∷ [])
      ∷ (Reply.done, five "a" ∷ five "c" ∷ [])
      ∷ (Reply.count 0, five "a" ∷ five "c" ∷ [])
      ∷ []
unfolding program
run-calls = refl

spaces : cache_buffer_space (five "a") ≡ 6
unfolding program
spaces = refl

run-queue_run_example : run calls (new 12) ≡ queue_run calls (new_model 12)
unfolding program
run-queue_run_example =
    run-queue_run calls 12 (ground arith) (omega arith) (omega arith) (omega arith)

update_cache_buffer-error_example :
    let (f', r) = update_cache_buffer "a" [] (five "a") (put (five "a") (init (new 12))).0 in
    ((r ≡ ok tt) ↔ (bytes_of (get "a" (put (five "a") (init (new 12))).0) ≡ some []))
    × ((e : CacheError)
        → r ≡ err e
        → (f' ≡ (put (five "a") (init (new 12))).0)
          × (e ≡ (
              if is_some (get "a" (put (five "a") (init (new 12))).0)
              then replace_mismatch
              else not_found)))
update_cache_buffer-error_example =
    update_cache_buffer-error "a" [] (five "a") (put (five "a") (init (new 12))).0
