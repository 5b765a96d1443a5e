-- ===== src/Tests/Adaptive.antt =====
-- src/runtime/replacement.rs: runs of `ReplacementArc`, and its theorems at concrete inputs.
use matrixcache.Base.{◌++◌, ◌≡◌, refl, List, [], ◌∷◌, ◌≤◌, true, false, arith}
use matrixcache.Base.Map.{lookup, insert, remove}
use matrixcache.Arena.{
  set_prev, set_next, alloc_from, alloc, release, link_front, unlink_prev, unlink_next, unlink,
  collect_from, collect_from_tail,
}
use matrixcache.Lru
use matrixcache.Ghost
use matrixcache.Arc
use matrixcache.Arc.Model.{start}
use matrixcache.Arc.Policy.{ReplacementArc, new}
use matrixcache.Arc.Policy.Step.{Call, Reply, step, after}
use matrixcache.Arc.Policy.Run.{run, model_run, run-model, SizesFit, after-SizesFit}
use matrixcache.Arc.Policy
use matrixcache.Arc.Exclusive.{times_tracked, after-tracked_once}

program : Unit {0}
unfolding set_prev set_next alloc_from alloc release link_front unlink_prev unlink_next unlink
    collect_from collect_from_tail lookup insert remove Lru.new Lru.set_capacity Lru.size
    Lru.refront Lru.put_new Lru.put_at Lru.put Lru.get_at Lru.get Lru.drop_node Lru.delete_at
    Lru.delete Lru.get_tail Lru.evict_at Lru.evict_one Lru.evict_from Lru.evict Lru.reset Ghost.new
    Ghost.set_capacity Ghost.put Ghost.delete Ghost.put_all Ghost.downgrade Ghost.evict_one_data
    Ghost.evict_one_ghost Ghost.pop Ghost.reset Arc.new Arc.set_capacity Arc.reset Arc.pop
    Arc.replace Arc.make_room Arc.split_at Arc.lowered Arc.raised Arc.put_fetch Arc.put_active
    Arc.admit Arc.access Arc.put Arc.get Arc.delete Policy.new Policy.init Policy.reset
    Policy.set_item_capacity Policy.put Policy.get Policy.delete step after run
program = tt

-- Three keys through a cache for two of them: `a` comes back as a ghost of the active list, which
-- makes `c` a ghost of the fetch list, and `c` comes back as such.
abbrev calls : List Call
calls =
    Call.put_key "a"
    ∷ Call.get_key "a"
    ∷ Call.put_key "b"
    ∷ Call.put_key "c"
    ∷ Call.get_key "b"
    ∷ Call.get_key "a"
    ∷ Call.get_key "c"
    ∷ Call.active_tail 2
    ∷ Call.fetch_tail 2
    ∷ []

run-calls :
    run calls (new 2)
    ≡ Reply.done
      ∷ Reply.found true
      ∷ Reply.done
      ∷ Reply.done
      ∷ Reply.found true
      ∷ Reply.found false
      ∷ Reply.found false
      ∷ Reply.listed ("a" ∷ "c" ∷ [])
      ∷ Reply.listed []
      ∷ []
unfolding program
run-calls = refl

-- `put` refuses the empty key and `get` lets it in, as a key of the fetch list.
empty_key_is_tracked :
    ((Policy.put "" (new 2)) ≡ new 2)
    × (Arc.get_fetch_data_tail 2 (Policy.get "" (new 2)).0.arc_list ≡ "" ∷ [])
unfolding program
empty_key_is_tracked = (refl, refl)

-- A second `get` of the empty key is a miss again, although the key is tracked.
empty_key_misses : (Policy.get "" (Policy.get "" (new 2)).0).1 ≡ false
unfolding program
empty_key_misses = refl

-- Raised from two to four, the capacity lets four keys in, and lowered again it leaves them there.
outgrown :
    Arc.size
      (after
        (Call.set_capacity_to 4
          ∷ Call.put_key "a"
          ∷ Call.put_key "b"
          ∷ Call.put_key "c"
          ∷ Call.put_key "d"
          ∷ Call.set_capacity_to 2
          ∷ [])
        (new 2)).arc_list
    ≡ 4
unfolding program
outgrown = refl

abbrev resized : List Call
resized = Call.set_capacity_to 4 ∷ (calls ++ (Call.set_capacity_to 1 ∷ calls))

run-model_example : run resized (new 2) ≡ model_run resized (start 2)
run-model_example = run-model resized 2 (omega arith) (omega arith) (ground arith)

after-SizesFit_example : SizesFit (after calls (new 2)).arc_list 2
after-SizesFit_example =
    after-SizesFit calls 2 (omega arith) (omega arith) (ground arith) (ground arith)

after-tracked_once_example : times_tracked "b" (after resized (new 2)).arc_list ≤ 1
after-tracked_once_example =
    after-tracked_once resized 2 "b" (omega arith) (omega arith) (ground arith)
