-- ===== src/Tests/Recency.antt =====
-- src/runtime/replacement.rs: runs of the linked lists and of `BaseLruList` and `GhostLruList`, and
-- their theorems at concrete inputs.
use matrixcache.Base.{◌≡◌, refl, List, [], ◌∷◌, true, false, take, reverse, length, arith}
use matrixcache.Base.Map.{contains, erase, lookup, insert, remove}
use matrixcache.Arena.{
  KeyListNode, KeyList, empty_list, fresh_node, set_prev, set_next, alloc_from, alloc, release,
  link_front, unlink_prev, unlink_next, unlink, collect_from, collect_from_tail,
}
use matrixcache.Arena.Segment.{Linked}
use matrixcache.Arena.Link.{link_front-Linked}
use matrixcache.Arena.Unlink.{unlink-Linked}
use matrixcache.Arena.Collect.{keys_of, collect_from_tail-reverse}
use matrixcache.Lru
use matrixcache.Lru.{BaseLruList, new}
use matrixcache.Lru.Holds.{Holds, new-Holds, set_capacity-Holds}
use matrixcache.Lru.Touch.{got, put-Holds}
use matrixcache.Lru.Evict.{evict-Holds}
use matrixcache.Lru.Run.{Call, Reply, step, run, model_step, model_run, run-model_run}
use matrixcache.Ghost
use matrixcache.Ghost.{GhostLruList}
use matrixcache.Ghost.Holds.{
  GhostHolds, touch_all, new-GhostHolds, put-GhostHolds, downgrade-GhostHolds, get-GhostHolds,
  Popped, pop-Popped,
}

program : Unit {0}
unfolding set_prev set_next alloc_from alloc release link_front unlink_prev unlink_next unlink
    collect_from collect_from_tail lookup insert remove Lru.new Lru.set_capacity Lru.size
    Lru.refront Lru.put_new Lru.put_at Lru.put Lru.get_at Lru.get Lru.drop_node Lru.delete_at
    Lru.delete Lru.get_tail Lru.evict_at Lru.evict_one Lru.evict_from Lru.evict Lru.reset step run
    model_step model_run
program = tt

lists : Unit {0}
unfolding erase contains touch_all got
lists = tt

-- Three slots, linked at the front one after the other.
abbrev slots : List KeyListNode
slots = fresh_node "a" ∷ fresh_node "b" ∷ fresh_node "c" ∷ []

abbrev one : List KeyListNode × KeyList
one = link_front 0 slots empty_list

abbrev two : List KeyListNode × KeyList
two = link_front 1 one.0 one.1

abbrev three : List KeyListNode × KeyList
three = link_front 2 two.0 two.1

empty-Linked : Linked slots empty_list []
empty-Linked = record { segment = tt; distinct = tt; head = refl; tail = refl; count = refl }

one-Linked : Linked one.0 one.1 (0 ∷ [])
one-Linked =
    link_front-Linked slots empty_list 0 [] empty-Linked (omega arith) (omega arith) tt
      (omega arith)

lengths : (length one.0 ≡ 3) × (length two.0 ≡ 3)
unfolding program
lengths = (refl, refl)

two-Linked : Linked two.0 two.1 (1 ∷ 0 ∷ [])
two-Linked =
    link_front-Linked one.0 one.1 1 (0 ∷ []) one-Linked (omega (arith, lengths.0)) (omega arith)
      (ground arith) (omega arith)

link_front-Linked_example : Linked three.0 three.1 (2 ∷ 1 ∷ 0 ∷ [])
link_front-Linked_example =
    link_front-Linked two.0 two.1 2 (1 ∷ 0 ∷ []) two-Linked (omega (arith, lengths.1)) (omega arith)
      (ground arith) (omega arith)

unlink-Linked_example :
    Linked (unlink 1 three.0 three.1).0 (unlink 1 three.0 three.1).1 (2 ∷ 0 ∷ [])
unlink-Linked_example = unlink-Linked three.0 three.1 1 (2 ∷ []) (0 ∷ []) link_front-Linked_example

collect_from_tail-reverse_example :
    collect_from_tail three.0 three.1 2 ≡ take 2 (reverse (keys_of three.0 (2 ∷ 1 ∷ 0 ∷ [])))
collect_from_tail-reverse_example =
    collect_from_tail-reverse three.0 three.1 (2 ∷ 1 ∷ 0 ∷ []) 2 link_front-Linked_example

last_two : collect_from_tail three.0 three.1 2 ≡ "a" ∷ "b" ∷ []
unfolding program
last_two = refl

abbrev calls : List Call
calls =
    Call.put_key "a"
    ∷ Call.put_key "b"
    ∷ Call.put_key "c"
    ∷ Call.get_key "a"
    ∷ Call.tail_keys 2
    ∷ Call.evict_all
    ∷ Call.get_key "b"
    ∷ Call.size_of
    ∷ []

run-calls :
    run calls (new 2)
    ≡ Reply.done
      ∷ Reply.done
      ∷ Reply.done
      ∷ Reply.found true
      ∷ Reply.listed ("b" ∷ "c" ∷ [])
      ∷ Reply.listed ("b" ∷ [])
      ∷ Reply.found false
      ∷ Reply.count 2
      ∷ []
unfolding program
run-calls = refl

run-model_run_example : run calls (new 2) ≡ model_run calls 2 []
run-model_run_example = run-model_run calls 2 (omega arith)

-- Two keys in a list that is then left room for one.
abbrev shrunk : BaseLruList
shrunk = Lru.set_capacity 1 (Lru.put "b" (Lru.put "a" (new 2)))

filled-Holds : Holds (Lru.put "b" (Lru.put "a" (new 2))) 2 ("b" ∷ "a" ∷ [])
unfolding lists
filled-Holds =
    put-Holds (Lru.put "a" (new 2)) "b" (put-Holds (new 2) "a" (new-Holds 2) (omega arith))
      (omega arith)

shrunk-Holds : Holds shrunk 1 ("b" ∷ "a" ∷ [])
shrunk-Holds = set_capacity-Holds 1 (Lru.put "b" (Lru.put "a" (new 2))) filled-Holds

evict-Holds_example : Holds (Lru.evict shrunk).0 1 ("b" ∷ []) × ((Lru.evict shrunk).1 ≡ "a" ∷ [])
evict-Holds_example = evict-Holds shrunk shrunk-Holds

abbrev ghosts : GhostLruList
ghosts = Ghost.downgrade (Ghost.put "b" (Ghost.put "a" (Ghost.new 2)))

put_two : GhostHolds (Ghost.put "b" (Ghost.put "a" (Ghost.new 2))) 2 ("b" ∷ "a" ∷ []) []
unfolding lists
put_two =
    put-GhostHolds (Ghost.put "a" (Ghost.new 2))
      (put-GhostHolds (Ghost.new 2) (new-GhostHolds 2) "a" (omega arith)) "b" (omega arith)

downgrade-GhostHolds_example : GhostHolds ghosts 2 ("b" ∷ []) ("a" ∷ [])
unfolding lists
downgrade-GhostHolds_example =
    downgrade-GhostHolds (Ghost.put "b" (Ghost.put "a" (Ghost.new 2))) put_two (omega arith)

get-GhostHolds_example :
    GhostHolds (Ghost.get "a" ghosts).0 2 ("b" ∷ []) ("a" ∷ []) × ((Ghost.get "a" ghosts).1 ≡ false)
unfolding lists
get-GhostHolds_example =
    get-GhostHolds ghosts downgrade-GhostHolds_example "a" (omega arith) (omega arith)

pop-Popped_example :
    Popped "a" (Ghost.pop "a" ghosts).0 2 ("b" ∷ []) ("a" ∷ []) (Ghost.pop "a" ghosts).1
pop-Popped_example = pop-Popped "a" ghosts downgrade-GhostHolds_example
