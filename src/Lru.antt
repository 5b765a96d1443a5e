-- ===== src/Lru.antt =====
-- src/runtime/replacement.rs, `BaseLruList`: a least-recently-used list of keys, as an index from
-- a key to its node and a linked list of the nodes with the most recent first.
pub mod Holds
pub mod Refront
pub mod Touch
pub mod Take
pub mod Evict
pub mod Run
use matrixcache.Base.{
  ℕ, zero, suc, Option, none, some, List, [], ◌∷◌, ◌++◌, String, Bool, true, false, length,
  is_empty, ltb, if◌then◌else◌,
}
use matrixcache.Base.Map.{lookup, insert, remove}
use matrixcache.Arena.{
  KeyArena, KeyList, empty_arena, empty_list, back, key, alloc, release, link_front, unlink,
  collect_from_tail,
}

pub record BaseLruList : Type 0 where
  pub capacity : ℕ
  pub arena : KeyArena
  pub list : KeyList
  pub index : List (String × ℕ)

unfoldable pub new : ℕ → BaseLruList
new capacity = record { capacity = capacity; arena = empty_arena; list = empty_list; index = [] }

unfoldable pub set_capacity : ℕ → BaseLruList → BaseLruList
set_capacity capacity l = record l { capacity = capacity }

unfoldable pub size : BaseLruList → ℕ
size l = length l.index

-- `unlink` and then `link_front` of one node, as `put` and `get` do on a hit.
unfoldable pub refront : ℕ → BaseLruList → BaseLruList
refront node l =
    let (ns1, list1) = unlink node l.arena.nodes l.list in
    let (ns2, list2) = link_front node ns1 list1 in
    record l { arena = record (l.arena) { nodes = ns2 }; list = list2 }

-- `put` of a key that the index does not hold.
unfoldable pub put_new : String → BaseLruList → BaseLruList
put_new k l =
    let (arena1, node) = alloc k l.arena in
    let (ns2, list2) = link_front node arena1.nodes l.list in
    record l { arena = record arena1 { nodes = ns2 }; list = list2; index = insert k node l.index }

unfoldable pub put_at : Option ℕ → String → BaseLruList → BaseLruList
put_at (some node) k l = refront node l
put_at none k l = put_new k l

unfoldable pub put : String → BaseLruList → BaseLruList
put k l = put_at (lookup k l.index) k l

unfoldable pub get_at : Option ℕ → BaseLruList → BaseLruList × Bool
get_at (some node) l = (refront node l, true)
get_at none l = (l, false)

unfoldable pub get : String → BaseLruList → BaseLruList × Bool
get k l = get_at (lookup k l.index) l

-- `unlink` and `release` of one node, and `index.remove` of its key.
unfoldable pub drop_node : ℕ → String → BaseLruList → BaseLruList
drop_node node k l =
    let (ns1, list1) = unlink node l.arena.nodes l.list in
    record l {
      arena = release node (record (l.arena) { nodes = ns1 });
      list = list1;
      index = remove k l.index;
    }

unfoldable pub delete_at : Option ℕ → String → BaseLruList → BaseLruList × Bool
delete_at (some node) k l = (drop_node node k l, true)
delete_at none k l = (l, false)

unfoldable pub delete : String → BaseLruList → BaseLruList × Bool
delete k l = delete_at (lookup k l.index) k l

unfoldable pub get_tail : ℕ → BaseLruList → List String
get_tail n l = collect_from_tail l.arena.nodes l.list n

unfoldable pub evict_at : Option ℕ → BaseLruList → BaseLruList × List String
evict_at (some node) l = let k = key l.arena node in (drop_node node k l, k ∷ [])
evict_at none l = (l, [])

unfoldable pub evict_one : BaseLruList → BaseLruList × List String
evict_one l = evict_at (back l.list) l

-- The loop of `evict`, on fuel: it stops by its test or when nothing was popped.
unfoldable pub evict_from : ℕ → List String → BaseLruList → BaseLruList × List String
evict_from zero evicted l = (l, evicted)
evict_from (suc fuel) evicted l =
    let (l', popped) = evict_one l in
    let rest = evict_from fuel (evicted ++ popped) l' in
    if ltb l.capacity (size l)
    then (if is_empty popped then (l', evicted) else rest)
    else (l, evicted)

-- One round for each entry is enough: `Evict.evict-Holds`.
unfoldable pub evict : BaseLruList → BaseLruList × List String
evict l = evict_from (size l) [] l

unfoldable pub reset : BaseLruList → BaseLruList
reset l = record l { arena = empty_arena; list = empty_list; index = [] }
