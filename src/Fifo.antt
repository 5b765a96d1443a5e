-- ===== src/Fifo.antt =====
-- src/runtime/replacement.rs, `ReplacementFifo`: a queue of buffers, as an index from a key to its
-- buffer and node, and a linked list of the nodes with the oldest first. `handled` is what the
-- registered handler was given, the oldest first.
pub mod Queue
pub mod Model
pub mod Holds
pub mod Drop
pub mod Write
pub mod Append
pub mod Evict
pub mod Put
pub mod Step
pub mod Errors
pub mod Run
use matrixcache.Base.{
  ℕ, zero, suc, List, [], ◌∷◌, ◌++◌, String, Bool, true, false, Option, none, some, Result, ok, err,
  length, str_eq, is_some, ltb, not, ◌&&◌, list_eq, if◌then◌else◌, saturating_add, saturating_sub,
}
use matrixcache.Base.Map.{lookup, insert, remove}
use matrixcache.Arena.{
  KeyArena, KeyList, empty_arena, empty_list, front, key, alloc, release, link_back, unlink,
}
use matrixcache.Buffer.{
  CacheBuffer, CacheError, not_found, replace_mismatch, cache_buffer_space, clone_cache_buffer,
  ReplacementPolicyBase, new_base, init_base, set_base_capacity, reaccount,
}

pub record FifoEntry : Type 0 where
  pub buffer : CacheBuffer
  pub node : ℕ

pub record ReplacementFifo : Type 0 where
  pub base : ReplacementPolicyBase
  pub index : List (String × FifoEntry)
  pub arena : KeyArena
  pub queue : KeyList
  pub mem_eviction_func : Bool
  pub handled : List CacheBuffer

unfoldable pub new : ℕ → ReplacementFifo
new capacity = record {
  base = new_base capacity;
  index = [];
  arena = empty_arena;
  queue = empty_list;
  mem_eviction_func = false;
  handled = [];
}

unfoldable pub init : ReplacementFifo → ReplacementFifo
init f = record f { base = init_base f.base }

-- The policy stays initialized.
unfoldable pub reset : ReplacementFifo → ReplacementFifo
reset f = record f {
  base = record (f.base) { used = 0 };
  index = [];
  arena = empty_arena;
  queue = empty_list;
}

unfoldable pub register_mem_eviction_handler : ReplacementFifo → ReplacementFifo
register_mem_eviction_handler f = record f { mem_eviction_func = true }

-- `unlink` and `release` of a node.
unfoldable pub free_node : ℕ → ReplacementFifo → ReplacementFifo
free_node node f =
    let (ns1, queue1) = unlink node f.arena.nodes f.queue in
    record f { arena = release node (record (f.arena) { nodes = ns1 }); queue = queue1 }

-- One round of the eviction loop past its `front`, by the entry of the node's key.
unfoldable pub evict_entry :
    Option FifoEntry → String → ReplacementFifo → ReplacementFifo × List CacheBuffer
evict_entry none k f = (f, [])
evict_entry (some e) k f = (
  record f {
    index = remove k f.index;
    base = record (f.base) { used = saturating_sub f.base.used (cache_buffer_space e.buffer) };
    handled =
        if f.mem_eviction_func then f.handled ++ (clone_cache_buffer e.buffer ∷ []) else f.handled;
  },
  e.buffer ∷ [],
)

unfoldable pub evict_node : ℕ → ReplacementFifo → ReplacementFifo × List CacheBuffer
evict_node node f = let k = key f.arena node in evict_entry (lookup k f.index) k (free_node node f)

unfoldable pub evict_front : Option ℕ → ReplacementFifo → ReplacementFifo × List CacheBuffer
evict_front none f = (f, [])
evict_front (some node) f = evict_node node f

-- The loop, on fuel: it stops by its test or at an empty queue.
unfoldable pub evict_from :
    ℕ → List CacheBuffer → ReplacementFifo → ReplacementFifo × List CacheBuffer
evict_from zero evicted f = (f, evicted)
evict_from (suc fuel) evicted f =
    let (f', popped) = evict_front (front f.queue) f in
    let rest = evict_from fuel (evicted ++ popped) f' in
    if ltb f.base.capacity f.base.used && is_some (front f.queue) then rest else (f, evicted)

-- One round for each entry is enough: `Evict.evict_to_capacity-Holds`.
unfoldable pub evict_to_capacity : ReplacementFifo → ReplacementFifo × List CacheBuffer
evict_to_capacity f = evict_from (length f.index) [] f

-- The two branches of `put`, by the entry of the buffer's key.
unfoldable pub put_at : Option FifoEntry → CacheBuffer → ReplacementFifo → ReplacementFifo
put_at (some e) b f = record f {
  index = insert b.key (record e { buffer = b }) f.index;
  base = reaccount (cache_buffer_space e.buffer) (cache_buffer_space b) f.base;
}
put_at none b f =
    let (arena1, node) = alloc b.key f.arena in
    let (ns2, queue2) = link_back node arena1.nodes f.queue in
    record f {
      arena = record arena1 { nodes = ns2 };
      queue = queue2;
      base = record (f.base) { used = saturating_add f.base.used (cache_buffer_space b) };
      index = insert b.key (record { buffer = b; node = node }) f.index;
    }

unfoldable pub put : CacheBuffer → ReplacementFifo → ReplacementFifo × List CacheBuffer
put b f =
    if not f.base.initialized
    then (f, [])
    else (if str_eq b.key ""
        then (f, [])
        else evict_to_capacity (put_at (lookup b.key f.index) b f))

unfoldable pub update_at :
    Option FifoEntry
    → String
    → List ℕ
    → CacheBuffer
    → ReplacementFifo
    → ReplacementFifo × Result CacheError (Unit {0})
update_at none k old_data b f = (f, err not_found)
update_at (some e) k old_data b f =
    if not (list_eq e.buffer.value old_data) then (f, err replace_mismatch) else (
      (evict_to_capacity (record f {
        index = insert k (record e { buffer = b }) f.index;
        base = reaccount (cache_buffer_space e.buffer) (cache_buffer_space b) f.base;
      })).0,
      ok tt,
    )

unfoldable pub update_cache_buffer :
    String → List ℕ → CacheBuffer → ReplacementFifo → ReplacementFifo × Result CacheError (Unit {0})
update_cache_buffer k old_data b f = update_at (lookup k f.index) k old_data b f

abbrev pub buffer_of : Option FifoEntry → Option CacheBuffer
buffer_of none = none
buffer_of (some e) = some (clone_cache_buffer e.buffer)

unfoldable pub get : String → ReplacementFifo → Option CacheBuffer
get k f = buffer_of (lookup k f.index)

unfoldable pub delete_at :
    Option FifoEntry → String → ReplacementFifo → ReplacementFifo × Option CacheBuffer
delete_at none k f = (f, none)
delete_at (some e) k f = (
  free_node e.node (record f {
    index = remove k f.index;
    base = record (f.base) { used = saturating_sub f.base.used (cache_buffer_space e.buffer) };
  }),
  some e.buffer,
)

unfoldable pub delete : String → ReplacementFifo → ReplacementFifo × Option CacheBuffer
delete k f = delete_at (lookup k f.index) k f

unfoldable pub set_capacity : ℕ → ReplacementFifo → ReplacementFifo
set_capacity capacity f =
    (evict_to_capacity (record f { base = set_base_capacity capacity f.base })).0

unfoldable pub item_count : ReplacementFifo → ℕ
item_count f = length f.index

unfoldable pub queue_len : ReplacementFifo → ℕ
queue_len f = f.queue.len
