-- ===== src/Arena.antt =====
-- src/runtime/replacement.rs, `KeyArena` and `KeyList`: doubly linked lists of keys whose nodes are
-- slots of a vector. A read or write past the end of the vector, where the code panics, gives
-- a blank node here and writes nothing; `Segment.Linked` keeps every access in range. A `u32` index
-- is a number below 2 ^ 32, and `as u32` a remainder.
pub mod Nodes
pub mod Segment
pub mod Link
pub mod Unlink
pub mod Collect
use matrixcache.Base.{
  ℕ, zero, suc, ◌+◌, ◌-◌, ◌%◌, ◌^◌, Option, none, some, List, [], ◌∷◌, ◌++◌, String, length, get_or,
  set, ltb, ◌==◌, ◌&&◌, not, if◌then◌else◌, saturating_add, saturating_sub,
}

-- `KEY_LIST_NIL`, `u32::MAX`
abbrev pub key_list_nil : ℕ
key_list_nil = 2 ^ 32 - 1

pub record KeyListNode : Type 0 where
  pub key : String
  pub prev : ℕ
  pub next : ℕ

-- `free` is a stack with its top first, where the code pushes and pops at the back of a vector.
pub record KeyArena : Type 0 where
  pub nodes : List KeyListNode
  pub free : List ℕ

pub record KeyList : Type 0 where
  pub head : ℕ
  pub tail : ℕ
  pub used : ℕ
  pub len : ℕ

-- `KeyList::new`, and what `KeyList::clear` leaves.
abbrev pub empty_list : KeyList
empty_list = record { head = key_list_nil; tail = key_list_nil; used = 0; len = 0 }

-- `KeyArena::new`, and what `KeyArena::clear` leaves.
abbrev pub empty_arena : KeyArena
empty_arena = record { nodes = []; free = [] }

abbrev pub back : KeyList → Option ℕ
back l = if l.tail == key_list_nil then none else some l.tail

abbrev pub front : KeyList → Option ℕ
front l = if l.head == key_list_nil then none else some l.head

abbrev pub blank : KeyListNode
blank = record { key = ""; prev = key_list_nil; next = key_list_nil }

-- `&nodes[node as usize]`
abbrev pub node_at : List KeyListNode → ℕ → KeyListNode
node_at ns i = get_or ns i blank

-- `nodes[i].prev = p` and `nodes[i].next = n`
unfoldable pub set_prev : ℕ → ℕ → List KeyListNode → List KeyListNode
set_prev i p ns = set ns i (record (node_at ns i) { prev = p })

unfoldable pub set_next : ℕ → ℕ → List KeyListNode → List KeyListNode
set_next i n ns = set ns i (record (node_at ns i) { next = n })

-- The node that `alloc` writes, at a recycled slot or at a new one.
abbrev pub fresh_node : String → KeyListNode
fresh_node key = record { key = key; prev = key_list_nil; next = key_list_nil }

-- `alloc`, by the free list: the arena and the index of the node.
unfoldable pub alloc_from : List ℕ → String → KeyArena → KeyArena × ℕ
alloc_from (i ∷ rest) key a = (record a { nodes = set a.nodes i (fresh_node key); free = rest }, i)
alloc_from [] key a =
    let ns = a.nodes ++ (fresh_node key ∷ []) in (record a { nodes = ns }, (length ns - 1) % 2 ^ 32)

unfoldable pub alloc : String → KeyArena → KeyArena × ℕ
unfolding alloc_from
alloc key a = alloc_from a.free key a

unfoldable pub release : ℕ → KeyArena → KeyArena
release node a = record a { nodes = set a.nodes node blank; free = node ∷ a.free }

abbrev pub key : KeyArena → ℕ → String
key a node = (node_at a.nodes node).key

-- `link_front`, on the node vector and the list.
unfoldable pub link_front : ℕ → List KeyListNode → KeyList → List KeyListNode × KeyList
link_front node ns l =
    let old_head = l.head in
    let ns1 = set_next node old_head (set_prev node key_list_nil ns) in
    let len = saturating_add l.len 1 in
    if old_head == key_list_nil
    then (ns1, record l { head = node; tail = node; len = len })
    else (set_prev old_head node ns1, record l { head = node; len = len })

unfoldable pub link_back : ℕ → List KeyListNode → KeyList → List KeyListNode × KeyList
link_back node ns l =
    let old_tail = l.tail in
    let ns1 = set_prev node old_tail (set_next node key_list_nil ns) in
    let len = saturating_add l.len 1 in
    if old_tail == key_list_nil
    then (ns1, record l { head = node; tail = node; len = len })
    else (set_next old_tail node ns1, record l { tail = node; len = len })

-- The two halves of `unlink` that close the gap round a node: towards `prev`, then towards `next`.
unfoldable pub unlink_prev : ℕ → ℕ → List KeyListNode → KeyList → List KeyListNode × KeyList
unlink_prev prev next ns l =
    if prev == key_list_nil then (ns, record l { head = next }) else (set_next prev next ns, l)

unfoldable pub unlink_next : ℕ → ℕ → List KeyListNode → KeyList → List KeyListNode × KeyList
unlink_next prev next ns l =
    if next == key_list_nil then (ns, record l { tail = prev }) else (set_prev next prev ns, l)

unfoldable pub unlink : ℕ → List KeyListNode → KeyList → List KeyListNode × KeyList
unlink node ns l =
    let prev = (node_at ns node).prev in
    let next = (node_at ns node).next in
    let (ns1, l1) = unlink_prev prev next ns l in
    let (ns2, l2) = unlink_next prev next ns1 l1 in
    (
      set_next node key_list_nil (set_prev node key_list_nil ns2),
      record l2 { len = saturating_sub l2.len 1 },
    )

-- The loop of `collect_from_tail`: at most `size` keys, from `cursor` towards the head.
unfoldable pub collect_from : List KeyListNode → ℕ → ℕ → List String
collect_from ns zero cursor = []
collect_from ns (suc size) cursor =
    let rest = collect_from ns size (node_at ns cursor).prev in
    if cursor == key_list_nil then [] else (node_at ns cursor).key ∷ rest

unfoldable pub collect_from_tail : List KeyListNode → KeyList → ℕ → List String
unfolding collect_from
collect_from_tail ns l size = collect_from ns size l.tail
