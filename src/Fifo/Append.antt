-- ===== src/Fifo/Append.antt =====
-- src/runtime/replacement.rs, `ReplacementFifo::put` of a key that the index does not hold.
use matrixcache.Base.{
  ℕ, ◌+◌, ◌<◌, ◌^◌, ◌≡◌, refl, sym, ◌∙◌, ap, none, List, [], ◌∷◌, ◌++◌, String, some, length,
  length-append, str_eq, if◌then◌else◌, arith,
}
use mathlib.Core.Path.{subst, subst₂}
use matrixcache.Base.Map.{
  lookup, insert, keys, IsMap, lookup-insert, IsMap-insert, length-insert, lookup-append_one,
  IsMap-append_one, keys-append_one,
}
use matrixcache.Arena.{KeyListNode, key_list_nil, node_at, alloc_from, alloc, link_back}
use matrixcache.Arena.Segment.{NotIn-append}
use matrixcache.Lru.{BaseLruList, size}
use matrixcache.Lru.Holds.{entries, Free, Holds, entries-frame, size-Holds}
use matrixcache.Lru.Touch.{alloc_from-Allocated, Free-length}
use matrixcache.Buffer.{CacheBuffer, cache_buffer_space}
use matrixcache.Fifo.{FifoEntry, ReplacementFifo, put_at}
use matrixcache.Fifo.Queue.{link_back-Linked, link_back-frame}
use matrixcache.Fifo.Model.{FifoModel, total, total-append}
use matrixcache.Fifo.Holds.{
  FifoHolds, plain, buffers, node_of, held_by, lookup-node_index, lookup-buffers, node_index-insert,
  buffers-insert,
}

entries-append_one :
    (nodes : List KeyListNode) (ns : List ℕ) (node : ℕ)
    → entries nodes (ns ++ (node ∷ []))
      ≡ entries nodes ns ++ (((node_at nodes node).key, node) ∷ [])
entries-append_one nodes [] node = refl
entries-append_one nodes (n ∷ ns) node =
    ap (λ t. ((node_at nodes n).key, n) ∷ t) (entries-append_one nodes ns node)

-- The free slots do not see the order of the linked ones.
Free-rotate :
    (nodes : List KeyListNode) (node : ℕ) (ns fs : List ℕ)
    → Free nodes (node ∷ ns) fs
    → Free nodes (ns ++ (node ∷ [])) fs
Free-rotate nodes node ns [] f = tt
Free-rotate nodes node ns (i ∷ fs) f = (
  f.0,
  f.1,
  (NotIn-append i ns (node ∷ [])).1 (f.2.1, (f.2.0, tt)),
  f.3,
  Free-rotate nodes node ns fs f.4,
)

-- A new key behind the last.
append_key : String → BaseLruList → BaseLruList
append_key k l =
    let (arena1, node) = alloc k l.arena in
    let (ns2, list2) = link_back node arena1.nodes l.list in
    record l { arena = record arena1 { nodes = ns2 }; list = list2; index = insert k node l.index }

append_key-Holds :
    (l : BaseLruList) (k : String) {cap : ℕ} {ks : List String}
    → Holds l cap ks
    → length ks < key_list_nil
    → lookup k l.index ≡ none
    → Holds (append_key k l) cap (ks ++ (k ∷ []))
unfolding append_key alloc size
append_key-Holds l k {cap} {ks} h room miss =
    let ns = h.nodes in
    let c = h.consistent in
    let few : length ns < key_list_nil = omega (arith, size-Holds l h, c.count, room) in
    let r = alloc_from l.arena.free k l.arena in
    let node = r.1 in
    let a = alloc_from-Allocated l.arena.free l k ns refl c few in
    let q = link_back node r.0.nodes l.list in
    let frame : (j : ℕ) → (node_at q.0 j).key ≡ (node_at r.0.nodes j).key =
      λ j. (link_back-frame r.0.nodes l.list node j).0 in
    let len : length q.0 ≡ length r.0.nodes = (link_back-frame r.0.nodes l.list node 0).1 in
    let es = entries l.arena.nodes ns in
    let ns' = ns ++ (node ∷ []) in
    let after : entries q.0 ns' ≡ es ++ ((k, node) ∷ []) =
      entries-frame r.0.nodes q.0 ns' frame
      ∙ (entries-append_one r.0.nodes ns node
          ∙ (ap (λ t. entries r.0.nodes ns ++ ((t, node) ∷ [])) a.named
              ∙ ap (λ t. t ++ ((k, node) ∷ [])) a.others)) in
    let absent : lookup k es ≡ none = sym (c.same k) ∙ miss in
    record {
      nodes = ns';
      consistent = record {
        linked = link_back-Linked r.0.nodes l.list node ns a.linked a.inside a.small a.unlinked few;
        unique = subst IsMap (sym after) (IsMap-append_one k node es absent c.unique);
        same = λ j.
            lookup-insert k j node l.index
            ∙ (ap (λ o. if str_eq k j then some node else o) (c.same j)
                ∙ (sym (lookup-append_one k j node es absent) ∙ sym (ap (lookup j) after)));
        index_map = IsMap-insert k node l.index c.index_map;
        count =
            omega (arith, length-insert k node l.index miss, c.count, length-append ns (node ∷ []));
        free =
            Free-length r.0.nodes q.0 ns' r.0.free len
              (Free-rotate r.0.nodes node ns r.0.free a.free);
        slots = omega (arith, a.slots, len, length-append ns (node ∷ []));
      };
      contents = ap keys after ∙ (keys-append_one k node es ∙ ap (λ t. t ++ (k ∷ [])) h.contents);
      capacity = h.capacity;
    }

pub put_new-FifoHolds :
    (b : CacheBuffer) (f : ReplacementFifo) {m : FifoModel}
    → FifoHolds f m
    → lookup b.key f.index ≡ none
    → total m.queue + cache_buffer_space b < 2 ^ 64
    → length (keys m.queue) < key_list_nil
    → FifoHolds (put_at none b f) (record m { queue = m.queue ++ ((b.key, b) ∷ []) })
unfolding put_at append_key
put_new-FifoHolds b f {m} h miss fits room =
    let k = b.key in
    let absent : lookup k m.queue ≡ none =
      sym (h.same k) ∙ (lookup-buffers k f.index ∙ ap held_by miss) in
    let node = (alloc k f.arena).1 in
    let e : FifoEntry = record { buffer = b; node = node } in
    let held =
      append_key-Holds (plain f) k h.held room (lookup-node_index k f.index ∙ ap node_of miss) in
    record {
      held =
          subst₂ (λ t ks. Holds (record (plain (put_at none b f)) { index = t }) m.capacity ks)
            (sym (node_index-insert k e f.index)) (sym (keys-append_one k b m.queue)) held;
      same = λ j.
          ap (lookup j) (buffers-insert k e f.index)
          ∙ (lookup-insert k j b (buffers f.index)
              ∙ (ap (λ o. if str_eq k j then some b else o) (h.same j)
                  ∙ sym (lookup-append_one k j b m.queue absent)));
      unique = IsMap-append_one k b m.queue absent h.unique;
      used = omega (arith, h.used, fits, total-append k b m.queue);
      initialized = h.initialized;
      watched = h.watched;
      handled = h.handled;
    }
