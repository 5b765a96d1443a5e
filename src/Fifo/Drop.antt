-- ===== src/Fifo/Drop.antt =====
-- src/runtime/replacement.rs, `ReplacementFifo::delete`, and how an entry leaves the queue.
use matrixcache.Base.{
  ◌≡◌, refl, sym, ◌∙◌, ap, Option, none, some, String, str_eq, saturating_sub, if◌then◌else◌, arith,
}
use mathlib.Core.Path.{subst, subst₂}
use matrixcache.Base.Map.{lookup, remove, keys-remove, lookup-remove, IsMap-remove, remove_absent}
use matrixcache.Lru.{drop_node}
use matrixcache.Lru.Holds.{Holds}
use matrixcache.Lru.Take.{drop_node-Holds}
use matrixcache.Buffer.{cache_buffer_space}
use matrixcache.Fifo.{FifoEntry, ReplacementFifo, free_node, delete_at, delete}
use matrixcache.Fifo.Model.{FifoModel, total-remove}
use matrixcache.Fifo.Holds.{
  FifoHolds, plain, buffers, node_of, held_by, lookup-node_index, lookup-buffers, node_index-remove,
  buffers-remove, IsMap-buffers,
}

-- The policy without the entry `e` of a key, its node unlinked and released.
unfoldable pub without : String → FifoEntry → ReplacementFifo → ReplacementFifo
unfolding free_node
without k e f = free_node e.node (record f {
  index = remove k f.index;
  base = record (f.base) { used = saturating_sub f.base.used (cache_buffer_space e.buffer) };
})

pub without-FifoHolds :
    (k : String) (e : FifoEntry) (f : ReplacementFifo) {m : FifoModel}
    → FifoHolds f m
    → lookup k f.index ≡ some e
    → FifoHolds (without k e f) (record m { queue = remove k m.queue })
unfolding without free_node drop_node
without-FifoHolds k e f {m} h hit =
    let found : lookup k m.queue ≡ some e.buffer =
      sym (h.same k) ∙ (lookup-buffers k f.index ∙ ap held_by hit) in
    let dropped =
      drop_node-Holds (plain f) k e.node h.held (lookup-node_index k f.index ∙ ap node_of hit) in
    record {
      held =
          subst₂ (λ i ks. Holds (record (plain (without k e f)) { index = i }) m.capacity ks)
            (sym (node_index-remove k f.index)) (sym (keys-remove k m.queue)) dropped;
      same = λ j.
          ap (lookup j) (buffers-remove k f.index)
          ∙ (lookup-remove k j (buffers f.index) (IsMap-buffers f.index h.held.consistent.index_map)
              ∙ (ap (λ o. if str_eq k j then none else o) (h.same j)
                  ∙ sym (lookup-remove k j m.queue h.unique)));
      unique = IsMap-remove k m.queue h.unique;
      used = omega (arith, h.used, total-remove k {b = e.buffer} m.queue found);
      initialized = h.initialized;
      watched = h.watched;
      handled = h.handled;
    }

delete_at-FifoHolds :
    (o : Option FifoEntry) (k : String) (f : ReplacementFifo) {m : FifoModel}
    → FifoHolds f m
    → lookup k f.index ≡ o
    → let (f', found) = delete_at o k f in
      FifoHolds f' (record m { queue = remove k m.queue }) × (found ≡ held_by o)
unfolding delete_at without
delete_at-FifoHolds none k f {m} h hit = (
  subst (λ q. FifoHolds f (record m { queue = q }))
      (sym (remove_absent k m.queue (sym (h.same k) ∙ (lookup-buffers k f.index ∙ ap held_by hit))))
      h,
  refl,
)
delete_at-FifoHolds (some e) k f {m} h hit = (without-FifoHolds k e f h hit, refl)

-- `delete` drops the buffer under a key, keeps the order of the others, and returns it.
pub delete-FifoHolds :
    (k : String) (f : ReplacementFifo) {m : FifoModel}
    → FifoHolds f m
    → let (f', found) = delete k f in
      FifoHolds f' (record m { queue = remove k m.queue }) × (found ≡ lookup k m.queue)
unfolding delete
delete-FifoHolds k f {m} h =
    let (held, found) = delete_at-FifoHolds (lookup k f.index) k f h refl in
    (held, found ∙ (sym (lookup-buffers k f.index) ∙ h.same k))
