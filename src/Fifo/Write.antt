-- ===== src/Fifo/Write.antt =====
-- src/runtime/replacement.rs, `ReplacementFifo`: a new buffer in the place of an old one, as `put`
-- and `update_cache_buffer` write it.
use matrixcache.Base.{
  ℕ, ◌+◌, ◌<◌, ◌^◌, ◌≡◌, refl, sym, ◌∙◌, ap, some, List, String, length, str_eq, eq_iff, Bool-cases,
  inl, inr, if◌then◌else◌, arith,
}
use mathlib.Core.Path.{subst₂}
use matrixcache.Base.Map.{lookup, insert, IsMap, lookup-insert, IsMap-insert, length-insert_present}
use matrixcache.Lru.{BaseLruList}
use matrixcache.Lru.Holds.{Holds}
use matrixcache.Buffer.{CacheBuffer, cache_buffer_space, reaccount}
use matrixcache.Fifo.{FifoEntry, ReplacementFifo}
use matrixcache.Fifo.Model.{
  FifoModel, total, replace, total-replace, keys-replace, lookup-replace, IsMap-replace,
  space-le_total,
}
use matrixcache.Fifo.Holds.{
  FifoHolds, plain, node_index, buffers, node_of, held_by, lookup-node_index, lookup-buffers,
  node_index-insert, buffers-insert,
}

-- The same index in another order of its entries.
reindex-Holds :
    (l : BaseLruList) (i : List (String × ℕ)) {cap : ℕ} {ks : List String}
    → Holds l cap ks
    → ((k : String) → lookup k i ≡ lookup k l.index)
    → IsMap i
    → length i ≡ length l.index
    → Holds (record l { index = i }) cap ks
reindex-Holds l i h same unique len = record {
  nodes = h.nodes;
  consistent = record {
    linked = h.consistent.linked;
    unique = h.consistent.unique;
    same = λ k. same k ∙ h.consistent.same k;
    index_map = unique;
    count = len ∙ h.consistent.count;
    free = h.consistent.free;
    slots = h.consistent.slots;
  };
  contents = h.contents;
  capacity = h.capacity;
}

lookup-insert_present :
    (k j : String) {n : ℕ} (m : List (String × ℕ))
    → lookup k m ≡ some n
    → lookup j (insert k n m) ≡ lookup j m
lookup-insert_present k j {n} m h =
    lookup-insert k j n m
    ∙ elim (Bool-cases (str_eq k j)) [ inl e ↦ ground (arith, eq_iff k j) | inr e ↦ rw e refl ]

-- The policy with another buffer under a key that it holds.
unfoldable pub rewrite_at : String → FifoEntry → CacheBuffer → ReplacementFifo → ReplacementFifo
rewrite_at k e b f = record f {
  index = insert k (record e { buffer = b }) f.index;
  base = reaccount (cache_buffer_space e.buffer) (cache_buffer_space b) f.base;
}

pub rewrite_at-FifoHolds :
    (k : String) (e : FifoEntry) (b : CacheBuffer) (f : ReplacementFifo) {m : FifoModel}
    → FifoHolds f m
    → lookup k f.index ≡ some e
    → total m.queue + cache_buffer_space b < 2 ^ 64
    → FifoHolds (rewrite_at k e b f) (record m { queue = replace k b m.queue })
unfolding rewrite_at reaccount
rewrite_at-FifoHolds k e b f {m} h hit fits =
    let e' = record e { buffer = b } in
    let found : lookup k m.queue ≡ some e.buffer =
      sym (h.same k) ∙ (lookup-buffers k f.index ∙ ap held_by hit) in
    let at : lookup k (node_index f.index) ≡ some e.node =
      lookup-node_index k f.index ∙ ap node_of hit in
    let i = node_index f.index in
    let held =
      reindex-Holds (plain f) (insert k e.node i) h.held (λ j. lookup-insert_present k j i at)
        (IsMap-insert k e.node i h.held.consistent.index_map)
        (length-insert_present k e.node {w = e.node} i at) in
    record {
      held =
          subst₂ (λ t ks. Holds (record (plain (rewrite_at k e b f)) { index = t }) m.capacity ks)
            (sym (node_index-insert k e' f.index)) (sym (keys-replace k b m.queue)) held;
      same = λ j.
          ap (lookup j) (buffers-insert k e' f.index)
          ∙ (lookup-insert k j b (buffers f.index)
              ∙ (ap (λ o. if str_eq k j then some b else o) (h.same j)
                  ∙ sym (lookup-replace k b j {c = e.buffer} m.queue found)));
      unique = IsMap-replace k b m.queue h.unique;
      used = omega (
        arith,
        h.used,
        total-replace k b {c = e.buffer} m.queue found,
        space-le_total k {b = e.buffer} m.queue found,
      );
      initialized = h.initialized;
      watched = h.watched;
      handled = h.handled;
    }
