-- ===== src/Fifo/Evict.antt =====
-- src/runtime/replacement.rs, `ReplacementFifo::evict_to_capacity`.
use matrixcache.Base.{
  ℕ, zero, suc, ◌+◌, ◌<◌, ◌≤◌, ◌≡◌, refl, sym, ◌∙◌, ap, Bool, true, false, none, some, List, [],
  ◌∷◌, ◌++◌, String, length, ltb, is_some, eq_iff, Bool-cases, Option-cases, inl, inr,
  if◌then◌else◌, arith,
}
use mathlib.Core.Path.{subst}
use mathlib.Core.List.{append_assoc, append-nil}
use matrixcache.Base.Map.{lookup, remove, keys}
use matrixcache.Arena.{KeyList, key_list_nil, node_at, front, key}
use matrixcache.Lru.{size}
use matrixcache.Lru.Holds.{entries, Consistent, size-Holds, length-keys}
use matrixcache.Buffer.{CacheBuffer, cache_buffer_space}
use matrixcache.Fifo.{
  FifoEntry, ReplacementFifo, free_node, evict_entry, evict_node, evict_front, evict_from,
  evict_to_capacity,
}
use matrixcache.Fifo.Model.{FifoModel, total, shrink, settle}
use matrixcache.Fifo.Holds.{
  FifoHolds, plain, buffers, node_of, held_by, lookup-node_index, lookup-buffers, length-node_index,
}
use matrixcache.Fifo.Drop.{without, without-FifoHolds}

front-nil : (l : KeyList) → l.head ≡ key_list_nil → front l ≡ none
front-nil l h = ground arith

front-head : (l : KeyList) (n : ℕ) → l.head ≡ n → n < key_list_nil → front l ≡ some n
front-head l n h small = ground arith

-- The handler sees a buffer, if there is a handler.
abbrev seen : Bool → List CacheBuffer → List CacheBuffer → List CacheBuffer
seen watched handled gone = if watched then handled ++ gone else handled

seen-same :
    (w w' : Bool) (hs hs' : List CacheBuffer) (b b' : CacheBuffer)
    → w ≡ w'
    → hs ≡ hs'
    → b ≡ b'
    → seen w hs (b ∷ []) ≡ seen w' hs' (b' ∷ [])
seen-same w w' hs hs' b b' ew eh eb = cc

-- The head of the queue is the entry of the oldest key.
record Oldest (f : ReplacementFifo) (k : String) (b : CacheBuffer) : Type 0 where
  entry : FifoEntry
  at_front : front f.queue ≡ some entry.node
  named : key f.arena entry.node ≡ k
  hit : lookup k f.index ≡ some entry
  holds : entry.buffer ≡ b

Oldest-nodes :
    (ns : List ℕ) (f : ReplacementFifo) (k : String) (b : CacheBuffer) {ks : List String}
    → Consistent (plain f) ns
    → keys (entries f.arena.nodes ns) ≡ k ∷ ks
    → lookup k (buffers f.index) ≡ some b
    → Oldest f k b
unfolding lookup
Oldest-nodes [] f k b c e hit = cc
Oldest-nodes (n ∷ ns) f k b c e hit =
    let nodes = f.arena.nodes in
    let j = (node_at nodes n).key in
    let same_key : j ≡ k = cc in
    let at : node_of (lookup k f.index) ≡ some n =
      sym (lookup-node_index k f.index) ∙ (c.same k ∙ ground (arith, eq_iff j k)) in
    let kept : held_by (lookup k f.index) ≡ some b = sym (lookup-buffers k f.index) ∙ hit in
    elim (Option-cases (lookup k f.index)) [
      | inl missing ↦ cc
      | inr (entry, found) ↦
          (let same_node : entry.node ≡ n = cc in
            record {
              entry = entry;
              at_front =
                  front-head f.queue n c.linked.head c.linked.segment.1 ∙ ap some (sym same_node);
              named = ap (key f.arena) same_node ∙ same_key;
              hit = found;
              holds = cc;
            })
    ]

-- One round takes the oldest buffer, and the handler sees it.
evict_front-FifoHolds :
    (f : ReplacementFifo) {m : FifoModel} (k : String) (b : CacheBuffer)
    (qs : List (String × CacheBuffer))
    → FifoHolds f m
    → m.queue ≡ (k, b) ∷ qs
    → let (f', popped) = evict_front (front f.queue) f in
      FifoHolds f' (record m { queue = qs; handled = seen m.watched m.handled (b ∷ []) })
      × (popped ≡ b ∷ [])
      × (is_some (front f.queue) ≡ true)
unfolding evict_front evict_node evict_entry without free_node remove lookup
evict_front-FifoHolds f {m} k b qs h q =
    let first : lookup k ((k, b) ∷ qs) ≡ some b = ground (arith, eq_iff k k) in
    let left : remove k m.queue ≡ qs = ap (remove k) q ∙ ground (arith, eq_iff k k) in
    let o =
      Oldest-nodes h.held.nodes f k b h.held.consistent (h.held.contents ∙ ap keys q)
        (h.same k ∙ (ap (lookup k) q ∙ first)) in
    let w =
      subst (λ t. FifoHolds (without k o.entry f) (record m { queue = t })) left
        (without-FifoHolds k o.entry f h o.hit) in
    rw (o.at_front, o.named, o.hit)
      (
        record {
          held = w.held;
          same = w.same;
          unique = w.unique;
          used = w.used;
          initialized = h.initialized;
          watched = h.watched;
          handled =
              seen-same f.mem_eviction_func m.watched f.handled m.handled o.entry.buffer b h.watched
                h.handled o.holds;
        },
        ap (λ t. t ∷ []) o.holds,
        refl,
      )

seen-nil : (watched : Bool) (handled : List CacheBuffer) → seen watched handled [] ≡ handled
seen-nil true handled = append-nil handled
seen-nil false handled = refl

seen-cons :
    (watched : Bool) (handled : List CacheBuffer) (b : CacheBuffer) (gone : List CacheBuffer)
    → seen watched (seen watched handled (b ∷ [])) gone ≡ seen watched handled (b ∷ gone)
seen-cons true handled b gone = append_assoc handled (b ∷ []) gone
seen-cons false handled b gone = refl

settled :
    (out : List CacheBuffer) (f : ReplacementFifo) (m : FifoModel)
    → FifoHolds f m
    → FifoHolds f (record m { handled = seen m.watched m.handled [] }) × (out ≡ out ++ [])
settled out f m h = (
  subst (λ t. FifoHolds f (record m { handled = t })) (sym (seen-nil m.watched m.handled)) h,
  sym (append-nil out),
)

-- The loop, with a round of fuel for each buffer.
evict_from-FifoHolds :
    (fuel : ℕ) (out : List CacheBuffer) (qs : List (String × CacheBuffer)) (f : ReplacementFifo)
    (m : FifoModel)
    → FifoHolds f (record m { queue = qs })
    → length qs ≤ fuel
    → let (f', evicted) = evict_from fuel out f in
      let (m', gone) = settle (record m { queue = qs }) in FifoHolds f' m' × (evicted ≡ out ++ gone)
unfolding evict_from settle shrink
evict_from-FifoHolds zero out [] f m h enough = settled out f (record m { queue = [] }) h
evict_from-FifoHolds zero out ((k, b) ∷ qs) f m h enough = absurd (omega arith)
evict_from-FifoHolds (suc fuel) out [] f m h enough =
    let fits : ltb f.base.capacity f.base.used ≡ false = ground (arith, h.used) in
    rw fits (settled out f (record m { queue = [] }) h)
evict_from-FifoHolds (suc fuel) out ((k, b) ∷ qs) f m h enough =
    elim (Bool-cases (ltb m.capacity (cache_buffer_space b + total qs))) [
      | inl over ↦
          (let (held, popped, nonempty) = evict_front-FifoHolds f k b qs h refl in
            let (f', gone) = evict_front (front f.queue) f in
            let m' : FifoModel = record m { handled = seen m.watched m.handled (b ∷ []) } in
            let ih = evict_from-FifoHolds fuel (out ++ gone) qs f' m' held (omega arith) in
            let more : ltb f.base.capacity f.base.used ≡ true =
              ap (λ t. ltb t f.base.used) h.held.capacity ∙ (ap (ltb m.capacity) h.used ∙ over) in
            rw (over, more, nonempty)
              (
                subst
                    (λ t.
                      FifoHolds (evict_from fuel (out ++ gone) f').0
                        (record m { queue = (shrink m.capacity qs).0; handled = t }))
                    (seen-cons m.watched m.handled b (shrink m.capacity qs).1) ih.0,
                ih.1
                    ∙ (append_assoc out gone (shrink m.capacity qs).1
                        ∙ ap (λ t. out ++ (t ++ (shrink m.capacity qs).1)) popped),
              ))
      | inr fits ↦
          (let done : ltb f.base.capacity f.base.used ≡ false =
              ap (λ t. ltb t f.base.used) h.held.capacity ∙ (ap (ltb m.capacity) h.used ∙ fits) in
            rw (fits, done) (settled out f (record m { queue = (k, b) ∷ qs }) h))
    ]

-- `evict_to_capacity` lets the oldest buffers leave until the rest fits, and no more, and returns
-- them, the oldest first, after the handler saw them; its fuel does not run out.
pub evict_to_capacity-FifoHolds :
    (f : ReplacementFifo) {m : FifoModel}
    → FifoHolds f m
    → let (f', evicted) = evict_to_capacity f in
      let (m', gone) = settle m in FifoHolds f' m' × (evicted ≡ gone)
unfolding evict_to_capacity size
evict_to_capacity-FifoHolds f {m} h =
    evict_from-FifoHolds (length f.index) [] m.queue f m h
      (omega (arith, size-Holds (plain f) h.held, length-node_index f.index, length-keys m.queue))
