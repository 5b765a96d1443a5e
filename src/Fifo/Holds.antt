-- ===== src/Fifo/Holds.antt =====
-- src/runtime/replacement.rs, `ReplacementFifo`: what it means that the policy holds given buffers,
-- the oldest first. Its keys are held as a `BaseLruList` holds them, so that list's lemmas serve.
use matrixcache.Base.{
  ℕ, ◌≡◌, refl, sym, ◌∙◌, ap, Option, none, some, List, [], ◌∷◌, String, length, arith,
}
use matrixcache.Base.Map.{lookup, remove, insert, keys, IsMap}
use matrixcache.Lru.{BaseLruList}
use matrixcache.Lru.Holds.{Holds}
use matrixcache.Buffer.{CacheBuffer}
use matrixcache.Fifo.{FifoEntry, ReplacementFifo}
use matrixcache.Fifo.Model.{FifoModel, total}

-- The nodes of the index, and its buffers.
unfoldable pub node_index : List (String × FifoEntry) → List (String × ℕ)
node_index [] = []
node_index ((k, e) ∷ m) = (k, e.node) ∷ node_index m

unfoldable pub buffers : List (String × FifoEntry) → List (String × CacheBuffer)
buffers [] = []
buffers ((k, e) ∷ m) = (k, e.buffer) ∷ buffers m

abbrev pub plain : ReplacementFifo → BaseLruList
plain f = record {
  capacity = f.base.capacity;
  arena = f.arena;
  list = f.queue;
  index = node_index f.index;
}

pub record FifoHolds (f : ReplacementFifo) (m : FifoModel) : Type 0 where
  pub held : Holds (plain f) m.capacity (keys m.queue)
  pub same : (k : String) → lookup k (buffers f.index) ≡ lookup k m.queue
  pub unique : IsMap m.queue
  pub used : f.base.used ≡ total m.queue
  pub initialized : f.base.initialized ≡ m.initialized
  pub watched : f.mem_eviction_func ≡ m.watched
  pub handled : f.handled ≡ m.handled

abbrev pub node_of : Option FifoEntry → Option ℕ
node_of none = none
node_of (some e) = some e.node

abbrev pub held_by : Option FifoEntry → Option CacheBuffer
held_by none = none
held_by (some e) = some e.buffer

pub lookup-node_index :
    (k : String) (m : List (String × FifoEntry)) → lookup k (node_index m) ≡ node_of (lookup k m)
unfolding lookup node_index
lookup-node_index k [] = refl
lookup-node_index k ((j, e) ∷ m) = ground (arith, lookup-node_index k m)

pub lookup-buffers :
    (k : String) (m : List (String × FifoEntry)) → lookup k (buffers m) ≡ held_by (lookup k m)
unfolding lookup buffers
lookup-buffers k [] = refl
lookup-buffers k ((j, e) ∷ m) = ground (arith, lookup-buffers k m)

pub node_index-remove :
    (k : String) (m : List (String × FifoEntry)) → node_index (remove k m) ≡ remove k (node_index m)
unfolding node_index remove
node_index-remove k [] = refl
node_index-remove k ((j, e) ∷ m) = ground (arith, node_index-remove k m)

pub buffers-remove :
    (k : String) (m : List (String × FifoEntry)) → buffers (remove k m) ≡ remove k (buffers m)
unfolding buffers remove
buffers-remove k [] = refl
buffers-remove k ((j, e) ∷ m) = ground (arith, buffers-remove k m)

pub node_index-insert :
    (k : String) (e : FifoEntry) (m : List (String × FifoEntry))
    → node_index (insert k e m) ≡ insert k e.node (node_index m)
unfolding node_index insert
node_index-insert k e m = ap (λ t. (k, e.node) ∷ t) (node_index-remove k m)

pub buffers-insert :
    (k : String) (e : FifoEntry) (m : List (String × FifoEntry))
    → buffers (insert k e m) ≡ insert k e.buffer (buffers m)
unfolding buffers insert
buffers-insert k e m = ap (λ t. (k, e.buffer) ∷ t) (buffers-remove k m)

pub length-node_index : (m : List (String × FifoEntry)) → length (node_index m) ≡ length m
unfolding node_index
length-node_index [] = refl
length-node_index ((k, e) ∷ m) = omega (arith, length-node_index m)

absent : (o : Option FifoEntry) → node_of o ≡ none → held_by o ≡ none
absent none h = refl
absent (some e) h = cc

pub IsMap-buffers : (m : List (String × FifoEntry)) → IsMap (node_index m) → IsMap (buffers m)
unfolding node_index buffers
IsMap-buffers [] u = tt
IsMap-buffers ((k, e) ∷ m) u = (
  lookup-buffers k m ∙ absent (lookup k m) (sym (lookup-node_index k m) ∙ u.0),
  IsMap-buffers m u.1,
)
