-- ===== src/Fifo/Step.antt =====
-- src/runtime/replacement.rs, `ReplacementFifo` against a plain list of buffers, call by call.
use matrixcache.Base.{
  ℕ, ◌-◌, ◌<◌, ◌^◌, ◌≡◌, refl, sym, ◌∙◌, ap, true, Option, none, some, List, [], ◌∷◌, String,
  length, Result, arith,
}
use matrixcache.Base.Map.{lookup, remove}
use matrixcache.Arena.{key_list_nil}
use matrixcache.Lru.{size, reset as reset_list, set_capacity as set_list_capacity}
use matrixcache.Lru.Holds.{reset-Holds, set_capacity-Holds, size-Holds, length-keys}
use matrixcache.Buffer.{
  CacheBuffer, CacheError, cache_buffer_space, free_space, init_base, set_base_capacity,
}
use matrixcache.Fifo.{
  buffer_of, FifoEntry, ReplacementFifo, init, reset, register_mem_eviction_handler, put,
  update_cache_buffer, get, delete, set_capacity, item_count, queue_len,
}
use matrixcache.Fifo.Model.{FifoModel, total, settle}
use matrixcache.Fifo.Holds.{
  node_index, buffers, FifoHolds, plain, lookup-buffers, held_by, length-node_index,
}
use matrixcache.Fifo.Drop.{delete-FifoHolds}
use matrixcache.Fifo.Put.{model_put, model_update, put-FifoHolds, update_cache_buffer-FifoHolds}
use matrixcache.Fifo.Evict.{evict_to_capacity-FifoHolds}

pub data Call : Type 0 where
  init_all reset_all watch : Call
  put_buffer : CacheBuffer → Call
  update_buffer : String → List ℕ → CacheBuffer → Call
  get_key delete_key : String → Call
  set_capacity_to : ℕ → Call
  used_of free_of items_of queue_of : Call

-- What a call returns.
pub data Reply : Type 0 where
  done : Reply
  count : ℕ → Reply
  found : Option CacheBuffer → Reply
  evicted : List CacheBuffer → Reply
  updated : Result CacheError (Unit {0}) → Reply

unfoldable pub step : Call → ReplacementFifo → ReplacementFifo × Reply
step init_all f = (init f, done)
step reset_all f = (reset f, done)
step watch f = (register_mem_eviction_handler f, done)
step (put_buffer b) f = let (f', bs) = put b f in (f', evicted bs)
step (update_buffer k old_data b) f =
    let (f', r) = update_cache_buffer k old_data b f in (f', updated r)
step (get_key k) f = (f, found (get k f))
step (delete_key k) f = let (f', b) = delete k f in (f', found b)
step (set_capacity_to c) f = (set_capacity c f, done)
step used_of f = (f, count f.base.used)
step free_of f = (f, count (free_space f.base))
step items_of f = (f, count (item_count f))
step queue_of f = (f, count (queue_len f))

unfoldable pub model_step : Call → FifoModel → FifoModel × Reply
model_step init_all m = (record m { initialized = true }, done)
model_step reset_all m = (record m { queue = [] }, done)
model_step watch m = (record m { watched = true }, done)
model_step (put_buffer b) m = let (m', bs) = model_put b m in (m', evicted bs)
model_step (update_buffer k old_data b) m =
    let (m', r) = model_update (lookup k m.queue) k old_data b m in (m', updated r)
model_step (get_key k) m = (m, found (lookup k m.queue))
model_step (delete_key k) m = (record m { queue = remove k m.queue }, found (lookup k m.queue))
model_step (set_capacity_to c) m = ((settle (record m { capacity = c })).0, done)
model_step used_of m = (m, count (total m.queue))
model_step free_of m = (m, count (m.capacity - total m.queue))
model_step items_of m = (m, count (length m.queue))
model_step queue_of m = (m, count (length m.queue))

-- Sizes and capacities below 2 ^ 63, so that no sum saturates, and no capacity of zero, on which
-- the code panics.
abbrev pub Small : Call → Type 0
Small (put_buffer b) = cache_buffer_space b < 2 ^ 63
Small (update_buffer k old_data b) = cache_buffer_space b < 2 ^ 63
Small (set_capacity_to c) = (0 < c) × (c < 2 ^ 63)
Small c = Unit

abbrev pub AllSmall : List Call → Type 0
AllSmall [] = Unit
AllSmall (c ∷ cs) = Small c × AllSmall cs

item_count-FifoHolds :
    (f : ReplacementFifo) {m : FifoModel} → FifoHolds f m → item_count f ≡ length m.queue
unfolding item_count size
item_count-FifoHolds f {m} h =
    omega (arith, size-Holds (plain f) h.held, length-node_index f.index, length-keys m.queue)

-- The queue is as long as the index is large.
queue_len-FifoHolds :
    (f : ReplacementFifo) {m : FifoModel} → FifoHolds f m → queue_len f ≡ length m.queue
unfolding queue_len item_count
queue_len-FifoHolds f {m} h = omega (
  arith,
  h.held.consistent.linked.count,
  h.held.consistent.count,
  length-node_index f.index,
  item_count-FifoHolds f h,
)

buffer_of-held_by : (o : Option FifoEntry) → buffer_of o ≡ held_by o
buffer_of-held_by none = refl
buffer_of-held_by (some e) = refl

reset-FifoHolds :
    (f : ReplacementFifo) {m : FifoModel}
    → FifoHolds f m
    → FifoHolds (reset f) (record m { queue = [] })
unfolding reset reset_list node_index buffers
reset-FifoHolds f h = record {
  held = reset-Holds (plain f) h.held;
  same = λ k. refl;
  unique = tt;
  used = refl;
  initialized = h.initialized;
  watched = h.watched;
  handled = h.handled;
}

set_base_capacity-FifoHolds :
    (c : ℕ) (f : ReplacementFifo) {m : FifoModel}
    → FifoHolds f m
    → FifoHolds (record f { base = set_base_capacity c f.base }) (record m { capacity = c })
unfolding set_base_capacity set_list_capacity
set_base_capacity-FifoHolds c f h = record {
  held = set_capacity-Holds c (plain f) h.held;
  same = h.same;
  unique = h.unique;
  used = h.used;
  initialized = h.initialized;
  watched = h.watched;
  handled = h.handled;
}

-- The policy and the model after a call, and what each returns.
pub record Agrees (c : Call) (f : ReplacementFifo) (m : FifoModel) : Type 0 where
  pub held : FifoHolds (step c f).0 (model_step c m).0
  pub reply : (step c f).1 ≡ (model_step c m).1

pub step-Agrees :
    (c : Call) (f : ReplacementFifo) {m : FifoModel}
    → FifoHolds f m
    → Small c
    → total m.queue < 2 ^ 63
    → length m.queue < key_list_nil
    → Agrees c f m
unfolding step model_step get set_capacity free_space init register_mem_eviction_handler init_base
step-Agrees init_all f h s fits room = record {
  held = record {
    held = h.held;
    same = h.same;
    unique = h.unique;
    used = h.used;
    initialized = refl;
    watched = h.watched;
    handled = h.handled;
  };
  reply = refl;
}
step-Agrees reset_all f h s fits room = record { held = reset-FifoHolds f h; reply = refl }
step-Agrees watch f h s fits room = record {
  held = record {
    held = h.held;
    same = h.same;
    unique = h.unique;
    used = h.used;
    initialized = h.initialized;
    watched = refl;
    handled = h.handled;
  };
  reply = refl;
}
step-Agrees (put_buffer b) f {m} h s fits room =
    let (held, same) =
      put-FifoHolds b f h (omega (arith, s)) (omega (arith, length-keys m.queue)) in
    record { held = held; reply = ap evicted same }
step-Agrees (update_buffer k old_data b) f h s fits room =
    let (held, same) = update_cache_buffer-FifoHolds k old_data b f h (omega (arith, s)) in
    record { held = held; reply = ap updated same }
step-Agrees (get_key k) f h s fits room = record {
  held = h;
  reply =
      ap found (buffer_of-held_by (lookup k f.index) ∙ (sym (lookup-buffers k f.index) ∙ h.same k));
}
step-Agrees (delete_key k) f h s fits room =
    let (held, same) = delete-FifoHolds k f h in record { held = held; reply = ap found same }
step-Agrees (set_capacity_to c) f h s fits room = record {
  held =
      (evict_to_capacity-FifoHolds (record f { base = set_base_capacity c f.base })
        (set_base_capacity-FifoHolds c f h)).0;
  reply = refl;
}
step-Agrees used_of f h s fits room = record { held = h; reply = ap count h.used }
step-Agrees free_of f h s fits room = record {
  held = h;
  reply = ap count (omega (arith, h.used, h.held.capacity));
}
step-Agrees items_of f h s fits room = record {
  held = h;
  reply = ap count (item_count-FifoHolds f h);
}
step-Agrees queue_of f h s fits room = record {
  held = h;
  reply = ap count (queue_len-FifoHolds f h);
}
