-- ===== src/Fifo/Run.antt =====
-- src/runtime/replacement.rs, `ReplacementFifo` against a plain list of buffers, over any sequence of
-- calls.
use matrixcache.Base.{
  ℕ, ◌+◌, ◌<◌, ◌≤◌, ◌^◌, ◌≡◌, refl, false, Option, none, some, List, [], ◌∷◌, String, length,
  length-append, max, arith,
}
use mathlib.Core.Path.{ap₂}
use matrixcache.Base.Map.{lookup}
use matrixcache.Arena.{key_list_nil}
use matrixcache.Lru.{new as new_list}
use matrixcache.Lru.Holds.{new-Holds}
use matrixcache.Buffer.{CacheBuffer, new_base}
use matrixcache.Fifo.{ReplacementFifo, new}
use matrixcache.Fifo.Model.{
  FifoModel, total, replace, settle, total-shrink, total-remove-le, length-remove-le, length-shrink,
  length-replace,
}
use matrixcache.Fifo.Holds.{node_index, buffers, FifoHolds}
use matrixcache.Fifo.Put.{model_put, model_update, write}
use matrixcache.Fifo.Step.{
  Call, init_all, reset_all, watch, put_buffer, update_buffer, get_key, delete_key, set_capacity_to,
  used_of, free_of, items_of, queue_of, Reply, step, model_step, Small, AllSmall, step-Agrees,
}

-- The replies of a sequence of calls, each with what the handler has seen by then.
unfoldable pub run : List Call → ReplacementFifo → List (Reply × List CacheBuffer)
run [] f = []
run (c ∷ cs) f = let (f', r) = step c f in (r, f'.handled) ∷ run cs f'

unfoldable pub queue_run : List Call → FifoModel → List (Reply × List CacheBuffer)
queue_run [] m = []
queue_run (c ∷ cs) m = let (m', r) = model_step c m in (r, m'.handled) ∷ queue_run cs m'

-- A call keeps the bytes and the capacity small, and adds at most one buffer.
record Stays (c : Call) (m : FifoModel) : Type 0 where
  bytes : total (model_step c m).0.queue < 2 ^ 63
  capacity : (model_step c m).0.capacity < 2 ^ 63
  grows : length (model_step c m).0.queue ≤ length m.queue + 1

model_update-Stays :
    (o : Option CacheBuffer) (k : String) (old_data : List ℕ) (b : CacheBuffer) (m : FifoModel)
    → let m' = (model_update o k old_data b m).0 in
      (total m'.queue ≤ max (total m.queue) m.capacity)
      × (m'.capacity ≡ m.capacity)
      × (length m'.queue ≤ length m.queue)
unfolding model_update settle
model_update-Stays none k old_data b m = ground arith
model_update-Stays (some old) k old_data b m = ground (
  arith,
  total-shrink m.capacity (replace k b m.queue),
  length-shrink m.capacity (replace k b m.queue),
  length-replace k b m.queue,
)

step-Stays :
    (c : Call) (m : FifoModel) → Small c → total m.queue < 2 ^ 63 → m.capacity < 2 ^ 63 → Stays c m
unfolding model_step model_put settle
step-Stays init_all m s fits cap = record { bytes = fits; capacity = cap; grows = omega arith }
step-Stays reset_all m s fits cap = record {
  bytes = omega arith;
  capacity = cap;
  grows = omega arith;
}
step-Stays watch m s fits cap = record { bytes = fits; capacity = cap; grows = omega arith }
step-Stays (put_buffer b) m s fits cap =
    let k = b.key in
    record {
      bytes = ground (arith, total-shrink m.capacity (write b m).queue);
      capacity = ground arith;
      grows = ground (
        arith,
        length-shrink m.capacity (write b m).queue,
        length-replace k b m.queue,
        length-append m.queue ((k, b) ∷ []),
      );
    }
step-Stays (update_buffer k old_data b) m s fits cap =
    let r = model_update-Stays (lookup k m.queue) k old_data b m in
    record {
      bytes = omega (arith, r.0, s);
      capacity = omega (arith, r.1);
      grows = omega (arith, r.2);
    }
step-Stays (get_key k) m s fits cap = record { bytes = fits; capacity = cap; grows = omega arith }
step-Stays (delete_key k) m s fits cap = record {
  bytes = omega (arith, total-remove-le k m.queue);
  capacity = cap;
  grows = omega (arith, length-remove-le k m.queue);
}
step-Stays (set_capacity_to c) m s fits cap = record {
  bytes = omega (arith, s.1, total-shrink c m.queue);
  capacity = s.1;
  grows = omega (arith, length-shrink c m.queue);
}
step-Stays used_of m s fits cap = record { bytes = fits; capacity = cap; grows = omega arith }
step-Stays free_of m s fits cap = record { bytes = fits; capacity = cap; grows = omega arith }
step-Stays items_of m s fits cap = record { bytes = fits; capacity = cap; grows = omega arith }
step-Stays queue_of m s fits cap = record { bytes = fits; capacity = cap; grows = omega arith }

new-FifoHolds :
    (cap : ℕ)
    → FifoHolds
        (new cap)
        (record { capacity = cap; initialized = false; watched = false; queue = []; handled = [] })
unfolding new new_base new_list node_index buffers
new-FifoHolds cap = record {
  held = new-Holds cap;
  same = λ k. refl;
  unique = tt;
  used = refl;
  initialized = refl;
  watched = refl;
  handled = refl;
}

run-queue_run_from :
    (calls : List Call) (f : ReplacementFifo) {m : FifoModel}
    → FifoHolds f m
    → AllSmall calls
    → total m.queue < 2 ^ 63
    → m.capacity < 2 ^ 63
    → length m.queue + length calls ≤ key_list_nil
    → run calls f ≡ queue_run calls m
unfolding run queue_run
run-queue_run_from [] f h s fits cap room = refl
run-queue_run_from (c ∷ cs) f {m} h s fits cap room =
    let a = step-Agrees c f h s.0 fits (omega arith) in
    let t = step-Stays c m s.0 fits cap in
    ap₂ ◌∷◌ (ap₂ (λ r seen. (r, seen)) a.reply a.held.handled)
      (run-queue_run_from cs (step c f).0 a.held s.1 t.bytes t.capacity (omega (arith, t.grows)))

-- The model of a new policy.
abbrev pub new_model : ℕ → FifoModel
new_model cap = record {
  capacity = cap;
  initialized = false;
  watched = false;
  queue = [];
  handled = [];
}

-- No sequence of at most 2 ^ 32 - 1 calls on a new policy, with sizes and capacities below 2 ^ 63
-- and no capacity of zero,
-- tells the indexed linked queue from a plain list of buffers, the oldest first, of which the first
-- ones leave until the rest fits: all replies, and all that the eviction handler sees, are the same.
pub run-queue_run :
    (calls : List Call) (cap : ℕ)
    → AllSmall calls
    → 0 < cap
    → cap < 2 ^ 63
    → length calls ≤ key_list_nil
    → run calls (new cap) ≡ queue_run calls (new_model cap)
run-queue_run calls cap s positive small room =
    run-queue_run_from calls (new cap) (new-FifoHolds cap) s (omega arith) small (omega arith)
