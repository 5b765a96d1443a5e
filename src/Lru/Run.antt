-- ===== src/Lru/Run.antt =====
-- src/runtime/replacement.rs, `BaseLruList` against a plain list of keys, over any sequence of calls.
use matrixcache.Base.{
  ℕ, ◌+◌, ◌<◌, ◌≤◌, ◌≡◌, refl, ap, List, [], ◌∷◌, String, Bool, length, take, drop, drop_last,
  last_one, reverse, if◌then◌else◌, arith, length-drop_last, length-take-le,
}
use mathlib.Core.Path.{ap₂}
use matrixcache.Base.Map.{contains, erase, touch, length-erase}
use matrixcache.Arena.{key_list_nil}
use matrixcache.Lru.{
  BaseLruList, new, set_capacity, size, put, get, delete, evict_one, evict, get_tail, reset,
}
use matrixcache.Lru.Holds.{Holds, size-Holds, new-Holds, set_capacity-Holds, reset-Holds}
use matrixcache.Lru.Touch.{got, put-Holds, get-Holds}
use matrixcache.Lru.Take.{delete-Holds}
use matrixcache.Lru.Evict.{evict_one-Holds, evict-Holds, get_tail-reverse}

pub data Call : Type 0 where
  set_capacity_to : ℕ → Call
  size_of : Call
  put_key : String → Call
  get_key : String → Call
  delete_key : String → Call
  evict_last evict_all : Call
  tail_keys : ℕ → Call
  reset_all : Call

-- What a call returns.
pub data Reply : Type 0 where
  done : Reply
  count : ℕ → Reply
  found : Bool → Reply
  listed : List String → Reply

unfoldable pub step : Call → BaseLruList → BaseLruList × Reply
step (set_capacity_to c) l = (set_capacity c l, done)
step size_of l = (l, count (size l))
step (put_key k) l = (put k l, done)
step (get_key k) l = let (l', b) = get k l in (l', found b)
step (delete_key k) l = let (l', b) = delete k l in (l', found b)
step evict_last l = let (l', ks) = evict_one l in (l', listed ks)
step evict_all l = let (l', ks) = evict l in (l', listed ks)
step (tail_keys n) l = (l, listed (get_tail n l))
step reset_all l = (reset l, done)

unfoldable pub run : List Call → BaseLruList → List Reply
run [] l = []
run (c ∷ cs) l = let (l', r) = step c l in r ∷ run cs l'

-- The same calls on a capacity and a list of keys, the most recent first.
unfoldable pub model_step : Call → ℕ → List String → (ℕ × List String) × Reply
model_step (set_capacity_to c) cap ks = ((c, ks), done)
model_step size_of cap ks = ((cap, ks), count (length ks))
model_step (put_key k) cap ks = ((cap, touch k ks), done)
model_step (get_key k) cap ks =
    ((cap, if contains k ks then touch k ks else ks), found (contains k ks))
model_step (delete_key k) cap ks = ((cap, erase k ks), found (contains k ks))
model_step evict_last cap ks = ((cap, drop_last ks), listed (last_one ks))
model_step evict_all cap ks = ((cap, take cap ks), listed (reverse (drop cap ks)))
model_step (tail_keys n) cap ks = ((cap, ks), listed (take n (reverse ks)))
model_step reset_all cap ks = ((cap, []), done)

unfoldable pub model_run : List Call → ℕ → List String → List Reply
model_run [] cap ks = []
model_run (c ∷ cs) cap ks = let (s, r) = model_step c cap ks in r ∷ model_run cs s.0 s.1

-- One call keeps the correspondence, replies as the model does, and adds at most one key.
record Agrees (c : Call) (l : BaseLruList) (cap : ℕ) (ks : List String) : Type 0 where
  held : Holds (step c l).0 (model_step c cap ks).0.0 (model_step c cap ks).0.1
  reply : (step c l).1 ≡ (model_step c cap ks).1
  grows : length (model_step c cap ks).0.1 ≤ length ks + 1

step-Agrees :
    (c : Call) (l : BaseLruList) {cap : ℕ} {ks : List String}
    → Holds l cap ks
    → length ks < key_list_nil
    → Agrees c l cap ks
unfolding step model_step got
step-Agrees (set_capacity_to c) l h room = record {
  held = set_capacity-Holds c l h;
  reply = refl;
  grows = omega arith;
}
step-Agrees size_of l h room = record {
  held = h;
  reply = ap count (size-Holds l h);
  grows = omega arith;
}
step-Agrees (put_key k) l {ks = ks} h room = record {
  held = put-Holds l k h room;
  reply = refl;
  grows = ground (arith, length-erase k ks);
}
step-Agrees (get_key k) l {ks = ks} h room =
    let (held, b) = get-Holds l k h room in
    record { held = held; reply = ap found b; grows = ground (arith, length-erase k ks) }
step-Agrees (delete_key k) l {ks = ks} h room =
    let (held, b) = delete-Holds l k h in
    record { held = held; reply = ap found b; grows = ground (arith, length-erase k ks) }
step-Agrees evict_last l {ks = ks} h room =
    let (held, ks') = evict_one-Holds l h in
    record { held = held; reply = ap listed ks'; grows = omega (arith, length-drop_last ks) }
step-Agrees evict_all l {cap} {ks} h room =
    let (held, ks') = evict-Holds l h in
    record { held = held; reply = ap listed ks'; grows = omega (arith, length-take-le cap ks) }
step-Agrees (tail_keys n) l h room = record {
  held = h;
  reply = ap listed (get_tail-reverse l n h);
  grows = omega arith;
}
step-Agrees reset_all l h room = record {
  held = reset-Holds l h;
  reply = refl;
  grows = omega arith;
}

run-model_run_from :
    (calls : List Call) (l : BaseLruList) {cap : ℕ} {ks : List String}
    → Holds l cap ks
    → length ks + length calls ≤ key_list_nil
    → run calls l ≡ model_run calls cap ks
unfolding run model_run
run-model_run_from [] l h room = refl
run-model_run_from (c ∷ cs) l h room =
    let a = step-Agrees c l h (omega arith) in
    ap₂ ◌∷◌ a.reply (run-model_run_from cs (step c l).0 a.held (omega (arith, a.grows)))

-- No sequence of at most 2 ^ 32 - 1 calls on a new list tells the indexed linked list from a plain
-- list of keys, the most recent first: all replies are the same.
pub run-model_run :
    (calls : List Call) (cap : ℕ)
    → length calls ≤ key_list_nil
    → run calls (new cap) ≡ model_run calls cap []
run-model_run calls cap room = run-model_run_from calls (new cap) (new-Holds cap) (omega arith)
