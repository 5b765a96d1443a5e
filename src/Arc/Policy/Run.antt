-- ===== src/Arc/Policy/Run.antt =====
-- src/runtime/replacement.rs, `ReplacementArc`: its requests in any order against the model.
use matrixcache.Base.{
  ℕ, zero, suc, length, ◌-◌, ◌*◌, ◌^◌, ◌<◌, ◌≤◌, ◌≡◌, refl, ◌∙◌, List, [], ◌∷◌, arith,
}
use mathlib.Core.Path.{ap₂}
use matrixcache.Ghost
use matrixcache.Ghost.Holds.{size-GhostHolds}
use matrixcache.Arc
use matrixcache.Arc.{ArcList}
use matrixcache.Arc.Model
use matrixcache.Arc.Model.{Lists}
use matrixcache.Arc.Bounds.{InBounds, access-InBounds, c-access, start-InBounds}
use matrixcache.Arena.{key_list_nil}
use matrixcache.Arc.Room.{new-ArcHolds}
use matrixcache.Arc.Policy.{ReplacementArc, new}
use matrixcache.Arc.Policy.Step.{
  Call, put_key, get_key, delete_key, Reply, step, after, AllRegular, model_delete-InBounds,
  model_step, init_all, reset_all, set_capacity_to, active_tail, fetch_tail, Tracks, c-model_delete,
  step-Agrees,
}

unfoldable pub run : List Call → ReplacementArc → List Reply
run [] r = []
run (c ∷ cs) r = let (r', b) = step c r in b ∷ run cs r'

unfoldable pub model_run : List Call → Lists → List Reply
model_run [] s = []
model_run (c ∷ cs) s = let (s', b) = model_step c s in b ∷ model_run cs s'

run_from-model :
    (n : ℕ) (calls : List Call) (r : ReplacementArc) (s : Lists)
    → length calls ≤ n
    → AllRegular calls
    → Tracks n r s
    → run calls r ≡ model_run calls s
unfolding run model_run
run_from-model n [] r s few h t = refl
run_from-model zero (c ∷ cs) r s few h t = absurd (omega (arith, few))
run_from-model (suc n) (c ∷ cs) r s few h t =
    let a = step-Agrees n c r s h.0 t in
    ap₂ ◌∷◌ a.reply
      (run_from-model n cs (step c r).0 (model_step c s).0 (omega (arith, few)) h.1 a.tracks)

pub start-Tracks :
    (n c : ℕ) → n < key_list_nil → c < key_list_nil → Tracks n (new c) (Model.start c)
unfolding new Model.start
start-Tracks n c few small = record {
  lists = new-ArcHolds c;
  capacity = refl;
  fits = omega (arith, few, small);
}

-- For a new policy, and as long as no read asks for the empty key and every capacity is below
-- 2 ^ 32 - 1, no sequence of fewer than 2 ^ 32 - 1 calls, new capacities included, tells the policy
-- from the model: adaptive replacement on four plain lists, as in the paper but for a share that
-- starts at half of the capacity and moves by a ratio rounded down. Every reply is the same.
pub run-model :
    (calls : List Call) (c : ℕ)
    → c < key_list_nil
    → length calls < key_list_nil
    → AllRegular calls
    → run calls (new c) ≡ model_run calls (Model.start c)
run-model calls c small few h =
    run_from-model (length calls) calls (new c) (Model.start c) (omega arith) h
      (start-Tracks (length calls) c few small)

-- The sizes that the code reports, within its own capacity.
pub record SizesFit (a : ArcList) (c : ℕ) : Type 0 where
  pub data_size : Arc.size a ≤ c
  pub fetch_size : Ghost.total_size a.fetch_list ≤ c
  pub total_size : Arc.total_size a ≤ 2 * c
  pub share : Arc.fetch_capacity a ≤ c

-- A call that leaves the capacity at `n`.
abbrev pub IsKeeping : ℕ → Call → Type 0
IsKeeping n (set_capacity_to c) = c ≡ n
IsKeeping n _ = Unit {0}

abbrev pub AllKeeping : ℕ → List Call → Type 0
AllKeeping n [] = Unit {0}
AllKeeping n (c ∷ cs) = IsKeeping n c × AllKeeping n cs

-- The lists within the bounds of a capacity that stays.
record Bounded (c : ℕ) (r : ReplacementArc) (s : Lists) : Type 0 where
  tracks : Tracks 1 r s
  bounds : InBounds s
  capacity : s.c ≡ c
  few : c < 2 ^ 31 - 1

Bounded-SizesFit : (c : ℕ) (r : ReplacementArc) (s : Lists) → Bounded c r s → SizesFit r.arc_list c
Bounded-SizesFit c r s t =
    let held = t.tracks.lists in
    let f = size-GhostHolds r.arc_list.fetch_list held.fetch in
    let g = size-GhostHolds r.arc_list.active_list held.active in
    let p = held.fetch.data_held.capacity in omega (arith, t)

model_step-InBounds :
    (n : ℕ) (c : Call) (s : Lists)
    → IsKeeping n c
    → s.c ≡ n
    → InBounds s
    → InBounds (model_step c s).0 × ((model_step c s).0.c ≡ n)
unfolding model_step
model_step-InBounds n (put_key k) s h e v = ground (arith, access-InBounds k s v, c-access k s)
model_step-InBounds n (get_key k) s h e v = (access-InBounds k s v, c-access k s ∙ e)
model_step-InBounds n (delete_key k) s h e v = (model_delete-InBounds k s v, c-model_delete k s ∙ e)
model_step-InBounds n (set_capacity_to c) s h e v = (omega (arith, v), h)
model_step-InBounds n init_all s h e v = (v, e)
model_step-InBounds n reset_all s h e v = (omega (arith, v), e)
model_step-InBounds n (active_tail i) s h e v = (v, e)
model_step-InBounds n (fetch_tail i) s h e v = (v, e)

after-Bounded :
    (calls : List Call) (n : ℕ) (r : ReplacementArc) (s : Lists)
    → AllRegular calls
    → AllKeeping n calls
    → Bounded n r s
    → (s' : Lists) × Bounded n (after calls r) s'
unfolding after
after-Bounded [] n r s h k t = (s, t)
after-Bounded (c ∷ cs) n r s h k t =
    let a = (step-Agrees 0 c r s h.0 t.tracks).tracks in
    let (bounds, capacity) = model_step-InBounds n c s k.0 t.capacity t.bounds in
    after-Bounded cs n (step c r).0 (model_step c s).0 h.1 k.1 (record {
      tracks = record {
        lists = a.lists;
        capacity = a.capacity;
        fits = omega (arith, bounds, capacity, t.few, a.fits);
      };
      bounds = bounds;
      capacity = capacity;
      few = t.few;
    })

start-Bounded : (c : ℕ) → 0 < c → c < 2 ^ 31 - 1 → Bounded c (new c) (Model.start c)
unfolding Model.start
start-Bounded c positive few = record {
  tracks = start-Tracks 1 c (omega arith) (omega (arith, few));
  bounds = start-InBounds c positive;
  capacity = refl;
  few = few;
}

-- After calls on a new policy with a capacity from one up to 2 ^ 31 - 2, none of them a read of the
-- empty key and none that sets another capacity, the keys with data stay within the capacity, the
-- fetch list with its ghosts too, all four lists within twice the capacity, and the adaptive share
-- within the capacity.
pub after-SizesFit :
    (calls : List Call) (c : ℕ)
    → 0 < c
    → c < 2 ^ 31 - 1
    → AllRegular calls
    → AllKeeping c calls
    → SizesFit (after calls (new c)).arc_list c
after-SizesFit calls c positive few h k =
    let (s, t) = after-Bounded calls c (new c) (Model.start c) h k (start-Bounded c positive few) in
    Bounded-SizesFit c (after calls (new c)) s t
