-- ===== src/Arc/Exclusive.antt =====
-- src/runtime/replacement.rs, `ArcList`: a key is in at most one of the four lists.
use matrixcache.Base.{
  ℕ, zero, suc, length, ◌+◌, max, ◌<◌, ◌≤◌, ◌≡◌, refl, List, [], ◌∷◌, String, if◌then◌else◌, arith,
  is_some,
}
use matrixcache.Base.Map.{erase, lookup}
use matrixcache.Lru.{BaseLruList}
use matrixcache.Lru.Holds.{Holds, index-contains}
use matrixcache.Arc.{ArcList}
use matrixcache.Arc.Model.{Lists, start}
use matrixcache.Arc.Policy.{ReplacementArc, new}
use matrixcache.Arc.Policy.Step.{
  Call, init_all, reset_all, set_capacity_to, put_key, get_key, delete_key, step, after, AllRegular,
  model_step, model_delete, Tracks, step-Agrees,
}
use matrixcache.Arc.Policy.Run.{start-Tracks}
use matrixcache.Arena.{key_list_nil}
use matrixcache.Arc.Counts.{count, count_of_contains, count-erase, occurrences, occurrences-access}

occurrences-empty :
    (j : String) (s : Lists) → occurrences j (record s { t1 = []; b1 = []; t2 = []; b2 = [] }) ≡ 0
unfolding occurrences count
occurrences-empty j s = refl

occurrences-resized :
    (j : String) (c : ℕ) (s : Lists) → occurrences j (record s { c = c }) ≡ occurrences j s
unfolding occurrences
occurrences-resized j c s = refl

count-erase-le : (j k : String) (ks : List String) → count j (erase k ks) ≤ count j ks
count-erase-le j k ks = ground (arith, count-erase j k ks)

occurrences-delete :
    (j k : String) (s : Lists) → occurrences j (model_delete k s).0 ≤ occurrences j s
unfolding occurrences model_delete
occurrences-delete j k s = ground (
  arith,
  count-erase-le j k s.t1,
  count-erase-le j k s.b1,
  count-erase-le j k s.t2,
  count-erase-le j k s.b2,
)

occurrences-model_step :
    (j : String) (c : Call) (s : Lists) → occurrences j (model_step c s).0 ≤ max 1 (occurrences j s)
unfolding model_step
occurrences-model_step j init_all s = omega arith
occurrences-model_step j reset_all s = omega (arith, occurrences-empty j s)
occurrences-model_step j (put_key k) s = ground (arith, occurrences-access j k s)
occurrences-model_step j (get_key k) s = occurrences-access j k s
occurrences-model_step j (delete_key k) s = omega (arith, occurrences-delete j k s)
occurrences-model_step j (set_capacity_to c) s = omega (arith, occurrences-resized j c s)
occurrences-model_step j _ s = omega arith

-- How many of the code's four indexes hold a key.
abbrev held : String → BaseLruList → ℕ
held k l = if is_some (lookup k l.index) then 1 else 0

unfoldable pub times_tracked : String → ArcList → ℕ
times_tracked k a =
    held k a.fetch_list.data_list
    + held k a.fetch_list.ghost_list
    + held k a.active_list.data_list
    + held k a.active_list.ghost_list

held-count :
    (k : String) (l : BaseLruList) {cap : ℕ} {ks : List String}
    → Holds l cap ks
    → held k l ≤ count k ks
held-count k l {ks = ks} h = ground (arith, index-contains l k h, count_of_contains k ks)

tracked-once :
    (n : ℕ) (calls : List Call) (k : String) (r : ReplacementArc) (s : Lists)
    → length calls ≤ n
    → AllRegular calls
    → Tracks n r s
    → occurrences k s ≤ 1
    → times_tracked k (after calls r).arc_list ≤ 1
unfolding after times_tracked occurrences
tracked-once n [] k r s few regular t h = omega (
  arith,
  held-count k _ t.lists.fetch.data_held,
  held-count k _ t.lists.fetch.ghosts_held,
  held-count k _ t.lists.active.data_held,
  held-count k _ t.lists.active.ghosts_held,
)
tracked-once zero (c ∷ cs) k r s few regular t h = absurd (omega (arith, few))
tracked-once (suc n) (c ∷ cs) k r s few regular t h =
    tracked-once n cs k (step c r).0 (model_step c s).0 (omega (arith, few)) regular.1
      (step-Agrees n c r s regular.0 t).tracks (omega (arith, occurrences-model_step k c s, h))

-- After fewer than 2 ^ 32 - 1 calls on a new policy, none of them a read of the empty key and every
-- capacity below 2 ^ 32 - 1, no key is tracked in more than one of its four lists.
pub after-tracked_once :
    (calls : List Call) (c : ℕ) (k : String)
    → c < key_list_nil
    → length calls < key_list_nil
    → AllRegular calls
    → times_tracked k (after calls (new c)).arc_list ≤ 1
unfolding occurrences count start
after-tracked_once calls c k small few regular =
    tracked-once (length calls) calls k (new c) (start c) (omega arith) regular
      (start-Tracks (length calls) c few small) (omega arith)
