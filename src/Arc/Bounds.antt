-- ===== src/Arc/Bounds.antt =====
-- The sizes of the four lists of the adaptive replacement cache.
use matrixcache.Base.{
  ℕ, ◌+◌, ◌*◌, ◌<◌, ◌≤◌, ◌≡◌, ◌⊎◌, inl, inr, List, [], ◌∷◌, String, Bool, true, false, length,
  drop_last, last_one, arith, length-drop_last, Bool-cases,
}
use matrixcache.Base.Map.{contains, erase, touch, length-erase, contains_pos}
use matrixcache.Ghost.Holds.{touch_all}
use matrixcache.Arc.Model.{
  Lists, demote1, demote2, takes_first, replace, make_room, raise, lower, put1, put2, access, start,
}

-- The data fits the capacity, each list of ghosts fits beside its data, and the share is a part.
pub record InBounds (s : Lists) : Type 0 where
  pub positive : 0 < s.c
  pub share : s.p ≤ s.c
  pub data_fits : length s.t1 + length s.t2 ≤ s.c
  pub fetch_fits : length s.t1 + length s.b1 ≤ s.c
  pub all_fit : length s.t1 + length s.t2 + length s.b1 + length s.b2 ≤ 2 * s.c

pub length-touch : (k : String) (ks : List String) → length (touch k ks) ≤ length ks + 1
length-touch k ks = ground (arith, length-erase k ks)

length-touch_all :
    (ts bs : List String)
    → length (touch_all (last_one ts) bs) + length (drop_last ts) ≤ length bs + length ts
unfolding touch_all
length-touch_all [] bs = omega arith
length-touch_all (t ∷ []) bs = omega (arith, length-touch t bs)
length-touch_all (t ∷ u ∷ ts) bs = omega (arith, length-touch_all (u ∷ ts) bs)

-- What REPLACE does to the sizes: if any data is left of the list it chooses, there is one less.
pub record Replaced (s s' : Lists) (in_b2 : Bool) : Type 0 where
  pub c : s'.c ≡ s.c
  pub p : s'.p ≡ s.p
  pub first : length s'.t1 + length s'.b1 ≤ length s.t1 + length s.b1
  pub second : length s'.t2 + length s'.b2 ≤ length s.t2 + length s.b2
  pub t1 : length s'.t1 ≤ length s.t1
  pub t2 : length s'.t2 ≤ length s.t2
  pub one_less :
      (length s'.t1 + length s'.t2 + 1 ≤ length s.t1 + length s.t2)
      ⊎ ((length s.t2 ≡ 0)
          × (length s'.t1 ≡ length s.t1)
          × (takes_first in_b2 s ≡ false)
          × (length s'.t2 ≡ 0))

pub replace-Replaced : (in_b2 : Bool) (s : Lists) → Replaced s (replace in_b2 s) in_b2
unfolding replace demote1 demote2
replace-Replaced in_b2 s = ground (
  arith,
  length-touch_all s.t1 s.b1,
  length-touch_all s.t2 s.b2,
  length-drop_last s.t1,
  length-drop_last s.t2,
)

-- After room is made, one more key fits everywhere.
pub record Roomy (s s' : Lists) : Type 0 where
  pub c : s'.c ≡ s.c
  pub p : s'.p ≡ s.p
  pub data_room : length s'.t1 + length s'.t2 + 1 ≤ s.c
  pub fetch_room : length s'.t1 + length s'.b1 + 1 ≤ s.c
  pub all_room : length s'.t1 + length s'.t2 + length s'.b1 + length s'.b2 + 1 ≤ 2 * s.c

pub make_room-Roomy : (s : Lists) → InBounds s → Roomy s (make_room s)
unfolding make_room
make_room-Roomy s v = ground (
  arith,
  replace-Replaced false (record s { b1 = drop_last s.b1 }),
  replace-Replaced false (record s { b2 = drop_last s.b2 }),
  replace-Replaced false s,
  length-drop_last s.t1,
  length-drop_last s.b1,
  length-drop_last s.b2,
)

put1-InBounds : (k : String) (s s' : Lists) → InBounds s → Roomy s s' → InBounds (put1 k s')
unfolding put1
put1-InBounds k s s' v r = ground (arith, length-touch k s'.t1)

-- Room in the data only, for a key that leaves another list.
record Movable (s s' : Lists) : Type 0 where
  c : s'.c ≡ s.c
  p : s'.p ≤ s.c
  data_room : length s'.t1 + length s'.t2 + 1 ≤ s.c
  fetch_fits : length s'.t1 + length s'.b1 ≤ s.c
  all_room : length s'.t1 + length s'.t2 + length s'.b1 + length s'.b2 + 1 ≤ 2 * s.c

put2-InBounds : (k : String) (s s' : Lists) → InBounds s → Movable s s' → InBounds (put2 k s')
unfolding put2
put2-InBounds k s s' v r = ground (arith, length-touch k s'.t2)

hit1-Movable :
    (k : String) (s : Lists)
    → InBounds s
    → contains k s.t1 ≡ true
    → Movable s (record s { t1 = erase k s.t1 })
hit1-Movable k s v h = ground (arith, length-erase k s.t1, contains_pos k s.t1)

hit2-Movable :
    (k : String) (s : Lists)
    → InBounds s
    → contains k s.t2 ≡ true
    → Movable s (record s { t2 = erase k s.t2 })
hit2-Movable k s v h = ground (arith, length-erase k s.t2, contains_pos k s.t2)

ghost1-Movable :
    (k : String) (s : Lists)
    → InBounds s
    → contains k s.b1 ≡ true
    → Movable s (replace false (raise (record s { b1 = erase k s.b1 })))
unfolding raise
ghost1-Movable k s v h =
    let s' = raise (record s { b1 = erase k s.b1 }) in
    ground (arith, replace-Replaced false s', length-erase k s.b1, contains_pos k s.b1)

ghost2-Movable :
    (k : String) (s : Lists)
    → InBounds s
    → contains k s.b2 ≡ true
    → Movable s (replace true (lower (record s { b2 = erase k s.b2 })))
unfolding lower
ghost2-Movable k s v h =
    let s' = lower (record s { b2 = erase k s.b2 }) in
    ground (arith, replace-Replaced true s', length-erase k s.b2, contains_pos k s.b2)

pub access-InBounds : (k : String) (s : Lists) → InBounds s → InBounds (access k s).0
unfolding access
access-InBounds k s v = elim (Bool-cases (contains k s.t1)) [
  | inl t1 ↦ rw t1 (put2-InBounds k s _ v (hit1-Movable k s v t1))
  | inr t1 ↦ rw t1 (elim (Bool-cases (contains k s.b1)) [
    | inl b1 ↦ rw b1 (put2-InBounds k s _ v (ghost1-Movable k s v b1))
    | inr b1 ↦ rw b1 (elim (Bool-cases (contains k s.t2)) [
      | inl t2 ↦ rw t2 (put2-InBounds k s _ v (hit2-Movable k s v t2))
      | inr t2 ↦ rw t2 (elim (Bool-cases (contains k s.b2)) [
        | inl b2 ↦ rw b2 (put2-InBounds k s _ v (ghost2-Movable k s v b2))
        | inr b2 ↦ rw b2 (put1-InBounds k s _ v (make_room-Roomy s v))
      ])
    ])
  ])
]

pub start-InBounds : (c : ℕ) → 0 < c → InBounds (start c)
unfolding start
start-InBounds c h = omega arith

c-replace : (flag : Bool) (s : Lists) → (replace flag s).c ≡ s.c
c-replace flag s = (replace-Replaced flag s).c

c-make_room : (s : Lists) → (make_room s).c ≡ s.c
unfolding make_room
c-make_room s = ground (
  arith,
  c-replace false (record s { b1 = drop_last s.b1 }),
  c-replace false (record s { b2 = drop_last s.b2 }),
  c-replace false s,
)

pub c-access : (k : String) (s : Lists) → (access k s).0.c ≡ s.c
unfolding access put1 put2 raise lower
c-access k s = ground (
  arith,
  c-make_room s,
  c-replace false (raise (record s { b1 = erase k s.b1 })),
  c-replace true (lower (record s { b2 = erase k s.b2 })),
)
