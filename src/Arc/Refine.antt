-- ===== src/Arc/Refine.antt =====
-- src/runtime/replacement.rs, `ArcList` against the model of the paper.
use matrixcache.Base.{
  ◌<◌, ◌≤◌, ◌≡◌, refl, ◌∙◌, ap, List, String, Bool, true, false, length, str_eq, arith,
  length-drop_last, drop_last, false, Bool-cases, inl, inr,
}
use mathlib.Core.Path.{subst}
use matrixcache.Base.Map.{contains, length-erase-le}
use matrixcache.Arena.{key_list_nil}
use matrixcache.Ghost
use matrixcache.Ghost.{GhostLruList}
use matrixcache.Ghost.Holds.{GhostHolds, pop_data, pop_ghost, pop_missing}
use matrixcache.Arc
use matrixcache.Arc.{ArcList, ArcPopResult}
use matrixcache.Arc.Model
use matrixcache.Arc.Model.{Lists}
use matrixcache.Arc.Bounds.{replace-Replaced}
use matrixcache.Arc.Room.{
  ArcHolds, Small, replace-ArcHolds, split_at-ArcHolds, lowered-lower, raised-raise,
  put_active-ArcHolds, put_fetch-ArcHolds, make_room-ArcHolds,
}

-- The result of `pop`, by the list that held the key.
record PopResult (r : ArcPopResult) (k : String) (active ghost : Bool) : Type 0 where
  item : r.item ≡ k
  is_active : r.is_active ≡ active
  is_ghost : r.is_ghost ≡ ghost

module _ (k : String) (named : str_eq k "" ≡ false) (a : ArcList) (s : Lists)
    (h : ArcHolds a s) where
  -- The key was found in the fetch list.
  pop_fetch :
      {t b : List String} (ghost : Bool)
      → let (f, r) = Ghost.pop k a.fetch_list in
        GhostHolds f s.p t b × (r.item ≡ k) × (r.is_ghost ≡ ghost)
        → let (a', r) = Arc.pop k a in
          ArcHolds a' (record s { t1 = t; b1 = b }) × PopResult r k false ghost
  unfolding Arc.pop
  pop_fetch ghost f = rw (ap (λ i. str_eq i "") f.1 ∙ named) (
    record { capacity = h.capacity; fetch = f.0; active = h.active },
    record { item = f.1; is_active = refl; is_ghost = f.2 },
  )

  -- The key was not in the fetch list, and was found in the active list.
  pop_active :
      {t b : List String} (ghost : Bool)
      → contains k s.t1 ≡ false
      → contains k s.b1 ≡ false
      → let (g, r) = Ghost.pop k a.active_list in
        GhostHolds g s.q t b × (r.item ≡ k) × (r.is_ghost ≡ ghost)
        → let (a', r) = Arc.pop k a in
          ArcHolds a' (record s { t2 = t; b2 = b }) × PopResult r k true ghost
  unfolding Arc.pop
  pop_active ghost t1 b1 g =
      let f = pop_missing k a.fetch_list h.fetch t1 b1 in
      rw (ap (λ i. str_eq i "") f.1, ap (λ i. str_eq i "") g.1 ∙ named)
        (
          record { capacity = h.capacity; fetch = f.0; active = g.0 },
          record { item = g.1; is_active = refl; is_ghost = g.2 },
        )

  pop_none :
      contains k s.t1 ≡ false
      → contains k s.b1 ≡ false
      → contains k s.t2 ≡ false
      → contains k s.b2 ≡ false
      → let (a', r) = Arc.pop k a in ArcHolds a' s × (r.item ≡ "")
  unfolding Arc.pop
  pop_none t1 b1 t2 b2 =
      let f = pop_missing k a.fetch_list h.fetch t1 b1 in
      let g = pop_missing k a.active_list h.active t2 b2 in
      rw (ap (λ i. str_eq i "") f.1, ap (λ i. str_eq i "") g.1)
        (record { capacity = h.capacity; fetch = f.0; active = g.0 }, refl)

-- `access` after `pop`, by what `pop` said.
module _ (k : String) (r : ArcPopResult) (a : ArcList) (s : Lists) (h : ArcHolds a s)
    (small : Small s) where
  admit_missing :
      r.item ≡ ""
      → length (Model.make_room s).t1 < key_list_nil
      → let (a', hit) = Arc.admit k r a in
        ArcHolds a' (Model.put1 k (Model.make_room s)) × (hit ≡ false)
  unfolding Arc.admit
  admit_missing e room =
      rw (ap (λ i. str_eq i "") e)
        (put_fetch-ArcHolds _ _ (make_room-ArcHolds a s h small) k room, refl)

  module _ (named : str_eq k "" ≡ false) where
    admit_hit :
        (active : Bool)
        → PopResult r k active false
        → let (a', hit) = Arc.admit k r a in ArcHolds a' (Model.put2 k s) × (hit ≡ true)
    unfolding Arc.admit
    admit_hit active p =
        rw (ap (λ i. str_eq i "") p.item ∙ named, p.is_ghost)
          (put_active-ArcHolds a s h k small.t2, refl)

    admit_ghost1 :
        PopResult r k false true
        → let (a', hit) = Arc.admit k r a in
          ArcHolds a' (Model.put2 k (Model.replace false (Model.raise s))) × (hit ≡ false)
    unfolding Arc.admit Model.raise
    admit_ghost1 p =
        let s1 = Model.raise s in
        let held : ArcHolds (Arc.split_at (Arc.raised a) a) s1 =
          subst (λ x. ArcHolds (Arc.split_at x a) s1) (raised-raise a s h small)
            (split_at-ArcHolds a s h small _) in
        let small1 : Small s1 = omega (arith, small) in
        rw (ap (λ i. str_eq i "") p.item ∙ named, p.is_ghost, p.is_active)
          (
            put_active-ArcHolds _ _ (replace-ArcHolds _ s1 held small1 false) k
                (omega (arith, (replace-Replaced false s1).t2, small.t2)),
            refl,
          )

    admit_ghost2 :
        PopResult r k true true
        → let (a', hit) = Arc.admit k r a in
          ArcHolds a' (Model.put2 k (Model.replace true (Model.lower s))) × (hit ≡ false)
    unfolding Arc.admit Model.lower
    admit_ghost2 p =
        let s1 = Model.lower s in
        let held : ArcHolds (Arc.split_at (Arc.lowered a) a) s1 =
          subst (λ x. ArcHolds (Arc.split_at x a) s1) (lowered-lower a s h small)
            (split_at-ArcHolds a s h small _) in
        let small1 : Small s1 = omega (arith, small) in
        rw (ap (λ i. str_eq i "") p.item ∙ named, p.is_ghost, p.is_active)
          (
            put_active-ArcHolds _ _ (replace-ArcHolds _ s1 held small1 true) k
                (omega (arith, (replace-Replaced true s1).t2, small.t2)),
            refl,
          )

make_room-t1 : (s : Lists) → length (Model.make_room s).t1 ≤ length s.t1
unfolding Model.make_room
make_room-t1 s = ground (
  arith,
  replace-Replaced false (record s { b1 = drop_last s.b1 }),
  replace-Replaced false (record s { b2 = drop_last s.b2 }),
  replace-Replaced false s,
  length-drop_last s.t1,
)

-- One request: the code's lists and answer are those of the model.
pub access-ArcHolds :
    (k : String) (a : ArcList) (s : Lists)
    → str_eq k "" ≡ false
    → Small s
    → ArcHolds a s
    → let (a', hit) = Arc.access k a in
      ArcHolds a' (Model.access k s).0 × (hit ≡ (Model.access k s).1)
unfolding Arc.access Model.access
access-ArcHolds k a s named small h = elim (Bool-cases (contains k s.t1)) [
  | inl t1 ↦
      (let (held, r) = pop_fetch k named a s h false (pop_data k a.fetch_list h.fetch t1) in
        rw t1
          (admit_hit k _ _ _ held ((omega (arith, length-erase-le k s.t1, small))) named false r))
  | inr t1 ↦ rw t1 (elim (Bool-cases (contains k s.b1)) [
    | inl b1 ↦
        (let (held, r) = pop_fetch k named a s h true (pop_ghost k a.fetch_list h.fetch t1 b1) in
          rw b1 (admit_ghost1 k _ _ _ held (omega (arith, length-erase-le k s.b1, small)) named r))
    | inr b1 ↦ rw b1 (elim (Bool-cases (contains k s.t2)) [
      | inl t2 ↦
          (let (held, r) =
              pop_active k named a s h false t1 b1 (pop_data k a.active_list h.active t2) in
            rw t2
              (admit_hit k _ _ _ held (omega (arith, length-erase-le k s.t2, small)) named true r))
      | inr t2 ↦ rw t2 (elim (Bool-cases (contains k s.b2)) [
        | inl b2 ↦
            (let (held, r) =
                pop_active k named a s h true t1 b1 (pop_ghost k a.active_list h.active t2 b2) in
              rw b2
                (admit_ghost2 k _ _ _ held (omega (arith, length-erase-le k s.b2, small)) named r))
        | inr b2 ↦
            (let (held, r) = pop_none k named a s h t1 b1 t2 b2 in
              rw b2 (admit_missing k _ _ _ held small r (omega (arith, make_room-t1 s, small.t1))))
      ])
    ])
  ])
]
