-- ===== src/Arc/Room.antt =====
-- src/runtime/replacement.rs, `ArcList` against the model: `replace`, the shares, and the room for a new key.
use matrixcache.Base.{
  ℕ, ◌+◌, ◌-◌, ◌*◌, ◌/◌, ◌<◌, ◌≤◌, ◌≡◌, refl, ◌∙◌, min, max, String, Bool, false, ◌||◌, ◌&&◌, not,
  length, drop_last, ltb, leb, ◌==◌, arith, length-drop_last, Bool-cases, inl, inr, saturating_add,
}
use mathlib.Core.Path.{ap₂}
use native.Mathlib.Nat.{div-le_self}
use matrixcache.Arena.{key_list_nil}
use matrixcache.Ghost
use matrixcache.Ghost.{GhostLruList}
use matrixcache.Ghost.Holds.{
  GhostHolds, new-GhostHolds, set_capacity-GhostHolds, put-GhostHolds, evict_one_data-GhostHolds,
  evict_one_ghost-GhostHolds, downgrade-GhostHolds, size-GhostHolds,
}
use matrixcache.Arc
use matrixcache.Arc.{ArcList, ArcPopResult}
use matrixcache.Arc.Model
use matrixcache.Arc.Model.{Lists}

-- The four lists of the code hold those of the model.
pub record ArcHolds (a : ArcList) (s : Lists) : Type 0 where
  pub capacity : a.capacity ≡ s.c
  pub fetch : GhostHolds a.fetch_list s.p s.t1 s.b1
  pub active : GhostHolds a.active_list s.q s.t2 s.b2

-- Sizes at which no index and no sum of sizes overflows.
pub record Small (s : Lists) : Type 0 where
  pub t1 : length s.t1 < key_list_nil
  pub b1 : length s.b1 < key_list_nil
  pub t2 : length s.t2 < key_list_nil
  pub b2 : length s.b2 < key_list_nil
  pub c : s.c < key_list_nil
  pub p : s.p < key_list_nil

pub new-ArcHolds : (c : ℕ) → ArcHolds (Arc.new c) (Model.start c)
unfolding Arc.new Model.start
new-ArcHolds c = record {
  capacity = refl;
  fetch = new-GhostHolds (c / 2);
  active = new-GhostHolds (c - c / 2);
}

pub plus_one : (n : ℕ) → n < key_list_nil → max (saturating_add n 1) 1 ≡ n + 1
plus_one n h = omega arith

module _ (a : ArcList) (s : Lists) (h : ArcHolds a s) (small : Small s) where
  pub replace-ArcHolds : (flag : Bool) → ArcHolds (Arc.replace flag a) (Model.replace flag s)
  unfolding Arc.replace Model.replace Model.demote1 Model.demote2
  replace-ArcHolds flag =
      let f = size-GhostHolds a.fetch_list h.fetch in
      let fc : a.fetch_list.data_list.capacity ≡ s.p = h.fetch.data_held.capacity in
      let test : (not (Ghost.size a.fetch_list == 0)
            && (ltb (Ghost.capacity a.fetch_list) (Ghost.size a.fetch_list)
                || (flag && (Ghost.size a.fetch_list == Ghost.capacity a.fetch_list))))
          ≡ Model.takes_first flag s =
        ground (arith, f, fc) in
      elim (Bool-cases (Model.takes_first flag s)) [
        | inl e ↦
            rw (test ∙ e, e)
              (record {
                capacity = h.capacity;
                fetch = downgrade-GhostHolds a.fetch_list h.fetch small.b1;
                active = h.active;
              })
        | inr e ↦
            rw (test ∙ e, e)
              (record {
                capacity = h.capacity;
                fetch = h.fetch;
                active = downgrade-GhostHolds a.active_list h.active small.b2;
              })
      ]

  pub split_at-ArcHolds : (p : ℕ) → ArcHolds (Arc.split_at p a) (record s { p = p; q = s.c - p })
  unfolding Arc.split_at
  split_at-ArcHolds p = record {
    capacity = h.capacity;
    fetch = set_capacity-GhostHolds a.fetch_list h.fetch p;
    active = rw h.capacity (set_capacity-GhostHolds a.active_list h.active (s.c - p));
  }

  pub lowered-lower : (s.p - max 1 (length s.b1 / (length s.b2 + 1))) ≡ Arc.lowered a
  unfolding Arc.lowered
  lowered-lower = rw (
    (size-GhostHolds a.fetch_list h.fetch).1,
    (size-GhostHolds a.active_list h.active).1,
    h.fetch.data_held.capacity,
    plus_one (length s.b2) small.b2,
  )

  pub raised-raise : min (s.p + max 1 (length s.b2 / (length s.b1 + 1))) s.c ≡ Arc.raised a
  unfolding Arc.raised
  raised-raise =
      rw
        (
          (size-GhostHolds a.fetch_list h.fetch).1,
          (size-GhostHolds a.active_list h.active).1,
          h.fetch.data_held.capacity,
          h.capacity,
          plus_one (length s.b1) small.b1,
        )
        (omega (arith, small.p, small.c, div-le_self (length s.b2) (length s.b1 + 1), small.b2))

module _ (a : ArcList) (s : Lists) (h : ArcHolds a s) where
  pub put_active-ArcHolds :
      (k : String) → length s.t2 < key_list_nil → ArcHolds (Arc.put_active k a) (Model.put2 k s)
  unfolding Arc.put_active Model.put2
  put_active-ArcHolds k room = record {
    capacity = h.capacity;
    fetch = h.fetch;
    active = put-GhostHolds a.active_list h.active k room;
  }

  pub put_fetch-ArcHolds :
      (k : String) → length s.t1 < key_list_nil → ArcHolds (Arc.put_fetch k a) (Model.put1 k s)
  unfolding Arc.put_fetch Model.put1
  put_fetch-ArcHolds k room = record {
    capacity = h.capacity;
    fetch = put-GhostHolds a.fetch_list h.fetch k room;
    active = h.active;
  }

-- A smaller directory is small too.
pub Small-shrink :
    (s s' : Lists)
    → Small s
    → length s'.t1 ≤ length s.t1
    → length s'.b1 ≤ length s.b1
    → length s'.t2 ≤ length s.t2
    → length s'.b2 ≤ length s.b2
    → s'.c ≡ s.c
    → s'.p ≡ s.p
    → Small s'
Small-shrink s s' small h1 h2 h3 h4 hc hp = omega arith

module _ (a : ArcList) (s : Lists) (h : ArcHolds a s) (small : Small s) where
  pub sizes :
      (Ghost.total_size a.fetch_list ≡ length s.t1 + length s.b1)
      × (Arc.total_size a ≡ length s.t1 + length s.t2 + length s.b1 + length s.b2)
      × (Arc.saturating_mul a.capacity 2 ≡ 2 * s.c)
      × (Ghost.size a.fetch_list ≡ length s.t1)
  sizes =
      let f = size-GhostHolds a.fetch_list h.fetch in
      let g = size-GhostHolds a.active_list h.active in let cap = h.capacity in omega arith

  pub make_room-ArcHolds : ArcHolds (Arc.make_room a) (Model.make_room s)
  unfolding Arc.make_room Model.make_room
  make_room-ArcHolds =
      let all = length s.t1 + length s.t2 + length s.b1 + length s.b2 in
      let (fetch_total, total, double, fetch_size) = sizes in
      let full1 = ap₂ leb h.capacity fetch_total in
      let data1 = ap₂ ltb fetch_size h.capacity in
      let full = ap₂ leb h.capacity total in
      let full2 = ap₂ leb double total in
      let s1 = record s { b1 = drop_last s.b1 } in
      let s2 = record s { b2 = drop_last s.b2 } in
      let h1 : ArcHolds _ s1 = record {
        capacity = h.capacity;
        fetch = (evict_one_ghost-GhostHolds a.fetch_list h.fetch).0;
        active = h.active;
      } in
      let h2 : ArcHolds _ s2 = record {
        capacity = h.capacity;
        fetch = h.fetch;
        active = (evict_one_ghost-GhostHolds a.active_list h.active).0;
      } in
      let small1 : Small s1 = omega (arith, length-drop_last s.b1, small) in
      let small2 : Small s2 = omega (arith, length-drop_last s.b2, small) in
      elim (Bool-cases (leb s.c (length s.t1 + length s.b1))) [
        | inl e ↦
            rw (full1 ∙ e, e)
              (elim (Bool-cases (ltb (length s.t1) s.c)) [
                | inl d ↦ rw (data1 ∙ d, d) (replace-ArcHolds _ s1 h1 small1 false)
                | inr d ↦
                    rw (data1 ∙ d, d)
                      (record {
                        capacity = h.capacity;
                        fetch = (evict_one_data-GhostHolds a.fetch_list h.fetch).0;
                        active = h.active;
                      })
              ])
        | inr e ↦
            rw (full1 ∙ e, e)
              (elim (Bool-cases (leb s.c all)) [
                | inl d ↦
                    rw (full ∙ d, d)
                      (elim (Bool-cases (leb (2 * s.c) all)) [
                        | inl g ↦ rw (full2 ∙ g, g) (replace-ArcHolds _ s2 h2 small2 false)
                        | inr g ↦ rw (full2 ∙ g, g) (replace-ArcHolds a s h small false)
                      ])
                | inr d ↦ rw (full ∙ d, d) h
              ])
      ]
