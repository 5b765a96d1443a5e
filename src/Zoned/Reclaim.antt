-- ===== src/Zoned/Reclaim.antt =====
-- src/runtime/zoned_store.rs, `ZoneManager::find_gc_group`: which group is reclaimed.
use matrixcache.Base.{
  ◌⊎◌, ◌==◌, length, ◌-◌, ◌/◌, ◌^◌, false, arith, ℕ, ◌*◌, ◌<◌, ◌≤◌, ◌≡◌, refl, ◌∙◌, List, [], ◌∷◌,
  true, not, ltb, some, is_some, is_empty, Bool-cases, inl, inr, ◌↔◌, saturating_sub,
}
use mathlib.Core.Path.{subst}
use matrixcache.Zoned.Places.{occurs, occurs-sort_groups}
use matrixcache.Zoned.Group.{ZoneGroup, ZoneManager, group_at, garbage_rate, less_garbage}
use matrixcache.Zoned.Rate.{f64_quotient}
use matrixcache.Zoned.Rate.Rounding.{AtMostRounded, f64_quotient-order}
use matrixcache.Zoned.Manager.{
  member, insert_group, sort_groups, free_floor, used_space, find_gc_group, first_lossy, GcMode,
  lossy,
}

-- No group in a list has a higher rate of garbage than `most`.
abbrev pub AtMost : ℕ → List ℕ → ZoneManager → Type 0
AtMost most [] m = Unit {0}
AtMost most (id ∷ ids) m = (garbage_rate (group_at m id) ≤ most) × AtMost most ids m

-- All groups are of one size.
abbrev pub OneSize : ℕ → List ℕ → ZoneManager → Type 0
OneSize size [] m = Unit {0}
OneSize size (id ∷ ids) m = ((group_at m id).zone_size ≡ size) × OneSize size ids m

AtMost-weaken : (a b : ℕ) (ids : List ℕ) (m : ZoneManager) → a ≤ b → AtMost a ids m → AtMost b ids m
AtMost-weaken a b [] m le h = tt
AtMost-weaken a b (id ∷ ids) m le h = (omega (arith, h.0), AtMost-weaken a b ids m le h.1)

insert_group-AtMost :
    (b id : ℕ) (ids : List ℕ) (m : ZoneManager)
    → AtMost b (insert_group id ids m) m ↔ AtMost b (id ∷ ids) m
unfolding insert_group
insert_group-AtMost b id [] m = (λ h. h, λ h. h)
insert_group-AtMost b id (j ∷ js) m =
    let ih = insert_group-AtMost b id js m in
    elim (Bool-cases (less_garbage (group_at m id) (group_at m j))) [
      | inl e ↦ rw e (λ h. let t = ih.0 h.1 in (t.0, (h.0, t.1)), λ h. (h.1.0, ih.1 (h.0, h.1.1)))
      | inr e ↦ rw e (λ h. h, λ h. h)
    ]

sort_groups-AtMost :
    (b : ℕ) (ids : List ℕ) (m : ZoneManager) → AtMost b (sort_groups ids m) m ↔ AtMost b ids m
unfolding sort_groups
sort_groups-AtMost b [] m = (λ h. h, λ h. h)
sort_groups-AtMost b (id ∷ ids) m =
    let step = insert_group-AtMost b id (sort_groups ids m) m in
    let ih = sort_groups-AtMost b ids m in
    (λ h. let t = step.0 h in (t.0, ih.0 t.1), λ h. step.1 (h.0, ih.1 h.1))

-- The first of a list has the highest rate of it.
abbrev Most : List ℕ → ZoneManager → Type 0
Most [] m = Unit {0}
Most (id ∷ ids) m = AtMost (garbage_rate (group_at m id)) (id ∷ ids) m

insert_group-Most :
    (id : ℕ) (ids : List ℕ) (m : ZoneManager) → Most ids m → Most (insert_group id ids m) m
unfolding insert_group
insert_group-Most id [] m h = (omega arith, tt)
insert_group-Most id (j ∷ js) m h =
    let rate = garbage_rate (group_at m id) in
    let rate' = garbage_rate (group_at m j) in
    elim (Bool-cases (ltb rate rate')) [
      | inl q ↦
          (let less : rate < rate' = ground (arith, q) in
            rw q (omega arith, (insert_group-AtMost rate' id js m).1 (omega (arith, less), h.1)))
      | inr q ↦
          (let most : rate' ≤ rate = ground (arith, q) in
            rw q (omega arith, AtMost-weaken rate' rate (j ∷ js) m most h))
    ]

sort_groups-Most : (ids : List ℕ) (m : ZoneManager) → Most (sort_groups ids m) m
unfolding sort_groups
sort_groups-Most [] m = tt
sort_groups-Most (id ∷ ids) m = insert_group-Most id (sort_groups ids m) m (sort_groups-Most ids m)

member-occurs : (x : ℕ) (ys : List ℕ) → member x ys ≡ ltb 0 (occurs x ys)
member-occurs x [] = ground arith
member-occurs x (y ∷ ys) = ground (arith, member-occurs x ys)

-- No group in a list has more garbage than `most`, but for what the floating point cannot tell.
abbrev pub NoneMore : ℕ → List ℕ → ZoneManager → Type 0
NoneMore most [] m = Unit {0}
NoneMore most (id ∷ ids) m = AtMostRounded (group_at m id).garbage_bytes most × NoneMore most ids m

-- A group that is found is one of a list, with the highest rate and the most garbage of it.
pub record Chosen (ids : List ℕ) (m : ZoneManager) (id : ℕ) (mode : GcMode) : Type 0 where
  pub for_good : mode ≡ lossy
  pub awaiting : member id ids ≡ true
  pub most_rate : AtMost (garbage_rate (group_at m id)) ids m
  pub most : NoneMore (group_at m id).garbage_bytes ids m

size-member :
    (size id : ℕ) (ids : List ℕ) (m : ZoneManager)
    → OneSize size ids m
    → member id ids ≡ true
    → (group_at m id).zone_size ≡ size
size-member size id [] m o h = absurd (cc)
size-member size id (j ∷ js) m o h = elim (Bool-cases (j == id)) [
  | inl e ↦
      (let same : j ≡ id = ground (arith, e) in
        subst (λ k. (group_at m k).zone_size ≡ size) same o.0)
  | inr e ↦ size-member size id js m o.1 (ground (arith, e, h))
]

garbage_rate-quotient :
    (size : ℕ) (g : ZoneGroup)
    → 0 < size
    → g.zone_size ≡ size
    → garbage_rate g ≡ f64_quotient g.garbage_bytes size
unfolding garbage_rate
garbage_rate-quotient size g positive e =
    let some_size : (size == 0) ≡ false = ground (arith, positive) in rw (e, some_size) refl

AtMost-NoneMore :
    (size : ℕ) (best : ZoneGroup) (ids : List ℕ) (m : ZoneManager)
    → 0 < size
    → size < 2 ^ 64
    → best.zone_size ≡ size
    → OneSize size ids m
    → AtMost (garbage_rate best) ids m
    → NoneMore best.garbage_bytes ids m
AtMost-NoneMore size best [] m positive small e o h = tt
AtMost-NoneMore size best (id ∷ ids) m positive small e o h =
    let g = group_at m id in
    let rates : f64_quotient g.garbage_bytes size ≤ f64_quotient best.garbage_bytes size = omega (
      arith,
      h.0,
      garbage_rate-quotient size g positive o.0,
      garbage_rate-quotient size best positive e,
    ) in
    (
      f64_quotient-order g.garbage_bytes best.garbage_bytes size positive small rates,
      AtMost-NoneMore size best ids m positive small e o.1 h.1,
    )

first_lossy-Chosen :
    (size : ℕ) (ids sorted : List ℕ) (m : ZoneManager) (id : ℕ) (mode : GcMode)
    → 0 < size
    → size < 2 ^ 64
    → OneSize size ids m
    → ((x : ℕ) → occurs x sorted ≡ occurs x ids)
    → ((b : ℕ) → AtMost b sorted m → AtMost b ids m)
    → Most sorted m
    → first_lossy sorted ≡ some (id, mode)
    → Chosen ids m id mode
first_lossy-Chosen size ids [] m id mode positive small o same weak most e = absurd (cc)
first_lossy-Chosen size ids (j ∷ js) m id mode positive small o same weak most e =
    let at : j ≡ id = cc in
    let there : occurs id (j ∷ js) ≡ occurs id ids = same id in
    let among : member id ids ≡ true = member-occurs id ids ∙ ground (arith, there, at) in
    let rates = subst (λ k. AtMost (garbage_rate (group_at m k)) ids m) at (weak _ most) in
    record {
      for_good = cc;
      awaiting = among;
      most_rate = rates;
      most =
          AtMost-NoneMore size (group_at m id) ids m positive small
            (size-member size id ids m o among) o rates;
    }

insert_group-first :
    (id : ℕ) (ids : List ℕ) (m : ZoneManager) → is_some (first_lossy (insert_group id ids m)) ≡ true
unfolding insert_group
insert_group-first id [] m = refl
insert_group-first id (j ∷ js) m = ground arith

first_lossy-sort_groups :
    (ids : List ℕ) (m : ZoneManager)
    → is_some (first_lossy (sort_groups ids m)) ≡ not (is_empty ids)
unfolding sort_groups
first_lossy-sort_groups [] m = refl
first_lossy-sort_groups (id ∷ ids) m = insert_group-first id (sort_groups ids m) m

length-is_empty : (ids : List ℕ) → not (is_empty ids) ≡ ltb 0 (length ids)
length-is_empty [] = refl
length-is_empty (id ∷ ids) = ground arith

-- If the groups that await reclaim are all of one size, above zero and below 2 ^ 64, `find_gc_group`
-- finds a group exactly if there is one and the free space has come down to ten zones and to the
-- larger of a tenth of the device and 2 ^ 30 bytes. None of them has a higher rate of garbage than the
-- one it finds, as the code rounds rates, nor more garbage by more than a factor of
-- ((2 ^ 53 + 1) / (2 ^ 53 - 1)) ^ 2.
pub find_gc_group-Chosen :
    (size : ℕ) (m : ZoneManager)
    → 0 < size
    → size < 2 ^ 64
    → OneSize size m.gc_list m
    → let found = (find_gc_group m).1 in
      let info = m.device.info in
      let used = length m.gc_list * info.zones_in_group * info.zone_capacity in
      let free = info.device_capacity - used in
      ((is_some found ≡ true) ↔ (
        (0 < length m.gc_list)
        × (free ≤ 10 * info.zone_capacity)
        × ((free ≤ info.device_capacity / 10) ⊎ (free ≤ 2 ^ 30))))
      × ((id : ℕ) (mode : GcMode) → found ≡ some (id, mode) → Chosen m.gc_list m id mode)
unfolding find_gc_group free_floor used_space
find_gc_group-Chosen size m positive small o =
    let sorted = sort_groups m.gc_list m in
    let info = m.device.info in
    let used = length m.gc_list * info.zones_in_group * info.zone_capacity in
    let found = first_lossy-sort_groups m.gc_list m in
    let some_await = length-is_empty m.gc_list in
    elim (Bool-cases (ltb (free_floor m) (saturating_sub info.device_capacity (used_space m)))) [
      | inl e ↦ rw e (ground (arith, e), λ id mode q. absurd (cc))
      | inr e ↦ rw e (
        ground (arith, e, found, some_await),
        λ id mode q.
            first_lossy-Chosen size m.gc_list sorted m id mode positive small o
              (λ x. occurs-sort_groups x m.gc_list m)
              (λ b h. (sort_groups-AtMost b m.gc_list m).0 h) (sort_groups-Most m.gc_list m) q,
      )
    ]
