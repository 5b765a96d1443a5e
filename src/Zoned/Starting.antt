-- ===== src/Zoned/Starting.antt =====
-- src/runtime/zoned_store.rs, `ZoneManager::new`: where the groups are at the start.
use matrixcache.Base.{
  arith, ℕ, zero, suc, ◌+◌, ◌-◌, ◌<◌, ◌≤◌, ◌%◌, ◌^◌, ◌≡◌, refl, ap, ◌∙◌, List, [], ◌∷◌, ◌++◌, Bool,
  true, false, ltb, ok, ◌==◌, if◌then◌else◌, is_empty, Bool-cases, inl, inr, not, ◌||◌,
}
use matrixcache.Buffer.{capacity_exceeded}
use matrixcache.Zoned.Bytes.{Bytes, le_value}
use matrixcache.Zoned.Device.{ZoneDevice, reset_zone, reset_zone_state, read, zone_header_magic}
use matrixcache.Zoned.Group.{new_group, ZoneManager, group_at, zone_at, put_zone}
use matrixcache.Zoned.Monad.{M, ◌>>=◌, ◌>>◌, after, pure, fail, modify, on_device}
use matrixcache.Zoned.Appending.{open_group, open_next_group}
use matrixcache.Zoned.Manager.{
  fits, queue_free, pick_by_footer, pick_group, pick_groups, keep_one_free, pick_recoverable_groups,
  format_groups, blank_manager, start, new_manager,
}
use mathlib.Core.Path.{subst}
use matrixcache.Zoned.Rules.{Gives, after-Gives, >>=-Gives, if-Gives}
use matrixcache.Zoned.Quiet.{GroupLists, lists}
use matrixcache.Zoned.Places.{occurs, places, occurs-append, open_group-lists}

-- The groups below `n`, each once free or to be recovered.
record Queued (n : ℕ) (l : GroupLists) : Type 0 where
  once : (x : ℕ) → occurs x l.free + occurs x l.recovery ≡ (if ltb x n then 1 else 0)
  none_full : l.gc ≡ []

module _ (n : ℕ) (l : GroupLists) (small : n < 2 ^ 16) (q : Queued n l) where
  push_free : Queued (n + 1) (record l { free = l.free ++ (n % 2 ^ 16 ∷ []) })
  push_free = record {
    once = λ x.
        let id : n % 2 ^ 16 ≡ n = omega arith in
        rw id (ground (arith, q.once x, occurs-append x l.free (n ∷ [])));
    none_full = q.none_full;
  }

  push_recovery : Queued (n + 1) (record l { recovery = l.recovery ++ (n % 2 ^ 16 ∷ []) })
  push_recovery = record {
    once = λ x.
        let id : n % 2 ^ 16 ≡ n = omega arith in
        rw id (ground (arith, q.once x, occurs-append x l.recovery (n ∷ [])));
    none_full = q.none_full;
  }

abbrev Holding : ℕ → ZoneManager → Type 0
Holding n m = Queued n (lists m)

format_groups-Queued :
    (count index : ℕ)
    → index + count ≤ 2 ^ 16
    → Gives (Holding index) (format_groups count index) (Holding (index + count))
unfolding format_groups after
format_groups-Queued zero index small m q a e = subst (λ n. Queued n (lists m)) (omega arith) q
format_groups-Queued (suc count) index small m q a e =
    let g = new_group (index % 2 ^ 16) index m.device.info.zone_size in
    let s : ZoneManager = record m { groups = m.groups ++ (g ∷ []) } in
    let t =
      on_device (reset_zone (zone_at m index).start)
        (put_zone index (reset_zone_state (zone_at s index)) s) in
    after-Gives t.1
      (λ u.
        modify (λ v. record v { free_list = v.free_list ++ (index % 2 ^ 16 ∷ []) })
        >> format_groups count (index + 1))
      t.0 (Holding index) (Holding (index + suc count)) (λ u h. q)
      (λ u v p b h.
        let v' : ZoneManager = record v { free_list = v.free_list ++ (index % 2 ^ 16 ∷ []) } in
        subst (λ n. Queued n (lists (format_groups count (index + 1) v').0)) (omega arith)
          (format_groups-Queued count (index + 1) (omega arith) v'
            (push_free index (lists v) (omega arith) p) b h))
      a e

pick_by_footer-Queued :
    (index offset : ℕ) (size : ℕ) (footer : Bytes)
    → index < 2 ^ 16
    → (m : ZoneManager) → Holding index m
    → Holding (index + 1) (pick_by_footer offset (new_group (index % 2 ^ 16) index size) footer m)
unfolding pick_by_footer
pick_by_footer-Queued index offset size footer small m q =
    elim (Bool-cases (fits offset (le_value 8 footer 0) (le_value 8 footer 8) m.device)) [
      | inl e ↦ rw e (push_recovery index (lists m) small q)
      | inr e ↦ rw e (push_free index (lists m) small q)
    ]

pick_group-Queued :
    (index : ℕ) → index < 2 ^ 16 → Gives (Holding index) (pick_group index) (Holding (index + 1))
unfolding pick_group after
pick_group-Queued index small m q a e =
    let start = (zone_at m index).start in
    let g = new_group (index % 2 ^ 16) index m.device.info.zone_size in
    let header_at = on_device (read start m.header_size) m in
    let footer_of : M Bytes =
      on_device (read (start + m.device.info.zone_capacity - m.footer_size) m.footer_size) in
    let blank : M (Unit {0}) = modify (queue_free g) in
    let marked : M (Unit {0}) = footer_of >>= λ footer. modify (pick_by_footer start g footer) in
    after-Gives header_at.1
      (λ header.
        if le_value 8 header 0 == 0 || not (le_value 8 header 8 == zone_header_magic)
        then blank
        else marked)
      header_at.0 (Holding index) (Holding (index + 1)) (λ header h. q)
      (λ header.
        if-Gives (le_value 8 header 0 == 0 || not (le_value 8 header 8 == zone_header_magic)) blank
          marked (Holding index) (Holding (index + 1))
          (λ s p b h. push_free index (lists s) small p)
          (>>=-Gives footer_of (λ footer. modify (pick_by_footer start g footer)) (Holding index)
            (Holding index) (Holding (index + 1)) (λ s p b h. p)
            (λ footer s p b h.
              pick_by_footer-Queued index start m.device.info.zone_size footer small s p)))
      a e

pick_groups-Queued :
    (count index : ℕ)
    → index + count ≤ 2 ^ 16
    → Gives (Holding index) (pick_groups count index) (Holding (index + count))
unfolding pick_groups
pick_groups-Queued zero index small m q a e = subst (λ n. Queued n (lists m)) (omega arith) q
pick_groups-Queued (suc count) index small m q a e =
    subst (λ n. Holding n (pick_groups (suc count) index m).0) (omega arith)
      (>>=-Gives (pick_group index) (λ u. pick_groups count (index + 1)) (Holding index)
        (Holding (index + 1)) (Holding (index + 1 + count)) (pick_group-Queued index (omega arith))
        (λ u. pick_groups-Queued count (index + 1) (omega arith)) m q a e)

keep_one_free-Queued :
    (n : ℕ) (ids : List ℕ)
    → Gives (λ m. Holding n m × (m.recovery_list ≡ ids)) (keep_one_free ids) (Holding n)
unfolding keep_one_free after
keep_one_free-Queued n [] m q a e = q.0
keep_one_free-Queued n (id ∷ ids) m q a e =
    let i = (group_at m id).zone_index in
    let t = on_device (reset_zone (zone_at m i).start) (record m { recovery_list = ids }) in
    let l : GroupLists = record (lists m) { recovery = ids } in
    let moved : Queued n (record l { free = l.free ++ (id ∷ []) }) = record {
      once = λ x. ground (arith, q.0.once x, q.1, occurs-append x m.free_list (id ∷ []));
      none_full = q.0.none_full;
    } in
    after-Gives t.1
      (λ u. modify (λ s. record (put_zone i (reset_zone_state (zone_at s i)) s) {
        free_list = s.free_list ++ (id ∷ []);
      }))
      t.0 (λ s. l ≡ lists s) (Holding n) (λ u h. refl)
      (λ u s p b h. subst (λ k. Queued n (record k { free = k.free ++ (id ∷ []) })) p moved) a e

cleared :
    (m : ZoneManager) → m.gc_list ≡ [] → Queued 0 (record (lists m) { free = []; recovery = [] })
cleared m h = record { once = λ x. ground arith; none_full = h }

-- The end of `pick_recoverable_groups`.
keep_free : ZoneManager → M Bool
keep_free s =
    if is_empty s.recovery_list
    then pure false
    else (if is_empty s.free_list then keep_one_free s.recovery_list else pure tt) >> pure true

keep_free-Queued :
    (n : ℕ) (s : ZoneManager)
    → Gives (λ t. Holding n t × (t.recovery_list ≡ s.recovery_list)) (keep_free s) (Holding n)
unfolding keep_free
keep_free-Queued n s =
    let P : ZoneManager → Type 0 = λ t. Holding n t × (t.recovery_list ≡ s.recovery_list) in
    let keep : M (Unit {0}) =
      if is_empty s.free_list then keep_one_free s.recovery_list else pure tt in
    if-Gives (is_empty s.recovery_list) (pure false) (keep >> pure true) P (Holding n)
      (λ t p b h. p.0)
      (>>=-Gives keep (λ u. pure true) P (Holding n) (Holding n)
        (if-Gives (is_empty s.free_list) (keep_one_free s.recovery_list) (pure tt) P (Holding n)
          (keep_one_free-Queued n s.recovery_list) (λ t p b h. p.0))
        (λ u t p b h. p))

from_zero :
    (n : ℕ) (op : M (Unit {0}))
    → Gives (Holding 0) op (Holding (0 + n))
    → Gives (Holding 0) op (Holding n)
from_zero n op h m q a e = subst (λ k. Holding k (op m).0) (omega arith) (h m q a e)

pick_recoverable_groups-Queued :
    (m : ZoneManager)
    → m.gc_list ≡ []
    → m.device.info.groups_in_device ≤ 2 ^ 16
    → (found : Bool) → (pick_recoverable_groups m).1 ≡ ok found
    → Holding m.device.info.groups_in_device (pick_recoverable_groups m).0
unfolding pick_recoverable_groups after keep_free
pick_recoverable_groups-Queued m h small found e =
    let n = m.device.info.groups_in_device in
    let s : ZoneManager = record m { groups = []; free_list = []; recovery_list = [] } in
    >>=-Gives (pick_groups n 0) (λ u t. keep_free t t) (Holding 0) (Holding n) (Holding n)
      (from_zero n (pick_groups n 0) (pick_groups-Queued n 0 (omega arith)))
      (λ u t p b q. keep_free-Queued n t t (p, refl) b q) s (cleared m h) found e

-- Each group below `n` is in one place, and there is no other.
abbrev pub Placed : ℕ → ZoneManager → Type 0
Placed n m = (x : ℕ) → places x (lists m) ≡ (if ltb x n then 1 else 0)

first_group : ZoneManager → M (Unit {0})
first_group s = if is_empty s.free_list then fail capacity_exceeded else open_next_group

open_group-Placed :
    (n : ℕ) (fs : List ℕ) (m : ZoneManager)
    → m.free_list ≡ fs
    → Holding n m
    → (a : Unit {0}) → (open_group fs m).1 ≡ ok a
    → Placed n (open_group fs m).0
unfolding open_group
open_group-Placed n [] m h q a e x = absurd (cc)
open_group-Placed n (id ∷ rest) m h q a e x =
    ap (places x) (open_group-lists id rest m) ∙ ground (arith, q.once x, q.none_full, h)

first_group-Placed : (n : ℕ) (s : ZoneManager) → Gives (Holding n) (first_group s) (Placed n)
unfolding first_group open_next_group
first_group-Placed n s =
    if-Gives (is_empty s.free_list) (fail capacity_exceeded) open_next_group (Holding n) (Placed n)
      (λ t p b h. absurd (cc)) (λ t p b h. open_group-Placed n t.free_list t refl p b h)

-- `start` past the search for groups.
prepare : ℕ → Bool → M (Unit {0})
prepare n recovered =
    if recovered
    then pure tt
    else (modify (λ s. record s { groups = []; free_list = []; recovery_list = [] })
        >> format_groups n 0)

prepare-Queued : (n : ℕ) → n ≤ 2 ^ 16 → Gives (λ m. m.gc_list ≡ []) (prepare n false) (Holding n)
unfolding prepare after
prepare-Queued n small m h a e =
    from_zero n (format_groups n 0) (format_groups-Queued n 0 (omega arith))
      (record m { groups = []; free_list = []; recovery_list = [] }) (cleared m h) a e

prepared-Placed :
    (n : ℕ) (recovered : Bool)
    → n ≤ 2 ^ 16
    → Gives (Holding n) (prepare n recovered >>= λ u t. first_group t t) (Placed n)
unfolding prepare after
prepared-Placed n true small m q a e = first_group-Placed n m m q a e
prepared-Placed n false small m q a e =
    >>=-Gives (prepare n false) (λ u t. first_group t t) (λ s. s.gc_list ≡ []) (Holding n)
      (Placed n) (prepare-Queued n small) (λ u t p b h. first_group-Placed n t t p b h) m
      q.none_full a e

start-Placed :
    (reuse_existing : Bool) (m : ZoneManager)
    → m.gc_list ≡ []
    → m.device.info.groups_in_device ≤ 2 ^ 16
    → (a : Unit {0}) → (start reuse_existing m).1 ≡ ok a
    → Placed m.device.info.groups_in_device (start reuse_existing m).0
unfolding start after prepare first_group
start-Placed true m h small a e =
    let n = m.device.info.groups_in_device in
    after-Gives (pick_recoverable_groups m).1
      (λ recovered. prepare n recovered >>= λ u t. first_group t t) (pick_recoverable_groups m).0
      (Holding n) (Placed n) (pick_recoverable_groups-Queued m h small)
      (λ recovered. prepared-Placed n recovered small) a e
start-Placed false m h small a e =
    let n = m.device.info.groups_in_device in
    >>=-Gives (prepare n false) (λ u t. first_group t t) (λ s. s.gc_list ≡ []) (Holding n)
      (Placed n) (prepare-Queued n small) (λ u t p b q. first_group-Placed n t t p b q) m h a e

pub new_manager-Placed :
    (device : ZoneDevice) (reuse_existing : Bool)
    → device.info.groups_in_device ≤ 2 ^ 16
    → (new_manager device reuse_existing).1 ≡ ok tt
    → Placed device.info.groups_in_device (new_manager device reuse_existing).0
unfolding new_manager blank_manager
new_manager-Placed device reuse_existing small e =
    start-Placed reuse_existing (blank_manager device) refl small tt e
