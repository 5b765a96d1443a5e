-- ===== src/Zoned/Manager.antt =====
-- src/runtime/zoned_store.rs, `ZoneManager`: which groups are free, full or to be recovered, and the
-- start on a device.
use matrixcache.Base.{
  ℕ, zero, suc, ◌+◌, ◌*◌, ◌-◌, ◌/◌, ◌%◌, ◌^◌, ◌==◌, List, [], ◌∷◌, ◌++◌, length, Bool, true, false,
  not, ◌||◌, ◌&&◌, Option, none, some, Result, ok, err, ltb, leb, min, max, is_empty, if◌then◌else◌,
  saturating_add, saturating_sub,
}
use matrixcache.Buffer.{CacheError, not_found, capacity_exceeded, invalid_config}
use matrixcache.Zoned.Bytes.{Bytes, le_value}
use matrixcache.Zoned.Device.{
  full, ZoneDevice, zone_header_magic, new_zone, reset_zone_state, init_zones, read, reset_zone,
  close_zone,
}
use matrixcache.Zoned.Group.{
  ZoneGroup, new_group, less_garbage, ZoneManager, zone_at, group_at, put_zone, put_group,
  current_zone_index,
}
use matrixcache.Zoned.Monad.{M, ◌>>=◌, ◌>>◌, pure, fail, state, modify, on_device}
use matrixcache.Zoned.Appending.{set_status, open_next_group}

-- `contains` of a list of groups, and `remove` at the first place of one.
abbrev pub member : ℕ → List ℕ → Bool
member x [] = false
member x (y ∷ ys) = y == x || member x ys

abbrev pub take_out : ℕ → List ℕ → List ℕ
take_out x [] = []
take_out x (y ∷ ys) = if y == x then ys else y ∷ take_out x ys

-- A group joins those awaiting reclaim, unless it is among them.
abbrev pub await_reclaim : ℕ → ZoneManager → ZoneManager
await_reclaim id m = record m {
  gc_list = if member id m.gc_list then m.gc_list else m.gc_list ++ (id ∷ []);
}

unfoldable pub used_space : ZoneManager → ℕ
used_space m = length m.gc_list * m.device.info.zones_in_group * m.device.info.zone_capacity

-- A sum of `u64`s, as it wraps round in a release build.
unfoldable pub sum_garbage : List ℕ → ZoneManager → ℕ
sum_garbage [] m = 0
sum_garbage (id ∷ ids) m = ((group_at m id).garbage_bytes + sum_garbage ids m) % 2 ^ 64

unfoldable pub garbage_bytes : ZoneManager → ℕ
garbage_bytes m = sum_garbage m.gc_list m

unfoldable pub trim_bytes : ℕ → ℕ → M (Unit {0})
trim_bytes offset size m =
    let id = offset / m.device.info.group_size in
    let g = group_at m id in
    let z = zone_at m g.zone_index in
    if leb m.device.info.groups_in_device id
    then fail invalid_config m
    else modify
        (λ s.
          put_group id (record g { garbage_bytes = saturating_add g.garbage_bytes size })
            (put_zone g.zone_index (record z { valid_bytes = saturating_sub z.valid_bytes size })
              s))
        m

unfoldable pub finish_group : M (Unit {0})
finish_group m =
    let i = current_zone_index m in
    (do
      modify (λ s. record s { ensured = false; meta_appendable = true })
      on_device (close_zone (zone_at m i).start)
      modify (set_status i full)
      modify (await_reclaim m.current_group)
      open_next_group)
      m

-- `GcMode`
pub data GcMode : Type 0 where
  lossy lossless : GcMode

-- The stable sort by falling garbage rate: a group goes before the first with less garbage.
unfoldable pub insert_group : ℕ → List ℕ → ZoneManager → List ℕ
insert_group id [] m = id ∷ []
insert_group id (j ∷ js) m =
    if less_garbage (group_at m id) (group_at m j) then j ∷ insert_group id js m else id ∷ j ∷ js

unfoldable pub sort_groups : List ℕ → ZoneManager → List ℕ
sort_groups [] m = []
sort_groups (id ∷ ids) m = insert_group id (sort_groups ids m) m

abbrev pub first_lossy : List ℕ → Option (ℕ × GcMode)
first_lossy [] = none
first_lossy (id ∷ ids) = some (id, lossy)

-- The free space up to which nothing is reclaimed.
unfoldable pub free_floor : ZoneManager → ℕ
free_floor m =
    min (10 * m.device.info.zone_capacity) (max (m.device.info.device_capacity / 10) (2 ^ 30))

unfoldable pub find_gc_group : ZoneManager → ZoneManager × Option (ℕ × GcMode)
find_gc_group m =
    let sorted = sort_groups m.gc_list m in
    if ltb (free_floor m) (saturating_sub m.device.info.device_capacity (used_space m))
    then (m, none)
    else (record m { gc_list = sorted }, first_lossy sorted)

-- A group without garbage or metadata, at the end of the free list.
unfoldable pub release_group : ℕ → ZoneManager → ZoneManager
release_group id m =
    let g = group_at m id in
    put_group id (record g { garbage_bytes = 0; meta_offset = 0; meta_size = 0 })
      (put_zone g.zone_index (reset_zone_state (zone_at m g.zone_index))
        (record m { free_list = m.free_list ++ (id ∷ []) }))

unfoldable pub reset_group : ℕ → M (Unit {0})
reset_group id m =
    let i = (group_at m id).zone_index in
    if not (member id m.gc_list)
    then fail not_found m
    else (do
      modify (λ s. record s { gc_list = take_out id s.gc_list })
      on_device (reset_zone (zone_at m i).start)
      modify (release_group id))
        m

unfoldable pub load_meta_data : ℕ → M Bytes
load_meta_data id m =
    let g = group_at m id in
    if leb (length m.groups) id
    then fail not_found m
    else (if g.meta_size == 0
        then fail not_found m
        else on_device (read g.meta_offset g.meta_size) m)

abbrev set_garbage : ℕ → ℕ → ZoneManager → ZoneManager
set_garbage id bytes m = put_group id (record (group_at m id) { garbage_bytes = bytes }) m

-- `FnMut(u16, &[u8]) -> u64`, with the state that it captures.
abbrev pub Replay : Type 0 → Type 0
Replay S = ℕ → Bytes → S → S × ℕ

module _ {S : Type 0} (replay : Replay S) where
  -- A group to be recovered, by what the read of its log gave. `replay` says how many bytes of a
  -- group's log are live; the count is of the logs that could be read.
  unfoldable pub replay_group : ℕ → Result CacheError Bytes → S → ZoneManager → S × ZoneManager × ℕ
  replay_group id (ok buf) s m =
      let (s', valid_bytes) = replay id buf s in
      (s', set_garbage id (saturating_sub m.device.info.zone_size valid_bytes) m, 1)
  replay_group id (err e) s m = (s, set_garbage id m.device.info.zone_size m, 0)

  unfoldable pub recover_from : List ℕ → ℕ → S → ZoneManager → S × ZoneManager × ℕ
  recover_from [] recovered s m = (s, record m { recovery_list = [] }, recovered)
  recover_from (id ∷ ids) recovered s m =
      let g = group_at m id in
      let (m1, r) = on_device (read g.meta_offset g.meta_size) m in
      let (s', m2, n) = replay_group id r s m1 in
      recover_from ids (recovered + n) s' (await_reclaim id m2)

  -- It never fails, and gives the number of groups whose log was replayed.
  unfoldable pub recover : S → ZoneManager → S × ZoneManager × ℕ
  recover s m = recover_from m.recovery_list 0 s m

-- `u64` subtraction as it wraps round in a release build.
abbrev pub wrapping_sub : ℕ → ℕ → ℕ
wrapping_sub a b = (a + 2 ^ 64 - b) % 2 ^ 64

-- Whether a footer places a metadata log inside its zone.
unfoldable pub fits : ℕ → ℕ → ℕ → ZoneDevice → Bool
fits zone_start meta_offset meta_size d =
    let zone_end = zone_start + d.info.zone_capacity in
    ltb zone_start meta_offset
    && ltb meta_offset zone_end
    && ltb 0 meta_size
    && leb meta_size (wrapping_sub (zone_end - meta_offset) d.info.page_size)

abbrev pub queue_free : ZoneGroup → ZoneManager → ZoneManager
queue_free g m = record m {
  groups = m.groups ++ (g ∷ []);
  free_list = m.free_list ++ (g.group_id ∷ []);
}

abbrev pub queue_recovery : ZoneGroup → ZoneManager → ZoneManager
queue_recovery g m = record m {
  groups = m.groups ++ (g ∷ []);
  recovery_list = m.recovery_list ++ (g.group_id ∷ []);
}

-- A zone with a header, by its footer.
unfoldable pub pick_by_footer : ℕ → ZoneGroup → Bytes → ZoneManager → ZoneManager
pick_by_footer zone_start g footer m =
    let meta_offset = le_value 8 footer 0 in
    let meta_size = le_value 8 footer 8 in
    if fits zone_start meta_offset meta_size m.device
    then queue_recovery (record g { meta_offset = meta_offset; meta_size = meta_size }) m
    else queue_free g m

unfoldable pub pick_group : ℕ → M (Unit {0})
pick_group index m =
    let g = new_group (index % 2 ^ 16) index m.device.info.zone_size in
    let zone_start = (zone_at m index).start in
    (do
      header ← on_device (read zone_start m.header_size)
      if le_value 8 header 0 == 0 || not (le_value 8 header 8 == zone_header_magic)
          then modify (queue_free g)
          else (do
            footer ←
                on_device
                  (read (zone_start + m.device.info.zone_capacity - m.footer_size) m.footer_size)
            modify (pick_by_footer zone_start g footer)))
      m

unfoldable pub pick_groups : ℕ → ℕ → M (Unit {0})
pick_groups zero index = pure tt
pick_groups (suc count) index = do pick_group index; pick_groups count (index + 1)

-- One group is kept free, even if that costs the oldest that could be recovered.
unfoldable pub keep_one_free : List ℕ → M (Unit {0})
keep_one_free [] m = pure tt m
keep_one_free (id ∷ ids) m =
    let i = (group_at m id).zone_index in
    (do
      modify (λ s. record s { recovery_list = ids })
      on_device (reset_zone (zone_at m i).start)
      modify (λ s. record (put_zone i (reset_zone_state (zone_at s i)) s) {
        free_list = s.free_list ++ (id ∷ []);
      }))
      m

unfoldable pub pick_recoverable_groups : M Bool
pick_recoverable_groups m =
    (do
      modify (λ s. record s { groups = []; free_list = []; recovery_list = [] })
      pick_groups m.device.info.groups_in_device 0
      s ← state
      if is_empty s.recovery_list then pure false else (do
        if is_empty s.free_list then keep_one_free s.recovery_list else pure tt
        pure true))
      m

-- The loop that starts every group anew.
unfoldable pub format_groups : ℕ → ℕ → M (Unit {0})
format_groups zero index m = pure tt m
format_groups (suc count) index m =
    let id = index % 2 ^ 16 in
    (do
      modify
          (λ s. record s { groups = s.groups ++ (new_group id index s.device.info.zone_size ∷ []) })
      modify (λ s. put_zone index (reset_zone_state (zone_at s index)) s)
      on_device (reset_zone (zone_at m index).start)
      modify (λ s. record s { free_list = s.free_list ++ (id ∷ []) })
      format_groups count (index + 1))
      m

-- The manager before its groups are looked for.
unfoldable pub blank_manager : ZoneDevice → ZoneManager
blank_manager device = record {
  device = device;
  zones = init_zones device;
  groups = [];
  free_list = [];
  gc_list = [];
  recovery_list = [];
  current_group = 0;
  meta_zone = new_zone 0 0 0;
  header_size = device.info.page_size;
  footer_size = device.info.page_size;
  sequence = 0;
  ensured = false;
  meta_appendable = true;
}

unfoldable pub start : Bool → M (Unit {0})
start reuse_existing m =
    (do
      recovered ← (if reuse_existing then pick_recoverable_groups else pure false)
      if recovered then pure tt else (do
        modify (λ s. record s { groups = []; free_list = []; recovery_list = [] })
        format_groups m.device.info.groups_in_device 0)
      s ← state
      if is_empty s.free_list then fail capacity_exceeded else open_next_group)
      m

-- `ZoneManager::new`; the manager counts only if the result is not an error.
unfoldable pub new_manager : ZoneDevice → Bool → ZoneManager × Result CacheError (Unit {0})
new_manager device reuse_existing = start reuse_existing (blank_manager device)
