-- ===== src/Tests/Zones.antt =====
-- src/runtime/zoned_store.rs: a run of a `ZoneManager` on a device of three zones, and its theorems at
-- concrete inputs.
use matrixcache.Base.{
  ◌↔◌, ◌⊎◌, ◌<◌, ◌≤◌, ◌*◌, ◌^◌, true, ◌+◌, ok, ℕ, ◌≡◌, refl, List, [], ◌∷◌, some, false, ltb,
  if◌then◌else◌, is_some, arith,
}
use matrixcache.Buffer.{invalid_config}
use matrixcache.Zoned.Bytes.{Bytes, zeros, le_byte, le_value}
use matrixcache.Zoned.Device.{
  ZoneDevice, device_info, avail_bytes, zones_from, init_zones, write, read, reset_zone,
}
use matrixcache.Zoned.Group.{ZoneManager, zone_at, current_zone_index}
use matrixcache.Zoned.Monad.{after}
use matrixcache.Zoned.Appending
use matrixcache.Zoned.Appending.{DataKind}
use matrixcache.Zoned.Manager
use matrixcache.Zoned.Manager.{member, new_manager, reset_group}
use matrixcache.Zoned.Quiet.{lists}
use matrixcache.Zoned.Places.{places}
use matrixcache.Zoned.MetaLog.{Ready, Loads, append-load}
use matrixcache.Zoned.Errors.{append-error}
use matrixcache.Zoned.Reclaim.{Chosen, find_gc_group-Chosen}
use matrixcache.Zoned.Ensured.{Sound, ensured-append}
use matrixcache.Zoned.Run.{Call, step, run, run-Placed}

program : Unit {0}
unfolding le_byte le_value avail_bytes zones_from init_zones write read reset_zone after
    Appending.advance Appending.set_status Appending.write_header Appending.begin_zone
    Appending.place_meta_zone Appending.open_group Appending.open_next_group
    Appending.ensure_available_space Appending.pad_from Appending.pad Appending.write_footer
    Appending.seal_current_zone Appending.move_meta_zone Appending.append_data
    Appending.note_meta_log Appending.append_meta_log Appending.append Manager.trim_bytes
    Manager.finish_group Manager.insert_group Manager.sort_groups Manager.used_space
    Manager.free_floor Manager.find_gc_group Manager.release_group Manager.reset_group
    Manager.load_meta_data Manager.replay_group Manager.recover_from Manager.recover Manager.fits
    Manager.pick_by_footer Manager.pick_group Manager.pick_groups Manager.keep_one_free
    Manager.pick_recoverable_groups Manager.format_groups Manager.blank_manager Manager.start
    new_manager step run
program = tt

-- Three zones of four pages, blank, on a file that does not fail.
abbrev device : ZoneDevice
device = record { file = record { contents = λ i. 0; faults = [] }; info = device_info 49152 16384 }

abbrev page : Bytes
page = record { length = 4096; at = λ i. 7 }

abbrev calls : List Call
calls =
    Call.ensure_space 4096 4096
    ∷ Call.append_bytes page DataKind.data_kind
    ∷ Call.append_bytes page DataKind.meta_log
    ∷ Call.trim 4096 4096
    ∷ Call.finish
    ∷ Call.find_group
    ∷ Call.reset 0
    ∷ Call.reset 2
    ∷ Call.finish
    ∷ Call.recover_all (λ id buf n. (n + 1, n)) 7
    ∷ []

run-calls :
    lists (run calls (new_manager device false).0)
    ≡ record { current = 2; free = 0 ∷ []; gc = 1 ∷ []; recovery = [] }
unfolding program
run-calls = refl

run-Placed_example :
    places 1 (lists (run calls (new_manager device false).0)) ≡ (if ltb 1 3 then 1 else 0)
unfolding program
run-Placed_example =
    run-Placed device false calls (omega arith) refl
      (
        tt,
        (
          tt,
          (
            tt,
            (tt, (omega arith, (tt, ((λ e. refl), ((λ e. absurd (cc)), (omega arith, (tt, tt))))))),
          ),
        ),
      )
      1

-- A manager with a page of data in its first group.
abbrev filled : ZoneManager
filled =
    run (Call.ensure_space 4096 4096 ∷ Call.append_bytes page DataKind.data_kind ∷ [])
      (new_manager device false).0

filled-Ready : Ready filled
unfolding program
filled-Ready = record { placed = refl; group_in = omega arith; zone_in = omega arith }

append-load_example :
    Loads page
      (Manager.load_meta_data filled.current_group
        (Appending.append page DataKind.meta_log filled).0).1
unfolding program
append-load_example = append-load page filled 8192 filled-Ready refl refl

-- More than a zone.
abbrev big : Bytes
big = zeros 20480

append-error_example : (Appending.append big DataKind.data_kind filled).0 ≡ filled
unfolding program
append-error_example = append-error big filled invalid_config refl (λ e. cc)

-- One group is full, with a page of garbage.
abbrev one_full : ZoneManager
one_full = run (Call.trim 4096 4096 ∷ Call.finish ∷ []) filled

find_gc_group-Chosen_example :
    let found = (Manager.find_gc_group one_full).1 in
    ((is_some found ≡ true)
      ↔ ((0 < 1) × (32768 ≤ 10 * 16384) × ((32768 ≤ 4915) ⊎ (32768 ≤ 2 ^ 30))))
    × ((id : ℕ) (mode : Manager.GcMode)
        → found ≡ some (id, mode)
        → Chosen one_full.gc_list one_full id mode)
unfolding program
find_gc_group-Chosen_example =
    find_gc_group-Chosen 16384 one_full (omega arith) (omega arith) (refl, tt)

new-Sound : Sound (new_manager device false).0
unfolding program
new-Sound = record {
  ready = record { placed = refl; group_in = omega arith; zone_in = omega arith };
  unfailing = refl;
  small = omega arith;
  begun = omega arith;
  in_device = omega arith;
  in_zone = omega arith;
  meta_capacity = refl;
  meta_pointer = refl;
  one_log = refl;
}

ensured-append_example :
    let m = (new_manager device false).0 in
    let z = zone_at m (current_zone_index m) in
    let (m1, r1) =
      Appending.append page DataKind.data_kind (Appending.ensure_available_space 4096 4096 m).0 in
    let (m2, r2) = Appending.append page DataKind.meta_log m1 in
    (r1 ≡ ok z.write_pointer)
    × (r2 ≡ ok (z.write_pointer + 4096))
    × ((zone_at m2 (current_zone_index m)).write_pointer ≡ z.start + z.capacity)
unfolding program
ensured-append_example =
    ensured-append page page (new_manager device false).0 new-Sound (omega arith) (omega arith) refl
