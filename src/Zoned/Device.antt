-- ===== src/Zoned/Device.antt =====
-- src/runtime/zoned_store.rs, `Zone` and `ZoneDevice`: a file that stands for a zoned device. Each
-- access of the file may fail: the faults to come are part of its state. The path is left out.
use matrixcache.Base.{
  ℕ, zero, suc, ◌+◌, ◌*◌, ◌-◌, ◌/◌, ◌%◌, ◌==◌, List, [], ◌∷◌, not, ◌||◌, ◌&&◌, Option, none, some,
  Result, ok, err, ltb, leb, min, if◌then◌else◌, saturating_add, saturating_sub,
}
use matrixcache.Buffer.{CacheError, io, invalid_config}
use matrixcache.Zoned.Bytes.{Bytes, zeros}

abbrev pub zone_page_size : ℕ
zone_page_size = 4096

abbrev pub zone_header_magic : ℕ
zone_header_magic = 20220209

pub data ZoneStatus : Type 0 where
  empty «open» full closed offline : ZoneStatus

pub record Zone : Type 0 where
  pub start : ℕ
  pub size : ℕ
  pub capacity : ℕ
  pub write_pointer : ℕ
  pub valid_bytes : ℕ
  pub status : ZoneStatus

abbrev pub new_zone : ℕ → ℕ → ℕ → Zone
new_zone start size capacity = record {
  start = start;
  size = size;
  capacity = capacity;
  write_pointer = start;
  valid_bytes = 0;
  status = empty;
}

unfoldable pub avail_bytes : Zone → ℕ
avail_bytes z = saturating_sub z.capacity (saturating_sub z.write_pointer z.start)

abbrev pub reset_zone_state : Zone → Zone
reset_zone_state z = record z { write_pointer = z.start; valid_bytes = 0; status = empty }

-- The open file: its bytes, and how the next accesses end. `some n` is a failure, of a write after
-- `n` bytes were written; an access past the listed ones does not fail.
pub record File : Type 0 where
  pub contents : ℕ → ℕ
  pub faults : List (Option ℕ)

-- `write_all` of the first `n` bytes of a buffer at an offset.
abbrev pub overwrite : ℕ → Bytes → ℕ → (ℕ → ℕ) → ℕ → ℕ
overwrite n buf offset contents i =
    if leb offset i && ltb i (offset + n) then buf.at (i - offset) else contents i

abbrev pub file_write_at : List (Option ℕ) → Bytes → ℕ → File → File × Result CacheError (Unit {0})
file_write_at [] buf offset f =
    (record f { contents = overwrite buf.length buf offset f.contents }, ok tt)
file_write_at (none ∷ faults) buf offset f =
    (record { contents = overwrite buf.length buf offset f.contents; faults = faults }, ok tt)
file_write_at (some n ∷ faults) buf offset f = (
  record { contents = overwrite (min n buf.length) buf offset f.contents; faults = faults },
  err io,
)

-- A failed read leaves the file as it was.
abbrev pub file_read_at : List (Option ℕ) → ℕ → ℕ → File → File × Result CacheError Bytes
file_read_at [] offset len f = (f, ok (record { length = len; at = λ i. f.contents (offset + i) }))
file_read_at (none ∷ faults) offset len f =
    (record f { faults = faults }, ok (record { length = len; at = λ i. f.contents (offset + i) }))
file_read_at (some n ∷ faults) offset len f = (record f { faults = faults }, err io)

pub record ZoneDeviceInfo : Type 0 where
  pub device_size : ℕ
  pub device_capacity : ℕ
  pub page_size : ℕ
  pub zone_size : ℕ
  pub zone_capacity : ℕ
  pub zones_in_device : ℕ
  pub group_size : ℕ
  pub groups_in_device : ℕ
  pub zones_in_group : ℕ

-- The mode, always `Large`, is left out.
pub record ZoneDevice : Type 0 where
  pub file : File
  pub info : ZoneDeviceInfo

abbrev pub device_info : ℕ → ℕ → ZoneDeviceInfo
device_info capacity zone_capacity = record {
  device_size = capacity;
  device_capacity = capacity;
  page_size = zone_page_size;
  zone_size = zone_capacity;
  zone_capacity = zone_capacity;
  zones_in_device = capacity / zone_capacity;
  group_size = zone_capacity;
  groups_in_device = capacity / zone_capacity;
  zones_in_group = 1;
}

abbrev opened : Result CacheError File → ZoneDeviceInfo → Result CacheError ZoneDevice
opened (err e) info = err e
opened (ok file) info = ok (record { file = file; info = info })

-- `found` is what the operating system gives for the file, extended to its full size.
unfoldable pub open_device : Result CacheError File → ℕ → ℕ → Result CacheError ZoneDevice
open_device found capacity zone_capacity =
    if zone_capacity == 0 || not (zone_capacity % zone_page_size == 0)
    then err invalid_config
    else (if capacity == 0 || not (capacity % zone_capacity == 0)
        then err invalid_config
        else opened found (device_info capacity zone_capacity))

-- The zones from `index` on, `count` of them.
unfoldable pub zones_from : ℕ → ℕ → ZoneDeviceInfo → List Zone
zones_from zero index info = []
zones_from (suc count) index info =
    new_zone (index * info.zone_size) info.zone_size info.zone_capacity
    ∷ zones_from count (index + 1) info

unfoldable pub init_zones : ZoneDevice → List Zone
init_zones d = zones_from d.info.zones_in_device 0 d.info

abbrev with_file :
    {A : Type 0} → File × Result CacheError A → ZoneDevice → ZoneDevice × Result CacheError A
with_file (file, r) d = (record d { file = file }, r)

unfoldable pub write : Bytes → ℕ → ZoneDevice → ZoneDevice × Result CacheError (Unit {0})
write buf offset d =
    if ltb d.info.device_capacity (saturating_add offset buf.length)
    then (d, err invalid_config)
    else with_file (file_write_at d.file.faults buf offset d.file) d

unfoldable pub read : ℕ → ℕ → ZoneDevice → ZoneDevice × Result CacheError Bytes
read offset len d =
    if ltb d.info.device_capacity (saturating_add offset len)
    then (d, err invalid_config)
    else with_file (file_read_at d.file.faults offset len d.file) d

-- `open_zone` and `close_zone` do nothing on a file.
abbrev pub open_zone : ℕ → ZoneDevice → ZoneDevice × Result CacheError (Unit {0})
open_zone offset d = (d, ok tt)

abbrev pub close_zone : ℕ → ZoneDevice → ZoneDevice × Result CacheError (Unit {0})
close_zone offset d = (d, ok tt)

unfoldable pub reset_zone : ℕ → ZoneDevice → ZoneDevice × Result CacheError (Unit {0})
reset_zone offset d = write (zeros d.info.zone_capacity) offset d
