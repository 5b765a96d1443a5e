-- ===== src/Zoned/MetaLog.antt =====
-- src/runtime/zoned_store.rs: a metadata log that was appended is read back by `load_meta_data`.
use matrixcache.Base.{
  arith, ℕ, ◌+◌, ◌-◌, ◌<◌, ◌≡◌, refl, sym, ap, ◌∙◌, List, [], ◌∷◌, length, ltb, leb, Option, none,
  some, Result, ok, err, if◌then◌else◌, length-set, get_or-set, get_or, saturating_add, false, not,
  ◌==◌,
}
use mathlib.Core.Path.{subst}
use matrixcache.Buffer.{CacheError, invalid_config, capacity_exceeded}
use matrixcache.Zoned.Bytes.{Bytes}
use matrixcache.Zoned.Device.{
  File, ZoneDevice, ZoneDeviceInfo, Zone, avail_bytes, new_zone, overwrite, file_write_at, write,
  read,
}
use matrixcache.Zoned.Group.{
  ZoneGroup, new_group, ZoneManager, zone_at, group_at, current_zone_index,
}
use matrixcache.Zoned.Monad.{M, ◌>>=◌, ◌>>◌, modify, pure, after}
use matrixcache.Zoned.Rules.{if-result, after-Gives, after-Keeps}
use matrixcache.Zoned.Appending.{
  advance, seal_current_zone, note_meta_log, append_meta_log, append, meta_log,
}
use matrixcache.Zoned.Manager.{load_meta_data}
use matrixcache.Zoned.Past.{Past, write-info, seal_current_zone-Past}

-- The metadata region begins where the data written so far ends, and the current group is one of
-- the manager's, on one of its zones.
pub record Ready (m : ZoneManager) : Type 0 where
  pub placed : m.meta_zone.start ≡ (zone_at m (current_zone_index m)).write_pointer
  pub group_in : m.current_group < length m.groups
  pub zone_in : current_zone_index m < length m.zones

-- A result that is a buffer of the same length and bytes.
pub record Loads (buf : Bytes) (r : Result CacheError Bytes) : Type 0 where
  pub log : Bytes
  pub loaded : r ≡ ok log
  pub same_length : log.length ≡ buf.length
  pub same_bytes : (k : ℕ) → k < buf.length → log.at k ≡ buf.at k

overwrite-inside :
    (buf : Bytes) (offset k : ℕ) (contents : ℕ → ℕ)
    → k < buf.length
    → overwrite buf.length buf offset contents (offset + k) ≡ buf.at k
overwrite-inside buf offset k contents h =
    let place : offset + k - offset ≡ k = omega arith in ground (arith, ap buf.at place)

file_write_at-ok :
    (faults : List (Option ℕ)) (buf : Bytes) (offset k : ℕ) (f : File)
    → (file_write_at faults buf offset f).1 ≡ ok tt
    → k < buf.length
    → (file_write_at faults buf offset f).0.contents (offset + k) ≡ buf.at k
file_write_at-ok [] buf offset k f e h = overwrite-inside buf offset k f.contents h
file_write_at-ok (none ∷ faults) buf offset k f e h = overwrite-inside buf offset k f.contents h
file_write_at-ok (some n ∷ faults) buf offset k f e h = cc

write-fits :
    (buf : Bytes) (offset : ℕ) (d : ZoneDevice)
    → (write buf offset d).1 ≡ ok tt
    → ltb d.info.device_capacity (saturating_add offset buf.length) ≡ false
unfolding write
write-fits buf offset d e = ground arith

write-ok :
    (buf : Bytes) (offset k : ℕ) (d : ZoneDevice)
    → k < buf.length
    → (write buf offset d).1 ≡ ok tt
    → (write buf offset d).0.file.contents (offset + k) ≡ buf.at k
unfolding write
write-ok buf offset k d h e =
    if-result (ltb d.info.device_capacity (saturating_add offset buf.length)) _ _
      (λ t. t.file.contents (offset + k) ≡ buf.at k) tt (λ q. absurd (cc))
      (λ q. file_write_at-ok d.file.faults buf offset k d.file q h) e

-- The group of a manager after it noted its metadata log.
pub note_meta_log-group :
    (offset size : ℕ) (m : ZoneManager)
    → m.current_group < length m.groups
    → group_at (note_meta_log offset size m) m.current_group
      ≡ record (group_at m m.current_group) { meta_offset = offset; meta_size = size }
unfolding note_meta_log advance
note_meta_log-group offset size m h = get_or-set m.groups m.current_group _ (new_group 0 0 0) h

-- The manager once the log is written and noted.
noted : Bytes → ZoneManager → ZoneManager
noted buf m =
    note_meta_log m.meta_zone.start buf.length
      (record m { device = (write buf m.meta_zone.start m.device).0 })

noted-zone_index :
    (buf : Bytes) (m : ZoneManager)
    → Ready m
    → current_zone_index (noted buf m) ≡ current_zone_index m
unfolding noted note_meta_log advance
noted-zone_index buf m r =
    ap (λ g. g.zone_index)
      (note_meta_log-group m.meta_zone.start buf.length
        (record m { device = (write buf m.meta_zone.start m.device).0 }) r.group_in)

noted-length : (buf : Bytes) (m : ZoneManager) → length (noted buf m).groups ≡ length m.groups
unfolding noted note_meta_log advance
noted-length buf m = length-set m.groups m.current_group _

noted-Past :
    (buf : Bytes) (k : ℕ) (m : ZoneManager)
    → Ready m
    → k < buf.length
    → (write buf m.meta_zone.start m.device).1 ≡ ok tt
    → Past
        (m.meta_zone.start + k)
        (current_zone_index m)
        (buf.at k)
        (noted buf m).groups
        m.device.info
        (noted buf m)
unfolding noted note_meta_log advance
noted-Past buf k m r h e =
    let i = current_zone_index m in
    let z = zone_at m i in
    let z' : Zone = record z {
      write_pointer = z.write_pointer + buf.length;
      valid_bytes = z.valid_bytes + 0;
    } in
    record {
      same_byte = write-ok buf m.meta_zone.start k m.device h e;
      behind =
          subst (λ w. m.meta_zone.start + k < w.write_pointer)
            (sym (get_or-set m.zones i z' (new_zone 0 0 0) r.zone_in)) (omega (arith, r.placed));
      inside = omega (arith, r.zone_in, length-set m.zones i z');
      same_groups = refl;
      same_info = write-info buf m.meta_zone.start m.device;
    }

unappendable-Past :
    (p i byte : ℕ) (groups : List ZoneGroup) (info : ZoneDeviceInfo) (s : ZoneManager)
    → Past p i byte groups info s
    → Past p i byte groups info (record s { meta_appendable = false })
unappendable-Past p i byte groups info s h = record {
  same_byte = h.same_byte;
  behind = h.behind;
  inside = h.inside;
  same_groups = h.same_groups;
  same_info = h.same_info;
}

append_meta_log-Past :
    (buf : Bytes) (k : ℕ) (m : ZoneManager)
    → Ready m
    → k < buf.length
    → (offset : ℕ) → (append_meta_log buf m).1 ≡ ok offset
    → Past
        (m.meta_zone.start + k)
        (current_zone_index m)
        (buf.at k)
        (noted buf m).groups
        m.device.info
        (append_meta_log buf m).0
unfolding append_meta_log after noted
append_meta_log-Past buf k m r h offset e =
    let start = m.meta_zone.start in
    let i = current_zone_index m in
    let w = write buf start m.device in
    let s : ZoneManager = record m { device = w.0 } in
    let t = noted buf m in
    let Q : ZoneManager → Type 0 = Past (start + k) i (buf.at k) t.groups m.device.info in
    let finish : M ℕ =
      seal_current_zone >>= λ u. modify (λ v. record v { meta_appendable = false }) >> pure start in
    if-result (not m.meta_appendable) (m, err invalid_config)
      (if ltb (avail_bytes m.meta_zone) buf.length
        then (m, err capacity_exceeded)
        else after w.1 (λ u v. finish (note_meta_log start buf.length v)) s)
      Q offset (λ q. absurd (cc))
      (if-result (ltb (avail_bytes m.meta_zone) buf.length) (m, err capacity_exceeded)
        (after w.1 (λ u v. finish (note_meta_log start buf.length v)) s) Q offset (λ q. absurd (cc))
        (after-Gives w.1 (λ u v. finish (note_meta_log start buf.length v)) s
          (λ v. (s ≡ v) × (w.1 ≡ ok tt)) Q (λ u q. (refl, q))
          (λ u v p b q.
            subst (λ v. Q (finish (note_meta_log start buf.length v)).0) p.0
              (after-Keeps (seal_current_zone t).1
                (λ u. modify (λ v. record v { meta_appendable = false }) >> pure start)
                (seal_current_zone t).0 Q
                (λ u v h. unappendable-Past (start + k) i (buf.at k) t.groups m.device.info v h)
                (seal_current_zone-Past (start + k) i (buf.at k) t.groups m.device.info t
                  (noted-zone_index buf m r) (noted-Past buf k m r h p.1))))
          offset))
      e

-- Past the checks of its size, `append` of a log is `append_meta_log`.
append-inner :
    (buf : Bytes) (m : ZoneManager) (offset : ℕ)
    → (append buf meta_log m).1 ≡ ok offset
    → (append buf meta_log m ≡ append_meta_log buf m) × (0 < buf.length)
unfolding append
append-inner buf m offset e = ground arith

append_meta_log-wrote :
    (buf : Bytes) (m : ZoneManager) (offset : ℕ)
    → (append_meta_log buf m).1 ≡ ok offset
    → (write buf m.meta_zone.start m.device).1 ≡ ok tt
unfolding append_meta_log after
append_meta_log-wrote buf m offset e = ground arith

load_meta_data-reads :
    (id offset size : ℕ) (m : ZoneManager)
    → id < length m.groups
    → (group_at m id).meta_offset ≡ offset
    → (group_at m id).meta_size ≡ size
    → 0 < size
    → ltb m.device.info.device_capacity (saturating_add offset size) ≡ false
    → m.device.file.faults ≡ []
    → (load_meta_data id m).1
      ≡ ok (record { length = size; at = λ i. m.device.file.contents (offset + i) })
unfolding load_meta_data read
load_meta_data-reads id offset size m inside at_offset of_size positive fits sound =
    let grouped : leb (length m.groups) id ≡ false = ground (arith, inside) in
    let sized : (size == 0) ≡ false = ground (arith, positive) in
    rw (grouped, at_offset, of_size, sized, fits, sound) refl

-- For a manager whose metadata region begins where its data ends, a metadata log that `append` takes
-- is what `load_meta_data` reads back for the group, byte for byte, as long as that read does not
-- fail: neither the padding nor the footer touches it.
pub append-load :
    (buf : Bytes) (m : ZoneManager) (offset : ℕ)
    → Ready m
    → (append buf meta_log m).1 ≡ ok offset
    → (append buf meta_log m).0.device.file.faults ≡ []
    → Loads buf (load_meta_data m.current_group (append buf meta_log m).0).1
unfolding noted
append-load buf m offset r e sound =
    let (inner, positive) = append-inner buf m offset e in
    let done = (append_meta_log buf m).0 in
    let e' : (append_meta_log buf m).1 ≡ ok offset = sym (ap (λ t. t.1) inner) ∙ e in
    let sound' : done.device.file.faults ≡ [] =
      sym (ap (λ t. t.0.device.file.faults) inner) ∙ sound in
    let start = m.meta_zone.start in
    let first = append_meta_log-Past buf 0 m r positive offset e' in
    let id = m.current_group in
    let group : group_at done id
        ≡ record (group_at m id) { meta_offset = start; meta_size = buf.length } =
      ap (λ gs. get_or gs id (new_group 0 0 0)) first.same_groups
      ∙ note_meta_log-group start buf.length (record m { device = (write buf start m.device).0 })
          r.group_in in
    let inside : id < length done.groups =
      omega (arith, r.group_in, ap length first.same_groups, noted-length buf m) in
    let fits : ltb done.device.info.device_capacity (saturating_add start buf.length) ≡ false =
      ap (λ t. ltb t.device_capacity (saturating_add start buf.length)) first.same_info
      ∙ write-fits buf start m.device (append_meta_log-wrote buf m offset e') in
    subst (λ t. Loads buf (load_meta_data id t.0).1) (sym inner)
      (record {
        log = record { length = buf.length; at = λ i. done.device.file.contents (start + i) };
        loaded =
            load_meta_data-reads id start buf.length done inside (ap (λ g. g.meta_offset) group)
              (ap (λ g. g.meta_size) group) positive fits sound';
        same_length = refl;
        same_bytes = λ k h. (append_meta_log-Past buf k m r h offset e').same_byte;
      })
