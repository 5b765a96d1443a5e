-- ===== src/Zoned/Past.antt =====
-- src/runtime/zoned_store.rs: what lies behind a zone's write pointer stays as it is while the zone is
-- filled up.
use matrixcache.Base.{
  arith, ℕ, zero, suc, ◌-◌, ◌<◌, ◌^◌, ◌≡◌, sym, ◌∙◌, List, [], ◌∷◌, length, min, ltb, Option, none,
  some, length-set, get_or-set, saturating_sub, Bool-cases, inl, inr,
}
use mathlib.Core.Path.{subst}
use matrixcache.Zoned.Bytes.{Bytes, zeros, stamp}
use matrixcache.Zoned.Device.{
  File, ZoneDevice, ZoneDeviceInfo, ZoneStatus, avail_bytes, full, Zone, new_zone, file_write_at,
  write,
}
use matrixcache.Zoned.Group.{
  ZoneGroup, ZoneManager, zone_at, group_at, put_zone, current_zone_index,
}
use matrixcache.Zoned.Monad.{◌>>◌, on_device, modify}
use matrixcache.Zoned.Rules.{Keeps, after-Keeps, >>=-Keeps}
use matrixcache.Zoned.Appending.{
  advance, set_status, pad_from, pad, write_footer, seal_current_zone,
}

-- A byte of the file before the write pointer of zone `i`.
pub record Past (p i byte : ℕ) (groups : List ZoneGroup) (info : ZoneDeviceInfo) (s : ZoneManager)
    : Type 0 where
  pub same_byte : s.device.file.contents p ≡ byte
  pub behind : p < (zone_at s i).write_pointer
  pub inside : i < length s.zones
  pub same_groups : s.groups ≡ groups
  pub same_info : s.device.info ≡ info

file_write_at-below :
    (faults : List (Option ℕ)) (buf : Bytes) (offset p : ℕ) (f : File)
    → p < offset
    → (file_write_at faults buf offset f).0.contents p ≡ f.contents p
file_write_at-below [] buf offset p f h = ground arith
file_write_at-below (none ∷ faults) buf offset p f h = ground arith
file_write_at-below (some n ∷ faults) buf offset p f h = ground arith

pub write-below :
    (buf : Bytes) (offset p : ℕ) (d : ZoneDevice)
    → p < offset
    → (write buf offset d).0.file.contents p ≡ d.file.contents p
unfolding write
write-below buf offset p d h =
    ground (arith, file_write_at-below d.file.faults buf offset p d.file h)

pub write-info : (buf : Bytes) (offset : ℕ) (d : ZoneDevice) → (write buf offset d).0.info ≡ d.info
unfolding write
write-info buf offset d = ground arith

module _ (p i byte : ℕ) (groups : List ZoneGroup) (info : ZoneDeviceInfo) where
  write-Past :
      (buf : Bytes) (s : ZoneManager)
      → Past p i byte groups info s
      → Past p i byte groups info (on_device (write buf (zone_at s i).write_pointer) s).0
  write-Past buf s h = record {
    same_byte = write-below buf (zone_at s i).write_pointer p s.device h.behind ∙ h.same_byte;
    behind = h.behind;
    inside = h.inside;
    same_groups = h.same_groups;
    same_info = write-info buf (zone_at s i).write_pointer s.device ∙ h.same_info;
  }

  put_zone-Past :
      (z : Zone) (s : ZoneManager)
      → Past p i byte groups info s
      → p < z.write_pointer
      → Past p i byte groups info (put_zone i z s)
  put_zone-Past z s h b = record {
    same_byte = h.same_byte;
    behind =
        subst (λ w. p < w.write_pointer) (sym (get_or-set s.zones i z (new_zone 0 0 0) h.inside)) b;
    inside = omega (arith, h.inside, length-set s.zones i z);
    same_groups = h.same_groups;
    same_info = h.same_info;
  }

  advance-Past :
      (size valid : ℕ) (s : ZoneManager)
      → Past p i byte groups info s
      → Past p i byte groups info (advance i size valid s)
  unfolding advance
  advance-Past size valid s h = put_zone-Past _ s h (omega (arith, h.behind))

  set_status-Past :
      (status : ZoneStatus) (s : ZoneManager)
      → Past p i byte groups info s
      → Past p i byte groups info (set_status i status s)
  unfolding set_status
  set_status-Past status s h = put_zone-Past _ s h h.behind

  pad_from-Past :
      (fuel chunk left : ℕ) → Keeps (Past p i byte groups info) (pad_from fuel i chunk left)
  unfolding pad_from
  pad_from-Past zero chunk left m h = h
  pad_from-Past (suc fuel) chunk left m h =
      let take = min chunk left in
      let w = on_device (write (zeros take) (zone_at m i).write_pointer) m in
      elim (Bool-cases (ltb 0 left)) [
        | inl e ↦ rw e (
            after-Keeps w.1 (λ u. modify (advance i take 0) >> pad_from fuel i chunk (left - take))
              w.0 (Past p i byte groups info)
              (λ u.
                >>=-Keeps (modify (advance i take 0)) (λ v. pad_from fuel i chunk (left - take))
                  (Past p i byte groups info) (advance-Past take 0)
                  (λ v. pad_from-Past fuel chunk (left - take)))
              (write-Past (zeros take) m h))
        | inr e ↦ rw e h
      ]

  write_footer-Past : (group : ZoneGroup) → Keeps (Past p i byte groups info) (write_footer i group)
  unfolding write_footer
  write_footer-Past group m h =
      let w =
        on_device
          (write (stamp m.footer_size group.meta_offset group.meta_size)
            (zone_at m i).write_pointer)
          m in
      after-Keeps w.1
        (λ u. modify (advance i m.footer_size m.footer_size) >> modify (set_status i full)) w.0
        (Past p i byte groups info)
        (λ u.
          >>=-Keeps (modify (advance i m.footer_size m.footer_size))
            (λ v. modify (set_status i full)) (Past p i byte groups info)
            (advance-Past m.footer_size m.footer_size) (λ v. set_status-Past full))
        (write-Past _ m h)

  pub seal_current_zone-Past :
      (m : ZoneManager)
      → current_zone_index m ≡ i
      → Past p i byte groups info m
      → Past p i byte groups info (seal_current_zone m).0
  unfolding seal_current_zone pad
  seal_current_zone-Past m e h =
      let left = saturating_sub (avail_bytes (zone_at m i)) m.footer_size in
      rw e (
        >>=-Keeps (pad i left) (λ u. write_footer i (group_at m m.current_group))
          (Past p i byte groups info) (pad_from-Past left (min (2 ^ 20) left) left)
          (λ u. write_footer-Past (group_at m m.current_group)) m h)
