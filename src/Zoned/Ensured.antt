-- ===== src/Zoned/Ensured.antt =====
-- src/runtime/zoned_store.rs: appends that `ensure_available_space` allowed do not fail.
use matrixcache.Base.{
  arith, ℕ, ◌+◌, ◌<◌, ◌≤◌, ◌^◌, ◌≡◌, refl, sym, ap, ◌∙◌, [], length, ltb, ok, true, false, not,
  ◌==◌, ◌%◌, get_or,
}
use mathlib.Core.Path.{subst, ap₂}
use matrixcache.Zoned.Bytes.{Bytes}
use matrixcache.Zoned.Device.{«open», avail_bytes, new_zone, write}
use matrixcache.Zoned.Group.{
  new_group, ZoneManager, zone_at, group_at, put_group, current_zone_index,
}
use matrixcache.Zoned.Monad.{M, ◌>>=◌, ◌>>◌, after, on_device, modify, pure}
use matrixcache.Zoned.Appending.{
  advance, set_status, move_meta_zone, seal_current_zone, append_data, note_meta_log,
  append_meta_log, append, data_kind, meta_log, DataKind, append_kind, ensure_available_space,
  whole_pages,
}
use matrixcache.Zoned.MetaLog.{Ready, note_meta_log-group}
use matrixcache.Zoned.Filling.{
  Filled, write-Filled, advance-Filled, set_status-Filled, seal_current_zone-Filled,
}

-- A group in use on a device that does not fail: its zone lies in the device, and its metadata region
-- begins where the data ends.
pub record Sound (m : ZoneManager) : Type 0 where
  pub ready : Ready m
  pub unfailing : m.device.file.faults ≡ []
  pub small : m.device.info.device_capacity < 2 ^ 63
  pub begun :
      (zone_at m (current_zone_index m)).start ≤ (zone_at m (current_zone_index m)).write_pointer
  pub in_device :
      (zone_at m (current_zone_index m)).start + (zone_at m (current_zone_index m)).capacity
      ≤ m.device.info.device_capacity
  pub in_zone : (zone_at m (current_zone_index m)).capacity ≤ m.device.info.zone_size
  pub meta_capacity : m.meta_zone.capacity ≡ (zone_at m (current_zone_index m)).capacity
  pub meta_pointer : m.meta_zone.write_pointer ≡ m.meta_zone.start
  pub one_log : m.meta_appendable ≡ true

-- The state between the append of data and that of the log.
record Between (i pointer : ℕ) (s t : ZoneManager) : Type 0 where
  filled : Filled i pointer s t
  current : t.current_group ≡ s.current_group
  groups : t.groups ≡ s.groups
  meta_start : t.meta_zone.start ≡ pointer
  meta_capacity : t.meta_zone.capacity ≡ s.meta_zone.capacity
  meta_pointer : t.meta_zone.write_pointer ≡ t.meta_zone.start
  one_log : t.meta_appendable ≡ s.meta_appendable
  ensured : t.ensured ≡ s.ensured

append_data-Between :
    (buf : Bytes) (m : ZoneManager)
    → Sound m
    → let i = current_zone_index m in
      let z = zone_at m i in
      z.write_pointer + buf.length ≤ z.start + z.capacity
      → ((append_data buf m).1 ≡ ok z.write_pointer)
        × Between i (z.write_pointer + buf.length) m (append_data buf m).0
unfolding append_data after advance set_status move_meta_zone avail_bytes
append_data-Between buf m h fits =
    let i = current_zone_index m in
    let z = zone_at m i in
    let n = buf.length in
    let pointer = z.write_pointer in
    let roomy : ltb (avail_bytes z) n ≡ false = ground (arith, fits, h.begun) in
    let base : Filled i pointer m m = record {
      sound = h.unfailing;
      written = refl;
      inside = h.ready.zone_in;
      same_start = refl;
      same_capacity = refl;
      same_info = refl;
      same_footer = refl;
    } in
    let w = on_device (write buf pointer) m in
    let wrote =
      write-Filled i m (omega (arith, h.small)) buf pointer m base
        (omega (arith, fits, h.in_device)) in
    let v : ZoneManager = w.0 in
    let b =
      set_status-Filled i m (omega (arith, h.small)) «open» (pointer + n) (advance i n n v)
        (advance-Filled i m (omega (arith, h.small)) n n pointer v wrote.1) in
    let f : Unit {0} → M ℕ = λ u.
      modify (advance i n n)
      >> (modify (set_status i «open») >> (modify (move_meta_zone i) >> pure pointer)) in
    rw roomy (
      subst (λ t. ((after t f v).1 ≡ ok pointer) × Between i (pointer + n) m (after t f v).0)
        (sym wrote.0)
        (
          refl,
          record {
            filled = record {
              sound = b.sound;
              written = b.written;
              inside = b.inside;
              same_start = b.same_start;
              same_capacity = b.same_capacity;
              same_info = b.same_info;
              same_footer = b.same_footer;
            };
            current = refl;
            groups = refl;
            meta_start = b.written;
            meta_capacity = refl;
            meta_pointer = refl;
            one_log = refl;
            ensured = refl;
          },
        ))

-- A manager that differs from one of a filled zone in what is kept of groups and metadata.
refilled :
    (i pointer : ℕ) (s t u : ZoneManager)
    → Filled i pointer s t
    → u.device ≡ t.device
    → u.zones ≡ t.zones
    → u.footer_size ≡ t.footer_size
    → Filled i pointer s u
refilled i pointer s t u h ed ez ef = record {
  sound = ap (λ d. d.file.faults) ed ∙ h.sound;
  written = ap (λ zs. (get_or zs i (new_zone 0 0 0)).write_pointer) ez ∙ h.written;
  inside = omega (arith, h.inside, ap length ez);
  same_start = ap (λ zs. (get_or zs i (new_zone 0 0 0)).start) ez ∙ h.same_start;
  same_capacity = ap (λ zs. (get_or zs i (new_zone 0 0 0)).capacity) ez ∙ h.same_capacity;
  same_info = ap (λ d. d.info) ed ∙ h.same_info;
  same_footer = ef ∙ h.same_footer;
}

noted-Filled :
    (i offset size pointer : ℕ) (s t : ZoneManager)
    → s.device.info.device_capacity < 2 ^ 64
    → Filled i pointer s t
    → current_zone_index t ≡ i
    → Filled i (pointer + size) s (note_meta_log offset size t)
unfolding note_meta_log
noted-Filled i offset size pointer s t small h e =
    let v : ZoneManager =
      put_group t.current_group
        (record (group_at t t.current_group) { meta_offset = offset; meta_size = size })
        (record t {
          meta_zone = record (t.meta_zone) { valid_bytes = t.meta_zone.valid_bytes + size };
        }) in
    subst (λ j. Filled i (pointer + size) s (advance j size 0 v)) (sym e)
      (advance-Filled i s small size 0 pointer v (refilled i pointer s t v h refl refl refl))

note_meta_log-index :
    (offset size : ℕ) (t : ZoneManager)
    → t.current_group < length t.groups
    → current_zone_index (note_meta_log offset size t) ≡ current_zone_index t
unfolding note_meta_log advance
note_meta_log-index offset size t h = ap (λ g. g.zone_index) (note_meta_log-group offset size t h)

-- The log, behind the data.
append_meta_log-Filled :
    (buf : Bytes) (pointer : ℕ) (m t : ZoneManager)
    → Sound m
    → let i = current_zone_index m in
      let z = zone_at m i in
      Between i pointer m t
      → z.start ≤ pointer
      → pointer + buf.length + m.footer_size ≤ z.start + z.capacity
      → ((append_meta_log buf t).1 ≡ ok t.meta_zone.start)
        × Filled i (z.start + z.capacity) m (append_meta_log buf t).0
unfolding append_meta_log after avail_bytes
append_meta_log-Filled buf pointer m t h b begun fits =
    let i = current_zone_index m in
    let z = zone_at m i in
    let n = buf.length in
    let start = t.meta_zone.start in
    let end = z.start + z.capacity in
    let appendable : not t.meta_appendable ≡ false = ap not (b.one_log ∙ h.one_log) in
    let roomy : ltb (avail_bytes t.meta_zone) n ≡ false =
      ground (arith, fits, begun, b.meta_pointer, b.meta_capacity, h.meta_capacity) in
    let at_zone : start ≡ (zone_at t i).write_pointer = b.meta_start ∙ sym b.filled.written in
    let wrote : let w = on_device (write buf start) t in (w.1 ≡ ok tt) × Filled i pointer m w.0 =
      subst (λ o. let w = on_device (write buf o) t in (w.1 ≡ ok tt) × Filled i pointer m w.0)
        (sym at_zone)
        (write-Filled i m (omega (arith, h.small)) buf pointer t b.filled
          (omega (arith, fits, h.in_device))) in
    let v : ZoneManager = (on_device (write buf start) t).0 in
    let index : current_zone_index t ≡ i =
      ap₂ (λ gs c. (get_or gs c (new_group 0 0 0)).zone_index) b.groups b.current in
    let noted = note_meta_log start n v in
    let noted_index : current_zone_index noted ≡ i =
      note_meta_log-index start n v (omega (arith, h.ready.group_in, b.current, ap length b.groups))
      ∙ index in
    let sealed =
      seal_current_zone-Filled i m (omega (arith, h.small)) (pointer + n) noted
        (noted-Filled i start n pointer m v (omega (arith, h.small)) wrote.1 index) noted_index
        (omega arith) fits h.in_device in
    let g : Unit {0} → M ℕ =
      λ u. modify (λ s. record s { meta_appendable = false }) >> pure start in
    let f : Unit {0} → M ℕ = λ u. modify (note_meta_log start n) >> (seal_current_zone >>= g) in
    rw (appendable, roomy)
      (subst (λ r. ((after r f v).1 ≡ ok start) × Filled i end m (after r f v).0) (sym wrote.0)
        (subst
          (λ r.
            let u = after r g (seal_current_zone noted).0 in (u.1 ≡ ok start) × Filled i end m u.0)
          (sym sealed.0)
          (
            refl,
            refilled i end m (seal_current_zone noted).0
                (record ((seal_current_zone noted).0) { meta_appendable = false }) sealed.1 refl
                refl refl,
          )))

ensured-Sound : (m : ZoneManager) → Sound m → Sound (record m { ensured = true })
ensured-Sound m h = record {
  ready = record {
    placed = h.ready.placed;
    group_in = h.ready.group_in;
    zone_in = h.ready.zone_in;
  };
  unfailing = h.unfailing;
  small = h.small;
  begun = h.begun;
  in_device = h.in_device;
  in_zone = h.in_zone;
  meta_capacity = h.meta_capacity;
  meta_pointer = h.meta_pointer;
  one_log = h.one_log;
}

-- What `ensure_available_space` says when it allows an append.
ensured-fits :
    (data_size meta_size : ℕ) (m : ZoneManager)
    → Sound m
    → 0 < data_size
    → (ensure_available_space data_size meta_size m).1 ≡ true
    → let z = zone_at m (current_zone_index m) in
      (z.write_pointer + (data_size + meta_size) + m.footer_size ≤ z.start + z.capacity)
      × (whole_pages data_size m ≡ true)
      × (whole_pages meta_size m ≡ true)
unfolding ensure_available_space avail_bytes
ensured-fits data_size meta_size m h some e = ground (arith, h.begun, h.small, h.in_device)

-- Past its guards, `append` is the append of its kind.
append_kind-eq :
    (buf : Bytes) (kind : DataKind) (m : ZoneManager)
    → 0 < buf.length
    → whole_pages buf.length m ≡ true
    → buf.length ≤ m.device.info.zone_size
    → m.ensured ≡ true
    → append buf kind m ≡ append_kind kind buf m
unfolding append
append_kind-eq buf kind m some pages fits e = ground (arith, some, pages, fits, e)

-- After `ensure_available_space` allowed so many bytes of data and of metadata, an append of that
-- data and then one of that log both succeed, the log right behind the data, and leave the zone
-- written to its last byte. The device does not fail, and has less than 2 ^ 63 bytes.
pub ensured-append :
    (block log : Bytes) (m : ZoneManager)
    → Sound m
    → 0 < block.length
    → 0 < log.length
    → (ensure_available_space block.length log.length m).1 ≡ true
    → let z = zone_at m (current_zone_index m) in
      let (m1, r1) = append block data_kind (ensure_available_space block.length log.length m).0 in
      let (m2, r2) = append log meta_log m1 in
      (r1 ≡ ok z.write_pointer)
      × (r2 ≡ ok (z.write_pointer + block.length))
      × ((zone_at m2 (current_zone_index m)).write_pointer ≡ z.start + z.capacity)
unfolding ensure_available_space
ensured-append block log m h some some_log e =
    let m0 : ZoneManager = record m { ensured = true } in
    let h0 : Sound m0 = ensured-Sound m h in
    let i = current_zone_index m in
    let z = zone_at m i in
    let fits = ensured-fits block.length log.length m h some e in
    let b = append_data-Between block m0 h0 (omega (arith, fits.0)) in
    let m1 = (append_data block m0).0 in
    let b1 =
      append_kind-eq block data_kind m0 some fits.1 (omega (arith, fits.0, h.in_zone, h.begun))
        refl in
    let l =
      append_meta_log-Filled log (z.write_pointer + block.length) m0 m1 h0 b.1
        (omega (arith, h.begun)) (omega (arith, fits.0)) in
    let l1 =
      append_kind-eq log meta_log m1 some_log
        (ap (λ d. log.length % d.page_size == 0) b.1.filled.same_info ∙ fits.2)
        (omega (arith, fits.0, h.in_zone, h.begun, ap (λ d. d.zone_size) b.1.filled.same_info))
        b.1.ensured in
    subst
      (λ t.
        (t.1 ≡ ok z.write_pointer)
        × ((append log meta_log t.0).1 ≡ ok (z.write_pointer + block.length))
        × ((zone_at (append log meta_log t.0).0 i).write_pointer ≡ z.start + z.capacity))
      (sym b1)
      (
        b.0,
        ap (λ t. t.1) l1 ∙ (l.0 ∙ ap ok b.1.meta_start),
        ap (λ t. (zone_at t.0 i).write_pointer) l1 ∙ l.1.written,
      )
