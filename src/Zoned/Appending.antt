-- ===== src/Zoned/Appending.antt =====
-- src/runtime/zoned_store.rs, `ZoneManager`: how a group is opened, filled and sealed.
use matrixcache.Base.{
  ℕ, zero, suc, ◌+◌, ◌-◌, ◌%◌, ◌^◌, ◌==◌, List, [], ◌∷◌, Bool, true, false, not, ◌||◌, ◌&&◌, ltb,
  leb, min, if◌then◌else◌, saturating_add, saturating_sub,
}
use matrixcache.Buffer.{capacity_exceeded, invalid_config}
use matrixcache.Zoned.Bytes.{Bytes, zeros, stamp}
use matrixcache.Zoned.Device.{
  ZoneStatus, «open», full, zone_header_magic, new_zone, avail_bytes, reset_zone_state, write,
  open_zone,
}
use matrixcache.Zoned.Monad.{M, ◌>>◌, pure, fail, modify, on_device}
use matrixcache.Zoned.Group.{
  ZoneGroup, ZoneManager, zone_at, group_at, put_zone, put_group, current_zone_index,
}

-- Whether a number of bytes is a whole number of pages.
abbrev pub whole_pages : ℕ → ZoneManager → Bool
whole_pages size m = size % m.device.info.page_size == 0

-- Moves a zone's write pointer past what was written, as part of its valid bytes or as padding.
unfoldable pub advance : ℕ → ℕ → ℕ → ZoneManager → ZoneManager
advance i size valid m =
    let z = zone_at m i in
    put_zone i
      (record z { write_pointer = z.write_pointer + size; valid_bytes = z.valid_bytes + valid }) m

unfoldable pub set_status : ℕ → ZoneStatus → ZoneManager → ZoneManager
set_status i status m = put_zone i (record (zone_at m i) { status = status }) m

unfoldable pub write_header : ℕ → M (Unit {0})
write_header i m =
    (do
      on_device
          (write (stamp m.header_size m.sequence zone_header_magic) (zone_at m i).write_pointer)
      modify (advance i m.header_size m.header_size))
      m

-- The zone of a group that is opened: empty, and open.
unfoldable pub begin_zone : ℕ → ZoneManager → ZoneManager
begin_zone i m =
    put_zone i (record (reset_zone_state (zone_at m i)) { status = «open» })
      (record m { sequence = m.sequence + 1 })

unfoldable pub place_meta_zone : ℕ → ZoneManager → ZoneManager
place_meta_zone i m =
    let z = zone_at m i in
    record m { meta_zone = new_zone z.write_pointer z.capacity z.capacity; meta_appendable = true }

unfoldable pub open_group : List ℕ → M (Unit {0})
open_group [] m = fail capacity_exceeded m
open_group (group_id ∷ rest) m =
    let i = (group_at m group_id).zone_index in
    (do
      modify (λ s. record s { free_list = rest; current_group = group_id })
      on_device (open_zone (zone_at m i).start)
      modify (begin_zone i)
      write_header i
      modify (place_meta_zone i))
      m

unfoldable pub open_next_group : M (Unit {0})
open_next_group m = open_group m.free_list m

-- The manager, and whether the space is there. It is marked as ensured in any case.
unfoldable pub ensure_available_space : ℕ → ℕ → ZoneManager → ZoneManager × Bool
ensure_available_space data_size meta_size m =
    let needed = saturating_add data_size meta_size in
    let zone = zone_at m (current_zone_index m) in
    (
      record m { ensured = true },
      whole_pages data_size m
          && whole_pages meta_size m
          && leb needed (saturating_sub (avail_bytes zone) m.footer_size),
    )

-- The loop that pads a zone with chunks of zeros, `left` bytes in all, on fuel.
unfoldable pub pad_from : ℕ → ℕ → ℕ → ℕ → M (Unit {0})
pad_from zero i chunk left m = pure tt m
pad_from (suc fuel) i chunk left m =
    let take = min chunk left in
    let rest : M (Unit {0}) = pad_from fuel i chunk (left - take) in
    if ltb 0 left
    then (do
      on_device (write (zeros take) (zone_at m i).write_pointer)
      modify (advance i take 0)
      rest)
        m
    else pure tt m

-- Each chunk has a byte at least, so that as many rounds as bytes are enough.
unfoldable pub pad : ℕ → ℕ → M (Unit {0})
pad i padding = pad_from padding i (min (2 ^ 20) padding) padding

unfoldable pub write_footer : ℕ → ZoneGroup → M (Unit {0})
write_footer i group m =
    (do
      on_device (
          write (stamp m.footer_size group.meta_offset group.meta_size) (zone_at m i).write_pointer)
      modify (advance i m.footer_size m.footer_size)
      modify (set_status i full))
      m

unfoldable pub seal_current_zone : M (Unit {0})
seal_current_zone m =
    let i = current_zone_index m in
    let group = group_at m m.current_group in
    (do pad i (saturating_sub (avail_bytes (zone_at m i)) m.footer_size); write_footer i group) m

-- The metadata log follows the data written so far.
unfoldable pub move_meta_zone : ℕ → ZoneManager → ZoneManager
move_meta_zone i m =
    let start = (zone_at m i).write_pointer in
    record m { meta_zone = record (m.meta_zone) { start = start; write_pointer = start } }

unfoldable pub append_data : Bytes → M ℕ
append_data buf m =
    let i = current_zone_index m in
    let offset = (zone_at m i).write_pointer in
    if ltb (avail_bytes (zone_at m i)) buf.length
    then fail capacity_exceeded m
    else (do
      on_device (write buf offset)
      modify (advance i buf.length buf.length)
      modify (set_status i «open»)
      modify (move_meta_zone i)
      pure offset)
        m

-- The group's record of its metadata log, and the zone past it.
unfoldable pub note_meta_log : ℕ → ℕ → ZoneManager → ZoneManager
note_meta_log offset size m =
    let i = current_zone_index m in
    let g = group_at m m.current_group in
    advance i size 0 (
      put_group m.current_group (record g { meta_offset = offset; meta_size = size })
        (record m {
          meta_zone = record (m.meta_zone) { valid_bytes = m.meta_zone.valid_bytes + size };
        }))

unfoldable pub append_meta_log : Bytes → M ℕ
append_meta_log buf m =
    let offset = m.meta_zone.start in
    if not m.meta_appendable
    then fail invalid_config m
    else (if ltb (avail_bytes m.meta_zone) buf.length
        then fail capacity_exceeded m
        else (do
          on_device (write buf offset)
          modify (note_meta_log offset buf.length)
          seal_current_zone
          modify (λ s. record s { meta_appendable = false })
          pure offset)
            m)

-- `DataKind`
pub data DataKind : Type 0 where
  data_kind meta_log : DataKind

abbrev pub append_kind : DataKind → Bytes → M ℕ
append_kind data_kind buf = append_data buf
append_kind meta_log buf = append_meta_log buf

unfoldable pub append : Bytes → DataKind → M ℕ
append buf kind m =
    if buf.length == 0
      || not (whole_pages buf.length m)
      || ltb m.device.info.zone_size buf.length
      || not m.ensured
    then fail invalid_config m
    else append_kind kind buf m
