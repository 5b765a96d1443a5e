-- ===== src/Zoned/Quiet.antt =====
-- src/runtime/zoned_store.rs, `ZoneManager`: the operations that move no group from one list to
-- another, and rules for chains of operations.
use matrixcache.Base.{arith, ℕ, zero, suc, ◌-◌, ◌^◌, ◌≡◌, refl, List, min}
use matrixcache.Zoned.Bytes.{Bytes}
use matrixcache.Zoned.Group.{ZoneGroup, ZoneManager}
use matrixcache.Zoned.Monad.{after, M}
use matrixcache.Zoned.Appending.{
  advance, set_status, write_header, pad_from, pad, write_footer, seal_current_zone, move_meta_zone,
  append_data, note_meta_log, append_meta_log, DataKind, data_kind, meta_log, append_kind, append,
}

-- Where the groups of a manager are.
pub record GroupLists : Type 0 where
  pub current : ℕ
  pub free : List ℕ
  pub gc : List ℕ
  pub recovery : List ℕ

abbrev pub lists : ZoneManager → GroupLists
lists m = record {
  current = m.current_group;
  free = m.free_list;
  gc = m.gc_list;
  recovery = m.recovery_list;
}

abbrev pub Quiet : {A : Type 0} → M A → Type 0
Quiet op = (m : ZoneManager) → lists (op m).0 ≡ lists m

pub write_header-Quiet : (i : ℕ) → Quiet (write_header i)
unfolding write_header advance after
write_header-Quiet i m = ground arith

pad_from-Quiet : (fuel i chunk left : ℕ) → Quiet (pad_from fuel i chunk left)
unfolding pad_from advance after
pad_from-Quiet zero i chunk left m = refl
pad_from-Quiet (suc fuel) i chunk left m =
    grind (arith, pad_from-Quiet fuel i chunk (left - min chunk left))

pad-Quiet : (i padding : ℕ) → Quiet (pad i padding)
unfolding pad
pad-Quiet i padding m = pad_from-Quiet padding i (min (2 ^ 20) padding) padding m

write_footer-Quiet : (i : ℕ) (group : ZoneGroup) → Quiet (write_footer i group)
unfolding write_footer advance set_status after
write_footer-Quiet i group m = ground arith

seal_current_zone-Quiet : Quiet seal_current_zone
unfolding seal_current_zone after
seal_current_zone-Quiet m = grind (arith, pad-Quiet, write_footer-Quiet)

append_data-Quiet : (buf : Bytes) → Quiet (append_data buf)
unfolding append_data advance set_status move_meta_zone after
append_data-Quiet buf m = ground arith

note_meta_log-lists :
    (offset size : ℕ) (m : ZoneManager) → lists (note_meta_log offset size m) ≡ lists m
unfolding note_meta_log advance
note_meta_log-lists offset size m = refl

append_meta_log-Quiet : (buf : Bytes) → Quiet (append_meta_log buf)
unfolding append_meta_log after
append_meta_log-Quiet buf m = grind (arith, seal_current_zone-Quiet, note_meta_log-lists)

append_kind-Quiet : (buf : Bytes) (kind : DataKind) → Quiet (append_kind kind buf)
append_kind-Quiet buf data_kind = append_data-Quiet buf
append_kind-Quiet buf meta_log = append_meta_log-Quiet buf

pub append-Quiet : (buf : Bytes) (kind : DataKind) → Quiet (append buf kind)
unfolding append
append-Quiet buf kind m = ground (arith, append_kind-Quiet buf kind m)
