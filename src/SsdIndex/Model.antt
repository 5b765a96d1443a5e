-- ===== src/SsdIndex/Model.antt =====
-- What `SsdIndex` stands for: for each key, where its record is and in which state.
use text.Mathlib.Text.{◌==◌}
use matrixcache.Base.{
  ℕ, ◌%◌, ◌^◌, List, Option, none, some, Bool, true, false, String, if◌then◌else◌,
}
use matrixcache.Codec.{
  RecordState, soft_del, normal, pinned, decode_colored_ptr, decode_colored_ptr_record_state,
}
use matrixcache.SsdIndex.{SsdIndexValue, ssd_colored_ptr, memory}

-- The size and the address of a record on the device, or its bytes.
pub data Place : Type 0 where
  on_device : ℕ → ℕ → Place
  in_memory : List ℕ → Place

pub record Entry : Type 0 where
  pub place : Place
  pub state : RecordState

abbrev pub Entries : Type 0
Entries = String → Option Entry

-- A pointer counts with its low 64 bits, that is 45 bits of address.
unfoldable pub entry : SsdIndexValue → Entry
entry (ssd_colored_ptr ptr) =
    let (size, lba) = decode_colored_ptr ptr in
    record { place = on_device size (lba % 2 ^ 45); state = decode_colored_ptr_record_state ptr }
entry (memory value s) = record { place = in_memory value; state = s }

abbrev pub assign : String → Option Entry → Entries → Entries
assign key e all = λ any. if key == any then e else all any

abbrev pub in_state : RecordState → Entry → Entry
in_state s e = record e { state = s }

-- What becomes of a state when its key is read, pinned, unpinned or soft-deleted.
abbrev pub read : RecordState → RecordState
read soft_del = normal
read s = s

abbrev pub unpinned : RecordState → RecordState
unpinned pinned = normal
unpinned s = s

abbrev pub soft_deleted : RecordState → RecordState
soft_deleted pinned = pinned
soft_deleted s = soft_del

abbrev pub pins : RecordState → Bool
pins pinned = false
pins s = true

abbrev pub restated : (RecordState → RecordState) → Option Entry → Option Entry
restated next none = none
restated next (some e) = some (in_state (next e.state) e)

abbrev pub change : (RecordState → RecordState) → String → Entries → Entries
change next key all = assign key (restated next (all key)) all

-- The place of a new entry with the state of the one there.
abbrev pub replaced : Entry → Option Entry → Option Entry
replaced new none = none
replaced new (some e) = some (in_state e.state new)

abbrev pub is_there : Option Entry → Bool
is_there none = false
is_there (some e) = true

abbrev pub satisfies : (RecordState → Bool) → Option Entry → Bool
satisfies pred none = false
satisfies pred (some e) = pred e.state

abbrev pub pinnable : Option Entry → Bool
pinnable none = false
pinnable (some e) = pins e.state
