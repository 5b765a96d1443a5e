-- ===== src/SsdIndex.antt =====
-- src/core/storage_config.rs: `SsdIndex`, which says for each key where its record is, and in which
-- state.
pub mod Model
pub mod Holds
pub mod Change
pub mod Step
pub mod Run
use Prim.Native.Nat.{bit_and}
use matrixcache.Base.{
  ℕ, ◌-◌, ◌^◌, ◌==◌, List, [], Option, none, some, Bool, true, false, String, if◌then◌else◌, not,
}
use matrixcache.Base.Map.{insert, remove, lookup}
use matrixcache.Codec.{
  RecordState, soft_del, normal, pinned, state_code, mask_colored_ptr_record_state,
  decode_colored_ptr_record_state,
}

pub data SsdIndexValue : Type 0 where
  ssd_colored_ptr : ℕ → SsdIndexValue
  memory : List ℕ → RecordState → SsdIndexValue

unfoldable pub state : SsdIndexValue → Option RecordState
state (ssd_colored_ptr ptr) = some (decode_colored_ptr_record_state ptr)
state (memory value s) = some s

-- `!SSD_RECORD_STATE_FLAGS`, as 64 bits.
abbrev pub state_cleared : ℕ
state_cleared = 2 ^ 64 - 1 - 15

unfoldable pub with_state : RecordState → SsdIndexValue → SsdIndexValue
with_state s (ssd_colored_ptr ptr) =
    ssd_colored_ptr (mask_colored_ptr_record_state (bit_and ptr state_cleared) s)
with_state s (memory value old) = memory value s

pub record SsdIndex : Type 0 where
  pub entries : List (String × SsdIndexValue)

abbrev pub new : SsdIndex
new = record { entries = [] }

abbrev pub is_state : RecordState → Option RecordState → Bool
is_state s none = false
is_state s (some t) = state_code t == state_code s

abbrev pub set : String → SsdIndexValue → SsdIndex → SsdIndex
set key value index = record index { entries = insert key value index.entries }

-- The value that an update writes over `current`.
abbrev pub kept_state : Option RecordState → SsdIndexValue → SsdIndexValue
kept_state none value = value
kept_state (some s) value = with_state s value

unfoldable pub update_found :
    Option SsdIndexValue → String → SsdIndexValue → SsdIndex → SsdIndex × Bool
update_found none key value index = (index, false)
update_found (some current) key value index =
    (set key (kept_state (state current) value) index, true)

unfoldable pub update_index : String → SsdIndexValue → SsdIndex → SsdIndex × Bool
update_index key value index = update_found (lookup key index.entries) key value index

unfoldable pub put : String → SsdIndexValue → SsdIndex → SsdIndex
put key value index = set key value index

unfoldable pub get_found :
    Option SsdIndexValue → String → SsdIndex → SsdIndex × Option SsdIndexValue
get_found none key index = (index, none)
get_found (some value) key index =
    let promoted = with_state normal value in
    if is_state soft_del (state value)
    then (set key promoted index, some promoted)
    else (index, some value)

unfoldable pub get : String → SsdIndex → SsdIndex × Option SsdIndexValue
get key index = get_found (lookup key index.entries) key index

unfoldable pub unpin_found : Option SsdIndexValue → String → SsdIndex → SsdIndex
unpin_found none key index = index
unpin_found (some value) key index =
    if is_state pinned (state value) then set key (with_state normal value) index else index

unfoldable pub unpin : String → SsdIndex → SsdIndex
unpin key index = unpin_found (lookup key index.entries) key index

unfoldable pub pin_found : Option SsdIndexValue → String → SsdIndex → SsdIndex × Bool
pin_found none key index = (index, false)
pin_found (some value) key index =
    if is_state pinned (state value)
    then (index, false)
    else (set key (with_state pinned value) index, true)

unfoldable pub pin : String → SsdIndex → SsdIndex × Bool
pin key index = pin_found (lookup key index.entries) key index

unfoldable pub soft_delete_found : Option SsdIndexValue → String → SsdIndex → SsdIndex
soft_delete_found none key index = index
soft_delete_found (some value) key index =
    if not (is_state pinned (state value)) then set key (with_state soft_del value) index else index

unfoldable pub soft_delete : String → SsdIndex → SsdIndex
soft_delete key index = soft_delete_found (lookup key index.entries) key index

abbrev pub state_of : Option SsdIndexValue → Option RecordState
state_of none = none
state_of (some value) = state value

abbrev pub is_some_and : (RecordState → Bool) → Option RecordState → Bool
is_some_and pred none = false
is_some_and pred (some s) = pred s

unfoldable pub delete_if : String → (RecordState → Bool) → SsdIndex → SsdIndex × Bool
delete_if key pred index =
    if is_some_and pred (state_of (lookup key index.entries))
    then (record index { entries = remove key index.entries }, true)
    else (index, false)
