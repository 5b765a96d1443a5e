-- ===== src/Names.antt =====
-- The names that a configuration gives to a replacement policy (src/runtime/replacement.rs) and to the
-- placement of data in memory and persistent memory (src/core/storage_config.rs). An error is `none`:
-- its message is left out.
pub mod Laws
use matrixcache.Base.{
  List, [], ◌∷◌, map, String, Bool, ◌||◌, Option, none, some, if◌then◌else◌, str_eq,
  eq_ignore_ascii_case,
}

pub data CacheReplacementPolicy : Type 0 where
  fifo slru weighted_hotness_lru : CacheReplacementPolicy

unfoldable pub try_from_config_name : String → Option CacheReplacementPolicy
try_from_config_name value =
    if eq_ignore_ascii_case value "fifo"
    then some fifo
    else (if eq_ignore_ascii_case value "slru"
        then some slru
        else (if eq_ignore_ascii_case value "weightedhotnesslru" || eq_ignore_ascii_case value "lru"
            then some weighted_hotness_lru
            else none))

unfoldable pub as_config_name : CacheReplacementPolicy → String
as_config_name fifo = "FIFO"
as_config_name slru = "SLRU"
as_config_name weighted_hotness_lru = "WeightedHotnessLru"

unfoldable pub config_names : List String
config_names = map as_config_name (fifo ∷ slru ∷ weighted_hotness_lru ∷ [])

-- `unwrap_or_default`
unfoldable pub or_default : Option CacheReplacementPolicy → CacheReplacementPolicy
or_default (some p) = p
or_default none = weighted_hotness_lru

unfoldable pub from_config_name : String → CacheReplacementPolicy
from_config_name value = or_default (try_from_config_name value)

pub data CacheDataPlacement : Type 0 where
  side_by_side tiered : CacheDataPlacement

unfoldable pub try_placement : String → Option CacheDataPlacement
try_placement value =
    if eq_ignore_ascii_case value "sidebyside"
      || (eq_ignore_ascii_case value "side_by_side"
          || (eq_ignore_ascii_case value "side-by-side"
              || (eq_ignore_ascii_case value "kSideBySide" || str_eq value "SideBySide")))
    then some side_by_side
    else (if eq_ignore_ascii_case value "tiered"
          || (eq_ignore_ascii_case value "kTiered" || str_eq value "Tiered")
        then some tiered
        else none)

unfoldable pub placement : String → CacheDataPlacement
placement value =
    if eq_ignore_ascii_case value "sidebyside"
      || (eq_ignore_ascii_case value "side_by_side" || eq_ignore_ascii_case value "side-by-side")
    then side_by_side
    else tiered

unfoldable pub placement_name : CacheDataPlacement → String
placement_name side_by_side = "SideBySide"
placement_name tiered = "Tiered"
