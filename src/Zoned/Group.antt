-- ===== src/Zoned/Group.antt =====
-- src/runtime/zoned_store.rs, `ZoneGroup`, and the state of the `ZoneManager`.
use matrixcache.Base.{ℕ, List, Bool, ltb, ◌==◌, if◌then◌else◌, get_or, set}
use matrixcache.Zoned.Rate.{f64_quotient}
use matrixcache.Zoned.Device.{Zone, ZoneDevice, new_zone}

pub record ZoneGroup : Type 0 where
  pub group_id : ℕ
  pub zone_index : ℕ
  pub zone_size : ℕ
  pub meta_offset : ℕ
  pub meta_size : ℕ
  pub garbage_bytes : ℕ

abbrev pub new_group : ℕ → ℕ → ℕ → ZoneGroup
new_group group_id zone_index zone_size = record {
  group_id = group_id;
  zone_index = zone_index;
  zone_size = zone_size;
  meta_offset = 0;
  meta_size = 0;
  garbage_bytes = 0;
}

-- An `f64`, in units of 2 ^ -128.
unfoldable pub garbage_rate : ZoneGroup → ℕ
garbage_rate g = if g.zone_size == 0 then 0 else f64_quotient g.garbage_bytes g.zone_size

-- Whether the garbage rate of the first is below that of the second.
abbrev pub less_garbage : ZoneGroup → ZoneGroup → Bool
less_garbage g h = ltb (garbage_rate g) (garbage_rate h)

pub record ZoneManager : Type 0 where
  pub device : ZoneDevice
  pub zones : List Zone
  pub groups : List ZoneGroup
  pub free_list : List ℕ
  pub gc_list : List ℕ
  pub recovery_list : List ℕ
  pub current_group : ℕ
  pub meta_zone : Zone
  pub header_size : ℕ
  pub footer_size : ℕ
  pub sequence : ℕ
  pub ensured : Bool
  pub meta_appendable : Bool

-- An index out of range, on which the code panics, gives these.
abbrev blank_zone : Zone
blank_zone = new_zone 0 0 0

abbrev blank_group : ZoneGroup
blank_group = new_group 0 0 0

abbrev pub zone_at : ZoneManager → ℕ → Zone
zone_at m i = get_or m.zones i blank_zone

abbrev pub group_at : ZoneManager → ℕ → ZoneGroup
group_at m i = get_or m.groups i blank_group

abbrev pub put_zone : ℕ → Zone → ZoneManager → ZoneManager
put_zone i z m = record m { zones = set m.zones i z }

abbrev pub put_group : ℕ → ZoneGroup → ZoneManager → ZoneManager
put_group i g m = record m { groups = set m.groups i g }

abbrev pub current_zone_index : ZoneManager → ℕ
current_zone_index m = (group_at m m.current_group).zone_index
