-- ===== src/Arc.antt =====
-- src/runtime/replacement.rs, `ArcList`: the adaptive replacement cache's directory, as a fetch list (keys seen once) and an active list (keys seen again), each with ghosts.
pub mod Model
pub mod Bounds
pub mod Growth
pub mod Room
pub mod Refine
pub mod Policy
pub mod Counts
pub mod Exclusive
use matrixcache.Base.{
  ℕ, ◌/◌, List, ◌++◌, String, Bool, true, false, ◌||◌, ◌&&◌, not, str_eq, ltb, leb, ◌==◌,
  if◌then◌else◌, saturating_add, saturating_sub, saturating_mul, min, max,
}
use matrixcache.Ghost
use matrixcache.Ghost.{GhostLruList}

pub record ArcPopResult : Type 0 where
  pub item : String
  pub is_active : Bool
  pub is_ghost : Bool

pub record ArcList : Type 0 where
  pub capacity : ℕ
  pub fetch_list : GhostLruList
  pub active_list : GhostLruList

unfoldable pub new : ℕ → ArcList
new capacity = record {
  capacity = capacity;
  fetch_list = Ghost.new (capacity / 2);
  active_list = Ghost.new (saturating_sub capacity (capacity / 2));
}

unfoldable pub set_capacity : ℕ → ArcList → ArcList
set_capacity capacity a = record a { capacity = capacity }

abbrev pub size : ArcList → ℕ
size a = saturating_add (Ghost.size a.fetch_list) (Ghost.size a.active_list)

abbrev pub ghost_size : ArcList → ℕ
ghost_size a = saturating_add (Ghost.ghost_size a.fetch_list) (Ghost.ghost_size a.active_list)

abbrev pub total_size : ArcList → ℕ
total_size a = saturating_add (size a) (ghost_size a)

abbrev pub fetch_capacity : ArcList → ℕ
fetch_capacity a = Ghost.capacity a.fetch_list

abbrev pub active_capacity : ArcList → ℕ
active_capacity a = Ghost.capacity a.active_list

abbrev pub data_full : ArcList → Bool
data_full a = leb a.capacity (size a)

unfoldable pub reset : ArcList → ArcList
reset a = record a {
  fetch_list = Ghost.reset a.fetch_list;
  active_list = Ghost.reset a.active_list;
}

unfoldable pub pop : String → ArcList → ArcList × ArcPopResult
pop k a =
    let (f, fetch) = Ghost.pop k a.fetch_list in
    if not (str_eq fetch.item "")
    then (
      record a { fetch_list = f },
      record { item = fetch.item; is_active = false; is_ghost = fetch.is_ghost },
    )
    else (let (g, active) = Ghost.pop k a.active_list in
        if not (str_eq active.item "")
        then (
          record a { fetch_list = f; active_list = g },
          record { item = active.item; is_active = true; is_ghost = active.is_ghost },
        )
        else (
          record a { fetch_list = f; active_list = g },
          record { item = ""; is_active = false; is_ghost = false },
        ))

unfoldable pub replace : Bool → ArcList → ArcList
replace key_in_active_ghost a =
    let f = a.fetch_list in
    if not (Ghost.size f == 0)
      && (ltb (Ghost.capacity f) (Ghost.size f)
          || (key_in_active_ghost && (Ghost.size f == Ghost.capacity f)))
    then record a { fetch_list = Ghost.downgrade f }
    else record a { active_list = Ghost.downgrade a.active_list }

-- The room that `access` makes for a key that is in no list.
unfoldable pub make_room : ArcList → ArcList
make_room a =
    if leb a.capacity (Ghost.total_size a.fetch_list)
    then (if ltb (Ghost.size a.fetch_list) a.capacity
        then replace false (record a { fetch_list = (Ghost.evict_one_ghost a.fetch_list).0 })
        else record a { fetch_list = (Ghost.evict_one_data a.fetch_list).0 })
    else (if leb a.capacity (total_size a)
        then (if leb (saturating_mul a.capacity 2) (total_size a)
            then replace false (record a { active_list = (Ghost.evict_one_ghost a.active_list).0 })
            else replace false a)
        else a)

-- The two halves of a `set_capacity` pair that shares the capacity between the lists.
unfoldable pub split_at : ℕ → ArcList → ArcList
split_at p a = record a {
  fetch_list = Ghost.set_capacity p a.fetch_list;
  active_list = Ghost.set_capacity (saturating_sub a.capacity p) a.active_list;
}

-- A key that was a ghost of the active list lowers the fetch list's share, and one of the fetch
-- list raises it. The sizes are those after the key was popped.
unfoldable pub lowered : ArcList → ℕ
lowered a =
    let b1 = Ghost.ghost_size a.fetch_list in
    let b2 = saturating_add (Ghost.ghost_size a.active_list) 1 in
    saturating_sub (Ghost.capacity a.fetch_list) (max 1 (b1 / max b2 1))

unfoldable pub raised : ArcList → ℕ
raised a =
    let b1 = saturating_add (Ghost.ghost_size a.fetch_list) 1 in
    let b2 = Ghost.ghost_size a.active_list in
    min (saturating_add (Ghost.capacity a.fetch_list) (max 1 (b2 / max b1 1))) a.capacity

unfoldable pub put_fetch : String → ArcList → ArcList
put_fetch k a = record a { fetch_list = Ghost.put k a.fetch_list }

unfoldable pub put_active : String → ArcList → ArcList
put_active k a = record a { active_list = Ghost.put k a.active_list }

-- `access` after its `pop`.
unfoldable pub admit : String → ArcPopResult → ArcList → ArcList × Bool
admit k result a =
    if str_eq result.item ""
    then (put_fetch k (make_room a), false)
    else (if result.is_ghost
        then (if result.is_active
            then (put_active k (replace true (split_at (lowered a) a)), false)
            else (put_active k (replace false (split_at (raised a) a)), false))
        else (put_active k a, true))

unfoldable pub access : String → ArcList → ArcList × Bool
access k a = let (a', result) = pop k a in admit k result a'

unfoldable pub put : String → ArcList → ArcList
put k a = (access k a).0

unfoldable pub get : String → ArcList → ArcList × Bool
get k a = access k a

unfoldable pub evict : ArcList → ArcList × List String
evict a =
    let (f, fetched) = Ghost.evict a.fetch_list in
    let (g, active) = Ghost.evict a.active_list in
    (record a { fetch_list = f; active_list = g }, fetched ++ active)

-- `||` does not look in the active list for a key of the fetch list.
unfoldable pub delete : String → ArcList → ArcList × Bool
delete k a =
    let (f, deleted) = Ghost.delete k a.fetch_list in
    let (g, deleted_active) = Ghost.delete k a.active_list in
    if deleted
    then (record a { fetch_list = f }, true)
    else (record a { fetch_list = f; active_list = g }, deleted_active)

abbrev pub get_active_data_tail : ℕ → ArcList → List String
get_active_data_tail n a = Ghost.get_data_tail n a.active_list

abbrev pub get_fetch_data_tail : ℕ → ArcList → List String
get_fetch_data_tail n a = Ghost.get_data_tail n a.fetch_list

abbrev pub get_active_ghost_tail : ℕ → ArcList → List String
get_active_ghost_tail n a = Ghost.get_ghost_tail n a.active_list

abbrev pub get_fetch_ghost_tail : ℕ → ArcList → List String
get_fetch_ghost_tail n a = Ghost.get_ghost_tail n a.fetch_list
