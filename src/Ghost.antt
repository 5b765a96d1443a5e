-- ===== src/Ghost.antt =====
-- src/runtime/replacement.rs, `GhostLruList`: a list of keys with data and a list of ghosts, keys
-- whose data is gone.
pub mod Holds
use matrixcache.Base.{
  ℕ, List, [], ◌∷◌, String, Bool, true, false, ◌||◌, if◌then◌else◌, saturating_add,
}
use matrixcache.Lru
use matrixcache.Lru.{BaseLruList}

pub record GhostLruPopResult : Type 0 where
  pub item : String
  pub is_ghost : Bool

pub record GhostLruList : Type 0 where
  pub data_list : BaseLruList
  pub ghost_list : BaseLruList

unfoldable pub new : ℕ → GhostLruList
new capacity = record { data_list = Lru.new capacity; ghost_list = Lru.new capacity }

unfoldable pub set_capacity : ℕ → GhostLruList → GhostLruList
set_capacity capacity g = record {
  data_list = Lru.set_capacity capacity g.data_list;
  ghost_list = Lru.set_capacity capacity g.ghost_list;
}

abbrev pub capacity : GhostLruList → ℕ
capacity g = g.data_list.capacity

abbrev pub size : GhostLruList → ℕ
size g = Lru.size g.data_list

abbrev pub ghost_size : GhostLruList → ℕ
ghost_size g = Lru.size g.ghost_list

abbrev pub total_size : GhostLruList → ℕ
total_size g = saturating_add (size g) (ghost_size g)

unfoldable pub put : String → GhostLruList → GhostLruList
put k g = record g { data_list = Lru.put k g.data_list }

unfoldable pub put_ghost : String → GhostLruList → GhostLruList
put_ghost k g = record g { ghost_list = Lru.put k g.ghost_list }

-- A ghost that is asked for becomes the most recent ghost, and is still not found.
unfoldable pub get : String → GhostLruList → GhostLruList × Bool
get k g =
    let (d, found) = Lru.get k g.data_list in
    if found
    then (record g { data_list = d }, true)
    else (record g { data_list = d; ghost_list = (Lru.get k g.ghost_list).0 }, false)

unfoldable pub delete : String → GhostLruList → GhostLruList × Bool
delete k g =
    let (d, deleted_data) = Lru.delete k g.data_list in
    let (h, deleted_ghost) = Lru.delete k g.ghost_list in
    (record { data_list = d; ghost_list = h }, deleted_data || deleted_ghost)

-- The loop of `downgrade` over the evicted keys.
unfoldable pub put_all : List String → BaseLruList → BaseLruList
put_all [] l = l
put_all (k ∷ ks) l = put_all ks (Lru.put k l)

unfoldable pub downgrade : GhostLruList → GhostLruList
downgrade g =
    let (d, ks) = Lru.evict_one g.data_list in
    record { data_list = d; ghost_list = put_all ks g.ghost_list }

unfoldable pub evict_one_data : GhostLruList → GhostLruList × List String
evict_one_data g = let (d, ks) = Lru.evict_one g.data_list in (record g { data_list = d }, ks)

unfoldable pub evict_one_ghost : GhostLruList → GhostLruList × List String
evict_one_ghost g = let (h, ks) = Lru.evict_one g.ghost_list in (record g { ghost_list = h }, ks)

abbrev pub get_data_tail : ℕ → GhostLruList → List String
get_data_tail n g = Lru.get_tail n g.data_list

abbrev pub get_ghost_tail : ℕ → GhostLruList → List String
get_ghost_tail n g = Lru.get_tail n g.ghost_list

unfoldable pub evict : GhostLruList → GhostLruList × List String
evict g =
    let h = (Lru.evict g.ghost_list).0 in
    let (d, ks) = Lru.evict g.data_list in (record { data_list = d; ghost_list = h }, ks)

-- A key that was in neither list gives the empty item.
unfoldable pub pop : String → GhostLruList → GhostLruList × GhostLruPopResult
pop k g =
    let (d, deleted_data) = Lru.delete k g.data_list in
    let (h, deleted_ghost) = Lru.delete k g.ghost_list in
    if deleted_data
    then (record g { data_list = d }, record { item = k; is_ghost = false })
    else (if deleted_ghost
        then (record { data_list = d; ghost_list = h }, record { item = k; is_ghost = true })
        else (record { data_list = d; ghost_list = h }, record { item = ""; is_ghost = false }))

unfoldable pub reset : GhostLruList → GhostLruList
reset g = record { data_list = Lru.reset g.data_list; ghost_list = Lru.reset g.ghost_list }
