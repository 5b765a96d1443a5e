-- ===== src/Arc/Policy.antt =====
-- src/runtime/replacement.rs, `ReplacementArc`: the policy over an `ArcList`.
pub mod Step
pub mod Run
use matrixcache.Base.{
  ℕ, ◌-◌, ◌*◌, ◌^◌, ◌<◌, ◌≤◌, ◌≡◌, refl, sym, ◌∙◌, ap, List, [], ◌∷◌, String, Bool, true, false,
  ◌||◌, take, reverse, str_eq, if◌then◌else◌, arith, Bool-cases, inl, inr,
}
use mathlib.Core.Path.{ap₂, subst, subst₂}
use matrixcache.Base.Map.{contains, erase, length-erase-le, erase_absent}
use matrixcache.Ghost
use matrixcache.Ghost.Holds.{GhostHolds, size-GhostHolds, delete-GhostHolds, reset-GhostHolds}
use matrixcache.Lru.Evict.{get_tail-reverse}
use matrixcache.Arc
use matrixcache.Arc.{ArcList}
use matrixcache.Arc.Model
use matrixcache.Arc.Model.{Lists}
use matrixcache.Arc.Bounds.{InBounds, access-InBounds, c-access, start-InBounds}
use matrixcache.Arc.Room.{ArcHolds, new-ArcHolds}
use matrixcache.Arc.Refine.{access-ArcHolds}

pub record ReplacementArc : Type 0 where
  pub item_capacity : ℕ
  pub initialized : Bool
  pub arc_list : ArcList

unfoldable pub new : ℕ → ReplacementArc
new item_capacity = record {
  item_capacity = item_capacity;
  initialized = false;
  arc_list = Arc.new item_capacity;
}

unfoldable pub init : ReplacementArc → ReplacementArc
init r = record r { initialized = true; arc_list = Arc.set_capacity r.item_capacity r.arc_list }

unfoldable pub reset : ReplacementArc → ReplacementArc
reset r = record r { initialized = false; arc_list = Arc.reset r.arc_list }

unfoldable pub set_item_capacity : ℕ → ReplacementArc → ReplacementArc
set_item_capacity n r = record r { item_capacity = n; arc_list = Arc.set_capacity n r.arc_list }

unfoldable pub put : String → ReplacementArc → ReplacementArc
put k r = if str_eq k "" then r else record r { arc_list = Arc.put k r.arc_list }

unfoldable pub get : String → ReplacementArc → ReplacementArc × Bool
get k r = let (a, hit) = Arc.get k r.arc_list in (record r { arc_list = a }, hit)

unfoldable pub delete : String → ReplacementArc → ReplacementArc × Bool
delete k r = let (a, deleted) = Arc.delete k r.arc_list in (record r { arc_list = a }, deleted)

abbrev pub get_active_tail : ℕ → ReplacementArc → List String
get_active_tail n r = Arc.get_active_data_tail n r.arc_list

abbrev pub get_fetch_tail : ℕ → ReplacementArc → List String
get_fetch_tail n r = Arc.get_fetch_data_tail n r.arc_list
