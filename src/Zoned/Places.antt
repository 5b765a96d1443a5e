-- ===== src/Zoned/Places.antt =====
-- src/runtime/zoned_store.rs, `ZoneManager`: in how many places a group is, and how the operations
-- that move groups change that.
use matrixcache.Base.{
  arith, ℕ, ◌+◌, ◌≡◌, refl, List, [], ◌∷◌, ◌++◌, true, false, ok, ◌==◌, if◌then◌else◌,
}
use matrixcache.Zoned.Group.{ZoneManager}
use matrixcache.Zoned.Monad.{after}
use matrixcache.Zoned.Appending.{
  set_status, begin_zone, place_meta_zone, open_group, open_next_group,
}
use matrixcache.Zoned.Manager.{
  member, take_out, finish_group, reset_group, release_group, insert_group, sort_groups,
  find_gc_group,
}
use matrixcache.Zoned.Quiet.{GroupLists, lists, write_header-Quiet}

abbrev pub occurs : ℕ → List ℕ → ℕ
occurs x [] = 0
occurs x (y ∷ ys) = (if y == x then 1 else 0) + occurs x ys

-- A group is current, free, awaiting reclaim or to be recovered.
abbrev pub places : ℕ → GroupLists → ℕ
places x l =
    (if l.current == x then 1 else 0) + (occurs x l.free + (occurs x l.gc + occurs x l.recovery))

pub occurs-append : (x : ℕ) (ys zs : List ℕ) → occurs x (ys ++ zs) ≡ occurs x ys + occurs x zs
occurs-append x [] zs = omega arith
occurs-append x (y ∷ ys) zs = omega (arith, occurs-append x ys zs)

pub not_member : (x : ℕ) (ys : List ℕ) → occurs x ys ≡ 0 → member x ys ≡ false
not_member x [] h = refl
not_member x (y ∷ ys) h = ground (arith, not_member x ys)

pub occurs-take_out :
    (x y : ℕ) (ys : List ℕ)
    → member x ys ≡ true
    → occurs y (take_out x ys) + (if x == y then 1 else 0) ≡ occurs y ys
occurs-take_out x y [] h = cc
occurs-take_out x y (z ∷ ys) h = ground (arith, occurs-take_out x y ys)

pub open_group-lists :
    (id : ℕ) (rest : List ℕ) (m : ZoneManager)
    → lists (open_group (id ∷ rest) m).0
      ≡ record { current = id; free = rest; gc = m.gc_list; recovery = m.recovery_list }
unfolding open_group begin_zone place_meta_zone after
open_group-lists id rest m = grind (arith, write_header-Quiet)

pub finish_group-lists :
    (id : ℕ) (rest : List ℕ) (m : ZoneManager)
    → m.free_list ≡ id ∷ rest
    → lists (finish_group m).0 ≡ record {
      current = id;
      free = rest;
      gc =
          if member m.current_group m.gc_list
          then m.gc_list
          else m.gc_list ++ (m.current_group ∷ []);
      recovery = m.recovery_list;
    }
unfolding finish_group open_next_group set_status after
finish_group-lists id rest m h = rw h (open_group-lists id rest _)

-- A reset that succeeds moves its group from those awaiting reclaim to the free ones.
pub reset_group-lists :
    (id : ℕ) (m : ZoneManager)
    → (reset_group id m).1 ≡ ok tt
    → (member id m.gc_list ≡ true)
      × (lists (reset_group id m).0 ≡ record {
        current = m.current_group;
        free = m.free_list ++ (id ∷ []);
        gc = take_out id m.gc_list;
        recovery = m.recovery_list;
      })
unfolding reset_group release_group after
reset_group-lists id m h = ground arith

occurs-insert_group :
    (x id : ℕ) (ids : List ℕ) (m : ZoneManager)
    → occurs x (insert_group id ids m) ≡ occurs x (id ∷ ids)
unfolding insert_group
occurs-insert_group x id [] m = refl
occurs-insert_group x id (j ∷ js) m = ground (arith, occurs-insert_group x id js m)

pub occurs-sort_groups :
    (x : ℕ) (ids : List ℕ) (m : ZoneManager) → occurs x (sort_groups ids m) ≡ occurs x ids
unfolding sort_groups
occurs-sort_groups x [] m = refl
occurs-sort_groups x (id ∷ ids) m =
    omega (arith, occurs-insert_group x id (sort_groups ids m) m, occurs-sort_groups x ids m)

pub places-find_gc_group :
    (x : ℕ) (m : ZoneManager) → places x (lists (find_gc_group m).0) ≡ places x (lists m)
unfolding find_gc_group
places-find_gc_group x m = ground (arith, occurs-sort_groups x m.gc_list m)
