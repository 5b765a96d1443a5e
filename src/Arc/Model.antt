-- ===== src/Arc/Model.antt =====
-- The adaptive replacement cache of Megiddo and Modha on four lists of keys, the most recent first:
-- what `ArcList` of src/runtime/replacement.rs is to do. `t1` and `t2` have data (keys seen once, and
-- again), `b1` and `b2` are their ghosts, and `p` is the share of `t1` in the capacity `c`.
-- The paper starts with a share of zero, the code and this model with half of the capacity; a ratio of
-- ghosts is rounded down, and is one at least.
use matrixcache.Base.{
  ℕ, ◌+◌, ◌-◌, ◌*◌, ◌/◌, min, max, List, [], String, Bool, true, false, ◌||◌, ◌&&◌, length,
  drop_last, last_one, ltb, leb, ◌==◌, if◌then◌else◌,
}
use matrixcache.Base.Map.{contains, erase, touch}
use matrixcache.Ghost.Holds.{touch_all}

pub record Lists : Type 0 where
  pub c : ℕ
  pub p : ℕ
  pub q : ℕ
  pub t1 : List String
  pub b1 : List String
  pub t2 : List String
  pub b2 : List String

-- The least recent key of `t1`, or of `t2`, becomes a ghost.
unfoldable pub demote1 : Lists → Lists
demote1 s = record s { t1 = drop_last s.t1; b1 = touch_all (last_one s.t1) s.b1 }

unfoldable pub demote2 : Lists → Lists
demote2 s = record s { t2 = drop_last s.t2; b2 = touch_all (last_one s.t2) s.b2 }

-- Whether REPLACE takes its victim from `t1`.
abbrev pub takes_first : Bool → Lists → Bool
takes_first in_b2 s =
    ltb 0 (length s.t1) && (ltb s.p (length s.t1) || (in_b2 && (length s.t1 == s.p)))

unfoldable pub replace : Bool → Lists → Lists
replace in_b2 s = if takes_first in_b2 s then demote1 s else demote2 s

-- Case IV of the paper: room for a key that is in no list.
unfoldable pub make_room : Lists → Lists
make_room s =
    if leb s.c (length s.t1 + length s.b1)
    then (if ltb (length s.t1) s.c
        then replace false (record s { b1 = drop_last s.b1 })
        else record s { t1 = drop_last s.t1 })
    else (if leb s.c (length s.t1 + length s.t2 + length s.b1 + length s.b2)
        then (if leb (2 * s.c) (length s.t1 + length s.t2 + length s.b1 + length s.b2)
            then replace false (record s { b2 = drop_last s.b2 })
            else replace false s)
        else s)

-- Cases II and III: the share moves by the ratio of the ghosts, the key's own list counted with it.
unfoldable pub raise : Lists → Lists
raise s =
    let p = min (s.p + max 1 (length s.b2 / (length s.b1 + 1))) s.c in
    record s { p = p; q = s.c - p }

unfoldable pub lower : Lists → Lists
lower s = let p = s.p - max 1 (length s.b1 / (length s.b2 + 1)) in record s { p = p; q = s.c - p }

unfoldable pub put1 : String → Lists → Lists
put1 k s = record s { t1 = touch k s.t1 }

unfoldable pub put2 : String → Lists → Lists
put2 k s = record s { t2 = touch k s.t2 }

-- One request: the lists afterwards, and whether the data was there.
unfoldable pub access : String → Lists → Lists × Bool
access k s =
    if contains k s.t1
    then (put2 k (record s { t1 = erase k s.t1 }), true)
    else (if contains k s.b1
        then (put2 k (replace false (raise (record s { b1 = erase k s.b1 }))), false)
        else (if contains k s.t2
            then (put2 k (record s { t2 = erase k s.t2 }), true)
            else (if contains k s.b2
                then (put2 k (replace true (lower (record s { b2 = erase k s.b2 }))), false)
                else (put1 k (make_room s), false))))

unfoldable pub start : ℕ → Lists
start c = record { c = c; p = c / 2; q = c - c / 2; t1 = []; b1 = []; t2 = []; b2 = [] }
