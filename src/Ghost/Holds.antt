-- ===== src/Ghost/Holds.antt =====
-- src/runtime/replacement.rs, `GhostLruList`: its operations on the keys that its two lists hold.
use matrixcache.Base.{
  ℕ, ◌<◌, ◌≡◌, refl, sym, ◌∙◌, List, [], ◌∷◌, String, true, false, ◌||◌, ◌&&◌, not, length, take,
  drop, drop_last, last_one, reverse, if◌then◌else◌, arith, Bool-cases, inl, inr,
}
use mathlib.Core.Path.{subst, subst₂}
use matrixcache.Base.Map.{contains, erase, touch, erase_absent}
use matrixcache.Arena.{key_list_nil}
use matrixcache.Lru.{BaseLruList}
use matrixcache.Lru.Holds.{Holds, size-Holds, new-Holds, set_capacity-Holds, reset-Holds}
use matrixcache.Lru.Touch.{got, put-Holds, get-Holds}
use matrixcache.Lru.Take.{delete-Holds}
use matrixcache.Lru.Evict.{evict_one-Holds, evict-Holds}
use matrixcache.Ghost.{
  GhostLruList, GhostLruPopResult, new, set_capacity, size, ghost_size, put, get, delete, put_all,
  downgrade, evict_one_data, evict_one_ghost, evict, pop, reset,
}

-- Both lists have the capacity; `ts` are the keys with data and `bs` the ghosts, most recent first.
pub record GhostHolds (g : GhostLruList) (cap : ℕ) (ts bs : List String) : Type 0 where
  pub data_held : Holds g.data_list cap ts
  pub ghosts_held : Holds g.ghost_list cap bs

-- Moves the keys of a list to the front, one after the other.
unfoldable pub touch_all : List String → List String → List String
touch_all [] bs = bs
touch_all (k ∷ ks) bs = touch_all ks (touch k bs)

pub new-GhostHolds : (cap : ℕ) → GhostHolds (new cap) cap [] []
unfolding new
new-GhostHolds cap = record { data_held = new-Holds cap; ghosts_held = new-Holds cap }

module _ (g : GhostLruList) {cap : ℕ} {ts bs : List String} (h : GhostHolds g cap ts bs) where
  pub set_capacity-GhostHolds : (c : ℕ) → GhostHolds (set_capacity c g) c ts bs
  unfolding set_capacity
  set_capacity-GhostHolds c = record {
    data_held = set_capacity-Holds c g.data_list h.data_held;
    ghosts_held = set_capacity-Holds c g.ghost_list h.ghosts_held;
  }

  pub put-GhostHolds :
      (k : String) → length ts < key_list_nil → GhostHolds (put k g) cap (touch k ts) bs
  unfolding put
  put-GhostHolds k room = record {
    data_held = put-Holds g.data_list k h.data_held room;
    ghosts_held = h.ghosts_held;
  }

  pub evict_one_data-GhostHolds :
      let (g', ks) = evict_one_data g in GhostHolds g' cap (drop_last ts) bs × (ks ≡ last_one ts)
  unfolding evict_one_data
  evict_one_data-GhostHolds =
      let (held, ks) = evict_one-Holds g.data_list h.data_held in
      (record { data_held = held; ghosts_held = h.ghosts_held }, ks)

  pub evict_one_ghost-GhostHolds :
      let (g', ks) = evict_one_ghost g in GhostHolds g' cap ts (drop_last bs) × (ks ≡ last_one bs)
  unfolding evict_one_ghost
  evict_one_ghost-GhostHolds =
      let (held, ks) = evict_one-Holds g.ghost_list h.ghosts_held in
      (record { data_held = h.data_held; ghosts_held = held }, ks)

  pub reset-GhostHolds : GhostHolds (reset g) cap [] []
  unfolding reset
  reset-GhostHolds = record {
    data_held = reset-Holds g.data_list h.data_held;
    ghosts_held = reset-Holds g.ghost_list h.ghosts_held;
  }

  pub delete-GhostHolds :
      (k : String)
      → let (g', deleted) = delete k g in
        GhostHolds g' cap (erase k ts) (erase k bs) × (deleted ≡ (contains k ts || contains k bs))
  unfolding delete
  delete-GhostHolds k =
      let (held, found) = delete-Holds g.data_list k h.data_held in
      let (held', found') = delete-Holds g.ghost_list k h.ghosts_held in
      (record { data_held = held; ghosts_held = held' }, ground (arith, found, found'))

  pub evict-GhostHolds :
      let (g', ks) = evict g in
      GhostHolds g' cap (take cap ts) (take cap bs) × (ks ≡ reverse (drop cap ts))
  unfolding evict
  evict-GhostHolds =
      let (held, ks) = evict-Holds g.data_list h.data_held in
      (record { data_held = held; ghosts_held = (evict-Holds g.ghost_list h.ghosts_held).0 }, ks)

  pub size-GhostHolds : (size g ≡ length ts) × (ghost_size g ≡ length bs)
  size-GhostHolds = (size-Holds g.data_list h.data_held, size-Holds g.ghost_list h.ghosts_held)

put_all-last_one :
    (ts : List String) (l : BaseLruList) {cap : ℕ} {bs : List String}
    → Holds l cap bs
    → length bs < key_list_nil
    → Holds (put_all (last_one ts) l) cap (touch_all (last_one ts) bs)
unfolding put_all touch_all
put_all-last_one [] l h room = h
put_all-last_one (t ∷ []) l h room = put-Holds l t h room
put_all-last_one (t ∷ u ∷ ts) l h room = put_all-last_one (u ∷ ts) l h room

module _ (g : GhostLruList) {cap : ℕ} {ts bs : List String} (h : GhostHolds g cap ts bs) where
  -- `downgrade` takes the data of the least recent key, which becomes the most recent ghost, while
  -- the ghosts are fewer than the indices.
  pub downgrade-GhostHolds :
      length bs < key_list_nil
      → GhostHolds (downgrade g) cap (drop_last ts) (touch_all (last_one ts) bs)
  unfolding downgrade
  downgrade-GhostHolds room =
      let (held, ks) = evict_one-Holds g.data_list h.data_held in
      record {
        data_held = held;
        ghosts_held =
            subst (λ q. Holds (put_all q g.ghost_list) cap (touch_all (last_one ts) bs)) (sym ks)
              (put_all-last_one ts g.ghost_list h.ghosts_held room);
      }

  -- `get` serves a key with data and makes it the most recent; a ghost that is asked for becomes the
  -- most recent ghost, and is not found. Both lists are shorter than the number of indices.
  pub get-GhostHolds :
      (k : String)
      → length ts < key_list_nil
      → length bs < key_list_nil
      → let (g', found) = get k g in
        GhostHolds g' cap (got k ts) (if contains k ts then bs else got k bs)
        × (found ≡ contains k ts)
  unfolding get
  get-GhostHolds k room room' =
      let (held, found) = get-Holds g.data_list k h.data_held room in
      let (held', found') = get-Holds g.ghost_list k h.ghosts_held room' in
      elim (Bool-cases (contains k ts)) [
        | inl e ↦ rw (found ∙ e, e) (record { data_held = held; ghosts_held = h.ghosts_held }, refl)
        | inr e ↦ rw (found ∙ e, e) (record { data_held = held; ghosts_held = held' }, refl)
      ]

-- What `pop` leaves, and what it says of the key.
pub record Popped (k : String) (g : GhostLruList) (cap : ℕ) (ts bs : List String)
    (r : GhostLruPopResult) : Type 0 where
  pub held : GhostHolds g cap (erase k ts) (if contains k ts then bs else erase k bs)
  pub item : r.item ≡ (if contains k ts || contains k bs then k else "")
  pub is_ghost : r.is_ghost ≡ (not (contains k ts) && contains k bs)

-- For two lists in good order, `pop` takes a key out of the list that it is in, the data first, and
-- says in which it was; a key in neither gives the empty item.
pub pop-Popped :
    (k : String) (g : GhostLruList) {cap : ℕ} {ts bs : List String}
    → GhostHolds g cap ts bs
    → let (g', r) = pop k g in Popped k g' cap ts bs r
unfolding pop
pop-Popped k g {ts = ts} {bs = bs} h =
    let (held, found) = delete-Holds g.data_list k h.data_held in
    let (held', found') = delete-Holds g.ghost_list k h.ghosts_held in
    elim (Bool-cases (contains k ts)) [
      | inl e ↦ rw (found ∙ e) (record {
        held = rw e (record { data_held = held; ghosts_held = h.ghosts_held });
        item = rw e;
        is_ghost = rw e;
      })
      | inr e ↦ rw (found ∙ e) (elim (Bool-cases (contains k bs)) [
        | inl e' ↦ rw (found' ∙ e') (record {
          held = rw e (record { data_held = held; ghosts_held = held' });
          item = rw (e, e');
          is_ghost = rw (e, e');
        })
        | inr e' ↦ rw (found' ∙ e') (record {
          held = rw e (record { data_held = held; ghosts_held = held' });
          item = rw (e, e');
          is_ghost = rw (e, e');
        })
      ])
    ]

module _ (k : String) (g : GhostLruList) {cap : ℕ} {ts bs : List String}
    (h : GhostHolds g cap ts bs) where
  pub pop_data :
      contains k ts ≡ true
      → let (g', r) = pop k g in
        GhostHolds g' cap (erase k ts) bs × (r.item ≡ k) × (r.is_ghost ≡ false)
  pop_data t = let f = pop-Popped k g h in (rw t at f.held, f.item ∙ rw t, f.is_ghost ∙ rw t)

  pub pop_ghost :
      contains k ts ≡ false
      → contains k bs ≡ true
      → let (g', r) = pop k g in
        GhostHolds g' cap ts (erase k bs) × (r.item ≡ k) × (r.is_ghost ≡ true)
  pop_ghost t b =
      let f = pop-Popped k g h in
      let held : GhostHolds (pop k g).0 cap (erase k ts) (erase k bs) = rw t at f.held in
      (
        subst (λ q. GhostHolds (pop k g).0 cap q (erase k bs)) (erase_absent k ts t) held,
        f.item ∙ rw (t, b),
        f.is_ghost ∙ rw (t, b),
      )

  pub pop_missing :
      contains k ts ≡ false
      → contains k bs ≡ false
      → let (g', r) = pop k g in GhostHolds g' cap ts bs × (r.item ≡ "")
  pop_missing t b =
      let f = pop-Popped k g h in
      let held : GhostHolds (pop k g).0 cap (erase k ts) (erase k bs) = rw t at f.held in
      (
        subst₂ (GhostHolds (pop k g).0 cap) (erase_absent k ts t) (erase_absent k bs b) held,
        f.item ∙ rw (t, b),
      )
