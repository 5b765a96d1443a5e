-- ===== src/Arc/Policy/Step.antt =====
-- src/runtime/replacement.rs, `ReplacementArc`: each request against the model.
use matrixcache.Base.{
  ℕ, suc, ◌<◌, ◌≡◌, refl, sym, ◌∙◌, ap, List, [], ◌∷◌, String, Bool, true, false, ◌||◌, take,
  reverse, str_eq, if◌then◌else◌, arith, Bool-cases, inl, inr,
}
use mathlib.Core.Path.{subst₂}
use matrixcache.Base.Map.{contains, erase, length-erase-le, erase_absent}
use matrixcache.Ghost
use matrixcache.Ghost.Holds.{GhostHolds, delete-GhostHolds, reset-GhostHolds}
use matrixcache.Lru.Evict.{get_tail-reverse}
use matrixcache.Arc
use matrixcache.Arc.{ArcList}
use matrixcache.Arc.Model
use matrixcache.Arc.Model.{Lists}
use matrixcache.Arc.Bounds.{InBounds, c-access}
use matrixcache.Arc.Room.{ArcHolds}
use matrixcache.Arc.Refine.{access-ArcHolds}
use matrixcache.Arena.{key_list_nil}
use matrixcache.Arc.Growth.{Fits, access-Fits}
use matrixcache.Arc.Policy.{
  ReplacementArc, init, reset, set_item_capacity, put, get, delete, get_active_tail, get_fetch_tail,
}

pub data Call : Type 0 where
  init_all reset_all : Call
  set_capacity_to : ℕ → Call
  put_key : String → Call
  get_key : String → Call
  delete_key : String → Call
  active_tail fetch_tail : ℕ → Call

-- What a call returns.
pub data Reply : Type 0 where
  done : Reply
  found : Bool → Reply
  listed : List String → Reply

unfoldable pub step : Call → ReplacementArc → ReplacementArc × Reply
step init_all r = (init r, done)
step reset_all r = (reset r, done)
step (set_capacity_to n) r = (set_item_capacity n r, done)
step (put_key k) r = (put k r, done)
step (get_key k) r = let (r', b) = get k r in (r', found b)
step (delete_key k) r = let (r', b) = delete k r in (r', found b)
step (active_tail n) r = (r, listed (get_active_tail n r))
step (fetch_tail n) r = (r, listed (get_fetch_tail n r))

unfoldable pub after : List Call → ReplacementArc → ReplacementArc
after [] r = r
after (c ∷ cs) r = after cs (step c r).0

-- `get` of the empty key is left out, for which see `Adaptive.empty_key_is_tracked` of the tests, and
-- a capacity that no list of keys can have.
abbrev pub IsRegular : Call → Type 0
IsRegular (get_key k) = str_eq k "" ≡ false
IsRegular (set_capacity_to c) = c < key_list_nil
IsRegular _ = Unit {0}

abbrev pub AllRegular : List Call → Type 0
AllRegular [] = Unit {0}
AllRegular (c ∷ cs) = IsRegular c × AllRegular cs

unfoldable pub model_delete : String → Lists → Lists × Bool
model_delete k s =
    if contains k s.t1 || contains k s.b1
    then (record s { t1 = erase k s.t1; b1 = erase k s.b1 }, true)
    else (record s { t2 = erase k s.t2; b2 = erase k s.b2 }, contains k s.t2 || contains k s.b2)

unfoldable pub model_step : Call → Lists → Lists × Reply
model_step init_all s = (s, done)
model_step reset_all s = (record s { t1 = []; b1 = []; t2 = []; b2 = [] }, done)
model_step (set_capacity_to n) s = (record s { c = n }, done)
model_step (put_key k) s = (if str_eq k "" then s else (Model.access k s).0, done)
model_step (get_key k) s = let (s', b) = Model.access k s in (s', found b)
model_step (delete_key k) s = let (s', b) = model_delete k s in (s', found b)
model_step (active_tail n) s = (s, listed (take n (reverse s.t2)))
model_step (fetch_tail n) s = (s, listed (take n (reverse s.t1)))

-- The policy holds the model's lists, with room for so many more keys.
pub record Tracks (n : ℕ) (r : ReplacementArc) (s : Lists) : Type 0 where
  pub lists : ArcHolds r.arc_list s
  pub capacity : r.item_capacity ≡ s.c
  pub fits : Fits n s

delete-ArcHolds :
    (k : String) (a : ArcList) (s : Lists)
    → ArcHolds a s
    → let (a', deleted) = Arc.delete k a in
      ArcHolds a' (model_delete k s).0 × (deleted ≡ (model_delete k s).1)
unfolding Arc.delete model_delete
delete-ArcHolds k a s h =
    let (f, there) = delete-GhostHolds a.fetch_list h.fetch k in
    let (g, there') = delete-GhostHolds a.active_list h.active k in
    elim (Bool-cases (contains k s.t1 || contains k s.b1)) [
      | inl e ↦
          rw (there ∙ e, e) (record { capacity = h.capacity; fetch = f; active = h.active }, refl)
      | inr e ↦
          rw (there ∙ e, e)
            (
              record {
                capacity = h.capacity;
                fetch =
                    subst₂ (GhostHolds (Ghost.delete k a.fetch_list).0 s.p)
                      (erase_absent k s.t1 (ground arith)) (erase_absent k s.b1 (ground arith)) f;
                active = g;
              },
              there',
            )
    ]

model_delete-Fits : (n : ℕ) (k : String) (s : Lists) → Fits (suc n) s → Fits n (model_delete k s).0
unfolding model_delete
model_delete-Fits n k s v = ground (
  arith,
  length-erase-le k s.t1,
  length-erase-le k s.b1,
  length-erase-le k s.t2,
  length-erase-le k s.b2,
)

pub model_delete-InBounds : (k : String) (s : Lists) → InBounds s → InBounds (model_delete k s).0
unfolding model_delete
model_delete-InBounds k s v = ground (
  arith,
  length-erase-le k s.t1,
  length-erase-le k s.b1,
  length-erase-le k s.t2,
  length-erase-le k s.b2,
)

reset-ArcHolds :
    (a : ArcList) (s : Lists)
    → ArcHolds a s
    → ArcHolds (Arc.reset a) (record s { t1 = []; b1 = []; t2 = []; b2 = [] })
unfolding Arc.reset
reset-ArcHolds a s h = record {
  capacity = h.capacity;
  fetch = reset-GhostHolds a.fetch_list h.fetch;
  active = reset-GhostHolds a.active_list h.active;
}

-- A call keeps the correspondence, and answers as the model does.
pub record Agrees (n : ℕ) (c : Call) (r : ReplacementArc) (s : Lists) : Type 0 where
  pub tracks : Tracks n (step c r).0 (model_step c s).0
  pub reply : (step c r).1 ≡ (model_step c s).1

pub c-model_delete : (k : String) (s : Lists) → (model_delete k s).0.c ≡ s.c
unfolding model_delete
c-model_delete k s = ground arith

-- The state after a request, where the code's lists hold the model's.
access-Tracks :
    (n : ℕ) (k : String) (r : ReplacementArc) (s : Lists)
    → str_eq k "" ≡ false
    → Tracks (suc n) r s
    → let (a, hit) = Arc.access k r.arc_list in
      Tracks n (record r { arc_list = a }) (Model.access k s).0 × (hit ≡ (Model.access k s).1)
access-Tracks n k r s named t =
    let (held, hit) = access-ArcHolds k r.arc_list s named (omega (arith, t.fits)) t.lists in
    (
      record {
        lists = held;
        capacity = t.capacity ∙ sym (c-access k s);
        fits = access-Fits n k s t.fits;
      },
      hit,
    )

fewer : {n : ℕ} {r : ReplacementArc} {s : Lists} → Tracks (suc n) r s → Tracks n r s
fewer t = record { lists = t.lists; capacity = t.capacity; fits = omega (arith, t.fits) }

pub step-Agrees :
    (n : ℕ) (c : Call) (r : ReplacementArc) (s : Lists)
    → IsRegular c
    → Tracks (suc n) r s
    → Agrees n c r s
unfolding step model_step init reset set_item_capacity put get delete Arc.set_capacity Arc.put
    Arc.get
step-Agrees n init_all r s named t = record {
  tracks = record {
    lists = record { capacity = t.capacity; fetch = t.lists.fetch; active = t.lists.active };
    capacity = t.capacity;
    fits = omega (arith, t.fits);
  };
  reply = refl;
}
step-Agrees n reset_all r s named t = record {
  tracks = record {
    lists = reset-ArcHolds r.arc_list s t.lists;
    capacity = t.capacity;
    fits = omega (arith, t.fits);
  };
  reply = refl;
}
step-Agrees n (set_capacity_to c) r s small t = record {
  tracks = record {
    lists = record { capacity = refl; fetch = t.lists.fetch; active = t.lists.active };
    capacity = refl;
    fits = omega (arith, t.fits, small);
  };
  reply = refl;
}
step-Agrees n (put_key k) r s named t = elim (Bool-cases (str_eq k "")) [
  | inl e ↦ record { tracks = rw e (fewer t); reply = refl }
  | inr e ↦ record { tracks = rw e (access-Tracks n k r s e t).0; reply = refl }
]
step-Agrees n (get_key k) r s named t =
    let (t', hit) = access-Tracks n k r s named t in record { tracks = t'; reply = ap found hit }
step-Agrees n (delete_key k) r s named t =
    let (held, deleted) = delete-ArcHolds k r.arc_list s t.lists in
    record {
      tracks = record {
        lists = held;
        capacity = t.capacity ∙ sym (c-model_delete k s);
        fits = model_delete-Fits n k s t.fits;
      };
      reply = ap found deleted;
    }
step-Agrees n (active_tail i) r s named t = record {
  tracks = fewer t;
  reply = ap listed (get_tail-reverse _ i t.lists.active.data_held);
}
step-Agrees n (fetch_tail i) r s named t = record {
  tracks = fewer t;
  reply = ap listed (get_tail-reverse _ i t.lists.fetch.data_held);
}
