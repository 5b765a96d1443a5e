-- ===== src/FrequencySketch/Private.antt =====
-- src/core/frequency_sketch.rs, `estimate`: a key with a counter of its own is counted exactly.
use matrixcache.Base.{
  ◌^◌, ℕ, zero, suc, ◌+◌, ◌/◌, ◌≤◌, ◌<◌, min, ◌≡◌, refl, sym, ◌∙◌, ap, arith, List, [], ◌∷◌, map,
  true, false, leb, Bool-cases, inl, inr, ◌⊎◌, get_or, if◌then◌else◌, u64_max,
}
use mathlib.Core.Path.{subst, subst₂}
use matrixcache.Arena.Segment.{NotIn}
use matrixcache.FrequencySketch.{
  CacheKey, FrequencySketch, with_capacity, positions, bump, bump_all, record_access, estimate,
  zeros, width_for,
}
use matrixcache.FrequencySketch.Counters.{
  among, bump_all-NotIn, bump_all-once, least-le-among, get_or-map, length-half, length-bump_all,
}
use matrixcache.FrequencySketch.Positions.{IsSized, with_capacity-IsSized, positions-Distinct}
use matrixcache.FrequencySketch.Estimate.{
  key_eq, key_eq-eq, tick, exact_from, exact, record_all, at_rest, record_positions-at_rest,
  positions-mask, IsSized-at_rest, exact-le-estimate,
}

-- No other key of the list uses the counter `p`.
abbrev pub IsPrivate : ℕ → CacheKey → FrequencySketch → List CacheKey → Type 0
IsPrivate p key s [] = Unit {0}
IsPrivate p key s (k ∷ ks) =
    ((key_eq k key ≡ true) ⊎ ((key_eq k key ≡ false) × NotIn p (positions k s)))
    × IsPrivate p key s ks

IsPrivate-mask :
    (p : ℕ) (key : CacheKey) (s t : FrequencySketch) (ks : List CacheKey)
    → s.mask ≡ t.mask
    → IsPrivate p key s ks
    → IsPrivate p key t ks
IsPrivate-mask p key s t [] e h = tt
IsPrivate-mask p key s t (k ∷ ks) e h = (
  subst (λ ps. (key_eq k key ≡ true) ⊎ ((key_eq k key ≡ false) × NotIn p ps))
      (positions-mask k s t e) h.0,
  IsPrivate-mask p key s t ks e h.1,
)

bump-min : (n : ℕ) → n ≤ 255 → bump n ≡ min (n + 1) 255
unfolding bump
bump-min n h = ground arith

-- One access, seen at the counter `p`.
counter_step :
    (p : ℕ) (k key : CacheKey) (s : FrequencySketch)
    → IsSized s
    → among p (positions key s) ≡ true
    → (key_eq k key ≡ true) ⊎ ((key_eq k key ≡ false) × NotIn p (positions k s))
    → get_or s.counters p 0 ≤ 255
    → get_or (bump_all (positions k s) s.counters) p 0
      ≡ (if key_eq k key then min (get_or s.counters p 0 + 1) 255 else get_or s.counters p 0)
counter_step p k key s v own h small = elim h [
  | inl e ↦
      (let (below, distinct) = positions-Distinct key s v in
        rw e (
          subst
            (λ t.
              get_or (bump_all (positions t s) s.counters) p 0
              ≡ min (get_or s.counters p 0 + 1) 255)
            (sym (key_eq-eq k key e))
            (bump_all-once p (positions key s) s.counters distinct below own
              ∙ bump-min (get_or s.counters p 0) small)))
  | inr (e, o) ↦ rw e (bump_all-NotIn p (positions k s) s.counters o)
]

estimate-le-counter :
    (p : ℕ) (key : CacheKey) (s : FrequencySketch)
    → among p (positions key s) ≡ true
    → estimate key s ≤ get_or s.counters p 0
unfolding estimate
estimate-le-counter p key s own = least-le-among p s.counters (positions key s) own

covered_exactly :
    (keys : List CacheKey) (key : CacheKey) (cs : List ℕ) (mask w size p : ℕ)
    → IsSized (at_rest cs mask w size)
    → w < size
    → size ≤ u64_max
    → among p (positions key (at_rest cs mask w size)) ≡ true
    → IsPrivate p key (at_rest cs mask w size) keys
    → get_or cs p 0 ≤ 255
    → estimate key (record_all keys (at_rest cs mask w size))
      ≤ exact_from size key keys (get_or cs p 0, w)
unfolding exact_from record_all tick record_access
covered_exactly [] key cs mask w size p v low small own h few =
    estimate-le-counter p key (at_rest cs mask w size) own
covered_exactly (k ∷ ks) key cs mask w size p v low small own h few =
    let s = at_rest cs mask w size in
    let qs = positions k s in
    let cs' = bump_all qs cs in
    let c = get_or cs p 0 in
    let n' = if key_eq k key then min (c + 1) 255 else c in
    let next = record_positions-at_rest qs cs mask w size low small in
    let step : get_or cs' p 0 ≡ n' = counter_step p k key s v own h.0 few in
    let few' : n' ≤ 255 = ground arith in
    elim (Bool-cases (leb size (w + 1))) [
      | inl e ↦
          (let half = map (λ c. c / 2) cs' in
            let s' = at_rest half mask ((w + 1) / 2) size in
            let halved : get_or half p 0 ≡ n' / 2 = get_or-map cs' p ∙ ap (λ t. t / 2) step in
            let seen : (get_or half p 0, (w + 1) / 2) ≡ tick size (key_eq k key) (c, w) =
              rw e (ap (λ t. (t, (w + 1) / 2)) halved) in
            subst₂ (λ u t. estimate key (record_all ks u) ≤ exact_from size key ks t)
              (sym (next ∙ rw e refl)) seen
              (covered_exactly ks key half mask ((w + 1) / 2) size p
                (IsSized-at_rest cs half mask w ((w + 1) / 2) size
                  (length-half cs' ∙ length-bump_all qs cs) v)
                (ground arith) small
                (subst (λ t. among p t ≡ true) (positions-mask key s s' refl) own)
                (IsPrivate-mask p key s s' ks refl h.1) (omega (arith, halved, few'))))
      | inr e ↦
          (let s' = at_rest cs' mask (w + 1) size in
            let seen : (get_or cs' p 0, w + 1) ≡ tick size (key_eq k key) (c, w) =
              rw e (ap (λ t. (t, w + 1)) step) in
            subst₂ (λ u t. estimate key (record_all ks u) ≤ exact_from size key ks t)
              (sym (next ∙ rw e refl)) seen
              (covered_exactly ks key cs' mask (w + 1) size p
                (IsSized-at_rest cs cs' mask w (w + 1) size (length-bump_all qs cs) v)
                (ground arith) small
                (subst (λ t. among p t ≡ true) (positions-mask key s s' refl) own)
                (IsPrivate-mask p key s s' ks refl h.1) (omega (arith, step, few'))))
    ]

get_or-zeros : (n p : ℕ) → get_or (zeros n) p 0 ≡ 0
unfolding zeros
get_or-zeros zero p = refl
get_or-zeros (suc n) zero = refl
get_or-zeros (suc n) (suc p) = get_or-zeros n p

-- If one of a key's counters is used by no other key that is recorded in a new sketch
-- for at most 2 ^ 58 entries, then the
-- key's estimate is its exact recent count.
pub estimate-exact :
    (entries : ℕ) (keys : List CacheKey) (key : CacheKey) (p : ℕ)
    → entries ≤ 2 ^ 58
    → among p (positions key (with_capacity entries)) ≡ true
    → IsPrivate p key (with_capacity entries) keys
    → estimate key (record_all keys (with_capacity entries))
      ≡ exact (with_capacity entries).max_window key keys
unfolding with_capacity
estimate-exact entries keys key p few own h =
    let s = with_capacity entries in
    let none : get_or s.counters p 0 ≡ 0 = get_or-zeros (width_for entries) p in
    let low = exact-le-estimate entries keys key few in
    let high =
      subst (λ n. estimate key (record_all keys s) ≤ exact_from s.max_window key keys (n, 0)) none
        (covered_exactly keys key s.counters s.mask 0 s.max_window p
          (with_capacity-IsSized entries few) (omega arith) (omega arith) own h
          (omega (arith, none))) in
    omega (arith, low, high)
