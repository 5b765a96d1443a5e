-- ===== src/FrequencySketch/Estimate.antt =====
-- src/core/frequency_sketch.rs, `record` and `estimate`: what a key's estimate says of the accesses.
use matrixcache.Base.{
  list_eq, list_eq-eq, ℕ, ◌+◌, ◌/◌, ◌%◌, ◌^◌, ◌≤◌, ◌<◌, min, ◌≡◌, refl, sym, ◌∙◌, ap, arith, List,
  [], ◌∷◌, map, Bool, true, false, ◌&&◌, leb, ◌==◌, Bool-cases, inl, inr, length, if◌then◌else◌,
  u64_max,
}
use mathlib.Core.Path.{subst, subst₂}
use matrixcache.FrequencySketch.{
  CacheKey, FrequencySketch, position_at, first_of, step_of, with_capacity, positions, bump_all,
  decay, record_positions, record_access, estimate,
}
use matrixcache.FrequencySketch.Counters.{
  AtLeast, AtLeast-hit, AtLeast-half, AtLeast-bump_all, least-AtLeast, length-half, length-bump_all,
}
use matrixcache.FrequencySketch.Positions.{IsSized, with_capacity-IsSized, positions-Distinct}

-- Whether two keys agree in every field, as the derived `==` tells.
unfoldable pub key_eq : CacheKey → CacheKey → Bool
key_eq j k =
    (j.shard_id == k.shard_id)
    && (list_eq j.record_key k.record_key
        && (list_eq j.namespace k.namespace && list_eq j.selector k.selector))

pub key_eq-eq : (j k : CacheKey) → key_eq j k ≡ true → j ≡ k
unfolding key_eq
key_eq-eq j k h =
    let a : j.shard_id ≡ k.shard_id = ground arith in
    let b : j.record_key ≡ k.record_key = list_eq-eq j.record_key k.record_key (ground arith) in
    let c : j.namespace ≡ k.namespace = list_eq-eq j.namespace k.namespace (ground arith) in
    let d : j.selector ≡ k.selector = list_eq-eq j.selector k.selector (ground arith) in
    λ i. record { shard_id = a i; record_key = b i; namespace = c i; selector = d i }

-- The exact count that a sketch stands for: one more for each access of the key, up to 255, and
-- half of it each time that the accesses of all keys fill the window, of which half then stay.
unfoldable pub tick : ℕ → Bool → ℕ × ℕ → ℕ × ℕ
tick size hit (count, window) =
    let count' = if hit then min (count + 1) 255 else count in
    if leb size (window + 1) then (count' / 2, (window + 1) / 2) else (count', window + 1)

unfoldable pub exact_from : ℕ → CacheKey → List CacheKey → ℕ × ℕ → ℕ
exact_from size key [] (count, window) = count
exact_from size key (k ∷ ks) (count, window) =
    exact_from size key ks (tick size (key_eq k key) (count, window))

unfoldable pub record_all : List CacheKey → FrequencySketch → FrequencySketch
record_all [] s = s
record_all (k ∷ ks) s = record_all ks (record_access k s)

-- A sketch between two calls.
abbrev pub at_rest : List ℕ → ℕ → ℕ → ℕ → FrequencySketch
at_rest cs mask window size = record {
  counters = cs;
  mask = mask;
  window = window;
  max_window = size;
  aging = false;
}

pub record_positions-at_rest :
    (qs cs : List ℕ) (mask window size : ℕ)
    → window < size
    → size ≤ u64_max
    → record_positions qs (at_rest cs mask window size) ≡ (
        if leb size (window + 1)
        then at_rest (map (λ c. c / 2) (bump_all qs cs)) mask ((window + 1) / 2) size
        else at_rest (bump_all qs cs) mask (window + 1) size)
unfolding record_positions decay
record_positions-at_rest qs cs mask window size low small =
    let whole : (window + 1) % 2 ^ 64 ≡ window + 1 = omega arith in rw whole (ground arith)

pub IsSized-at_rest :
    (cs cs' : List ℕ) (mask w w' size : ℕ)
    → length cs' ≡ length cs
    → IsSized (at_rest cs mask w size)
    → IsSized (at_rest cs' mask w' size)
IsSized-at_rest cs cs' mask w w' size same v = record {
  exponent = v.exponent;
  width = same ∙ v.width;
  mask = v.mask;
  wide = v.wide;
}

-- After one access of a key, hit or not, the counters of `key` are at least its new exact count.
covers_step :
    (qs cs : List ℕ) (key : CacheKey) (hit : Bool) (mask w size n : ℕ)
    → IsSized (at_rest cs mask w size)
    → (hit ≡ true → qs ≡ positions key (at_rest cs mask w size))
    → AtLeast n cs (positions key (at_rest cs mask w size))
    → AtLeast
        (if hit then min (n + 1) 255 else n)
        (bump_all qs cs)
        (positions key (at_rest cs mask w size))
covers_step qs cs key true mask w size n v same h =
    let ps = positions key (at_rest cs mask w size) in
    subst (λ t. AtLeast (min (n + 1) 255) (bump_all t cs) ps) (sym (same refl))
      (AtLeast-hit n cs ps (positions-Distinct key (at_rest cs mask w size) v).0 h)
covers_step qs cs key false mask w size n v same h =
    AtLeast-bump_all n qs cs (positions key (at_rest cs mask w size)) h

estimate-AtLeast :
    (n : ℕ) (key : CacheKey) (s : FrequencySketch)
    → AtLeast n s.counters (positions key s)
    → n ≤ estimate key s
unfolding estimate positions
estimate-AtLeast n key s h =
    let at = position_at (first_of key) (step_of key) s.mask in
    least-AtLeast n (at 0) s.counters (at 1 ∷ at 2 ∷ at 3 ∷ []) h

pub positions-mask :
    (key : CacheKey) (s t : FrequencySketch) → s.mask ≡ t.mask → positions key s ≡ positions key t
unfolding positions
positions-mask key s t e = rw e refl

covers :
    (keys : List CacheKey) (key : CacheKey) (cs : List ℕ) (mask w size n : ℕ)
    → IsSized (at_rest cs mask w size)
    → w < size
    → size ≤ u64_max
    → AtLeast n cs (positions key (at_rest cs mask w size))
    → exact_from size key keys (n, w) ≤ estimate key (record_all keys (at_rest cs mask w size))
unfolding exact_from record_all tick record_access
covers [] key cs mask w size n v low small h = estimate-AtLeast n key (at_rest cs mask w size) h
covers (k ∷ ks) key cs mask w size n v low small h =
    let s = at_rest cs mask w size in
    let qs = positions k s in
    let cs' = bump_all qs cs in
    let n' = if key_eq k key then min (n + 1) 255 else n in
    let next = record_positions-at_rest qs cs mask w size low small in
    let raised : AtLeast n' cs' (positions key s) =
      covers_step qs cs key (key_eq k key) mask w size n v
        (λ e. ap (λ t. positions t s) (key_eq-eq k key e)) h in
    elim (Bool-cases (leb size (w + 1))) [
      | inl e ↦
          (let half = map (λ c. c / 2) cs' in
            let s' = at_rest half mask ((w + 1) / 2) size in
            subst₂ (λ t u. exact_from size key ks t ≤ estimate key (record_all ks u))
              (sym (rw e refl)) (sym (next ∙ rw e refl))
              (covers ks key half mask ((w + 1) / 2) size (n' / 2)
                (IsSized-at_rest cs half mask w ((w + 1) / 2) size
                  (length-half cs' ∙ length-bump_all qs cs) v)
                (ground arith) small
                (subst (AtLeast (n' / 2) half) (positions-mask key s s' refl)
                  (AtLeast-half n' cs' (positions key s) raised))))
      | inr e ↦
          (let s' = at_rest cs' mask (w + 1) size in
            subst₂ (λ t u. exact_from size key ks t ≤ estimate key (record_all ks u))
              (sym (rw e refl)) (sym (next ∙ rw e refl))
              (covers ks key cs' mask (w + 1) size n'
                (IsSized-at_rest cs cs' mask w (w + 1) size (length-bump_all qs cs) v)
                (ground arith) small
                (subst (AtLeast n' cs') (positions-mask key s s' refl) raised)))
    ]

-- The exact recent count of a key over accesses of a sketch that starts empty.
abbrev pub exact : ℕ → CacheKey → List CacheKey → ℕ
exact size key keys = exact_from size key keys (0, 0)

AtLeast-zero : (cs ps : List ℕ) → AtLeast 0 cs ps
AtLeast-zero cs [] = tt
AtLeast-zero cs (p ∷ ps) = (omega arith, AtLeast-zero cs ps)

-- After any accesses recorded in a new sketch for at most 2 ^ 58 entries, an estimate is never below the exact recent count of
-- the key, however the keys collide: the key's accesses, up to 255, halved each time that the
-- accesses of all keys fill the window.
pub exact-le-estimate :
    (entries : ℕ) (keys : List CacheKey) (key : CacheKey)
    → entries ≤ 2 ^ 58
    → exact (with_capacity entries).max_window key keys
      ≤ estimate key (record_all keys (with_capacity entries))
unfolding with_capacity
exact-le-estimate entries keys key few =
    let s = with_capacity entries in
    covers keys key s.counters s.mask 0 s.max_window 0 (with_capacity-IsSized entries few)
      (omega arith) (omega arith) (AtLeast-zero s.counters (positions key s))
