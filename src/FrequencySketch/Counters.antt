-- ===== src/FrequencySketch/Counters.antt =====
-- src/core/frequency_sketch.rs, `record_positions` and `decay`: what they do to the counters.
use matrixcache.Base.{
  Bool, true, false, Bool-cases, inl, inr, ℕ, zero, suc, ◌+◌, ◌/◌, ◌≤◌, min, ◌≡◌, refl, sym, ◌∙◌,
  ap, arith, List, [], ◌∷◌, map, ◌&&◌, ltb, ◌==◌, length, get_or, set, length-set, if◌then◌else◌,
}
use mathlib.Core.Path.{subst}
use matrixcache.Arena.Segment.{NotIn, Distinct}
use matrixcache.FrequencySketch.{bump, bump_all, least}
use matrixcache.FrequencySketch.Positions.{Below}

pub get_or-set :
    (xs : List ℕ) (i j v : ℕ)
    → get_or (set xs i v) j 0 ≡ (if (i == j) && ltb i (length xs) then v else get_or xs j 0)
get_or-set [] i j v = ground arith
get_or-set (x ∷ xs) zero zero v = ground arith
get_or-set (x ∷ xs) zero (suc j) v = ground arith
get_or-set (x ∷ xs) (suc i) zero v = ground arith
get_or-set (x ∷ xs) (suc i) (suc j) v = ground (arith, get_or-set xs i j v)

pub get_or-map : (xs : List ℕ) (i : ℕ) → get_or (map (λ c. c / 2) xs) i 0 ≡ get_or xs i 0 / 2
get_or-map [] i = refl
get_or-map (x ∷ xs) zero = refl
get_or-map (x ∷ xs) (suc i) = get_or-map xs i

pub length-bump_all : (ps cs : List ℕ) → length (bump_all ps cs) ≡ length cs
unfolding bump_all
length-bump_all [] cs = refl
length-bump_all (p ∷ ps) cs =
    length-bump_all ps (set cs p (bump (get_or cs p 0))) ∙ length-set cs p (bump (get_or cs p 0))

pub bump_all-grows : (ps cs : List ℕ) (i : ℕ) → get_or cs i 0 ≤ get_or (bump_all ps cs) i 0
unfolding bump_all bump
bump_all-grows [] cs i = omega arith
bump_all-grows (p ∷ ps) cs i = ground (
  arith,
  get_or-set cs p i (bump (get_or cs p 0)),
  bump_all-grows ps (set cs p (bump (get_or cs p 0))) i,
)

-- Each of the counters is at least a number.
abbrev pub AtLeast : ℕ → List ℕ → List ℕ → Type 0
AtLeast n cs [] = Unit {0}
AtLeast n cs (p ∷ ps) = (n ≤ get_or cs p 0) × AtLeast n cs ps

pub AtLeast-bump_all : (n : ℕ) (qs cs ps : List ℕ) → AtLeast n cs ps → AtLeast n (bump_all qs cs) ps
AtLeast-bump_all n qs cs [] h = tt
AtLeast-bump_all n qs cs (p ∷ ps) h =
    (omega (arith, bump_all-grows qs cs p, h.0), AtLeast-bump_all n qs cs ps h.1)

pub AtLeast-half :
    (n : ℕ) (cs ps : List ℕ) → AtLeast n cs ps → AtLeast (n / 2) (map (λ c. c / 2) cs) ps
AtLeast-half n cs [] h = tt
AtLeast-half n cs (p ∷ ps) h = (omega (arith, get_or-map cs p, h.0), AtLeast-half n cs ps h.1)

-- An access raises all of the key's counters.
pub AtLeast-hit :
    (n : ℕ) (cs ps : List ℕ)
    → Below (length cs) ps
    → AtLeast n cs ps
    → AtLeast (min (n + 1) 255) (bump_all ps cs) ps
unfolding bump_all bump
AtLeast-hit n cs [] b h = tt
AtLeast-hit n cs (p ∷ ps) b h =
    let v = bump (get_or cs p 0) in
    let cs' = set cs p v in
    let raised : min (n + 1) 255 ≤ get_or cs' p 0 = ground (arith, get_or-set cs p p v) in
    (
      omega (arith, bump_all-grows ps cs' p, raised),
      AtLeast-hit n cs' ps (subst (λ t. Below t ps) (sym (length-set cs p v)) b.1)
          (AtLeast-bump_all n (p ∷ []) cs ps h.1),
    )

pub least-AtLeast :
    (n p : ℕ) (cs ps : List ℕ)
    → AtLeast n cs (p ∷ ps)
    → n ≤ least (map (λ q. get_or cs q 0) (p ∷ ps))
unfolding least
least-AtLeast n p cs [] h = h.0
least-AtLeast n p cs (q ∷ ps) h = omega (arith, h.0, least-AtLeast n q cs ps h.1)

pub length-half : (cs : List ℕ) → length (map (λ c. c / 2) cs) ≡ length cs
length-half [] = refl
length-half (c ∷ cs) = ap suc (length-half cs)

abbrev pub among : ℕ → List ℕ → Bool
among p [] = false
among p (q ∷ ps) = if q == p then true else among p ps

pub bump_all-NotIn :
    (p : ℕ) (qs cs : List ℕ) → NotIn p qs → get_or (bump_all qs cs) p 0 ≡ get_or cs p 0
unfolding bump_all
bump_all-NotIn p [] cs o = refl
bump_all-NotIn p (q ∷ qs) cs o =
    let v = bump (get_or cs q 0) in
    bump_all-NotIn p qs (set cs q v) o.1 ∙ ground (arith, get_or-set cs q p v, o.0)

-- Each counter is raised once.
pub bump_all-once :
    (p : ℕ) (ps cs : List ℕ)
    → Distinct ps
    → Below (length cs) ps
    → among p ps ≡ true
    → get_or (bump_all ps cs) p 0 ≡ bump (get_or cs p 0)
unfolding bump_all
bump_all-once p [] cs d b m = absurd (cc)
bump_all-once p (q ∷ ps) cs d b m =
    let v = bump (get_or cs q 0) in
    elim (Bool-cases (q == p)) [
      | inl e ↦
          (let same : q ≡ p = ground arith in
            subst (λ t. get_or (bump_all ps (set cs q v)) t 0 ≡ bump (get_or cs t 0)) same
              (bump_all-NotIn q ps (set cs q v) d.0 ∙ ground (arith, get_or-set cs q q v, b.0)))
      | inr e ↦
          bump_all-once p ps (set cs q v) d.1
            (subst (λ t. Below t ps) (sym (length-set cs q v)) b.1) (ground arith)
          ∙ ap bump (ground (arith, get_or-set cs q p v))
    ]

pub least-le-among :
    (p : ℕ) (cs ps : List ℕ)
    → among p ps ≡ true
    → least (map (λ q. get_or cs q 0) ps) ≤ get_or cs p 0
unfolding least
least-le-among p cs [] m = absurd (cc)
least-le-among p cs (q ∷ []) m = elim (Bool-cases (q == p)) [
  | inl e ↦ (let same : q ≡ p = ground arith in rw same (omega arith))
  | inr e ↦ absurd (ground arith)
]
least-le-among p cs (q ∷ r ∷ ps) m = elim (Bool-cases (q == p)) [
  | inl e ↦ (let same : q ≡ p = ground arith in rw same (omega arith))
  | inr e ↦ (let ih = least-le-among p cs (r ∷ ps) (ground arith) in omega (arith, ih))
]
