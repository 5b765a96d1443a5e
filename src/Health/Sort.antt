-- ===== src/Health/Sort.antt =====
-- src/core/health.rs, `cache_health_report`: the order of its findings.
use matrixcache.Base.{
  ◌+◌, ◌≡◌, refl, ◌∙◌, List, [], ◌∷◌, ◌++◌, String, true, false, arith, Bool-cases, inl, inr,
}
use matrixcache.Health.{
  CacheHealthFinding, CacheHealthSeverity, str_leb, goes_before, insert_finding, sort_findings,
  count_severity,
}

str_leb-total : (s t : String) → str_leb s t ≡ false → str_leb t s ≡ true
unfolding str_leb
str_leb-total String.[] t h = absurd (cc)
str_leb-total (String.◌∷◌ c s) String.[] h = refl
str_leb-total (String.◌∷◌ c s) (String.◌∷◌ d t) h = ground (arith, str_leb-total s t)

goes_before-total : (f g : CacheHealthFinding) → goes_before f g ≡ false → goes_before g f ≡ true
unfolding goes_before
goes_before-total f g h = ground (arith, str_leb-total f.id g.id)

-- Each finding goes before the next, or ties with it.
abbrev pub IsSorted : List CacheHealthFinding → Type 0
IsSorted [] = Unit {0}
IsSorted (f ∷ []) = Unit {0}
IsSorted (f ∷ g ∷ gs) = (goes_before f g ≡ true) × IsSorted (g ∷ gs)

insert_finding-IsSorted :
    (f : CacheHealthFinding) (fs : List CacheHealthFinding)
    → IsSorted fs
    → IsSorted (insert_finding f fs)
unfolding insert_finding
insert_finding-IsSorted f [] h = tt
insert_finding-IsSorted f (g ∷ []) h = ground (arith, goes_before-total f g)
insert_finding-IsSorted f (g ∷ k ∷ ks) h =
    ground (arith, goes_before-total f g, goes_before-total f k, insert_finding-IsSorted f (k ∷ ks))

pub sort_findings-IsSorted : (fs : List CacheHealthFinding) → IsSorted (sort_findings fs)
unfolding sort_findings
sort_findings-IsSorted [] = tt
sort_findings-IsSorted (f ∷ fs) =
    insert_finding-IsSorted f (sort_findings fs) (sort_findings-IsSorted fs)

count_severity-insert_finding :
    (s : CacheHealthSeverity) (f : CacheHealthFinding) (fs : List CacheHealthFinding)
    → count_severity s (insert_finding f fs) ≡ count_severity s (f ∷ fs)
unfolding count_severity insert_finding
count_severity-insert_finding s f [] = refl
count_severity-insert_finding s f (g ∷ gs) = elim (Bool-cases (goes_before f g)) [
  | inl e ↦ rw e refl
  | inr e ↦ rw e (omega (arith, count_severity-insert_finding s f gs))
]

-- Sorting loses no finding of a severity, and adds none.
pub count_severity-sort_findings :
    (s : CacheHealthSeverity) (fs : List CacheHealthFinding)
    → count_severity s (sort_findings fs) ≡ count_severity s fs
unfolding count_severity sort_findings
count_severity-sort_findings s [] = refl
count_severity-sort_findings s (f ∷ fs) =
    count_severity-insert_finding s f (sort_findings fs)
    ∙ omega (arith, count_severity-sort_findings s fs)

pub count_severity-append :
    (s : CacheHealthSeverity) (fs gs : List CacheHealthFinding)
    → count_severity s (fs ++ gs) ≡ count_severity s fs + count_severity s gs
unfolding count_severity
count_severity-append s [] gs = omega arith
count_severity-append s (f ∷ fs) gs = omega (arith, count_severity-append s fs gs)
