-- ===== src/Health/Reads.antt =====
-- src/core/health.rs, `cache_health_report` and `CacheHealthReport`: what a reader of a report relies on.
use matrixcache.Base.{
  ◌+◌, ◌≤◌, ◌<◌, ◌≡◌, refl, sym, ◌∙◌, List, [], ◌∷◌, length, ◌==◌, arith, some, inl, inr, ◌⊎◌, Bool,
  true, ltb, if◌then◌else◌,
}
use matrixcache.Health.{
  CacheHealthFinding, CacheHealthSeverity, CacheStats, info, warning, critical, rank, is_of,
  count_severity, str_leb, goes_before, sort_findings,
}
use matrixcache.Health.Rules.{collected, cache_health_report, filter_severe, at_least, worst}
use matrixcache.Health.Rules.{first_finding}
use matrixcache.Health.Sort.{IsSorted, sort_findings-IsSorted, count_severity-sort_findings}

-- Which severities may stand right before which: critical ones before all, notes before notes only.
abbrev pub Precedes : CacheHealthSeverity → CacheHealthSeverity → Type 0
Precedes critical warning = Unit {0}
Precedes critical info = Unit {0}
Precedes warning info = Unit {0}
Precedes _ _ = ⊥

-- Each finding is more severe than the next, or as severe with an id that is not after the next one's.
abbrev pub IsOrdered : List CacheHealthFinding → Type 0
IsOrdered [] = Unit {0}
IsOrdered (f ∷ []) = Unit {0}
IsOrdered (f ∷ g ∷ gs) =
    (Precedes f.severity g.severity ⊎ ((f.severity ≡ g.severity) × (str_leb f.id g.id ≡ true)))
    × IsOrdered (g ∷ gs)

severity_order :
    (s t : CacheHealthSeverity) (by_id : Bool)
    → (if rank s == rank t then by_id else ltb (rank t) (rank s)) ≡ true
    → Precedes s t ⊎ ((s ≡ t) × (by_id ≡ true))
severity_order info info b h = inr (refl, h)
severity_order info warning b h = absurd (cc)
severity_order info critical b h = absurd (cc)
severity_order warning info b h = inl tt
severity_order warning warning b h = inr (refl, h)
severity_order warning critical b h = absurd (cc)
severity_order critical info b h = inl tt
severity_order critical warning b h = inl tt
severity_order critical critical b h = inr (refl, h)

IsSorted-IsOrdered : (fs : List CacheHealthFinding) → IsSorted fs → IsOrdered fs
unfolding goes_before
IsSorted-IsOrdered [] h = tt
IsSorted-IsOrdered (f ∷ []) h = tt
IsSorted-IsOrdered (f ∷ g ∷ gs) h =
    (severity_order f.severity g.severity (str_leb f.id g.id) h.0, IsSorted-IsOrdered (g ∷ gs) h.1)

-- The findings of a report stand in order, critical ones before warnings and these before notes, and
-- by id among those of one severity; and of each severity there are as many as the rules raise.
pub report-IsOrdered :
    (s : CacheStats) (severity : CacheHealthSeverity)
    → IsOrdered (cache_health_report s).findings
      × (count_severity severity (cache_health_report s).findings
          ≡ count_severity severity (collected s))
unfolding cache_health_report
report-IsOrdered s severity = (
  IsSorted-IsOrdered (sort_findings (collected s)) (sort_findings-IsSorted (collected s)),
  count_severity-sort_findings severity (collected s),
)

rank-le-two : (s : CacheHealthSeverity) → rank s ≤ 2
rank-le-two info = omega arith
rank-le-two warning = omega arith
rank-le-two critical = omega arith

filter_critical-length :
    (fs : List CacheHealthFinding) → length (filter_severe critical fs) ≡ count_severity critical fs
unfolding filter_severe count_severity is_of
filter_critical-length [] = refl
filter_critical-length (f ∷ fs) = ground (arith, rank-le-two f.severity, filter_critical-length fs)

filter_warning-length :
    (fs : List CacheHealthFinding)
    → length (filter_severe warning fs) ≡ count_severity critical fs + count_severity warning fs
unfolding filter_severe count_severity is_of
filter_warning-length [] = refl
filter_warning-length (f ∷ fs) = ground (arith, rank-le-two f.severity, filter_warning-length fs)

-- The counts of a report are those of its findings: `at_least` of `Critical` gives the critical
-- ones, and of `Warning` these and the warnings.
pub at_least-counts :
    (s : CacheStats)
    → let r = cache_health_report s in
      (length (at_least critical r) ≡ r.critical_count)
      × (length (at_least warning r) ≡ r.critical_count + r.warning_count)
unfolding cache_health_report at_least
at_least-counts s = (
  filter_critical-length (sort_findings (collected s)),
  filter_warning-length (sort_findings (collected s)),
)

ranks_fall :
    (f : CacheHealthFinding) (fs : List CacheHealthFinding) (severity : CacheHealthSeverity)
    → IsSorted (f ∷ fs)
    → rank f.severity < rank severity
    → count_severity severity (f ∷ fs) ≡ 0
unfolding count_severity is_of goes_before
ranks_fall f [] severity h low = ground arith
ranks_fall f (g ∷ gs) severity h low = ground (arith, ranks_fall g gs severity)

first-most_severe :
    (fs : List CacheHealthFinding) (f : CacheHealthFinding) (severity : CacheHealthSeverity)
    → IsSorted fs
    → first_finding fs ≡ some f
    → rank f.severity < rank severity
    → count_severity severity fs ≡ 0
unfolding first_finding
first-most_severe [] f severity h e low = absurd (cc)
first-most_severe (g ∷ gs) f severity h e low =
    let same : g ≡ f = cc (e) in ranks_fall g gs severity h (rw same low)

-- If `worst` gives a finding, then the rules raise none of a higher severity.
pub worst-most_severe :
    (s : CacheStats) (f : CacheHealthFinding) (severity : CacheHealthSeverity)
    → worst (cache_health_report s) ≡ some f
    → rank f.severity < rank severity
    → count_severity severity (collected s) ≡ 0
unfolding worst cache_health_report
worst-most_severe s f severity h low =
    sym (count_severity-sort_findings severity (collected s))
    ∙ first-most_severe (sort_findings (collected s)) f severity
        (sort_findings-IsSorted (collected s)) h low
