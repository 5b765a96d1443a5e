-- ===== src/ConfigCheck/Laws.antt =====
-- src/core/config_check.rs: which configurations are refused, and what sharding adds.
use matrixcache.Base.{
  Option-cases, some, str_eq, eq_ignore_ascii_case, ℕ, ◌/◌, max, ◌≡◌, ◌<◌, refl, sym, ◌∙◌, ap, ◌↔◌,
  ◌⊎◌, inl, inr, List, [], ◌∷◌, ◌++◌, String, Bool, true, false, is_empty, ltb, ◌==◌, ◌&&◌, arith,
  Bool-cases,
}
use mathlib.Core.Path.{ap₂}
use mathlib.Core.List.{append-nil}
use matrixcache.Health.{rank, critical}
use matrixcache.Names.{try_placement, placement}
use matrixcache.Names.Laws.{placement-try_placement}
use matrixcache.ConfigCheck.{
  CacheConfigFinding, CacheOptions, config_finding, note_if, no_tier, ssd_tier_is_temporary,
  temporary, lost_recovery, unreachable, undurable, unused_paths, policy, policies, placements,
  validate, tier, tiers, validate_for_shards, only_critical, critical_findings,
}

only_critical-append :
    (fs gs : List CacheConfigFinding)
    → only_critical (fs ++ gs) ≡ only_critical fs ++ only_critical gs
unfolding only_critical
only_critical-append [] gs = refl
only_critical-append (f ∷ fs) gs = elim (Bool-cases (rank f.severity == 2)) [
  | inl e ↦ rw e (ap (λ t. f ∷ t) (only_critical-append fs gs))
  | inr e ↦ rw e (only_critical-append fs gs)
]

note_if-mild :
    (b : Bool) (f : CacheConfigFinding)
    → (rank f.severity == 2) ≡ false
    → only_critical (note_if b f) ≡ []
unfolding only_critical note_if
note_if-mild true f h = rw h refl
note_if-mild false f h = refl

note_if-kept :
    (b : Bool) (f : CacheConfigFinding)
    → (rank f.severity == 2) ≡ true
    → only_critical (note_if b f) ≡ note_if b f
unfolding only_critical note_if
note_if-kept true f h = rw h refl
note_if-kept false f h = refl

note_if-nil :
    (b c : Bool) (f g : CacheConfigFinding)
    → (note_if b f ++ note_if c g ≡ []) ↔ ((b ≡ false) × (c ≡ false))
unfolding note_if
note_if-nil true c f g = ground arith
note_if-nil false true f g = ground arith
note_if-nil false false f g = ground arith

append-mild :
    (fs gs : List CacheConfigFinding)
    → only_critical fs ≡ []
    → only_critical gs ≡ []
    → only_critical (fs ++ gs) ≡ []
append-mild fs gs a b = only_critical-append fs gs ∙ ap₂ ◌++◌ a b

rest-mild :
    (o : CacheOptions)
    → only_critical
        (unreachable o ++ (undurable o ++ (unused_paths o ++ (policies o ++ placements o))))
      ≡ []
unfolding unreachable undurable unused_paths policies policy placements
rest-mild o = append-mild _ _ (note_if-mild _ _ refl) (
    append-mild _ _ (append-mild _ _ (note_if-mild _ _ refl) (note_if-mild _ _ refl)) (
      append-mild _ _ (append-mild _ _ (note_if-mild _ _ refl) (note_if-mild _ _ refl)) (
        append-mild _ _
          (append-mild _ _ (note_if-mild _ _ refl)
            (append-mild _ _ (note_if-mild _ _ refl) (note_if-mild _ _ refl)))
          (note_if-mild _ _ refl))))

-- The critical findings are those of the two critical rules, in that order.
critical_findings-rules : (o : CacheOptions) → critical_findings o ≡ no_tier o ++ lost_recovery o
unfolding critical_findings validate no_tier temporary lost_recovery
critical_findings-rules o =
    only_critical-append (no_tier o) _
    ∙ ap₂ ◌++◌ (note_if-kept _ _ refl) (
        only_critical-append (temporary o) _
        ∙ ap₂ ◌++◌ (note_if-mild _ _ refl) (
            only_critical-append (lost_recovery o) _
            ∙ (ap₂ ◌++◌ (note_if-kept _ _ refl) (rest-mild o) ∙ append-nil (lost_recovery o))))

-- A configuration has no critical finding exactly if some tier has capacity and it does not expect
-- recovery from a flash tier without a path.
pub critical_findings_iff :
    (o : CacheOptions)
    → (critical_findings o ≡ []) ↔ (
        ((0 < o.dram_capacity) ⊎ ((0 < o.pmem_capacity) ⊎ (0 < o.ssd_capacity)))
        × ((o.auto_recover_on_start ≡ false)
            ⊎ ((o.ssd_capacity ≡ 0) ⊎ (is_empty o.ssd_paths ≡ false))))
unfolding no_tier lost_recovery ssd_tier_is_temporary
critical_findings_iff o =
    let rules = critical_findings-rules o in
    rw rules (
      ground (
        arith,
        note_if-nil ((o.dram_capacity == 0) && ((o.pmem_capacity == 0) && (o.ssd_capacity == 0)))
            ((ltb 0 o.ssd_capacity && is_empty o.ssd_paths) && o.auto_recover_on_start)
            (config_finding "no_tier_has_capacity" critical "dram_capacity")
            (config_finding "recovery_expected_from_a_temporary_tier" critical "ssd_paths"),
      ))

tier-mild :
    (n : ℕ) (field : String) (capacity largest : ℕ)
    → only_critical (tier n field capacity largest) ≡ []
unfolding tier only_critical
tier-mild n field capacity largest = elim (Bool-cases (capacity == 0)) [
  | inl e ↦ rw e refl
  | inr e ↦ rw e (elim (Bool-cases (capacity / n == 0)) [
    | inl d ↦ rw d refl
    | inr d ↦ rw d (note_if-mild _ _ refl)
  ])
]

tiers-mild : (n : ℕ) (o : CacheOptions) → only_critical (tiers n o) ≡ []
unfolding tiers
tiers-mild n o =
    append-mild _ _ (tier-mild n _ _ _) (append-mild _ _ (tier-mild n _ _ _) (tier-mild n _ _ _))

-- Splitting a cache over any number of shards changes nothing in what is critical.
pub validate_for_shards-validate :
    (n : ℕ) (o : CacheOptions) → only_critical (validate_for_shards n o) ≡ critical_findings o
unfolding validate_for_shards critical_findings
validate_for_shards-validate n o = elim (Bool-cases (max n 1 == 1)) [
  | inl e ↦ rw e refl
  | inr e ↦ rw e (
      only_critical-append (validate o) (tiers (max n 1) o)
      ∙ (ap (λ t. only_critical (validate o) ++ t) (tiers-mild (max n 1) o)
          ∙ append-nil (only_critical (validate o))))
]

-- A placement name that is given and not reported names the placement that the cache uses, unless it
-- is `kSideBySide` in some case.
pub placements-placement :
    (o : CacheOptions)
    → placements o ≡ []
    → str_eq o.cache_dram_pmem_data_placement_type "" ≡ false
    → eq_ignore_ascii_case o.cache_dram_pmem_data_placement_type "kSideBySide" ≡ false
    → try_placement o.cache_dram_pmem_data_placement_type
      ≡ some (placement o.cache_dram_pmem_data_placement_type)
unfolding placements note_if
placements-placement o silent given other =
    let name = o.cache_dram_pmem_data_placement_type in
    elim (Option-cases (try_placement name)) [
      | inl e ↦ absurd (ground arith)
      | inr (p, e) ↦ e ∙ ap some (sym (placement-try_placement name p other e))
    ]
