-- ===== src/Health/Verdict.antt =====
-- src/core/health.rs, `cache_health_report`: when a cache is reported healthy.
use matrixcache.Base.{
  ◌+◌, ◌≤◌, ◌≡◌, refl, ◌∙◌, ◌↔◌, List, [], ◌++◌, Bool, true, false, ltb, leb, if◌then◌else◌, arith,
  Bool-cases, inl, inr,
}
use matrixcache.WriteBudget.{write_budget_scale}
use matrixcache.Health.{
  CacheHealthFinding, CacheStats, critical, is_of, count_severity, push_if, percent,
  health_min_requests,
}
use matrixcache.Health.Rules.{
  refills, expired_deletes, pinned, oversize, ssd_oversize, throttling, unmet_budget, backpressure,
  hit_rate, escalation, expired, admission, full_scan, faults, ratios, collected,
  cache_health_report, requests,
}
use matrixcache.Health.Sort.{count_severity-sort_findings, count_severity-append}

count-push_if :
    (b : Bool) (f : CacheHealthFinding)
    → count_severity critical (push_if b f) ≡ (if b then is_of critical f else 0)
unfolding count_severity push_if
count-push_if true f = omega arith
count-push_if false f = refl

push-mild :
    (b : Bool) (f : CacheHealthFinding)
    → is_of critical f ≡ 0
    → count_severity critical (push_if b f) ≡ 0
push-mild b f h = count-push_if b f ∙ ground arith

append-mild :
    (fs gs : List CacheHealthFinding)
    → count_severity critical fs ≡ 0
    → count_severity critical gs ≡ 0
    → count_severity critical (fs ++ gs) ≡ 0
append-mild fs gs a b = omega (arith, count_severity-append critical fs gs, a, b)

-- The ratios, and the faults but the first three, raise nothing critical.
ratios-mild : (s : CacheStats) → count_severity critical (ratios s) ≡ 0
unfolding ratios hit_rate escalation expired admission full_scan is_of
ratios-mild s = append-mild _ _ (push-mild _ _ refl) (
    append-mild _ _ (push-mild _ _ refl) (
      append-mild _ _ (push-mild _ _ refl)
        (append-mild _ _ (push-mild _ _ refl) (push-mild _ _ refl))))

throttling-mild : (s : CacheStats) → count_severity critical (throttling s) ≡ 0
unfolding throttling is_of
throttling-mild s =
    push-mild _ _
      (elim (Bool-cases (ltb (percent s.ssd_write_budget_share write_budget_scale) 50)) [
        | inl e ↦ rw e refl
        | inr e ↦ rw e refl
      ])

-- The faults after the first three.
mild_faults : CacheStats → List CacheHealthFinding
mild_faults s =
    oversize s ++ (ssd_oversize s ++ (throttling s ++ (unmet_budget s ++ backpressure s)))

mild_faults-mild : (s : CacheStats) → count_severity critical (mild_faults s) ≡ 0
unfolding mild_faults oversize ssd_oversize unmet_budget backpressure is_of
mild_faults-mild s = append-mild _ _ (push-mild _ _ refl) (
    append-mild _ _ (push-mild _ _ refl) (
      append-mild _ _ (throttling-mild s)
        (append-mild _ _ (push-mild _ _ refl) (push-mild _ _ refl))))

tail-mild :
    (s : CacheStats)
    → count_severity critical (if leb health_min_requests (requests s) then ratios s else []) ≡ 0
unfolding count_severity
tail-mild s = elim (Bool-cases (leb health_min_requests (requests s))) [
  | inl e ↦ rw e (ratios-mild s)
  | inr e ↦ rw e refl
]

refills-count :
    (s : CacheStats)
    → count_severity critical (refills s) ≡ (if ltb 0 s.refill_failures then 1 else 0)
unfolding refills is_of
refills-count s = count-push_if _ _

expired_deletes-count :
    (s : CacheStats)
    → count_severity critical (expired_deletes s)
      ≡ (if ltb 0 s.expired_delete_failures then 1 else 0)
unfolding expired_deletes is_of
expired_deletes-count s = count-push_if _ _

pinned-count :
    (s : CacheStats)
    → count_severity critical (pinned s)
      ≡ (if ltb s.memory_evictions s.eviction_pinned_skips then 1 else 0)
unfolding pinned is_of
pinned-count s = count-push_if _ _ ∙ ground arith

collected-count :
    (s : CacheStats)
    → count_severity critical (collected s)
      ≡ count_severity critical (refills s)
        + (count_severity critical (expired_deletes s) + count_severity critical (pinned s))
unfolding collected faults mild_faults
collected-count s = omega (
  arith,
  count_severity-append critical (faults s)
      (if leb health_min_requests (requests s) then ratios s else []),
  tail-mild s,
  count_severity-append critical (refills s) (expired_deletes s ++ (pinned s ++ mild_faults s)),
  count_severity-append critical (expired_deletes s) (pinned s ++ mild_faults s),
  count_severity-append critical (pinned s) (mild_faults s),
  mild_faults-mild s,
)

-- A cache is healthy exactly if no refill and no durable delete of an expired entry has failed, and
-- eviction has not stepped over more pinned entries than it reclaimed.
pub healthy_iff :
    (s : CacheStats)
    → ((cache_health_report s).healthy ≡ true) ↔ (
        (s.refill_failures ≡ 0)
        × (s.expired_delete_failures ≡ 0)
        × (s.eviction_pinned_skips ≤ s.memory_evictions))
unfolding cache_health_report
healthy_iff s =
    let sorted = count_severity-sort_findings critical (collected s) in
    ground
      (arith, sorted, collected-count s, refills-count s, expired_deletes-count s, pinned-count s)
