-- ===== src/Health/Rules.antt =====
-- src/core/health.rs, `cache_health_report`: its rules, in the order of the code, and the report.
use matrixcache.Base.{
  Option, none, some, ◌∷◌, ℕ, ◌/◌, List, [], ◌++◌, ◌&&◌, ltb, leb, ◌==◌, if◌then◌else◌,
  saturating_add,
}
use matrixcache.WriteBudget.{write_budget_scale}
use matrixcache.Health.{
  CacheHealthSeverity, rank, CacheHealthFinding, CacheHealthReport, CacheStats, info, warning,
  critical, finding, push_if, percent, write_budget_floor_share, health_min_requests,
  health_min_hit_percent, health_max_escalation_percent, health_max_expired_read_percent,
  health_max_admission_reject_percent, eviction_candidate_window, sort_findings, count_severity,
}

abbrev pub hits : CacheStats → ℕ
hits s = saturating_add (saturating_add s.memory_hits s.pmem_hits) s.disk_hits

abbrev pub requests : CacheStats → ℕ
requests s = saturating_add (hits s) s.misses

unfoldable pub refills : CacheStats → List CacheHealthFinding
refills s =
    push_if (ltb 0 s.refill_failures)
      (finding "refill_failures" critical "refill" s.refill_failures 0)

unfoldable pub expired_deletes : CacheStats → List CacheHealthFinding
expired_deletes s =
    push_if (ltb 0 s.expired_delete_failures)
      (finding "expiry_could_not_delete_durable_copy" critical "expiry" s.expired_delete_failures 0)

unfoldable pub pinned : CacheStats → List CacheHealthFinding
pinned s =
    push_if (ltb s.memory_evictions s.eviction_pinned_skips && ltb 0 s.eviction_pinned_skips) (
      finding "pinned_entries_block_eviction" critical "pinning" s.eviction_pinned_skips
        s.memory_evictions)

unfoldable pub oversize : CacheStats → List CacheHealthFinding
oversize s =
    push_if (ltb 0 s.eviction_oversize)
      (finding "values_larger_than_tier" warning "admission" s.eviction_oversize 0)

unfoldable pub ssd_oversize : CacheStats → List CacheHealthFinding
ssd_oversize s =
    push_if (ltb 0 s.ssd_oversize_rejections)
      (finding "values_larger_than_ssd_block" warning "ssd_admission" s.ssd_oversize_rejections 0)

unfoldable pub throttling : CacheStats → List CacheHealthFinding
throttling s =
    let share_percent = percent s.ssd_write_budget_share write_budget_scale in
    push_if (ltb 0 s.ssd_write_budget_rejections && ltb s.ssd_write_budget_share write_budget_scale)
      (finding "ssd_write_budget_throttling" (if ltb share_percent 50 then warning else info)
        "ssd_admission" share_percent 100)

unfoldable pub unmet_budget : CacheStats → List CacheHealthFinding
unmet_budget s =
    push_if
      (ltb 0 s.ssd_write_budget_target_bytes_per_sec
        && (ltb s.ssd_write_budget_target_bytes_per_sec s.ssd_write_budget_observed_bytes_per_sec
            && leb s.ssd_write_budget_share write_budget_floor_share))
      (finding "ssd_write_budget_cannot_be_met" warning "ssd_admission"
        (percent s.ssd_write_budget_observed_bytes_per_sec s.ssd_write_budget_target_bytes_per_sec)
        100)

unfoldable pub backpressure : CacheStats → List CacheHealthFinding
backpressure s =
    let events =
      saturating_add s.writeback_backpressure_events s.async_writeback_backpressure_rejections in
    push_if (ltb 0 events) (finding "writeback_backpressure" warning "writeback" events 0)

unfoldable pub hit_rate : CacheStats → List CacheHealthFinding
hit_rate s =
    let hit_percent = percent (hits s) (requests s) in
    push_if (ltb hit_percent health_min_hit_percent && ltb 0 s.memory_evictions)
      (finding "hit_rate_below_floor" warning "sizing" hit_percent health_min_hit_percent)

unfoldable pub escalation : CacheStats → List CacheHealthFinding
escalation s =
    let escalation_percent = percent s.access_order_refreshes (hits s) in
    push_if (ltb 0 (hits s) && ltb health_max_escalation_percent escalation_percent) (
      finding "reads_escalate_to_exclusive" warning "read_path" escalation_percent
        health_max_escalation_percent)

unfoldable pub expired : CacheStats → List CacheHealthFinding
expired s =
    let expired_percent = percent s.expired_reads (requests s) in
    push_if (ltb 0 s.expired_reads && ltb health_max_expired_read_percent expired_percent) (
      finding "time_to_live_shorter_than_reuse" warning "expiry" expired_percent
        health_max_expired_read_percent)

unfoldable pub admission : CacheStats → List CacheHealthFinding
admission s =
    let offered = saturating_add s.memory_admission_accepted s.memory_admission_rejected in
    let reject_percent = percent s.memory_admission_rejected offered in
    push_if (ltb 0 offered && ltb health_max_admission_reject_percent reject_percent) (
      finding "memory_admission_rejecting" warning "admission" reject_percent
        health_max_admission_reject_percent)

unfoldable pub full_scan : CacheStats → List CacheHealthFinding
full_scan s =
    let weighed = s.eviction_sampled_groups / s.memory_evictions in
    push_if (ltb 0 s.memory_evictions && ltb eviction_candidate_window weighed) (
      finding "eviction_falls_back_to_full_scan" warning "eviction" weighed
        eviction_candidate_window)

-- Reported however little traffic there has been.
unfoldable pub faults : CacheStats → List CacheHealthFinding
faults s =
    refills s
    ++ (expired_deletes s
        ++ (pinned s
            ++ (oversize s
                ++ (ssd_oversize s ++ (throttling s ++ (unmet_budget s ++ backpressure s))))))

unfoldable pub ratios : CacheStats → List CacheHealthFinding
ratios s = hit_rate s ++ (escalation s ++ (expired s ++ (admission s ++ full_scan s)))

-- The findings in the order in which the rules push them.
unfoldable pub collected : CacheStats → List CacheHealthFinding
collected s = faults s ++ (if leb health_min_requests (requests s) then ratios s else [])

unfoldable pub cache_health_report : CacheStats → CacheHealthReport
cache_health_report s =
    let findings = sort_findings (collected s) in
    let critical_count = count_severity critical findings in
    record {
      healthy = critical_count == 0;
      critical_count = critical_count;
      warning_count = count_severity warning findings;
      findings = findings;
    }

-- `findings.first()`
unfoldable pub first_finding : List CacheHealthFinding → Option CacheHealthFinding
first_finding [] = none
first_finding (f ∷ fs) = some f

unfoldable pub worst : CacheHealthReport → Option CacheHealthFinding
worst r = first_finding r.findings

unfoldable pub filter_severe :
    CacheHealthSeverity → List CacheHealthFinding → List CacheHealthFinding
filter_severe s [] = []
filter_severe s (f ∷ fs) =
    let rest = filter_severe s fs in if leb (rank s) (rank f.severity) then f ∷ rest else rest

unfoldable pub at_least : CacheHealthSeverity → CacheHealthReport → List CacheHealthFinding
at_least s r = filter_severe s r.findings
