-- ===== src/Tests/Operator.antt =====
-- src/core/health.rs: a run of `cache_health_report`, and its theorems at concrete inputs.
use matrixcache.Base.{◌+◌, ◌≤◌, ◌≡◌, refl, ◌↔◌, [], ◌∷◌, length, map, some, true, arith}
use matrixcache.Health.{
  CacheStats, warning, critical, finding, percent, push_if, str_leb, goes_before, insert_finding,
  sort_findings, is_of, count_severity,
}
use matrixcache.Health.Rules.{
  refills, expired_deletes, pinned, oversize, ssd_oversize, throttling, unmet_budget, backpressure,
  hit_rate, escalation, expired, admission, full_scan, faults, ratios, collected,
  cache_health_report, worst, first_finding, at_least, filter_severe,
}
use matrixcache.Health.Verdict.{healthy_iff}
use matrixcache.Health.Reads.{IsOrdered, report-IsOrdered, at_least-counts, worst-most_severe}

program : Unit {0}
unfolding refills expired_deletes pinned oversize ssd_oversize throttling unmet_budget backpressure
    hit_rate escalation expired admission full_scan faults ratios collected cache_health_report
    percent push_if str_leb goes_before insert_finding sort_findings is_of count_severity worst
    first_finding at_least filter_severe
program = tt

abbrev quiet : CacheStats
quiet = record {
  memory_hits = 0;
  pmem_hits = 0;
  disk_hits = 0;
  misses = 0;
  refill_failures = 0;
  expired_delete_failures = 0;
  eviction_pinned_skips = 0;
  memory_evictions = 0;
  eviction_oversize = 0;
  ssd_oversize_rejections = 0;
  ssd_write_budget_rejections = 0;
  ssd_write_budget_share = 0;
  ssd_write_budget_target_bytes_per_sec = 0;
  ssd_write_budget_observed_bytes_per_sec = 0;
  writeback_backpressure_events = 0;
  async_writeback_backpressure_rejections = 0;
  access_order_refreshes = 0;
  expired_reads = 0;
  memory_admission_accepted = 0;
  memory_admission_rejected = 0;
  eviction_sampled_groups = 0;
}

-- Few hits, a value too large, pinned entries and failed refills.
abbrev unwell : CacheStats
unwell = record quiet {
  memory_hits = 100;
  misses = 900;
  refill_failures = 3;
  eviction_pinned_skips = 9;
  memory_evictions = 5;
  eviction_oversize = 1;
}

quiet_report :
    cache_health_report quiet
    ≡ record { healthy = true; critical_count = 0; warning_count = 0; findings = [] }
unfolding program
quiet_report = refl

unwell_ids :
    map (λ f. f.id) (cache_health_report unwell).findings
    ≡ "pinned_entries_block_eviction" ∷ "refill_failures" ∷ "hit_rate_below_floor"
      ∷ "values_larger_than_tier" ∷ []
unfolding program
unwell_ids = refl

healthy_iff_example : ((cache_health_report unwell).healthy ≡ true) ↔ (
    (unwell.refill_failures ≡ 0)
    × (unwell.expired_delete_failures ≡ 0)
    × (unwell.eviction_pinned_skips ≤ unwell.memory_evictions))
healthy_iff_example = healthy_iff unwell

report-IsOrdered_example :
    IsOrdered (cache_health_report unwell).findings
    × (count_severity critical (cache_health_report unwell).findings
        ≡ count_severity critical (collected unwell))
report-IsOrdered_example = report-IsOrdered unwell critical

at_least-counts_example :
    (length (at_least critical (cache_health_report unwell))
      ≡ (cache_health_report unwell).critical_count)
    × (length (at_least warning (cache_health_report unwell))
        ≡ (cache_health_report unwell).critical_count + (cache_health_report unwell).warning_count)
at_least-counts_example = at_least-counts unwell

-- A cache whose worst finding is a warning.
abbrev crowded : CacheStats
crowded = record quiet { eviction_oversize = 1 }

crowded-worst :
    worst (cache_health_report crowded)
    ≡ some (finding "values_larger_than_tier" warning "admission" 1 0)
unfolding program
crowded-worst = refl

worst-most_severe_example : count_severity critical (collected crowded) ≡ 0
worst-most_severe_example =
    worst-most_severe crowded (finding "values_larger_than_tier" warning "admission" 1 0) critical
      crowded-worst (omega arith)
