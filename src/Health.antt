-- ===== src/Health.antt =====
-- src/core/health.rs, `cache_health_report`: what a snapshot of the counters says is wrong. A finding's
-- `message`, text for a reader, is left out; a counter is a `u64`, and the snapshot has the counters
-- that the report reads.
pub mod Rules
pub mod Sort
pub mod Verdict
pub mod Reads
use Prim.Native.Char.{code}
use matrixcache.Base.{
  ℕ, ◌+◌, ◌<◌, List, [], ◌∷◌, ◌++◌, String, Bool, true, false, ◌&&◌, ltb, leb, ◌==◌, length,
  if◌then◌else◌, saturating_add, saturating_mul, ◌/◌, Option, none, some,
}
use matrixcache.WriteBudget.{write_budget_scale}

pub data CacheHealthSeverity : Type 0 where
  info warning critical : CacheHealthSeverity

pub record CacheHealthFinding : Type 0 where
  pub id : String
  pub severity : CacheHealthSeverity
  pub component : String
  pub observed : ℕ
  pub threshold : ℕ

pub record CacheHealthReport : Type 0 where
  pub healthy : Bool
  pub critical_count : ℕ
  pub warning_count : ℕ
  pub findings : List CacheHealthFinding

pub record CacheStats : Type 0 where
  pub memory_hits : ℕ
  pub pmem_hits : ℕ
  pub disk_hits : ℕ
  pub misses : ℕ
  pub refill_failures : ℕ
  pub expired_delete_failures : ℕ
  pub eviction_pinned_skips : ℕ
  pub memory_evictions : ℕ
  pub eviction_oversize : ℕ
  pub ssd_oversize_rejections : ℕ
  pub ssd_write_budget_rejections : ℕ
  pub ssd_write_budget_share : ℕ
  pub ssd_write_budget_target_bytes_per_sec : ℕ
  pub ssd_write_budget_observed_bytes_per_sec : ℕ
  pub writeback_backpressure_events : ℕ
  pub async_writeback_backpressure_rejections : ℕ
  pub access_order_refreshes : ℕ
  pub expired_reads : ℕ
  pub memory_admission_accepted : ℕ
  pub memory_admission_rejected : ℕ
  pub eviction_sampled_groups : ℕ

-- The derived order of the severities.
abbrev pub rank : CacheHealthSeverity → ℕ
rank info = 0
rank warning = 1
rank critical = 2

abbrev pub write_budget_floor_share : ℕ
write_budget_floor_share = write_budget_scale / 1_000

abbrev pub health_min_requests : ℕ
health_min_requests = 1_000

abbrev pub health_min_hit_percent : ℕ
health_min_hit_percent = 50

abbrev pub health_max_escalation_percent : ℕ
health_max_escalation_percent = 25

abbrev pub health_max_expired_read_percent : ℕ
health_max_expired_read_percent = 20

abbrev pub health_max_admission_reject_percent : ℕ
health_max_admission_reject_percent = 10

abbrev pub eviction_candidate_window : ℕ
eviction_candidate_window = 128

unfoldable pub percent : ℕ → ℕ → ℕ
percent part whole = if whole == 0 then 0 else saturating_mul part 100 / whole

abbrev pub finding : String → CacheHealthSeverity → String → ℕ → ℕ → CacheHealthFinding
finding id severity component observed threshold = record {
  id = id;
  severity = severity;
  component = component;
  observed = observed;
  threshold = threshold;
}

-- `if … { findings.push(…) }`
unfoldable pub push_if : Bool → CacheHealthFinding → List CacheHealthFinding
push_if true f = f ∷ []
push_if false f = []

-- The byte order of two ASCII texts: whether the first is at most the second.
unfoldable pub str_leb : String → String → Bool
str_leb String.[] t = true
str_leb (String.◌∷◌ c s) String.[] = false
str_leb (String.◌∷◌ c s) (String.◌∷◌ d t) =
    let rest = str_leb s t in
    if ltb (code c) (code d) then true else (if code c == code d then rest else false)

-- Whether the first finding goes before the second or ties with it: the more severe first, then by
-- id.
unfoldable pub goes_before : CacheHealthFinding → CacheHealthFinding → Bool
goes_before l r =
    if rank l.severity == rank r.severity
    then str_leb l.id r.id
    else ltb (rank r.severity) (rank l.severity)

-- A stable sort, as `sort_by` is.
unfoldable pub insert_finding :
    CacheHealthFinding → List CacheHealthFinding → List CacheHealthFinding
insert_finding f [] = f ∷ []
insert_finding f (g ∷ gs) =
    let rest = insert_finding f gs in if goes_before f g then f ∷ g ∷ gs else g ∷ rest

unfoldable pub sort_findings : List CacheHealthFinding → List CacheHealthFinding
sort_findings [] = []
sort_findings (f ∷ fs) = insert_finding f (sort_findings fs)

-- One for a finding of the severity, and zero for another.
unfoldable pub is_of : CacheHealthSeverity → CacheHealthFinding → ℕ
is_of s f = if rank f.severity == rank s then 1 else 0

-- `filter(|f| f.severity == severity).count()`
unfoldable pub count_severity : CacheHealthSeverity → List CacheHealthFinding → ℕ
count_severity s [] = 0
count_severity s (f ∷ fs) = is_of s f + count_severity s fs
