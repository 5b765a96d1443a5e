-- ===== src/ConfigCheck.antt =====
-- src/core/config_check.rs: what `CacheOptions` will do that its author may not expect. A finding's
-- `message`, text for a reader, is left out; the options have the fields that the checks read.
pub mod Laws
use matrixcache.Base.{
  ℕ, ◌*◌, ◌/◌, max, List, [], ◌∷◌, ◌++◌, String, Bool, true, false, ◌&&◌, ◌||◌, not, is_empty,
  is_some, str_eq, ltb, ◌==◌, if◌then◌else◌,
}
use matrixcache.Health.{CacheHealthSeverity, info, warning, critical, rank}
use matrixcache.Names.{try_from_config_name, try_placement}

pub record CacheConfigFinding : Type 0 where
  pub id : String
  pub severity : CacheHealthSeverity
  pub field : String

pub record CacheOptions : Type 0 where
  pub dram_capacity : ℕ
  pub pmem_capacity : ℕ
  pub ssd_capacity : ℕ
  pub pmem_paths : List String
  pub ssd_paths : List String
  pub cache_dram_replacement_policy : String
  pub cache_pmem_replacement_policy : String
  pub cache_ssd_replacement_policy : String
  pub cache_dram_pmem_data_placement_type : String
  pub auto_recover_on_start : Bool
  pub ssd_block_durability : Bool
  pub pmem_block_durability : Bool

-- The sizes of `CacheTieringPolicy::default`, which `tiering_policy` leaves as they are.
abbrev pub max_memory_block_bytes : ℕ
max_memory_block_bytes = 1024 * 1024

abbrev pub max_pmem_block_bytes : ℕ
max_pmem_block_bytes = 4 * 1024 * 1024

abbrev pub max_ssd_block_bytes : ℕ
max_ssd_block_bytes = 16 * 1024 * 1024

abbrev pub config_finding : String → CacheHealthSeverity → String → CacheConfigFinding
config_finding id severity field = record { id = id; severity = severity; field = field }

-- `if … { findings.push(…) }`
unfoldable pub note_if : Bool → CacheConfigFinding → List CacheConfigFinding
note_if true f = f ∷ []
note_if false f = []

unfoldable pub no_tier : CacheOptions → List CacheConfigFinding
no_tier o =
    note_if ((o.dram_capacity == 0) && ((o.pmem_capacity == 0) && (o.ssd_capacity == 0)))
      (config_finding "no_tier_has_capacity" critical "dram_capacity")

unfoldable pub ssd_tier_is_temporary : CacheOptions → Bool
ssd_tier_is_temporary o = ltb 0 o.ssd_capacity && is_empty o.ssd_paths

unfoldable pub temporary : CacheOptions → List CacheConfigFinding
temporary o =
    note_if (ssd_tier_is_temporary o) (config_finding "ssd_tier_is_temporary" info "ssd_paths")

unfoldable pub lost_recovery : CacheOptions → List CacheConfigFinding
lost_recovery o =
    note_if (ssd_tier_is_temporary o && o.auto_recover_on_start)
      (config_finding "recovery_expected_from_a_temporary_tier" critical "ssd_paths")

unfoldable pub unreachable : CacheOptions → List CacheConfigFinding
unreachable o =
    note_if (ltb 0 o.pmem_capacity && is_empty o.pmem_paths)
      (config_finding "pmem_tier_is_unreachable" info "pmem_paths")

unfoldable pub undurable : CacheOptions → List CacheConfigFinding
undurable o =
    note_if (o.auto_recover_on_start && (not o.ssd_block_durability && ltb 0 o.ssd_capacity))
      (config_finding "recovery_expects_durability_that_is_off" warning "ssd_block_durability")
    ++ note_if (o.auto_recover_on_start && (not o.pmem_block_durability && ltb 0 o.pmem_capacity))
        (config_finding "recovery_expects_durability_that_is_off" warning "pmem_block_durability")

unfoldable pub unused_paths : CacheOptions → List CacheConfigFinding
unused_paths o =
    note_if ((o.ssd_capacity == 0) && not (is_empty o.ssd_paths))
      (config_finding "ssd_path_without_capacity" warning "ssd_capacity")
    ++ note_if ((o.pmem_capacity == 0) && not (is_empty o.pmem_paths))
        (config_finding "pmem_path_without_capacity" warning "pmem_capacity")

-- One round of the loop over the policies.
unfoldable pub policy : String → String → List CacheConfigFinding
policy field name =
    note_if (not (str_eq name "" || is_some (try_from_config_name name)))
      (config_finding "replacement_policy_not_recognised" warning field)

unfoldable pub policies : CacheOptions → List CacheConfigFinding
policies o =
    policy "cache_dram_replacement_policy" o.cache_dram_replacement_policy
    ++ (policy "cache_pmem_replacement_policy" o.cache_pmem_replacement_policy
        ++ policy "cache_ssd_replacement_policy" o.cache_ssd_replacement_policy)

unfoldable pub placements : CacheOptions → List CacheConfigFinding
placements o =
    let name = o.cache_dram_pmem_data_placement_type in
    note_if (not (str_eq name "") && not (is_some (try_placement name))) (
      config_finding "data_placement_type_not_recognised" warning
        "cache_dram_pmem_data_placement_type")

unfoldable pub validate : CacheOptions → List CacheConfigFinding
validate o =
    no_tier o
    ++ (temporary o
        ++ (lost_recovery o
            ++ (unreachable o
                ++ (undurable o ++ (unused_paths o ++ (policies o ++ placements o))))))

-- One round of the loop over the tiers, in a cache of that many shards.
unfoldable pub tier : ℕ → String → ℕ → ℕ → List CacheConfigFinding
tier shard_count field capacity largest_value =
    let per_shard = capacity / shard_count in
    if capacity == 0
    then []
    else (if per_shard == 0
        then config_finding "tier_has_fewer_bytes_than_shards" warning field ∷ []
        else note_if (ltb per_shard largest_value)
            (config_finding "sharded_tier_refuses_values_it_has_room_for" warning field))

unfoldable pub tiers : ℕ → CacheOptions → List CacheConfigFinding
tiers shard_count o =
    tier shard_count "dram_capacity" o.dram_capacity max_memory_block_bytes
    ++ (tier shard_count "pmem_capacity" o.pmem_capacity max_pmem_block_bytes
        ++ tier shard_count "ssd_capacity" o.ssd_capacity max_ssd_block_bytes)

unfoldable pub validate_for_shards : ℕ → CacheOptions → List CacheConfigFinding
validate_for_shards shard_count o =
    if max shard_count 1 == 1 then validate o else validate o ++ tiers (max shard_count 1) o

-- `filter(|finding| finding.severity == Critical)`
unfoldable pub only_critical : List CacheConfigFinding → List CacheConfigFinding
only_critical [] = []
only_critical (f ∷ fs) =
    let rest = only_critical fs in if rank f.severity == 2 then f ∷ rest else rest

unfoldable pub critical_findings : CacheOptions → List CacheConfigFinding
critical_findings o = only_critical (validate o)
