-- ===== src/Tests/Naming.antt =====
-- Configuration names and checks: runs, and the theorems at concrete inputs.
use matrixcache.Base.{
  false, ◌<◌, ◌⊎◌, ◌↔◌, is_empty, map, ◌≡◌, refl, [], ◌∷◌, true, none, some, list_eq, to_lower,
  lower_codes, eq_ignore_ascii_case,
}
use matrixcache.Names.{
  slru, weighted_hotness_lru, try_from_config_name, as_config_name, config_names, from_config_name,
  or_default, side_by_side, tiered, try_placement, placement, placement_name,
}
use matrixcache.Names.Laws.{
  try_from_config_name-as_config_name, try_from_config_name-case, placement-try_placement,
}
use matrixcache.ConfigCheck.{
  CacheOptions, note_if, no_tier, ssd_tier_is_temporary, temporary, lost_recovery, unreachable,
  undurable, unused_paths, policy, policies, placements, validate, tier, tiers, validate_for_shards,
  only_critical, critical_findings,
}
use matrixcache.ConfigCheck.Laws.{
  critical_findings_iff, validate_for_shards-validate, placements-placement,
}

program : Unit {0}
unfolding list_eq to_lower lower_codes eq_ignore_ascii_case try_from_config_name as_config_name
    config_names from_config_name or_default try_placement placement placement_name note_if no_tier
    ssd_tier_is_temporary temporary lost_recovery unreachable undurable unused_paths policy policies
    placements validate tier tiers validate_for_shards only_critical critical_findings
program = tt

names : config_names ≡ "FIFO" ∷ "SLRU" ∷ "WeightedHotnessLru" ∷ []
unfolding program
names = refl

unknown_policy :
    (try_from_config_name "arc" ≡ none) × (from_config_name "arc" ≡ weighted_hotness_lru)
unfolding program
unknown_policy = (refl, refl)

-- A name that is accepted as side by side, and used as tiered.
accepted_otherwise :
    (try_placement "kSideBySide" ≡ some side_by_side) × (placement "kSideBySide" ≡ tiered)
unfolding program
accepted_otherwise = (refl, refl)

own_names :
    (try_placement (placement_name side_by_side) ≡ some side_by_side)
    × (try_placement (placement_name tiered) ≡ some tiered)
unfolding program
own_names = (refl, refl)

try_from_config_name-as_config_name_example : try_from_config_name (as_config_name slru) ≡ some slru
try_from_config_name-as_config_name_example = try_from_config_name-as_config_name slru

same_case : eq_ignore_ascii_case "Lru" "lRU" ≡ true
unfolding program
same_case = refl

try_from_config_name-case_example : try_from_config_name "Lru" ≡ try_from_config_name "lRU"
try_from_config_name-case_example = try_from_config_name-case "Lru" "lRU" same_case

placement-try_placement_example : placement "Side-By-Side" ≡ side_by_side
unfolding program
placement-try_placement_example = placement-try_placement "Side-By-Side" side_by_side refl refl

-- Memory and a flash tier without a path, from which a recovery is expected.
abbrev hopeful : CacheOptions
hopeful = record {
  dram_capacity = 1_000;
  pmem_capacity = 0;
  ssd_capacity = 50_000;
  pmem_paths = [];
  ssd_paths = [];
  cache_dram_replacement_policy = "lru";
  cache_pmem_replacement_policy = "";
  cache_ssd_replacement_policy = "arc";
  cache_dram_pmem_data_placement_type = "Side-By-Side";
  auto_recover_on_start = true;
  ssd_block_durability = true;
  pmem_block_durability = true;
}

reported :
    map (λ f. f.id) (validate hopeful)
    ≡ "ssd_tier_is_temporary" ∷ "recovery_expected_from_a_temporary_tier"
      ∷ "replacement_policy_not_recognised" ∷ []
unfolding program
reported = refl

critical_findings_iff_example : (critical_findings hopeful ≡ []) ↔ (
    ((0 < hopeful.dram_capacity) ⊎ ((0 < hopeful.pmem_capacity) ⊎ (0 < hopeful.ssd_capacity)))
    × ((hopeful.auto_recover_on_start ≡ false)
        ⊎ ((hopeful.ssd_capacity ≡ 0) ⊎ (is_empty hopeful.ssd_paths ≡ false))))
critical_findings_iff_example = critical_findings_iff hopeful

validate_for_shards-validate_example :
    only_critical (validate_for_shards 4 hopeful) ≡ critical_findings hopeful
validate_for_shards-validate_example = validate_for_shards-validate 4 hopeful

no_placement_finding : placements hopeful ≡ []
unfolding program
no_placement_finding = refl

placements-placement_example : try_placement "Side-By-Side" ≡ some (placement "Side-By-Side")
unfolding program
placements-placement_example = placements-placement hopeful no_placement_finding refl refl
