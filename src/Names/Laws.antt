-- ===== src/Names/Laws.antt =====
-- Configuration names: they read back, and the two readings of a placement agree but for one name.
use matrixcache.Base.{
  ◌≡◌, refl, String, true, false, some, str_eq, eq_iff, arith, list_eq, list_eq-eq, lower_codes,
  to_lower, eq_ignore_ascii_case,
}
use matrixcache.Names.{
  CacheReplacementPolicy, fifo, slru, weighted_hotness_lru, try_from_config_name, as_config_name,
  CacheDataPlacement, try_placement, placement,
}

-- A policy's name reads back as the policy.
pub try_from_config_name-as_config_name :
    (p : CacheReplacementPolicy) → try_from_config_name (as_config_name p) ≡ some p
unfolding try_from_config_name as_config_name eq_ignore_ascii_case lower_codes to_lower list_eq
try_from_config_name-as_config_name fifo = refl
try_from_config_name-as_config_name slru = refl
try_from_config_name-as_config_name weighted_hotness_lru = refl

-- Two spellings of a name that differ in case are read as the same policy.
pub try_from_config_name-case :
    (s t : String)
    → eq_ignore_ascii_case s t ≡ true
    → try_from_config_name s ≡ try_from_config_name t
unfolding try_from_config_name eq_ignore_ascii_case
try_from_config_name-case s t h = rw (list_eq-eq (lower_codes s) (lower_codes t) h) refl

side_by_side_exact :
    (value : String)
    → str_eq value "SideBySide" ≡ true
    → eq_ignore_ascii_case value "sidebyside" ≡ true
unfolding eq_ignore_ascii_case lower_codes to_lower list_eq
side_by_side_exact value h =
    let e : value ≡ "SideBySide" = ground (arith, eq_iff value "SideBySide") in rw e refl

-- A placement that is read without an error is the one that the cache then uses, unless the name
-- was `kSideBySide` in some case.
pub placement-try_placement :
    (value : String) (p : CacheDataPlacement)
    → eq_ignore_ascii_case value "kSideBySide" ≡ false
    → try_placement value ≡ some p
    → placement value ≡ p
unfolding try_placement placement
placement-try_placement value p other h = ground (arith, side_by_side_exact value)
