-- ===== src/FrequencySketch/Repeated.antt =====
-- src/core/frequency_sketch.rs, `record_many`: repeated accesses of one key.
use matrixcache.Base.{ℕ, zero, suc, ◌≡◌, refl, sym, ◌∙◌, ap, arith, List, [], ◌∷◌}
use matrixcache.FrequencySketch.{
  CacheKey, FrequencySketch, positions, decay, record_positions, record_access, record_many,
  repeat_positions,
}
use matrixcache.FrequencySketch.Estimate.{record_all, positions-mask}

mask-record_positions : (ps : List ℕ) (s : FrequencySketch) → (record_positions ps s).mask ≡ s.mask
unfolding record_positions decay
mask-record_positions ps s = ground arith

-- A list of one key.
abbrev pub copies : ℕ → CacheKey → List CacheKey
copies zero key = []
copies (suc n) key = key ∷ copies n key

repeat_positions-record_all :
    (count : ℕ) (key : CacheKey) (ps : List ℕ) (s : FrequencySketch)
    → ps ≡ positions key s
    → repeat_positions count ps s ≡ record_all (copies count key) s
unfolding repeat_positions record_all record_access
repeat_positions-record_all zero key ps s h = refl
repeat_positions-record_all (suc count) key ps s h =
    let s' = record_positions ps s in
    repeat_positions-record_all count key ps s'
      (h ∙ positions-mask key s s' (sym (mask-record_positions ps s)))
    ∙ ap (λ t. record_all (copies count key) (record_positions t s)) h

-- Recording a count of accesses at once, with the key hashed once, is recording them one by one.
pub record_many-copies :
    (count : ℕ) (key : CacheKey) (s : FrequencySketch)
    → record_many key count s ≡ record_all (copies count key) s
unfolding record_many record_all
record_many-copies zero key s = refl
record_many-copies (suc count) key s =
    let many = repeat_positions-record_all (suc count) key (positions key s) s refl in
    ground (arith, many)
