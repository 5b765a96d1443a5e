-- ===== src/Fifo/Model.antt =====
-- What src/runtime/replacement.rs promises of a `ReplacementFifo`: buffers under distinct keys, the
-- oldest first, of which the first ones leave when the rest would not fit.
use matrixcache.Base.{
  ℕ, ◌+◌, ◌≤◌, ◌≡◌, refl, Bool, none, some, List, [], ◌∷◌, ◌++◌, String, length, ltb, str_eq,
  eq_iff, if◌then◌else◌, arith,
}
use matrixcache.Base.Map.{lookup, remove, keys, IsMap}
use matrixcache.Buffer.{CacheBuffer, cache_buffer_space}

pub record FifoModel : Type 0 where
  pub capacity : ℕ
  pub initialized : Bool
  pub watched : Bool
  pub queue : List (String × CacheBuffer)
  pub handled : List CacheBuffer

abbrev pub total : List (String × CacheBuffer) → ℕ
total [] = 0
total ((k, b) ∷ qs) = cache_buffer_space b + total qs

-- A new buffer under a key, in the place of the old one.
unfoldable pub replace :
    String → CacheBuffer → List (String × CacheBuffer) → List (String × CacheBuffer)
replace k b [] = []
replace k b ((j, c) ∷ qs) = if str_eq j k then (j, b) ∷ qs else (j, c) ∷ replace k b qs

-- What stays and what leaves, so that the rest fits a capacity.
unfoldable pub shrink :
    ℕ → List (String × CacheBuffer) → List (String × CacheBuffer) × List CacheBuffer
shrink cap [] = ([], [])
shrink cap ((k, b) ∷ qs) =
    let (rest, gone) = shrink cap qs in
    if ltb cap (cache_buffer_space b + total qs) then (rest, b ∷ gone) else ((k, b) ∷ qs, [])

-- The oldest leave, and the handler sees them.
unfoldable pub settle : FifoModel → FifoModel × List CacheBuffer
unfolding shrink
settle m =
    let (rest, gone) = shrink m.capacity m.queue in
    (record m { queue = rest; handled = if m.watched then m.handled ++ gone else m.handled }, gone)

pub total-shrink : (cap : ℕ) (qs : List (String × CacheBuffer)) → total (shrink cap qs).0 ≤ cap
unfolding shrink
total-shrink cap [] = omega arith
total-shrink cap ((k, b) ∷ qs) = ground (arith, total-shrink cap qs)

pub length-shrink :
    (cap : ℕ) (qs : List (String × CacheBuffer)) → length (shrink cap qs).0 ≤ length qs
unfolding shrink
length-shrink cap [] = omega arith
length-shrink cap ((k, b) ∷ qs) = ground (arith, length-shrink cap qs)

pub total-append :
    (k : String) (b : CacheBuffer) (qs : List (String × CacheBuffer))
    → total (qs ++ ((k, b) ∷ [])) ≡ total qs + cache_buffer_space b
total-append k b [] = omega arith
total-append k b ((j, c) ∷ qs) = omega (arith, total-append k b qs)

pub total-remove :
    (k : String) {b : CacheBuffer} (qs : List (String × CacheBuffer))
    → lookup k qs ≡ some b
    → total (remove k qs) + cache_buffer_space b ≡ total qs
unfolding lookup remove
total-remove k [] h = cc
total-remove k {b} ((j, c) ∷ qs) h = ground (arith, total-remove k {b = b} qs)

module _ (k : String) (b : CacheBuffer) where
  pub total-replace :
      {c : CacheBuffer} (qs : List (String × CacheBuffer))
      → lookup k qs ≡ some c
      → total (replace k b qs) + cache_buffer_space c ≡ total qs + cache_buffer_space b
  unfolding lookup replace
  total-replace [] h = cc
  total-replace {c} ((j, d) ∷ qs) h = ground (arith, total-replace {c = c} qs)

  pub length-replace : (qs : List (String × CacheBuffer)) → length (replace k b qs) ≡ length qs
  unfolding replace
  length-replace [] = refl
  length-replace ((j, d) ∷ qs) = ground (arith, length-replace qs)

  pub keys-replace : (qs : List (String × CacheBuffer)) → keys (replace k b qs) ≡ keys qs
  unfolding replace
  keys-replace [] = refl
  keys-replace ((j, d) ∷ qs) = ground (arith, keys-replace qs)

  pub lookup-replace :
      (i : String) {c : CacheBuffer} (qs : List (String × CacheBuffer))
      → lookup k qs ≡ some c
      → lookup i (replace k b qs) ≡ (if str_eq k i then some b else lookup i qs)
  unfolding lookup replace
  lookup-replace i [] h = cc
  lookup-replace i {c} ((j, d) ∷ qs) h =
      ground (arith, eq_iff j k, eq_iff k i, eq_iff j i, lookup-replace i {c = c} qs)

  lookup-replace-none :
      (i : String) (qs : List (String × CacheBuffer))
      → lookup i qs ≡ none
      → lookup i (replace k b qs) ≡ none
  unfolding lookup replace
  lookup-replace-none i [] h = refl
  lookup-replace-none i ((j, d) ∷ qs) h = ground (arith, lookup-replace-none i qs)

  pub IsMap-replace : (qs : List (String × CacheBuffer)) → IsMap qs → IsMap (replace k b qs)
  unfolding replace
  IsMap-replace [] u = tt
  IsMap-replace ((j, d) ∷ qs) u = ground (arith, lookup-replace-none j qs, IsMap-replace qs u.1)

pub space-le_total :
    (k : String) {b : CacheBuffer} (qs : List (String × CacheBuffer))
    → lookup k qs ≡ some b
    → cache_buffer_space b ≤ total qs
space-le_total k {b} qs h = omega (arith, total-remove k {b = b} qs h)

pub total-remove-le :
    (k : String) (qs : List (String × CacheBuffer)) → total (remove k qs) ≤ total qs
unfolding remove
total-remove-le k [] = omega arith
total-remove-le k ((j, c) ∷ qs) = ground (arith, total-remove-le k qs)

pub length-remove-le :
    (k : String) (qs : List (String × CacheBuffer)) → length (remove k qs) ≤ length qs
unfolding remove
length-remove-le k [] = omega arith
length-remove-le k ((j, c) ∷ qs) = ground (arith, length-remove-le k qs)
