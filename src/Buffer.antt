-- ===== src/Buffer.antt =====
-- `CacheBuffer` of src/runtime/storage_engines.rs, as far as a replacement policy reads one, and the
-- policies' byte accounting of src/runtime/replacement.rs. The tier, the cache and the handle of
-- a buffer are left out: no policy here looks at them.
use Prim.Native.Char.{code}
use matrixcache.Base.{
  ℕ, ◌+◌, List, String, Bool, true, false, Option, none, some, length, ltb, if◌then◌else◌,
  saturating_add, saturating_sub,
}

pub record CacheBuffer : Type 0 where
  pub key : String
  pub value : List ℕ
  pub logical_size : Option ℕ

pub data CacheError : Type 0 where
  io not_found replace_mismatch capacity_exceeded invalid_config : CacheError

-- The bytes of a character in UTF-8, and of a text.
abbrev utf8_width : ℕ → ℕ
utf8_width c =
    if ltb c 0x80 then 1 else (if ltb c 0x800 then 2 else (if ltb c 0x10000 then 3 else 4))

unfoldable pub byte_length : String → ℕ
byte_length String.[] = 0
byte_length (String.◌∷◌ c s) = utf8_width (code c) + byte_length s

-- `unwrap_or`
abbrev pub unwrap_or : Option ℕ → ℕ → ℕ
unwrap_or none d = d
unwrap_or (some n) d = n

unfoldable pub size : CacheBuffer → ℕ
size b = unwrap_or b.logical_size (length b.value)

unfoldable pub cache_buffer_space : CacheBuffer → ℕ
cache_buffer_space b = saturating_add (byte_length b.key) (size b)

-- What the eviction handler is given: the same key, bytes and size.
abbrev pub clone_cache_buffer : CacheBuffer → CacheBuffer
clone_cache_buffer b = record { key = b.key; value = b.value; logical_size = b.logical_size }

pub record ReplacementPolicyBase : Type 0 where
  pub capacity : ℕ
  pub used : ℕ
  pub initialized : Bool

-- A capacity of zero, on which the code panics, is left to the theorems' hypotheses.
unfoldable pub new_base : ℕ → ReplacementPolicyBase
new_base capacity = record { capacity = capacity; used = 0; initialized = false }

unfoldable pub init_base : ReplacementPolicyBase → ReplacementPolicyBase
init_base p = record p { initialized = true }

unfoldable pub set_base_capacity : ℕ → ReplacementPolicyBase → ReplacementPolicyBase
set_base_capacity capacity p = record p { capacity = capacity }

unfoldable pub free_space : ReplacementPolicyBase → ℕ
free_space p = saturating_sub p.capacity p.used

-- `used.saturating_sub(old).saturating_add(new)`
unfoldable pub reaccount : ℕ → ℕ → ReplacementPolicyBase → ReplacementPolicyBase
reaccount old new p = record p { used = saturating_add (saturating_sub p.used old) new }
