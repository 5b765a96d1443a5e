-- ===== src/Fifo/Errors.antt =====
-- src/runtime/replacement.rs, `ReplacementFifo::update_cache_buffer`: its errors.
use matrixcache.Base.{
  ℕ, ◌≡◌, refl, ap, Option, none, some, List, String, list_eq, list_eq-eq, list_eq_refl, is_some,
  if◌then◌else◌, ok, err, Bool-cases, inl, inr, ◌↔◌,
}
use matrixcache.Base.Map.{lookup}
use matrixcache.Buffer.{CacheBuffer, CacheError, not_found, replace_mismatch}
use matrixcache.Fifo.{FifoEntry, ReplacementFifo, buffer_of, get, update_at, update_cache_buffer}

-- The bytes that `get` finds under a key.
abbrev pub bytes_of : Option CacheBuffer → Option (List ℕ)
bytes_of none = none
bytes_of (some b) = some b.value

update_at-error :
    (o : Option FifoEntry) (k : String) (old_data : List ℕ) (b : CacheBuffer) (f : ReplacementFifo)
    → let (f', r) = update_at o k old_data b f in
      ((r ≡ ok tt) ↔ (bytes_of (buffer_of o) ≡ some old_data))
      × ((e : CacheError)
          → r ≡ err e
          → (f' ≡ f) × (e ≡ (if is_some (buffer_of o) then replace_mismatch else not_found)))
unfolding update_at
update_at-error none k old_data b f = ((λ e. cc, λ e. cc), λ e q. (refl, cc))
update_at-error (some entry) k old_data b f =
    elim (Bool-cases (list_eq entry.buffer.value old_data)) [
      | inl same ↦
          rw same
            ((λ q. ap some (list_eq-eq entry.buffer.value old_data same), λ q. refl), λ e q. cc)
      | inr other ↦
          rw other
            ((λ q. cc, λ q. (let all = list_eq_refl entry.buffer.value in cc)), λ e q. (refl, cc))
    ]

-- `update_cache_buffer` succeeds exactly if `get` finds the key with the bytes the caller compares
-- with; an error leaves the policy as it was, and says whether the key was missing or had other
-- bytes.
pub update_cache_buffer-error :
    (k : String) (old_data : List ℕ) (b : CacheBuffer) (f : ReplacementFifo)
    → let (f', r) = update_cache_buffer k old_data b f in
      ((r ≡ ok tt) ↔ (bytes_of (get k f) ≡ some old_data))
      × ((e : CacheError)
          → r ≡ err e
          → (f' ≡ f) × (e ≡ (if is_some (get k f) then replace_mismatch else not_found)))
unfolding update_cache_buffer get
update_cache_buffer-error k old_data b f = update_at-error (lookup k f.index) k old_data b f
