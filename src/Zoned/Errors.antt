-- ===== src/Zoned/Errors.antt =====
-- src/runtime/zoned_store.rs, `ZoneManager::append`: its errors.
use matrixcache.Base.{arith, ℕ, ◌≡◌, ◌≢◌, List, [], ◌∷◌, Option, none, some, err}
use matrixcache.Buffer.{CacheError, io}
use matrixcache.Zoned.Bytes.{Bytes}
use matrixcache.Zoned.Device.{File, ZoneDevice, file_write_at, write}
use matrixcache.Zoned.Group.{ZoneManager}
use matrixcache.Zoned.Monad.{after}
use matrixcache.Zoned.Appending.{append_data, append, data_kind}

file_write_at-error :
    (faults : List (Option ℕ)) (buf : Bytes) (offset : ℕ) (f : File) (e : CacheError)
    → (file_write_at faults buf offset f).1 ≡ err e
    → e ≡ io
file_write_at-error [] buf offset f e h = cc
file_write_at-error (none ∷ faults) buf offset f e h = cc
file_write_at-error (some n ∷ faults) buf offset f e h = cc

write-error :
    (buf : Bytes) (offset : ℕ) (d : ZoneDevice) (e : CacheError)
    → (write buf offset d).1 ≡ err e
    → e ≢ io
    → (write buf offset d).0 ≡ d
unfolding write
write-error buf offset d e h sound =
    ground (arith, file_write_at-error d.file.faults buf offset d.file e)

append_data-error :
    (buf : Bytes) (m : ZoneManager) (e : CacheError)
    → (append_data buf m).1 ≡ err e
    → e ≢ io
    → (append_data buf m).0 ≡ m
unfolding append_data after
append_data-error buf m e h sound = grind (arith, write-error)

-- An `append` of data that fails, unless the file itself does, changes nothing: the manager is as it
-- was, and the next append lands where this one would have.
pub append-error :
    (buf : Bytes) (m : ZoneManager) (e : CacheError)
    → (append buf data_kind m).1 ≡ err e
    → e ≢ io
    → (append buf data_kind m).0 ≡ m
unfolding append
append-error buf m e h sound = ground (arith, append_data-error buf m e)
