-- ===== src/Zoned/Monad.antt =====
-- Operations of the `ZoneManager` of src/runtime/zoned_store.rs: each takes the manager and gives the
-- manager after it with its result. An error keeps the changes made before it, as the code's `?` does.
use matrixcache.Base.{Result, ok, err}
use matrixcache.Buffer.{CacheError}
use matrixcache.Zoned.Device.{ZoneDevice}
use matrixcache.Zoned.Group.{ZoneManager}

abbrev pub M : Type 0 → Type 0
M A = ZoneManager → ZoneManager × Result CacheError A

-- What follows an operation, if it is no error.
unfoldable pub after : {A B : Type 0} → Result CacheError A → (A → M B) → M B
after (ok a) f s = f a s
after (err e) f s = (s, err e)

infixl 5 ◌>>=◌ ◌>>◌
abbrev pub ◌>>=◌ : {A B : Type 0} → M A → (A → M B) → M B
◌>>=◌ m f s = after (m s).1 f (m s).0

abbrev pub ◌>>◌ : {B : Type 0} → M (Unit {0}) → M B → M B
m >> k = m >>= λ _. k

abbrev pub pure : {A : Type 0} → A → M A
pure a s = (s, ok a)

abbrev pub fail : {A : Type 0} → CacheError → M A
fail e s = (s, err e)

abbrev pub state : M ZoneManager
state s = (s, ok s)

abbrev pub modify : (ZoneManager → ZoneManager) → M (Unit {0})
modify f s = (f s, ok tt)

abbrev pub on_device : {A : Type 0} → (ZoneDevice → ZoneDevice × Result CacheError A) → M A
on_device f s = let (d, r) = f s.device in (record s { device = d }, r)
