-- ===== src/Zoned/Rules.antt =====
-- Rules for chains of operations of the `ZoneManager` of src/runtime/zoned_store.rs.
use matrixcache.Base.{◌≡◌, refl, Bool, true, false, Result, ok, err, if◌then◌else◌}
use matrixcache.Buffer.{CacheError}
use matrixcache.Zoned.Group.{ZoneManager}
use matrixcache.Zoned.Monad.{M, ◌>>=◌, after}

-- What holds after an operation that succeeds.
abbrev pub Gives : {A : Type 0} → (ZoneManager → Type 0) → M A → (ZoneManager → Type 0) → Type 0
Gives {A} P op Q = (m : ZoneManager) → P m → (a : A) → (op m).1 ≡ ok a → Q (op m).0

pub after-Gives :
    {A B : Type 0} (r : Result CacheError A) (f : A → M B) (s : ZoneManager)
    (P Q : ZoneManager → Type 0)
    → ((a : A) → r ≡ ok a → P s)
    → ((a : A) → Gives P (f a) Q)
    → (b : B) → (after r f s).1 ≡ ok b
    → Q (after r f s).0
unfolding after
after-Gives (ok a) f s P Q h k b e = k a s (h a refl) b e
after-Gives (err e) f s P Q h k b q = absurd (cc)

pub >>=-Gives :
    {A B : Type 0} (op : M A) (f : A → M B) (P R Q : ZoneManager → Type 0)
    → Gives P op R
    → ((a : A) → Gives R (f a) Q)
    → Gives P (op >>= f) Q
>>=-Gives op f P R Q h k m p b e = after-Gives (op m).1 f (op m).0 R Q (h m p) k b e

pub if-Gives :
    {A : Type 0} (c : Bool) (op other : M A) (P Q : ZoneManager → Type 0)
    → Gives P op Q
    → Gives P other Q
    → Gives P (if c then op else other) Q
if-Gives true op other P Q h k = h
if-Gives false op other P Q h k = k

-- What an operation keeps, whether it succeeds or not.
abbrev pub Keeps : {A : Type 0} → (ZoneManager → Type 0) → M A → Type 0
Keeps P op = (m : ZoneManager) → P m → P (op m).0

pub after-Keeps :
    {A B : Type 0} (r : Result CacheError A) (f : A → M B) (s : ZoneManager)
    (P : ZoneManager → Type 0)
    → ((a : A) → Keeps P (f a))
    → P s
    → P (after r f s).0
unfolding after
after-Keeps (ok a) f s P h p = h a s p
after-Keeps (err e) f s P h p = p

pub >>=-Keeps :
    {A B : Type 0} (op : M A) (f : A → M B) (P : ZoneManager → Type 0)
    → Keeps P op
    → ((a : A) → Keeps P (f a))
    → Keeps P (op >>= f)
>>=-Keeps op f P h k m p = after-Keeps (op m).1 f (op m).0 P k (h m p)

-- What holds after the branch that is taken, if it succeeds.
pub if-result :
    {S A : Type 0} (c : Bool) (s t : S × Result CacheError A) (Q : S → Type 0) (a : A)
    → (s.1 ≡ ok a → Q s.0)
    → (t.1 ≡ ok a → Q t.0)
    → (if c then s else t).1 ≡ ok a
    → Q (if c then s else t).0
if-result true s t Q a h k e = h e
if-result false s t Q a h k e = k e
