-- ===== src/SsdIndex/Change.antt =====
-- src/core/storage_config.rs: what each operation of `SsdIndex` does to the entries it stands for.
use mathlib.Core.Path.{subst}
use matrixcache.Base.{
  arith, ◌≡◌, refl, sym, ap, ◌∙◌, Option, none, some, Bool, true, false, String, if◌then◌else◌, not,
}
use matrixcache.Base.Map.{lookup, lookup-remove, IsMap-remove, remove}
use matrixcache.Codec.{RecordState, soft_del, normal, pinned, max_code}
use matrixcache.SsdIndex.{
  SsdIndexValue, SsdIndex, state, with_state, is_state, set, kept_state, update_found, get_found,
  unpin_found, pin_found, soft_delete_found, delete_if, state_of, is_some_and,
}
use matrixcache.SsdIndex.Model.{
  Entries, entry, assign, in_state, read, unpinned, soft_deleted, pins, restated, change, replaced,
  is_there, pinnable, satisfies,
}
use matrixcache.SsdIndex.Holds.{
  entry_of, Holds, state-entry, entry-with_state, set-Holds, keep-Holds, when-Holds,
}

-- A conditional pair, one part at a time.
split_if :
    {A B : Type 0} (P : A → Type 0) (Q : B → Type 0) (b : Bool) (p q : A) (x y : B)
    → P (if b then p else q)
    → Q (if b then x else y)
    → (let both = if◌then◌else◌ {A = A × B} b (p, x) (q, y) in P both.0 × Q both.1)
split_if P Q true p q x y l r = (l, r)
split_if P Q false p q x y l r = (l, r)

if_not :
    {A : Type 0} (P : A → Type 0) (b : Bool) (p q : A)
    → P (if not b then q else p)
    → P (if b then p else q)
if_not P true p q h = h
if_not P false p q h = h

flipped : (b : Bool) → (if b then false else true) ≡ not b
flipped true = refl
flipped false = refl

-- What a read returns.
served :
    (b : Bool) (value : SsdIndexValue)
    → read (entry value).state ≡ (if b then normal else (entry value).state)
    → entry_of (if b then some (with_state normal value) else some value)
      ≡ some (in_state (read (entry value).state) (entry value))
served true value is =
    ap some (entry-with_state normal value) ∙ ap (λ s. some (in_state s (entry value))) (sym is)
served false value is = ap (λ s. some (in_state s (entry value))) (sym is)

satisfied :
    (pred : RecordState → Bool) (value : Option SsdIndexValue)
    → is_some_and pred (state_of value) ≡ satisfies pred (entry_of value)
satisfied pred none = refl
satisfied pred (some value) = ap (is_some_and pred) (state-entry value)

-- What a test on the state of a value comes to.
tested :
    (value : SsdIndexValue) (test : Option RecordState → Bool) (new : RecordState)
    (next : RecordState → RecordState)
    → ((s : RecordState) → next s ≡ (if test (some s) then new else s))
    → next (entry value).state ≡ (if test (state value) then new else (entry value).state)
tested value test new next by =
    let s = (entry value).state in
    by s ∙ ap (λ o. if test o then new else s) (sym (state-entry value))

unpinned_if : (s : RecordState) → unpinned s ≡ (if is_state pinned (some s) then normal else s)
unpinned_if soft_del = refl
unpinned_if normal = refl
unpinned_if pinned = refl
unpinned_if max_code = refl

read_if : (s : RecordState) → read s ≡ (if is_state soft_del (some s) then normal else s)
read_if soft_del = refl
read_if normal = refl
read_if pinned = refl
read_if max_code = refl

soft_deleted_if :
    (s : RecordState) → soft_deleted s ≡ (if not (is_state pinned (some s)) then soft_del else s)
soft_deleted_if soft_del = refl
soft_deleted_if normal = refl
soft_deleted_if pinned = refl
soft_deleted_if max_code = refl

pinned_if : (s : RecordState) → pinned ≡ (if not (is_state pinned (some s)) then pinned else s)
pinned_if soft_del = refl
pinned_if normal = refl
pinned_if pinned = refl
pinned_if max_code = refl

not-is_state : (s : RecordState) → not (is_state pinned (some s)) ≡ pins s
not-is_state soft_del = refl
not-is_state normal = refl
not-is_state pinned = refl
not-is_state max_code = refl

module _ (key : String) (index : SsdIndex) (all : Entries) (holds : Holds index all) where
  absent-Holds :
      (next : RecordState → RecordState) → all key ≡ none → Holds index (change next key all)
  absent-Holds next at =
      keep-Holds key (restated next (all key)) index all holds (at ∙ ap (restated next) (sym at))

  pub unpin_found-Holds :
      (value : Option SsdIndexValue)
      → all key ≡ entry_of value
      → Holds (unpin_found value key index) (change unpinned key all)
  unfolding unpin_found
  unpin_found-Holds none at = absent-Holds unpinned at
  unpin_found-Holds (some value) at =
      when-Holds (is_state pinned (state value)) normal unpinned key value index all holds at
        (tested value (is_state pinned) normal unpinned unpinned_if)

  pub soft_delete_found-Holds :
      (value : Option SsdIndexValue)
      → all key ≡ entry_of value
      → Holds (soft_delete_found value key index) (change soft_deleted key all)
  unfolding soft_delete_found
  soft_delete_found-Holds none at = absent-Holds soft_deleted at
  soft_delete_found-Holds (some value) at =
      when-Holds (not (is_state pinned (state value))) soft_del soft_deleted key value index all
        holds at (tested value (λ o. not (is_state pinned o)) soft_del soft_deleted soft_deleted_if)

  pub get_found-Holds :
      (value : Option SsdIndexValue)
      → all key ≡ entry_of value
      → (let r = get_found value key index in
          Holds r.0 (change read key all) × (entry_of r.1 ≡ restated read (all key)))
  unfolding get_found
  get_found-Holds none at = (absent-Holds read at, ap (restated read) (sym at))
  get_found-Holds (some value) at =
      let b = is_state soft_del (state value) in
      let by = tested value (is_state soft_del) normal read read_if in
      split_if (λ i. Holds i (change read key all)) (λ o. entry_of o ≡ restated read (all key)) b _
        _ _ _ (when-Holds b normal read key value index all holds at by)
        (served b value by ∙ ap (restated read) (sym at))

  pub pin_found-Holds :
      (value : Option SsdIndexValue)
      → all key ≡ entry_of value
      → (let r = pin_found value key index in
          Holds r.0 (change (λ s. pinned) key all) × (r.1 ≡ pinnable (all key)))
  unfolding pin_found
  pin_found-Holds none at = (absent-Holds (λ s. pinned) at, ap pinnable (sym at))
  pin_found-Holds (some value) at =
      let b = is_state pinned (state value) in
      let by = tested value (λ o. not (is_state pinned o)) pinned (λ s. pinned) pinned_if in
      let pinning =
        ap (λ o. not (is_state pinned o)) (state-entry value) ∙ not-is_state (entry value).state in
      split_if (λ i. Holds i (change (λ s. pinned) key all)) (λ new. new ≡ pinnable (all key)) b _ _
        _ _
        (if_not (λ i. Holds i (change (λ s. pinned) key all)) b _ _
          (when-Holds (not b) pinned (λ s. pinned) key value index all holds at by))
        (flipped b ∙ (pinning ∙ ap pinnable (sym at)))

  pub update_found-Holds :
      (current : Option SsdIndexValue) (value : SsdIndexValue)
      → all key ≡ entry_of current
      → (let r = update_found current key value index in
          Holds r.0 (assign key (replaced (entry value) (all key)) all)
          × (r.1 ≡ is_there (all key)))
  unfolding update_found
  update_found-Holds none value at = (
    keep-Holds key (replaced (entry value) (all key)) index all holds
        (at ∙ ap (replaced (entry value)) (sym at)),
    ap is_there (sym at),
  )
  update_found-Holds (some current) value at =
      let s = (entry current).state in
      let e : some (entry (kept_state (state current) value)) ≡ replaced (entry value) (all key) =
        ap (λ o. some (entry (kept_state o value))) (state-entry current)
        ∙ (ap some (entry-with_state s value) ∙ ap (replaced (entry value)) (sym at)) in
      (
        subst (λ t. Holds (set key (kept_state (state current) value) index) (assign key t all)) e
            (set-Holds key (kept_state (state current) value) index all holds),
        ap is_there (sym at),
      )

  removed :
      (b : Bool)
      → (let gone : SsdIndex = record index { entries = remove key index.entries } in
          let r = if◌then◌else◌ {A = SsdIndex × Bool} b (gone, true) (index, false) in
          Holds r.0 (if b then assign key none all else all) × (r.1 ≡ b))
  removed true = ((IsMap-remove key index.entries holds.0, left), refl)
    where
      left :
          (any : String)
          → entry_of (lookup any (remove key index.entries)) ≡ assign key none all any
      left any = ground (arith, lookup-remove key any index.entries holds.0, holds.1 any)
  removed false = (holds, refl)

  pub delete_if-Holds :
      (pred : RecordState → Bool)
      → (let r = delete_if key pred index in
          let gone = satisfies pred (all key) in
          Holds r.0 (if gone then assign key none all else all) × (r.1 ≡ gone))
  unfolding delete_if
  delete_if-Holds pred =
      let b = is_some_and pred (state_of (lookup key index.entries)) in
      let same : b ≡ satisfies pred (all key) =
        satisfied pred (lookup key index.entries) ∙ ap (satisfies pred) (holds.1 key) in
      let r = removed b in
      (
        subst (λ t. Holds (delete_if key pred index).0 (if t then assign key none all else all))
            same r.0,
        r.1 ∙ same,
      )
