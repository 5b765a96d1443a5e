-- ===== src/SsdIndex/Holds.antt =====
-- src/core/storage_config.rs: each operation of `SsdIndex` on the entries that an index holds.
use Prim.Native.Nat.{bit_and}
use text.Mathlib.TextEquality.{eq_iff}
use mathlib.Core.Path.{subst, ◌∙◌}
use matrixcache.Base.{
  arith, ◌%◌, ◌^◌, ◌≡◌, refl, sym, ap, Option, none, some, Bool, true, false, String, if◌then◌else◌,
}
use matrixcache.Base.Map.{IsMap, insert, lookup, lookup-insert, IsMap-insert}
use matrixcache.Codec.{RecordState, decode_colored_ptr, mask_colored_ptr_record_state}
use matrixcache.Codec.Pointer.{restate}
use matrixcache.SsdIndex.{
  state_cleared, SsdIndexValue, ssd_colored_ptr, memory, SsdIndex, state, with_state, set,
}
use matrixcache.SsdIndex.Model.{
  on_device, Entry, Entries, entry, assign, in_state, restated, change,
}

abbrev pub entry_of : Option SsdIndexValue → Option Entry
entry_of none = none
entry_of (some value) = some (entry value)

-- The index has each key once, and the entries are these.
abbrev pub Holds : SsdIndex → Entries → Type 0
Holds index all =
    IsMap index.entries × ((any : String) → entry_of (lookup any index.entries) ≡ all any)

pub entry-with_state :
    (s : RecordState) (value : SsdIndexValue)
    → entry (with_state s value) ≡ in_state s (entry value)
unfolding entry with_state
entry-with_state s (ssd_colored_ptr ptr) =
    let new = mask_colored_ptr_record_state (bit_and ptr state_cleared) s in
    let r = restate ptr s in
    let low : (decode_colored_ptr new).1 % 2 ^ 45 ≡ (decode_colored_ptr ptr).1 % 2 ^ 45 =
      omega (arith, r.1) in
    λ i. record { place = on_device (r.0 i) (low i); state = r.2 i }
entry-with_state s (memory value old) = refl

pub state-entry : (value : SsdIndexValue) → state value ≡ some (entry value).state
unfolding entry state
state-entry (ssd_colored_ptr ptr) = refl
state-entry (memory value s) = refl

pub set-Holds :
    (key : String) (value : SsdIndexValue) (index : SsdIndex) (all : Entries)
    → Holds index all
    → Holds (set key value index) (assign key (some (entry value)) all)
set-Holds key value index all holds =
    let m = index.entries in (IsMap-insert key value m holds.0, λ any. set_at any)
  where
    set_at :
        (any : String)
        → entry_of (lookup any (insert key value index.entries))
          ≡ assign key (some (entry value)) all any
    set_at any = ground (arith, lookup-insert key any value index.entries, holds.1 any)

-- An entry put over the same one.
pub keep-Holds :
    (key : String) (e : Option Entry) (index : SsdIndex) (all : Entries)
    → Holds index all
    → all key ≡ e
    → Holds index (assign key e all)
keep-Holds key e index all holds same = (holds.0, assigned)
  where
    assigned : (any : String) → entry_of (lookup any index.entries) ≡ assign key e all any
    assigned any = ground (arith, eq_iff key any, holds.1 any)

-- A state is written if a test says so, and else it is the one that is there.
pub when-Holds :
    (b : Bool) (new : RecordState) (next : RecordState → RecordState) (key : String)
    (value : SsdIndexValue) (index : SsdIndex) (all : Entries)
    → Holds index all
    → all key ≡ some (entry value)
    → next (entry value).state ≡ (if b then new else (entry value).state)
    → Holds (if b then set key (with_state new value) index else index) (change next key all)
when-Holds true new next key value index all holds at is =
    subst (λ e. Holds (set key (with_state new value) index) (assign key e all))
      (ap some (entry-with_state new value)
        ∙ (ap (λ s. some (in_state s (entry value))) (sym is) ∙ ap (restated next) (sym at)))
      (set-Holds key (with_state new value) index all holds)
when-Holds false new next key value index all holds at is =
    keep-Holds key (restated next (all key)) index all holds
      (at ∙ (ap (λ s. some (in_state s (entry value))) (sym is) ∙ ap (restated next) (sym at)))
