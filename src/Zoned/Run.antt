-- ===== src/Zoned/Run.antt =====
-- src/runtime/zoned_store.rs, `ZoneManager`: where the groups are after any sequence of calls.
use matrixcache.Base.{
  arith, ℕ, ◌<◌, ◌≤◌, ◌^◌, ◌≡◌, refl, ap, ◌∙◌, List, [], ◌∷◌, length, Bool, true, false, ltb, ok,
  if◌then◌else◌, Bool-cases, inl, inr,
}
use matrixcache.Zoned.Bytes.{Bytes}
use matrixcache.Zoned.Device.{ZoneDevice, read}
use matrixcache.Zoned.Group.{ZoneManager}
use matrixcache.Zoned.Monad.{on_device}
use matrixcache.Zoned.Appending.{ensure_available_space, DataKind, append}
use matrixcache.Zoned.Manager.{
  member, trim_bytes, finish_group, find_gc_group, reset_group, load_meta_data, Replay, recover,
  new_manager,
}
use matrixcache.Zoned.Quiet.{lists, append-Quiet}
use matrixcache.Zoned.Places.{
  places, occurs-append, not_member, occurs-take_out, finish_group-lists, reset_group-lists,
  places-find_gc_group,
}
use matrixcache.Zoned.Recovering.{recover-places}
use matrixcache.Zoned.Starting.{Placed, new_manager-Placed}

pub data Call : Type 1 where
  ensure_space : ℕ → ℕ → Call
  append_bytes : Bytes → DataKind → Call
  read_at : ℕ → ℕ → Call
  trim : ℕ → ℕ → Call
  finish : Call
  find_group : Call
  reset : ℕ → Call
  load : ℕ → Call
  recover_all : {S : Type 0} → Replay S → S → Call

-- The manager after a call, whether that succeeds or not.
unfoldable pub step : Call → ZoneManager → ZoneManager
step (ensure_space data_size meta_size) m = (ensure_available_space data_size meta_size m).0
step (append_bytes buf kind) m = (append buf kind m).0
step (read_at offset len) m = (on_device (read offset len) m).0
step (trim offset size) m = (trim_bytes offset size m).0
step finish m = (finish_group m).0
step find_group m = (find_gc_group m).0
step (reset id) m = (reset_group id m).0
step (load id) m = (load_meta_data id m).0
step (recover_all replay s) m = (recover replay s m).1

unfoldable pub run : List Call → ZoneManager → ZoneManager
run [] m = m
run (c ∷ cs) m = run cs (step c m)

-- A group is finished only while another is free, and the reset of a group awaiting reclaim reaches
-- the device.
abbrev pub Fine : Call → ZoneManager → Type 0
Fine finish m = 0 < length m.free_list
Fine (reset id) m = member id m.gc_list ≡ true → (reset_group id m).1 ≡ ok tt
Fine c m = Unit

abbrev pub AllFine : List Call → ZoneManager → Type 0
AllFine [] m = Unit
AllFine (c ∷ cs) m = Fine c m × AllFine cs (step c m)

one_at_most : (n x : ℕ) → (if ltb x n then 1 else 0) ≤ 1
one_at_most n x = ground arith

finish-Placed :
    (n : ℕ) (fs : List ℕ) (m : ZoneManager)
    → m.free_list ≡ fs
    → 0 < length fs
    → Placed n m
    → Placed n (finish_group m).0
finish-Placed n [] m e h p x = absurd (omega arith)
finish-Placed n (id ∷ rest) m e h p x =
    let fresh : member m.current_group m.gc_list ≡ false =
      not_member m.current_group m.gc_list
        (ground (arith, p m.current_group, one_at_most n m.current_group)) in
    ap (places x) (finish_group-lists id rest m e)
    ∙ ground (arith, p x, e, fresh, occurs-append x m.gc_list (m.current_group ∷ []))

not_awaiting : (id : ℕ) (m : ZoneManager) → member id m.gc_list ≡ false → (reset_group id m).0 ≡ m
unfolding reset_group
not_awaiting id m h = rw h refl

reset-Placed :
    (n id : ℕ) (m : ZoneManager)
    → (member id m.gc_list ≡ true → (reset_group id m).1 ≡ ok tt)
    → Placed n m
    → Placed n (reset_group id m).0
reset-Placed n id m h p = elim (Bool-cases (member id m.gc_list)) [
  | inl e ↦ λ x.
      ap (places x) (reset_group-lists id m (h e)).1
      ∙ omega (arith, p x, occurs-take_out id x m.gc_list e, occurs-append x m.free_list (id ∷ []))
  | inr e ↦ rw (not_awaiting id m e) p
]

step-Placed : (n : ℕ) (c : Call) (m : ZoneManager) → Fine c m → Placed n m → Placed n (step c m)
unfolding step ensure_available_space trim_bytes load_meta_data
step-Placed n (ensure_space data_size meta_size) m h p = p
step-Placed n (append_bytes buf kind) m h p = λ x. ap (places x) (append-Quiet buf kind m) ∙ p x
step-Placed n (read_at offset len) m h p = p
step-Placed n (trim offset size) m h p = λ x. ground (arith, p x)
step-Placed n finish m h p = finish-Placed n m.free_list m refl h p
step-Placed n find_group m h p = λ x. places-find_gc_group x m ∙ p x
step-Placed n (reset id) m h p = reset-Placed n id m h p
step-Placed n (load id) m h p = λ x. ground (arith, p x)
step-Placed n (recover_all replay s) m h p =
    λ x. recover-places replay s m (λ y. omega (arith, p y, one_at_most n y)) x ∙ p x

run-Placed_from :
    (n : ℕ) (cs : List Call) (m : ZoneManager) → AllFine cs m → Placed n m → Placed n (run cs m)
unfolding run
run-Placed_from n [] m h p = p
run-Placed_from n (c ∷ cs) m h p = run-Placed_from n cs (step c m) h.1 (step-Placed n c m h.0 p)

-- On a device of at most 2 ^ 16 groups, started with or without what it held, each group is after
-- any calls in exactly one place: it takes the appends, or is free, awaits reclaim or is to be
-- recovered, once. The calls may fail, but a group is finished only while another is free, and the
-- reset of a group awaiting reclaim reaches the device.
pub run-Placed :
    (device : ZoneDevice) (reuse_existing : Bool) (calls : List Call)
    → device.info.groups_in_device ≤ 2 ^ 16
    → (new_manager device reuse_existing).1 ≡ ok tt
    → AllFine calls (new_manager device reuse_existing).0
    → (x : ℕ)
    → places x (lists (run calls (new_manager device reuse_existing).0))
      ≡ (if ltb x device.info.groups_in_device then 1 else 0)
run-Placed device reuse_existing calls small e h =
    run-Placed_from device.info.groups_in_device calls (new_manager device reuse_existing).0 h
      (new_manager-Placed device reuse_existing small e)
