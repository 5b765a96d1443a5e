-- ===== src/Zoned/Recovering.antt =====
-- src/runtime/zoned_store.rs, `ZoneManager::recover`: the groups to be recovered end among those
-- awaiting reclaim.
use matrixcache.Base.{
  arith, ℕ, ◌+◌, ◌≤◌, ◌≡◌, refl, ◌∙◌, List, [], ◌∷◌, false, Result, ok, err, ◌==◌, if◌then◌else◌,
}
use matrixcache.Buffer.{CacheError}
use matrixcache.Zoned.Bytes.{Bytes}
use matrixcache.Zoned.Group.{ZoneManager, group_at}
use matrixcache.Zoned.Device.{read}
use matrixcache.Zoned.Monad.{on_device}
use matrixcache.Zoned.Manager.{member, await_reclaim, Replay, recover_from, recover, replay_group}
use matrixcache.Zoned.Quiet.{lists}
use matrixcache.Zoned.Places.{occurs, places, occurs-append, not_member}

replay_group-lists :
    {S : Type 0} (replay : Replay S) (id : ℕ) (r : Result CacheError Bytes) (s : S)
    (m : ZoneManager)
    → lists (replay_group replay id r s m).1 ≡ lists m
unfolding replay_group
replay_group-lists replay id (ok buf) s m = refl
replay_group-lists replay id (err e) s m = refl

-- The places of a group while `ids` are still to be recovered.
abbrev pending : ℕ → List ℕ → ZoneManager → ℕ
pending x ids m =
    (if m.current_group == x then 1 else 0)
    + (occurs x m.free_list + (occurs x m.gc_list + occurs x ids))

module _ {S : Type 0} (replay : Replay S) where
  recover_from-places :
      (ids : List ℕ) (recovered : ℕ) (s : S) (m : ZoneManager)
      → ((x : ℕ) → pending x ids m ≤ 1)
      → (x : ℕ) → places x (lists (recover_from replay ids recovered s m).1) ≡ pending x ids m
  unfolding recover_from
  recover_from-places [] recovered s m h x = refl
  recover_from-places (id ∷ ids) recovered s m h x =
      let g = group_at m id in
      let t = on_device (read g.meta_offset g.meta_size) m in
      let u = replay_group replay id t.1 s t.0 in
      let same : lists u.1 ≡ lists m = replay_group-lists replay id t.1 s t.0 in
      let fresh : member id m.gc_list ≡ false = not_member id m.gc_list (ground (arith, h id)) in
      let kept : (y : ℕ) → pending y ids (await_reclaim id u.1) ≡ pending y (id ∷ ids) m =
        λ y. ground (arith, same, fresh, occurs-append y m.gc_list (id ∷ [])) in
      recover_from-places ids (recovered + u.2) u.0 (await_reclaim id u.1)
        (λ y. omega (arith, kept y, h y)) x
      ∙ kept x

  pub recover-places :
      (s : S) (m : ZoneManager)
      → ((x : ℕ) → places x (lists m) ≤ 1)
      → (x : ℕ) → places x (lists (recover replay s m).1) ≡ places x (lists m)
  unfolding recover
  recover-places s m h x = recover_from-places m.recovery_list 0 s m h x
