-- ===== src/Zoned/Filling.antt =====
-- src/runtime/zoned_store.rs: how far a zone is written, on a device that does not fail.
use matrixcache.Base.{
  arith, ℕ, zero, suc, ◌+◌, ◌-◌, ◌<◌, ◌≤◌, ◌^◌, ◌≡◌, refl, sym, ap, ◌∙◌, [], length, min, ltb,
  Result, ok, length-set, get_or-set, saturating_add, saturating_sub, Bool-cases, inl, inr, false,
}
use mathlib.Core.Path.{subst}
use matrixcache.Buffer.{CacheError}
use matrixcache.Zoned.Bytes.{Bytes, zeros, stamp}
use matrixcache.Zoned.Device.{ZoneDevice, ZoneStatus, full, avail_bytes, Zone, new_zone, write}
use matrixcache.Zoned.Group.{
  ZoneGroup, ZoneManager, zone_at, group_at, put_zone, current_zone_index,
}
use matrixcache.Zoned.Monad.{M, ◌>>=◌, ◌>>◌, after, on_device, modify}
use matrixcache.Zoned.Appending.{
  advance, set_status, pad_from, pad, write_footer, seal_current_zone,
}

-- An operation that gives `a`, and what holds then.
abbrev pub Does : {A : Type 0} → (ZoneManager → Type 0) → M A → A → (ZoneManager → Type 0) → Type 0
Does P op a Q = (m : ZoneManager) → P m → ((op m).1 ≡ ok a) × Q (op m).0

after_ok :
    {A B : Type 0} (f : A → M B) (s : ZoneManager) (a : A) (b : B) (R Q : ZoneManager → Type 0)
    → R s
    → Does R (f a) b Q
    → ((after (ok a) f s).1 ≡ ok b) × Q (after (ok a) f s).0
unfolding after
after_ok f s a b R Q h k = k s h

pub after-Does :
    {A B : Type 0} (r : Result CacheError A) (f : A → M B) (s : ZoneManager) (a : A) (b : B)
    (R Q : ZoneManager → Type 0)
    → r ≡ ok a
    → R s
    → Does R (f a) b Q
    → ((after r f s).1 ≡ ok b) × Q (after r f s).0
after-Does r f s a b R Q e h k =
    subst (λ t. ((after t f s).1 ≡ ok b) × Q (after t f s).0) (sym e) (after_ok f s a b R Q h k)

pub >>=-Does :
    {A B : Type 0} (op : M A) (f : A → M B) (a : A) (b : B) (P R Q : ZoneManager → Type 0)
    → Does P op a R
    → Does R (f a) b Q
    → Does P (op >>= f) b Q
>>=-Does op f a b P R Q h k m p = after-Does (op m).1 f (op m).0 a b R Q (h m p).0 (h m p).1 k

-- Zone `i` written up to a place, with what stays as it is while it is filled.
pub record Filled (i pointer : ℕ) (s t : ZoneManager) : Type 0 where
  pub sound : t.device.file.faults ≡ []
  pub written : (zone_at t i).write_pointer ≡ pointer
  pub inside : i < length t.zones
  pub same_start : (zone_at t i).start ≡ (zone_at s i).start
  pub same_capacity : (zone_at t i).capacity ≡ (zone_at s i).capacity
  pub same_info : t.device.info ≡ s.device.info
  pub same_footer : t.footer_size ≡ s.footer_size

write_sound :
    (buf : Bytes) (offset : ℕ) (d : ZoneDevice)
    → d.file.faults ≡ []
    → offset + buf.length ≤ d.info.device_capacity
    → d.info.device_capacity < 2 ^ 64
    → ((write buf offset d).1 ≡ ok tt)
      × ((write buf offset d).0.file.faults ≡ [])
      × ((write buf offset d).0.info ≡ d.info)
unfolding write
write_sound buf offset d e fits small =
    let inner : ltb d.info.device_capacity (saturating_add offset buf.length) ≡ false =
      ground (arith, fits, small) in
    rw (inner, e) (refl, refl, refl)

module _ (i : ℕ) (s : ZoneManager) (small : s.device.info.device_capacity < 2 ^ 64) where
  pub write-Filled :
      (buf : Bytes) (pointer : ℕ) (t : ZoneManager)
      → Filled i pointer s t
      → pointer + buf.length ≤ s.device.info.device_capacity
      → let u = on_device (write buf (zone_at t i).write_pointer) t in
        (u.1 ≡ ok tt) × Filled i pointer s u.0
  write-Filled buf pointer t h fits =
      let w =
        write_sound buf (zone_at t i).write_pointer t.device h.sound
          (omega (arith, h.written, fits, ap (λ d. d.device_capacity) h.same_info))
          (omega (arith, small, ap (λ d. d.device_capacity) h.same_info)) in
      (
        w.0,
        record {
          sound = w.1;
          written = h.written;
          inside = h.inside;
          same_start = h.same_start;
          same_capacity = h.same_capacity;
          same_info = w.2 ∙ h.same_info;
          same_footer = h.same_footer;
        },
      )

  put_zone-Filled :
      (z : Zone) (pointer place : ℕ) (t : ZoneManager)
      → Filled i pointer s t
      → z.write_pointer ≡ place
      → z.start ≡ (zone_at t i).start
      → z.capacity ≡ (zone_at t i).capacity
      → Filled i place s (put_zone i z t)
  put_zone-Filled z pointer place t h ew es ec =
      let e : zone_at (put_zone i z t) i ≡ z = get_or-set t.zones i z (new_zone 0 0 0) h.inside in
      record {
        sound = h.sound;
        written = ap (λ w. w.write_pointer) e ∙ ew;
        inside = omega (arith, h.inside, length-set t.zones i z);
        same_start = ap (λ w. w.start) e ∙ (es ∙ h.same_start);
        same_capacity = ap (λ w. w.capacity) e ∙ (ec ∙ h.same_capacity);
        same_info = h.same_info;
        same_footer = h.same_footer;
      }

  pub advance-Filled :
      (size valid pointer : ℕ) (t : ZoneManager)
      → Filled i pointer s t
      → Filled i (pointer + size) s (advance i size valid t)
  unfolding advance
  advance-Filled size valid pointer t h =
      put_zone-Filled _ pointer (pointer + size) t h (omega (arith, h.written)) refl refl

  pub set_status-Filled :
      (status : ZoneStatus) (pointer : ℕ) (t : ZoneManager)
      → Filled i pointer s t
      → Filled i pointer s (set_status i status t)
  unfolding set_status
  set_status-Filled status pointer t h = put_zone-Filled _ pointer pointer t h h.written refl refl

  pad_from-Filled :
      (fuel chunk left pointer : ℕ)
      → 0 < chunk
      → left ≤ fuel
      → pointer + left ≤ s.device.info.device_capacity
      → Does (Filled i pointer s) (pad_from fuel i chunk left) tt (Filled i (pointer + left) s)
  unfolding pad_from
  pad_from-Filled zero chunk left pointer positive enough fits t h =
      (refl, subst (λ n. Filled i n s t) (omega arith) h)
  pad_from-Filled (suc fuel) chunk left pointer positive enough fits t h =
      let take = min chunk left in
      let w = on_device (write (zeros take) (zone_at t i).write_pointer) t in
      elim (Bool-cases (ltb 0 left)) [
        | inl e ↦
            (let some_left : 0 < left = ground (arith, e) in
              let written = write-Filled (zeros take) pointer t h (omega arith) in
              let end : pointer + take + (left - take) ≡ pointer + left = omega arith in
              rw e (
                after-Does w.1
                  (λ u. modify (advance i take 0) >> pad_from fuel i chunk (left - take)) w.0 tt tt
                  (Filled i pointer s) (Filled i (pointer + left) s) written.0 written.1
                  (>>=-Does (modify (advance i take 0)) (λ v. pad_from fuel i chunk (left - take))
                    tt tt (Filled i pointer s) (Filled i (pointer + take) s)
                    (Filled i (pointer + left) s) (λ v p. (refl, advance-Filled take 0 pointer v p))
                    (λ v p.
                      let r =
                        pad_from-Filled fuel chunk (left - take) (pointer + take) positive
                          (omega arith) (omega arith) v p in
                      (
                        r.0,
                        subst (λ n. Filled i n s (pad_from fuel i chunk (left - take) v).0) end r.1,
                      )))))
        | inr e ↦
            (let none_left : left ≡ 0 = ground (arith, e) in
              rw e (refl, subst (λ n. Filled i n s t) (omega (arith, none_left)) h))
      ]

  write_footer-Filled :
      (group : ZoneGroup) (pointer : ℕ)
      → pointer + s.footer_size ≤ s.device.info.device_capacity
      → Does (Filled i pointer s) (write_footer i group) tt (Filled i (pointer + s.footer_size) s)
  unfolding write_footer after
  write_footer-Filled group pointer fits t h =
      let footer = stamp t.footer_size group.meta_offset group.meta_size in
      let w = on_device (write footer (zone_at t i).write_pointer) t in
      let written = write-Filled footer pointer t h (omega (arith, h.same_footer, fits)) in
      after-Does w.1
        (λ u. modify (advance i t.footer_size t.footer_size) >> modify (set_status i full)) w.0 tt
        tt (Filled i pointer s) (Filled i (pointer + s.footer_size) s) written.0 written.1
        (λ v p. (
          refl,
          subst
              (λ n.
                Filled i (pointer + n) s
                  (set_status i full (advance i t.footer_size t.footer_size v)))
              h.same_footer
              (set_status-Filled full (pointer + t.footer_size)
                (advance i t.footer_size t.footer_size v)
                (advance-Filled t.footer_size t.footer_size pointer v p)),
        ))

  pad-Filled :
      (left pointer : ℕ)
      → pointer + left ≤ s.device.info.device_capacity
      → Does (Filled i pointer s) (pad i left) tt (Filled i (pointer + left) s)
  unfolding pad pad_from
  pad-Filled zero pointer fits t h = (refl, subst (λ n. Filled i n s t) (omega arith) h)
  pad-Filled (suc left) pointer fits t h =
      pad_from-Filled (suc left) (min (2 ^ 20) (suc left)) (suc left) pointer (omega arith)
        (omega arith) fits t h

  -- Sealing writes a zone to its end.
  pub seal_current_zone-Filled :
      (pointer : ℕ) (t : ZoneManager)
      → Filled i pointer s t
      → current_zone_index t ≡ i
      → let z = zone_at s i in
        z.start ≤ pointer
        → pointer + s.footer_size ≤ z.start + z.capacity
        → z.start + z.capacity ≤ s.device.info.device_capacity
        → ((seal_current_zone t).1 ≡ ok tt)
          × Filled i (z.start + z.capacity) s (seal_current_zone t).0
  unfolding seal_current_zone avail_bytes
  seal_current_zone-Filled pointer t h e begun room inside =
      let z = zone_at s i in
      let left = saturating_sub (avail_bytes (zone_at t i)) t.footer_size in
      let remains : pointer + left + s.footer_size ≡ z.start + z.capacity =
        omega (arith, h.written, h.same_start, h.same_capacity, h.same_footer, begun, room) in
      rw e (
        >>=-Does (pad i left) (λ u. write_footer i (group_at t t.current_group)) tt tt
          (Filled i pointer s) (Filled i (pointer + left) s) (Filled i (z.start + z.capacity) s)
          (pad-Filled left pointer (omega arith))
          (λ v p.
            let r =
              write_footer-Filled (group_at t t.current_group) (pointer + left) (omega arith) v p in
            (
              r.0,
              subst (λ n. Filled i n s (write_footer i (group_at t t.current_group) v).0) remains
                  r.1,
            ))
          t h)
