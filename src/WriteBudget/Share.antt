-- ===== src/WriteBudget/Share.antt =====
-- src/core/write_budget.rs, `roll_window`: how a closed window moves the admitted share.
use matrixcache.Base.{
  if◌then◌else◌, ℕ, ◌+◌, ◌-◌, ◌*◌, ◌/◌, ◌≤◌, ◌<◌, min, max, ◌≡◌, refl, inl, inr, false, some, ltb,
  leb, arith, Bool-cases, ◌⊎◌, ◌%◌, sym, ◌∙◌, u64_max,
}
use native.Mathlib.Nat.{div-le_of_le-mul, div-add-mod, mod-lt, mul-le-mul_left, mul-le-mul_right}
use mathlib.Core.Path.{subst}
use matrixcache.WriteBudget.{
  SsdWriteBudget, write_budget_scale, write_budget_window, allowed_bytes, elapsed_millis,
  next_share, close_window, roll_from, roll_window,
}

-- A share of a budget that is not disabled: at least one step, at most all.
abbrev pub InRange : ℕ → Type 0
InRange share = (1 ≤ share) × (share ≤ write_budget_scale)

not_early :
    (started now : ℕ)
    → started + write_budget_window ≤ now
    → ltb (now - started) write_budget_window ≡ false
not_early started now h = ground arith

share_scaled_le : (share bytes allowed : ℕ) → allowed < bytes → share * allowed / bytes ≤ share
share_scaled_le share bytes allowed over = div-le_of_le-mul bytes (grind arith)

pub next_share_over :
    (share bytes allowed : ℕ)
    → share ≤ write_budget_scale
    → allowed < bytes
    → next_share share bytes allowed ≡ max (share * allowed / bytes) 1
unfolding next_share
next_share_over share bytes allowed r over =
    ground (arith, share_scaled_le share bytes allowed over)

pub next_share_under :
    (share bytes allowed : ℕ)
    → InRange share
    → bytes ≤ allowed
    → next_share share bytes allowed ≡ min (share * 2) write_budget_scale
unfolding next_share
next_share_under share bytes allowed r under = ground arith

next_share_lem :
    (share bytes allowed : ℕ)
    → InRange share
    → next_share share bytes allowed ≡ (
        if leb bytes allowed
        then min (share * 2) write_budget_scale
        else max (share * allowed / bytes) 1)
next_share_lem share bytes allowed r =
    ground (arith, next_share_under share bytes allowed r, next_share_over share bytes allowed r.1)

pub next_share-InRange :
    (share bytes allowed : ℕ) → InRange share → InRange (next_share share bytes allowed)
next_share-InRange share bytes allowed r = elim (Bool-cases (leb bytes allowed)) [
  | inl under ↦ omega (arith, next_share_under share bytes allowed r (ground arith))
  | inr over ↦
      let lt : allowed < bytes = ground arith in
      omega
        (arith, next_share_over share bytes allowed r.1 lt, share_scaled_le share bytes allowed lt)
]

pub roll_window_moves :
    (started now : ℕ) (b : SsdWriteBudget)
    → InRange b.admitted_share
    → b.window_started ≡ some started
    → started + write_budget_window ≤ now
    → let allowed = allowed_bytes b.target_bytes_per_sec (elapsed_millis started now) in
      let b' = roll_window now b in
      (b'.admitted_share ≡ (
        if leb b.bytes_this_window allowed
        then min (b.admitted_share * 2) write_budget_scale
        else max (b.admitted_share * allowed / b.bytes_this_window) 1))
      × InRange b'.admitted_share
      × (b'.bytes_this_window ≡ 0)
      × (b'.window_started ≡ some now)
unfolding roll_window close_window
roll_window_moves started now b r open_since over =
    rw (open_since, roll_from)
      (rw (not_early started now over) (
        next_share_lem b.admitted_share b.bytes_this_window _ r,
        next_share-InRange b.admitted_share b.bytes_this_window _ r,
        refl,
        refl,
      ))

-- A share cut in proportion: never raised, never to zero, within what the target allows, and not
-- below that by more than a step and the rounding of the allowance.
pub record Cut (share share' bytes target millis : ℕ) : Type 0 where
  pub falls : share' ≤ share
  pub fits : (share' ≡ 1) ⊎ (share' * (bytes * 1_000) ≤ share * (target * millis))
  pub close : share * (target * millis) < (share' + 1) * (bytes * 1_000) + share * 1_000

Cut-share :
    (share bytes target millis : ℕ)
    → InRange share
    → target * millis / 1_000 < bytes
    → Cut share (max (share * (target * millis / 1_000) / bytes) 1) bytes target millis
Cut-share share bytes target millis r over =
    let wanted = target * millis in
    let allowed = wanted / 1_000 in
    let q = share * allowed / bytes in
    let down = share_scaled_le share bytes allowed over in
    let whole : bytes * q + share * allowed % bytes ≡ share * allowed =
      div-add-mod (share * allowed) bytes in
    let part : share * allowed % bytes < bytes = mod-lt (share * allowed) (omega arith) in
    let less : share * (allowed * 1_000) ≤ share * wanted = mul-le-mul_left share (omega arith) in
    let more : share * wanted ≤ share * (allowed * 1_000 + 999) =
      mul-le-mul_left share (omega arith) in
    record {
      falls = omega (arith, down, r.0);
      fits = elim (Bool-cases (leb q 1)) [
        | inl e ↦ inl (ground (arith, e))
        | inr e ↦
            (let many : 1 < q = ground (arith, e) in
              let top : max q 1 ≡ q = omega (arith, many) in
              let below : q * (bytes * 1_000) ≤ share * (allowed * 1_000) = grind (arith, whole) in
              inr (rw top (omega (arith, below, less))))
      ];
      close =
          (let above : share * (allowed * 1_000) < (q + 1) * (bytes * 1_000) =
              grind (arith, whole, part) in
            let rounded : (q + 1) * (bytes * 1_000) ≤ (max q 1 + 1) * (bytes * 1_000) =
              mul-le-mul_right (bytes * 1_000) (omega arith) in
            let spread : share * (allowed * 1_000 + 999) ≡ share * (allowed * 1_000) + share * 999 =
              grind arith in
            omega (arith, above, rounded, spread, more, r.0));
    }

-- When a window is over, and the share is between one step and the whole: either it saw no more bytes
-- than its target allows in the milliseconds that it lasted, and the share doubles, up to the whole;
-- or it saw more, and the share is cut in proportion to the excess, never to zero. Either way it stays
-- in range, the count starts again, and the next window begins at `now`.
pub roll_window_closes :
    (started now : ℕ) (b : SsdWriteBudget)
    → InRange b.admitted_share
    → b.window_started ≡ some started
    → started + write_budget_window ≤ now
    → let millis = min ((now - started) / 1_000_000) u64_max in
      let b' = roll_window now b in
      (((b.bytes_this_window * 1_000 ≤ b.target_bytes_per_sec * millis)
          × (b'.admitted_share ≡ min (b.admitted_share * 2) 10_000))
        ⊎ ((b.target_bytes_per_sec * millis < b.bytes_this_window * 1_000)
            × Cut b.admitted_share b'.admitted_share b.bytes_this_window b.target_bytes_per_sec
                millis))
      × InRange b'.admitted_share
      × (b'.bytes_this_window ≡ 0)
      × (b'.window_started ≡ some now)
unfolding allowed_bytes
roll_window_closes started now b r open_since over =
    let millis = elapsed_millis started now in
    let bytes = b.bytes_this_window in
    let allowed = b.target_bytes_per_sec * millis / 1_000 in
    let (moved, range, counted, since) = roll_window_moves started now b r open_since over in
    (
      elim (Bool-cases (leb bytes allowed)) [
        | inl e ↦ inl (
          (let few : bytes ≤ allowed = ground (arith, e) in omega (arith, few)),
          moved ∙ rw e refl,
        )
        | inr e ↦
            (let more : allowed < bytes = ground (arith, e) in
              inr (
                omega (arith, more),
                subst (λ n. Cut b.admitted_share n bytes b.target_bytes_per_sec millis)
                    (sym (moved ∙ rw e refl))
                    (Cut-share b.admitted_share bytes b.target_bytes_per_sec millis r more),
              ))
      ],
      range,
      counted,
      since,
    )
