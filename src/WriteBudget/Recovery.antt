-- ===== src/WriteBudget/Recovery.antt =====
-- src/core/write_budget.rs, `roll_window`: a budget that sees no writes opens up again.
use native.Mathlib.Decide.{dec_le}
use native.Mathlib.Nat.{pow-suc, min-eq_left, min-eq_right}
use matrixcache.Base.{
  ℕ, zero, suc, ◌+◌, ◌*◌, ◌^◌, ◌≤◌, min, ◌≡◌, some, List, [], ◌∷◌, length, arith,
}
use matrixcache.WriteBudget.{SsdWriteBudget, write_budget_scale, write_budget_window, roll_window}
use matrixcache.WriteBudget.Share.{InRange, roll_window_moves}

-- Each time is at least one window after the one before it.
abbrev pub Spaced : ℕ → List ℕ → Type 0
Spaced t [] = Unit {0}
Spaced t (u ∷ us) = (t + write_budget_window ≤ u) × Spaced u us

unfoldable pub roll_all : List ℕ → SsdWriteBudget → SsdWriteBudget
roll_all [] b = b
roll_all (t ∷ ts) b = roll_all ts (roll_window t b)

-- What a budget is between two quiet windows.
record IsQuiet (t : ℕ) (b : SsdWriteBudget) : Type 0 where
  range : InRange b.admitted_share
  silent : b.bytes_this_window ≡ 0
  since : b.window_started ≡ some t

roll_window-IsQuiet :
    (t u : ℕ) {b : SsdWriteBudget}
    → t + write_budget_window ≤ u
    → IsQuiet t b
    → IsQuiet u (roll_window u b)
      × ((roll_window u b).admitted_share ≡ min (b.admitted_share * 2) write_budget_scale)
roll_window-IsQuiet t u {b} later q = ground (arith, roll_window_moves t u b q.range q.since later)

pow-pos : (n : ℕ) → 1 ≤ 2 ^ n
pow-pos zero = omega arith
pow-pos (suc n) = omega (arith, pow-suc 2 n, pow-pos n)

-- One doubling is worth one power of two.
doubling :
    (s p : ℕ)
    → 1 ≤ p
    → write_budget_scale ≤ s * (p * 2)
    → write_budget_scale ≤ min (s * 2) write_budget_scale * p
doubling s p pos h = elim (dec_le (s * 2) write_budget_scale) [
  | yes small ↦ rw (min-eq_left small) (omega (arith, h))
  | no large ↦ rw (min-eq_right {n = write_budget_scale} {m = s * 2} (omega arith)) (omega arith)
]

roll_all-whole :
    (ts : List ℕ) (t : ℕ) {b : SsdWriteBudget}
    → IsQuiet t b
    → Spaced t ts
    → write_budget_scale ≤ b.admitted_share * 2 ^ length ts
    → (roll_all ts b).admitted_share ≡ write_budget_scale
unfolding roll_all
roll_all-whole [] t q s h = omega arith
roll_all-whole (u ∷ us) t {b} q s h =
    let step = roll_window-IsQuiet t u {b = b} s.0 q in
    roll_all-whole us u step.0 s.1 (
      rw step.1 (doubling b.admitted_share (2 ^ length us) (pow-pos (length us)) (rw pow-suc at h)))

-- However far a budget in its range was closed, fourteen windows without a write, from one that has
-- seen none, bring the whole share back.
pub quiet_windows_reopen :
    (ts : List ℕ) (t : ℕ) (b : SsdWriteBudget)
    → InRange b.admitted_share
    → b.bytes_this_window ≡ 0
    → b.window_started ≡ some t
    → Spaced t ts
    → length ts ≡ 14
    → (roll_all ts b).admitted_share ≡ write_budget_scale
quiet_windows_reopen ts t b r silent since s n =
    roll_all-whole ts t (record { range = r; silent = silent; since = since }) s
      (rw n (omega arith))
