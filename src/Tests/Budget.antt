-- ===== src/Tests/Budget.antt =====
-- src/core/write_budget.rs: runs of `SsdWriteBudget`, and its theorems at concrete inputs.
use matrixcache.Base.{
  ◌≤◌, u64_max, ℕ, ◌<◌, ◌≡◌, refl, List, [], ◌∷◌, true, false, some, min, ◌/◌, ◌*◌, ◌%◌, ◌^◌, arith,
}
use mathlib.Core.Logic.{◌↔◌, ◌⊎◌}
use matrixcache.WriteBudget.{
  SsdWriteBudget, with_target, set_target_bytes_per_sec, disable_admission, allowed_bytes,
  next_share, observed_rate, close_window, roll_from, roll_window, share_admits, admits,
  record_written, write_budget_scale,
}
use matrixcache.WriteBudget.Share.{InRange, Cut, roll_window_closes}
use matrixcache.WriteBudget.Laws.{
  Call, apply, run, IsValid, run-IsValid, admits_iff, retarget_keeps_share,
}
use matrixcache.WriteBudget.Recovery.{Spaced, roll_all, quiet_windows_reopen}

program : Unit {0}
unfolding with_target set_target_bytes_per_sec disable_admission allowed_bytes next_share
    observed_rate close_window roll_from roll_window share_admits admits record_written apply run
    roll_all Spaced
program = tt

-- A window of one second that saw ten times its target.
abbrev over : SsdWriteBudget
over = record {
  admission_disabled = false;
  target_bytes_per_sec = 1_000;
  admitted_share = 10_000;
  bytes_this_window = 10_000;
  window_started = some 0;
  observed_bytes_per_sec = 0;
}

abbrev closed : SsdWriteBudget
closed = record over { admitted_share = 1; bytes_this_window = 0 }

over_target : (roll_window 1_000_000_000 over).admitted_share ≡ 1_000
unfolding program
over_target = refl

disabled_admits_nothing : (admits 0 5 (disable_admission (with_target 1_000))).1 ≡ false
unfolding program
disabled_admits_nothing = refl

-- The first write opens the window.
first_write :
    record_written 700 5 (with_target 1_000)
    ≡ record (with_target 1_000) { bytes_this_window = 700; window_started = some 5 }
unfolding program
first_write = refl

-- Too early for the window to close.
early : roll_window 999_999_999 over ≡ over
unfolding program
early = refl

roll_window_closes_example :
    (((10_000 * 1_000 ≤ 1_000 * 2_000)
        × ((roll_window 2_000_000_000 over).admitted_share ≡ min (10_000 * 2) 10_000))
      ⊎ ((1_000 * 2_000 < 10_000 * 1_000)
          × Cut 10_000 (roll_window 2_000_000_000 over).admitted_share 10_000 1_000 2_000))
    × InRange (roll_window 2_000_000_000 over).admitted_share
    × ((roll_window 2_000_000_000 over).bytes_this_window ≡ 0)
    × ((roll_window 2_000_000_000 over).window_started ≡ some 2_000_000_000)
roll_window_closes_example =
    roll_window_closes 0 2_000_000_000 over (omega arith, omega arith) refl (omega arith)

run-IsValid_example : IsValid (
    run
      (Call.written 9_000 0
        ∷ Call.admit 7 1_500_000_000
        ∷ Call.disable
        ∷ Call.set_target 50
        ∷ Call.written 3 4_000_000_000
        ∷ [])
      (with_target 1_000))
run-IsValid_example =
    run-IsValid
      (Call.written 9_000 0
        ∷ Call.admit 7 1_500_000_000
        ∷ Call.disable
        ∷ Call.set_target 50
        ∷ Call.written 3 4_000_000_000
        ∷ [])
      1_000

admits_iff_example : ((admits (5_000 * 2 ^ 32) 2_000_000_000 over).1 ≡ true) ↔ (
    (over.admission_disabled ≡ false)
    × ((over.target_bytes_per_sec ≡ 0)
        ⊎ (5_000 * 2 ^ 32 / 2 ^ 32 % write_budget_scale
            < (roll_window 2_000_000_000 over).admitted_share)))
admits_iff_example = admits_iff (5_000 * 2 ^ 32) 2_000_000_000 over

retarget_keeps_share_example :
    ((◌≡◌ {A = ℕ} 50 1_000) × (set_target_bytes_per_sec 50 over ≡ over))
    ⊎ ((¬ (◌≡◌ {A = ℕ} 50 1_000))
        × ((set_target_bytes_per_sec 50 over).target_bytes_per_sec ≡ 50)
        × ((set_target_bytes_per_sec 50 over).observed_bytes_per_sec ≡ 0)
        × (((admits (7 * 2 ^ 32) 5 (set_target_bytes_per_sec 50 over)).1 ≡ true)
            ↔ (7 * 2 ^ 32 / 2 ^ 32 % write_budget_scale < 10_000))
        × ((record_written 30 5 (set_target_bytes_per_sec 50 over)).bytes_this_window
            ≡ min 30 u64_max)
        × ((record_written 30 5 (set_target_bytes_per_sec 50 over)).window_started ≡ some 5))
retarget_keeps_share_example = retarget_keeps_share 50 (7 * 2 ^ 32) 30 5 over (omega arith) refl

abbrev seconds : List ℕ
seconds =
    1_000_000_000 ∷ 2_000_000_000 ∷ 3_000_000_000 ∷ 4_000_000_000 ∷ 5_000_000_000 ∷ 6_000_000_000
    ∷ 7_000_000_000 ∷ 8_000_000_000 ∷ 9_000_000_000 ∷ 10_000_000_000 ∷ 11_000_000_000
    ∷ 12_000_000_000 ∷ 13_000_000_000 ∷ 14_000_000_000 ∷ []

seconds-Spaced : Spaced 0 seconds
seconds-Spaced = ground arith

quiet_windows_reopen_example : (roll_all seconds closed).admitted_share ≡ write_budget_scale
quiet_windows_reopen_example =
    quiet_windows_reopen seconds 0 closed (omega arith, omega arith) refl refl seconds-Spaced refl
