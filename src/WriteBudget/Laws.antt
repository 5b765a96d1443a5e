-- ===== src/WriteBudget/Laws.antt =====
-- src/core/write_budget.rs: the operations of `SsdWriteBudget` together, in any order.
use matrixcache.Base.{
  ◌==◌, none, ℕ, ◌/◌, ◌%◌, ◌^◌, ◌≤◌, ◌<◌, ◌≡◌, refl, ◌↔◌, ◌⊎◌, inl, inr, Bool, true, false, Option,
  none, some, List, [], ◌∷◌, ltb, ◌-◌, arith, Bool-cases, u64_max, min, some,
}
use matrixcache.WriteBudget.{
  SsdWriteBudget, write_budget_scale, write_budget_window, with_target, set_target_bytes_per_sec,
  disable_admission, allowed_bytes, elapsed_millis, observed_rate, close_window, roll_from,
  roll_window, share_admits, admits, record_written,
}
use matrixcache.WriteBudget.Share.{InRange, next_share-InRange}

-- A call of the public interface that changes the state.
pub data Call : Type 0 where
  set_target : ℕ → Call
  disable : Call
  admit : ℕ → ℕ → Call
  written : ℕ → ℕ → Call

unfoldable pub apply : Call → SsdWriteBudget → SsdWriteBudget
apply (set_target rate) b = set_target_bytes_per_sec rate b
apply disable b = disable_admission b
apply (admit key_hash now) b = (admits key_hash now b).0
apply (written bytes now) b = record_written bytes now b

unfoldable pub run : List Call → SsdWriteBudget → SsdWriteBudget
unfolding apply
run [] b = b
run (c ∷ cs) b = run cs (apply c b)

-- A budget admits nothing only if it was disabled; else its share is in range, and an unlimited
-- budget's is whole.
abbrev pub ShareState : Bool → ℕ → ℕ → Type 0
ShareState disabled target share =
    ((disabled ≡ false) × InRange share × ((0 < target) ⊎ (share ≡ write_budget_scale)))
    ⊎ ((disabled ≡ true) × (target ≡ 0) × (share ≡ 0))

pub record IsValid (b : SsdWriteBudget) : Type 0 where
  pub share : ShareState b.admission_disabled b.target_bytes_per_sec b.admitted_share
  pub bytes : b.bytes_this_window ≤ u64_max
  pub observed : b.observed_bytes_per_sec ≤ u64_max

close_window-IsValid :
    (started now : ℕ) {b : SsdWriteBudget}
    → 0 < b.target_bytes_per_sec
    → IsValid b
    → IsValid (close_window started now b)
unfolding close_window observed_rate
close_window-IsValid started now {b} limited v = ground (
  arith,
  next_share-InRange b.admitted_share b.bytes_this_window
      (allowed_bytes b.target_bytes_per_sec (elapsed_millis started now)),
)

target-close_window :
    (started now : ℕ) (b : SsdWriteBudget)
    → (close_window started now b).target_bytes_per_sec ≡ b.target_bytes_per_sec
unfolding close_window
target-close_window started now b = refl

roll_from-IsValid :
    (o : Option ℕ) (now : ℕ) {b : SsdWriteBudget}
    → 0 < b.target_bytes_per_sec
    → IsValid b
    → IsValid (roll_from o now b)
unfolding roll_from
roll_from-IsValid none now limited v = ground arith
roll_from-IsValid (some started) now {b} limited v =
    elim (Bool-cases (ltb (now - started) write_budget_window)) [
      | inl e ↦ rw e v
      | inr e ↦ rw e (close_window-IsValid started now limited v)
    ]

roll_window-IsValid :
    (now : ℕ) {b : SsdWriteBudget}
    → 0 < b.target_bytes_per_sec
    → IsValid b
    → IsValid (roll_window now b)
unfolding roll_window
roll_window-IsValid now {b} limited v = roll_from-IsValid b.window_started now limited v

apply-IsValid : (c : Call) {b : SsdWriteBudget} → IsValid b → IsValid (apply c b)
unfolding apply set_target_bytes_per_sec disable_admission admits record_written
apply-IsValid (set_target rate) v = ground arith
apply-IsValid disable v = ground arith
apply-IsValid (admit key_hash now) {b} v = ground (arith, roll_window-IsValid now {b = b})
apply-IsValid (written bytes now) {b} v = ground (arith, roll_window-IsValid now {b = b})

run_from-IsValid : (calls : List Call) {b : SsdWriteBudget} → IsValid b → IsValid (run calls b)
unfolding run
run_from-IsValid [] v = v
run_from-IsValid (c ∷ calls) v = run_from-IsValid calls (apply-IsValid c v)

-- Whatever calls are made on a new budget, its share stays between one step and the whole unless
-- admission is disabled, when it is zero; it is the whole while admission is on and there is no
-- target; and the count of the window and the observed rate stay 64-bit numbers.
pub run-IsValid : (calls : List Call) (rate : ℕ) → IsValid (run calls (with_target rate))
unfolding with_target
run-IsValid calls rate = run_from-IsValid calls (ground arith)

-- A write goes ahead exactly if admission is on, and either there is no target or the key's top bits
-- fall within the share as the window leaves it: the early answer for a whole share agrees with the
-- test.
pub admits_iff :
    (key_hash now : ℕ) (b : SsdWriteBudget)
    → ((admits key_hash now b).1 ≡ true) ↔ (
        (b.admission_disabled ≡ false)
        × ((b.target_bytes_per_sec ≡ 0)
            ⊎ (key_hash / 2 ^ 32 % write_budget_scale < (roll_window now b).admitted_share)))
unfolding admits share_admits
admits_iff key_hash now b = ground arith

-- While admission is on, setting the target in force changes nothing. Setting another one above zero
-- keeps which keys are admitted, those below the admitted share, and starts a new measurement: the
-- observed rate is zero, and the next write is the first of a window that begins with it.
pub retarget_keeps_share :
    (rate key_hash bytes now : ℕ) (b : SsdWriteBudget)
    → 0 < rate
    → b.admission_disabled ≡ false
    → let b' = set_target_bytes_per_sec rate b in
      let written = record_written bytes now b' in
      ((rate ≡ b.target_bytes_per_sec) × (b' ≡ b))
      ⊎ ((¬ (rate ≡ b.target_bytes_per_sec))
          × (b'.target_bytes_per_sec ≡ rate)
          × (b'.observed_bytes_per_sec ≡ 0)
          × (((admits key_hash now b').1 ≡ true)
              ↔ (key_hash / 2 ^ 32 % write_budget_scale < b.admitted_share))
          × (written.bytes_this_window ≡ min bytes u64_max)
          × (written.window_started ≡ some now))
unfolding set_target_bytes_per_sec record_written admits share_admits roll_window roll_from
retarget_keeps_share rate key_hash bytes now b limited on =
    elim (Bool-cases (rate == b.target_bytes_per_sec)) [
      | inl e ↦ inl (ground (arith, e), rw (e, on) refl)
      | inr e ↦ inr (ground (arith, e, on, limited))
    ]
