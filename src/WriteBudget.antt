-- ===== src/WriteBudget.antt =====
-- src/core/write_budget.rs, `SsdWriteBudget`: admission of SSD writes under a byte rate. An `Instant`
-- is a number of nanoseconds on the monotonic clock, and a `u64` a number below 2 ^ 64.
pub mod Share
pub mod Laws
pub mod Recovery
use matrixcache.Base.{
  ℕ, ◌-◌, ◌*◌, ◌/◌, ◌%◌, ◌^◌, min, max, Bool, true, false, ◌&&◌, not, Option, none, some, ltb, leb,
  ◌==◌, if◌then◌else◌, u64_max, saturating_add, saturating_mul,
}

abbrev pub write_budget_scale : ℕ
write_budget_scale = 10_000

-- One second, in nanoseconds.
abbrev pub write_budget_window : ℕ
write_budget_window = 1_000_000_000

abbrev pub write_budget_max_step_up : ℕ
write_budget_max_step_up = 2

pub record SsdWriteBudget : Type 0 where
  pub admission_disabled : Bool
  pub target_bytes_per_sec : ℕ
  pub admitted_share : ℕ
  pub bytes_this_window : ℕ
  pub window_started : Option ℕ
  pub observed_bytes_per_sec : ℕ

unfoldable pub with_target : ℕ → SsdWriteBudget
with_target bytes_per_sec = record {
  admission_disabled = false;
  target_bytes_per_sec = bytes_per_sec;
  admitted_share = write_budget_scale;
  bytes_this_window = 0;
  window_started = none;
  observed_bytes_per_sec = 0;
}

-- A budget that admits everything.
unfoldable pub unlimited : SsdWriteBudget
unlimited = record {
  admission_disabled = false;
  target_bytes_per_sec = 0;
  admitted_share = write_budget_scale;
  bytes_this_window = 0;
  window_started = none;
  observed_bytes_per_sec = 0;
}

unfoldable pub set_target_bytes_per_sec : ℕ → SsdWriteBudget → SsdWriteBudget
set_target_bytes_per_sec bytes_per_sec b =
    if (bytes_per_sec == b.target_bytes_per_sec) && not b.admission_disabled then b else record {
      admission_disabled = false;
      target_bytes_per_sec = bytes_per_sec;
      admitted_share =
          if bytes_per_sec == 0
          then write_budget_scale
          else (if b.admission_disabled then write_budget_scale else b.admitted_share);
      bytes_this_window = 0;
      window_started = none;
      observed_bytes_per_sec = 0;
    }

unfoldable pub disable_admission : SsdWriteBudget → SsdWriteBudget
unfolding set_target_bytes_per_sec
disable_admission b = record (set_target_bytes_per_sec 0 b) {
  admission_disabled = true;
  admitted_share = 0;
}

-- The bytes that the target allows over a window of `millis`; a product of `u128`s, which cannot
-- overflow.
unfoldable pub allowed_bytes : ℕ → ℕ → ℕ
allowed_bytes target millis = target * millis / 1_000

-- `clamp(1, WRITE_BUDGET_SCALE)`
abbrev clamp_share : ℕ → ℕ
clamp_share s = if ltb s 1 then 1 else if ltb write_budget_scale s then write_budget_scale else s

-- The share after a window that saw `bytes` of the `allowed` ones.
unfoldable pub next_share : ℕ → ℕ → ℕ → ℕ
next_share share bytes allowed =
    if leb bytes allowed
    then clamp_share (saturating_mul share write_budget_max_step_up)
    else (max (share * allowed / bytes) 1 % 2 ^ 64)

-- The rate of a closed window.
unfoldable pub observed_rate : ℕ → ℕ → ℕ
observed_rate bytes millis = if millis == 0 then 0 else min (bytes * 1_000 / millis) u64_max

-- `now.saturating_duration_since(started)` in whole milliseconds, capped at a `u64`.
abbrev pub elapsed_millis : ℕ → ℕ → ℕ
elapsed_millis started now = min ((now - started) / 1_000_000) u64_max

-- `roll_window` past its early returns: the window that began at `started` is over.
unfoldable pub close_window : ℕ → ℕ → SsdWriteBudget → SsdWriteBudget
close_window started now b =
    let millis = elapsed_millis started now in
    let allowed = allowed_bytes b.target_bytes_per_sec millis in
    record b {
      admitted_share = next_share b.admitted_share b.bytes_this_window allowed;
      observed_bytes_per_sec = observed_rate b.bytes_this_window millis;
      bytes_this_window = 0;
      window_started = some now;
    }

-- The early returns of `roll_window`, by `window_started`.
unfoldable pub roll_from : Option ℕ → ℕ → SsdWriteBudget → SsdWriteBudget
roll_from none now b = record b { window_started = some now }
roll_from (some started) now b =
    if ltb (now - started) write_budget_window then b else close_window started now b

unfoldable pub roll_window : ℕ → SsdWriteBudget → SsdWriteBudget
unfolding roll_from
roll_window now b = roll_from b.window_started now b

-- The key's test against the admitted share, on the top bits of its hash.
unfoldable pub share_admits : ℕ → ℕ → Bool
share_admits key_hash share = ltb (key_hash / 2 ^ 32 % write_budget_scale) share

unfoldable pub admits : ℕ → ℕ → SsdWriteBudget → SsdWriteBudget × Bool
admits key_hash now b =
    if b.admission_disabled
    then (b, false)
    else (if b.target_bytes_per_sec == 0
        then (b, true)
        else (let b' = roll_window now b in
            if leb write_budget_scale b'.admitted_share
            then (b', true)
            else (b', share_admits key_hash b'.admitted_share)))

unfoldable pub record_written : ℕ → ℕ → SsdWriteBudget → SsdWriteBudget
record_written bytes now b =
    if b.target_bytes_per_sec == 0
    then b
    else (let b' = roll_window now b in
        record b' { bytes_this_window = saturating_add b'.bytes_this_window bytes })
