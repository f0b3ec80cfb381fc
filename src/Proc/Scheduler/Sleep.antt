-- ===== src/Proc/Scheduler/Sleep.antt =====
-- Sleeping: the timer makes exactly the sleepers ready whose time has come, also where the 32-bit tick
-- counter wraps.
use mini_orange_os.Proc.Scheduler.Sweep.{sweep, sweep_lem}
use mini_orange_os.Prelude.{
  ltb, leb, ◌==◌, if◌then◌else◌, length, add32, ℕ, zero, suc, ◌+◌, ◌^◌, ◌≤◌, ◌<◌, ◌≡◌, refl, ap,
  ◌∙◌, Bool, ◌&&◌, arith,
}
use mini_orange_os.Proc.Process.{Process, is_blocked, null_process, ready, sleep_maximum_ticks}
use mini_orange_os.Proc.Scheduler.{Scheduler, process_at, tick_reached, wake_sleeper, wake_sleepers}

-- The process sleeps, and the tick `now` is not before its `wake_tick`.
abbrev pub due : ℕ → Process → Bool
due now p = is_blocked p.state && p.wait_node == null_process && tick_reached now p.wake_tick

abbrev pub woken : Process → Process
woken p = record p { wake_tick = 0; state = ready }

pub wake_sleepers-sweep :
    (now n i : ℕ) (s : Scheduler) → wake_sleepers now n i s ≡ sweep (λ j. due now) woken n i s
unfolding wake_sleepers wake_sleeper sweep
wake_sleepers-sweep now zero i s = refl
wake_sleepers-sweep now (suc n) i s = wake_sleepers-sweep now n (i + 1) (wake_sleeper now i s)

-- The wake-up loop over a range of slots of the table wakes each slot of its range that is due and
-- leaves every other slot as it was.
pub wake_sleepers_lem :
    (now n i : ℕ) (s : Scheduler) (j : ℕ)
    → i + n ≤ length s.process_table
    → process_at (wake_sleepers now n i s) j ≡ (
        if leb i j && ltb j (i + n) && due now (process_at s j)
        then woken (process_at s j)
        else process_at s j)
wake_sleepers_lem now n i s j h =
    ap (λ x. process_at x j) (wake_sleepers-sweep now n i s)
    ∙ sweep_lem (λ j. due now) woken n i s j h

-- A sleep of `n` ticks, at most SLEEP_MAXIMUM_TICKS, from the 32-bit tick `t` on is over at the tick
-- `t + d` (mod 2^32) exactly when `d` has reached `n`, for any `d` below 2^31 beyond the end of the
-- sleep.
pub tick_reached-add :
    (t n d : ℕ)
    → t < 2 ^ 32
    → n ≤ sleep_maximum_ticks
    → d < n + 2 ^ 31
    → tick_reached (add32 t d) (add32 t n) ≡ leb n d
tick_reached-add t n d ht hn hd = ground arith
