-- ===== src/Proc/Scheduler/Passage.antt =====
-- kernel/proc/scheduler.c while one process sleeps: steps of others, and the timer, which fires once for
-- each tick of the counter (kernel/arch/x86/irq.c).
use mini_orange_os.Proc.Scheduler.Sleep.{due, tick_reached-add}
use mini_orange_os.Proc.Scheduler.Away.{Away, sleeping}
use mini_orange_os.Prelude.Int.{ℤ}
use mini_orange_os.Proc.Scheduler.Step.{World, on_tick, yield_current, sleep_current, exit_closed}
use mini_orange_os.Proc.Process.{process_limit, Process, sleep_maximum_ticks}
use mini_orange_os.Proc.Scheduler.Others.{
  Stays, Stays-on_tick, Stays-yield_current, sleep_current-Away, Stays-exit_closed,
}
use mini_orange_os.Proc.Scheduler.{Kernel, Scheduler, process_at}
use mini_orange_os.Prelude.{
  length, add32, ℕ, suc, ◌^◌, ◌≤◌, ◌<◌, ◌≡◌, refl, ◌∙◌, ◌≢◌, Bool, false, some, arith,
}

-- Any other step: it leaves the process in slot `i` and the size of the table alone, and the current
-- process is another one.
pub record LeavesAlone (i : ℕ) (s s' : Scheduler) : Type 0 where
  pub same_size : length s'.process_table ≡ length s.process_table
  pub same_slot : process_at s' i ≡ process_at s i
  pub in_table : s'.current < process_limit
  pub other_current : s'.current ≢ i

module _ (K : Kernel) where
  -- `Passes i t w d w'`: from `w` at the tick `t` on, the kernel comes to `w'` with `d` ticks of the timer,
  -- each of which calls scheduler_on_tick, and any calls between them that other processes make of
  -- scheduler_yield, scheduler_sleep_current and scheduler_exit_current (past vfs_close_all_current), or
  -- other steps that leave slot `i` alone.
  pub data Passes (i t : ℕ) (w : World K) : ℕ → World K → Type 0 where
    no_step : Passes i t w 0 w
    tick_step :
        {d : ℕ} {w' w'' : World K}
        → Passes i t w d w'
        → on_tick K (add32 t (suc d)) w' ≡ some w''
        → Passes i t w (suc d) w''
    yield_step :
        {d : ℕ} {w' w'' : World K}
        → Passes i t w d w'
        → yield_current K w' ≡ some w''
        → Passes i t w d w''
    sleep_step :
        {d : ℕ} {w' w'' : World K} (ticks : ℕ) (result : Bool)
        → Passes i t w d w'
        → sleep_current K ticks (add32 t d) w' ≡ some (result, w'')
        → Passes i t w d w''
    exit_step :
        {d : ℕ} {w' w'' : World K} (code : ℤ)
        → Passes i t w d w'
        → exit_closed K code w' ≡ some w''
        → Passes i t w d w''
    other_step :
        {d : ℕ} {w' w'' : World K}
        → Passes i t w d w'
        → LeavesAlone i w'.0 w''.0
        → Passes i t w d w''

  -- A sleeper stays as it is until its time has come.
  pub Passes-Away :
      {i t : ℕ} {w : World K} {d : ℕ} {w' : World K} (n : ℕ) (p : Process)
      → t < 2 ^ 32
      → n ≤ sleep_maximum_ticks
      → Passes i t w d w'
      → d < n
      → i < process_limit
      → Away i (sleeping n t p) w.0
      → Away i (sleeping n t p) w'.0
  unfolding Stays
  Passes-Away n p ht le no_step hd hi a = a
  Passes-Away {i} {t} {w} n p ht le (tick_step {d} {w'} {w''} passes e) hd hi a =
      let ih = Passes-Away n p ht le passes (omega (arith, hd)) hi a in
      let early : due (add32 t (suc d)) (sleeping n t p) ≡ false =
        ground (arith, tick_reached-add t n (suc d) ht le (omega (arith, hd)), hd) in
      Stays-on_tick K i (add32 t (suc d)) (sleeping n t p) w'.0 w'.1 ih (λ x. cc x) early w'' e
  Passes-Away {i} {t} {w} n p ht le (yield_step {d} {w'} {w''} passes e) hd hi a =
      Stays-yield_current K i (sleeping n t p) w'.0 w'.1 (Passes-Away n p ht le passes hd hi a)
        (λ x. cc x) w'' e
  Passes-Away {i} {t} {w} n p ht le (sleep_step {d} {w'} {w''} ticks result passes e) hd hi a =
      sleep_current-Away K i (sleeping n t p) ticks (add32 t d) w'.0 w'.1 result w''
        (Passes-Away n p ht le passes hd hi a) (λ x. cc x) e
  Passes-Away {i} {t} {w} n p ht le (exit_step {d} {w'} {w''} code passes e) hd hi a =
      Stays-exit_closed K i (sleeping n t p) code w'.0 w'.1 hi
        (Passes-Away n p ht le passes hd hi a) (λ x. cc x) refl w'' e
  Passes-Away {i} {t} {w} n p ht le (other_step {d} {w'} {w''} passes alone) hd hi a =
      let ih = Passes-Away n p ht le passes hd hi a in
      record {
        size = alone.same_size ∙ ih.size;
        current_in = alone.in_table;
        elsewhere = alone.other_current;
        slot = alone.same_slot ∙ ih.slot;
      }
