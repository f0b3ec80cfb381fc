-- ===== src/Proc/Scheduler/Tests.antt =====
-- kernel/proc/scheduler.c on small process tables.
use mini_orange_os.Proc.Scheduler.Pid.{IsOrdered, IsFresh, allocate_pid-IsFresh}
use mini_orange_os.Proc.Scheduler.Tick.{Ticked, woken_by, on_tick-Ticked}
use mini_orange_os.Proc.Scheduler.Passage.{Passes, no_step, tick_step, yield_step}
use mini_orange_os.Proc.Scheduler.Wait.{Awaited, Ended, waitpid-Collected}
use mini_orange_os.Proc.Scheduler.Exit.{Exited, exit_current-Exited}
use mini_orange_os.Proc.Scheduler.Descriptors.{fd_remove-install, HasFiles}
use mini_orange_os.Proc.Scheduler.Fairness.{yields-fair}
use mini_orange_os.Prelude.Int.{pos}
use mini_orange_os.Prelude.Search.{find_from}
use mini_orange_os.Proc.Scheduler.Yield.{yield_current-Inv, yields}
use mini_orange_os.Proc.Scheduler.Files.{fd_install, put_fd, fd_table, fd_get, fd_remove}
use mini_orange_os.Proc.Scheduler.Step.{
  sleep_current, yield_current, World, switch_to, exit_current, waitpid, on_tick, tick_current,
}
use mini_orange_os.Proc.Scheduler.SleepCall.{sleep_current-Inv, sleep_current-wakes, asleep}
use mini_orange_os.Prelude.{
  ◌==◌, holds_below, holds_below_at, get_or, replicate, add32, ℕ, ◌+◌, ◌-◌, ◌≤◌, ◌<◌, ◌≡◌, refl, ap,
  ◌≢◌, true, ◌||◌, not, some, ◌∷◌, arith,
}
use mini_orange_os.Proc.Scheduler.{
  Scheduler, Kernel, state_at, wake_sleepers, find_next_ready, switched, set_state, is_child,
  wake_sleeper, allocate_pid, put, process_at,
}
use mini_orange_os.Proc.Process.{
  Process, ProcessState, cleared, is_running, running, ready, blocked, zombie,
}
use mini_orange_os.Proc.Scheduler.Invariant.{Inv}

-- Memory, address spaces and files that always serve, counting the calls.
abbrev calm : Kernel
calm = record {
  State = ℕ;
  kmalloc = λ size k. (4096, k + 1);
  kfree = λ address k. (true, k + 1);
  activate_address_space = λ directory k. (true, k + 1);
  destroy_address_space = λ directory k. (true, k + 1);
  gdt_set_kernel_stack = λ top k. k + 1;
  vfs_close_all_current = λ s k. (s, k);
}

abbrev with_state : ProcessState → ℕ → Process
with_state state pid = record cleared { state = state; pid = pid }

-- Slot 0 is ready, slot 1 runs, slots 3 and 5 are ready.
abbrev three_ready : Scheduler
three_ready = record {
  process_table =
      with_state ready 0
      ∷ with_state running 1
      ∷ cleared
      ∷ with_state ready 3
      ∷ cleared
      ∷ with_state ready 5
      ∷ replicate 10 cleared;
  current = 1;
  next_pid = 6;
}

alone_table : holds_below 16 (λ i. not (is_running (state_at three_ready i)) || (i == 1)) ≡ true
unfolding holds_below cleared
alone_table = refl

three_ready-Inv : Inv three_ready
unfolding cleared
three_ready-Inv = record {
  size = refl;
  current_in = omega arith;
  runs = refl;
  alone = λ i hi r. ground (
    arith,
    holds_below_at 16 (λ i. not (is_running (state_at three_ready i)) || (i == 1)) i alone_table hi,
    ap is_running r,
  );
}

-- The state after the yield: slot 3 runs.
abbrev yielded : World calm
yielded = (switched 3 (set_state 1 ready three_ready), 2)

yielded_lem : yield_current calm (three_ready, 0) ≡ some yielded
unfolding yield_current find_next_ready find_from switch_to switched cleared
yielded_lem = refl

yield_current-Inv_example : Inv yielded.0
yield_current-Inv_example = yield_current-Inv calm three_ready 0 yielded three_ready-Inv yielded_lem

yields-fair_example :
    (n : ℕ) × (n ≤ 15)
    × (w : World calm) × (yields calm n (three_ready, 0) ≡ some w)
    × (w.0.current ≡ 5)
yields-fair_example =
    yields-fair calm (λ directory k. refl) three_ready 0 5 three_ready-Inv (omega arith) refl

-- Slot 1 sleeps for 3 ticks from tick 100 on.
abbrev slept : World calm
slept = (switched 3 (asleep 3 100 three_ready), 2)

slept_lem : sleep_current calm 3 100 (three_ready, 0) ≡ some (true, slept)
unfolding sleep_current find_next_ready find_from switch_to switched cleared
slept_lem = refl

sleep_current-Inv_example : Inv slept.0
sleep_current-Inv_example =
    sleep_current-Inv calm 3 100 three_ready 0 slept three_ready-Inv (omega arith) slept_lem

-- What a tick does to the process in slot `i`, which runs.
abbrev counted : ℕ → Scheduler → Scheduler
counted i s = put i (record (process_at s i) { time_slice = (process_at s i).time_slice - 1 }) s

-- A tick, a yield of the process in slot 3 to the one in slot 5, and a tick.
abbrev tick_1 : World calm
tick_1 = (counted 3 slept.0, 2)

abbrev handed_on : World calm
handed_on = (switched 5 (set_state 3 ready tick_1.0), 4)

abbrev tick_2 : World calm
tick_2 = (counted 5 handed_on.0, 4)

tick_1_lem : on_tick calm 101 slept ≡ some tick_1
unfolding on_tick tick_current wake_sleepers wake_sleeper switched cleared
tick_1_lem = refl

handed_on_lem : yield_current calm tick_1 ≡ some handed_on
unfolding yield_current find_next_ready find_from switch_to switched cleared
handed_on_lem = refl

tick_2_lem : on_tick calm 102 handed_on ≡ some tick_2
unfolding on_tick tick_current wake_sleepers wake_sleeper switched cleared
tick_2_lem = refl

two_ticks : Passes calm 1 100 slept 2 tick_2
two_ticks = tick_step (yield_step (tick_step no_step tick_1_lem) handed_on_lem) tick_2_lem

sleep_current-wakes_example :
    (state_at tick_2.0 1 ≡ blocked)
    × (state_at (wake_sleepers (add32 100 3) 15 1 tick_2.0) 1 ≡ ready)
sleep_current-wakes_example =
    sleep_current-wakes calm 3 100 2 three_ready 0 slept tick_2 three_ready-Inv (omega arith)
      (omega arith) (omega arith) slept_lem two_ticks (omega arith)

-- The first free descriptor of the running process.
abbrev installed : Scheduler
installed = put_fd 3 8192 three_ready

installed_lem : fd_install 8192 three_ready ≡ (pos 3, installed)
unfolding fd_install find_from cleared
installed_lem = refl

three_ready-HasFiles : HasFiles three_ready
unfolding cleared
three_ready-HasFiles = record { size = refl; current_in = omega arith; descriptors = refl }

fd_remove-install_example :
    (3 ≤ 3)
    × (3 < 16)
    × ((j : ℕ) → 3 ≤ j → j < 3 → get_or (fd_table three_ready) j 0 ≢ 0)
    × (fd_get (pos 3) installed ≡ 8192)
    × (fd_remove (pos 3) installed ≡ (8192, three_ready))
fd_remove-install_example =
    fd_remove-install 8192 3 three_ready installed three_ready-HasFiles installed_lem

-- The boot process waits for the process in slot 1, which runs.
abbrev parent_waits : Scheduler
parent_waits = record {
  process_table =
      record (with_state blocked 0) { wait_node = 1 }
      ∷ record (with_state running 1) { kernel_stack_allocation = 8192 }
      ∷ replicate 14 cleared;
  current = 1;
  next_pid = 2;
}

parent_waits_table :
    holds_below 16 (λ i. not (is_running (state_at parent_waits i)) || (i == 1)) ≡ true
unfolding holds_below cleared
parent_waits_table = refl

parent_waits-Inv : Inv parent_waits
unfolding cleared
parent_waits-Inv = record {
  size = refl;
  current_in = omega arith;
  runs = refl;
  alone = λ i hi r. ground (
    arith,
    holds_below_at 16 (λ i. not (is_running (state_at parent_waits i)) || (i == 1)) i
        parent_waits_table hi,
    ap is_running r,
  );
}

exit_current-Exited_example :
    (w : World calm) × (exit_current calm (pos 7) (parent_waits, 0) ≡ some w)
    × Exited calm (pos 7) parent_waits 0 0 (replicate 16 0) 0 w
unfolding cleared
exit_current-Exited_example =
    exit_current-Exited calm (pos 7) parent_waits 0 0 (replicate 16 0) 0 (λ directory k. refl)
      parent_waits-Inv refl (omega arith) (λ e. omega (arith, e)) refl

-- The child in slot 1 has ended with the code 7, and its parent runs.
abbrev child_ended : Scheduler
child_ended = record {
  process_table =
      with_state running 0
      ∷ record (with_state zombie 1) {
        kernel_stack_allocation = 8192;
        page_directory = 12288;
        exit_code = pos 7;
      }
      ∷ replicate 14 cleared;
  current = 0;
  next_pid = 2;
}

child_ended_table :
    holds_below 16 (λ i. not (is_running (state_at child_ended i)) || (i == 0)) ≡ true
unfolding holds_below cleared
child_ended_table = refl

child_ended-Inv : Inv child_ended
unfolding cleared
child_ended-Inv = record {
  size = refl;
  current_in = omega arith;
  runs = refl;
  alone = λ i hi r. ground (
    arith,
    holds_below_at 16 (λ i. not (is_running (state_at child_ended i)) || (i == 0)) i
        child_ended_table hi,
    ap is_running r,
  );
}

awaited_table : holds_below 16 (λ j. not (is_child 0 (pos 1) true child_ended j) || (j == 1)) ≡ true
unfolding holds_below cleared
awaited_table = refl

child_ended-Awaited : Awaited calm child_ended 1
unfolding cleared
child_ended-Awaited = (
  refl,
  λ j hj child. ground (
    arith,
    holds_below_at 16 (λ j. not (is_child 0 (pos 1) true child_ended j) || (j == 1)) j awaited_table
        hj,
    child,
  ),
)

waitpid-Collected_example : Ended calm child_ended 0 1 (waitpid calm (pos 1) (child_ended, 0))
unfolding cleared
waitpid-Collected_example =
    waitpid-Collected calm child_ended 0 1 child_ended-Inv (omega arith) (omega arith)
      (λ e. omega (arith, e)) refl (λ e. omega (arith, e)) (λ e. omega (arith, e))
      child_ended-Awaited

on_tick-Ticked_example :
    (w : World calm) × (on_tick calm 100 (three_ready, 0) ≡ some w)
    × Ticked calm (woken_by 100 three_ready) w
unfolding cleared wake_sleepers wake_sleeper
on_tick-Ticked_example =
    on_tick-Ticked calm 100 three_ready 0 5 (λ directory k. refl) three_ready-Inv (omega arith)
      still_ready_5
  where
    still_ready_5 : state_at (woken_by 100 three_ready) 5 ≡ ready
    still_ready_5 = refl

-- Identifiers have run out: the search begins, and 1 and 3 are taken.
abbrev exhausted : Scheduler
exhausted = record three_ready { next_pid = 0 }

exhausted-IsOrdered : IsOrdered exhausted
exhausted-IsOrdered = record {
  size = refl;
  next_bound = omega arith;
  smaller = λ nonzero. absurd (nonzero refl);
}

allocate_pid-IsFresh_example :
    (pid : ℕ) × (s' : Scheduler) × (allocate_pid exhausted ≡ some (pid, s')) × IsFresh exhausted pid
allocate_pid-IsFresh_example = allocate_pid-IsFresh exhausted exhausted-IsOrdered
