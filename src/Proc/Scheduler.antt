-- ===== src/Proc/Scheduler.antt =====
-- kernel/proc/scheduler.c: the process table, the choice of the next process, and the life of a
-- process. The static variables are the record `Scheduler`, in the state that scheduler_init and
-- everything after it leaves. Interrupts are off in each function, so each is one step.
--
-- A call of context_switch returns only when the caller is scheduled again. The functions return the
-- state at the switch, with the next process current; what the C code does after the switch is done
-- when the process runs again. `none` is a panic.
pub mod Step
pub mod Files
pub mod Descriptors
pub mod Table
pub mod Invariant
pub mod Yield
pub mod Fairness
pub mod Sweep
pub mod Sleep
pub mod Exit
pub mod Wait
pub mod Tick
pub mod Pid
pub mod Away
pub mod Others
pub mod Passage
pub mod SleepCall
mod Tests
use mini_orange_os.Prelude.{
  ltb, ◌==◌, if◌then◌else◌, get_or, set, replicate, add32, sub32, ℕ, zero, suc, ◌+◌, ◌-◌, ◌%◌, ◌^◌,
  Bool, true, false, ◌&&◌, ◌||◌, not, Option, none, some, List, [], ◌∷◌,
}
use mini_orange_os.Prelude.Int.{ℤ, pos, to_u32, is_minus_one}
use mini_orange_os.Prelude.Search.{find_from}
use mini_orange_os.Proc.Process.{
  Process, cleared, process_limit, null_process, pid_maximum, running, ProcessState,
  set_process_name, is_blocked, is_ready, is_unused, is_reaped, ready, default_time_slice,
  is_zombie,
}

pub record Scheduler : Type 0 where
  pub process_table : List Process
  pub current : ℕ
  pub next_pid : ℕ

-- What the scheduler calls of the heap, the address spaces, the GDT and the VFS, with their state.
pub record Kernel : Type 1 where
  pub State : Type 0
  pub kmalloc : ℕ → State → ℕ × State
  pub kfree : ℕ → State → Bool × State
  pub activate_address_space : ℕ → State → Bool × State
  pub destroy_address_space : ℕ → State → Bool × State
  pub gdt_set_kernel_stack : ℕ → State → State
  pub vfs_close_all_current : Scheduler → State → Scheduler × State

abbrev pub process_at : Scheduler → ℕ → Process
process_at s i = get_or s.process_table i cleared

abbrev pub put : ℕ → Process → Scheduler → Scheduler
put i p s = record s { process_table = set s.process_table i p }

abbrev pub state_at : Scheduler → ℕ → ProcessState
state_at s i = (process_at s i).state

abbrev pub set_state : ℕ → ProcessState → Scheduler → Scheduler
set_state i state s = put i (record (process_at s i) { state = state }) s

-- scheduler_init, with the boot stack and the flags that it reads.
pub init : ℕ → ℕ → Scheduler
init boot_stack_top eflags = record {
  process_table =
      record (set_process_name (b'b' ∷ b'o' ∷ b'o' ∷ b't' ∷ []) cleared) {
        state = running;
        kernel_stack_top = boot_stack_top;
        time_slice = default_time_slice;
        initial_eflags = eflags;
      }
      ∷ replicate (process_limit - 1) cleared;
  current = 0;
  next_pid = 1;
}

pub find_unused_process : Scheduler → Option ℕ
find_unused_process s = find_from (λ i. is_unused (state_at s i)) (process_limit - 1) 1

pub find_process_by_pid : ℕ → Scheduler → Option ℕ
find_process_by_pid pid s =
    find_from (λ i. not (is_unused (state_at s i)) && (process_at s i).pid == pid) process_limit 0

-- A candidate that no process has.
abbrev pub pid_unused : Scheduler → ℕ → Bool
pid_unused s candidate = elim (find_process_by_pid candidate s) [ none ↦ true | some i ↦ false ]

pub allocate_pid : Scheduler → Option (ℕ × Scheduler)
allocate_pid s =
    if not (s.next_pid == 0)
    then some (
      s.next_pid,
      record s { next_pid = if s.next_pid == pid_maximum then 0 else add32 s.next_pid 1 },
    )
    else elim (find_from (pid_unused s) pid_maximum 1) [
      | none ↦ none
      | some candidate ↦ some (candidate, s)
    ]

-- The test of round `offset` in find_next_ready.
abbrev pub ready_at : Scheduler → ℕ → ℕ → Bool
ready_at s start offset = is_ready (state_at s ((start + offset) % process_limit))

pub find_next_ready : ℕ → Scheduler → Option ℕ
find_next_ready after s = elim (find_from (ready_at s after) process_limit 1) [
  | none ↦ none
  | some offset ↦ some ((after + offset) % process_limit)
]

-- One round of wake_waiting_parent.
pub wake_parent : ℕ → ℕ → Scheduler → Scheduler
wake_parent child i s =
    let parent = process_at s i in
    if is_blocked parent.state
      && parent.pid == (process_at s child).parent_pid
      && (parent.wait_node == child || parent.wait_node == i)
    then put i (record parent { wait_node = null_process; state = ready }) s
    else s

pub wake_parents : ℕ → ℕ → ℕ → Scheduler → Scheduler
wake_parents child zero i s = s
wake_parents child (suc rounds) i s = wake_parents child rounds (i + 1) (wake_parent child i s)

pub wake_waiting_parent : ℕ → Scheduler → Scheduler
wake_waiting_parent child s = wake_parents child process_limit 0 s

-- (int32_t)(now - wake_tick) >= 0
abbrev pub tick_reached : ℕ → ℕ → Bool
tick_reached now wake_tick = ltb (sub32 now wake_tick) (2 ^ 31)

-- One round of the first loop of scheduler_on_tick.
pub wake_sleeper : ℕ → ℕ → Scheduler → Scheduler
wake_sleeper now i s =
    let p = process_at s i in
    if is_blocked p.state && p.wait_node == null_process && tick_reached now p.wake_tick
    then put i (record p { wake_tick = 0; state = ready }) s
    else s

pub wake_sleepers : ℕ → ℕ → ℕ → Scheduler → Scheduler
wake_sleepers now zero i s = s
wake_sleepers now (suc rounds) i s = wake_sleepers now rounds (i + 1) (wake_sleeper now i s)

-- What switch_to writes.
pub switched : ℕ → Scheduler → Scheduler
switched next s =
    record (put next
      (record (process_at s next) { state = running; time_slice = default_time_slice }) s) {
        current = next;
      }

-- The slots that find_child passes over are those that fail this test.
abbrev pub is_child : ℕ → ℤ → Bool → Scheduler → ℕ → Bool
is_child parent requested zombie_only s i =
    let child = process_at s i in
    not (
      is_unused child.state
      || is_reaped child.state
      || not (child.parent_pid == (process_at s parent).pid)
      || (not (is_minus_one requested) && not (child.pid == to_u32 requested))
      || (zombie_only && not (is_zombie child.state)))

pub find_child : ℕ → ℤ → Bool → Scheduler → Option ℕ
find_child parent requested zombie_only s =
    find_from (is_child parent requested zombie_only s) (process_limit - 1) 1
