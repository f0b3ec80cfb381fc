-- ===== src/Proc/Scheduler/Step.antt =====
-- kernel/proc/scheduler.c: the functions that give the processor to another process, and those that
-- create, end and reap processes.
use mini_orange_os.Prelude.{
  ltb, ◌==◌, if◌then◌else◌, get_or, set, add32, sub32, ℕ, zero, suc, ◌+◌, ◌-◌, bit_and, Bool, true,
  false, ◌||◌, not, Option, none, some, List,
}
use mini_orange_os.Prelude.Int.{ℤ, pos, negsuc, is_minus_one}
use mini_orange_os.Errno.{minus, einval, echild}
use mini_orange_os.Proc.Process.{
  Process, cleared, null_process, ready, zombie, blocked, running, kernel_stack_size,
  process_cwd_size, sleep_maximum_ticks, is_zombie, set_process_name, process_limit,
  default_time_slice, is_running,
}
use mini_orange_os.Proc.Scheduler.{
  Scheduler, Kernel, process_at, put, set_state, switched, wake_waiting_parent, find_next_ready,
  find_unused_process, find_child, wake_sleepers, allocate_pid,
}

-- The copying loop of inherit_current_working_directory; `none` is its panic.
unfoldable pub copy_cwd : ℕ → List ℕ → ℕ → List ℕ → Option (List ℕ)
copy_cwd zero source index array = none
copy_cwd (suc rounds) source index array =
    let copied = set array index (get_or source index 0) in
    let rest = copy_cwd rounds source (index + 1) copied in
    if get_or source index 0 == 0 then some copied else rest

unfoldable pub inherit_current_working_directory : Scheduler → Process → Option Process
inherit_current_working_directory s p =
    if s.current == null_process
    then some p
    else elim (copy_cwd process_cwd_size (process_at s s.current).cwd 0 p.cwd) [
      | none ↦ none
      | some cwd ↦ some (record p { cwd = cwd })
    ]

-- The fields that kernel_thread_create writes into the cleared slot. Six words are on the stack.
unfoldable pub prepare_thread : List ℕ → ℕ → ℕ → ℕ → ℕ → ℕ → ℕ → Process → Process
prepare_thread name entry argument flags allocation pid parent_pid p =
    let top = add32 allocation kernel_stack_size in
    record (set_process_name name p) {
      pid = pid;
      kernel_stack_allocation = allocation;
      kernel_stack_top = top;
      entry = entry;
      argument = argument;
      parent_pid = parent_pid;
      time_slice = default_time_slice;
      initial_eflags = bit_and flags 0x200;
      saved_stack = sub32 top 24;
      state = ready;
    }

-- pid == -1 or pid > 0
abbrev is_any_or_positive : ℤ → Bool
is_any_or_positive (pos n) = not (n == 0)
is_any_or_positive (negsuc n) = n == 0

-- How one round of the loop of scheduler_waitpid ends: it returns the result and what is stored
-- through `exit_code`, or the caller is blocked and starts the next round when it is resumed.
pub data Waited (A : Type 0) : Type 0 where
  returned : ℤ → Option ℤ → A → Waited A
  switched_away : A → Waited A
  panicked : Waited A

module _ (K : Kernel) where
  open K use {
    State, kmalloc, kfree, activate_address_space, destroy_address_space, gdt_set_kernel_stack,
    vfs_close_all_current,
  }

  -- The kernel at a point: the scheduler's variables and the state of what it calls.
  abbrev pub World : Type 0
  World = Scheduler × State

  unfoldable pub switch_to : ℕ → World → Option World
  switch_to next (s, k) =
      let (activated, k') = activate_address_space (process_at s next).page_directory k in
      if activated
      then some (switched next s, gdt_set_kernel_stack (process_at s next).kernel_stack_top k')
      else none

  unfoldable pub yield_current : World → Option World
  yield_current (s, k) =
      let waiting = set_state s.current ready s in
      let stay = some (set_state s.current running waiting, k) in
      elim (find_next_ready s.current waiting) [
        | none ↦ stay
        | some next ↦ if next == s.current then stay else switch_to next (waiting, k)
      ]

  -- The switch or the return that ends in `return true`.
  abbrev pub and_true : Option World → Option (Bool × World)
  and_true none = none
  and_true (some w) = some (true, w)

  -- scheduler_sleep_current; `now` is what pit_ticks() returns.
  unfoldable pub sleep_current : ℕ → ℕ → World → Option (Bool × World)
  sleep_current ticks now (s, k) =
      let asleep =
        put s.current
          (record (process_at s s.current) {
            wake_tick = add32 now ticks;
            wait_node = null_process;
            state = blocked;
          })
          s in
      let yielded = and_true (yield_current (s, k)) in
      if ticks == 0
      then yielded
      else if ltb sleep_maximum_ticks ticks
      then some (false, (s, k))
      else elim (find_next_ready s.current s) [
        | none ↦ some (false, (s, k))
        | some next ↦ and_true (switch_to next (asleep, k))
      ]

  -- scheduler_exit_current after vfs_close_all_current
  unfoldable pub exit_closed : ℤ → World → Option World
  exit_closed code (s, k) =
      let ended =
        put s.current (record (process_at s s.current) { exit_code = code; state = zombie }) s in
      let woken = wake_waiting_parent s.current ended in
      elim (find_next_ready s.current woken) [ none ↦ none | some next ↦ switch_to next (woken, k) ]

  -- scheduler_exit_current
  unfoldable pub exit_current : ℤ → World → Option World
  exit_current code (s, k) = exit_closed code (vfs_close_all_current s k)

  -- kernel_thread_create, past the check of its arguments.
  unfoldable pub create_thread : List ℕ → ℕ → ℕ → ℕ → World → Option (ℤ × World)
  create_thread name entry argument flags (s, k) = elim (find_unused_process s) [
    | none ↦ some (minus 1, (s, k))
    | some slot ↦
        let (allocation, k') = kmalloc kernel_stack_size k in
        if allocation == 0 then some (minus 1, (s, k')) else elim (allocate_pid s) [
          | none ↦
              let (freed, k'') = kfree allocation k' in
              if freed then some (minus 1, (s, k'')) else none
          | some (pid, s') ↦
              elim (inherit_current_working_directory (put slot cleared s') cleared) [
                | none ↦ none
                | some p ↦ some (
                  pos pid,
                  (
                    put slot
                        (prepare_thread name entry argument flags allocation pid
                          (process_at s' s'.current).pid p)
                        s',
                    k',
                  ),
                )
              ]
        ]
  ]

  -- `name` is `none` for NULL, `entry` 0 for NULL; `flags` is what irq_save_disable() returns.
  unfoldable pub kernel_thread_create : Option (List ℕ) → ℕ → ℕ → ℕ → World → Option (ℤ × World)
  kernel_thread_create none entry argument flags w = some (minus 1, w)
  kernel_thread_create (some name) entry argument flags w =
      if get_or name 0 0 == 0 || entry == 0
      then some (minus 1, w)
      else create_thread name entry argument flags w

  unfoldable pub reap_process : ℕ → World → Bool × World
  reap_process i (s, k) =
      let p = process_at s i in
      let (destroyed, k1) =
        if p.page_directory == 0 then (true, k) else destroy_address_space p.page_directory k in
      let s1 = if p.page_directory == 0 then s else put i (record p { page_directory = 0 }) s in
      let (freed, k2) = kfree p.kernel_stack_allocation k1 in
      if i == null_process
        || not (is_zombie p.state)
        || i == s.current
        || p.kernel_stack_allocation == 0
      then (false, (s, k))
      else if not destroyed
      then (false, (s, k1))
      else if not freed
      then (false, (s1, k2))
      else (true, (put i cleared s1, k2))

  -- The zombie `child` is reaped, and its pid and exit code are returned.
  unfoldable pub collect : ℕ → World → Waited World
  collect child (s, k) =
      let (reaped, w) = reap_process child (s, k) in
      if reaped
      then returned (pos (process_at s child).pid) (some (process_at s child).exit_code) w
      else panicked

  -- The caller blocks on `child`, any child of its own standing for itself.
  unfoldable pub block_on : ℤ → ℕ → World → Waited World
  block_on pid child (s, k) =
      let parent = s.current in
      let waiting =
        put parent
          (record (process_at s parent) {
            state = blocked;
            wait_node = if is_minus_one pid then parent else child;
          })
          s in
      let undone =
        put parent (record (process_at s parent) { state = running; wait_node = null_process }) s in
      elim (find_next_ready parent waiting) [
        | none ↦ returned echild none (undone, k)
        | some next ↦ elim (switch_to next (waiting, k)) [
          | none ↦ panicked
          | some w ↦ switched_away w
        ]
      ]

  -- One round of the loop of scheduler_waitpid.
  unfoldable pub waitpid_round : ℤ → World → Waited World
  waitpid_round pid (s, k) = elim (find_child s.current pid true s) [
    | some child ↦ collect child (s, k)
    | none ↦ elim (find_child s.current pid false s) [
      | none ↦ returned echild none (s, k)
      | some child ↦ block_on pid child (s, k)
    ]
  ]

  -- scheduler_waitpid: pid == 0 and pid < -1 are refused.
  unfoldable pub waitpid : ℤ → World → Waited World
  waitpid pid w = if is_any_or_positive pid then waitpid_round pid w else returned einval none w

  -- scheduler_on_tick after its first loop
  unfoldable pub tick_current : World → Option World
  tick_current (s, k) =
      let p = process_at s s.current in
      let preempted = set_state s.current ready s in
      let renewed =
        put s.current (record p { state = running; time_slice = default_time_slice }) s in
      if s.current == null_process || not (is_running p.state)
      then some (s, k)
      else if ltb 1 p.time_slice
      then some (put s.current (record p { time_slice = p.time_slice - 1 }) s, k)
      else elim (find_next_ready s.current preempted) [
        | none ↦ some (renewed, k)
        | some next ↦ if next == s.current then some (renewed, k) else switch_to next (preempted, k)
      ]

  -- scheduler_on_tick
  unfoldable pub on_tick : ℕ → World → Option World
  on_tick now (s, k) = tick_current (wake_sleepers now (process_limit - 1) 1 s, k)
