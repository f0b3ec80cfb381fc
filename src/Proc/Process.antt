-- ===== src/Proc/Process.antt =====
-- struct process of kernel/proc/scheduler.c and the functions on one process. A pointer to a process
-- is its index in `process_table`, and the index `null_process` stands for NULL. An array of char is
-- a list of bytes; a C string is the list of the bytes before its terminator.
use mini_orange_os.Prelude.{
  ◌==◌, if◌then◌else◌, get_or, set, replicate, ℕ, zero, suc, ◌+◌, ◌-◌, Bool, true, false, List, ◌∷◌,
}
use mini_orange_os.Prelude.Int.{ℤ, pos}

abbrev pub process_limit : ℕ
process_limit = 16

abbrev pub null_process : ℕ
null_process = 16

abbrev pub process_name_length : ℕ
process_name_length = 32

abbrev pub process_fd_limit : ℕ
process_fd_limit = 16

abbrev pub process_cwd_size : ℕ
process_cwd_size = 256

abbrev pub kernel_stack_size : ℕ
kernel_stack_size = 16384

abbrev pub default_time_slice : ℕ
default_time_slice = 5

abbrev pub pid_maximum : ℕ
pid_maximum = 0x7FFFFFFF

abbrev pub sleep_maximum_ticks : ℕ
sleep_maximum_ticks = 0x7FFFFFFF

pub data ProcessState : Type 0 where
  unused new ready running blocked zombie reaped : ProcessState

-- The comparisons `state == PROCESS_…`.
abbrev pub is_unused : ProcessState → Bool
is_unused unused = true
is_unused _ = false

abbrev pub is_ready : ProcessState → Bool
is_ready ready = true
is_ready _ = false

abbrev pub is_running : ProcessState → Bool
is_running running = true
is_running _ = false

abbrev pub is_blocked : ProcessState → Bool
is_blocked blocked = true
is_blocked _ = false

abbrev pub is_zombie : ProcessState → Bool
is_zombie zombie = true
is_zombie _ = false

abbrev pub is_reaped : ProcessState → Bool
is_reaped reaped = true
is_reaped _ = false

pub record Process : Type 0 where
  pub pid : ℕ
  pub state : ProcessState
  pub name : List ℕ
  pub saved_stack : ℕ
  pub kernel_stack_top : ℕ
  pub user_stack_top : ℕ
  pub page_directory : ℕ
  pub exit_code : ℤ
  pub parent_pid : ℕ
  pub wake_tick : ℕ
  pub time_slice : ℕ
  pub fd_table : List ℕ
  pub cwd : List ℕ
  pub run_node : ℕ
  pub wait_node : ℕ
  pub entry : ℕ
  pub argument : ℕ
  pub kernel_stack_allocation : ℕ
  pub initial_eflags : ℕ
  pub user_entry : ℕ

-- clear_process: every field is written, so the result does not depend on what was there.
unfoldable pub cleared : Process
cleared = record {
  pid = 0;
  state = unused;
  name = replicate process_name_length 0;
  saved_stack = 0;
  kernel_stack_top = 0;
  user_stack_top = 0;
  page_directory = 0;
  exit_code = pos 0;
  parent_pid = 0;
  wake_tick = 0;
  time_slice = 0;
  fd_table = replicate process_fd_limit 0;
  cwd = b'/' ∷ replicate (process_cwd_size - 1) 0;
  run_node = null_process;
  wait_node = null_process;
  entry = 0;
  argument = 0;
  kernel_stack_allocation = 0;
  initial_eflags = 0;
  user_entry = 0;
}

-- The copying loop of set_process_name, from `index` on; `text[index]` is 0 at the terminator.
pub copy_name : ℕ → List ℕ → ℕ → List ℕ → List ℕ
copy_name zero text index array = set array index 0
copy_name (suc rounds) text index array =
    let rest = copy_name rounds text (index + 1) (set array index (get_or text index 0)) in
    if get_or text index 0 == 0 then set array index 0 else rest

pub set_process_name : List ℕ → Process → Process
unfolding copy_name
set_process_name text p = record p { name = copy_name (process_name_length - 1) text 0 p.name }
