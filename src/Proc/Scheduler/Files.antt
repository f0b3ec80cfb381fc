-- ===== src/Proc/Scheduler/Files.antt =====
-- kernel/proc/scheduler.c: the descriptor table and the working directory of the current process, and
-- the snapshot that `ps` prints.
use mini_orange_os.Prelude.{
  ltb, leb, ◌==◌, if◌then◌else◌, length, get_or, set, ℕ, zero, suc, ◌+◌, ◌-◌, Bool, true, false,
  ◌||◌, not, Option, none, some, List, [], ◌∷◌,
}
use mini_orange_os.Prelude.Int.{ℤ, pos, negsuc}
use mini_orange_os.Prelude.Search.{find_from}
use mini_orange_os.Errno.{einval, emfile}
use mini_orange_os.Proc.Process.{
  Process, ProcessState, process_fd_limit, process_limit, null_process, process_cwd_size, is_unused,
  is_reaped,
}
use mini_orange_os.Proc.Scheduler.{Scheduler, process_at, put}

abbrev pub fd_table : Scheduler → List ℕ
fd_table s = (process_at s s.current).fd_table

abbrev pub put_fd : ℕ → ℕ → Scheduler → Scheduler
put_fd descriptor handle s =
    put s.current
      (record (process_at s s.current) { fd_table = set (fd_table s) descriptor handle }) s

-- scheduler_fd_install: the first free descriptor from 3 on.
unfoldable pub fd_install : ℕ → Scheduler → ℤ × Scheduler
fd_install handle s =
    if handle == 0 || s.current == null_process
    then (einval, s)
    else elim (find_from (λ d. get_or (fd_table s) d 0 == 0) (process_fd_limit - 3) 3) [
      | none ↦ (emfile, s)
      | some d ↦ (pos d, put_fd d handle s)
    ]

-- descriptor < 3 || descriptor >= PROCESS_FD_LIMIT || current_process == NULL
unfoldable pub fd_refused : ℤ → Scheduler → Bool
fd_refused (pos d) s = ltb d 3 || leb process_fd_limit d || s.current == null_process
fd_refused (negsuc d) s = true

abbrev pub index_of : ℤ → ℕ
index_of (pos d) = d
index_of (negsuc d) = 0

-- scheduler_fd_get
unfoldable pub fd_get : ℤ → Scheduler → ℕ
fd_get descriptor s =
    if fd_refused descriptor s then 0 else get_or (fd_table s) (index_of descriptor) 0

-- scheduler_fd_remove
unfoldable pub fd_remove : ℤ → Scheduler → ℕ × Scheduler
fd_remove descriptor s =
    if fd_refused descriptor s
    then (0, s)
    else (get_or (fd_table s) (index_of descriptor) 0, put_fd (index_of descriptor) 0 s)

-- scheduler_current_pid
unfoldable pub current_pid : Scheduler → ℕ
current_pid s = if s.current == null_process then 0 else (process_at s s.current).pid

-- The loop of scheduler_get_current_working_directory: the bytes of `path`, the terminator with them,
-- or `none` where it returns false.
unfoldable pub read_cwd : ℕ → ℕ → ℕ → List ℕ → Option (List ℕ)
read_cwd zero index capacity cwd = none
read_cwd (suc rounds) index capacity cwd =
    let byte = get_or cwd index 0 in
    let rest : Option (List ℕ) = elim (read_cwd rounds (index + 1) capacity cwd) [
      | none ↦ none
      | some path ↦ some (byte ∷ path)
    ] in
    if leb capacity index then none else if byte == 0 then some (byte ∷ []) else rest

-- The buffer is not NULL.
unfoldable pub get_cwd : ℕ → Scheduler → Option (List ℕ)
get_cwd capacity s =
    if capacity == 0 || s.current == null_process
    then none
    else read_cwd process_cwd_size 0 capacity (process_at s s.current).cwd

-- `for (index = 0; index <= length; ++index) cwd[index] = path[index]`
unfoldable pub write_cwd : ℕ → ℕ → List ℕ → List ℕ → List ℕ
write_cwd zero index path cwd = cwd
write_cwd (suc rounds) index path cwd =
    write_cwd rounds (index + 1) path (set cwd index (get_or path index 0))

-- scheduler_set_current_working_directory; `path` holds the bytes before the terminator, and its
-- length is what the first loop counts, up to the size of the array.
unfoldable pub set_cwd : List ℕ → Scheduler → Bool × Scheduler
set_cwd path s =
    if not (get_or path 0 0 == b'/') || s.current == null_process
    then (false, s)
    else if length path == 0 || leb process_cwd_size (length path)
    then (false, s)
    else (
      true,
      put s.current
          (record (process_at s s.current) {
            cwd = write_cwd (length path + 1) 0 path (process_at s s.current).cwd;
          })
          s,
    )

-- struct minios_process_info
pub record ProcessInfo : Type 0 where
  pub pid : ℕ
  pub parent_pid : ℕ
  pub state : ProcessState
  pub name : List ℕ

abbrev pub info_of : Process → ProcessInfo
info_of p = record { pid = p.pid; parent_pid = p.parent_pid; state = p.state; name = p.name }

-- The loop of scheduler_process_snapshot; `room` is capacity - count.
unfoldable pub snapshot_from : ℕ → ℕ → ℕ → Scheduler → List ProcessInfo
snapshot_from zero source room s = []
snapshot_from (suc rounds) source zero s = []
snapshot_from (suc rounds) source (suc room) s =
    let p = process_at s source in
    let skip = snapshot_from rounds (source + 1) (suc room) s in
    let keep = info_of p ∷ snapshot_from rounds (source + 1) room s in
    if is_unused p.state || is_reaped p.state then skip else keep

-- scheduler_process_snapshot, with a buffer that is not NULL.
unfoldable pub process_snapshot : ℕ → Scheduler → List ProcessInfo
process_snapshot capacity s = snapshot_from process_limit 0 capacity s
