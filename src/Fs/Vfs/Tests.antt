-- ===== src/Fs/Vfs/Tests.antt =====
-- kernel/fs/vfs.c over a file system of one regular file.
use mini_orange_os.Fs.Vfs.Table.{is_open, file_from_handle_iff}
use mini_orange_os.Errno.{ebusy}
use mini_orange_os.Proc.Scheduler.Descriptors.{HasFiles}
use mini_orange_os.Fs.Vfs.Laws.{unlink_file-busy}
use mini_orange_os.Proc.Process.{cleared, running}
use mini_orange_os.Prelude.Search.{find_from}
use mini_orange_os.Proc.Scheduler.Files.{put_fd, fd_install, fd_get, fd_refused}
use mini_orange_os.Prelude.Int.{pos}
use mini_orange_os.Fs.Vfs.Open.{IsClean, opened, close_file-open}
use mini_orange_os.Fs.Vfs.Step.{
  open_file, open_locked, World, open_found, find_or_create, read_file, close_file, read_locked,
  unlink_file,
}
use mini_orange_os.Prelude.{
  length, replicate, get_or-replicate, ℕ, ◌+◌, ◌<◌, ◌≡◌, refl, ◌↔◌, true, some, [], ◌∷◌, arith,
}
use mini_orange_os.Fs.Vfs.{
  Vfs, init, put_file, cleared_file, allocate_file, flags_valid, file_from_handle, file_limit,
  handle_of, file_at,
}
use mini_orange_os.Fs.Interface.{MiniFs, Stat}
use mini_orange_os.Proc.Scheduler.{Scheduler}

abbrev the_file : Stat
the_file = record { inode = 2; mode = 1; link_count = 1; size = 3 }

-- Every path leads to the file; its three bytes are read from any offset below its size.
abbrev one_file : MiniFs
one_file = record {
  State = ℕ;
  lookup = λ path m. (pos 0, the_file, m);
  create = λ path m. (pos 0, the_file, m);
  read = λ inode offset len m. (pos 1, (65 + offset) ∷ [], m);
  write = λ inode offset bytes m. (pos (length bytes), m);
  stat_inode = λ inode m. (pos 0, the_file, m);
  truncate = λ inode size m. (pos 0, m);
  mkdir = λ path m. (pos 0, m);
  unlink = λ path m. (pos 0, m);
  readdir = λ inode index m.
      (pos 0, index, record { inode = 2; mode = 1; name_length = 1; name = 97 ∷ 0 ∷ [] }, m);
}

abbrev tables : Vfs
tables = init 4096

abbrev boot : Scheduler
boot = record {
  process_table = record cleared { state = running } ∷ replicate 15 cleared;
  current = 0;
  next_pid = 1;
}

boot-HasFiles : HasFiles boot
unfolding cleared
boot-HasFiles = record { size = refl; current_in = omega arith; descriptors = refl }

tables-IsClean : IsClean one_file tables
unfolding init
tables-IsClean = record { size = refl; clear = λ i u. get_or-replicate 32 cleared_file i }

-- Slot 0 and descriptor 3 are taken for reading.
abbrev open_tables : Vfs
open_tables = put_file 0 (opened 0 the_file) tables

abbrev open_world : World one_file
open_world = (open_tables, put_fd 3 4096 boot, 0)

opened_lem : open_file one_file (some (47 ∷ 97 ∷ [])) 0 (tables, boot, 0) ≡ (pos 3, open_world)
unfolding open_file open_locked open_found find_or_create allocate_file find_from flags_valid
    fd_install init cleared
opened_lem = refl

close_file-open_example : close_file one_file (pos 3) open_world ≡ (pos 0, (tables, boot, 0))
close_file-open_example =
    close_file-open one_file (some (47 ∷ 97 ∷ [])) 0 3 tables boot 0 open_world tables-IsClean
      boot-HasFiles opened_lem

file_from_handle_iff_example : (file_from_handle 4096 open_tables ≡ some 0) ↔ (
    (0 < file_limit) × (4096 ≡ handle_of open_tables 0) × (is_open (file_at open_tables 0) ≡ true))
file_from_handle_iff_example = file_from_handle_iff open_tables 4096 0

-- One byte is read, and the offset of slot 0 moves on by one.
abbrev read_world : World one_file
read_world =
    (put_file 0 (record (opened 0 the_file) { offset = 1 }) open_tables, put_fd 3 4096 boot, 0)

read_lem : read_file one_file (pos 3) true 1 open_world ≡ ((pos 1, 65 ∷ []), read_world)
unfolding read_file read_locked file_from_handle fd_get fd_refused init cleared
read_lem = refl

unlink_file-busy_example :
    unlink_file one_file (some (47 ∷ 97 ∷ [])) open_world
    ≡ (ebusy, (open_tables, put_fd 3 4096 boot, 0))
unfolding init
unlink_file-busy_example =
    unlink_file-busy one_file (some (47 ∷ 97 ∷ [])) open_tables (put_fd 3 4096 boot) 0 0 0 the_file
      0 refl refl refl (omega arith) refl
