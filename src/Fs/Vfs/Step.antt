-- ===== src/Fs/Vfs/Step.antt =====
-- kernel/fs/vfs.c: the operations on files. Each takes the lock, works, and releases it.
use mini_orange_os.Proc.Process.{process_fd_limit}
use mini_orange_os.Prelude.Search.{find_from}
use mini_orange_os.Proc.Scheduler.Files.{fd_install, fd_remove, fd_get}
use mini_orange_os.Errno.{
  einval, enfile, eagain, is_error, is_enoent, eisdir, eio, ebadf, ebusy, enotdir,
}
use mini_orange_os.Fs.Vfs.{
  Vfs, has_flag, File, flags_valid, allocate_file, o_trunc, put_file, cleared_file, handle_of,
  access_of, file_from_handle, file_at, file_limit, o_creat, file_readable, file_writable,
}
use mini_orange_os.Prelude.{
  ltb, leb, ◌==◌, if◌then◌else◌, get_or, add32, sub32, ℕ, zero, suc, ◌+◌, ◌-◌, min, Bool, true,
  false, ◌&&◌, ◌||◌, not, Option, none, some, List, [], ◌∷◌,
}
use mini_orange_os.Prelude.Int.{ℤ, pos, negsuc, ◌+ℤ◌}
use mini_orange_os.Fs.Interface.{MiniFs, Stat, Dirent, mode_directory}
use mini_orange_os.Proc.Scheduler.{Scheduler}

-- struct minios_dirent: the name field holds 59 bytes, padded with zeros.
pub record UserDirent : Type 0 where
  pub inode : ℕ
  pub mode : ℕ
  pub name_length : ℕ
  pub name : List ℕ

-- The two copying loops of vfs_readdir.
unfoldable pub copy_entry_name : ℕ → ℕ → ℕ → List ℕ → List ℕ
copy_entry_name zero index copy_length name = []
copy_entry_name (suc rounds) index copy_length name =
    (if ltb index copy_length then get_or name index 0 else 0)
    ∷ copy_entry_name rounds (index + 1) copy_length name

abbrev pub to_user : Dirent → UserDirent
to_user e = record {
  inode = e.inode;
  mode = e.mode;
  name_length = e.name_length;
  name = copy_entry_name 59 0 (min (e.name_length + 1) 59) e.name;
}

-- if (result > 0) file->offset += (uint32_t)result
abbrev pub advanced : ℤ → File → File
advanced (pos n) f = record f { offset = add32 f.offset n }
advanced (negsuc n) f = f

-- result == 1
abbrev is_one : ℤ → Bool
is_one (pos n) = n == 1
is_one (negsuc n) = false

-- A base and a signed offset in int64_t; `none` if the target is negative or above INT32_MAX.
unfoldable pub seek_target : ℕ → ℤ → Option ℕ
seek_target base offset = elim (pos base +ℤ offset) [
  | pos target ↦ if leb target 0x7FFFFFFF then some target else none
  | negsuc n ↦ none
]

abbrev pub lock : Vfs → Vfs
lock v = record v { busy = true }

abbrev pub release : Vfs → Vfs
release v = record v { busy = false }

module _ (M : MiniFs) where
  open M use {State, lookup, create, read, write, stat_inode, truncate, mkdir, unlink, readdir}

  -- The open files, the scheduler with the descriptor tables, and the file system.
  abbrev pub World : Type 0
  World = Vfs × Scheduler × State

  abbrev unlock : World → World
  unlock (v, s, m) = (release v, s, m)

  -- The part of vfs_open that has found the file's status: `i` is the slot, cleared on failure.
  unfoldable pub open_found : ℕ → ℕ → Stat → World → ℤ × World
  open_found i flags status (v, s, m) =
      let (truncated, m') =
        if has_flag flags o_trunc then truncate status.inode 0 m else (pos 0, m) in
      let filled =
        put_file i
          (record {
            used = true;
            refcount = 1;
            has_ops = true;
            inode = status.inode;
            offset = 0;
            flags = flags;
            mode = status.mode;
          })
          v in
      let (descriptor, s') = fd_install (handle_of v i) s in
      if status.mode == mode_directory && (not (access_of flags == 0) || has_flag flags o_trunc)
      then (eisdir, (put_file i cleared_file v, s, m))
      else if is_error truncated
      then (truncated, (put_file i cleared_file v, s, m'))
      else if is_error descriptor
      then (descriptor, (put_file i cleared_file v, s', m'))
      else (descriptor, (filled, s', m'))

  -- The lookup, and the creation if the file is missing and O_CREAT is given.
  unfoldable pub find_or_create : Option (List ℕ) → ℕ → State → ℤ × Stat × State
  find_or_create path flags m =
      let (result, status, m') = lookup path m in
      if is_enoent result && has_flag flags o_creat then create path m' else (result, status, m')

  unfoldable pub open_locked : Option (List ℕ) → ℕ → World → ℤ × World
  open_locked path flags (v, s, m) = elim (allocate_file v) [
    | none ↦ (enfile, (v, s, m))
    | some (i, v') ↦
        let (result, status, m') = find_or_create path flags m in
        if is_error result
        then (result, (put_file i cleared_file v', s, m'))
        else open_found i flags status (v', s, m')
  ]

  -- vfs_open
  unfoldable pub open_file : Option (List ℕ) → ℕ → World → ℤ × World
  open_file path flags (v, s, m) =
      let (result, w) = open_locked path flags (lock v, s, m) in
      if not v.initialized || not (flags_valid flags)
      then (einval, (v, s, m))
      else if v.busy
      then (eagain, (v, s, m))
      else (result, unlock w)

  -- The common shape of vfs_close, vfs_lseek, vfs_mkdir and vfs_unlink: the result while the lock is
  -- held, or the two refusals, `refused` if the VFS is not initialized.
  abbrev guarded : ℤ → World → ℤ × World → ℤ × World
  guarded refused (v, s, m) (result, w) =
      if not v.initialized
      then (refused, (v, s, m))
      else if v.busy
      then (eagain, (v, s, m))
      else (result, unlock w)

  unfoldable pub close_locked : ℤ → World → ℤ × World
  close_locked descriptor (v, s, m) =
      let (handle, s') = fd_remove descriptor s in
      elim (file_from_handle handle v) [
        | none ↦ (ebadf, (v, s', m))
        | some i ↦
            let f = record (file_at v i) { refcount = sub32 (file_at v i).refcount 1 } in
            (pos 0, (put_file i (if f.refcount == 0 then cleared_file else f) v, s', m))
      ]

  -- vfs_close
  unfoldable pub close_file : ℤ → World → ℤ × World
  close_file descriptor (v, s, m) = guarded eio (v, s, m) (close_locked descriptor (lock v, s, m))

  unfoldable pub read_locked : ℤ → ℕ → World → (ℤ × List ℕ) × World
  read_locked descriptor len (v, s, m) = elim (file_from_handle (fd_get descriptor s) v) [
    | none ↦ ((ebadf, []), (v, s, m))
    | some i ↦
        let f = file_at v i in
        let (result, bytes, m') = read f.inode f.offset len m in
        if not (file_readable f)
        then ((ebadf, []), (v, s, m))
        else if f.mode == mode_directory
        then ((eisdir, []), (v, s, m))
        else ((result, bytes), (put_file i (advanced result f) v, s, m'))
  ]

  -- vfs_read; `buffer` says whether the pointer is not NULL.
  unfoldable pub read_file : ℤ → Bool → ℕ → World → (ℤ × List ℕ) × World
  read_file descriptor buffer len (v, s, m) =
      let (result, w) = read_locked descriptor len (lock v, s, m) in
      if not v.initialized || (not buffer && not (len == 0))
      then ((einval, []), (v, s, m))
      else if v.busy
      then ((eagain, []), (v, s, m))
      else (result, unlock w)

  unfoldable pub write_locked : ℤ → List ℕ → World → ℤ × World
  write_locked descriptor bytes (v, s, m) = elim (file_from_handle (fd_get descriptor s) v) [
    | none ↦ (ebadf, (v, s, m))
    | some i ↦
        let f = file_at v i in
        let (result, m') = write f.inode f.offset bytes m in
        if not (file_writable f)
        then (ebadf, (v, s, m))
        else if f.mode == mode_directory
        then (eisdir, (v, s, m))
        else (result, (put_file i (advanced result f) v, s, m'))
  ]

  -- vfs_write; the bytes are `none` for NULL with a length that is not 0.
  unfoldable pub write_file : ℤ → Option (List ℕ) → World → ℤ × World
  write_file descriptor none w = (einval, w)
  write_file descriptor (some bytes) (v, s, m) =
      let (result, w) = write_locked descriptor bytes (lock v, s, m) in
      if not v.initialized
      then (einval, (v, s, m))
      else if v.busy
      then (eagain, (v, s, m))
      else (result, unlock w)

  -- The base of a seek: SEEK_SET, SEEK_CUR and SEEK_END; otherwise the error.
  unfoldable pub seek_base : ℕ → File → State → (ℤ × ℕ) × State
  seek_base whence f m =
      let (result, status, m') = stat_inode f.inode m in
      if whence == 0
      then ((pos 0, 0), m)
      else if whence == 1
      then ((pos 0, f.offset), m)
      else if whence == 2
      then ((if is_error result then result else pos 0, status.size), m')
      else ((einval, 0), m)

  unfoldable pub lseek_locked : ℤ → ℤ → ℕ → World → ℤ × World
  lseek_locked descriptor offset whence (v, s, m) =
      elim (file_from_handle (fd_get descriptor s) v) [
        | none ↦ (ebadf, (v, s, m))
        | some i ↦
            let f = file_at v i in
            let ((error, base), m') = seek_base whence f m in
            if is_error error then (error, (v, s, m')) else elim (seek_target base offset) [
              | none ↦ (einval, (v, s, m'))
              | some target ↦ (pos target, (put_file i (record f { offset = target }) v, s, m'))
            ]
      ]

  -- vfs_lseek; a negative `whence` is refused like one above 2, and is given as 3.
  unfoldable pub lseek_file : ℤ → ℤ → ℕ → World → ℤ × World
  lseek_file descriptor offset whence (v, s, m) =
      guarded eio (v, s, m) (lseek_locked descriptor offset whence (lock v, s, m))

  -- vfs_stat takes no lock; `status` says whether the pointer is not NULL.
  unfoldable pub stat_file : Option (List ℕ) → Bool → World → (ℤ × Option Stat) × World
  stat_file path status (v, s, m) =
      let (result, found, m') = lookup path m in
      if not v.initialized || not status
      then ((einval, none), (v, s, m))
      else if is_error result
      then ((result, none), (v, s, m'))
      else ((pos 0, some found), (v, s, m'))

  -- vfs_mkdir
  unfoldable pub make_directory : Option (List ℕ) → World → ℤ × World
  make_directory path (v, s, m) =
      let (result, m') = mkdir path m in guarded eio (v, s, m) (result, (lock v, s, m'))

  -- file_table[index].used && file_table[index].inode == inode
  abbrev pub inode_open : Vfs → ℕ → ℕ → Bool
  inode_open v inode i = (file_at v i).used && (file_at v i).inode == inode

  unfoldable pub unlink_locked : Option (List ℕ) → World → ℤ × World
  unlink_locked path (v, s, m) =
      let (result, status, m') = lookup path m in
      let (unlinked, m'') = unlink path m' in
      if is_error result
      then (result, (v, s, m'))
      else elim (find_from (inode_open v status.inode) file_limit 0) [
        | some i ↦ (ebusy, (v, s, m'))
        | none ↦ (unlinked, (v, s, m''))
      ]

  -- vfs_unlink
  unfoldable pub unlink_file : Option (List ℕ) → World → ℤ × World
  unlink_file path (v, s, m) = guarded eio (v, s, m) (unlink_locked path (lock v, s, m))

  unfoldable pub readdir_locked : ℤ → World → (ℤ × Option UserDirent) × World
  readdir_locked descriptor (v, s, m) = elim (file_from_handle (fd_get descriptor s) v) [
    | none ↦ ((ebadf, none), (v, s, m))
    | some i ↦
        let f = file_at v i in
        let (result, offset, entry, m') = readdir f.inode f.offset m in
        if not (file_readable f)
        then ((ebadf, none), (v, s, m))
        else if not (f.mode == mode_directory)
        then ((enotdir, none), (v, s, m))
        else (
          (result, if is_one result then some (to_user entry) else none),
          (put_file i (record f { offset = offset }) v, s, m'),
        )
  ]

  -- vfs_readdir; `entry` says whether the pointer is not NULL.
  unfoldable pub read_directory : ℤ → Bool → World → (ℤ × Option UserDirent) × World
  read_directory descriptor entry (v, s, m) =
      let (result, w) = readdir_locked descriptor (lock v, s, m) in
      if not v.initialized || not entry
      then ((einval, none), (v, s, m))
      else if v.busy
      then ((eagain, none), (v, s, m))
      else (result, unlock w)

  -- The loop of vfs_close_all_current.
  unfoldable pub close_from : ℕ → ℕ → World → World
  close_from zero descriptor w = w
  close_from (suc rounds) descriptor (v, s, m) = close_from rounds (descriptor + 1) (
      if fd_get (pos descriptor) s == 0
      then (v, s, m)
      else (close_file (pos descriptor) (v, s, m)).1)

  -- vfs_close_all_current
  unfoldable pub close_all_current : World → World
  close_all_current (v, s, m) =
      let closed = close_from (process_fd_limit - 3) 3 (v, s, m) in
      if v.initialized then closed else (v, s, m)
