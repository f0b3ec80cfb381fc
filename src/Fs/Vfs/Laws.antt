-- ===== src/Fs/Vfs/Laws.antt =====
-- vfs_read, vfs_lseek and vfs_unlink: how the offset moves, and that an open file is not unlinked.
use mini_orange_os.Proc.Scheduler.Files.{fd_get}
use mini_orange_os.Errno.{ebusy}
use mini_orange_os.Prelude.{
  ◌==◌, Bool-cases, Option-cases, add32, ℕ, ◌≤◌, ◌<◌, ◌≡◌, ◌↔◌, inl, inr, Bool, true, false, ◌&&◌,
  ◌||◌, not, Option, some, List, arith,
}
use mini_orange_os.Prelude.Int.{ℤ, pos, ◌+ℤ◌}
use mini_orange_os.Prelude.Search.{find_from-finds}
use mini_orange_os.Fs.Interface.{MiniFs, Stat, mode_directory}
use mini_orange_os.Proc.Scheduler.{Scheduler}
use mini_orange_os.Fs.Vfs.{Vfs, file_limit, file_at, put_file, file_from_handle, file_readable}
use mini_orange_os.Fs.Vfs.Step.{
  World, seek_target, read_file, read_locked, unlink_file, unlink_locked, inode_open, lock,
}

-- A seek target is accepted exactly if it is the sum, not negative and at most INT32_MAX.
pub seek_target_iff :
    (base : ℕ) (offset : ℤ) (target : ℕ)
    → (seek_target base offset ≡ some target)
      ↔ ((pos target ≡ pos base +ℤ offset) × (target ≤ 0x7FFFFFFF))
unfolding seek_target ◌+ℤ◌
seek_target_iff base offset target = ground arith

module _ (M : MiniFs) where
  -- What vfs_read has done when it returns a count.
  pub record HasRead (descriptor : ℤ) (len n : ℕ) (bytes : List ℕ) (v : Vfs) (s : Scheduler)
      (m : M.State) (w : World M) (i : ℕ) : Type 0 where
    pub by_handle : file_from_handle (fd_get descriptor s) v ≡ some i
    pub readable : file_readable (file_at v i) ≡ true
    pub no_directory : ((file_at v i).mode == mode_directory) ≡ false
    pub from_fs : M.read (file_at v i).inode (file_at v i).offset len m ≡ (pos n, bytes, w.2)
    pub files : w.0 ≡ put_file i (record (file_at v i) { offset = add32 (file_at v i).offset n }) v
    pub scheduler : w.1 ≡ s

  read_locked-pos :
      (descriptor : ℤ) (len n : ℕ) (bytes : List ℕ) (v : Vfs) (s : Scheduler) (m : M.State)
      (w : World M)
      → read_locked M descriptor len (v, s, m) ≡ ((pos n, bytes), w)
      → (i : ℕ) × HasRead descriptor len n bytes v s m w i
  unfolding read_locked
  read_locked-pos descriptor len n bytes v s m w e =
      elim (Option-cases (file_from_handle (fd_get descriptor s) v)) [
        | inl x ↦ absurd (ground arith)
        | inr (i, h) ↦ elim (Bool-cases (file_readable (file_at v i))) [
          | inr x ↦ absurd (ground arith)
          | inl r ↦ elim (Bool-cases ((file_at v i).mode == mode_directory)) [
            | inl x ↦ absurd (ground arith)
            | inr d ↦ (
              i,
              record {
                by_handle = h;
                readable = r;
                no_directory = d;
                from_fs = ground arith;
                files = ground arith;
                scheduler = ground arith;
              },
            )
          ]
        ]
      ]

  -- vfs_read that returns a count has found an open file that is readable and no directory, has asked
  -- the file system for the bytes at the file's offset, and has moved the offset on by the count;
  -- nothing else of the open files or the scheduler has changed.
  pub read_file-pos :
      (descriptor : ℤ) (buffer : Bool) (len n : ℕ) (bytes : List ℕ) (v : Vfs) (s : Scheduler)
      (m : M.State) (w : World M)
      → read_file M descriptor buffer len (v, s, m) ≡ ((pos n, bytes), w)
      → (i : ℕ) × HasRead descriptor len n bytes v s m w i
  unfolding read_file file_from_handle
  read_file-pos descriptor buffer len n bytes v s m w e =
      elim (Bool-cases (not v.initialized || (not buffer && not (len == 0)))) [
        | inl x ↦ absurd (ground arith)
        | inr x ↦ elim (Bool-cases v.busy) [
          | inl y ↦ absurd (ground arith)
          | inr idle ↦
              let inner = read_locked M descriptor len (lock v, s, m) in
              let (i, r) =
                read_locked-pos descriptor len n bytes (lock v) s m inner.1 (ground arith) in
              (
                i,
                record {
                  by_handle = r.by_handle;
                  readable = r.readable;
                  no_directory = r.no_directory;
                  from_fs = ground (arith, r.from_fs);
                  files = ground (arith, r.files);
                  scheduler = ground (arith, r.scheduler);
                },
              )
        ]
      ]

  -- On an initialized VFS whose lock is free: while some slot of the file table is used with the inode
  -- that the path leads to, vfs_unlink returns -EBUSY and does not call the file system's unlink; all
  -- that has happened is the lookup.
  pub unlink_file-busy :
      (path : Option (List ℕ)) (v : Vfs) (s : Scheduler) (m m' : M.State) (found : ℕ)
      (status : Stat) (i : ℕ)
      → v.initialized ≡ true
      → v.busy ≡ false
      → M.lookup path m ≡ (pos found, status, m')
      → i < file_limit
      → inode_open M v status.inode i ≡ true
      → unlink_file M path (v, s, m) ≡ (ebusy, (v, s, m'))
  unfolding unlink_file unlink_locked
  unlink_file-busy path v s m m' found status i ready idle look hi open_i =
      let f =
        find_from-finds (inode_open M v status.inode) file_limit 0 i (omega arith) (omega arith)
          open_i in
      ground (arith, look, f.1)
