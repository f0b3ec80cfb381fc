-- ===== src/Fs/Vfs/Open.antt =====
-- vfs_open and vfs_close: what a successful open has done, and that closing undoes it.
use mini_orange_os.Proc.Scheduler.Descriptors.{Installed, HasFiles, fd_remove-put, fd_install-pos}
use mini_orange_os.Errno.{is_error}
use mini_orange_os.Proc.Scheduler.Files.{fd_install, fd_remove}
use mini_orange_os.Prelude.{
  ◌==◌, if◌then◌else◌, Bool-cases, Option-cases, length, set, get_or-set_self, set-set, set-get_or,
  ℕ, ◌<◌, ◌≡◌, refl, sym, ap, ◌∙◌, subst, inl, inr, true, false, ◌&&◌, ◌||◌, not, Option, some,
  List, arith,
}
use mini_orange_os.Prelude.Int.{ℤ, pos}
use mini_orange_os.Prelude.Search.{find_from, find_from-some}
use mini_orange_os.Fs.Interface.{MiniFs, Stat, mode_directory}
use mini_orange_os.Proc.Scheduler.{Scheduler}
use mini_orange_os.Fs.Vfs.{
  Vfs, File, file_limit, file_at, put_file, handle_of, file_from_handle, allocate_file,
  cleared_file, access_of, has_flag, o_trunc, flags_valid,
}
use mini_orange_os.Fs.Vfs.Step.{
  World, open_found, open_locked, open_file, find_or_create, close_file, close_locked, release,
  lock,
}
use mini_orange_os.Fs.Vfs.Table.{is_open, file_from_handle_iff}

-- The slot that vfs_open fills.
abbrev pub opened : ℕ → Stat → File
opened flags status = record {
  used = true;
  refcount = 1;
  has_ops = true;
  inode = status.inode;
  offset = 0;
  flags = flags;
  mode = status.mode;
}

module _ (M : MiniFs) where
  -- What a successful open has found and done.
  pub record Opened (flags : ℕ) (v : Vfs) (s : Scheduler) (d : ℕ) (w : World M) : Type 0 where
    pub slot : ℕ
    pub status : Stat
    pub slot_in : slot < file_limit
    pub was_unused : (file_at v slot).used ≡ false
    pub not_busy : v.busy ≡ false
    pub ready : v.initialized ≡ true
    pub files : w.0 ≡ put_file slot (opened flags status) v
    pub descriptors : Installed (handle_of v slot) s d w.1

  open_found-pos :
      (i flags d : ℕ) (status : Stat) (v : Vfs) (s : Scheduler) (m : M.State) (w : World M)
      → open_found M i flags status (v, s, m) ≡ (pos d, w)
      → (w.0 ≡ put_file i (opened flags status) v) × Installed (handle_of v i) s d w.1
  unfolding open_found
  open_found-pos i flags d status v s m w e =
      elim (Bool-cases
        (status.mode == mode_directory && (not (access_of flags == 0) || has_flag flags o_trunc))) [
          | inl y ↦ absurd (ground arith)
          | inr x ↦
              elim (Bool-cases (
                is_error
                  (if has_flag flags o_trunc then M.truncate status.inode 0 m else (pos 0, m)).0)) [
                    | inl y ↦ absurd (ground arith)
                    | inr t ↦ elim (Bool-cases (is_error (fd_install (handle_of v i) s).0)) [
                      | inl y ↦ absurd (ground arith)
                      | inr f ↦
                          (ground arith, fd_install-pos (handle_of v i) s w.1 d (ground arith))
                    ]
                  ]
        ]

  open_locked-pos :
      (path : Option (List ℕ)) (flags d : ℕ) (v : Vfs) (s : Scheduler) (m : M.State) (w : World M)
      → open_locked M path flags (v, s, m) ≡ (pos d, w)
      → (i : ℕ) × (status : Stat) × (i < file_limit)
        × ((file_at v i).used ≡ false)
        × (w.0 ≡ put_file i (opened flags status) v)
        × Installed (handle_of v i) s d w.1
  unfolding open_locked allocate_file
  open_locked-pos path flags d v s m w e =
      elim (Option-cases (find_from (λ i. not (file_at v i).used) file_limit 0)) [
        | inl n ↦ absurd (ground arith)
        | inr (i, found) ↦ elim (Bool-cases (is_error (find_or_create M path flags m).0)) [
          | inl y ↦ absurd (ground arith)
          | inr x ↦
              let f = find_from-some (λ i. not (file_at v i).used) file_limit 0 i found in
              let taken = put_file i (record cleared_file { used = true; refcount = 1 }) v in
              let status = (find_or_create M path flags m).1 in
              let r =
                open_found-pos i flags d status taken s (find_or_create M path flags m).2 w
                  (ground arith) in
              (
                i,
                status,
                omega (arith, f.upper),
                ground (arith, f.passes),
                r.0 ∙ (λ j. record v {
                  file_table =
                      set-set v.file_table i (record cleared_file { used = true; refcount = 1 })
                        (opened flags status) j;
                }),
                r.1,
              )
        ]
      ]

  pub open_file-pos :
      (path : Option (List ℕ)) (flags d : ℕ) (v : Vfs) (s : Scheduler) (m : M.State) (w : World M)
      → open_file M path flags (v, s, m) ≡ (pos d, w)
      → Opened flags v s d w
  unfolding open_file
  open_file-pos path flags d v s m w e =
      elim (Bool-cases (not v.initialized || not (flags_valid flags))) [
        | inl y ↦ absurd (ground arith)
        | inr x ↦ elim (Bool-cases v.busy) [
          | inl y ↦ absurd (ground arith)
          | inr free ↦
              let inner = open_locked M path flags (lock v, s, m) in
              let r = open_locked-pos path flags d (lock v) s m inner.1 (ground arith) in
              record {
                slot = r.0;
                status = r.1;
                slot_in = r.2;
                was_unused = r.3;
                not_busy = free;
                ready = ground arith;
                files = ground (arith, r.4);
                descriptors = subst (λ x. Installed (handle_of v r.0) s d x) (ground arith) r.5;
              }
        ]
      ]

  -- Unused slots are as clear_file leaves them, and the table has its size.
  pub record IsClean (v : Vfs) : Type 0 where
    pub size : length v.file_table ≡ file_limit
    pub clear : (i : ℕ) → (file_at v i).used ≡ false → file_at v i ≡ cleared_file

  -- An idle VFS does what the locked part does, and releases the lock.
  unlocked :
      (v : Vfs) (s : Scheduler) (m : M.State) (result : ℤ) (w : World M) (descriptor : ℤ)
      → v.initialized ≡ true
      → v.busy ≡ false
      → close_locked M descriptor (lock v, s, m) ≡ (result, w)
      → close_file M descriptor (v, s, m) ≡ (result, (release w.0, w.1, w.2))
  unfolding close_file
  unlocked v s m result w descriptor ready idle e = ground arith

  -- The last reference to a file is closed.
  close_last :
      (descriptor : ℤ) (handle : ℕ) (v : Vfs) (s s' : Scheduler) (m : M.State) (i : ℕ)
      → fd_remove descriptor s' ≡ (handle, s)
      → file_from_handle handle v ≡ some i
      → (file_at v i).refcount ≡ 1
      → close_locked M descriptor (v, s', m) ≡ (pos 0, (put_file i cleared_file v, s, m))
  unfolding close_locked
  close_last descriptor handle v s s' m i removed found one = ground arith

  close_opened :
      (v : Vfs) (s s' : Scheduler) (m : M.State) (i d flags : ℕ) (status : Stat)
      → IsClean v
      → i < file_limit
      → (file_at v i).used ≡ false
      → v.initialized ≡ true
      → v.busy ≡ false
      → fd_remove (pos d) s' ≡ (handle_of v i, s)
      → close_file M (pos d) (put_file i (opened flags status) v, s', m) ≡ (pos 0, (v, s, m))
  unfolding close_file
  close_opened v s s' m i d flags status clean hi free ready idle removed =
      let v1 = put_file i (opened flags status) v in
      let closed =
        close_last (pos d) (handle_of v i) (lock v1) s s' m i removed found
          (ap (λ (f : File). f.refcount) there) in
      unlocked v1 s' m (pos 0) (put_file i cleared_file (lock v1), s, m) (pos d) ready idle closed
      ∙ (λ j. (pos 0, (record v { file_table = back j; busy = sym idle j }, s, m)))
    where
      there : file_at (lock (put_file i (opened flags status) v)) i ≡ opened flags status
      there =
          get_or-set_self v.file_table i (opened flags status) cleared_file
            (omega (arith, clean.size))

      found : file_from_handle (handle_of v i) (lock (put_file i (opened flags status) v)) ≡ some i
      found = (file_from_handle_iff _ (handle_of v i) i).1 (hi, refl, ap is_open there)

      back : set (set v.file_table i (opened flags status)) i cleared_file ≡ v.file_table
      back =
          set-set v.file_table i (opened flags status) cleared_file
          ∙ subst (λ x. set v.file_table i x ≡ v.file_table) (clean.clear i free)
              (set-get_or v.file_table i cleared_file)

  -- On a file table of 32 slots whose unused slots are cleared, and a process table with the current
  -- process and its descriptors: if vfs_open returned a descriptor, vfs_close of it gives 0 and
  -- restores the open files and the descriptors; the file system is as vfs_open left it.
  pub close_file-open :
      (path : Option (List ℕ)) (flags d : ℕ) (v : Vfs) (s : Scheduler) (m : M.State) (w : World M)
      → IsClean v
      → HasFiles s
      → open_file M path flags (v, s, m) ≡ (pos d, w)
      → close_file M (pos d) w ≡ (pos 0, (v, s, w.2))
  close_file-open path flags d v s m w clean files e =
      let o = open_file-pos path flags d v s m w e in
      let r = o.descriptors in
      subst (λ x. close_file M (pos d) (x, w.1, w.2) ≡ (pos 0, (v, s, w.2))) (sym o.files)
        (close_opened v s w.1 w.2 o.slot d flags o.status clean o.slot_in o.was_unused o.ready
          o.not_busy
          (ap (fd_remove (pos d)) r.written
            ∙ fd_remove-put s files (handle_of v o.slot) d r.lower r.upper r.was_free))
