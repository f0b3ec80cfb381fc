-- ===== src/Fs/Composed.antt =====
-- kernel/fs/vfs.c above kernel/fs/minifs.c: vfs_read with the file system it is built with.
use mini_orange_os.Errno.{einval, eagain}
use mini_orange_os.Fs.MiniFs.Files.Reading.{minifs_read_lem}
use mini_orange_os.Fs.MiniFs.Files.Pointers.{IsIntact, available, file_byte}
use mini_orange_os.Fs.MiniFs.Inodes.{inode_pointer_shape_valid}
use mini_orange_os.Fs.MiniFs.InodeTable.Store.{IsMounted, inode_present, entry_of}
use mini_orange_os.Proc.Scheduler.Files.{fd_get}
use mini_orange_os.Fs.MiniFs.{Inode}
use mini_orange_os.Fs.MiniFs.Mounting.{FileSystem}
use mini_orange_os.Proc.Scheduler.{Scheduler}
use mini_orange_os.Fs.Vfs.{Vfs, file_from_handle, file_readable, file_at, put_file}
use mini_orange_os.Fs.MiniFs.Volume.{Layout}
use mini_orange_os.Block.RoundTrip.{Disk}
use mini_orange_os.Block.{Ata}
use mini_orange_os.Fs.MiniFs.Listing.{minifs_operations}
use mini_orange_os.Fs.Vfs.Step.{read_locked, read_file, advanced, lock, release}
use mini_orange_os.Prelude.Int.{ℤ, pos}
use mini_orange_os.Prelude.{
  ◌==◌, if◌then◌else◌, get_or, ℕ, ◌+◌, ◌<◌, ◌≡◌, refl, ◌∙◌, Bool, true, false, ◌&&◌, ◌||◌, not,
  some, List, [], arith,
}

module _ (A : Ata) (D : Disk A) (L : Layout) where
  handle_lock :
      (handle : ℕ) (v : Vfs) → file_from_handle handle (lock v) ≡ file_from_handle handle v
  unfolding file_from_handle
  handle_lock handle v = refl

  chosen :
      {T : Type 0} (a b : Bool) (x y z : T)
      → a ≡ false
      → b ≡ false
      → (if a then x else if b then y else z) ≡ z
  chosen a b x y z ea eb = rw (ea, eb) refl

  -- On an initialized VFS whose lock is free, above a mounted MiniFS whose lock is free: vfs_read with a
  -- descriptor of an open file that is readable and no directory, whose inode is present, has pointers of
  -- the shape of its size and blocks that are all in use, returns the bytes of the file from the offset
  -- of the open file on, as many as there are up to the length asked for; and it moves that offset on by
  -- their number and changes no other open file and nothing of the scheduler.
  pub read_file-minifs_operations :
      (descriptor : ℤ) (len i : ℕ) (v : Vfs) (s : Scheduler) (fs : FileSystem A L) (inode : Inode)
      → v.initialized ≡ true
      → v.busy ≡ false
      → file_from_handle (fd_get descriptor s) v ≡ some i
      → file_readable (file_at v i) ≡ true
      → ((file_at v i).mode == 2) ≡ false
      → fs.is_mounted ≡ true
      → fs.operation_busy ≡ false
      → IsMounted A D L fs.volume
      → (file_at v i).inode < fs.volume.superblock.total_inodes
      → inode_present A D L fs.volume (file_at v i).inode ≡ true
      → entry_of A D L fs.volume (file_at v i).inode ≡ some inode
      → inode_pointer_shape_valid inode ≡ true
      → (inode.mode == 2) ≡ false
      → IsIntact A D L fs.volume inode
      → (out : List ℕ) × (fs' : FileSystem A L) × (read_file
            (minifs_operations A L)
            descriptor
            true
            len
            (v, s, fs)
          ≡ (
            (pos (available inode.size (file_at v i).offset len), out),
            (
              put_file i
                  (advanced (pos (available inode.size (file_at v i).offset len)) (file_at v i))
                  (release v),
              s,
              fs',
            ),
          ))
        × ((k : ℕ)
            → k < available inode.size (file_at v i).offset len
            → get_or out k 0 ≡ file_byte A D L fs.volume inode ((file_at v i).offset + k))
  unfolding read_file read_locked
  read_file-minifs_operations descriptor len i v s fs inode ready idle opened readable file on free
        M known present stored shape regular I =
      let f = file_at v i in
      let (out, fs', read, count, content, unlocked) =
        minifs_read_lem A D L fs f.inode inode f.offset len on free M known present stored shape
          regular I in
      let opened' : file_from_handle (fd_get descriptor s) (lock v) ≡ some i =
        handle_lock (fd_get descriptor s) v ∙ opened in
      let n = available inode.size f.offset len in
      let inner : read_locked (minifs_operations A L) descriptor len (lock v, s, fs)
          ≡ ((pos n, out), (put_file i (advanced (pos n) f) (lock v), s, fs')) =
        rw (opened', read_locked) (rw (read, readable, file) refl) in
      let outer =
        chosen (not v.initialized || (not true && not (len == 0))) v.busy ((einval, []), (v, s, fs))
          ((eagain, []), (v, s, fs)) _ (ground arith) idle in
      (
        out,
        fs',
        outer ∙ (λ t. ((inner t).0, (release ((inner t).1.0), (inner t).1.1, (inner t).1.2))),
        content,
      )
