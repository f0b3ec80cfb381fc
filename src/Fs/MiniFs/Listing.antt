-- ===== src/Fs/MiniFs/Listing.antt =====
-- kernel/fs/minifs.c: minifs_readdir, and the operations that the VFS calls, as the record MiniFs.
use mini_orange_os.Fs.MiniFs.Names.Unlink.{minifs_unlink}
use mini_orange_os.Fs.MiniFs.Truncation.{minifs_truncate}
use mini_orange_os.Fs.MiniFs.DataBlocks.{inode_block_at}
use mini_orange_os.Fs.MiniFs.Writing.{minifs_write}
use mini_orange_os.Fs.MiniFs.Directory.{directory_name_valid, directory_entry_unused}
use mini_orange_os.Fs.MiniFs.Files.{minifs_read}
use mini_orange_os.Fs.MiniFs.Names.{minifs_create, minifs_mkdir}
use mini_orange_os.Errno.{einval, enotdir, eio}
use mini_orange_os.Fs.MiniFs.InodeTable.{read_inode_internal}
use mini_orange_os.Fs.MiniFs.Command.{◌>>=◌, pure, ◌>>◌, refuse_if, or_fail, fail}
use mini_orange_os.Fs.MiniFs.Bytes.{read_le32}
use mini_orange_os.Prelude.Int.{ℤ, pos}
use mini_orange_os.Fs.Interface.{MiniFs, Dirent, Stat, mode_directory, mode_regular}
use mini_orange_os.Fs.MiniFs.{Inode, directory_entry_size, block_size, name_max}
use mini_orange_os.Fs.MiniFs.Mounting.{FileSystem, minifs_lookup, locked, minifs_stat_inode}
use mini_orange_os.Fs.MiniFs.Volume.{Layout, Action, read_volume_block, buffer}
use mini_orange_os.Block.{Ata}
use mini_orange_os.Prelude.{
  leb, ◌==◌, if◌then◌else◌, length, get_or, add32, ℕ, zero, suc, ◌+◌, ◌/◌, ◌%◌, ◌&&◌, ◌||◌, not,
  Option, none, some, List, [], ◌∷◌,
}

-- The bytes of a name before its terminator, 58 at most.
unfoldable pub name_prefix : ℕ → List ℕ → ℕ → List ℕ
name_prefix zero block start = []
name_prefix (suc rounds) block start =
    let rest = get_or block start 0 ∷ name_prefix rounds block (suc start) in
    if get_or block start 0 == 0 then [] else rest

module _ (A : Ata) (L : Layout) where
  -- An entry in use, read from the bytes of its block.
  unfoldable pub listed_entry : List ℕ → ℕ → Action A L Dirent
  listed_entry block start = do
    let entry_type = get_or block (start + 4) 0
    let child_number = read_le32 block start
    refuse_if
        (not (entry_type == 1 || entry_type == 2) || not (directory_name_valid block (start + 5)))
        eio
    child ← or_fail (read_inode_internal A L child_number) eio
    refuse_if
        ((entry_type == 2 && not (child.mode == mode_directory))
          || (entry_type == 1 && not (child.mode == mode_regular)))
        eio
    let name = name_prefix name_max block (start + 5)
    pure
        (record { inode = child_number; mode = child.mode; name_length = length name; name = name })

  -- The test for an unused entry.
  abbrev visit_entry :
      List ℕ
      → ℕ
      → Action A L (ℕ × Option Dirent)
      → Action A L (ℕ × Option Dirent)
      → Action A L (ℕ × Option Dirent)
  visit_entry block start next listed =
      if not (get_or block (start + 4) 0 == 0)
      then listed
      else if directory_entry_unused block start
      then next
      else fail eio

  -- The loop of minifs_readdir: the cursor and the entry, if there is one.
  unfoldable pub readdir_rounds : ℕ → Inode → ℕ → Action A L (ℕ × Option Dirent)
  readdir_rounds zero directory cursor = pure (cursor, none)
  readdir_rounds (suc rounds) directory cursor =
      let after_entry = add32 cursor directory_entry_size in
      let start = cursor % block_size in
      let next = readdir_rounds rounds directory after_entry in
      let body = (do
        disk_block ← or_fail (inode_block_at A L directory (cursor / block_size)) eio
        or_fail (read_volume_block A L disk_block) eio
        block ← buffer A L
        let listed = (do entry ← listed_entry block start; pure (after_entry, some entry))
        visit_entry block start next listed) in
      if leb directory.size cursor then pure (cursor, none) else body

  unfoldable pub readdir_locked : ℕ → ℕ → Action A L (ℕ × Option Dirent)
  readdir_locked inode_number cursor = do
    directory ← read_inode_internal A L inode_number
    refuse_if (not (directory.mode == mode_directory)) enotdir
    readdir_rounds (directory.size / directory_entry_size) directory cursor

  abbrev no_stat : Stat
  no_stat = record { inode = 0; mode = 0; link_count = 0; size = 0 }

  abbrev no_entry : Dirent
  no_entry = record { inode = 0; mode = 0; name_length = 0; name = [] }

  abbrev readdir_result :
      ℕ → ℤ × Option (ℕ × Option Dirent) × FileSystem A L → ℤ × ℕ × Dirent × FileSystem A L
  readdir_result offset (e, none, fs) = (e, offset, no_entry, fs)
  readdir_result offset (e, some (cursor, none), fs) = (pos 0, cursor, no_entry, fs)
  readdir_result offset (e, some (cursor, some entry), fs) = (pos 1, cursor, entry, fs)

  -- minifs_readdir with pointers that are not NULL; what it does not store is zero here.
  unfoldable pub minifs_readdir : ℕ → ℕ → FileSystem A L → ℤ × ℕ × Dirent × FileSystem A L
  minifs_readdir inode_number offset fs =
      if not fs.is_mounted || not (offset % directory_entry_size == 0)
      then (einval, offset, no_entry, fs)
      else readdir_result offset (locked A L (readdir_locked inode_number offset) fs)

  abbrev stat_result : ℤ × Option Stat × FileSystem A L → ℤ × Stat × FileSystem A L
  stat_result (e, none, fs) = (e, no_stat, fs)
  stat_result (e, some s, fs) = (e, s, fs)

  -- What the VFS calls, by this file system.
  abbrev pub minifs_operations : MiniFs
  minifs_operations = record {
    State = FileSystem A L;
    lookup = λ path fs. stat_result (minifs_lookup A L path fs);
    create = λ path fs. stat_result (minifs_create A L path fs);
    read = λ inode offset len fs. minifs_read A L inode offset len fs;
    write = λ inode offset source fs. minifs_write A L inode offset source fs;
    stat_inode = λ inode fs. stat_result (minifs_stat_inode A L inode fs);
    truncate = λ inode size fs. minifs_truncate A L inode size fs;
    mkdir = λ path fs. minifs_mkdir A L path fs;
    unlink = λ path fs. minifs_unlink A L path fs;
    readdir = λ inode offset fs. minifs_readdir inode offset fs;
  }
