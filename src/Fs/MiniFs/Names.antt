-- ===== src/Fs/MiniFs/Names.antt =====
-- kernel/fs/minifs.c: the operations that create and remove names. A local inode that a function
-- changes is a value here.
pub mod Unlink
use mini_orange_os.Fs.MiniFs.InodeTable.{
  clear_inode_record, allocate_inode, free_inode, write_inode_internal,
}
use mini_orange_os.Fs.MiniFs.Writing.{status_result, write_chunk_locked}
use mini_orange_os.Errno.{eio, eexist, einval, is_enoent, enospc}
use mini_orange_os.Fs.MiniFs.Paths.{resolve_parent_locked, stat_of}
use mini_orange_os.Fs.MiniFs.DataBlocks.{
  ignoring, inode_block_at, cleaning_up, on_failure, allocate_block, free_block,
}
use mini_orange_os.Fs.MiniFs.Inodes.{clear_inode}
use mini_orange_os.Prelude.Int.{ℤ}
use mini_orange_os.Fs.Interface.{Stat, mode_directory}
use mini_orange_os.Fs.MiniFs.Bytes.{clear_bytes}
use mini_orange_os.Fs.MiniFs.{directory_entry_size, Inode, block_size, name_max, max_file_size}
use mini_orange_os.Fs.MiniFs.Command.{Outcome, ◌>>=◌, ◌>>◌, pure, ok, or_fail, refuse_if, failed}
use mini_orange_os.Fs.MiniFs.Mounting.{FileSystem, locked}
use mini_orange_os.Fs.MiniFs.Directory.{
  encode_directory_entry, directory_find, directory_entry_unused,
}
use mini_orange_os.Fs.MiniFs.Volume.{
  Layout, Action, Volume, read_volume_block, buffer, set_buffer, write_volume_block_from,
}
use mini_orange_os.Block.{Ata}
use mini_orange_os.Prelude.{
  ltb, leb, ◌==◌, if◌then◌else◌, length, set, replicate, add32, ℕ, zero, suc, ◌+◌, ◌-◌, ◌*◌, ◌/◌,
  ◌%◌, ◌&&◌, ◌||◌, not, Option, none, List, [], ◌∷◌,
}

module _ (A : Ata) (L : Layout) where
  -- The loop of directory_append_locked: the offset of the first unused entry, or the size. `rounds` is
  -- the number of entries left.
  unfoldable pub find_unused_entry : ℕ → Inode → ℕ → Action A L ℕ
  find_unused_entry zero directory offset = pure offset
  find_unused_entry (suc rounds) directory offset =
      let next = find_unused_entry rounds directory (add32 offset directory_entry_size) in
      let body = (do
        disk_block ← or_fail (inode_block_at A L directory (offset / block_size)) eio
        or_fail (read_volume_block A L disk_block) eio
        bytes ← buffer A L
        if directory_entry_unused bytes (offset % block_size) then pure offset else next) in
      if leb directory.size offset then pure offset else body

  -- The entry in a buffer of its own.
  unfoldable pub fresh_entry : ℕ → ℕ → List ℕ → List ℕ
  fresh_entry child_number entry_type name =
      encode_directory_entry child_number entry_type name 0 (replicate directory_entry_size 0)

  abbrev empty_entry : List ℕ
  empty_entry = replicate directory_entry_size 0

  -- The inode of the directory with a link more, for a new child directory.
  abbrev with_link : ℕ → Inode → Inode
  with_link entry_type directory =
      if entry_type == 2
      then record directory { link_count = directory.link_count + 1 }
      else directory

  -- directory_append_locked; it returns the changed inode of the directory.
  unfoldable pub directory_append_locked : ℕ → Inode → ℕ → ℕ → List ℕ → Action A L Inode
  directory_append_locked directory_number directory child_number entry_type name = do
    refuse_if
        (length name == 0
          || ltb name_max (length name)
          || not (entry_type == 1 || entry_type == 2)
          || ltb (max_file_size - directory_entry_size) directory.size)
        einval
    offset ← find_unused_entry (directory.size / directory_entry_size) directory 0
    refuse_if (entry_type == 2 && directory.link_count == 0xFFFF) enospc
    changed ←
        write_chunk_locked A L directory_number (with_link entry_type directory) offset
          (fresh_entry child_number entry_type name)
    let erase = ignoring A L (write_chunk_locked A L directory_number changed offset empty_entry)
    let store = on_failure A L (write_inode_internal A L directory_number changed) erase eio
    if not (offset == directory.size) && entry_type == 2 then store else pure tt
    pure changed

  unfoldable pub rollback_created_inode : ℕ → Action A L (Unit {0})
  rollback_created_inode inode_number = do
    ignoring A L (clear_inode_record A L inode_number)
    ignoring A L (free_inode A L inode_number)

  -- `result == -MINIOS_ENOENT` after the search for a new name.
  abbrev free_name : Outcome (Volume A L) ℕ → Outcome (Volume A L) (Unit {0})
  free_name (ok found w) = failed eexist w
  free_name (failed e w) = if is_enoent e then ok tt w else failed e w

  unfoldable pub require_free_name : Inode → List ℕ → Action A L (Unit {0})
  require_free_name directory name v = free_name (directory_find A L directory name v)

  unfoldable pub create_locked : Option (List ℕ) → Action A L Stat
  create_locked path = do
    parent ← resolve_parent_locked A L path
    require_free_name parent.directory parent.name
    inode_number ← allocate_inode A L
    on_failure A L (write_inode_internal A L inode_number clear_inode)
        (rollback_created_inode inode_number) eio
    cleaning_up A L
        (directory_append_locked parent.number parent.directory inode_number 1 parent.name)
        (rollback_created_inode inode_number)
    pure (stat_of A L inode_number clear_inode)

  -- The inode of a new directory.
  abbrev pub new_directory : ℕ → Inode
  new_directory data_block = record clear_inode {
    mode = mode_directory;
    link_count = 2;
    size = 2 * directory_entry_size;
    direct = set clear_inode.direct 0 data_block;
  }

  -- Its first block, with the entries `.` and `..`.
  unfoldable pub directory_block : ℕ → ℕ → List ℕ → List ℕ
  directory_block inode_number parent_number bytes =
      encode_directory_entry parent_number 2 (b'.' ∷ b'.' ∷ []) directory_entry_size
        (encode_directory_entry inode_number 2 (b'.' ∷ []) 0 (clear_bytes bytes 0 block_size))

  unfoldable pub mkdir_locked : Option (List ℕ) → Action A L (Unit {0})
  mkdir_locked path = do
    parent ← resolve_parent_locked A L path
    require_free_name parent.directory parent.name
    inode_number ← allocate_inode A L
    data_block ← cleaning_up A L (allocate_block A L) (ignoring A L (free_inode A L inode_number))
    let undo = ignoring A L (free_block A L data_block) >> rollback_created_inode inode_number
    bytes ← buffer A L
    set_buffer A L (directory_block inode_number parent.number bytes)
    changed ← buffer A L
    on_failure A L
        (write_volume_block_from A L data_block changed
          >> write_inode_internal A L inode_number (new_directory data_block))
        undo eio
    cleaning_up A L
        (directory_append_locked parent.number parent.directory inode_number 2 parent.name) undo
    pure tt

  unfoldable pub minifs_create : Option (List ℕ) → FileSystem A L → ℤ × Option Stat × FileSystem A L
  minifs_create path fs =
      if not fs.is_mounted then (eio, none, fs) else locked A L (create_locked path) fs

  unfoldable pub minifs_mkdir : Option (List ℕ) → FileSystem A L → ℤ × FileSystem A L
  minifs_mkdir path fs =
      if not fs.is_mounted then (eio, fs) else status_result A L (locked A L (mkdir_locked path) fs)
