-- ===== src/Fs/MiniFs/Names/Unlink.antt =====
-- kernel/fs/minifs.c: unlink, what it checks of a directory, and how an inode is given back.
use mini_orange_os.Fs.MiniFs.InodeTable.{
  clear_inode_record, read_inode_internal, free_inode, write_inode_internal,
}
use mini_orange_os.Fs.MiniFs.Bytes.{read_le32, clear_bytes, copy_bytes}
use mini_orange_os.Fs.MiniFs.DataBlocks.{
  inode_block_at, free_block, auxiliary, on_failure, ignoring,
}
use mini_orange_os.Fs.MiniFs.Paths.{resolve_parent_locked, slice}
use mini_orange_os.Fs.MiniFs.Writing.{status_result, set_auxiliary}
use mini_orange_os.Fs.MiniFs.Directory.{
  directory_entry_unused, directory_name_valid, directory_find_internal, directory_name_equal,
}
use mini_orange_os.Errno.{eio, enotempty, enotdir}
use mini_orange_os.Fs.MiniFs.Command.{◌>>=◌, ok, ◌>>◌, pure, refuse_if, or_fail, fail}
use mini_orange_os.Fs.MiniFs.{
  Inode, divide_round_up, directory_entry_size, block_size, mode_directory, direct_count,
}
use mini_orange_os.Prelude.Int.{ℤ}
use mini_orange_os.Fs.MiniFs.Mounting.{FileSystem, locked}
use mini_orange_os.Fs.MiniFs.Volume.{
  Layout, Action, read_volume_block, buffer, read_volume_block_into, mounted, set_buffer,
  write_volume_block_from,
}
use mini_orange_os.Block.{Ata}
use mini_orange_os.Prelude.{
  ltb, leb, ◌==◌, if◌then◌else◌, get_or, add32, ℕ, zero, suc, ◌+◌, ◌-◌, ◌*◌, ◌/◌, ◌%◌, ◌||◌, not,
  Option, none, some, List, [], ◌∷◌,
}

module _ (A : Ata) (L : Layout) where
  -- What the loop of directory_empty_locked makes of an entry: `none` to go on, or the error.
  unfoldable pub entry_obstacle : List ℕ → ℕ → Option ℤ
  entry_obstacle block start =
      let entry_type = get_or block (start + 4) 0 in
      if entry_type == 0
      then (if directory_entry_unused block start then none else some eio)
      else if not (entry_type == 1 || entry_type == 2)
          || not (directory_name_valid block (start + 5))
      then some eio
      else if directory_name_equal block (start + 5) (b'.' ∷ [])
          || directory_name_equal block (start + 5) (b'.' ∷ b'.' ∷ [])
      then none
      else some enotempty

  unfoldable pub check_entries : ℕ → Inode → ℕ → Action A L (Unit {0})
  check_entries zero directory offset = pure tt
  check_entries (suc rounds) directory offset =
      let next = check_entries rounds directory (add32 offset directory_entry_size) in
      let body = (do
        disk_block ← or_fail (inode_block_at A L directory (offset / block_size)) eio
        or_fail (read_volume_block A L disk_block) eio
        bytes ← buffer A L
        elim (entry_obstacle bytes (offset % block_size)) [ none ↦ next | some e ↦ fail e ]) in
      if leb directory.size offset then pure tt else body

  unfoldable pub directory_empty_locked : Inode → Action A L (Unit {0})
  directory_empty_locked directory = do
    refuse_if (not (directory.mode == mode_directory)) enotdir
    check_entries (directory.size / directory_entry_size) directory 0

  -- The loop over the direct pointers, from `index` on.
  unfoldable pub free_direct_blocks : ℕ → ℕ → List ℕ → Action A L (Unit {0})
  free_direct_blocks zero index direct = pure tt
  free_direct_blocks (suc rounds) index direct = do
    or_fail (free_block A L (get_or direct index 0)) eio
    free_direct_blocks rounds (suc index) direct

  -- The loop over the pointers of the indirect block, which stands in compare_buffer.
  unfoldable pub free_indirect_blocks : ℕ → ℕ → List ℕ → Action A L (Unit {0})
  free_indirect_blocks zero index pointers = pure tt
  free_indirect_blocks (suc rounds) index pointers = do
    or_fail (free_block A L (read_le32 pointers (index * 4))) eio
    free_indirect_blocks rounds (suc index) pointers

  abbrev pub compare_bytes : Action A L (List ℕ)
  compare_bytes v = ok v.compare_buffer v

  abbrev pub set_compare : List ℕ → Action A L (Unit {0})
  set_compare bytes v = ok tt (record v { compare_buffer = bytes })

  unfoldable pub release_inode_locked : ℕ → Inode → Action A L (Unit {0})
  release_inode_locked inode_number inode = do
    let blocks = divide_round_up inode.size block_size
    let load = (do
      bytes ← or_fail (read_volume_block_into A L inode.indirect) eio
      set_compare bytes)
    if ltb direct_count blocks then load else pure tt
    free_direct_blocks (if ltb direct_count blocks then direct_count else blocks) 0 inode.direct
    pointers ← compare_bytes
    free_indirect_blocks (blocks - direct_count) 0 pointers
    if inode.indirect == 0 then pure tt else or_fail (free_block A L inode.indirect) eio
    or_fail (clear_inode_record A L inode_number) eio
    or_fail (free_inode A L inode_number) eio

  -- The bytes of an entry of the buffer, saved in auxiliary_block.
  unfoldable pub save_entry : ℕ → Action A L (Unit {0})
  save_entry start = do
    bytes ← buffer A L
    saved ← auxiliary A L
    set_auxiliary A L (copy_bytes saved 0 (slice directory_entry_size start bytes))

  -- What is done if the parent cannot be written: the entry is put back.
  unfoldable pub restore_entry : ℕ → ℕ → Action A L (Unit {0})
  restore_entry disk_block start =
      let restore = (do
        read_volume_block A L disk_block
        bytes ← buffer A L
        saved ← auxiliary A L
        set_buffer A L (copy_bytes bytes start (slice directory_entry_size 0 saved))
        changed ← buffer A L
        write_volume_block_from A L disk_block changed) in
      ignoring A L restore

  unfoldable pub unlink_locked : Option (List ℕ) → Action A L (Unit {0})
  unlink_locked path = do
    parent ← resolve_parent_locked A L path
    entry ← directory_find_internal A L parent.directory parent.name
    s ← mounted A L
    refuse_if (entry.inode == s.root_inode) eio
    inode ← or_fail (read_inode_internal A L entry.inode) eio
    let check = (do directory_empty_locked inode; refuse_if (parent.directory.link_count == 0) eio)
    if inode.mode == mode_directory then check else pure tt
    let start = entry.offset % block_size
    disk_block ← or_fail (inode_block_at A L parent.directory (entry.offset / block_size)) eio
    or_fail (read_volume_block A L disk_block) eio
    save_entry start
    bytes ← buffer A L
    set_buffer A L (clear_bytes bytes start directory_entry_size)
    changed ← buffer A L
    or_fail (write_volume_block_from A L disk_block changed) eio
    let fewer = record (parent.directory) { link_count = parent.directory.link_count - 1 }
    let store =
        on_failure A L (write_inode_internal A L parent.number fewer)
          (restore_entry disk_block start) eio
    if inode.mode == mode_directory then store else pure tt
    release_inode_locked entry.inode inode

  unfoldable pub minifs_unlink : Option (List ℕ) → FileSystem A L → ℤ × FileSystem A L
  minifs_unlink path fs =
      if not fs.is_mounted
      then (eio, fs)
      else status_result A L (locked A L (unlink_locked path) fs)
