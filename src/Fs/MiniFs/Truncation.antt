-- ===== src/Fs/MiniFs/Truncation.antt =====
-- kernel/fs/minifs.c: truncate_locked.
use mini_orange_os.Fs.MiniFs.Writing.{status_result, set_auxiliary}
use mini_orange_os.Fs.MiniFs.InodeTable.{read_inode_internal, write_inode_internal}
use mini_orange_os.Errno.{einval, eio, eisdir}
use mini_orange_os.Fs.MiniFs.Names.Unlink.{
  free_direct_blocks, compare_bytes, free_indirect_blocks, set_compare,
}
use mini_orange_os.Prelude.Int.{ℤ}
use mini_orange_os.Fs.MiniFs.Command.{◌>>=◌, ◌>>◌, or_fail, pure, refuse_if}
use mini_orange_os.Fs.MiniFs.Mounting.{FileSystem, locked}
use mini_orange_os.Fs.MiniFs.Volume.{
  Layout, Action, read_volume_block_into, write_volume_block_from,
}
use mini_orange_os.Fs.MiniFs.{
  direct_count, Inode, divide_round_up, block_size, max_file_size, mode_directory,
}
use mini_orange_os.Fs.MiniFs.Bytes.{write_le32}
use mini_orange_os.Block.{Ata}
use mini_orange_os.Fs.MiniFs.DataBlocks.{auxiliary, ignoring, free_block, on_failure}
use mini_orange_os.Prelude.{
  ltb, leb, ◌==◌, if◌then◌else◌, set, ℕ, zero, suc, ◌-◌, ◌*◌, min, Bool, true, false, ◌&&◌, ◌||◌,
  not, List,
}

-- The loop that clears pointers of the indirect block.
unfoldable pub clear_pointers : ℕ → ℕ → List ℕ → List ℕ
clear_pointers zero index pointers = pointers
clear_pointers (suc rounds) index pointers =
    clear_pointers rounds (suc index) (write_le32 pointers (index * 4) 0)

-- The loop that clears direct pointers.
unfoldable pub clear_direct : ℕ → ℕ → List ℕ → List ℕ
clear_direct zero index direct = direct
clear_direct (suc rounds) index direct = clear_direct rounds (suc index) (set direct index 0)

-- index < old_blocks && index < MINIFS_DIRECT_COUNT, from new_blocks on: the rounds.
abbrev pub direct_rounds : ℕ → ℕ → ℕ
direct_rounds old_blocks new_blocks = min old_blocks direct_count - new_blocks

-- first = new_blocks, or MINIFS_DIRECT_COUNT if it is less.
abbrev pub first_indirect : ℕ → ℕ
first_indirect new_blocks = if ltb new_blocks direct_count then direct_count else new_blocks

module _ (A : Ata) (L : Layout) where
  -- `if (condition) command;`
  abbrev pub when : Bool → Action A L (Unit {0}) → Action A L (Unit {0})
  when true m = m
  when false m = pure tt

  -- The indirect block as it was, in both buffers.
  unfoldable pub load_pointers : ℕ → Action A L (Unit {0})
  load_pointers indirect = do
    bytes ← or_fail (read_volume_block_into A L indirect) eio
    set_auxiliary A L bytes
    pointers ← auxiliary A L
    set_compare A L pointers

  -- The pointers behind the new size, cleared on the disk.
  unfoldable pub cut_pointers : ℕ → ℕ → ℕ → Action A L (Unit {0})
  cut_pointers indirect old_blocks new_blocks = do
    pointers ← auxiliary A L
    set_auxiliary A L
        (clear_pointers (old_blocks - new_blocks) (new_blocks - direct_count) pointers)
    changed ← auxiliary A L
    or_fail (write_volume_block_from A L indirect changed) eio

  -- The inode of the new size.
  unfoldable pub truncated_inode : Inode → ℕ → ℕ → ℕ → Inode
  truncated_inode inode old_blocks new_blocks new_size = record inode {
    size = new_size;
    direct = clear_direct (direct_rounds old_blocks new_blocks) new_blocks inode.direct;
    indirect = if ltb direct_count new_blocks then inode.indirect else 0;
  }

  -- The blocks behind the new size, given back.
  unfoldable pub release_tail : Inode → ℕ → ℕ → Action A L (Unit {0})
  release_tail old_inode old_blocks new_blocks = do
    free_direct_blocks A L (direct_rounds old_blocks new_blocks) new_blocks old_inode.direct
    pointers ← compare_bytes A L
    let first = first_indirect new_blocks
    free_indirect_blocks A L (old_blocks - first) (first - direct_count) pointers
    when (ltb direct_count old_blocks && leb new_blocks direct_count)
        (or_fail (free_block A L old_inode.indirect) eio)

  unfoldable pub shrink_inode : ℕ → Inode → ℕ → Action A L (Unit {0})
  shrink_inode inode_number inode new_size = do
    let old_blocks = divide_round_up inode.size block_size
    let new_blocks = divide_round_up new_size block_size
    when (not (inode.indirect == 0)) (load_pointers inode.indirect)
    when (ltb direct_count new_blocks) (cut_pointers inode.indirect old_blocks new_blocks)
    saved ← compare_bytes A L
    let restore =
        when (ltb direct_count new_blocks)
          (ignoring A L (write_volume_block_from A L inode.indirect saved))
    on_failure A L
        (write_inode_internal A L inode_number
          (truncated_inode inode old_blocks new_blocks new_size))
        restore eio
    release_tail inode old_blocks new_blocks

  unfoldable pub truncate_locked : ℕ → ℕ → Action A L (Unit {0})
  truncate_locked inode_number new_size = do
    inode ← or_fail (read_inode_internal A L inode_number) eio
    refuse_if (inode.mode == mode_directory) eisdir
    refuse_if (ltb inode.size new_size) einval
    if new_size == inode.size then pure tt else shrink_inode inode_number inode new_size

  unfoldable pub minifs_truncate : ℕ → ℕ → FileSystem A L → ℤ × FileSystem A L
  minifs_truncate inode_number new_size fs =
      if not fs.is_mounted || ltb max_file_size new_size
      then (einval, fs)
      else status_result A L (locked A L (truncate_locked inode_number new_size) fs)
