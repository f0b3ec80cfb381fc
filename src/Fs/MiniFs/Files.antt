-- ===== src/Fs/MiniFs/Files.antt =====
-- kernel/fs/minifs.c: minifs_read. The bytes that it stores are returned with its result.
pub mod Pointers
pub mod Reading
use mini_orange_os.Fs.MiniFs.Paths.{slice}
use mini_orange_os.Fs.MiniFs.DataBlocks.{inode_block_at}
use mini_orange_os.Fs.MiniFs.InodeTable.{read_inode_internal}
use mini_orange_os.Errno.{einval, eio, eisdir}
use mini_orange_os.Fs.MiniFs.Command.{◌>>=◌, pure, ◌>>◌, or_fail, refuse_if}
use mini_orange_os.Prelude.Int.{ℤ, pos}
use mini_orange_os.Fs.MiniFs.{Inode, block_size, mode_directory}
use mini_orange_os.Fs.MiniFs.Mounting.{FileSystem, locked}
use mini_orange_os.Fs.MiniFs.Volume.{Layout, Action, read_volume_block, buffer}
use mini_orange_os.Block.{Ata}
use mini_orange_os.Prelude.{
  ltb, leb, ◌==◌, if◌then◌else◌, length, add32, ℕ, zero, suc, ◌+◌, ◌-◌, ◌/◌, ◌%◌, ◌||◌, not, Option,
  none, some, List, [], ◌++◌,
}

module _ (A : Ata) (L : Layout) where
  -- The loop of minifs_read: what it stores from `completed` on. A round reads at least one byte, so
  -- that as many rounds as bytes are enough.
  unfoldable pub read_rounds : ℕ → Inode → ℕ → ℕ → ℕ → Action A L (List ℕ)
  read_rounds zero inode offset len completed = pure []
  read_rounds (suc rounds) inode offset len completed =
      let position = add32 offset completed in
      let block_offset = position % block_size in
      let space = block_size - block_offset in
      let chunk = if ltb (len - completed) space then len - completed else space in
      let body = (do
        disk_block ← or_fail (inode_block_at A L inode (position / block_size)) eio
        or_fail (read_volume_block A L disk_block) eio
        bytes ← buffer A L
        rest ← read_rounds rounds inode offset len (completed + chunk)
        pure (slice chunk block_offset bytes ++ rest)) in
      if leb len completed then pure [] else body

  -- minifs_read behind the lock.
  unfoldable pub read_locked : ℕ → ℕ → ℕ → Action A L (List ℕ)
  read_locked inode_number offset len = do
    inode ← read_inode_internal A L inode_number
    refuse_if (inode.mode == mode_directory) eisdir
    let rest = inode.size - offset
    let wanted = if ltb rest len then rest else len
    if leb inode.size offset || len == 0 then pure [] else read_rounds wanted inode offset wanted 0

  abbrev read_result : ℤ × Option (List ℕ) × FileSystem A L → ℤ × List ℕ × FileSystem A L
  read_result (e, none, fs) = (e, [], fs)
  read_result (e, some bytes, fs) = (pos (length bytes), bytes, fs)

  -- minifs_read with a buffer that is not NULL; the result is the number of bytes.
  unfoldable pub minifs_read : ℕ → ℕ → ℕ → FileSystem A L → ℤ × List ℕ × FileSystem A L
  minifs_read inode_number offset len fs =
      if not fs.is_mounted
      then (einval, [], fs)
      else read_result (locked A L (read_locked inode_number offset len) fs)
