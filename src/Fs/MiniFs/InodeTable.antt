-- ===== src/Fs/MiniFs/InodeTable.antt =====
-- kernel/fs/minifs.c: inodes in the table on the volume.
pub mod Store
pub mod Laws
use mini_orange_os.Fs.MiniFs.Bytes.{clear_bytes}
use mini_orange_os.Fs.MiniFs.Inodes.{inode_pointer_shape_valid, decode_inode, encode_inode}
use mini_orange_os.Errno.{eio, einval}
use mini_orange_os.Fs.MiniFs.Command.{fail, ◌>>=◌, ok, failed, ◌>>◌, pure, refuse_if, or_fail}
use mini_orange_os.Fs.MiniFs.{Inode, inodes_per_block, inode_size}
use mini_orange_os.Prelude.Int.{ℤ}
use mini_orange_os.Fs.MiniFs.Volume.{
  Layout, Action, bitmap_bit_set, mounted, allocate_bitmap_bit, bitmap_update, buffer, set_buffer,
  read_volume_block, write_volume_block_from,
}
use mini_orange_os.Block.{Ata}
use mini_orange_os.Prelude.{
  leb, ◌==◌, if◌then◌else◌, add32, ℕ, ◌*◌, ◌/◌, ◌%◌, false, ◌||◌, not, Option, none, some,
}

module _ (A : Ata) (L : Layout) where
  -- A pointer to an inode that is not NULL is the inode. decode_inode's false is an error.
  abbrev pub checked_inode : Option Inode → Action A L Inode
  checked_inode none = fail eio
  checked_inode (some inode) = if inode_pointer_shape_valid inode then pure inode else fail eio

  -- bitmap_bit_set, as a condition that fails.
  abbrev pub require_bit : ℕ → ℕ → ℕ → ℤ → Action A L (Unit {0})
  require_bit start count bit e v =
      let (present, w) = bitmap_bit_set A L start count bit v in
      if present then ok tt w else failed e w

  -- The block of the table that holds an inode, brought into the buffer.
  unfoldable pub load_table_block : ℕ → Action A L (Unit {0})
  load_table_block number = do
    s ← mounted A L
    refuse_if (leb s.inode_table_blocks (number / inodes_per_block)) eio
    or_fail (read_volume_block A L (add32 s.inode_table_start (number / inodes_per_block))) eio

  unfoldable pub read_inode_internal : ℕ → Action A L Inode
  read_inode_internal number = do
    s ← mounted A L
    refuse_if (leb s.total_inodes number) einval
    require_bit s.inode_bitmap_start s.inode_bitmap_blocks number eio
    load_table_block number
    bytes ← buffer A L
    checked_inode (decode_inode bytes (number % inodes_per_block * inode_size))

  unfoldable pub write_inode_internal : ℕ → Inode → Action A L (Unit {0})
  write_inode_internal number inode = do
    s ← mounted A L
    refuse_if (leb s.total_inodes number || not (inode_pointer_shape_valid inode)) einval
    load_table_block number
    bytes ← buffer A L
    set_buffer A L (encode_inode inode (number % inodes_per_block * inode_size) bytes)
    changed ← buffer A L
    write_volume_block_from A L (add32 s.inode_table_start (number / inodes_per_block)) changed

  unfoldable pub allocate_inode : Action A L ℕ
  allocate_inode = do
    s ← mounted A L
    allocate_bitmap_bit A L s.inode_bitmap_start s.inode_bitmap_blocks 1 s.total_inodes

  unfoldable pub free_inode : ℕ → Action A L (Unit {0})
  free_inode inode_number = do
    s ← mounted A L
    refuse_if (inode_number == s.root_inode || leb s.total_inodes inode_number) einval
    bitmap_update A L s.inode_bitmap_start s.inode_bitmap_blocks inode_number false

  unfoldable pub clear_inode_record : ℕ → Action A L (Unit {0})
  clear_inode_record inode_number = do
    s ← mounted A L
    refuse_if (inode_number == s.root_inode || leb s.total_inodes inode_number) einval
    load_table_block inode_number
    bytes ← buffer A L
    set_buffer A L (clear_bytes bytes (inode_number % inodes_per_block * inode_size) inode_size)
    changed ← buffer A L
    write_volume_block_from A L (add32 s.inode_table_start (inode_number / inodes_per_block))
        changed
