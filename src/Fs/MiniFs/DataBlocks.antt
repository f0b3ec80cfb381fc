-- ===== src/Fs/MiniFs/DataBlocks.antt =====
-- kernel/fs/minifs.c: the blocks that hold the contents of files, and where a file's blocks are.
pub mod Store
use mini_orange_os.Errno.{einval, eio}
use mini_orange_os.Fs.MiniFs.Bytes.{clear_bytes, read_le32}
use mini_orange_os.Fs.MiniFs.Command.{
  ◌>>◌, ◌>>=◌, ok, failed, refuse_if, after, pure, or_fail, Outcome,
}
use mini_orange_os.Prelude.Int.{ℤ}
use mini_orange_os.Fs.MiniFs.Volume.{
  Layout, Action, Volume, bitmap_bit_set, mounted, allocate_bitmap_bit, bitmap_update,
  write_volume_block_from, read_volume_block, buffer,
}
use mini_orange_os.Block.{Ata}
use mini_orange_os.Fs.MiniFs.{
  Superblock, Inode, direct_count, divide_round_up, block_size, indirect_count,
}
use mini_orange_os.Prelude.{
  ltb, leb, if◌then◌else◌, get_or, ℕ, ◌-◌, ◌*◌, Bool, false, ◌&&◌, not, List,
}

unfoldable pub data_block_valid : Superblock → ℕ → Bool
data_block_valid s block = leb s.data_start block && ltb block s.total_blocks

module _ (A : Ata) (L : Layout) where
  unfoldable pub data_block_allocated : ℕ → Volume A L → Bool × Volume A L
  data_block_allocated block v =
      let s = v.superblock in
      if data_block_valid s block
      then bitmap_bit_set A L s.block_bitmap_start s.block_bitmap_blocks block v
      else (false, v)

  -- clear_bytes(auxiliary_block, sizeof(auxiliary_block))
  abbrev pub clear_auxiliary : Action A L (Unit {0})
  clear_auxiliary v =
      ok tt (record v { auxiliary_block = clear_bytes v.auxiliary_block 0 block_size })

  abbrev pub auxiliary : Action A L (List ℕ)
  auxiliary v = ok v.auxiliary_block v

  -- A call whose result is cast to void.
  abbrev pub ignoring : {T : Type 0} → Action A L T → Action A L (Unit {0})
  ignoring m v = ok tt (after (m v))

  abbrev recovered :
      {T : Type 0} → Outcome (Volume A L) T → Action A L (Unit {0}) → ℤ → Outcome (Volume A L) T
  recovered (ok x w) cleanup e = ok x w
  recovered (failed e' w) cleanup e = failed e (after (cleanup w))

  -- `if (command != 0) { cleanup; return error; }`
  abbrev pub on_failure : {T : Type 0} → Action A L T → Action A L (Unit {0}) → ℤ → Action A L T
  on_failure m cleanup e v = recovered (m v) cleanup e

  abbrev recovered_with :
      {T : Type 0} → Outcome (Volume A L) T → Action A L (Unit {0}) → Outcome (Volume A L) T
  recovered_with (ok x w) cleanup = ok x w
  recovered_with (failed e w) cleanup = failed e (after (cleanup w))

  -- `if (status < 0) { cleanup; return status; }`
  abbrev pub cleaning_up : {T : Type 0} → Action A L T → Action A L (Unit {0}) → Action A L T
  cleaning_up m cleanup v = recovered_with (m v) cleanup

  unfoldable pub allocate_block : Action A L ℕ
  allocate_block = do
    s ← mounted A L
    block ←
        allocate_bitmap_bit A L s.block_bitmap_start s.block_bitmap_blocks s.data_start
          s.total_blocks
    clear_auxiliary
    zeros ← auxiliary
    on_failure (write_volume_block_from A L block zeros)
        (ignoring (bitmap_update A L s.block_bitmap_start s.block_bitmap_blocks block false)) eio
    pure block

  unfoldable pub free_block : ℕ → Action A L (Unit {0})
  free_block block = do
    s ← mounted A L
    refuse_if (not (data_block_valid s block)) einval
    bitmap_update A L s.block_bitmap_start s.block_bitmap_blocks block false

  -- `if (!data_block_allocated(block)) return error;`
  abbrev pub require_allocated : ℕ → Action A L (Unit {0})
  require_allocated block v =
      let (present, w) = data_block_allocated block v in if present then ok tt w else failed eio w

  -- The pointer of inode_block_at: a direct one, or one from the indirect block.
  unfoldable pub block_pointer : Inode → ℕ → Action A L ℕ
  block_pointer inode file_block =
      let indirect_index = file_block - direct_count in
      let from_indirect = (do
        require_allocated inode.indirect
        refuse_if (leb indirect_count indirect_index) eio
        or_fail (read_volume_block A L inode.indirect) eio
        bytes ← buffer A L
        pure (read_le32 bytes (indirect_index * 4))) in
      if ltb file_block direct_count then pure (get_or inode.direct file_block 0) else from_indirect

  unfoldable pub inode_block_at : Inode → ℕ → Action A L ℕ
  inode_block_at inode file_block = do
    refuse_if (leb (divide_round_up inode.size block_size) file_block) einval
    block ← block_pointer inode file_block
    require_allocated block
    pure block
