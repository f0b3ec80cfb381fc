-- ===== src/Fs/MiniFs/Writing.antt =====
-- kernel/fs/minifs.c: write_chunk_locked and minifs_write. The inode that write_chunk_locked changes
-- through its pointer is its result; no caller uses the inode after a failure.
pub mod Chunks
pub mod Rounds
pub mod RoundTrip
use mini_orange_os.Fs.MiniFs.Bytes.{write_le32, copy_bytes, clear_bytes}
use mini_orange_os.Errno.{einval, eio, eisdir}
use mini_orange_os.Fs.MiniFs.InodeTable.{read_inode_internal, write_inode_internal}
use mini_orange_os.Fs.MiniFs.DataBlocks.{
  ignoring, allocate_block, cleaning_up, free_block, auxiliary, inode_block_at, on_failure,
}
use mini_orange_os.Fs.MiniFs.Paths.{slice}
use mini_orange_os.Fs.MiniFs.{
  Inode, divide_round_up, max_file_size, block_size, direct_count, indirect_count, mode_directory,
}
use mini_orange_os.Fs.MiniFs.Mounting.{FileSystem, locked}
use mini_orange_os.Fs.MiniFs.Command.{
  Outcome, ok, ◌>>◌, ◌>>=◌, pure, failed, or_fail, fail, refuse_if,
}
use mini_orange_os.Prelude.Int.{ℤ, pos}
use mini_orange_os.Fs.MiniFs.Volume.{
  Layout, Action, Volume, buffer, set_buffer, write_volume_block_from, read_volume_block_into,
  read_volume_block,
}
use mini_orange_os.Block.{Ata}
use mini_orange_os.Prelude.{
  ltb, leb, ◌==◌, if◌then◌else◌, length, set, add32, ℕ, zero, suc, ◌+◌, ◌-◌, ◌*◌, ◌/◌, ◌%◌, ◌&&◌,
  ◌||◌, not, Option, none, some, List,
}

module _ (A : Ata) (L : Layout) where
  abbrev pub set_auxiliary : List ℕ → Action A L (Unit {0})
  set_auxiliary bytes v = ok tt (record v { auxiliary_block = bytes })

  -- The branch of a block that the file has.
  unfoldable pub overwrite_chunk : ℕ → Inode → ℕ → List ℕ → Action A L Inode
  overwrite_chunk inode_number inode offset source =
      let end = add32 offset (length source) in
      let grown = record inode { size = end } in
      let grow = (do or_fail (write_inode_internal A L inode_number grown) eio; pure grown) in
      do
        disk_block ← or_fail (inode_block_at A L inode (offset / block_size)) eio
        or_fail (read_volume_block A L disk_block) eio
        bytes ← buffer A L
        set_buffer A L (copy_bytes bytes (offset % block_size) source)
        changed ← buffer A L
        or_fail (write_volume_block_from A L disk_block changed) eio
        if ltb inode.size end then grow else pure inode

  -- The first step of the branch that adds a block: a new indirect block, where there is none and one
  -- is needed; 0 stands for none.
  unfoldable pub new_indirect_block : Inode → ℕ → Action A L ℕ
  new_indirect_block inode file_block =
      if leb direct_count file_block && inode.indirect == 0 then allocate_block A L else pure 0

  -- The clean-up of the failures that follow.
  unfoldable pub drop_indirect : ℕ → Action A L (Unit {0})
  drop_indirect new_indirect =
      if new_indirect == 0 then pure tt else ignoring A L (free_block A L new_indirect)

  unfoldable pub drop_blocks : ℕ → ℕ → Action A L (Unit {0})
  drop_blocks disk_block new_indirect = do
    ignoring A L (free_block A L disk_block)
    drop_indirect new_indirect

  -- The pointer to the new block, in the inode or in the indirect block.
  unfoldable pub store_pointer : Inode → ℕ → ℕ → ℕ → Action A L Inode
  store_pointer inode file_block disk_block new_indirect =
      let indirect_index = file_block - direct_count in
      let load = (do
        refuse_if (leb indirect_count indirect_index) eio
        bytes ← read_volume_block_into A L inode.indirect
        set_auxiliary bytes) in
      let indirectly = (do
        on_failure A L load (drop_blocks disk_block new_indirect) eio
        pointers ← auxiliary A L
        set_auxiliary (write_le32 pointers (indirect_index * 4) disk_block)
        changed ← auxiliary A L
        on_failure A L (write_volume_block_from A L inode.indirect changed)
            (drop_blocks disk_block new_indirect) eio
        pure inode) in
      if ltb file_block direct_count
      then pure (record inode { direct = set inode.direct file_block disk_block })
      else indirectly

  -- What is undone of the pointer if the inode cannot be written.
  unfoldable pub erase_pointer : Inode → ℕ → ℕ → Action A L (Unit {0})
  erase_pointer inode file_block new_indirect =
      let erase = (do
        pointers ← auxiliary A L
        set_auxiliary (write_le32 pointers ((file_block - direct_count) * 4) 0)
        changed ← auxiliary A L
        ignoring A L (write_volume_block_from A L inode.indirect changed)) in
      if ltb file_block direct_count then pure tt else if new_indirect == 0 then erase else pure tt

  -- The branch that adds a block behind the last one.
  unfoldable pub append_chunk : ℕ → Inode → ℕ → List ℕ → Action A L Inode
  append_chunk inode_number inode offset source = do
    let file_block = offset / block_size
    new_indirect ← new_indirect_block inode file_block
    let with_indirect =
        if new_indirect == 0 then inode else record inode { indirect = new_indirect }
    disk_block ← cleaning_up A L (allocate_block A L) (drop_indirect new_indirect)
    bytes ← buffer A L
    set_buffer A L (copy_bytes (clear_bytes bytes 0 block_size) (offset % block_size) source)
    changed ← buffer A L
    on_failure A L (write_volume_block_from A L disk_block changed)
        (drop_blocks disk_block new_indirect) eio
    pointed ← store_pointer with_indirect file_block disk_block new_indirect
    let grown = record pointed { size = add32 offset (length source) }
    on_failure A L (write_inode_internal A L inode_number grown)
        (erase_pointer with_indirect file_block new_indirect >> drop_blocks disk_block new_indirect)
        eio
    pure grown

  unfoldable pub write_chunk_locked : ℕ → Inode → ℕ → List ℕ → Action A L Inode
  write_chunk_locked inode_number inode offset source =
      let allocated_blocks = divide_round_up inode.size block_size in
      if ltb (offset / block_size) allocated_blocks
      then overwrite_chunk inode_number inode offset source
      else if not (offset / block_size == allocated_blocks)
      then fail einval
      else append_chunk inode_number inode offset source

  -- What the loop of minifs_write returns after a chunk: the count so far if the chunk failed.
  abbrev written_so_far :
      ℕ → Outcome (Volume A L) Inode → (Inode → Action A L ℕ) → Outcome (Volume A L) ℕ
  written_so_far completed (ok inode w) next = next inode w
  written_so_far completed (failed e w) next = if completed == 0 then failed e w else ok completed w

  -- The loop. A round writes at least one byte, so that as many rounds as bytes are enough.
  unfoldable pub write_rounds : ℕ → ℕ → Inode → ℕ → List ℕ → ℕ → Action A L ℕ
  write_rounds zero inode_number inode offset source completed v = ok completed v
  write_rounds (suc rounds) inode_number inode offset source completed v =
      let position = add32 offset completed in
      let space = block_size - position % block_size in
      let left = length source - completed in
      let chunk = if ltb left space then left else space in
      let next = λ (inode' : Inode).
        write_rounds rounds inode_number inode' offset source (completed + chunk) in
      let body =
        written_so_far completed
          (write_chunk_locked inode_number inode position (slice chunk completed source) v) next in
      if leb (length source) completed then ok completed v else body

  unfoldable pub write_locked : ℕ → ℕ → List ℕ → Action A L ℕ
  write_locked inode_number offset source = do
    inode ← read_inode_internal A L inode_number
    refuse_if (inode.mode == mode_directory) eisdir
    refuse_if (ltb inode.size offset) einval
    write_rounds (length source) inode_number inode offset source 0

  -- The int32_t of an operation that counts, and of one that returns 0.
  abbrev pub count_result : ℤ × Option ℕ × FileSystem A L → ℤ × FileSystem A L
  count_result (e, none, fs) = (e, fs)
  count_result (e, some n, fs) = (pos n, fs)

  abbrev pub status_result : {T : Type 0} → ℤ × Option T × FileSystem A L → ℤ × FileSystem A L
  status_result (e, o, fs) = (e, fs)

  -- minifs_write of a buffer that is not NULL.
  unfoldable pub minifs_write : ℕ → ℕ → List ℕ → FileSystem A L → ℤ × FileSystem A L
  minifs_write inode_number offset source fs =
      if not fs.is_mounted
        || ltb 0x7FFFFFFF (length source)
        || ltb max_file_size offset
        || ltb (max_file_size - offset) (length source)
      then (einval, fs)
      else count_result (locked A L (write_locked inode_number offset source) fs)
