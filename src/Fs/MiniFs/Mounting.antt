-- ===== src/Fs/MiniFs/Mounting.antt =====
-- kernel/fs/minifs.c: minifs_mount, the lock, and the operations that only read the volume's state.
pub mod Laws
use mini_orange_os.Fs.MiniFs.Mount.{decode_superblock}
use mini_orange_os.Fs.MiniFs.InodeTable.{read_inode_internal, require_bit}
use mini_orange_os.Fs.MiniFs.Paths.{lookup_locked, stat_of}
use mini_orange_os.Errno.{eagain, eio}
use mini_orange_os.Fs.Interface.{Stat, mode_directory}
use mini_orange_os.Prelude.Int.{ℤ, pos}
use mini_orange_os.Fs.MiniFs.Command.{
  Outcome, fail, ◌>>◌, pure, ok, ◌>>=◌, refuse_if, failed, or_fail,
}
use mini_orange_os.Fs.MiniFs.Volume.{Layout, Volume, Action, received, mounted, buffer}
use mini_orange_os.Block.{Ata, block_read}
use mini_orange_os.Fs.MiniFs.{Superblock}
use mini_orange_os.Prelude.{
  ltb, ◌==◌, if◌then◌else◌, ℕ, zero, suc, ◌-◌, Bool, true, false, ◌||◌, not, Option, none, some,
  List,
}

-- clear_superblock
abbrev pub cleared_superblock : Superblock
cleared_superblock = record {
  total_blocks = 0;
  total_inodes = 0;
  block_bitmap_start = 0;
  block_bitmap_blocks = 0;
  inode_bitmap_start = 0;
  inode_bitmap_blocks = 0;
  inode_table_start = 0;
  inode_table_blocks = 0;
  data_start = 0;
  root_inode = 0;
}

module _ (A : Ata) (L : Layout) where
  -- The static variables: the volume, `mounted` and operation_busy.
  pub record FileSystem : Type 0 where
    pub volume : Volume A L
    pub is_mounted : Bool
    pub operation_busy : Bool

  abbrev pub set_superblock : Superblock → Action A L (Unit {0})
  set_superblock s v = ok tt (record v { superblock = s })

  -- block_read(MINIFS_VOLUME_START_BLOCK, 1, io_block)
  abbrev pub read_first_block : Action A L (Unit {0})
  read_first_block v =
      received A L (block_read A L.device_block_count L.volume_start_block 1 true v.device) v

  abbrev pub superblock_or_fail : Option Superblock → Action A L Superblock
  superblock_or_fail none = fail eio
  superblock_or_fail (some s) = pure s

  -- The loop over the blocks before the data area.
  unfoldable pub require_reserved : ℕ → ℕ → Action A L (Unit {0})
  require_reserved zero block = pure tt
  require_reserved (suc rounds) block = do
    s ← mounted A L
    require_bit A L s.block_bitmap_start s.block_bitmap_blocks block eio
    require_reserved rounds (suc block)

  -- The body of minifs_mount behind the lock.
  unfoldable pub mount_volume : Action A L (Unit {0})
  mount_volume = do
    set_superblock cleared_superblock
    refuse_if
        (ltb L.device_block_count L.volume_start_block
          || ltb (L.device_block_count - L.volume_start_block) L.volume_block_count)
        eio
    or_fail read_first_block eio
    bytes ← buffer A L
    candidate ← superblock_or_fail (decode_superblock L.volume_block_count bytes)
    set_superblock candidate
    require_reserved candidate.data_start 0
    require_bit A L candidate.inode_bitmap_start candidate.inode_bitmap_blocks candidate.root_inode
        eio
    root ← or_fail (read_inode_internal A L candidate.root_inode) eio
    refuse_if (not (root.mode == mode_directory)) eio

  abbrev mount_result : Outcome (Volume A L) (Unit {0}) → ℤ × FileSystem
  mount_result (ok x w) = (pos 0, record { volume = w; is_mounted = true; operation_busy = false })
  mount_result (failed e w) = (
    e,
    record {
      volume = record w { superblock = cleared_superblock };
      is_mounted = false;
      operation_busy = false;
    },
  )

  unfoldable pub minifs_mount : FileSystem → ℤ × FileSystem
  minifs_mount fs =
      if fs.operation_busy then (eagain, fs) else mount_result (mount_volume fs.volume)

  unfoldable pub minifs_total_blocks : FileSystem → ℕ
  minifs_total_blocks fs = if fs.is_mounted then fs.volume.superblock.total_blocks else 0

  unfoldable pub minifs_total_inodes : FileSystem → ℕ
  minifs_total_inodes fs = if fs.is_mounted then fs.volume.superblock.total_inodes else 0

  -- The result of a command between minifs_acquire and minifs_release, with what it stores.
  abbrev pub released :
      {T : Type 0} → FileSystem → Outcome (Volume A L) T → ℤ × Option T × FileSystem
  released fs (ok x w) = (pos 0, some x, record fs { volume = w; operation_busy = false })
  released fs (failed e w) = (e, none, record fs { volume = w; operation_busy = false })

  -- An operation under the lock, on a mounted volume.
  abbrev pub locked : {T : Type 0} → Action A L T → FileSystem → ℤ × Option T × FileSystem
  locked m fs = if fs.operation_busy then (eagain, none, fs) else released fs (m fs.volume)

  unfoldable pub minifs_lookup : Option (List ℕ) → FileSystem → ℤ × Option Stat × FileSystem
  minifs_lookup path fs =
      if not fs.is_mounted then (eio, none, fs) else locked (lookup_locked A L path) fs

  unfoldable pub minifs_stat_inode : ℕ → FileSystem → ℤ × Option Stat × FileSystem
  minifs_stat_inode inode_number fs =
      let body = (do
        inode ← read_inode_internal A L inode_number
        pure (stat_of A L inode_number inode)) in
      if not fs.is_mounted then (eio, none, fs) else locked body fs
