-- ===== src/Fs/MiniFs.antt =====
-- kernel/fs/minifs.c and include/minios/abi/minifs.h: the file system on the disk. What the volume's
-- parts are called; the child modules have its encodings and the operations on a mounted volume.
pub mod Bytes
pub mod Inodes
pub mod Command
pub mod Volume
pub mod Mount
pub mod InodeTable
pub mod DataBlocks
pub mod Directory
pub mod Paths
pub mod Mounting
pub mod Files
pub mod Writing
pub mod Names
pub mod Truncation
pub mod Listing
mod Tests
use mini_orange_os.Prelude.{◌==◌, if◌then◌else◌, ℕ, ◌+◌, ◌-◌, ◌*◌, ◌/◌, List}

abbrev pub block_size : ℕ
block_size = 4096

abbrev pub inode_size : ℕ
inode_size = 64

abbrev pub directory_entry_size : ℕ
directory_entry_size = 64

abbrev pub direct_count : ℕ
direct_count = 10

abbrev pub indirect_count : ℕ
indirect_count = 1024

abbrev pub name_max : ℕ
name_max = 58

abbrev pub directory_name_bytes : ℕ
directory_name_bytes = 59

abbrev pub mode_regular : ℕ
mode_regular = 1

abbrev pub mode_directory : ℕ
mode_directory = 2

-- MINIFS_BLOCK_SIZE * 8
abbrev pub bitmap_bits_per_block : ℕ
bitmap_bits_per_block = 32768

-- MINIFS_BLOCK_SIZE / MINIFS_INODE_SIZE
abbrev pub inodes_per_block : ℕ
inodes_per_block = 64

-- MINIFS_BLOCK_SIZE / MINIFS_DIRECTORY_ENTRY_SIZE
abbrev pub entries_per_block : ℕ
entries_per_block = 64

-- (MINIFS_DIRECT_COUNT + 1024) * MINIFS_BLOCK_SIZE
abbrev pub max_file_size : ℕ
max_file_size = 1034 * 4096

-- struct minifs_superblock
pub record Superblock : Type 0 where
  pub total_blocks : ℕ
  pub total_inodes : ℕ
  pub block_bitmap_start : ℕ
  pub block_bitmap_blocks : ℕ
  pub inode_bitmap_start : ℕ
  pub inode_bitmap_blocks : ℕ
  pub inode_table_start : ℕ
  pub inode_table_blocks : ℕ
  pub data_start : ℕ
  pub root_inode : ℕ

-- struct minifs_inode
pub record Inode : Type 0 where
  pub mode : ℕ
  pub link_count : ℕ
  pub size : ℕ
  pub direct : List ℕ
  pub indirect : ℕ
  pub created_tick : ℕ
  pub modified_tick : ℕ

unfoldable pub divide_round_up : ℕ → ℕ → ℕ
divide_round_up value divisor = if value == 0 then 0 else (value - 1) / divisor + 1
