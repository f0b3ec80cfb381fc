-- ===== src/Fs/MiniFs/Mount.antt =====
-- kernel/fs/minifs.c: the superblock of a volume, its checksum, and where it puts the volume's parts.
pub mod Geometry
mod Tests
use Prim.Native.Nat.{bit_xor}
use mini_orange_os.Fs.MiniFs.{
  Superblock, inode_size, divide_round_up, block_size, bitmap_bits_per_block,
}
use mini_orange_os.Fs.MiniFs.Bytes.{read_le32}
use mini_orange_os.Prelude.{
  ltb, leb, ◌==◌, if◌then◌else◌, get_or, add32, sub32, mul32, ℕ, zero, suc, ◌-◌, ◌/◌, bit_and, Bool,
  true, false, ◌&&◌, ◌||◌, not, Option, none, some, List, [], ◌∷◌,
}

abbrev pub minifs_magic : ℕ
minifs_magic = 0x3153464D

abbrev pub crc32_polynomial : ℕ
crc32_polynomial = 0xEDB88320

-- The inner loop of superblock_crc32: the rounds on one byte.
unfoldable pub crc_bits : ℕ → ℕ → ℕ
crc_bits zero crc = crc
crc_bits (suc rounds) crc =
    crc_bits rounds (bit_xor (crc / 2) (bit_and crc32_polynomial (sub32 0 (bit_and crc 1))))

-- Its outer loop; the bytes of the checksum itself count as zero.
unfoldable pub crc_bytes : List ℕ → ℕ → ℕ → ℕ
crc_bytes [] index crc = crc
crc_bytes (byte ∷ bytes) index crc =
    let value = if leb 52 index && ltb index 56 then 0 else byte in
    crc_bytes bytes (suc index) (crc_bits 8 (bit_xor crc value))

-- ~crc on uint32_t is UINT32_MAX - crc.
unfoldable pub superblock_crc32 : List ℕ → ℕ
superblock_crc32 block = 0xFFFFFFFF - crc_bytes block 0 0xFFFFFFFF

-- The loop of superblock_reserved_zero, from the end of the header on.
unfoldable pub zero_from : ℕ → ℕ → List ℕ → Bool
zero_from zero index block = true
zero_from (suc rounds) index block =
    let rest = zero_from rounds (suc index) block in
    if get_or block index 0 == 0 then rest else false

unfoldable pub superblock_reserved_zero : List ℕ → Bool
superblock_reserved_zero block = zero_from (4096 - 56) 56 block

-- What decode_superblock computes from the two sizes.
unfoldable pub expected_superblock : ℕ → ℕ → ℕ → Superblock
expected_superblock total_blocks total_inodes root_inode =
    let block_bitmap_blocks = divide_round_up total_blocks bitmap_bits_per_block in
    let inode_bitmap_blocks = divide_round_up total_inodes bitmap_bits_per_block in
    let inode_table_blocks = divide_round_up (mul32 total_inodes inode_size) block_size in
    let inode_bitmap_start = add32 1 block_bitmap_blocks in
    let inode_table_start = add32 inode_bitmap_start inode_bitmap_blocks in
    record {
      total_blocks = total_blocks;
      total_inodes = total_inodes;
      block_bitmap_start = 1;
      block_bitmap_blocks = block_bitmap_blocks;
      inode_bitmap_start = inode_bitmap_start;
      inode_bitmap_blocks = inode_bitmap_blocks;
      inode_table_start = inode_table_start;
      inode_table_blocks = inode_table_blocks;
      data_start = add32 inode_table_start inode_table_blocks;
      root_inode = root_inode;
    }

-- The first condition of decode_superblock, true if the block is refused.
unfoldable pub header_refused : List ℕ → Bool
header_refused block =
    not (read_le32 block 0 == minifs_magic)
    || not (read_le32 block 4 == 1)
    || not (read_le32 block 8 == block_size)
    || not (read_le32 block 52 == superblock_crc32 block)
    || not (superblock_reserved_zero block)

-- The second: the two sizes, against MINIFS_VOLUME_BLOCK_COUNT.
unfoldable pub sizes_refused : ℕ → ℕ → ℕ → Bool
sizes_refused volume_block_count total_blocks total_inodes =
    not (total_blocks == volume_block_count)
    || total_inodes == 0
    || ltb (0xFFFFFFFF / inode_size) total_inodes

-- The sums that wrap around.
unfoldable pub sums_wrap : Superblock → Bool
sums_wrap s =
    ltb s.inode_bitmap_start s.block_bitmap_blocks
    || ltb s.inode_table_start s.inode_bitmap_start
    || ltb s.data_start s.inode_table_start

-- The fields stored in the block that must be what was computed.
unfoldable pub fields_differ : List ℕ → Superblock → Bool
fields_differ block s =
    not (read_le32 block 20 == 1)
    || not (read_le32 block 24 == s.block_bitmap_blocks)
    || not (read_le32 block 28 == s.inode_bitmap_start)
    || not (read_le32 block 32 == s.inode_bitmap_blocks)
    || not (read_le32 block 36 == s.inode_table_start)
    || not (read_le32 block 40 == s.inode_table_blocks)
    || not (read_le32 block 44 == s.data_start)

unfoldable pub fields_refused : List ℕ → Superblock → Bool
fields_refused block s =
    sums_wrap s
    || leb s.total_blocks s.data_start
    || fields_differ block s
    || leb s.total_inodes (read_le32 block 48)

-- decode_superblock; `none` is false.
unfoldable pub decode_superblock : ℕ → List ℕ → Option Superblock
decode_superblock volume_block_count block =
    let s = expected_superblock (read_le32 block 12) (read_le32 block 16) (read_le32 block 48) in
    if header_refused block
    then none
    else if sizes_refused volume_block_count s.total_blocks s.total_inodes
    then none
    else if fields_refused block s
    then none
    else some s
