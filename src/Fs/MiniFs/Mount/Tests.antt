-- ===== src/Fs/MiniFs/Mount/Tests.antt =====
-- kernel/fs/minifs.c: the superblock of a volume of 8 blocks with 64 inodes.
use mini_orange_os.Fs.MiniFs.Mount.Geometry.{IsLaidOut, decode_superblock-IsLaidOut}
use mini_orange_os.Fs.MiniFs.{Superblock, divide_round_up}
use mini_orange_os.Fs.MiniFs.Bytes.{write_le32, read_le32}
use mini_orange_os.Fs.MiniFs.Mount.{
  superblock_crc32, minifs_magic, crc_bytes, crc_bits, decode_superblock, header_refused,
  superblock_reserved_zero, zero_from, sizes_refused, fields_refused, sums_wrap, fields_differ,
  expected_superblock,
}
use mini_orange_os.Prelude.{replicate, ℕ, ◌≡◌, refl, some, List, ◌++◌, arith}

header : List ℕ
unfolding write_le32
header =
    write_le32
      (write_le32
        (write_le32
          (write_le32
            (write_le32
              (write_le32
                (write_le32
                  (write_le32
                    (write_le32
                      (write_le32
                        (write_le32 (write_le32 (write_le32 (replicate 56 0) 0 minifs_magic) 4 1) 8
                          4096)
                        12 8)
                      16 64)
                    20 1)
                  24 1)
                28 2)
              32 1)
            36 3)
          40 1)
        44 4)
      48 0

-- The checksum is that of the bytes with zeros in its own place.
superblock_bytes : List ℕ
unfolding header write_le32
superblock_bytes = write_le32 header 52 4194306019 ++ replicate 4040 0

decoded : Superblock
decoded = record {
  total_blocks = 8;
  total_inodes = 64;
  block_bitmap_start = 1;
  block_bitmap_blocks = 1;
  inode_bitmap_start = 2;
  inode_bitmap_blocks = 1;
  inode_table_start = 3;
  inode_table_blocks = 1;
  data_start = 4;
  root_inode = 0;
}

decoded_lem : decode_superblock 8 superblock_bytes ≡ some decoded
unfolding superblock_bytes decoded header decode_superblock header_refused superblock_crc32
    crc_bytes crc_bits read_le32 write_le32 superblock_reserved_zero zero_from sizes_refused
    fields_refused sums_wrap fields_differ expected_superblock divide_round_up
decoded_lem = refl

decode_superblock-IsLaidOut_example : (decoded.total_blocks ≡ 8) × IsLaidOut decoded
decode_superblock-IsLaidOut_example =
    decode_superblock-IsLaidOut 8 superblock_bytes decoded (omega arith) decoded_lem
