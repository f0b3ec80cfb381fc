-- ===== src/Fs/MiniFs/Mount/Geometry.antt =====
-- kernel/fs/minifs.c: where the parts of an accepted volume lie.
use mini_orange_os.Fs.MiniFs.Bytes.{read_le32}
use mini_orange_os.Fs.MiniFs.{divide_round_up, Superblock}
use mini_orange_os.Fs.MiniFs.Mount.{
  fields_refused, decode_superblock, expected_superblock, header_refused, sizes_refused, sums_wrap,
  fields_differ,
}
use mini_orange_os.Prelude.{
  leb, if◌then◌else◌, Bool-cases, ℕ, ◌+◌, ◌*◌, ◌/◌, ◌%◌, ◌^◌, ◌≤◌, ◌<◌, ◌≡◌, refl, sym, ap, ◌∙◌,
  subst, inl, inr, Bool, false, ◌||◌, Option, none, some, List, arith,
}

-- The parts of a volume follow one another from block 1 on and end before its last block: the block
-- bitmap, the inode bitmap, the inode table, the data. Each bitmap has a bit for each thing it counts,
-- the table an entry for each inode, and the root is an inode.
pub record IsLaidOut (s : Superblock) : Type 0 where
  pub block_bitmap : s.block_bitmap_start ≡ 1
  pub inode_bitmap : s.inode_bitmap_start ≡ s.block_bitmap_start + s.block_bitmap_blocks
  pub inode_table : s.inode_table_start ≡ s.inode_bitmap_start + s.inode_bitmap_blocks
  pub data_blocks : s.data_start ≡ s.inode_table_start + s.inode_table_blocks
  pub data_inside : s.data_start < s.total_blocks
  pub block_bits : s.total_blocks ≤ s.block_bitmap_blocks * 32768
  pub inode_bits : s.total_inodes ≤ s.inode_bitmap_blocks * 32768
  pub inode_entries : s.total_inodes ≤ s.inode_table_blocks * 64
  pub root : s.root_inode < s.total_inodes

-- A number of bits or bytes, divided into blocks and rounded up: the blocks are enough.
bits_covered : (n : ℕ) → n ≤ divide_round_up n 32768 * 32768
unfolding divide_round_up
bits_covered n = ground arith

bytes_covered : (n : ℕ) → n ≤ divide_round_up n 4096 * 4096
unfolding divide_round_up
bytes_covered n = ground arith

bitmap_small : (n : ℕ) → n < 2 ^ 32 → divide_round_up n 32768 ≤ 2 ^ 17
unfolding divide_round_up
bitmap_small n h = ground arith

table_small : (n : ℕ) → n < 2 ^ 32 → divide_round_up n 4096 ≤ 2 ^ 20
unfolding divide_round_up
table_small n h = ground arith

unrefused : (a b c d : Bool) → a || b || c || d ≡ false → (b ≡ false) × (d ≡ false)
unrefused a b c d h = ground arith

laid_out :
    (total_blocks total_inodes root_inode : ℕ) (block : List ℕ)
    → total_blocks < 2 ^ 32
    → total_inodes ≤ 0xFFFFFFFF / 64
    → read_le32 block 48 ≡ root_inode
    → fields_refused block (expected_superblock total_blocks total_inodes root_inode) ≡ false
    → IsLaidOut (expected_superblock total_blocks total_inodes root_inode)
unfolding fields_refused expected_superblock
laid_out n m root block small few e h =
    let s = expected_superblock n m root in
    let found =
      unrefused (sums_wrap s) (leb s.total_blocks s.data_start) (fields_differ block s)
        (leb s.total_inodes (read_le32 block 48)) h in
    let d1 = bitmap_small n small in
    let d2 = bitmap_small m (omega arith) in
    let d3 = table_small (m * 64 % 2 ^ 32) (omega arith) in
    let c3 = bytes_covered (m * 64 % 2 ^ 32) in
    record {
      block_bitmap = refl;
      inode_bitmap = omega (arith, d1);
      inode_table = omega (arith, d1, d2);
      data_blocks = omega (arith, d1, d2, d3);
      data_inside = ground (arith, found.0);
      block_bits = bits_covered n;
      inode_bits = bits_covered m;
      inode_entries = omega (arith, c3);
      root = ground (arith, found.1, e);
    }

sizes_lem :
    (volume_block_count total_blocks total_inodes : ℕ)
    → sizes_refused volume_block_count total_blocks total_inodes ≡ false
    → (total_blocks ≡ volume_block_count) × (total_inodes ≤ 0xFFFFFFFF / 64)
unfolding sizes_refused
sizes_lem n b i h = ground arith

all_passed :
    (a b c : Bool) (s : Superblock)
    → a ≡ false
    → b ≡ false
    → c ≡ false
    → (if a then none else if b then none else if c then none else some s) ≡ some s
all_passed a b c s ea eb ec = rw (ea, eb, ec) refl

some_injective : {a b : Superblock} → some a ≡ some b → a ≡ b
some_injective {a} h = ap (λ (o : Option Superblock). elim o [ none ↦ a | some s ↦ s ]) h

-- A superblock that decode_superblock accepts for a volume of fewer than 2^32 blocks has that number of
-- blocks, and its parts follow one another from block 1 on, the block bitmap, the inode bitmap and the
-- inode table, with the data behind them inside the volume; each bitmap has a bit for each thing that it
-- counts, the table has an entry for each inode, and the root is an inode.
pub decode_superblock-IsLaidOut :
    (volume_block_count : ℕ) (block : List ℕ) (s : Superblock)
    → volume_block_count < 2 ^ 32
    → decode_superblock volume_block_count block ≡ some s
    → (s.total_blocks ≡ volume_block_count) × IsLaidOut s
unfolding decode_superblock expected_superblock
decode_superblock-IsLaidOut n block s small h =
    let t = expected_superblock (read_le32 block 12) (read_le32 block 16) (read_le32 block 48) in
    elim (Bool-cases (header_refused block)) [
      | inl bad ↦ absurd (ground arith)
      | inr header ↦ elim (Bool-cases (sizes_refused n t.total_blocks t.total_inodes)) [
        | inl bad ↦ absurd (ground arith)
        | inr sizes ↦ elim (Bool-cases (fields_refused block t)) [
          | inl bad ↦ absurd (ground arith)
          | inr fields ↦
              let (same, few) = sizes_lem n (read_le32 block 12) (read_le32 block 16) sizes in
              let e : t ≡ s = some_injective (sym (all_passed _ _ _ t header sizes fields) ∙ h) in
              subst (λ u. (u.total_blocks ≡ n) × IsLaidOut u) e
                (
                  same,
                  laid_out (read_le32 block 12) (read_le32 block 16) (read_le32 block 48) block
                      (rw same small) few refl fields,
                )
        ]
      ]
    ]
