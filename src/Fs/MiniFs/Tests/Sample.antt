-- ===== src/Fs/MiniFs/Tests/Sample.antt =====
-- kernel/fs/minifs.c: a volume of 8 blocks on the memory disk of Block, with an inode in its table.
use mini_orange_os.Fs.MiniFs.Writing.Chunks.{IsSeparate}
use mini_orange_os.Fs.MiniFs.Mounting.{FileSystem}
use mini_orange_os.Fs.MiniFs.Files.Pointers.{pointer_of, InUse, IsIntact}
use mini_orange_os.Block.Memory.{memory_ata, memory_disk}
use mini_orange_os.Fs.MiniFs.Inodes.RoundTrip.{decode_inode-encode_inode}
use mini_orange_os.Fs.MiniFs.Inodes.Encoding.{IsStorable, length-encode_inode, encode_inode-Bytes}
use mini_orange_os.Fs.MiniFs.Volume.Bitmaps.{bit_at}
use mini_orange_os.Mm.Bitmap.Laws.{Bytes, length-fill, fill-Bytes, bitmap_get-fill}
use mini_orange_os.Fs.MiniFs.Volume.Store.{block_of}
use mini_orange_os.Fs.MiniFs.Inodes.{
  encode_inode, inode_pointer_shape_valid, inode_accepted, direct_shape_valid,
}
use mini_orange_os.Fs.MiniFs.{Inode, Superblock, divide_round_up}
use mini_orange_os.Fs.MiniFs.Mount.Geometry.{IsLaidOut}
use mini_orange_os.Fs.MiniFs.Volume.{Layout, Volume}
use mini_orange_os.Fs.MiniFs.InodeTable.Store.{entry_of, IsMounted, inode_present}
use mini_orange_os.Mm.Bitmap.{fill}
use mini_orange_os.Prelude.{
  ◌==◌, if◌then◌else◌, Bool-cases, length, ℕ, ◌+◌, ◌-◌, ◌*◌, ◌/◌, ◌%◌, ◌<◌, ◌≡◌, refl, sym, ap, ◌∙◌,
  subst, inl, inr, true, false, ◌||◌, some, List, [], ◌∷◌, arith,
}

unfoldable pub layout : Layout
layout = record { volume_start_block = 1; volume_block_count = 8; device_block_count = 10 }

unfoldable pub superblock : Superblock
superblock = record {
  total_blocks = 8;
  total_inodes = 64;
  block_bitmap_start = 1;
  block_bitmap_blocks = 1;
  inode_bitmap_start = 2;
  inode_bitmap_blocks = 1;
  inode_table_start = 3;
  inode_table_blocks = 1;
  data_start = 4;
  root_inode = 0;
}

-- A file of 5 bytes in block 4.
unfoldable pub file : Inode
file = record {
  mode = 1;
  link_count = 1;
  size = 5;
  direct = 4 ∷ 0 ∷ 0 ∷ 0 ∷ 0 ∷ 0 ∷ 0 ∷ 0 ∷ 0 ∷ 0 ∷ [];
  indirect = 0;
  created_tick = 0;
  modified_tick = 0;
}

pub file-IsStorable : IsStorable file
unfolding file inode_accepted
file-IsStorable = record {
  accepted = refl;
  mode_fits = omega arith;
  links_fit = omega arith;
  size_fits = omega arith;
  direct_length = refl;
  direct_fit = omega arith;
  indirect_fits = omega arith;
  created_fits = omega arith;
  modified_fits = omega arith;
}

pub file_shape : inode_pointer_shape_valid file ≡ true
unfolding file inode_pointer_shape_valid direct_shape_valid divide_round_up
file_shape = refl

-- The inode table with the file as inode 1.
unfoldable pub table : List ℕ
table = encode_inode file 64 (fill 4096 0)

-- Both bitmaps are full; the data blocks hold sevens.
unfoldable pub contents : ℕ → List ℕ
contents r =
    if r == 1 || r == 2
    then fill 4096 0xFF
    else if r == 3
    then table
    else if r == 4
    then fill 4096 7
    else fill 4096 0

pub contents_cases :
    (P : List ℕ → Type 0) (r : ℕ)
    → P (fill 4096 0xFF)
    → P table
    → P (fill 4096 7)
    → P (fill 4096 0)
    → P (contents r)
unfolding contents
contents_cases P r a b c d = elim (Bool-cases (r == 1 || r == 2)) [
  | inl x ↦ rw x a
  | inr x ↦ elim (Bool-cases (r == 3)) [
    | inl y ↦ rw (x, y) b
    | inr y ↦ elim (Bool-cases (r == 4)) [ inl z ↦ rw (x, y, z) c | inr z ↦ rw (x, y, z) d ]
  ]
]

pub length-contents : (r : ℕ) → length (contents r) ≡ 4096
unfolding table
length-contents r =
    contents_cases (λ b. length b ≡ 4096) r (length-fill 4096 0xFF)
      (length-encode_inode file 64 (fill 4096 0) ∙ length-fill 4096 0) (length-fill 4096 7)
      (length-fill 4096 0)

pub contents-Bytes : (r : ℕ) → Bytes (contents r)
unfolding table
contents-Bytes r =
    contents_cases Bytes r (fill-Bytes 4096 0xFF (omega arith))
      (encode_inode-Bytes file 64 (fill 4096 0) (fill-Bytes 4096 0 (omega arith)))
      (fill-Bytes 4096 7 (omega arith)) (fill-Bytes 4096 0 (omega arith))

unfoldable pub volume : Volume memory_ata layout
volume = record {
  device = λ b. contents (b - 1);
  superblock = superblock;
  io_block = [];
  auxiliary_block = fill 4096 0;
  compare_buffer = [];
}

pub block_lem : (r : ℕ) → block_of memory_ata memory_disk layout volume r ≡ contents r
unfolding block_of volume layout memory_disk
block_lem r = let e : 1 + r - 1 ≡ r = omega arith in rw e refl

pub superblock-IsLaidOut : IsLaidOut superblock
unfolding superblock
superblock-IsLaidOut = record {
  block_bitmap = refl;
  inode_bitmap = refl;
  inode_table = refl;
  data_blocks = refl;
  data_inside = omega arith;
  block_bits = omega arith;
  inode_bits = omega arith;
  inode_entries = omega arith;
  root = omega arith;
}

pub volume-IsMounted : IsMounted memory_ata memory_disk layout volume
unfolding volume layout superblock
volume-IsMounted = record {
  ready = record {
    device_count = refl;
    device_small = omega arith;
    on_device = omega arith;
    total = refl;
    block_length = λ r h. ap length (block_lem r) ∙ length-contents r;
    block_bytes = λ r h. subst Bytes (sym (block_lem r)) (contents-Bytes r);
  };
  laid_out = superblock-IsLaidOut;
}

-- Every bit of both bitmaps is set.
pub full_lem :
    (start q : ℕ)
    → contents (start + q / 32768) ≡ fill 4096 0xFF
    → bit_at memory_ata memory_disk layout volume start q ≡ true
unfolding bit_at
full_lem start q e =
    rw (block_lem (start + q / 32768), e) ((bitmap_get-fill 4096 (q % 32768) (omega arith)).0)

pub present : inode_present memory_ata memory_disk layout volume 1 ≡ true
unfolding volume superblock contents
present = full_lem 2 1 refl

pub contents_table : contents 3 ≡ encode_inode file 64 (fill 4096 0)
unfolding contents table
contents_table = refl

pub entry : entry_of memory_ata memory_disk layout volume 1 ≡ some file
unfolding entry_of volume superblock
entry =
    rw (block_lem 3, contents_table)
      (decode_inode-encode_inode file 64 (fill 4096 0) (omega (arith, length-fill 4096 0))
        file-IsStorable)

pub known : 1 < volume.superblock.total_inodes
unfolding volume superblock
known = omega arith

-- The file system with the volume mounted and the lock free.
unfoldable pub files : FileSystem memory_ata layout
files = record { volume = volume; is_mounted = true; operation_busy = false }

pub first_block : (b : ℕ) → b * 4096 < 5 → b ≡ 0
first_block b h = omega arith

pub data_used : InUse memory_ata memory_disk layout volume 4
unfolding volume superblock contents
data_used = (omega arith, omega arith, full_lem 1 4 refl)

pub file-IsIntact : IsIntact memory_ata memory_disk layout volume file
unfolding file pointer_of
file-IsIntact = record {
  size_bound = omega arith;
  indirect_used = λ h. absurd (omega arith);
  blocks_used = λ b h. rw (first_block b h) data_used;
}

pub file-IsSeparate : IsSeparate memory_ata memory_disk layout volume file
unfolding file pointer_of
file-IsSeparate = record {
  apart = λ b c hb hc ne. absurd (omega arith);
  indirect_apart = λ b h. rw (first_block b h) (λ e. omega arith);
}
