-- ===== src/Fs/MiniFs/Files/Pointers.antt =====
-- kernel/fs/minifs.c: where the bytes of a file are, and that inode_block_at finds them.
use mini_orange_os.Fs.MiniFs.Command.{ok}
use mini_orange_os.Fs.MiniFs.Bytes.{read_le32}
use mini_orange_os.Fs.MiniFs.DataBlocks.{
  block_pointer, inode_block_at, data_block_allocated, data_block_valid, require_allocated,
}
use mini_orange_os.Fs.MiniFs.Volume.Store.{block_of, IsReady, IsReady-buffer, read_volume_block_lem}
use mini_orange_os.Fs.MiniFs.Volume.Bitmaps.{bit_at, bitmap_bit_set_lem}
use mini_orange_os.Fs.MiniFs.InodeTable.Store.{IsMounted}
use mini_orange_os.Fs.MiniFs.{divide_round_up, Inode, max_file_size}
use mini_orange_os.Fs.MiniFs.Volume.{Layout, Volume}
use mini_orange_os.Block.RoundTrip.{Disk}
use mini_orange_os.Fs.MiniFs.Paths.{slice}
use mini_orange_os.Block.{Ata}
use mini_orange_os.Prelude.{
  ltb, leb, if◌then◌else◌, Bool-cases, length, get_or, set, ℕ, zero, suc, ◌+◌, ◌-◌, ◌*◌, ◌/◌, ◌%◌,
  ◌≤◌, ◌<◌, min, ◌≡◌, refl, ap, inl, inr, true, false, List, [], ◌∷◌, ◌++◌, arith,
}

-- A slice has the bytes that it is cut from.
pub length-slice : (n start : ℕ) (xs : List ℕ) → length (slice n start xs) ≡ n
unfolding slice
length-slice zero start xs = refl
length-slice (suc n) start xs = ap suc (length-slice n (suc start) xs)

pub get_or-slice :
    (n start k : ℕ) (xs : List ℕ) → k < n → get_or (slice n start xs) k 0 ≡ get_or xs (start + k) 0
unfolding slice
get_or-slice zero start k xs h = absurd (omega arith)
get_or-slice (suc n) start zero xs h = let z : start + 0 ≡ start = omega arith in rw z refl
get_or-slice (suc n) start (suc k) xs h =
    let z : start + suc k ≡ suc start + k = omega arith in
    rw z (get_or-slice n (suc start) k xs (omega arith))

pub length-append : (xs ys : List ℕ) → length (xs ++ ys) ≡ length xs + length ys
length-append [] ys = omega arith
length-append (x ∷ xs) ys = let ih = length-append xs ys in omega (arith, ih)

pub get_or-append_left :
    (xs ys : List ℕ) (k : ℕ) → k < length xs → get_or (xs ++ ys) k 0 ≡ get_or xs k 0
get_or-append_left [] ys k h = absurd (omega arith)
get_or-append_left (x ∷ xs) ys zero h = refl
get_or-append_left (x ∷ xs) ys (suc k) h = get_or-append_left xs ys k (omega arith)

pub get_or-append_right :
    (xs ys : List ℕ) (k : ℕ) → get_or (xs ++ ys) (length xs + k) 0 ≡ get_or ys k 0
get_or-append_right [] ys k = let z : 0 + k ≡ k = omega arith in rw z refl
get_or-append_right (x ∷ xs) ys k =
    let z : suc (length xs) + k ≡ suc (length xs + k) = omega arith in
    rw z (get_or-append_right xs ys k)

-- How many bytes of a file a read of `len` bytes at `offset` finds.
abbrev pub available : ℕ → ℕ → ℕ → ℕ
available size offset len = min len (size - offset)

module _ (A : Ata) (D : Disk A) (L : Layout) where
  -- Where the volume keeps a block of a file.
  unfoldable pub pointer_of : Volume A L → Inode → ℕ → ℕ
  pointer_of v inode file_block =
      if ltb file_block 10
      then get_or inode.direct file_block 0
      else read_le32 (block_of A D L v inode.indirect) ((file_block - 10) * 4)

  -- Byte `p` of a file.
  unfoldable pub file_byte : Volume A L → Inode → ℕ → ℕ
  file_byte v inode p = get_or (block_of A D L v (pointer_of v inode (p / 4096))) (p % 4096) 0

  -- A block that is in use: in the data area and marked.
  abbrev pub InUse : Volume A L → ℕ → Type 0
  InUse v block =
      (v.superblock.data_start ≤ block)
      × (block < v.superblock.total_blocks)
      × (bit_at A D L v v.superblock.block_bitmap_start block ≡ true)

  -- A file whose blocks, and the indirect block if it needs one, are in use.
  pub record IsIntact (v : Volume A L) (inode : Inode) : Type 0 where
    pub size_bound : inode.size ≤ max_file_size
    pub indirect_used : 10 * 4096 < inode.size → InUse v inode.indirect
    pub blocks_used : (b : ℕ) → b * 4096 < inode.size → InUse v (pointer_of v inode b)

  pub required_lem : (size b : ℕ) → b * 4096 < size → leb (divide_round_up size 4096) b ≡ false
  unfolding divide_round_up
  required_lem size b h = ground arith

  module _ (v : Volume A L) (M : IsMounted A D L v) where
    -- What is on the disk, whatever the buffer holds.
    abbrev pub with_buffer : List ℕ → Volume A L
    with_buffer bytes = record v { io_block = bytes }

    pub IsReady-with_buffer : (bytes : List ℕ) → IsReady A D L (with_buffer bytes)
    IsReady-with_buffer bytes = IsReady-buffer A D L v bytes M.ready

    require_allocated_lem :
        (block : ℕ) (bytes : List ℕ)
        → InUse v block
        → (bytes' : List ℕ) × (require_allocated A L block (with_buffer bytes)
            ≡ ok tt (with_buffer bytes'))
    unfolding data_block_allocated data_block_valid bit_at block_of
    require_allocated_lem block bytes (lo, hi, set) =
        let i1 = M.laid_out.inode_bitmap in
        let i2 = M.laid_out.inode_table in
        let i3 = M.laid_out.data_blocks in
        let i4 = M.laid_out.data_inside in
        let i5 = M.laid_out.block_bits in
        let above : leb v.superblock.data_start block ≡ true = ground arith in
        let below : ltb block v.superblock.total_blocks ≡ true = ground arith in
        let start = v.superblock.block_bitmap_start in
        let tested =
          bitmap_bit_set_lem A D L (with_buffer bytes) start v.superblock.block_bitmap_blocks block
            (IsReady-with_buffer bytes) (omega arith) (omega arith) in
        (block_of A D L v (start + block / 32768), rw (above, below, tested, set) refl)

    block_pointer_lem :
        (inode : Inode) (b : ℕ) (bytes : List ℕ)
        → IsIntact v inode
        → b * 4096 < inode.size
        → (bytes' : List ℕ) × (block_pointer A L inode b (with_buffer bytes)
            ≡ ok (pointer_of v inode b) (with_buffer bytes'))
    unfolding block_pointer pointer_of block_of
    block_pointer_lem inode b bytes I h = elim (Bool-cases (ltb b 10)) [
      | inl direct ↦ (bytes, rw direct refl)
      | inr indirect ↦
          let bound = I.size_bound in
          let used = I.indirect_used (ground arith) in
          let (bytes', allowed) = require_allocated_lem inode.indirect bytes used in
          let inside : leb 1024 (b - 10) ≡ false = ground arith in
          let load =
            read_volume_block_lem A D L (with_buffer bytes') inode.indirect
              (IsReady-with_buffer bytes') (used.1) in
          (block_of A D L v inode.indirect, rw (indirect, allowed, inside, load) refl)
    ]

    pub inode_block_at_lem :
        (inode : Inode) (b : ℕ) (bytes : List ℕ)
        → IsIntact v inode
        → b * 4096 < inode.size
        → (bytes' : List ℕ) × (inode_block_at A L inode b (with_buffer bytes)
            ≡ ok (pointer_of v inode b) (with_buffer bytes'))
    unfolding inode_block_at
    inode_block_at_lem inode b bytes I h =
        let (bytes1, pointed) = block_pointer_lem inode b bytes I h in
        let (bytes2, allowed) =
          require_allocated_lem (pointer_of v inode b) bytes1 (I.blocks_used b h) in
        (bytes2, rw (required_lem inode.size b h, pointed, allowed) refl)
