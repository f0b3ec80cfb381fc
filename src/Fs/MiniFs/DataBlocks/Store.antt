-- ===== src/Fs/MiniFs/DataBlocks/Store.antt =====
-- kernel/fs/minifs.c: a block is taken once, cleared, and given back.
use mini_orange_os.Prelude.Search.{find_from-some}
use mini_orange_os.Mm.Bitmap.{bitmap_get}
use mini_orange_os.Fs.MiniFs.Mount.Geometry.{IsLaidOut}
use mini_orange_os.Errno.{enospc, einval}
use mini_orange_os.Mm.Bitmap.Laws.{Bytes}
use mini_orange_os.Fs.MiniFs.InodeTable.Store.{IsMounted}
use mini_orange_os.Fs.MiniFs.Command.{Outcome, failed, ok}
use mini_orange_os.Fs.MiniFs.Volume.Bitmaps.{
  bit_at, Marked, first_clear, bitmap_update_lem, Scanned, allocate_bitmap_bit_lem,
}
use mini_orange_os.Fs.MiniFs.Volume.Store.{block_of, write_volume_block_from_lem, IsReady-auxiliary}
use mini_orange_os.Fs.MiniFs.Bytes.{
  clear_bytes, length-clear_bytes, get_or-clear_bytes, clear_bytes-Bytes,
}
use mini_orange_os.Fs.MiniFs.Volume.{Layout, Volume, write_volume_block_from, allocate_bitmap_bit}
use mini_orange_os.Block.RoundTrip.{Disk}
use mini_orange_os.Fs.MiniFs.{Superblock, block_size}
use mini_orange_os.Block.{Ata}
use mini_orange_os.Fs.MiniFs.DataBlocks.{data_block_valid, free_block, allocate_block}
use mini_orange_os.Prelude.{
  ◌==◌, if◌then◌else◌, Bool-cases, length, get_or, ℕ, ◌+◌, ◌-◌, ◌/◌, ◌%◌, ◌≤◌, ◌<◌, ◌≡◌, refl, sym,
  ap, ◌∙◌, subst, ◌≢◌, ◌↔◌, ◌⊎◌, inl, inr, true, false, not, Option, none, some, List, arith,
}

data_valid_iff :
    (s : Superblock) (block : ℕ)
    → (data_block_valid s block ≡ true) ↔ ((s.data_start ≤ block) × (block < s.total_blocks))
unfolding data_block_valid
data_valid_iff s block = ground arith

module _ (A : Ata) (D : Disk A) (L : Layout) where
  -- A block of the volume that holds nothing but zeros.
  abbrev pub IsZeroed : List ℕ → Type 0
  IsZeroed bytes = (length bytes ≡ 4096) × ((i : ℕ) → i < 4096 → get_or bytes i 0 ≡ 0)

  -- What a successful allocate_block has done: the block lies in the data area, it was free, it is
  -- now marked and zeroed, and no other data block and no other bit of the block bitmap changed.
  pub record BlockTaken (v : Volume A L) (block : ℕ) (w : Volume A L) : Type 0 where
    pub mounted : IsMounted A D L w
    pub superblock : w.superblock ≡ v.superblock
    pub lower : v.superblock.data_start ≤ block
    pub upper : block < v.superblock.total_blocks
    pub was_free : bit_at A D L v v.superblock.block_bitmap_start block ≡ false
    pub zeroed : IsZeroed (block_of A D L w block)
    pub bits :
        (q : ℕ)
        → q < v.superblock.total_blocks
        → bit_at A D L w v.superblock.block_bitmap_start q
          ≡ (if block == q then true else bit_at A D L v v.superblock.block_bitmap_start q)
    pub others :
        (r : ℕ)
        → r ≢ block
        → r ≢ v.superblock.block_bitmap_start + block / 32768
        → block_of A D L w r ≡ block_of A D L v r

  abbrev pub Taken : Volume A L → Option ℕ → Outcome (Volume A L) ℕ → Type 0
  Taken v none o = (bytes : List ℕ) × (o ≡ failed enospc (record v { io_block = bytes }))
  Taken v (some block) o = (w : Volume A L) × (o ≡ ok block w) × BlockTaken v block w

  zeros_lem : (bytes : List ℕ) → length bytes ≡ 4096 → IsZeroed (clear_bytes bytes 0 block_size)
  zeros_lem bytes len = (
    length-clear_bytes bytes 0 4096 ∙ len,
    λ i h. get_or-clear_bytes bytes 0 4096 i (omega (arith, len)) (omega arith) h,
  )

  -- The rest of allocate_block, once a bit is marked.
  zero_taken :
      (v w : Volume A L) (block : ℕ) (aux : List ℕ)
      → IsMounted A D L v
      → length v.auxiliary_block ≡ 4096
      → Bytes v.auxiliary_block
      → v.superblock.data_start ≤ block
      → block < v.superblock.total_blocks
      → bit_at A D L v v.superblock.block_bitmap_start block ≡ false
      → Marked A D L v.superblock.block_bitmap_start block true v w
      → aux ≡ clear_bytes w.auxiliary_block 0 block_size
      → (w' : Volume A L) × (write_volume_block_from A L block aux
            (record w { auxiliary_block = aux })
          ≡ ok tt w')
        × BlockTaken v block w'
  unfolding block_of bit_at
  zero_taken v w block aux M len small lo hi free K e =
      let start = v.superblock.block_bitmap_start in
      let aux_len : length w.auxiliary_block ≡ 4096 =
        subst (λ b. length b ≡ 4096) (sym K.auxiliary) len in
      let zeroed : IsZeroed aux = subst IsZeroed (sym e) (zeros_lem w.auxiliary_block aux_len) in
      let bytes : Bytes aux =
        subst Bytes (sym e)
          (clear_bytes-Bytes w.auxiliary_block 0 4096 (subst Bytes (sym K.auxiliary) small)) in
      let s = M.laid_out in
      let i1 = s.block_bitmap in
      let i2 = s.inode_bitmap in
      let i3 = s.inode_table in
      let i4 = s.data_blocks in
      let i5 = s.block_bits in
      let (w', wrote, W) =
        write_volume_block_from_lem A D L (record w { auxiliary_block = aux }) block aux
          (IsReady-auxiliary A D L w aux K.ready)
          (subst (λ t. block < t.total_blocks) (sym K.superblock) hi) zeroed.0 bytes in
      (
        w',
        wrote,
        record {
          mounted = record {
            ready = W.ready;
            laid_out = subst IsLaidOut (sym (W.superblock ∙ K.superblock)) s;
          };
          superblock = W.superblock ∙ K.superblock;
          lower = lo;
          upper = hi;
          was_free = free;
          zeroed = subst IsZeroed (sym (W.content block ∙ ground arith)) zeroed;
          bits = λ q h.
              let kept : block_of A D L w' (start + q / 32768)
                  ≡ block_of A D L w (start + q / 32768) =
                W.content (start + q / 32768) ∙ ground arith in
              ap (λ (b : List ℕ). bitmap_get b (q % 32768)) kept ∙ K.bits q;
          others = λ r ne other. W.content r ∙ (ground arith ∙ K.others r other);
        },
      )

  -- On a mounted volume with its auxiliary buffer of 4096 bytes, allocate_block takes the first free
  -- block of the data area, as the plain search finds it: it lies in the data area, was free, is
  -- marked and holds zeros afterwards, and no other bit of the block bitmap and no block but it and its
  -- bitmap block changes. If no block is free it fails with ENOSPC and the disk is unchanged.
  pub allocate_block_lem :
      (v : Volume A L)
      → IsMounted A D L v
      → length v.auxiliary_block ≡ 4096
      → Bytes v.auxiliary_block
      → Taken v
          (first_clear A D L v v.superblock.block_bitmap_start
            (v.superblock.total_blocks - v.superblock.data_start)
            v.superblock.data_start)
          (allocate_block A L v)
  unfolding allocate_block
  allocate_block_lem v M len small = by_cases (first_clear A D L v start rounds first) refl scanned
    where
      start : ℕ
      start = v.superblock.block_bitmap_start

      first : ℕ
      first = v.superblock.data_start

      rounds : ℕ
      rounds = v.superblock.total_blocks - first

      room : start + v.superblock.block_bitmap_blocks ≤ v.superblock.total_blocks
      room =
          let i1 = M.laid_out.inode_bitmap in
          let i2 = M.laid_out.inode_table in
          let i3 = M.laid_out.data_blocks in let i4 = M.laid_out.data_inside in omega arith

      scanned : Scanned A D L v start (first_clear A D L v start rounds first) (
          allocate_bitmap_bit A L start v.superblock.block_bitmap_blocks first
            v.superblock.total_blocks v)
      scanned =
          allocate_bitmap_bit_lem A D L v start v.superblock.block_bitmap_blocks first
            v.superblock.total_blocks M.ready room M.laid_out.block_bits M.laid_out.data_inside

      by_cases :
          (found : Option ℕ)
          → first_clear A D L v start rounds first ≡ found
          → Scanned A D L v start found (
              allocate_bitmap_bit A L start v.superblock.block_bitmap_blocks first
                v.superblock.total_blocks v)
          → Taken v found (allocate_block A L v)
      by_cases none e (bytes, full) = (bytes, rw full refl)
      by_cases (some block) e (w, claimed, K) =
          let F = find_from-some (λ q. not (bit_at A D L v start q)) rounds first block e in
          let lo = F.lower in
          let hi = F.upper in
          let inside = M.laid_out.data_inside in
          let free : bit_at A D L v start block ≡ false = ground (arith, F.passes) in
          let (w', wrote, T) =
            zero_taken v w block (clear_bytes w.auxiliary_block 0 block_size) M len small lo
              (omega arith) free K refl in
          (w', rw (claimed, wrote) refl, T)

  -- On a mounted volume, free_block refuses a number outside the data area with EINVAL, and clears the
  -- bit of any block inside it, and no other bit and no other block.
  pub free_block_lem :
      (v : Volume A L) (block : ℕ)
      → IsMounted A D L v
      → ((block < v.superblock.data_start) ⊎ (v.superblock.total_blocks ≤ block))
          × (free_block A L block v ≡ failed einval v)
        ⊎ ((w : Volume A L) × (free_block A L block v ≡ ok tt w)
            × Marked A D L v.superblock.block_bitmap_start block false v w)
  unfolding free_block
  free_block_lem v block M = elim (Bool-cases (data_block_valid v.superblock block)) [
    | inl good ↦
        let inside = (data_valid_iff v.superblock block).0 good in
        let i1 = M.laid_out.inode_bitmap in
        let i2 = M.laid_out.inode_table in
        let i3 = M.laid_out.data_blocks in
        let i4 = M.laid_out.data_inside in
        let i5 = M.laid_out.block_bits in
        let (w, freed, F) =
          bitmap_update_lem A D L v v.superblock.block_bitmap_start v.superblock.block_bitmap_blocks
            block false M.ready (omega arith) (omega arith) in
        inr (w, rw good freed, F)
    | inr bad ↦ inl (ground (arith, (data_valid_iff v.superblock block).1), rw bad refl)
  ]
