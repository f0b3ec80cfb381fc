-- ===== src/Fs/MiniFs/InodeTable/Laws.antt =====
-- kernel/fs/minifs.c: the inode operations against one another.
use mini_orange_os.Fs.MiniFs.Inodes.{inode_pointer_shape_valid}
use mini_orange_os.Errno.{einval}
use mini_orange_os.Fs.MiniFs.Inodes.Encoding.{IsStorable}
use mini_orange_os.Mm.Bitmap.{bitmap_get}
use mini_orange_os.Fs.MiniFs.Command.{failed, ok}
use mini_orange_os.Fs.MiniFs.InodeTable.Store.{
  IsMounted, inode_present, bitmap_lem, InodeWritten, write_inode_internal_lem,
  read_inode_internal_lem,
}
use mini_orange_os.Fs.MiniFs.{Inode, Superblock}
use mini_orange_os.Fs.MiniFs.Volume.Store.{block_of}
use mini_orange_os.Fs.MiniFs.Volume.Bitmaps.{
  bit_at, Scanned, first_clear, allocate_bitmap_bit_lem, Marked, bitmap_update_lem,
}
use mini_orange_os.Fs.MiniFs.InodeTable.{
  allocate_inode, free_inode, write_inode_internal, read_inode_internal,
}
use mini_orange_os.Fs.MiniFs.Volume.{Layout, Volume}
use mini_orange_os.Block.RoundTrip.{Disk}
use mini_orange_os.Block.{Ata}
use mini_orange_os.Prelude.{
  leb, ◌==◌, Bool-cases, ℕ, ◌+◌, ◌-◌, ◌/◌, ◌%◌, ◌≤◌, ◌<◌, ◌≡◌, refl, sym, ap, ◌∙◌, subst, ◌⊎◌, inl,
  inr, true, false, ◌||◌, List, arith,
}

module _ (A : Ata) (D : Disk A) (L : Layout) where
  bit_in_other_block :
      (v w : Volume A L) (start q : ℕ)
      → block_of A D L w (start + q / 32768) ≡ block_of A D L v (start + q / 32768)
      → bit_at A D L w start q ≡ bit_at A D L v start q
  unfolding bit_at
  bit_in_other_block v w start q e = ap (λ (b : List ℕ). bitmap_get b (q % 32768)) e

  present_lem :
      (v w : Volume A L) (number : ℕ) (s : Superblock)
      → w.superblock ≡ s
      → inode_present A D L w number ≡ bit_at A D L w s.inode_bitmap_start number
  present_lem v w number s e = λ i. bit_at A D L w ((e i).inode_bitmap_start) number

  -- On a mounted volume, an inode that is present in the bitmap, can be stored and has pointers of the
  -- shape of its size, once written by write_inode_internal, is what read_inode_internal returns; the
  -- entries of all other inodes, and all blocks but the one of the table, are unchanged.
  pub read_inode-write_inode :
      (v : Volume A L) (number : ℕ) (inode : Inode) (M : IsMounted A D L v)
      (known : number < v.superblock.total_inodes)
      → inode_present A D L v number ≡ true
      → IsStorable inode
      → inode_pointer_shape_valid inode ≡ true
      → (w : Volume A L) × (write_inode_internal A L number inode v ≡ ok tt w)
        × InodeWritten A D L v number M known inode w
        × ((w' : Volume A L) × (read_inode_internal A L number w ≡ ok inode w'))
  read_inode-write_inode v number inode M known present S shape =
      let (w, wrote, W) = write_inode_internal_lem A D L v number M known inode S shape in
      let (room, inside) = bitmap_lem A D L v number M known in
      let t = M.laid_out.inode_table in
      let kept : inode_present A D L w number ≡ true =
        present_lem v w number v.superblock W.superblock
        ∙ bit_in_other_block v w v.superblock.inode_bitmap_start number
            (W.others (v.superblock.inode_bitmap_start + number / 32768) (omega arith))
        ∙ present in
      let (w', read, left) =
        read_inode_internal_lem A D L w number W.mounted
          (subst (λ s. number < s.total_inodes) (sym W.superblock) known) in
      (w, wrote, W, (w', read ∙ rw (kept, W.entry, shape) refl))

  -- On a mounted volume with an inode beside number 0, allocate_inode takes the first inode from 1 on
  -- that is not present, as the plain search finds it, and sets its bit and no other; if there is none
  -- it fails with ENOSPC and the disk is unchanged.
  pub allocate_inode_lem :
      (v : Volume A L)
      → IsMounted A D L v
      → 1 < v.superblock.total_inodes
      → Scanned A D L v v.superblock.inode_bitmap_start
          (first_clear A D L v v.superblock.inode_bitmap_start (v.superblock.total_inodes - 1) 1)
          (allocate_inode A L v)
  unfolding allocate_inode
  allocate_inode_lem v M h =
      let b = M.laid_out.inode_bits in
      let t = M.laid_out.inode_table in
      let d = M.laid_out.data_blocks in
      let i = M.laid_out.data_inside in
      allocate_bitmap_bit_lem A D L v v.superblock.inode_bitmap_start
        v.superblock.inode_bitmap_blocks 1 v.superblock.total_inodes M.ready (omega arith) b h

  -- On a mounted volume, free_inode refuses the root and every number that is no inode with EINVAL;
  -- for any other it succeeds, clears the bit of the inode in the bitmap, and changes no other bit and
  -- no other block.
  pub free_inode_lem :
      (v : Volume A L) (number : ℕ)
      → IsMounted A D L v
      → ((number ≡ v.superblock.root_inode) ⊎ (v.superblock.total_inodes ≤ number))
          × (free_inode A L number v ≡ failed einval v)
        ⊎ ((w : Volume A L) × (free_inode A L number v ≡ ok tt w)
            × Marked A D L v.superblock.inode_bitmap_start number false v w)
  unfolding free_inode
  free_inode_lem v number M =
      elim (Bool-cases
        (number == v.superblock.root_inode || leb v.superblock.total_inodes number)) [
          | inl bad ↦ inl (ground arith, rw bad refl)
          | inr good ↦
              let known : number < v.superblock.total_inodes = ground arith in
              let (room, inside) = bitmap_lem A D L v number M known in
              let (w, freed, F) =
                bitmap_update_lem A D L v v.superblock.inode_bitmap_start
                  v.superblock.inode_bitmap_blocks number false M.ready room inside in
              inr (w, rw good freed, F)
        ]
