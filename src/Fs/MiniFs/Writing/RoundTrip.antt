-- ===== src/Fs/MiniFs/Writing/RoundTrip.antt =====
-- kernel/fs/minifs.c: what minifs_write stores inside a file, minifs_read returns.
use mini_orange_os.Fs.MiniFs.Writing.Rounds.{
  Rewritten, SameFile, entry_kept, bit_kept, write_rounds_lem, IsIntact-kept, IsSeparate-kept,
  same_trans,
}
use mini_orange_os.Fs.MiniFs.Directory.NameBytes.{same_elements}
use mini_orange_os.Fs.MiniFs.InodeTable.{read_inode_internal}
use mini_orange_os.Fs.MiniFs.Bytes.{Outside}
use mini_orange_os.Fs.MiniFs.Files.{minifs_read}
use mini_orange_os.Prelude.Int.{pos}
use mini_orange_os.Fs.MiniFs.Mounting.{FileSystem}
use mini_orange_os.Fs.MiniFs.Command.{ok}
use mini_orange_os.Fs.MiniFs.Writing.{minifs_write, write_locked}
use mini_orange_os.Fs.MiniFs.Writing.Chunks.{IsSeparate}
use mini_orange_os.Fs.MiniFs.Files.Reading.{minifs_read_lem}
use mini_orange_os.Fs.MiniFs.Files.Pointers.{file_byte, IsIntact, pointer_of, available}
use mini_orange_os.Fs.MiniFs.Inodes.{inode_pointer_shape_valid}
use mini_orange_os.Fs.MiniFs.{Inode, max_file_size}
use mini_orange_os.Fs.MiniFs.Volume.Store.{block_of, IsReady-buffer}
use mini_orange_os.Fs.MiniFs.Volume.Bitmaps.{bit_at}
use mini_orange_os.Fs.MiniFs.InodeTable.Store.{
  entry_of, IsMounted, inode_present, read_inode_internal_lem,
}
use mini_orange_os.Fs.MiniFs.Volume.{Layout, Volume}
use mini_orange_os.Mm.Bitmap.Laws.{Bytes}
use mini_orange_os.Block.RoundTrip.{Disk}
use mini_orange_os.Block.{Ata}
use mini_orange_os.Prelude.{
  ltb, ◌==◌, length, ℕ, ◌+◌, ◌-◌, ◌/◌, ◌≤◌, ◌<◌, ◌≡◌, refl, sym, ◌∙◌, subst, true, false, ◌||◌,
  some, List, arith,
}

module _ (A : Ata) (D : Disk A) (L : Layout) where
  -- The buffer is no part of a file.
  same_buffer :
      (v : Volume A L) (inode : Inode) (bytes : List ℕ)
      → IsMounted A D L v
      → SameFile A D L v inode (record v { io_block = bytes })
  unfolding block_of pointer_of
  same_buffer v inode bytes M = record {
    mounted = record { ready = IsReady-buffer A D L v bytes M.ready; laid_out = M.laid_out };
    superblock = refl;
    pointers = λ b. refl;
    metadata = λ r h. refl;
  }

  bytes_buffer :
      (v : Volume A L) (inode : Inode) (bytes : List ℕ) (p : ℕ)
      → file_byte A D L (record v { io_block = bytes }) inode p ≡ file_byte A D L v inode p
  unfolding file_byte block_of pointer_of
  bytes_buffer v inode bytes p = refl

  write_locked_lem :
      (v : Volume A L) (number : ℕ) (inode : Inode) (offset : ℕ) (source : List ℕ)
      → IsMounted A D L v
      → number < v.superblock.total_inodes
      → inode_present A D L v number ≡ true
      → entry_of A D L v number ≡ some inode
      → inode_pointer_shape_valid inode ≡ true
      → (inode.mode == 2) ≡ false
      → IsIntact A D L v inode
      → IsSeparate A D L v inode
      → Bytes source
      → offset + length source ≤ inode.size
      → (w : Volume A L) × (write_locked A L number offset source v ≡ ok (length source) w)
        × Rewritten A D L v inode offset source 0 w
  unfolding write_locked
  write_locked_lem v number inode offset source M known present stored shape file I S small fits =
      let (v0, read, (bytes, e)) = read_inode_internal_lem A D L v number M known in
      let v1 : Volume A L = record v { io_block = bytes } in
      let found : read_inode_internal A L number v ≡ ok inode v1 =
        read ∙ rw (present, stored, shape, e) refl in
      let K = same_buffer v inode bytes M in
      let (w, wrote, R) =
        write_rounds_lem A D L (length source) number inode offset source 0 v1 K.mounted
          (IsIntact-kept A D L v v1 inode M K I) (IsSeparate-kept A D L v v1 inode K S) small fits
          (omega arith) (omega arith) in
      let before : ltb inode.size offset ≡ false = ground arith in
      (
        w,
        rw (found, file, before) wrote,
        record {
          same = same_trans A D L v v1 w inode K R.same;
          inside = R.inside;
          outside = λ p inside out. R.outside p inside out ∙ bytes_buffer v inode bytes p;
        },
      )

  -- On a mounted file system with a free lock, for an inode that is present, has pointers of the shape
  -- of its size, is no directory and whose blocks are all in use and apart from one another: a
  -- minifs_write of bytes that lies inside the file writes all of them, a minifs_read of the same range
  -- then returns exactly those bytes, and all other bytes of the file are unchanged, whatever blocks the
  -- range crosses.
  pub minifs_read-minifs_write :
      (fs : FileSystem A L) (number : ℕ) (inode : Inode) (offset : ℕ) (source : List ℕ)
      → fs.is_mounted ≡ true
      → fs.operation_busy ≡ false
      → IsMounted A D L fs.volume
      → number < fs.volume.superblock.total_inodes
      → inode_present A D L fs.volume number ≡ true
      → entry_of A D L fs.volume number ≡ some inode
      → inode_pointer_shape_valid inode ≡ true
      → (inode.mode == 2) ≡ false
      → IsIntact A D L fs.volume inode
      → IsSeparate A D L fs.volume inode
      → Bytes source
      → offset + length source ≤ inode.size
      → (fs' : FileSystem A L) × (fs'' : FileSystem A L) × (minifs_write A L number offset source fs
          ≡ (pos (length source), fs'))
        × (minifs_read A L number offset (length source) fs' ≡ (pos (length source), source, fs''))
        × ((p : ℕ)
            → p < inode.size
            → Outside p offset (length source)
            → file_byte A D L fs'.volume inode p ≡ file_byte A D L fs.volume inode p)
  unfolding minifs_write
  minifs_read-minifs_write fs number inode offset source on free M known present stored shape file I
        S small fits =
      let v = fs.volume in
      let n = length source in
      let bound = I.size_bound in
      let (w, wrote, R) =
        write_locked_lem v number inode offset source M known present stored shape file I S small
          fits in
      let K = R.same in
      let table = M.laid_out.inode_table in
      let data_start = M.laid_out.data_blocks in
      let entries = M.laid_out.inode_entries in
      let bits = M.laid_out.inode_bits in
      let fs' : FileSystem A L = record { volume = w; is_mounted = true; operation_busy = false } in
      let stored' : entry_of A D L w number ≡ some inode =
        entry_kept A D L v w number K.superblock
          (K.metadata (v.superblock.inode_table_start + number / 64) (omega arith))
        ∙ stored in
      let present' : inode_present A D L w number ≡ true =
        subst (λ s. bit_at A D L w s.inode_bitmap_start number ≡ true) (sym K.superblock)
          (bit_kept A D L v w v.superblock.inode_bitmap_start number
              (K.metadata (v.superblock.inode_bitmap_start + number / 32768) (omega arith))
            ∙ present) in
      let (out, fs'', read, len, content, unlocked) =
        minifs_read_lem A D L fs' number inode offset n refl refl K.mounted
          (subst (λ s. number < s.total_inodes) (sym K.superblock) known) present' stored' shape
          file (IsIntact-kept A D L v w inode M K I) in
      let all : available inode.size offset n ≡ n = omega arith in
      let returned : out ≡ source = same_elements out source (len ∙ all) (λ k h.
        content k (omega (arith, len)) ∙ R.inside k (omega arith) (omega (arith, len, all))) in
      let accepted : (ltb 0x7FFFFFFF n
            || ltb max_file_size offset
            || ltb (max_file_size - offset) n)
          ≡ false =
        ground arith in
      (
        fs',
        fs'',
        rw (on, accepted, free, wrote) refl,
        read ∙ (λ i. (pos (all i), returned i, fs'')),
        λ p inside out. R.outside p inside (omega arith),
      )
