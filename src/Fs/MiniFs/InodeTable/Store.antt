-- ===== src/Fs/MiniFs/InodeTable/Store.antt =====
-- kernel/fs/minifs.c: an inode that was written is what is read, and its neighbours stay.
use mini_orange_os.Fs.MiniFs.Inodes.RoundTrip.{decode_inode_cong, decode_inode-encode_inode}
use mini_orange_os.Fs.MiniFs.Inodes.Encoding.{
  IsStorable, get_or-encode_inode, length-encode_inode, encode_inode-Bytes,
}
use mini_orange_os.Errno.{eio}
use mini_orange_os.Fs.MiniFs.Mount.Geometry.{IsLaidOut}
use mini_orange_os.Fs.MiniFs.Volume.Store.{
  IsReady, block_of, read_volume_block_lem, IsReady-buffer, write_volume_block_from_lem,
}
use mini_orange_os.Fs.MiniFs.Inodes.{decode_inode, encode_inode, inode_pointer_shape_valid}
use mini_orange_os.Fs.MiniFs.InodeTable.{
  load_table_block, checked_inode, read_inode_internal, write_inode_internal,
}
use mini_orange_os.Fs.MiniFs.Command.{Outcome, ok, failed}
use mini_orange_os.Fs.MiniFs.Volume.Bitmaps.{bit_at, bitmap_bit_set_lem}
use mini_orange_os.Fs.MiniFs.{Inode}
use mini_orange_os.Fs.MiniFs.Volume.{Layout, Volume}
use mini_orange_os.Block.RoundTrip.{Disk}
use mini_orange_os.Block.{Ata}
use native.Mathlib.Decide.{ℕ_discrete}
use mini_orange_os.Prelude.{
  leb, ◌==◌, if◌then◌else◌, Bool-cases, add32, ℕ, ◌+◌, ◌*◌, ◌/◌, ◌%◌, ◌≤◌, ◌<◌, ◌≡◌, refl, sym, ap,
  ◌∙◌, subst, ◌≢◌, inl, inr, Bool, true, false, Option, some, List, arith,
}

module _ (A : Ata) (D : Disk A) (L : Layout) where
  -- The entry of an inode in the table on the volume.
  unfoldable pub entry_of : Volume A L → ℕ → Option Inode
  entry_of v number =
      decode_inode (block_of A D L v (v.superblock.inode_table_start + number / 64))
        (number % 64 * 64)

  -- Whether the bitmap on the volume has an inode.
  abbrev pub inode_present : Volume A L → ℕ → Bool
  inode_present v number = bit_at A D L v v.superblock.inode_bitmap_start number

  -- A volume that is ready and laid out.
  pub record IsMounted (v : Volume A L) : Type 0 where
    pub ready : IsReady A D L v
    pub laid_out : IsLaidOut v.superblock

  -- What reading an inode returns: the entry, if the inode is present and its pointers have the shape
  -- of its size.
  abbrev pub inode_read : Bool → Option Inode → Volume A L → Outcome (Volume A L) Inode
  inode_read present entry w = if present then checked_inode A L entry w else failed eio w

  module _ (v : Volume A L) (number : ℕ) (M : IsMounted v)
      (known : number < v.superblock.total_inodes) where
    open M use {ready, laid_out}

    table_lem :
        (leb v.superblock.inode_table_blocks (number / 64) ≡ false)
        × (v.superblock.inode_table_start + number / 64 < v.superblock.total_blocks)
        × (add32 v.superblock.inode_table_start (number / 64)
            ≡ v.superblock.inode_table_start + number / 64)
    table_lem =
        let e = laid_out.inode_entries in
        let d = laid_out.data_blocks in
        let i = laid_out.data_inside in
        let s = ready.device_small in
        let o = ready.on_device in let t = ready.total in (ground arith, omega arith, omega arith)

    load_table_block_lem :
        load_table_block A L number v
        ≡ ok tt (record v {
          io_block = block_of A D L v (v.superblock.inode_table_start + number / 64);
        })
    unfolding load_table_block
    load_table_block_lem =
        let (present, inside, sum) = table_lem in
        rw (present, sum, read_volume_block_lem A D L v _ ready inside) refl

    pub bitmap_lem :
        (v.superblock.inode_bitmap_start + v.superblock.inode_bitmap_blocks
          ≤ v.superblock.total_blocks)
        × (number / 32768 < v.superblock.inode_bitmap_blocks)
    bitmap_lem =
        let b = laid_out.inode_bits in
        let t = laid_out.inode_table in
        let d = laid_out.data_blocks in let i = laid_out.data_inside in (omega arith, omega arith)

    -- Reading changes the buffer alone.
    pub read_inode_internal_lem :
        (w : Volume A L) × (read_inode_internal A L number v
          ≡ inode_read (inode_present v number) (entry_of v number) w)
        × ((bytes : List ℕ) × (w ≡ record v { io_block = bytes }))
    unfolding read_inode_internal entry_of load_table_block block_of
    read_inode_internal_lem =
        let (room, inside) = bitmap_lem in
        let tested = bitmap_bit_set_lem A D L v _ _ number ready room inside in
        let r = v.superblock.inode_table_start + number / 64 in
        let (present, fits, sum) = table_lem in
        let bitmap = block_of A D L v (v.superblock.inode_bitmap_start + number / 32768) in
        let load =
          read_volume_block_lem A D L (record v { io_block = bitmap }) r
            (IsReady-buffer A D L v bitmap ready) fits in
        let in_table : leb v.superblock.total_inodes number ≡ false = ground (arith, known) in
        elim (Bool-cases (inode_present v number)) [
          | inl here ↦ (
            record v { io_block = block_of A D L v r },
            rw (in_table, tested, here, present, sum, load) refl,
            (block_of A D L v r, refl),
          )
          | inr gone ↦
              (record v { io_block = bitmap }, rw (in_table, tested, gone) refl, (bitmap, refl))
        ]

    -- What a write of an inode has done.
    pub record InodeWritten (inode : Inode) (w : Volume A L) : Type 0 where
      pub mounted : IsMounted w
      pub superblock : w.superblock ≡ v.superblock
      pub entry : entry_of w number ≡ some inode
      pub neighbours : (m : ℕ) → m ≢ number → entry_of w m ≡ entry_of v m
      pub others :
          (r : ℕ)
          → r ≢ v.superblock.inode_table_start + number / 64
          → block_of A D L w r ≡ block_of A D L v r

    neighbour_lem :
        (inode : Inode) (m : ℕ) (block : List ℕ)
        → m ≢ number
        → m / 64 ≡ number / 64
        → decode_inode (encode_inode inode (number % 64 * 64) block) (m % 64 * 64)
          ≡ decode_inode block (m % 64 * 64)
    neighbour_lem inode m block ne same =
        decode_inode_cong _ block (m % 64 * 64)
          (λ i lo hi. get_or-encode_inode inode (number % 64 * 64) block i (omega arith))

    -- An entry of a volume with the same superblock, and with one block of the table rewritten.
    entry_elsewhere :
        (w : Volume A L) (m : ℕ) (block : List ℕ)
        → w.superblock ≡ v.superblock
        → block_of A D L w (v.superblock.inode_table_start + m / 64) ≡ block
        → entry_of w m ≡ decode_inode block (m % 64 * 64)
    unfolding entry_of
    entry_elsewhere w m block sb e =
        (λ i. decode_inode (block_of A D L w ((sb i).inode_table_start + m / 64)) (m % 64 * 64))
        ∙ ap (λ (b : List ℕ). decode_inode b (m % 64 * 64)) e

    entries_after :
        (inode : Inode) (w : Volume A L)
        → IsStorable inode
        → w.superblock ≡ v.superblock
        → ((c : ℕ)
            → block_of A D L w c ≡ (
                if v.superblock.inode_table_start + number / 64 == c
                then encode_inode inode
                    (number % 64 * 64)
                    (block_of A D L v (v.superblock.inode_table_start + number / 64))
                else block_of A D L v c))
        → (entry_of w number ≡ some inode) × ((m : ℕ) → m ≢ number → entry_of w m ≡ entry_of v m)
    entries_after inode w S sb content =
        let start = v.superblock.inode_table_start in
        let r = start + number / 64 in
        let o = number % 64 * 64 in
        let old = block_of A D L v r in
        let len = ready.block_length r (table_lem.1) in
        let self : block_of A D L w r ≡ encode_inode inode o old = content r ∙ ground arith in
        (
          entry_elsewhere w number _ sb self
              ∙ decode_inode-encode_inode inode o old (omega (arith, len)) S,
          λ m ne. elim (ℕ_discrete (m / 64) (number / 64)) [
            | yes e ↦
                let there : block_of A D L w (start + m / 64) ≡ encode_inode inode o old =
                  rw e self in
                let before : block_of A D L v (start + m / 64) ≡ old = rw e refl in
                entry_elsewhere w m _ sb there
                ∙ neighbour_lem inode m old ne e
                ∙ sym (entry_elsewhere v m _ refl before)
            | no apart ↦
                let kept : block_of A D L w (start + m / 64) ≡ block_of A D L v (start + m / 64) =
                  content (start + m / 64) ∙ ground arith in
                entry_elsewhere w m _ sb kept ∙ sym (entry_elsewhere v m _ refl refl)
          ],
        )

    pub write_inode_internal_lem :
        (inode : Inode)
        → IsStorable inode
        → inode_pointer_shape_valid inode ≡ true
        → (w : Volume A L) × (write_inode_internal A L number inode v ≡ ok tt w)
          × InodeWritten inode w
    unfolding write_inode_internal load_table_block block_of
    write_inode_internal_lem inode S shape =
        let r = v.superblock.inode_table_start + number / 64 in
        let o = number % 64 * 64 in
        let old = block_of A D L v r in
        let new = encode_inode inode o old in
        let (present, fits, sum) = table_lem in
        let len = ready.block_length r fits in
        let (w, wrote, W) =
          write_volume_block_from_lem A D L (record v { io_block = new }) r new
            (IsReady-buffer A D L v new ready) fits (length-encode_inode inode o old ∙ len)
            (encode_inode-Bytes inode o old (ready.block_bytes r fits)) in
        let in_table : leb v.superblock.total_inodes number ≡ false = ground (arith, known) in
        let entries = entries_after inode w S W.superblock W.content in
        (
          w,
          rw (in_table, shape, present, sum, read_volume_block_lem A D L v r ready fits, wrote)
              refl,
          record {
            mounted = record {
              ready = W.ready;
              laid_out = subst IsLaidOut (sym W.superblock) laid_out;
            };
            superblock = W.superblock;
            entry = entries.0;
            neighbours = entries.1;
            others = λ c ne. W.content c ∙ ground arith;
          },
        )
