-- ===== src/Fs/MiniFs/Writing/Chunks.antt =====
-- kernel/fs/minifs.c: writing inside a file changes the bytes written and no others.
use mini_orange_os.Fs.MiniFs.Command.{ok}
use mini_orange_os.Fs.MiniFs.Writing.{write_chunk_locked, overwrite_chunk}
use mini_orange_os.Fs.MiniFs.Mount.Geometry.{IsLaidOut}
use mini_orange_os.Fs.MiniFs.InodeTable.Store.{IsMounted}
use mini_orange_os.Fs.MiniFs.{Inode, divide_round_up}
use mini_orange_os.Fs.MiniFs.Volume.Store.{
  block_of, read_volume_block_lem, IsReady-buffer, write_volume_block_from_lem, IsReady,
}
use mini_orange_os.Fs.MiniFs.Files.Pointers.{file_byte, pointer_of, IsIntact, inode_block_at_lem}
use mini_orange_os.Fs.MiniFs.Volume.{Layout, Volume}
use mini_orange_os.Mm.Bitmap.Laws.{Bytes}
use mini_orange_os.Block.RoundTrip.{Disk}
use mini_orange_os.Fs.MiniFs.Bytes.{copy_bytes, Outside, read_le32}
use mini_orange_os.Block.{Ata}
use native.Mathlib.Decide.{ℕ_discrete}
use mini_orange_os.Prelude.{
  ltb, ◌==◌, if◌then◌else◌, length, get_or, set, length-set, get_or-set_self, get_or-set_ne,
  All-set, add32, ℕ, zero, suc, ◌+◌, ◌-◌, ◌*◌, ◌/◌, ◌%◌, ◌≤◌, ◌<◌, ◌≡◌, refl, sym, ◌∙◌, subst, ◌≢◌,
  true, false, List, [], ◌∷◌, arith,
}

-- copy_bytes writes where it should.
length-copy_bytes : (d : List ℕ) (o : ℕ) (s : List ℕ) → length (copy_bytes d o s) ≡ length d
unfolding copy_bytes
length-copy_bytes d o [] = refl
length-copy_bytes d o (x ∷ s) = length-copy_bytes (set d o x) (suc o) s ∙ length-set d o x

get_or-copy_bytes-Outside :
    (d : List ℕ) (o : ℕ) (s : List ℕ) (i : ℕ)
    → Outside i o (length s)
    → get_or (copy_bytes d o s) i 0 ≡ get_or d i 0
unfolding copy_bytes
get_or-copy_bytes-Outside d o [] i out = refl
get_or-copy_bytes-Outside d o (x ∷ s) i out =
    get_or-copy_bytes-Outside (set d o x) (suc o) s i (omega arith)
    ∙ get_or-set_ne d o i x 0 (omega arith)

get_or-copy_bytes :
    (d : List ℕ) (o : ℕ) (s : List ℕ) (k : ℕ)
    → o + length s ≤ length d
    → k < length s
    → get_or (copy_bytes d o s) (o + k) 0 ≡ get_or s k 0
unfolding copy_bytes
get_or-copy_bytes d o [] k fits h = absurd (omega arith)
get_or-copy_bytes d o (x ∷ s) zero fits h =
    let z : o + 0 ≡ o = omega arith in
    rw z (
      get_or-copy_bytes-Outside (set d o x) (suc o) s o (omega arith)
      ∙ get_or-set_self d o x 0 (omega arith))
get_or-copy_bytes d o (x ∷ s) (suc k) fits h =
    let z : o + suc k ≡ suc o + k = omega arith in
    rw z (get_or-copy_bytes (set d o x) (suc o) s k (omega (arith, length-set d o x)) (omega arith))

copy_bytes-Bytes : (d : List ℕ) (o : ℕ) (s : List ℕ) → Bytes d → Bytes s → Bytes (copy_bytes d o s)
unfolding copy_bytes
copy_bytes-Bytes d o [] h hs = h
copy_bytes-Bytes d o (x ∷ s) h hs =
    copy_bytes-Bytes (set d o x) (suc o) s (All-set (λ y. y < 256) d o x (hs.0) h) (hs.1)

allocated_lem : (size b : ℕ) → b * 4096 < size → ltb b (divide_round_up size 4096) ≡ true
unfolding divide_round_up
allocated_lem size b h = ground arith

module _ (A : Ata) (D : Disk A) (L : Layout) where
  -- No two blocks of a file are one block of the volume, and none is the indirect block.
  pub record IsSeparate (v : Volume A L) (inode : Inode) : Type 0 where
    pub apart :
        (b c : ℕ)
        → b * 4096 < inode.size
        → c * 4096 < inode.size
        → b ≢ c
        → pointer_of A D L v inode b ≢ pointer_of A D L v inode c
    pub indirect_apart :
        (b : ℕ) → b * 4096 < inode.size → pointer_of A D L v inode b ≢ inode.indirect

  -- `w` is `v` with `source` at `offset` of a file, whose other bytes are the same.
  pub record Overwritten (v : Volume A L) (inode : Inode) (offset : ℕ) (source : List ℕ)
      (w : Volume A L) : Type 0 where
    pub mounted : IsMounted A D L w
    pub superblock : w.superblock ≡ v.superblock
    pub inside :
        (k : ℕ) → k < length source → file_byte A D L w inode (offset + k) ≡ get_or source k 0
    pub outside :
        (p : ℕ)
        → p < inode.size
        → Outside p offset (length source)
        → file_byte A D L w inode p ≡ file_byte A D L v inode p
    pub others :
        (r : ℕ)
        → r ≢ pointer_of A D L v inode (offset / 4096)
        → block_of A D L w r ≡ block_of A D L v r

  -- The pointers of a file survive a write to one of its blocks.
  pub pointer_kept :
      (v w : Volume A L) (inode : Inode) (b : ℕ)
      → block_of A D L w inode.indirect ≡ block_of A D L v inode.indirect
      → pointer_of A D L w inode b ≡ pointer_of A D L v inode b
  unfolding pointer_of
  pointer_kept v w inode b e =
      λ i. if ltb b 10 then get_or inode.direct b 0 else read_le32 (e i) ((b - 10) * 4)

  byte_of : Volume A L → ℕ → ℕ → ℕ
  byte_of v pointer i = get_or (block_of A D L v pointer) i 0

  written_lem :
      (v w : Volume A L) (inode : Inode) (offset : ℕ) (source : List ℕ)
      → IsMounted A D L v
      → IsIntact A D L v inode
      → IsSeparate v inode
      → offset + length source ≤ inode.size
      → 0 < length source
      → offset % 4096 + length source ≤ 4096
      → w.superblock ≡ v.superblock
      → IsReady A D L w
      → ((c : ℕ)
          → block_of A D L w c ≡ (
              if pointer_of A D L v inode (offset / 4096) == c
              then copy_bytes
                  (block_of A D L v (pointer_of A D L v inode (offset / 4096)))
                  (offset % 4096)
                  source
              else block_of A D L v c))
      → Overwritten v inode offset source w
  unfolding file_byte
  written_lem v w inode offset source M I S fits some_bytes in_block same ready content =
      let b = offset / 4096 in
      let target = pointer_of A D L v inode b in
      let old = block_of A D L v target in
      let new = copy_bytes old (offset % 4096) source in
      let used = I.blocks_used b (omega arith) in
      let len = M.ready.block_length target (used.1) in
      let kept : (r : ℕ) → r ≢ target → block_of A D L w r ≡ block_of A D L v r =
        λ r ne. content r ∙ ground arith in
      let hit : block_of A D L w target ≡ new = content target ∙ ground arith in
      let indirect = kept inode.indirect (λ e. S.indirect_apart b (omega arith) (sym e)) in
      let pointer = λ (c : ℕ). pointer_kept v w inode c indirect in
      record {
        mounted = record { ready = ready; laid_out = subst IsLaidOut (sym same) M.laid_out };
        superblock = same;
        inside = λ k h.
            let quotient : (offset + k) / 4096 ≡ b = omega arith in
            let remainder : (offset + k) % 4096 ≡ offset % 4096 + k = omega arith in
            rw (quotient, remainder, pointer b, hit)
              (get_or-copy_bytes old (offset % 4096) source k (omega (arith, len)) h);
        outside = λ p inside out. elim (ℕ_discrete (p / 4096) b) [
          | yes e ↦
              rw (e, pointer b, hit)
                (get_or-copy_bytes-Outside old (offset % 4096) source (p % 4096) (omega arith))
          | no ne ↦
              rw
                (
                  pointer (p / 4096),
                  kept (pointer_of A D L v inode (p / 4096))
                      (S.apart (p / 4096) b (omega arith) (omega arith) ne),
                )
                refl
        ];
        others = kept;
      }

  -- On a mounted volume, a chunk that lies inside an intact file, whose blocks are apart from one
  -- another, and inside one of its blocks: write_chunk_locked succeeds and leaves the inode, the chunk's
  -- bytes are the ones written, all other bytes of the file are the same, and so is every block of the
  -- volume but the one written.
  pub write_chunk_locked_lem :
      (v : Volume A L) (number : ℕ) (inode : Inode) (offset : ℕ) (source : List ℕ)
      → IsMounted A D L v
      → IsIntact A D L v inode
      → IsSeparate v inode
      → offset + length source ≤ inode.size
      → 0 < length source
      → offset % 4096 + length source ≤ 4096
      → Bytes source
      → (w : Volume A L) × (write_chunk_locked A L number inode offset source v ≡ ok inode w)
        × Overwritten v inode offset source w
  unfolding write_chunk_locked overwrite_chunk block_of pointer_of file_byte
  write_chunk_locked_lem v number inode offset source M I S fits some_bytes in_block bytes =
      let b = offset / 4096 in
      let target = pointer_of A D L v inode b in
      let old = block_of A D L v target in
      let new = copy_bytes old (offset % 4096) source in
      let bound = I.size_bound in
      let used = I.blocks_used b (omega arith) in
      let (bytes1, located) = inode_block_at_lem A D L v M inode b v.io_block I (omega arith) in
      let load =
        read_volume_block_lem A D L (record v { io_block = bytes1 }) target
          (IsReady-buffer A D L v bytes1 M.ready) (used.1) in
      let (w, wrote, W) =
        write_volume_block_from_lem A D L (record v { io_block = new }) target new
          (IsReady-buffer A D L v new M.ready) (used.1)
          (length-copy_bytes old (offset % 4096) source ∙ M.ready.block_length target (used.1))
          (copy_bytes-Bytes old (offset % 4096) source (M.ready.block_bytes target (used.1))
            bytes) in
      let in_file : ltb b (divide_round_up inode.size 4096) ≡ true =
        allocated_lem inode.size b (omega arith) in
      let no_growth : ltb inode.size (add32 offset (length source)) ≡ false = ground arith in
      (
        w,
        rw (in_file, located, load, wrote, no_growth) refl,
        written_lem v w inode offset source M I S fits some_bytes in_block W.superblock W.ready
            W.content,
      )
