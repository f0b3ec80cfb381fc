-- ===== src/Fs/MiniFs/Writing/Rounds.antt =====
-- kernel/fs/minifs.c: the rounds of minifs_write, and what they leave.
use mini_orange_os.Fs.MiniFs.Command.{ok}
use mini_orange_os.Fs.MiniFs.Writing.{write_rounds}
use mini_orange_os.Mm.Bitmap.{bitmap_get}
use mini_orange_os.Fs.MiniFs.Writing.Chunks.{
  Overwritten, IsSeparate, pointer_kept, write_chunk_locked_lem,
}
use mini_orange_os.Fs.MiniFs.Files.Pointers.{
  file_byte, IsIntact, length-slice, pointer_of, InUse, get_or-slice,
}
use mini_orange_os.Fs.MiniFs.Inodes.{decode_inode}
use mini_orange_os.Fs.MiniFs.{Inode}
use mini_orange_os.Fs.MiniFs.Volume.Store.{block_of}
use mini_orange_os.Fs.MiniFs.Volume.Bitmaps.{bit_at}
use mini_orange_os.Fs.MiniFs.InodeTable.Store.{entry_of, IsMounted}
use mini_orange_os.Fs.MiniFs.Volume.{Layout, Volume}
use mini_orange_os.Mm.Bitmap.Laws.{Bytes}
use mini_orange_os.Block.RoundTrip.{Disk}
use mini_orange_os.Fs.MiniFs.Paths.{slice}
use mini_orange_os.Block.{Ata}
use native.Mathlib.Decide.{dec_lt}
use mini_orange_os.Prelude.{
  ltb, leb, if◌then◌else◌, Bool-cases, length, get_or, set, All-get_or, add32, ℕ, zero, suc, ◌+◌,
  ◌-◌, ◌*◌, ◌/◌, ◌%◌, ◌≤◌, ◌<◌, ◌≡◌, refl, sym, ap, ◌∙◌, subst, ◌⊎◌, inl, inr, true, List, arith,
}

pub slice-Bytes : (n start : ℕ) (xs : List ℕ) → Bytes xs → Bytes (slice n start xs)
unfolding slice
slice-Bytes zero start xs h = tt
slice-Bytes (suc n) start xs h =
    (All-get_or (λ x. x < 256) xs start 0 (omega arith) h, slice-Bytes n (suc start) xs h)

module _ (A : Ata) (D : Disk A) (L : Layout) where
  pub bit_kept :
      (v w : Volume A L) (start q : ℕ)
      → block_of A D L w (start + q / 32768) ≡ block_of A D L v (start + q / 32768)
      → bit_at A D L w start q ≡ bit_at A D L v start q
  unfolding bit_at
  bit_kept v w start q e = ap (λ (b : List ℕ). bitmap_get b (q % 32768)) e

  pub entry_kept :
      (v w : Volume A L) (number : ℕ)
      → w.superblock ≡ v.superblock
      → block_of A D L w (v.superblock.inode_table_start + number / 64)
        ≡ block_of A D L v (v.superblock.inode_table_start + number / 64)
      → entry_of A D L w number ≡ entry_of A D L v number
  unfolding entry_of
  entry_kept v w number sb e =
      (λ i.
        decode_inode (block_of A D L w ((sb i).inode_table_start + number / 64)) (number % 64 * 64))
      ∙ ap (λ (b : List ℕ). decode_inode b (number % 64 * 64)) e

  -- A volume in which only contents of the file have changed.
  pub record SameFile (v : Volume A L) (inode : Inode) (w : Volume A L) : Type 0 where
    pub mounted : IsMounted A D L w
    pub superblock : w.superblock ≡ v.superblock
    pub pointers : (b : ℕ) → pointer_of A D L w inode b ≡ pointer_of A D L v inode b
    pub metadata : (r : ℕ) → r < v.superblock.data_start → block_of A D L w r ≡ block_of A D L v r

  pub used_kept :
      (v w : Volume A L) (inode : Inode) (block : ℕ)
      → IsMounted A D L v
      → SameFile v inode w
      → InUse A D L v block
      → InUse A D L w block
  used_kept v w inode block M K (lo, hi, set) =
      let s = M.laid_out in
      let i1 = s.inode_bitmap in
      let i2 = s.inode_table in
      let i3 = s.data_blocks in
      let i5 = s.block_bits in
      let start = v.superblock.block_bitmap_start in
      let same : bit_at A D L w start block ≡ true =
        bit_kept v w start block (K.metadata (start + block / 32768) (omega arith)) ∙ set in
      subst
        (λ t.
          (t.data_start ≤ block)
          × (block < t.total_blocks)
          × (bit_at A D L w t.block_bitmap_start block ≡ true))
        (sym K.superblock) (lo, hi, same)

  pub IsIntact-kept :
      (v w : Volume A L) (inode : Inode)
      → IsMounted A D L v
      → SameFile v inode w
      → IsIntact A D L v inode
      → IsIntact A D L w inode
  IsIntact-kept v w inode M K I = record {
    size_bound = I.size_bound;
    indirect_used = λ h. used_kept v w inode inode.indirect M K (I.indirect_used h);
    blocks_used = λ b h.
        subst (InUse A D L w) (sym (K.pointers b))
          (used_kept v w inode (pointer_of A D L v inode b) M K (I.blocks_used b h));
  }

  pub IsSeparate-kept :
      (v w : Volume A L) (inode : Inode)
      → SameFile v inode w
      → IsSeparate A D L v inode
      → IsSeparate A D L w inode
  IsSeparate-kept v w inode K S = record {
    apart = λ b c hb hc ne e. S.apart b c hb hc ne (sym (K.pointers b) ∙ e ∙ K.pointers c);
    indirect_apart = λ b h e. S.indirect_apart b h (sym (K.pointers b) ∙ e);
  }

  -- One chunk changes the contents of the file alone.
  pub chunk_same :
      (v w : Volume A L) (inode : Inode) (offset : ℕ) (source : List ℕ)
      → IsIntact A D L v inode
      → IsSeparate A D L v inode
      → offset < inode.size
      → Overwritten A D L v inode offset source w
      → SameFile v inode w
  chunk_same v w inode offset source I S inside O =
      let b = offset / 4096 in
      let used = I.blocks_used b (omega arith) in
      record {
        mounted = O.mounted;
        superblock = O.superblock;
        pointers = λ c.
            pointer_kept A D L v w inode c
              (O.others inode.indirect (λ e. S.indirect_apart b (omega arith) (sym e)));
        metadata = λ r h. O.others r (λ e. omega (arith, used.0, e));
      }

  pub same_trans :
      (u v w : Volume A L) (inode : Inode)
      → SameFile u inode v
      → SameFile v inode w
      → SameFile u inode w
  same_trans u v w inode K K' = record {
    mounted = K'.mounted;
    superblock = K'.superblock ∙ K.superblock;
    pointers = λ b. K'.pointers b ∙ K.pointers b;
    metadata =
        λ r h. K'.metadata r (subst (λ s. r < s.data_start) (sym K.superblock) h) ∙ K.metadata r h;
  }

  -- What the rounds from `completed` on have written.
  pub record Rewritten (v : Volume A L) (inode : Inode) (offset : ℕ) (source : List ℕ)
      (completed : ℕ) (w : Volume A L) : Type 0 where
    pub same : SameFile v inode w
    pub inside :
        (k : ℕ)
        → completed ≤ k
        → k < length source
        → file_byte A D L w inode (offset + k) ≡ get_or source k 0
    pub outside :
        (p : ℕ)
        → p < inode.size
        → (p < offset + completed) ⊎ (offset + length source ≤ p)
        → file_byte A D L w inode p ≡ file_byte A D L v inode p

  -- A chunk and the rounds behind it.
  pub round_written :
      (u v w : Volume A L) (inode : Inode) (offset : ℕ) (source : List ℕ) (completed chunk : ℕ)
      → offset + length source ≤ inode.size
      → completed + chunk ≤ length source
      → SameFile u inode v
      → Overwritten A D L u inode (offset + completed) (slice chunk completed source) v
      → Rewritten v inode offset source (completed + chunk) w
      → Rewritten u inode offset source completed w
  round_written u v w inode offset source completed chunk fits short K O R =
      let len = length-slice chunk completed source in
      record {
        same = same_trans u v w inode K R.same;
        inside = λ k lo hi. elim (dec_lt k (completed + chunk)) [
          | no later ↦ R.inside k (omega arith) hi
          | yes now ↦
              let moved : offset + k ≡ offset + completed + (k - completed) = omega arith in
              let back : completed + (k - completed) ≡ k = omega arith in
              R.outside (offset + k) (omega arith) (inl (omega arith))
              ∙ ap (file_byte A D L v inode) moved
              ∙ O.inside (k - completed) (omega (arith, len))
              ∙ get_or-slice chunk completed (k - completed) source (omega arith)
              ∙ ap (λ (j : ℕ). get_or source j 0) back
        ];
        outside = λ p inside out.
            R.outside p inside (omega arith) ∙ O.outside p inside (omega (arith, len));
      }

  pub write_rounds_lem :
      (rounds : ℕ) (number : ℕ) (inode : Inode) (offset : ℕ) (source : List ℕ) (completed : ℕ)
      (v : Volume A L)
      → IsMounted A D L v
      → IsIntact A D L v inode
      → IsSeparate A D L v inode
      → Bytes source
      → offset + length source ≤ inode.size
      → completed ≤ length source
      → length source ≤ completed + rounds
      → (w : Volume A L) × (write_rounds A L rounds number inode offset source completed v
          ≡ ok (length source) w)
        × Rewritten v inode offset source completed w
  unfolding write_rounds
  write_rounds_lem zero number inode offset source completed v M I S small fits le enough =
      let e : completed ≡ length source = omega arith in
      (
        v,
        (λ i. ok (e i) v),
        record {
          same = record {
            mounted = M;
            superblock = refl;
            pointers = λ b. refl;
            metadata = λ r h. refl;
          };
          inside = λ k lo hi. absurd (omega arith);
          outside = λ p inside out. refl;
        },
      )
  write_rounds_lem (suc n) number inode offset source completed v M I S small fits le enough =
      elim (Bool-cases (leb (length source) completed)) [
        | inl done ↦
            let e : completed ≡ length source = ground arith in
            (
              v,
              rw done (λ i. ok (e i) v),
              record {
                same = record {
                  mounted = M;
                  superblock = refl;
                  pointers = λ b. refl;
                  metadata = λ r h. refl;
                };
                inside = λ k lo hi. absurd (omega arith);
                outside = λ p inside out. refl;
              },
            )
        | inr more ↦
            let bound = I.size_bound in
            let left : completed < length source = ground arith in
            let position = add32 offset completed in
            let sum : position ≡ offset + completed = omega arith in
            let space = 4096 - position % 4096 in
            let chunk =
              if ltb (length source - completed) space then length source - completed else space in
            let some_bytes : 0 < chunk = ground arith in
            let in_block : position % 4096 + chunk ≤ 4096 = ground arith in
            let no_more : chunk ≤ length source - completed = ground arith in
            let part = slice chunk completed source in
            let len = length-slice chunk completed source in
            let (v1, wrote, O) =
              write_chunk_locked_lem A D L v number inode position part M I S (omega (arith, len))
                (omega (arith, len)) (omega (arith, len))
                (slice-Bytes chunk completed source small) in
            let K = chunk_same v v1 inode position part I S (omega arith) O in
            let (w, next, R) =
              write_rounds_lem n number inode offset source (completed + chunk) v1 K.mounted
                (IsIntact-kept v v1 inode M K I) (IsSeparate-kept v v1 inode K S) small fits
                (omega arith) (omega arith) in
            (
              w,
              rw (more, wrote) next,
              round_written v v1 w inode offset source completed chunk fits (omega arith) K
                  (subst (λ p. Overwritten A D L v inode p part v1) sum O) R,
            )
      ]
