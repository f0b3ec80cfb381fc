-- ===== src/Fs/MiniFs/Volume/Bitmaps.antt =====
-- kernel/fs/minifs.c: the bitmaps of a volume as sets of numbers. A bit is set or cleared on the disk
-- alone, and a scan takes the first clear one.
use native.Mathlib.Decide.{ℕ_discrete}
use mini_orange_os.Errno.{enospc}
use mini_orange_os.Prelude.Search.{find_from}
use mini_orange_os.Mm.Bitmap.Laws.{length-bitmap_set, bitmap_set-Bytes, bitmap_get-set}
use mini_orange_os.Fs.MiniFs.Command.{ok, Outcome, failed}
use mini_orange_os.Fs.MiniFs.Volume.Store.{
  IsReady, block_of, IsReady-buffer, write_volume_block_from_lem, read_volume_block_lem,
}
use mini_orange_os.Mm.Bitmap.{bitmap_get, bitmap_set}
use mini_orange_os.Fs.MiniFs.Volume.{
  Layout, Volume, bitmap_update, write_volume_block_from, claim_bit, bitmap_bit_set, scan_bitmap,
  load_bitmap, allocate_bitmap_bit,
}
use mini_orange_os.Block.RoundTrip.{Disk}
use mini_orange_os.Block.{Ata}
use mini_orange_os.Prelude.{
  leb, ◌==◌, if◌then◌else◌, ==_iff, Bool-cases, set, add32, ℕ, zero, suc, ◌+◌, ◌-◌, ◌*◌, ◌/◌, ◌%◌,
  ◌≤◌, ◌<◌, ◌≡◌, refl, sym, ap, ◌∙◌, ◌≢◌, inl, inr, Bool, true, false, not, Option, none, some,
  List, arith,
}

module _ (A : Ata) (D : Disk A) (L : Layout) where
  -- Bit `bit` of the bitmap whose first block is `start`.
  unfoldable pub bit_at : Volume A L → ℕ → ℕ → Bool
  bit_at v start bit = bitmap_get (block_of A D L v (start + bit / 32768)) (bit % 32768)

  -- `w` is `v` with one bit written, on the disk, and no other bit or block changed.
  pub record Marked (start bit : ℕ) (value : Bool) (v w : Volume A L) : Type 0 where
    pub superblock : w.superblock ≡ v.superblock
    pub auxiliary : w.auxiliary_block ≡ v.auxiliary_block
    pub ready : IsReady A D L w
    pub bits : (q : ℕ) → bit_at w start q ≡ (if bit == q then value else bit_at v start q)
    pub others : (r : ℕ) → r ≢ start + bit / 32768 → block_of A D L w r ≡ block_of A D L v r

  -- A bitmap of `count` blocks inside the volume.
  abbrev pub Region : Volume A L → ℕ → ℕ → Type 0
  Region v start count = start + count ≤ v.superblock.total_blocks

  block_number :
      (v : Volume A L) (start count b : ℕ)
      → IsReady A D L v
      → Region v start count
      → b < count
      → add32 start b ≡ start + b
  block_number v start count b R fits h = omega (arith, R.total, R.on_device, R.device_small)

  -- The write of a changed bitmap block.
  write_bit :
      (v : Volume A L) (start bit : ℕ) (value : Bool)
      → IsReady A D L v
      → start + bit / 32768 < v.superblock.total_blocks
      → (w : Volume A L) × (write_volume_block_from A L
            (start + bit / 32768)
            (bitmap_set (block_of A D L v (start + bit / 32768)) (bit % 32768) value)
            v
          ≡ ok tt w)
        × Marked start bit value v w
  unfolding bit_at
  write_bit v start bit value R h =
      let r = start + bit / 32768 in
      let old = block_of A D L v r in
      let len = R.block_length r h in
      let small = R.block_bytes r h in
      let (w, wrote, S) =
        write_volume_block_from_lem A D L v r (bitmap_set old (bit % 32768) value) R h
          (length-bitmap_set old (bit % 32768) value ∙ len)
          (bitmap_set-Bytes old (bit % 32768) value small) in
      (
        w,
        wrote,
        record {
          superblock = S.superblock;
          auxiliary = S.auxiliary;
          ready = S.ready;
          bits = λ q. elim (ℕ_discrete (q / 32768) (bit / 32768)) [
            | yes e ↦
                let hit : block_of A D L w (start + q / 32768)
                    ≡ bitmap_set old (bit % 32768) value =
                  rw e (S.content r ∙ ground arith) in
                rw
                  (
                    hit,
                    bitmap_get-set old (bit % 32768) (q % 32768) value small (omega (arith, len)),
                    e,
                  )
                  (ground arith)
            | no ne ↦
                let miss : block_of A D L w (start + q / 32768)
                    ≡ block_of A D L v (start + q / 32768) =
                  S.content (start + q / 32768) ∙ ground arith in
                rw miss (ground arith)
          ];
          others = λ c ne. S.content c ∙ ground arith;
        },
      )

  -- What stands in the buffer before does not matter.
  Marked-buffer :
      (v w : Volume A L) (start bit : ℕ) (value : Bool) (bytes : List ℕ)
      → Marked start bit value (record v { io_block = bytes }) w
      → Marked start bit value v w
  unfolding bit_at block_of
  Marked-buffer v w start bit value bytes M = record {
    superblock = M.superblock;
    auxiliary = M.auxiliary;
    ready = M.ready;
    bits = M.bits;
    others = M.others;
  }

  -- Inside its bitmap, bitmap_update succeeds and writes one bit.
  pub bitmap_update_lem :
      (v : Volume A L) (start count bit : ℕ) (value : Bool)
      → IsReady A D L v
      → Region v start count
      → bit / 32768 < count
      → (w : Volume A L) × (bitmap_update A L start count bit value v ≡ ok tt w)
        × Marked start bit value v w
  unfolding bitmap_update bit_at block_of
  bitmap_update_lem v start count bit value R fits h =
      let bytes = bitmap_set (block_of A D L v (start + bit / 32768)) (bit % 32768) value in
      let (w, wrote, M) =
        write_bit (record v { io_block = bytes }) start bit value (IsReady-buffer A D L v bytes R)
          (omega arith) in
      let inside : leb count (bit / 32768) ≡ false = ground arith in
      (
        w,
        rw
            (
              inside,
              block_number v start count (bit / 32768) R fits h,
              read_volume_block_lem A D L v (start + bit / 32768) R (omega arith),
            )
            wrote,
        Marked-buffer v w start bit value bytes M,
      )

  -- A read of a bitmap inside the volume finds its bit.
  pub bitmap_bit_set_lem :
      (v : Volume A L) (start count bit : ℕ)
      → IsReady A D L v
      → Region v start count
      → bit / 32768 < count
      → bitmap_bit_set A L start count bit v
        ≡ (bit_at v start bit, record v { io_block = block_of A D L v (start + bit / 32768) })
  unfolding bitmap_bit_set bit_at
  bitmap_bit_set_lem v start count bit R fits h =
      let inside : leb count (bit / 32768) ≡ false = ground arith in
      rw
        (
          inside,
          block_number v start count (bit / 32768) R fits h,
          read_volume_block_lem A D L v (start + bit / 32768) R (omega arith),
        )
        refl

  -- A bit that a scan takes.
  claim_bit_lem :
      (v : Volume A L) (start count bit : ℕ)
      → IsReady A D L v
      → Region v start count
      → bit / 32768 < count
      → v.io_block ≡ block_of A D L v (start + bit / 32768)
      → (w : Volume A L) × (claim_bit A L start bit v ≡ ok bit w) × Marked start bit true v w
  unfolding claim_bit bit_at block_of
  claim_bit_lem v start count bit R fits h loaded =
      let bytes = bitmap_set (block_of A D L v (start + bit / 32768)) (bit % 32768) true in
      let (w, wrote, M) =
        write_bit (record v { io_block = bytes }) start bit true (IsReady-buffer A D L v bytes R)
          (omega arith) in
      (
        w,
        rw (loaded, block_number v start count (bit / 32768) R fits h, wrote) refl,
        Marked-buffer v w start bit true bytes M,
      )

  -- The first clear bit of a range, by the plain search.
  abbrev pub first_clear : Volume A L → ℕ → ℕ → ℕ → Option ℕ
  first_clear v start rounds first = find_from (λ q. not (bit_at v start q)) rounds first

  -- What a scan has done, by what the plain search finds.
  abbrev pub Scanned : Volume A L → ℕ → Option ℕ → Outcome (Volume A L) ℕ → Type 0
  Scanned v start none o = (bytes : List ℕ) × (o ≡ failed enospc (record v { io_block = bytes }))
  Scanned v start (some bit) o = (w : Volume A L) × (o ≡ ok bit w) × Marked start bit true v w

  -- The buffer of a scan holds the block it remembers.
  abbrev Loaded : Volume A L → ℕ → Option ℕ → Type 0
  Loaded v start none = Unit
  Loaded v start (some b) = v.io_block ≡ block_of A D L v (start + b)

  load_bitmap_lem :
      (v : Volume A L) (start count b : ℕ) (loaded : Option ℕ)
      → IsReady A D L v
      → Region v start count
      → b < count
      → Loaded v start loaded
      → load_bitmap A L start loaded b v
        ≡ ok tt (record v { io_block = block_of A D L v (start + b) })
  unfolding load_bitmap
  load_bitmap_lem v start count b none R fits h l =
      rw
        (
          block_number v start count b R fits h,
          read_volume_block_lem A D L v (start + b) R (omega arith),
        )
        refl
  load_bitmap_lem v start count b (some c) R fits h l = elim (Bool-cases (b == c)) [
    | inl e ↦ rw (e) (λ i. ok tt (record v {
      io_block = (l ∙ ap (λ (k : ℕ). block_of A D L v (start + k)) (sym ((==_iff b c).0 e))) i;
    }))
    | inr e ↦
        rw
          (
            e,
            block_number v start count b R fits h,
            read_volume_block_lem A D L v (start + b) R (omega arith),
          )
          refl
  ]

  loaded_lem :
      (v : Volume A L) (start b : ℕ)
      → Loaded (record v { io_block = block_of A D L v (start + b) }) start (some b)
  unfolding block_of
  loaded_lem v start b = refl

  bit_at_lem :
      (v : Volume A L) (start q : ℕ)
      → bitmap_get (block_of A D L v (start + q / 32768)) (q % 32768) ≡ bit_at v start q
  unfolding bit_at
  bit_at_lem v start q = refl

  -- What stands in the buffer before does not matter to a scan.
  Scanned-buffer :
      (v : Volume A L) (start rounds first : ℕ) (bytes : List ℕ) (o : Outcome (Volume A L) ℕ)
      → Scanned
          (record v { io_block = bytes })
          start
          (first_clear (record v { io_block = bytes }) start rounds first)
          o
      → Scanned v start (first_clear v start rounds first) o
  unfolding bit_at block_of
  Scanned-buffer v start rounds first bytes o =
      by_cases (first_clear (record v { io_block = bytes }) start rounds first)
    where
      by_cases :
          (found : Option ℕ)
          → Scanned (record v { io_block = bytes }) start found o
          → Scanned v start found o
      by_cases none h = h
      by_cases (some bit) h = (h.0, h.1, Marked-buffer v h.0 start bit true bytes h.2)

  scan_bitmap_lem :
      (rounds first : ℕ) (v : Volume A L) (start count : ℕ) (loaded : Option ℕ)
      → IsReady A D L v
      → Region v start count
      → first + rounds ≤ count * 32768
      → Loaded v start loaded
      → Scanned v start
          (first_clear v start rounds first)
          (scan_bitmap A L start count rounds first loaded v)
  unfolding scan_bitmap find_from
  scan_bitmap_lem zero first v start count loaded R fits h l = (v.io_block, refl)
  scan_bitmap_lem (suc n) first v start count loaded R fits h l =
      let b = first / 32768 in
      let inside : leb count b ≡ false = ground arith in
      let bytes = block_of A D L v (start + b) in
      let v1 : Volume A L = record v { io_block = bytes } in
      let load = load_bitmap_lem v start count b loaded R fits (omega arith) l in
      elim (Bool-cases (bit_at v start first)) [
        | inl set ↦
            rw (inside, load, set, bit_at_lem v start first, set)
              (Scanned-buffer v start n (first + 1) bytes _ (
                scan_bitmap_lem n (first + 1) v1 start count (some b)
                  (IsReady-buffer A D L v bytes R) fits (omega arith) (loaded_lem v start b)))
        | inr clear ↦
            let (w, claimed, M) =
              claim_bit_lem v1 start count first (IsReady-buffer A D L v bytes R) fits (omega arith)
                (loaded_lem v start b) in
            rw (inside, load, clear, bit_at_lem v start first, clear)
              (w, claimed, Marked-buffer v w start first true bytes M)
      ]

  -- On a bitmap inside the volume that has a bit for each number below `limit`: allocate_bitmap_bit
  -- takes the first clear bit from `first` on, which it marks on the disk, and no other bit or block
  -- changes; where there is none it fails with ENOSPC and changes nothing on the disk.
  pub allocate_bitmap_bit_lem :
      (v : Volume A L) (start count first limit : ℕ)
      → IsReady A D L v
      → Region v start count
      → limit ≤ count * 32768
      → first < limit
      → Scanned v start
          (first_clear v start (limit - first) first)
          (allocate_bitmap_bit A L start count first limit v)
  unfolding allocate_bitmap_bit
  allocate_bitmap_bit_lem v start count first limit R fits room h =
      let proper : leb limit first ≡ false = ground arith in
      rw (proper) (scan_bitmap_lem (limit - first) first v start count none R fits (omega arith) tt)
