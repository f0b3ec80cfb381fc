-- ===== src/Fs/MiniFs/Volume.antt =====
-- kernel/fs/minifs.c: the mounted volume. Its state is the static variables mounted_superblock,
-- io_block, auxiliary_block and compare_buffer beside the state of the disk driver; the calls of block.c are those of
-- Block. MINIFS_VOLUME_START_BLOCK and MINIFS_VOLUME_BLOCK_COUNT come from a header that the build
-- writes, and device_block_count was set by block_init: the three are the record `Layout`. A transfer
-- that fails leaves io_block alone here; nothing uses the buffer after one.
pub mod Store
pub mod Bitmaps
use mini_orange_os.Mm.Bitmap.{bitmap_get, bitmap_set}
use mini_orange_os.Errno.{eio, enospc, einval}
use mini_orange_os.Prelude.Int.{ℤ, pos, negsuc}
use mini_orange_os.Fs.MiniFs.{Superblock, bitmap_bits_per_block}
use mini_orange_os.Fs.MiniFs.Command.{
  Command, failed, ok, fail, or_fail, Outcome, pure, ◌>>◌, ◌>>=◌, refuse_if,
}
use mini_orange_os.Block.{Ata, block_read, block_write}
use mini_orange_os.Prelude.{
  leb, ◌==◌, if◌then◌else◌, add32, ℕ, zero, suc, ◌+◌, ◌-◌, ◌/◌, ◌%◌, Bool, true, false, ◌||◌, not,
  Option, none, some, List, [], ◌∷◌,
}

pub record Layout : Type 0 where
  pub volume_start_block : ℕ
  pub volume_block_count : ℕ
  pub device_block_count : ℕ

module _ (A : Ata) (L : Layout) where
  pub record Volume : Type 0 where
    pub device : A.State
    pub superblock : Superblock
    pub io_block : List ℕ
    pub auxiliary_block : List ℕ
    pub compare_buffer : List ℕ

  abbrev pub Action : Type 0 → Type 0
  Action T = Command Volume T

  -- The mounted superblock.
  abbrev pub mounted : Action Superblock
  mounted v = ok v.superblock v

  -- The buffer, read and written.
  abbrev pub buffer : Action (List ℕ)
  buffer v = ok v.io_block v

  abbrev pub set_buffer : List ℕ → Action (Unit {0})
  set_buffer bytes v = ok tt (record v { io_block = bytes })

  -- The test of read_volume_block_into and write_volume_block_from.
  unfoldable pub outside_volume : ℕ → Volume → Bool
  outside_volume relative_block v =
      leb v.superblock.total_blocks relative_block || leb L.volume_block_count relative_block

  -- block_read of one block into io_block: the result of block.c with the bytes it stored.
  abbrev pub received : ℤ × List (List ℕ) × A.State → Action (Unit {0})
  received (pos n, bytes ∷ rest, a) v = ok tt (record v { device = a; io_block = bytes })
  received (pos n, [], a) v = ok tt (record v { device = a })
  received (negsuc n, blocks, a) v = failed (negsuc n) (record v { device = a })

  abbrev pub sent : ℤ × A.State → Action (Unit {0})
  sent (pos n, a) v = ok tt (record v { device = a })
  sent (negsuc n, a) v = failed (negsuc n) (record v { device = a })

  -- read_volume_block, with read_volume_block_into.
  unfoldable pub read_volume_block : ℕ → Action (Unit {0})
  read_volume_block relative_block v =
      if outside_volume relative_block v
      then failed eio v
      else received
          (block_read A L.device_block_count (add32 L.volume_start_block relative_block) 1 true
            v.device)
          v

  abbrev fetched : ℤ × List (List ℕ) × A.State → Action (List ℕ)
  fetched (pos n, bytes ∷ rest, a) v = ok bytes (record v { device = a })
  fetched (pos n, [], a) v = ok [] (record v { device = a })
  fetched (negsuc n, blocks, a) v = failed (negsuc n) (record v { device = a })

  -- read_volume_block_into another buffer, which the caller fills with the bytes.
  unfoldable pub read_volume_block_into : ℕ → Action (List ℕ)
  read_volume_block_into relative_block v =
      if outside_volume relative_block v
      then failed eio v
      else fetched
          (block_read A L.device_block_count (add32 L.volume_start_block relative_block) 1 true
            v.device)
          v

  unfoldable pub write_volume_block_from : ℕ → List ℕ → Action (Unit {0})
  write_volume_block_from relative_block bytes v =
      if outside_volume relative_block v
      then failed eio v
      else sent
          (block_write A L.device_block_count (add32 L.volume_start_block relative_block)
            (some (bytes ∷ [])) v.device)
          v

  -- bitmap_bit_set; a failed read counts as a clear bit.
  unfoldable pub bitmap_bit_set : ℕ → ℕ → ℕ → Volume → Bool × Volume
  bitmap_bit_set start_block block_count_value bit v =
      let bitmap_block = bit / bitmap_bits_per_block in
      let tested : Outcome Volume (Unit {0}) → Bool × Volume = λ o. elim o [
        | ok x w ↦ (bitmap_get w.io_block (bit % bitmap_bits_per_block), w)
        | failed e w ↦ (false, w)
      ] in
      if leb block_count_value bitmap_block
      then (false, v)
      else tested (read_volume_block (add32 start_block bitmap_block) v)

  unfoldable pub bitmap_update : ℕ → ℕ → ℕ → Bool → Action (Unit {0})
  bitmap_update start_block block_count_value bit value = do
    let bitmap_block = bit / bitmap_bits_per_block
    refuse_if (leb block_count_value bitmap_block) eio
    or_fail (read_volume_block (add32 start_block bitmap_block)) eio
    bytes ← buffer
    set_buffer (bitmap_set bytes (bit % bitmap_bits_per_block) value)
    changed ← buffer
    write_volume_block_from (add32 start_block bitmap_block) changed

  -- The part of a round that has its bitmap block in the buffer and found the bit clear.
  unfoldable pub claim_bit : ℕ → ℕ → Action ℕ
  claim_bit start_block bit = do
    bytes ← buffer
    set_buffer (bitmap_set bytes (bit % bitmap_bits_per_block) true)
    changed ← buffer
    or_fail (write_volume_block_from (add32 start_block (bit / bitmap_bits_per_block)) changed) eio
    pure bit

  -- `if (bitmap_block != loaded_block)`: the read of a round, where it needs one. loaded_block is
  -- `none` before the first read, for UINT32_MAX.
  abbrev pub needs_load : Option ℕ → ℕ → Bool
  needs_load none bitmap_block = true
  needs_load (some loaded) bitmap_block = not (bitmap_block == loaded)

  unfoldable pub load_bitmap : ℕ → Option ℕ → ℕ → Action (Unit {0})
  load_bitmap start_block loaded_block bitmap_block =
      if needs_load loaded_block bitmap_block
      then or_fail (read_volume_block (add32 start_block bitmap_block)) eio
      else pure tt

  -- The loop of allocate_bitmap_bit, with limit - bit rounds.
  unfoldable pub scan_bitmap : ℕ → ℕ → ℕ → ℕ → Option ℕ → Action ℕ
  scan_bitmap start_block block_count_value zero bit loaded_block = fail enospc
  scan_bitmap start_block block_count_value (suc rounds) bit loaded_block =
      let next =
        scan_bitmap start_block block_count_value rounds (bit + 1)
          (some (bit / bitmap_bits_per_block)) in
      do
        refuse_if (leb block_count_value (bit / bitmap_bits_per_block)) eio
        load_bitmap start_block loaded_block (bit / bitmap_bits_per_block)
        bytes ← buffer
        if bitmap_get bytes (bit % bitmap_bits_per_block) then next else claim_bit start_block bit

  unfoldable pub allocate_bitmap_bit : ℕ → ℕ → ℕ → ℕ → Action ℕ
  allocate_bitmap_bit start_block block_count_value first limit = do
    refuse_if (leb limit first) einval
    scan_bitmap start_block block_count_value (limit - first) first none
