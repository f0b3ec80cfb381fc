-- ===== src/Block.antt =====
-- kernel/block/block.c: 4 KiB blocks over 512-byte sectors. The state is `device_block_count` beside the
-- state of the ATA driver, whose operations are the record `Ata`.
pub mod RoundTrip
pub mod OneBlock
pub mod Memory
mod Tests
use mini_orange_os.Errno.{einval, eio, is_error}
use mini_orange_os.Prelude.{
  ltb, leb, ◌==◌, if◌then◌else◌, length, add32, mul32, ℕ, zero, suc, ◌+◌, ◌-◌, ◌/◌, Bool, true,
  ◌&&◌, not, Option, none, some, List, [], ◌∷◌,
}
use mini_orange_os.Prelude.Int.{ℤ, pos}

abbrev pub sectors_per_block : ℕ
sectors_per_block = 8

-- SIZE_MAX / BLOCK_SIZE
abbrev pub count_limit : ℕ
count_limit = 0xFFFFFFFF / 4096

-- kernel/include/minios/drivers/ata.h. A read returns the result and the bytes stored.
pub record Ata : Type 1 where
  pub State : Type 0
  pub sector_count : State → ℕ
  pub read_sectors : ℕ → ℕ → State → ℤ × List ℕ × State
  pub write_sectors : ℕ → ℕ → List ℕ → State → ℤ × State

-- block_request_valid; `buffer` says whether the pointer is not NULL.
pub block_request_valid : ℕ → ℕ → ℕ → Bool → Bool
block_request_valid device_block_count block_number count buffer =
    not (device_block_count == 0)
    && buffer
    && ltb 0 count
    && leb count count_limit
    && leb count device_block_count
    && leb block_number (device_block_count - count)

-- The first sector of the block of round `index`.
abbrev pub first_sector : ℕ → ℕ → ℕ
first_sector block_number index = mul32 (add32 block_number index) sectors_per_block

module _ (A : Ata) where
  open A use {State, sector_count, read_sectors, write_sectors}

  -- block_init: the result and `device_block_count`.
  pub block_init : State → ℤ × ℕ
  block_init a =
      if ltb (sector_count a) sectors_per_block
      then (eio, 0)
      else (pos 0, sector_count a / sectors_per_block)

  -- The loop of block_read: the result and the blocks read before it returned.
  pub read_blocks : ℕ → ℕ → ℕ → State → ℤ × List (List ℕ) × State
  read_blocks zero block_number index a = (pos 0, [], a)
  read_blocks (suc rounds) block_number index a =
      let (result, bytes, a') =
        read_sectors (first_sector block_number index) sectors_per_block a in
      let rest = read_blocks rounds block_number (index + 1) a' in
      if is_error result then (result, [], a') else (rest.0, bytes ∷ rest.1, rest.2)

  pub block_read : ℕ → ℕ → ℕ → Bool → State → ℤ × List (List ℕ) × State
  block_read device_block_count block_number count buffer a =
      let done = read_blocks count block_number 0 a in
      if block_request_valid device_block_count block_number count buffer
      then done
      else (einval, [], a)

  -- The loop of block_write over the blocks of the buffer.
  pub write_blocks : List (List ℕ) → ℕ → ℕ → State → ℤ × State
  write_blocks [] block_number index a = (pos 0, a)
  write_blocks (bytes ∷ blocks) block_number index a =
      let (result, a') =
        write_sectors (first_sector block_number index) sectors_per_block bytes a in
      let rest = write_blocks blocks block_number (index + 1) a' in
      if is_error result then (result, a') else rest

  -- block_write; the buffer is `none` for NULL, and otherwise `count` blocks.
  pub block_write : ℕ → ℕ → Option (List (List ℕ)) → State → ℤ × State
  block_write device_block_count block_number none a = (einval, a)
  block_write device_block_count block_number (some blocks) a =
      let done = write_blocks blocks block_number 0 a in
      if block_request_valid device_block_count block_number (length blocks) true
      then done
      else (einval, a)
