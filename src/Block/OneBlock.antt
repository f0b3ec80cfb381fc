-- ===== src/Block/OneBlock.antt =====
-- kernel/block/block.c: a transfer of one block, on a disk that keeps what is written.
use mini_orange_os.Prelude.Int.{pos}
use mini_orange_os.Block.RoundTrip.{Disk}
use mini_orange_os.Block.{
  Ata, block_write, first_sector, block_request_valid, block_read, read_blocks, write_blocks,
}
use mini_orange_os.Prelude.{
  ◌==◌, if◌then◌else◌, ℕ, ◌*◌, ◌/◌, ◌^◌, ◌<◌, ◌≡◌, refl, true, some, List, [], ◌∷◌, arith,
}

module _ (A : Ata) (D : Disk A) where
  accepted : (b n : ℕ) → b < n → n < 2 ^ 29 → block_request_valid n b 1 true ≡ true
  unfolding block_request_valid
  accepted b n h lo = ground arith

  sector_lem : (b : ℕ) → b < 2 ^ 29 → first_sector b 0 ≡ b * 8
  sector_lem b h = omega arith

  pub block_read_one :
      (count b : ℕ) (a : A.State)
      → b < count
      → count < 2 ^ 29
      → count ≡ A.sector_count a / 8
      → block_read A count b 1 true a ≡ (pos 0, D.view a b ∷ [], a)
  unfolding block_read read_blocks
  block_read_one count b a h lo e =
      rw (accepted b count h lo, sector_lem b (omega arith), D.serves_read b a (omega arith)) refl

  pub block_write_one :
      (count b : ℕ) (bytes : List ℕ) (a : A.State)
      → b < count
      → count < 2 ^ 29
      → count ≡ A.sector_count a / 8
      → (a' : A.State) × (block_write A count b (some (bytes ∷ [])) a ≡ (pos 0, a'))
        × (A.sector_count a' ≡ A.sector_count a)
        × ((c : ℕ) → D.view a' c ≡ (if b == c then bytes else D.view a c))
  unfolding block_write write_blocks
  block_write_one count b bytes a h lo e =
      let (a', served, same, seen) = D.serves_write b bytes a (omega arith) in
      (a', rw (accepted b count h lo, sector_lem b (omega arith), served) refl, same, seen)
