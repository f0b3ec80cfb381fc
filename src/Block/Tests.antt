-- ===== src/Block/Tests.antt =====
-- kernel/block/block.c over a disk in memory of 80 sectors.
use mini_orange_os.Block.Memory.{memory_ata, memory_disk}
use mini_orange_os.Block.RoundTrip.{block_read-block_write}
use mini_orange_os.Prelude.Int.{pos}
use mini_orange_os.Prelude.{ℕ, ◌<◌, ◌≡◌, refl, true, some, List, [], ◌∷◌, arith}
use mini_orange_os.Block.{block_request_valid, block_read, block_write}

valid_lem : block_request_valid 10 4 2 true ≡ true
unfolding block_request_valid
valid_lem = refl

block_read-block_write_example :
    (a' : ℕ → List ℕ) × (block_write memory_ata 10 4 (some ((1 ∷ []) ∷ (2 ∷ []) ∷ [])) (λ c. [])
      ≡ (pos 0, a'))
    × (block_read memory_ata 10 4 2 true a' ≡ (pos 0, (1 ∷ []) ∷ (2 ∷ []) ∷ [], a'))
    × ((c : ℕ) → c < 4 → memory_disk.view a' c ≡ [])
unfolding memory_disk
block_read-block_write_example =
    block_read-block_write memory_ata memory_disk ((1 ∷ []) ∷ (2 ∷ []) ∷ []) 4 (λ c. [])
      (omega arith) valid_lem
