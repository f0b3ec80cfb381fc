-- ===== src/Block/Memory.antt =====
-- kernel/block/block.c: a disk in memory of 80 sectors, on which the theorems about disks are run.
use mini_orange_os.Block.{Ata}
use mini_orange_os.Block.RoundTrip.{Disk}
use mini_orange_os.Prelude.{◌==◌, if◌then◌else◌, ℕ, ◌*◌, ◌/◌, ◌≡◌, refl, List, arith}
use mini_orange_os.Prelude.Int.{pos}

-- The state gives the 8 sectors of each block; the driver serves transfers of a block.
abbrev pub memory_ata : Ata
memory_ata = record {
  State = ℕ → List ℕ;
  sector_count = λ a. 80;
  read_sectors = λ sector count a. (pos 0, a (sector / 8), a);
  write_sectors = λ sector count bytes a. (pos 0, λ c. if sector / 8 == c then bytes else a c);
}

pub whole : (b : ℕ) → b * 8 / 8 ≡ b
whole b = omega arith

unfoldable pub memory_disk : Disk memory_ata
memory_disk = record {
  view = λ a b. a b;
  serves_read = λ b a fits. (λ j. (pos 0, a (whole b j), a));
  serves_write = λ b bytes a fits. (
    (λ c. if b * 8 / 8 == c then bytes else a c),
    refl,
    refl,
    λ c. (λ j. if whole b j == c then bytes else a c),
  );
}
