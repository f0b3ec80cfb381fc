-- ===== src/Mm/Pmm/Tests.antt =====
-- The allocator at work: a map with 4 KiB pages 256 to 263 usable, and one with a hole.
use mini_orange_os.Mm.Pmm.SelfTest.{self_test-passes}
use mini_orange_os.Mm.Bitmap.Laws.{Bytes}
use mini_orange_os.Mm.Pmm.Alloc.{free-Inv, alloc-Inv, alloc-eq-zero_iff, Taken, give_page}
use mini_orange_os.Mm.Pmm.Laws.{free-alloc, free_lem}
use mini_orange_os.Prelude.{
  ℕ, zero, suc, ◌*◌, ◌≤◌, ◌<◌, ◌≡◌, refl, ◌≢◌, ◌↔◌, ◌⊎◌, true, false, some, List, [], ◌∷◌, arith,
}
use mini_orange_os.Mm.Bitmap.{bitmap_get, bitmap_set, fill}
use mini_orange_os.Mm.Pmm.{
  Pmm, E820Entry, BootInfo, boot_info_magic, boot_info_size, range_to_pages, reserved_limits, alloc,
  free, init, build, finish, self_test, page_free, boot_info_invalid, count_free, add_entries,
  add_entry, reserve_range, set_pages, max_pages, set_page, reserve_entries, reserve_entry,
  make_range_allocatable, blank, find_free,
}
use mini_orange_os.Mm.Pmm.Range.{U64}
use mini_orange_os.Mm.Pmm.Invariant.{Inv}
use mini_orange_os.Mm.Pmm.Init.{Fits, init-Inv, page_usable}

entry : ℕ → E820Entry
entry zero = record { base = 0; len = 0x9FC00; kind = 1 }
entry (suc zero) = record { base = 0x100000; len = 0x8000; kind = 1 }
entry other = record { base = 0xF0000; len = 0x10000; kind = 2 }

abbrev boot : BootInfo
boot = record {
  magic = boot_info_magic;
  version = 1;
  size = boot_info_size;
  kernel_physical_start = 0x100000;
  kernel_physical_end = 0x102000;
  e820_count = 3;
  e820_entries = entry;
}

booted : Pmm
unfolding build
booted = finish (build boot)

booted-stats : (booted.total_pages ≡ 264) × (booted.free_pages ≡ 6) × (booted.reserved_pages ≡ 258)
unfolding booted init finish build boot_info_invalid count_free add_entries add_entry range_to_pages
    entry bitmap_get reserve_range reserved_limits set_pages set_page bitmap_set reserve_entries
    reserve_entry make_range_allocatable blank fill
booted-stats = (refl, refl, refl)

init-booted : init (some boot) ≡ some booted
unfolding booted init finish build boot_info_invalid count_free add_entries add_entry range_to_pages
    entry bitmap_get reserve_range reserved_limits set_pages set_page bitmap_set reserve_entries
    reserve_entry make_range_allocatable blank fill
init-booted = refl

boot-Fits : Fits boot
unfolding entry
boot-Fits = record { entry_base = entry_base; entry_len = entry_len; kernel_end = omega arith }
  where
    entry_base : (i : ℕ) → U64 (entry i).base
    entry_base zero = omega arith
    entry_base (suc zero) = omega arith
    entry_base (suc (suc i)) = omega arith

    entry_len : (i : ℕ) → U64 (entry i).len
    entry_len zero = omega arith
    entry_len (suc zero) = omega arith
    entry_len (suc (suc i)) = omega arith

booted-Inv : Inv booted
booted-Inv = (init-Inv boot booted boot-Fits init-booted).0

init-Inv_example :
    Inv booted
    × (0 < booted.free_pages)
    × ((q : ℕ) → q < max_pages → page_free booted q ≡ page_usable boot q)
init-Inv_example = init-Inv boot booted boot-Fits init-booted

-- The first page above the kernel image.
alloc-booted : (alloc booted).0 ≡ 258 * 4096
unfolding booted init finish build boot_info_invalid count_free add_entries add_entry range_to_pages
    entry bitmap_get reserve_range reserved_limits set_pages set_page bitmap_set reserve_entries
    reserve_entry make_range_allocatable blank fill alloc find_free
alloc-booted = refl

alloc-nonzero : (alloc booted).0 ≢ 0
alloc-nonzero e = absurd (omega (arith, alloc-booted, e))

alloc-Inv_example : Inv (alloc booted).1
alloc-Inv_example = alloc-Inv booted booted-Inv

alloc-eq-zero_iff_example : ((alloc booted).0 ≡ 0) ↔ (booted.free_pages ≡ 0)
alloc-eq-zero_iff_example = alloc-eq-zero_iff booted booted-Inv

free-alloc_example : free (alloc booted).0 (alloc booted).1 ≡ (true, booted)
free-alloc_example = free-alloc booted booted-Inv alloc-nonzero

free-Inv_example : Inv (free (258 * 4096) booted).1
free-Inv_example = free-Inv booted booted-Inv (258 * 4096)

free_lem_example :
    ((free 4097 booted ≡ (false, booted))
      × ((page : ℕ) → ◌≡◌ {A = ℕ} 4097 (page * 4096) → Taken booted page → ⊥))
    ⊎ ((page : ℕ) × (◌≡◌ {A = ℕ} 4097 (page * 4096))
        × Taken booted page
        × (free 4097 booted ≡ (true, give_page booted page)))
free_lem_example = free_lem booted booted-Inv 4097

taken-freed : (free (258 * 4096) (alloc booted).1).0 ≡ true
unfolding booted init finish build boot_info_invalid count_free add_entries add_entry range_to_pages
    entry bitmap_get reserve_range reserved_limits set_pages set_page bitmap_set reserve_entries
    reserve_entry make_range_allocatable blank fill alloc find_free free
taken-freed = refl

two_free : 2 ≤ booted.free_pages
two_free = omega (arith, booted-stats)

self_test-passes_example :
    ((self_test booted).0 ≡ true)
    × ((self_test booted).1.free_pages ≡ booted.free_pages)
    × ((q : ℕ) → page_free (self_test booted).1 q ≡ page_free booted q)
self_test-passes_example = self_test-passes booted booted-Inv two_free

abbrev small : List ℕ
small = 0xFF ∷ 0x05 ∷ []

small-Bytes : Bytes small
small-Bytes = omega arith
