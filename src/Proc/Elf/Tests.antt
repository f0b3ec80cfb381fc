-- ===== src/Proc/Elf/Tests.antt =====
-- kernel/proc/elf.c on the smallest image with one executable page.
use mini_orange_os.Proc.Elf.Segments.{IsSafe, validate_image-IsSafe}
use mini_orange_os.Prelude.{set, ℕ, ◌≡◌, refl, none, some, List, [], ◌∷◌}
use mini_orange_os.Proc.Elf.{
  validate_image, header_of, u16_at, u32_at, header_valid, range_within, check_programs,
  program_header_at, program_range_valid, is_executable, is_readable, misaligned, overlaps_previous,
  entry_inside,
}

abbrev tiny : List ℕ
tiny =
    127 ∷ 69 ∷ 76 ∷ 70 ∷ 1 ∷ 1 ∷ 1 ∷ 0 ∷ 0 ∷ 0 ∷ 0 ∷ 0 ∷ 0 ∷ 0 ∷ 0 ∷ 0 ∷ 2 ∷ 0 ∷ 3 ∷ 0 ∷ 1 ∷ 0 ∷ 0
    ∷ 0 ∷ 0 ∷ 0 ∷ 64 ∷ 0 ∷ 52 ∷ 0 ∷ 0 ∷ 0 ∷ 0 ∷ 0 ∷ 0 ∷ 0 ∷ 0 ∷ 0 ∷ 0 ∷ 0 ∷ 52 ∷ 0 ∷ 32 ∷ 0 ∷ 1 ∷ 0
    ∷ 0 ∷ 0 ∷ 0 ∷ 0 ∷ 0 ∷ 0 ∷ 1 ∷ 0 ∷ 0 ∷ 0 ∷ 0 ∷ 0 ∷ 0 ∷ 0 ∷ 0 ∷ 0 ∷ 64 ∷ 0 ∷ 0 ∷ 0 ∷ 64 ∷ 0 ∷ 84
    ∷ 0 ∷ 0 ∷ 0 ∷ 0 ∷ 16 ∷ 0 ∷ 0 ∷ 5 ∷ 0 ∷ 0 ∷ 0 ∷ 0 ∷ 16 ∷ 0 ∷ 0 ∷ []

tiny_lem : validate_image (some tiny) ≡ some 0x400000
unfolding validate_image header_of u16_at u32_at header_valid range_within check_programs
    program_header_at program_range_valid is_executable is_readable misaligned overlaps_previous
    entry_inside
tiny_lem = refl

validate_image-IsSafe_example : IsSafe tiny 0x400000
validate_image-IsSafe_example = validate_image-IsSafe tiny 0x400000 tiny_lem

-- The same image with the type of a shared object is refused.
shared_refused : validate_image (some (set tiny 16 3)) ≡ none
unfolding validate_image header_of u16_at u32_at header_valid range_within check_programs
    program_header_at program_range_valid is_executable is_readable misaligned overlaps_previous
    entry_inside
shared_refused = refl
