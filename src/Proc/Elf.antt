-- ===== src/Proc/Elf.antt =====
-- kernel/proc/elf.c: which images elf_load_image accepts. An image is its bytes, so image_size is its
-- length; the two packed structures are read from them, least significant byte first.
pub mod Segments
mod Tests
use mini_orange_os.Prelude.{
  ltb, leb, ◌==◌, if◌then◌else◌, length, get_or, add32, sub32, ℕ, zero, suc, ◌+◌, ◌-◌, ◌*◌, ◌/◌,
  ◌%◌, bit_and, Bool, true, false, ◌&&◌, ◌||◌, not, Option, none, some, List, [], ◌∷◌,
}

abbrev pub page_size : ℕ
page_size = 4096

abbrev pub kernel_base : ℕ
kernel_base = 0xC0000000

abbrev pub elf_program_limit : ℕ
elf_program_limit = 32

-- sizeof(struct elf_header) and sizeof(struct elf_program_header)
abbrev pub elf_header_size : ℕ
elf_header_size = 52

abbrev pub elf_program_header_size : ℕ
elf_program_header_size = 32

pub u16_at : List ℕ → ℕ → ℕ
u16_at image i = get_or image i 0 + get_or image (i + 1) 0 * 256

pub u32_at : List ℕ → ℕ → ℕ
u32_at image i = u16_at image i + u16_at image (i + 2) * 65536

-- The fields of struct elf_header that the loader reads.
pub record ElfHeader : Type 0 where
  pub ident : List ℕ
  pub kind : ℕ
  pub machine : ℕ
  pub version : ℕ
  pub entry : ℕ
  pub program_offset : ℕ
  pub header_size : ℕ
  pub program_entry_size : ℕ
  pub program_count : ℕ

-- struct elf_program_header
pub record ElfProgramHeader : Type 0 where
  pub kind : ℕ
  pub file_offset : ℕ
  pub virtual_address : ℕ
  pub physical_address : ℕ
  pub file_size : ℕ
  pub memory_size : ℕ
  pub flags : ℕ
  pub alignment : ℕ

-- The cast of the image to struct elf_header.
pub header_of : List ℕ → ElfHeader
header_of image = record {
  ident =
      get_or image 0 0
      ∷ get_or image 1 0
      ∷ get_or image 2 0
      ∷ get_or image 3 0
      ∷ get_or image 4 0
      ∷ get_or image 5 0
      ∷ get_or image 6 0
      ∷ [];
  kind = u16_at image 16;
  machine = u16_at image 18;
  version = u32_at image 20;
  entry = u32_at image 24;
  program_offset = u32_at image 28;
  header_size = u16_at image 40;
  program_entry_size = u16_at image 42;
  program_count = u16_at image 44;
}

pub range_within : ℕ → ℕ → ℕ → Bool
range_within limit offset len = leb offset limit && leb len (limit - offset)

pub program_header_at : List ℕ → ElfHeader → ℕ → ElfProgramHeader
program_header_at image header index =
    let offset = add32 header.program_offset (index * elf_program_header_size) in
    record {
      kind = u32_at image offset;
      file_offset = u32_at image (offset + 4);
      virtual_address = u32_at image (offset + 8);
      physical_address = u32_at image (offset + 12);
      file_size = u32_at image (offset + 16);
      memory_size = u32_at image (offset + 20);
      flags = u32_at image (offset + 24);
      alignment = u32_at image (offset + 28);
    }

-- ELF_PROGRAM_EXECUTABLE is bit 0 of the flags, ELF_PROGRAM_READABLE bit 2; ELF_PROGRAM_FLAGS are the
-- lowest three bits.
pub is_executable : ElfProgramHeader → Bool
is_executable program = not (program.flags % 2 == 0)

pub is_readable : ElfProgramHeader → Bool
is_readable program = not (program.flags / 4 % 2 == 0)

-- The condition on p_align, which is wrong if it is true.
pub misaligned : ElfProgramHeader → Bool
misaligned program =
    ltb 1 program.alignment
    && (not (bit_and program.alignment (program.alignment - 1) == 0)
        || not (
            bit_and (sub32 program.virtual_address program.file_offset) (program.alignment - 1)
            == 0))

pub program_range_valid : ElfProgramHeader → ℕ → Bool
program_range_valid program image_size =
    if not (program.kind == 1)
    then true
    else if program.memory_size == 0
    then program.file_size == 0
    else if ltb program.memory_size program.file_size
        || not (range_within image_size program.file_offset program.file_size)
        || ltb program.virtual_address page_size
        || leb kernel_base program.virtual_address
        || ltb (kernel_base - program.virtual_address) program.memory_size
        || not (program.flags / 8 == 0)
    then false
    else if ltb kernel_base (add32 program.virtual_address program.memory_size)
        || (not (is_readable program) && not (is_executable program))
    then false
    else not (misaligned program)

pub load_ranges_overlap : ElfProgramHeader → ElfProgramHeader → Bool
load_ranges_overlap left right =
    let left_end = add32 left.virtual_address left.memory_size in
    let right_end = add32 right.virtual_address right.memory_size in
    if not (left.kind == 1) || not (right.kind == 1)
    then false
    else ltb left.virtual_address right_end && ltb right.virtual_address left_end

-- The inner loop of validate_image: some earlier range overlaps `program`.
pub overlaps_previous : List ℕ → ElfHeader → ElfProgramHeader → ℕ → ℕ → Bool
overlaps_previous image header program zero previous = false
overlaps_previous image header program (suc rounds) previous =
    load_ranges_overlap program (program_header_at image header previous)
    || overlaps_previous image header program rounds (previous + 1)

-- The entry point lies in the executable range of `program`.
pub entry_inside : ElfHeader → ElfProgramHeader → Bool
entry_inside header program =
    is_executable program
    && leb program.virtual_address header.entry
    && ltb (header.entry - program.virtual_address) program.memory_size

-- The loop of validate_image from `index` on: has_load and entry_is_executable at its end, or `none`
-- where it returns false.
pub check_programs : List ℕ → ElfHeader → ℕ → ℕ → Bool × Bool → Option (Bool × Bool)
check_programs image header zero index found = some found
check_programs image header (suc rounds) index (has_load, entry_is_executable) =
    let program = program_header_at image header index in
    let skipped = check_programs image header rounds (index + 1) (has_load, entry_is_executable) in
    let counted =
      check_programs image header rounds (index + 1)
        (true, entry_inside header program || entry_is_executable) in
    if not (program_range_valid program (length image))
    then none
    else if not (program.kind == 1)
    then skipped
    else if program.memory_size == 0
    then skipped
    else if overlaps_previous image header program index 0
    then none
    else counted

-- The condition of validate_image on the header; it is refused if this is false.
pub header_valid : ElfHeader → ℕ → Bool
header_valid header image_size =
    let byte : ℕ → ℕ = λ i. get_or header.ident i 0 in
    byte 0 == 0x7F
    && byte 1 == b'E'
    && byte 2 == b'L'
    && byte 3 == b'F'
    && byte 4 == 1
    && byte 5 == 1
    && byte 6 == 1
    && header.kind == 2
    && header.machine == 3
    && header.version == 1
    && header.header_size == elf_header_size
    && header.program_entry_size == elf_program_header_size
    && not (header.program_count == 0)
    && leb header.program_count elf_program_limit
    && range_within image_size header.program_offset
        (header.program_count * elf_program_header_size)

-- validate_image: the entry point, or `none` where it returns false; the image is `none` for NULL.
pub validate_image : Option (List ℕ) → Option ℕ
validate_image none = none
validate_image (some image) =
    let header = header_of image in
    let checked : Option ℕ =
      elim (check_programs image header header.program_count 0 (false, false)) [
        | none ↦ none
        | some (has_load, entry_is_executable) ↦
            if not has_load || not entry_is_executable then none else some header.entry
      ] in
    if ltb (length image) elf_header_size
    then none
    else if not (header_valid header (length image))
    then none
    else checked
