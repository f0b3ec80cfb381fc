-- ===== src/Proc/Elf/Segments.antt =====
-- What an image that validate_image of kernel/proc/elf.c accepts looks like.
use mini_orange_os.Prelude.{
  ◌==◌, Bool-cases, Option-cases, length, ℕ, zero, suc, ◌+◌, ◌*◌, ◌≤◌, ◌<◌, ◌≡◌, refl, sym, ◌∙◌,
  subst, ◌⊎◌, inl, inr, Bool, true, false, ◌&&◌, ◌||◌, not, some, List, arith,
}
use native.Mathlib.Decide.{ℕ_discrete}
use mini_orange_os.Proc.Elf.{
  ElfHeader, ElfProgramHeader, page_size, kernel_base, program_range_valid, header_of,
  validate_image, overlaps_previous, program_header_at, check_programs, range_within, entry_inside,
  load_ranges_overlap, header_valid,
}

-- The program header describes memory to fill.
abbrev pub is_segment : ElfProgramHeader → Bool
is_segment p = p.kind == 1 && not (p.memory_size == 0)

-- A segment that can be loaded from an image of `size` bytes into user memory.
pub record IsLoadable (p : ElfProgramHeader) (size : ℕ) : Type 0 where
  pub from_image : p.file_offset + p.file_size ≤ size
  pub fits : p.file_size ≤ p.memory_size
  pub above_null : page_size ≤ p.virtual_address
  pub below_kernel : p.virtual_address + p.memory_size ≤ kernel_base

program_range_valid-IsLoadable :
    (p : ElfProgramHeader) (size : ℕ)
    → is_segment p ≡ true
    → program_range_valid p size ≡ true
    → IsLoadable p size
unfolding program_range_valid range_within
program_range_valid-IsLoadable p size segment valid = ground (arith, segment, valid)

module _ (image : List ℕ) (header : ElfHeader) where
  abbrev pub program : ℕ → ElfProgramHeader
  program i = program_header_at image header i

  -- What the loop checked of the header at `i`.
  record Checked (i : ℕ) : Type 0 where
    valid : program_range_valid (program i) (length image) ≡ true
    apart : is_segment (program i) ≡ true → overlaps_previous image header (program i) i 0 ≡ false

  check_programs_one :
      (rounds i : ℕ) (h e : Bool) (out : Bool × Bool)
      → check_programs image header (suc rounds) i (h, e) ≡ some out
      → Checked i
        × (h' : Bool) × (e' : Bool) × (check_programs image header rounds (i + 1) (h', e')
            ≡ some out)
        × ((e' ≡ e)
            ⊎ ((is_segment (program i) ≡ true) × (e' ≡ (entry_inside header (program i) || e))))
  unfolding check_programs
  check_programs_one rounds i h e out ok =
      elim (Bool-cases (program_range_valid (program i) (length image))) [
        | inr bad ↦ absurd (ground (arith, bad, ok))
        | inl good ↦ elim (Bool-cases (is_segment (program i))) [
          | inr other ↦ (
            record { valid = good; apart = λ s. absurd (ground (arith, s, other)) },
            h,
            e,
            ground (arith, good, other, ok),
            inl refl,
          )
          | inl segment ↦ elim (Bool-cases (overlaps_previous image header (program i) i 0)) [
            | inl clash ↦ absurd (ground (arith, good, segment, clash, ok))
            | inr free ↦ (
              record { valid = good; apart = λ s. free },
              true,
              (entry_inside header (program i) || e),
              ground (arith, good, segment, free, ok),
              inr (segment, refl),
            )
          ]
        ]
      ]

  check_programs_each :
      (rounds i : ℕ) (h e : Bool) (out : Bool × Bool)
      → check_programs image header rounds i (h, e) ≡ some out
      → (j : ℕ) → i ≤ j
      → j < i + rounds
      → Checked j
  check_programs_each zero i h e out ok j lo hi = absurd (omega arith)
  check_programs_each (suc rounds) i h e out ok j lo hi =
      let (here, h', e', later, found) = check_programs_one rounds i h e out ok in
      elim (ℕ_discrete i j) [
        | yes same ↦ subst Checked same here
        | no other ↦
            check_programs_each rounds (i + 1) h' e' out later j (omega arith) (omega arith)
      ]

  -- The entry point lies in an executable segment of the table.
  abbrev pub EntryFound : Type 0
  EntryFound =
      (j : ℕ) × (j < header.program_count)
      × (is_segment (program j) ≡ true)
      × (entry_inside header (program j) ≡ true)

  entry_found :
      (rounds i : ℕ) (h e : Bool) (out : Bool × Bool)
      → i + rounds ≤ header.program_count
      → check_programs image header rounds i (h, e) ≡ some out
      → out.1 ≡ true
      → (e ≡ true) ⊎ EntryFound
  unfolding check_programs
  entry_found zero i h e out le ok executable = inl (ground (arith, ok, executable))
  entry_found (suc rounds) i h e out le ok executable =
      let (here, h', e', later, found) = check_programs_one rounds i h e out ok in
      elim (entry_found rounds (i + 1) h' e' out (omega arith) later executable) [
        | inr there ↦ inr there
        | inl before ↦ elim found [
          | inl same ↦ inl (sym same ∙ before)
          | inr (segment, now) ↦ elim (Bool-cases (entry_inside header (program i))) [
            | inl inside ↦ inr (i, omega arith, segment, inside)
            | inr outside ↦ inl (ground (arith, outside, now, before))
          ]
        ]
      ]

  overlaps_previous-none :
      (p : ElfProgramHeader) (rounds previous : ℕ)
      → overlaps_previous image header p rounds previous ≡ false
      → (k : ℕ) → previous ≤ k
      → k < previous + rounds
      → load_ranges_overlap p (program k) ≡ false
  unfolding overlaps_previous
  overlaps_previous-none p zero previous clear k lo hi = absurd (omega arith)
  overlaps_previous-none p (suc rounds) previous clear k lo hi = elim (ℕ_discrete previous k) [
    | yes same ↦ subst (λ x. load_ranges_overlap p (program x) ≡ false) same (ground (arith, clear))
    | no other ↦
        overlaps_previous-none p rounds (previous + 1) (ground (arith, clear)) k (omega arith)
          (omega arith)
  ]

-- Two segments with no address in common.
abbrev pub Disjoint : ElfProgramHeader → ElfProgramHeader → Type 0
Disjoint p q =
    (p.virtual_address + p.memory_size ≤ q.virtual_address)
    ⊎ (q.virtual_address + q.memory_size ≤ p.virtual_address)

load_ranges_overlap-Disjoint :
    (p q : ElfProgramHeader) (size : ℕ)
    → is_segment p ≡ true
    → is_segment q ≡ true
    → IsLoadable p size
    → IsLoadable q size
    → load_ranges_overlap p q ≡ false
    → Disjoint p q
unfolding load_ranges_overlap
load_ranges_overlap-Disjoint p q size sp sq lp lq apart =
    ground (arith, sp, sq, lp.below_kernel, lq.below_kernel, apart)

table :
    (header : ElfHeader) (size : ℕ)
    → header_valid header size ≡ true
    → header.program_offset + header.program_count * 32 ≤ size
unfolding header_valid range_within
table header size valid = ground (arith, valid)

-- What validate_image promises of an image.
pub record IsSafe (image : List ℕ) (entry : ℕ) : Type 0 where
  pub header_entry : entry ≡ (header_of image).entry
  pub table_inside :
      (header_of image).program_offset + (header_of image).program_count * 32 ≤ length image
  pub loadable :
      (i : ℕ)
      → i < (header_of image).program_count
      → is_segment (program image (header_of image) i) ≡ true
      → IsLoadable (program image (header_of image) i) (length image)
  pub disjoint :
      (i j : ℕ)
      → i < j
      → j < (header_of image).program_count
      → is_segment (program image (header_of image) i) ≡ true
      → is_segment (program image (header_of image) j) ≡ true
      → Disjoint (program image (header_of image) j) (program image (header_of image) i)
  pub entry_executable : EntryFound image (header_of image)

validate_image-some :
    (image : List ℕ) (entry : ℕ)
    → validate_image (some image) ≡ some entry
    → (entry ≡ (header_of image).entry)
      × (header_valid (header_of image) (length image) ≡ true)
      × (out : Bool × Bool) × (check_programs image
            (header_of image)
            (header_of image).program_count
            0
            (false, false)
          ≡ some out)
      × (out.1 ≡ true)
unfolding validate_image
validate_image-some image entry ok =
    elim (Option-cases
      (check_programs image (header_of image) (header_of image).program_count 0 (false, false))) [
        | inl refused ↦ absurd (ground (arith, refused, ok))
        | inr (out, passed) ↦ (
          ground (arith, passed, ok),
          ground (arith, passed, ok),
          out,
          passed,
          ground (arith, passed, ok),
        )
      ]

-- If validate_image accepts an image with an entry point, the table of program headers lies in the
-- image; every segment's file bytes lie in the image and its memory between the first page and the
-- kernel, at least as large as its file bytes; no two segments share an address; and the entry point is
-- the header's and lies in an executable segment.
pub validate_image-IsSafe :
    (image : List ℕ) (entry : ℕ) → validate_image (some image) ≡ some entry → IsSafe image entry
validate_image-IsSafe image entry ok =
    let (same, valid, out, passed, executable) = validate_image-some image entry ok in
    let header = header_of image in
    let all : (i : ℕ) → i < header.program_count → Checked image header i = λ i hi.
      check_programs_each image header header.program_count 0 false false out passed i (omega arith)
        (omega arith) in
    let loads : (i : ℕ)
        → i < header.program_count
        → is_segment (program image header i) ≡ true
        → IsLoadable (program image header i) (length image) =
      λ i hi s.
        program_range_valid-IsLoadable (program image header i) (length image) s (all i hi).valid in
    record {
      header_entry = same;
      table_inside = table header (length image) valid;
      loadable = loads;
      disjoint = λ i j lt hj si sj.
          load_ranges_overlap-Disjoint (program image header j) (program image header i)
            (length image) sj si (loads j hj sj) (loads i (omega arith) si)
            (overlaps_previous-none image header (program image header j) j 0 ((all j hj).apart sj)
              i (omega arith) (omega arith));
      entry_executable =
          elim (entry_found image header header.program_count 0 false false out (omega arith) passed
            executable) [ inl before ↦ absurd (ground (arith, before)) | inr found ↦ found ];
    }
