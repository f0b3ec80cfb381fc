-- ===== src/Mm/Usercopy.antt =====
-- kernel/mm/usercopy.c. The address space is two functions: `query` gives the flags vmm_query reports for
-- the page of an address (`none` where it returns false), and `frame` the number of the physical frame
-- behind each page number; `memory` gives each physical byte. copy_user_string only reads the user's
-- bytes: there `byte` is what a read of a virtual address gives, its destination being apart from them.
-- usercopy_self_test, which maps real pages, is not modelled.
pub mod Range
pub mod Copy
mod Tests
use mini_orange_os.Errno.{efault}
use mini_orange_os.Prelude.Int.{ℤ, pos}
use mini_orange_os.Prelude.{
  ltb, leb, ◌==◌, if◌then◌else◌, length, add32, ℕ, zero, suc, ◌+◌, ◌-◌, ◌*◌, ◌/◌, ◌%◌, min, Bool,
  true, false, ◌&&◌, ◌||◌, not, Option, none, some, List, [], ◌∷◌, ◌++◌,
}

abbrev pub kernel_base : ℕ
kernel_base = 0xC0000000

-- VMM_WRITABLE is bit 1 of the flags and VMM_USER bit 2.
pub is_writable : ℕ → Bool
is_writable flags = not (flags / 2 % 2 == 0)

pub is_user : ℕ → Bool
is_user flags = not (flags / 4 % 2 == 0)

pub data UserAccess : Type 0 where
  user_access_read user_access_write : UserAccess

-- The test of one page in validate_user_range, on what vmm_query says of it.
pub allows : UserAccess → Option ℕ → Bool
allows access none = false
allows user_access_read (some flags) = is_user flags
allows user_access_write (some flags) = is_user flags && is_writable flags

abbrev pub page_allows : (ℕ → Option ℕ) → UserAccess → ℕ → Bool
page_allows query access page = allows access (query page)

-- The loop of validate_user_range, at most `rounds` of it: it stops at the page of the last byte.
pub check_pages : (ℕ → Option ℕ) → UserAccess → ℕ → ℕ → ℕ → Bool
check_pages query access zero page last = false
check_pages query access (suc rounds) page last =
    let rest = check_pages query access rounds (add32 page 4096) last in
    if not (page_allows query access page) then false else if page == last then true else rest

-- Rounds enough for every range below kernel_base.
abbrev pub page_rounds : ℕ
page_rounds = 0xC0000

pub validate_user_range : (ℕ → Option ℕ) → ℕ → ℕ → UserAccess → Bool
validate_user_range query start length access =
    if length == 0
    then true
    else if leb kernel_base start
    then false
    else if ltb (kernel_base - start) length
    then false
    else check_pages query access page_rounds (start / 4096 * 4096)
        ((start + length - 1) / 4096 * 4096)

-- The physical address behind a virtual one.
pub physical : (ℕ → ℕ) → ℕ → ℕ
physical frame address = frame (address / 4096) * 4096 + address % 4096

-- A store of one byte.
abbrev pub store_byte : (ℕ → ℕ) → ℕ → ℕ → ℕ → ℕ
store_byte memory address value a = if a == address then value else memory a

-- What memory holds after `n` rounds of a copy loop, from `index` on. Each round stores
-- `source[index]` in `destination[index]`, both being virtual addresses.
pub copy_loop : (ℕ → ℕ) → (ℕ → ℕ) → ℕ → ℕ → ℕ → ℕ → ℕ → ℕ
copy_loop frame memory destination source index zero = memory
copy_loop frame memory destination source index (suc n) =
    copy_loop frame
      (store_byte memory (physical frame (destination + index))
        (memory (physical frame (source + index))))
      destination source (index + 1) n

-- copy_from_user: the result and the memory afterwards; a NULL pointer is 0.
pub copy_from_user : (ℕ → Option ℕ) → (ℕ → ℕ) → (ℕ → ℕ) → ℕ → ℕ → ℕ → ℤ × (ℕ → ℕ)
copy_from_user query frame memory destination source length =
    if length == 0
    then (pos 0, memory)
    else if destination == 0 || not (validate_user_range query source length user_access_read)
    then (efault, memory)
    else (pos 0, copy_loop frame memory destination source 0 length)

-- copy_to_user, in the same way.
pub copy_to_user : (ℕ → Option ℕ) → (ℕ → ℕ) → (ℕ → ℕ) → ℕ → ℕ → ℕ → ℤ × (ℕ → ℕ)
copy_to_user query frame memory destination source length =
    if length == 0
    then (pos 0, memory)
    else if source == 0 || not (validate_user_range query destination length user_access_write)
    then (efault, memory)
    else (pos 0, copy_loop frame memory destination source 0 length)

-- The inner loop of copy_user_string over a chunk: the characters stored, and whether the last is NUL.
pub copy_chunk : (ℕ → ℕ) → ℕ → ℕ → List ℕ × Bool
copy_chunk byte address zero = ([], false)
copy_chunk byte address (suc n) =
    let value = byte address in
    let rest = copy_chunk byte (address + 1) n in
    if value == 0 then (value ∷ [], true) else (value ∷ rest.0, rest.1)

-- The outer loop of copy_user_string, at most `rounds` of it; a chunk is not empty, so maximum_length
-- rounds reach the end of the loop.
pub copy_chunks : (ℕ → Option ℕ) → (ℕ → ℕ) → ℕ → ℕ → ℕ → ℕ → ℤ × List ℕ
copy_chunks query byte zero start maximum_length index = (efault, [])
copy_chunks query byte (suc rounds) start maximum_length index =
    let current_address = start + index in
    let chunk =
      min (min (4096 - current_address % 4096) (maximum_length - index))
        (kernel_base - start - index) in
    let done = copy_chunk byte current_address chunk in
    let rest = copy_chunks query byte rounds start maximum_length (index + chunk) in
    if leb maximum_length index
    then (efault, [])
    else if leb (kernel_base - start) index
    then (efault, [])
    else if not (validate_user_range query current_address chunk user_access_read)
    then (efault, [])
    else if done.1
    then (pos 0, done.0)
    else (rest.0, done.0 ++ rest.1)

pub copy_user_string : (ℕ → Option ℕ) → (ℕ → ℕ) → Bool → ℕ → ℕ → ℤ × List ℕ
copy_user_string query byte destination start maximum_length =
    if not destination || (maximum_length == 0) || leb kernel_base start
    then (efault, [])
    else copy_chunks query byte maximum_length start maximum_length 0
