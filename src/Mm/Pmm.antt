-- ===== src/Mm/Pmm.antt =====
-- kernel/mm/pmm.c: the physical page allocator. Its static variables are the record `Pmm`.
-- Where pmm_init panics, `init` returns `none`. The Boot Info pointer is an option, `none` for
-- NULL, and the table at `e820_address` is a function from the index to the entry.
pub mod Range
pub mod Invariant
pub mod Alloc
pub mod Laws
pub mod SelfTest
mod Tests
pub mod Build
pub mod Init
use mini_orange_os.Prelude.{
  ltb, leb, ◌==◌, if◌then◌else◌, add32, sub32, mul32, add64, sub64, ℕ, zero, suc, ◌+◌, ◌-◌, ◌/◌,
  ◌%◌, ◌^◌, Bool, true, false, ◌&&◌, ◌||◌, not, Option, none, some, List,
}
use mini_orange_os.Mm.Bitmap.{bitmap_get, bitmap_set, fill}

abbrev pub max_pages : ℕ
max_pages = 1048576

abbrev pub bitmap_size : ℕ
bitmap_size = 131072

abbrev pub four_gib : ℕ
four_gib = 2 ^ 32

abbrev pub low_memory_reserved_end : ℕ
low_memory_reserved_end = 0x100000

abbrev pub e820_usable : ℕ
e820_usable = 1

abbrev pub boot_info_magic : ℕ
boot_info_magic = 0x534F494D

abbrev pub boot_info_max_e820_entries : ℕ
boot_info_max_e820_entries = 128

-- sizeof(struct boot_info)
abbrev pub boot_info_size : ℕ
boot_info_size = 64

pub record E820Entry : Type 0 where
  pub base : ℕ
  pub len : ℕ
  pub kind : ℕ

-- The fields of struct boot_info that pmm_init reads, with the entries at `e820_address`.
pub record BootInfo : Type 0 where
  pub magic : ℕ
  pub version : ℕ
  pub size : ℕ
  pub kernel_physical_start : ℕ
  pub kernel_physical_end : ℕ
  pub e820_count : ℕ
  pub e820_entries : ℕ → E820Entry

pub record Pmm : Type 0 where
  pub used_bitmap : List ℕ
  pub allocatable_bitmap : List ℕ
  pub total_pages : ℕ
  pub free_pages : ℕ
  pub reserved_pages : ℕ

-- `x & ~(PAGE_SIZE - 1)` on uint64_t
abbrev pub page_floor : ℕ → ℕ
page_floor x = x - x % 4096

-- `end = base + length`, cut at 4 GiB if it wraps or goes beyond.
pub range_end : ℕ → ℕ → ℕ
range_end base len =
    let end = add64 base len in if ltb end base || ltb four_gib end then four_gib else end

-- The first page and the page after the last, or `none` where the code returns false.
pub range_to_pages : ℕ → ℕ → Option (ℕ × ℕ)
unfolding range_end
range_to_pages base len =
    if len == 0 || leb four_gib base
    then none
    else if ltb (four_gib - 4095) base
    then none
    else let start = page_floor (add64 base 4095) in
      let end = page_floor (range_end base len) in
      if leb end start then none else some (start / 4096 % 2 ^ 32, end / 4096 % 2 ^ 32)

-- The two writes of the loops' bodies.
pub set_page : Bool → Bool → ℕ → Pmm → Pmm
set_page allocatable used page p = record p {
  allocatable_bitmap = bitmap_set p.allocatable_bitmap page allocatable;
  used_bitmap = bitmap_set p.used_bitmap page used;
}

-- for (page = first; ...; ++page), for as many rounds as are left.
pub set_pages : Bool → Bool → ℕ → ℕ → Pmm → Pmm
set_pages allocatable used zero page p = p
set_pages allocatable used (suc rounds) page p =
    set_pages allocatable used rounds (page + 1) (set_page allocatable used page p)

pub make_range_allocatable : ℕ → ℕ → Pmm → Pmm
make_range_allocatable base len p = elim (range_to_pages base len) [
  | none ↦ p
  | some (first, limit) ↦ set_pages true false (limit - first) first p
]

-- The first page and the page after the last that reserve_range marks.
pub reserved_limits : ℕ → ℕ → Option (ℕ × ℕ)
unfolding range_end
reserved_limits base len =
    if len == 0 || leb four_gib base
    then none
    else let end = range_end base len in
      some (
        base / 4096 % 2 ^ 32,
        if end == four_gib then max_pages else add64 end 4095 / 4096 % 2 ^ 32,
      )

pub reserve_range : ℕ → ℕ → Pmm → Pmm
reserve_range base len p = elim (reserved_limits base len) [
  | none ↦ p
  | some (first, limit) ↦ set_pages false true (limit - first) first p
]

-- bitmap_get(allocatable_bitmap, page) && !bitmap_get(used_bitmap, page)
abbrev pub page_free : Pmm → ℕ → Bool
page_free p page = bitmap_get p.allocatable_bitmap page && not (bitmap_get p.used_bitmap page)

-- The first loop over the map: `maximum_page`, and the usable ranges made allocatable.
pub add_entry : E820Entry → ℕ × Pmm → ℕ × Pmm
add_entry e (maximum_page, p) = elim (range_to_pages e.base e.len) [
  | none ↦ (maximum_page, p)
  | some (first, limit) ↦ (
    if ltb maximum_page limit then limit else maximum_page,
    if e.kind == e820_usable then make_range_allocatable e.base e.len p else p,
  )
]

pub add_entries : (ℕ → E820Entry) → ℕ → ℕ → ℕ × Pmm → ℕ × Pmm
add_entries entries zero index s = s
add_entries entries (suc rounds) index s =
    add_entries entries rounds (index + 1) (add_entry (entries index) s)

-- The second loop: what is not usable is reserved.
pub reserve_entry : E820Entry → Pmm → Pmm
reserve_entry e p = if e.kind == e820_usable then p else reserve_range e.base e.len p

pub reserve_entries : (ℕ → E820Entry) → ℕ → ℕ → Pmm → Pmm
reserve_entries entries zero index p = p
reserve_entries entries (suc rounds) index p =
    reserve_entries entries rounds (index + 1) (reserve_entry (entries index) p)

-- The third loop: the free pages from `page` on.
pub count_free : Pmm → ℕ → ℕ → ℕ → ℕ
count_free p zero page acc = acc
count_free p (suc rounds) page acc =
    count_free p rounds (page + 1) (if page_free p page then add32 acc 1 else acc)

pub blank : Pmm
blank = record {
  used_bitmap = fill bitmap_size 0xFF;
  allocatable_bitmap = fill bitmap_size 0;
  total_pages = 0;
  free_pages = 0;
  reserved_pages = 0;
}

-- The condition under which pmm_init refuses the Boot Info.
pub boot_info_invalid : BootInfo → Bool
boot_info_invalid b =
    not (b.magic == boot_info_magic)
    || not (b.version == 1)
    || not (b.size == boot_info_size)
    || b.e820_count == 0
    || ltb boot_info_max_e820_entries b.e820_count
    || leb b.kernel_physical_end b.kernel_physical_start

-- The bitmaps after the two passes over the map and the two fixed reservations.
pub build : BootInfo → ℕ × Pmm
build b =
    let (maximum_page, p) = add_entries b.e820_entries b.e820_count 0 (0, blank) in
    (
      maximum_page,
      reserve_range b.kernel_physical_start (sub64 b.kernel_physical_end b.kernel_physical_start) (
          reserve_range 0 low_memory_reserved_end
            (reserve_entries b.e820_entries b.e820_count 0 p)),
    )

pub finish : ℕ × Pmm → Pmm
finish (total, p) =
    let free = count_free p total 0 0 in
    record p { total_pages = total; free_pages = free; reserved_pages = sub32 total free }

pub init : Option BootInfo → Option Pmm
init none = none
init (some b) =
    let p = finish (build b) in
    if boot_info_invalid b
    then none
    else if p.total_pages == 0 || p.free_pages == 0
    then none
    else some p

-- The first free page of the `rounds` pages from `page` on.
pub find_free : Pmm → ℕ → ℕ → Option ℕ
find_free p zero page = none
find_free p (suc rounds) page =
    let rest = find_free p rounds (page + 1) in if page_free p page then some page else rest

-- pmm_alloc: the physical address, 0 if there is no page.
pub alloc : Pmm → ℕ × Pmm
alloc p = elim (find_free p p.total_pages 0) [
  | none ↦ (0, p)
  | some page ↦ (
    mul32 page 4096,
    record p {
      used_bitmap = bitmap_set p.used_bitmap page true;
      free_pages = sub32 p.free_pages 1;
    },
  )
]

-- pmm_free
pub free : ℕ → Pmm → Bool × Pmm
free address p =
    if not (address % 4096 == 0)
    then (false, p)
    else let page = address / 4096 in
      if leb p.total_pages page
        || not (bitmap_get p.allocatable_bitmap page)
        || not (bitmap_get p.used_bitmap page)
      then (false, p)
      else (
        true,
        record p {
          used_bitmap = bitmap_set p.used_bitmap page false;
          free_pages = add32 p.free_pages 1;
        },
      )

-- pmm_self_test
pub self_test : Pmm → Bool × Pmm
self_test p0 =
    let (first, p1) = alloc p0 in
    let (second, p2) = alloc p1 in
    let (freed, p3) = free first p2 in
    let (recycled, p4) = alloc p3 in
    let (freed_again, p5) = free recycled p4 in
    let (freed_second, p6) = free second p5 in
    if first == 0
      || second == 0
      || first == second
      || not (first % 4096 == 0)
      || not (second % 4096 == 0)
    then (false, p2)
    else if not freed
    then (false, p3)
    else if not (recycled == first)
    then (false, p4)
    else if not freed_again
    then (false, p5)
    else if not freed_second
    then (false, p6)
    else (p6.free_pages == p0.free_pages, p6)
