-- ===== src/Mm/Pmm/Init.antt =====
-- pmm_init: which pages it hands to the allocator, and that its state satisfies the invariant.
use mini_orange_os.Prelude.{
  ◌==◌, Bool-cases, Option-cases, sub64, ℕ, zero, suc, ◌+◌, ◌-◌, ◌^◌, ◌≤◌, ◌<◌, ◌≡◌, sym, ◌∙◌,
  subst, inl, inr, Bool, true, false, ◌&&◌, ◌||◌, not, some, arith,
}
use mini_orange_os.Mm.Bitmap.{bitmap_get}
use mini_orange_os.Mm.Bitmap.Laws.{fill-Bytes, length-fill, bitmap_get-fill}
use mini_orange_os.Mm.Pmm.{
  Pmm, E820Entry, BootInfo, max_pages, bitmap_size, e820_usable, low_memory_reserved_end,
  range_to_pages, reserved_limits, make_range_allocatable, reserve_range, add_entry, add_entries,
  reserve_entry, reserve_entries, blank, build, finish, init, boot_info_invalid, page_free,
}
use mini_orange_os.Mm.Pmm.Range.{
  U64, page_inside, page_touches, range_to_pages_bounds, range_to_pages-visits,
  reserved_limits_bounds, reserved_limits-visits,
}
use mini_orange_os.Mm.Pmm.Build.{Shows, Shows-ext, set_pages-Shows}
use mini_orange_os.Mm.Pmm.Invariant.{Inv, card_ext, count_free-eq-card, card-le}

-- The page lies inside a usable entry of the map.
pub usable_in : (ℕ → E820Entry) → ℕ → ℕ → ℕ → Bool
usable_in entries zero index q = false
usable_in entries (suc rounds) index q =
    usable_in entries rounds (index + 1) q
    || (((entries index).kind == e820_usable)
        && page_inside (entries index).base (entries index).len q)

-- The page touches an entry of another kind.
pub reserved_in : (ℕ → E820Entry) → ℕ → ℕ → ℕ → Bool
reserved_in entries zero index q = false
reserved_in entries (suc rounds) index q =
    reserved_in entries rounds (index + 1) q
    || (not ((entries index).kind == e820_usable)
        && page_touches (entries index).base (entries index).len q)

-- The pages that the allocator may hand out, told from the Boot Info alone.
pub page_usable : BootInfo → ℕ → Bool
page_usable b q =
    usable_in b.e820_entries b.e820_count 0 q
    && not (reserved_in b.e820_entries b.e820_count 0 q)
    && not (page_touches 0 low_memory_reserved_end q)
    && not
        (page_touches b.kernel_physical_start (b.kernel_physical_end - b.kernel_physical_start) q)

-- The fields have the widths of their C types.
pub record Fits (b : BootInfo) : Type 0 where
  pub entry_base : (i : ℕ) → U64 (b.e820_entries i).base
  pub entry_len : (i : ℕ) → U64 (b.e820_entries i).len
  pub kernel_end : b.kernel_physical_end < 2 ^ 32

blank-Shows : Shows (λ q. false) blank
unfolding blank
blank-Shows = record {
  used_bytes = fill-Bytes bitmap_size 0xFF (omega arith);
  allocatable_bytes = fill-Bytes bitmap_size 0 (omega arith);
  used_size = length-fill bitmap_size 0xFF;
  allocatable_size = length-fill bitmap_size 0;
  allocatable = λ q hq. (bitmap_get-fill bitmap_size q (omega arith)).1;
  used = λ q hq. (bitmap_get-fill bitmap_size q (omega arith)).0;
}

make_range_allocatable-Shows :
    (f : ℕ → Bool) (p : Pmm) (base len : ℕ)
    → U64 base
    → U64 len
    → Shows f p
    → Shows (λ q. f q || page_inside base len q) (make_range_allocatable base len p)
unfolding make_range_allocatable
make_range_allocatable-Shows f p base len hb hl s = elim (Option-cases (range_to_pages base len)) [
  | inl e ↦
      rw (e, make_range_allocatable)
        (Shows-ext f _ p (λ q hq. ground (arith, e, range_to_pages-visits base len q hb hl hq)) s)
  | inr ((first, limit), e) ↦
      let h = range_to_pages_bounds base len first limit hb hl e in
      rw (e, make_range_allocatable)
        (Shows-ext _ _ _ (λ q hq. ground (arith, e, range_to_pages-visits base len q hb hl hq))
          (set_pages-Shows f p true (limit - first) first (omega (arith, h)) s))
]

reserve_range-Shows :
    (f : ℕ → Bool) (p : Pmm) (base len : ℕ)
    → U64 base
    → U64 len
    → Shows f p
    → Shows (λ q. f q && not (page_touches base len q)) (reserve_range base len p)
unfolding reserve_range
reserve_range-Shows f p base len hb hl s = elim (Option-cases (reserved_limits base len)) [
  | inl e ↦
      rw (e, reserve_range)
        (Shows-ext f _ p (λ q hq. ground (arith, e, reserved_limits-visits base len q hb hl hq)) s)
  | inr ((first, limit), e) ↦
      let h = reserved_limits_bounds base len first limit hb hl e in
      rw (e, reserve_range)
        (Shows-ext _ _ _ (λ q hq. ground (arith, e, reserved_limits-visits base len q hb hl hq))
          (set_pages-Shows f p false (limit - first) first (omega (arith, h)) s))
]

-- What the first loop keeps: the map so far, and a page count that stays below the maximum.
add_entry-Shows :
    (e : E820Entry) (f : ℕ → Bool) (m : ℕ) (p : Pmm)
    → U64 e.base
    → U64 e.len
    → m ≤ max_pages
    → Shows f p
    → Shows
        (λ q. f q || ((e.kind == e820_usable) && page_inside e.base e.len q))
        (add_entry e (m, p)).1
      × ((add_entry e (m, p)).0 ≤ max_pages)
unfolding add_entry
add_entry-Shows e f m p hb hl hm s = elim (Option-cases (range_to_pages e.base e.len)) [
  | inl n ↦
      rw (n, add_entry)
        (
          Shows-ext f _ p (λ q hq. ground (arith, n, range_to_pages-visits e.base e.len q hb hl hq))
              s,
          hm,
        )
  | inr ((first, limit), n) ↦
      let h = range_to_pages_bounds e.base e.len first limit hb hl n in
      rw (n, add_entry)
        (
          elim (Bool-cases (e.kind == e820_usable)) [
            | inl y ↦ rw y (make_range_allocatable-Shows f p e.base e.len hb hl s)
            | inr x ↦ rw x (Shows-ext f _ p (λ q hq. ground arith) s)
          ],
          ground (arith, h),
        )
]

add_entries-Shows :
    (entries : ℕ → E820Entry)
    → ((i : ℕ) → U64 (entries i).base)
    → ((i : ℕ) → U64 (entries i).len)
    → (n i : ℕ) (f : ℕ → Bool) (m : ℕ) (p : Pmm) → m ≤ max_pages
    → Shows f p
    → Shows (λ q. f q || usable_in entries n i q) (add_entries entries n i (m, p)).1
      × ((add_entries entries n i (m, p)).0 ≤ max_pages)
unfolding add_entries usable_in
add_entries-Shows entries hb hl zero i f m p hm s = (Shows-ext f _ p (λ q hq. ground arith) s, hm)
add_entries-Shows entries hb hl (suc n) i f m p hm s =
    let a = add_entry-Shows (entries i) f m p (hb i) (hl i) hm s in
    let r = add_entries-Shows entries hb hl n (i + 1) _ _ _ a.1 a.0 in
    (Shows-ext _ _ _ (λ q hq. ground arith) r.0, r.1)

reserve_entries-Shows :
    (entries : ℕ → E820Entry)
    → ((i : ℕ) → U64 (entries i).base)
    → ((i : ℕ) → U64 (entries i).len)
    → (n i : ℕ) (f : ℕ → Bool) (p : Pmm) → Shows f p
    → Shows (λ q. f q && not (reserved_in entries n i q)) (reserve_entries entries n i p)
unfolding reserve_entries reserved_in reserve_entry
reserve_entries-Shows entries hb hl zero i f p s = Shows-ext f _ p (λ q hq. ground arith) s
reserve_entries-Shows entries hb hl (suc n) i f p s =
    elim (Bool-cases ((entries i).kind == e820_usable)) [
      | inl y ↦ rw y (
          Shows-ext _ _ _ (λ q hq. ground arith)
            (reserve_entries-Shows entries hb hl n (i + 1) f p s))
      | inr x ↦ rw x (
          Shows-ext _ _ _ (λ q hq. ground arith)
            (reserve_entries-Shows entries hb hl n (i + 1) _ _
              (reserve_range-Shows f p (entries i).base (entries i).len (hb i) (hl i) s)))
    ]

valid_kernel :
    (b : BootInfo) → boot_info_invalid b ≡ false → b.kernel_physical_start < b.kernel_physical_end
unfolding boot_info_invalid
valid_kernel b h = ground arith

build-Shows :
    (b : BootInfo)
    → Fits b
    → boot_info_invalid b ≡ false
    → Shows (page_usable b) (build b).1 × ((build b).0 ≤ max_pages)
unfolding build page_usable
build-Shows b w h =
    let k = valid_kernel b h in
    let start = b.kernel_physical_start in
    let size = sub64 b.kernel_physical_end start in
    let kw = w.kernel_end in
    let size_eq : size ≡ b.kernel_physical_end - start = omega (arith, k, kw) in
    let map =
      add_entries-Shows b.e820_entries w.entry_base w.entry_len b.e820_count 0 (λ q. false) 0 blank
        (omega arith) blank-Shows in
    let kept =
      reserve_entries-Shows b.e820_entries w.entry_base w.entry_len b.e820_count 0 _ _ map.0 in
    let low = reserve_range-Shows _ _ 0 low_memory_reserved_end (omega arith) (omega arith) kept in
    let kernel =
      reserve_range-Shows _ _ start size (omega (arith, k, kw)) (omega (arith, size_eq, kw)) low in
    (Shows-ext _ _ _ (λ q hq. ground (arith, size_eq)) kernel, map.1)

init-inversion :
    (b : BootInfo) (p : Pmm)
    → init (some b) ≡ some p
    → (boot_info_invalid b ≡ false) × (p ≡ finish (build b)) × (0 < p.free_pages)
unfolding init
init-inversion b p e = elim (Bool-cases (boot_info_invalid b)) [
  | inl bad ↦ absurd (ground arith)
  | inr good ↦
      elim (Bool-cases
        ((finish (build b)).total_pages == 0 || (finish (build b)).free_pages == 0)) [
          | inl bad ↦ absurd (ground arith)
          | inr ok ↦
              let same : p ≡ finish (build b) = ground arith in (good, same, rw same (ground arith))
        ]
]

finish-Inv :
    (f : ℕ → Bool) (total : ℕ) (p : Pmm)
    → ((q : ℕ) → q < 256 → f q ≡ false)
    → total ≤ max_pages
    → Shows f p
    → Inv (finish (total, p)) × ((q : ℕ) → q < max_pages → page_free (finish (total, p)) q ≡ f q)
unfolding finish
finish-Inv f total p low le s =
    let free_is : (q : ℕ) → q < max_pages → page_free p q ≡ f q =
      λ q hq. ground (arith, s.allocatable q hq, s.used q hq) in
    let count = count_free-eq-card p total 0 0 (omega arith) in
    let same =
      card_ext (page_free p) (bitmap_get p.allocatable_bitmap) total 0
        (λ q lo hi. free_is q (omega (arith, hi)) ∙ sym (s.allocatable q (omega (arith, hi)))) in
    let bound = card-le (page_free p) total 0 in
    (
      record {
        used_bytes = s.used_bytes;
        allocatable_bytes = s.allocatable_bytes;
        used_covers = omega (arith, s.used_size, le);
        allocatable_covers = omega (arith, s.allocatable_size, le);
        total_le = le;
        free_eq = omega (arith, count);
        reserved_eq = omega (arith, count, same, bound, le);
        low = λ q hq. s.allocatable q (omega (arith, hq)) ∙ low q hq;
      },
      free_is,
    )

page_usable-low : (b : BootInfo) (q : ℕ) → q < 256 → page_usable b q ≡ false
unfolding page_usable
page_usable-low b q h = ground arith

-- Where pmm_init does not panic, its state satisfies the invariant and has a free page, and a page
-- below 4 GiB is free exactly when it lies inside a usable entry of the map, touches no entry of
-- another kind, and lies neither in the first MiB nor on the kernel image.
pub init-Inv :
    (b : BootInfo) (p : Pmm)
    → Fits b
    → init (some b) ≡ some p
    → Inv p × (0 < p.free_pages) × ((q : ℕ) → q < max_pages → page_free p q ≡ page_usable b q)
init-Inv b p w e =
    let (valid, same, some_free) = init-inversion b p e in
    let shown = build-Shows b w valid in
    let r =
      finish-Inv (page_usable b) (build b).0 (build b).1 (page_usable-low b) shown.1 shown.0 in
    (subst Inv (sym same) r.0, some_free, λ q hq. rw same (r.1 q hq))
