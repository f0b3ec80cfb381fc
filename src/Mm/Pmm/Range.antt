-- ===== src/Mm/Pmm/Range.antt =====
-- range_to_pages rounds inwards and the limits of reserve_range outwards: exactly the pages that
-- lie inside a byte range, and exactly those that touch it.
use mini_orange_os.Prelude.{
  ltb, leb, ℕ, ◌+◌, ◌*◌, ◌^◌, ◌≤◌, ◌<◌, min, ◌≡◌, Bool, false, ◌&&◌, Option, none, some, arith,
}
use mini_orange_os.Mm.Pmm.{max_pages, four_gib, range_end, range_to_pages, reserved_limits}

-- The page lies inside the range of bytes.
abbrev pub page_inside : ℕ → ℕ → ℕ → Bool
page_inside base len q = leb base (q * 4096) && leb ((q + 1) * 4096) (base + len)

-- The page has a byte of the range.
abbrev pub page_touches : ℕ → ℕ → ℕ → Bool
page_touches base len q = ltb 0 len && (ltb (q * 4096) (base + len) && ltb base ((q + 1) * 4096))

-- Whether a loop from the first page up to the limit visits the page.
abbrev pub visits : Option (ℕ × ℕ) → ℕ → Bool
visits none q = false
visits (some (first, limit)) q = leb first q && ltb q limit

-- A value of type uint64_t.
abbrev pub U64 : ℕ → Type 0
U64 x = x < 2 ^ 64

range_end_lem :
    (base len : ℕ) → base < four_gib → U64 len → range_end base len ≡ min (base + len) four_gib
unfolding range_end
range_end_lem base len hb hl = ground arith

-- What range_to_pages gives: a non-empty interval of pages below the 4 GiB limit.
pub range_to_pages_bounds :
    (base len first limit : ℕ)
    → U64 base
    → U64 len
    → range_to_pages base len ≡ some (first, limit)
    → (first < limit) × (limit ≤ max_pages)
unfolding range_to_pages
range_to_pages_bounds base len first limit hb hl e = ground (arith, range_end_lem base len)

-- For a 64-bit base and length, a page below 4 GiB is in the interval of range_to_pages exactly when
-- it lies inside the range.
pub range_to_pages-visits :
    (base len q : ℕ)
    → U64 base
    → U64 len
    → q < max_pages
    → visits (range_to_pages base len) q ≡ page_inside base len q
unfolding range_to_pages
range_to_pages-visits base len q hb hl hq = ground (arith, range_end_lem base len)

pub reserved_limits_bounds :
    (base len first limit : ℕ)
    → U64 base
    → U64 len
    → reserved_limits base len ≡ some (first, limit)
    → (first ≤ limit) × (limit ≤ max_pages)
unfolding reserved_limits
reserved_limits_bounds base len first limit hb hl e = ground (arith, range_end_lem base len)

-- For a 64-bit base and length, reserve_range marks a page below 4 GiB exactly when it touches the
-- range.
pub reserved_limits-visits :
    (base len q : ℕ)
    → U64 base
    → U64 len
    → q < max_pages
    → visits (reserved_limits base len) q ≡ page_touches base len q
unfolding reserved_limits
reserved_limits-visits base len q hb hl hq = ground (arith, range_end_lem base len)
