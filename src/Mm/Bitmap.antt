-- ===== src/Mm/Bitmap.antt =====
-- The page bitmaps of kernel/mm/pmm.c: one bit for a page, eight pages to a byte.
pub mod Laws
use mini_orange_os.Prelude.{
  ◌==◌, if◌then◌else◌, get_or, set, replicate, ℕ, ◌-◌, ◌/◌, ◌%◌, ◌^◌, bit_and, bit_or, Bool, not,
  List,
}

-- (uint8_t)(1U << (page & 7U))
pub mask : ℕ → ℕ
mask page = 2 ^ (page % 8)

-- The test on one byte.
pub byte_get : ℕ → ℕ → Bool
unfolding mask
byte_get byte page = not (bit_and byte (mask page) == 0)

-- The write to one byte; `~mask` on uint8_t is 255 - mask.
pub byte_set : ℕ → ℕ → Bool → ℕ
unfolding mask
byte_set byte page value = if value then bit_or byte (mask page) else bit_and byte (255 - mask page)

unfoldable pub bitmap_get : List ℕ → ℕ → Bool
unfolding byte_get
bitmap_get bitmap page = byte_get (get_or bitmap (page / 8) 0) page

unfoldable pub bitmap_set : List ℕ → ℕ → Bool → List ℕ
unfolding byte_set
bitmap_set bitmap page value =
    set bitmap (page / 8) (byte_set (get_or bitmap (page / 8) 0) page value)

-- for (index = 0; index < size; ++index) bitmap[index] = byte
unfoldable pub fill : ℕ → ℕ → List ℕ
fill size byte = replicate size byte
