-- ===== src/Mm/Usercopy/Tests.antt =====
-- kernel/mm/usercopy.c over one page at 0x00800000 that the user may write.
use mini_orange_os.Mm.Usercopy.Range.{Accessible, validate_user_range_iff}
use mini_orange_os.Mm.Usercopy.Copy.{IsOutside, copy_from_user-copy_to_user}
use mini_orange_os.Prelude.Int.{pos}
use mini_orange_os.Prelude.{
  leb, ◌==◌, if◌then◌else◌, ℕ, ◌+◌, ◌-◌, ◌*◌, ◌≤◌, ◌<◌, ◌≡◌, refl, ◌↔◌, ◌⊎◌, true, Option, none,
  some, [], ◌∷◌, arith,
}
use mini_orange_os.Mm.Usercopy.{
  validate_user_range, copy_to_user, check_pages, copy_user_string, user_access_write, allows,
  copy_from_user, copy_chunks, kernel_base, is_user, copy_chunk, is_writable, physical,
}

abbrev one_page : ℕ → Option ℕ
one_page address = if address == 0x00800000 then some 7 else none

abbrev zeros : ℕ → ℕ
zeros address = 0

abbrev three : ℕ
three = 3

valid_lem : validate_user_range one_page 0x00800010 3 user_access_write ≡ true
unfolding validate_user_range check_pages allows is_user is_writable
valid_lem = refl

validate_user_range_iff_example :
    (validate_user_range one_page 0x00800010 3 user_access_write ≡ true) ↔ (
      (three ≡ 0)
      ⊎ ((0x00800010 + 3 ≤ kernel_base) × Accessible one_page 0x00800010 3 user_access_write))
validate_user_range_iff_example = validate_user_range_iff one_page 0x00800010 3 user_access_write

-- Memory that holds letters in its frame 2, and page tables that map the pages of the two buffers to
-- the frames 2 and 3, and every other page to the frame 5.
abbrev letters : ℕ → ℕ
letters address = if leb 8192 address then 65 + (address - 8192) else 0

abbrev frames : ℕ → ℕ
frames page = if page == 0xC0100 then 2 else if page == 0xC0200 then 3 else 5

-- The copies of three bytes start at the offset 16 of the user's page and at the start of the buffers.
user_physical : (k : ℕ) → k < 3 → physical frames (0x00800010 + k) ≡ 5 * 4096 + 16 + k
unfolding physical
user_physical k h = ground (arith, h)

source_physical : (k : ℕ) → k < 3 → physical frames (0xC0100000 + k) ≡ 2 * 4096 + k
unfolding physical
source_physical k h = ground (arith, h)

result_physical : (k : ℕ) → k < 3 → physical frames (0xC0200000 + k) ≡ 3 * 4096 + k
unfolding physical
result_physical k h = ground (arith, h)

copy_from_user-copy_to_user_example :
    (sent : ℕ → ℕ) × (received : ℕ → ℕ) × (copy_to_user one_page frames letters 0x00800010
        0xC0100000 3
      ≡ (pos 0, sent))
    × (copy_from_user one_page frames sent 0xC0200000 0x00800010 3 ≡ (pos 0, received))
    × ((k : ℕ)
        → k < 3
        → (received (physical frames (0xC0200000 + k)) ≡ letters (physical frames (0xC0100000 + k)))
          × (received (physical frames (0x00800010 + k))
              ≡ letters (physical frames (0xC0100000 + k))))
    × ((a : ℕ)
        → IsOutside frames a 0x00800010 3
        → IsOutside frames a 0xC0200000 3
        → received a ≡ letters a)
copy_from_user-copy_to_user_example =
    copy_from_user-copy_to_user one_page frames letters 0x00800010 0xC0100000 0xC0200000 3 valid_lem
      (λ e. omega (arith, e)) (λ e. omega (arith, e))
      (λ j k hj hk e. omega (arith, user_physical j hj, user_physical k hk, e))
      (λ j k hj hk e. omega (arith, result_physical j hj, result_physical k hk, e))
      (λ j k hj hk e. omega (arith, user_physical j hj, source_physical k hk, hj, hk, e))
      (λ j k hj hk e. omega (arith, result_physical j hj, user_physical k hk, hj, hk, e))

-- A string whose terminator lies on the page is copied with it.
string_lem : copy_user_string one_page zeros true 0x00800010 8 ≡ (pos 0, 0 ∷ [])
unfolding copy_user_string copy_chunks copy_chunk validate_user_range check_pages allows is_user
    is_writable
string_lem = refl
