-- ===== src/User/Io.antt =====
-- user/libc/io.c and user/libc/string.c: writing through the system call, whose write may accept fewer
-- bytes than it is given. Descriptors are not modelled: `Writer` stands for one of them.
pub mod Sink
pub mod Decimal
mod Tests
use mini_orange_os.Prelude.{
  ◌==◌, if◌then◌else◌, length, get_or, set, ℕ, zero, suc, ◌+◌, ◌-◌, ◌/◌, ◌%◌, min, Bool, true,
  false, Option, none, some, List, [], ◌∷◌,
}
use mini_orange_os.Prelude.Int.{ℤ, pos, negsuc}

-- minios_write on one descriptor.
pub record Writer : Type 1 where
  pub State : Type 0
  pub write : List ℕ → State → ℤ × State

pub take : ℕ → List ℕ → List ℕ
take zero xs = []
take (suc n) [] = []
take (suc n) (x ∷ xs) = x ∷ take n xs

pub drop : ℕ → List ℕ → List ℕ
drop zero xs = xs
drop (suc n) [] = []
drop (suc n) (x ∷ xs) = drop n xs

-- What a result above 0 counts, and 0 for the others, which end the loop.
abbrev pub to_count : ℤ → ℕ
to_count (pos n) = n
to_count (negsuc n) = 0

-- minios_strlen: the bytes before the terminator, of an array that has one.
pub minios_strlen : List ℕ → ℕ
minios_strlen [] = 0
minios_strlen (c ∷ cs) = let rest = minios_strlen cs in if c == 0 then 0 else rest + 1

-- The first loop of minios_print_uint32, at most `rounds` of it: the digits, the lowest first.
pub low_digits : ℕ → ℕ → List ℕ
low_digits zero value = []
low_digits (suc rounds) value =
    let rest = low_digits rounds (value / 10) in
    if value / 10 == 0 then (48 + value % 10) ∷ [] else (48 + value % 10) ∷ rest

-- Its second loop, which swaps the digits at `index` and `count - index - 1`.
pub swap_digits : ℕ → ℕ → ℕ → List ℕ → List ℕ
swap_digits zero index count digits = digits
swap_digits (suc rounds) index count digits =
    let temporary = get_or digits index 0 in
    let other = get_or digits (count - index - 1) 0 in
    swap_digits rounds (index + 1) count
      (set (set digits index other) (count - index - 1) temporary)

-- What minios_print_uint32 writes: `digits` has room for 10.
pub uint32_text : ℕ → List ℕ
uint32_text value =
    let digits = low_digits 10 value in swap_digits (length digits / 2) 0 (length digits) digits

module _ (W : Writer) where
  open W use {State, write}

  -- The loop of minios_write_all over the bytes from `offset` on; each round that goes on has written
  -- one byte or more, so as many rounds as bytes suffice.
  pub write_rest : ℕ → List ℕ → State → Bool × State
  write_rest zero bytes s = (length bytes == 0, s)
  write_rest (suc rounds) [] s = (true, s)
  write_rest (suc rounds) (b ∷ bytes) s =
      let (written, s') = write (take (min (length (b ∷ bytes)) 4096) (b ∷ bytes)) s in
      let rest = write_rest rounds (drop (to_count written) (b ∷ bytes)) s' in
      if to_count written == 0 then (false, s') else rest

  -- minios_write_all; the buffer is `none` for NULL with a length that is not 0.
  pub minios_write_all : Option (List ℕ) → State → Bool × State
  minios_write_all none s = (false, s)
  minios_write_all (some bytes) s = write_rest (length bytes) bytes s

  -- minios_print; the text is `none` for NULL.
  pub minios_print : Option (List ℕ) → State → Bool × State
  minios_print none s = (false, s)
  minios_print (some text) s = minios_write_all (some (take (minios_strlen text) text)) s

  pub minios_print_uint32 : ℕ → State → Bool × State
  minios_print_uint32 value s = minios_write_all (some (uint32_text value)) s
