-- ===== src/User/Io/Decimal.antt =====
-- minios_print_uint32 of user/libc/io.c: the text reads back as the number.
use mini_orange_os.Fs.MiniFs.Files.Pointers.{length-append}
use native.Mathlib.Decide.{dec_lt}
use mini_orange_os.Prelude.{
  leb, ◌==◌, if◌then◌else◌, Bool-cases, length, All, ℕ, zero, suc, ◌+◌, ◌-◌, ◌*◌, ◌/◌, ◌%◌, ◌^◌,
  ◌≤◌, ◌<◌, ◌≡◌, refl, ap, ◌∙◌, inl, inr, Bool, true, false, ◌&&◌, Option, none, some, List, [],
  ◌∷◌, ◌++◌, arith,
}
use mini_orange_os.User.Io.{Writer, low_digits, swap_digits, uint32_text, minios_print_uint32}
use mini_orange_os.User.Io.Sink.{Sink, minios_write_all_lem}

abbrev pub is_digit : ℕ → Bool
is_digit c = leb 48 c && leb c 57

-- The number of the digits after the part that gave `sum`; `none` where one is not a digit.
pub read_digits : ℕ → List ℕ → Option ℕ
read_digits sum [] = some sum
read_digits sum (c ∷ cs) = if is_digit c then read_digits (sum * 10 + (c - 48)) cs else none

-- The number that a decimal text stands for: `none` on the empty text, on a text of two characters or
-- more that begins with '0', and on a text with a character that is not a digit.
pub read_decimal : List ℕ → Option ℕ
read_decimal [] = none
read_decimal (c ∷ []) = read_digits 0 (c ∷ [])
read_decimal (c ∷ d ∷ cs) = if c == 48 then none else read_digits 0 (c ∷ d ∷ cs)

AllDigits : List ℕ → Type 0
AllDigits = All (λ c. is_digit c ≡ true)

-- The value of digits, without the tests.
value_of : ℕ → List ℕ → ℕ
value_of sum [] = sum
value_of sum (c ∷ cs) = value_of (sum * 10 + (c - 48)) cs

read_digits-value_of :
    (sum : ℕ) (xs : List ℕ) → AllDigits xs → read_digits sum xs ≡ some (value_of sum xs)
unfolding read_digits value_of AllDigits
read_digits-value_of sum [] digits = refl
read_digits-value_of sum (x ∷ xs) (digit, digits) =
    rw digit (read_digits-value_of (sum * 10 + (x - 48)) xs digits)

-- The first and the last character, 0 where there is none.
first : List ℕ → ℕ
first [] = 0
first (x ∷ xs) = x

last : List ℕ → ℕ
last [] = 0
last (x ∷ []) = x
last (x ∷ y ∷ ys) = last (y ∷ ys)

-- A text of digits is read, if it has one digit or does not begin with '0'.
read_decimal-value_of :
    (xs : List ℕ)
    → AllDigits xs
    → 1 ≤ length xs
    → (2 ≤ length xs → (first xs == 48) ≡ false)
    → read_decimal xs ≡ some (value_of 0 xs)
unfolding read_decimal first
read_decimal-value_of [] digits some_digits leads = absurd (omega (arith, some_digits))
read_decimal-value_of (x ∷ []) digits some_digits leads = read_digits-value_of 0 (x ∷ []) digits
read_decimal-value_of (x ∷ y ∷ ys) digits some_digits leads =
    rw (leads (omega arith)) (read_digits-value_of 0 (x ∷ y ∷ ys) digits)

-- The same with the lowest digit first.
from_low : List ℕ → ℕ
from_low [] = 0
from_low (c ∷ cs) = c - 48 + 10 * from_low cs

value_of-append :
    (sum : ℕ) (xs ys : List ℕ) → value_of sum (xs ++ ys) ≡ value_of (value_of sum xs) ys
unfolding value_of
value_of-append sum [] ys = refl
value_of-append sum (x ∷ xs) ys = value_of-append (sum * 10 + (x - 48)) xs ys

flip : List ℕ → List ℕ
flip [] = []
flip (x ∷ xs) = flip xs ++ (x ∷ [])

value_of-flip : (ds : List ℕ) → value_of 0 (flip ds) ≡ from_low ds
unfolding value_of flip from_low
value_of-flip [] = refl
value_of-flip (d ∷ ds) =
    let ih = value_of-flip ds in
    let lowest = value_of-append 0 (flip ds) (d ∷ []) in omega (arith, lowest, ih)

AllDigits-append :
    (xs : List ℕ) (y : ℕ) → AllDigits xs → is_digit y ≡ true → AllDigits (xs ++ (y ∷ []))
unfolding AllDigits
AllDigits-append [] y digits digit = (digit, tt)
AllDigits-append (x ∷ xs) y digits digit = (digits.0, AllDigits-append xs y digits.1 digit)

AllDigits-flip : (ds : List ℕ) → AllDigits ds → AllDigits (flip ds)
unfolding flip AllDigits
AllDigits-flip [] digits = tt
AllDigits-flip (d ∷ ds) digits = AllDigits-append (flip ds) d (AllDigits-flip ds digits.1) digits.0

length-flip : (ds : List ℕ) → length (flip ds) ≡ length ds
unfolding flip
length-flip [] = refl
length-flip (d ∷ ds) = length-append (flip ds) (d ∷ []) ∙ omega (arith, length-flip ds)

first-append : (xs : List ℕ) (y : ℕ) → 1 ≤ length xs → first (xs ++ (y ∷ [])) ≡ first xs
unfolding first
first-append [] y h = absurd (omega (arith, h))
first-append (x ∷ xs) y h = refl

first-flip : (ds : List ℕ) → first (flip ds) ≡ last ds
unfolding flip first last
first-flip [] = refl
first-flip (d ∷ []) = refl
first-flip (d ∷ e ∷ ds) =
    first-append (flip (e ∷ ds)) d (omega (arith, length-flip (e ∷ ds))) ∙ first-flip (e ∷ ds)

-- Ten to the power `n`.
abbrev limit : ℕ → ℕ
limit zero = 1
limit (suc n) = 10 * limit n

low_digits-from_low :
    (n value : ℕ) → value < limit (suc n) → from_low (low_digits (suc n) value) ≡ value
unfolding low_digits from_low
low_digits-from_low zero value h = ground arith
low_digits-from_low (suc n) value h =
    let ih = low_digits-from_low n (value / 10) (omega arith) in ground (arith, ih)

low_digits-length : (n value : ℕ) → length (low_digits n value) ≤ n
unfolding low_digits
low_digits-length zero value = omega arith
low_digits-length (suc n) value = ground (arith, low_digits-length n (value / 10))

low_digits-AllDigits : (n value : ℕ) → AllDigits (low_digits n value)
unfolding low_digits AllDigits
low_digits-AllDigits zero value = tt
low_digits-AllDigits (suc n) value =
    let ih = low_digits-AllDigits n (value / 10) in
    let digit : is_digit (48 + value % 10) ≡ true = ground arith in
    elim (Bool-cases (value / 10 == 0)) [ inl y ↦ rw y (digit, tt) | inr x ↦ rw x (digit, ih) ]

low_digits-some : (n value : ℕ) → 1 ≤ length (low_digits (suc n) value)
unfolding low_digits
low_digits-some n value = ground arith

last-cons : (x : ℕ) (ys : List ℕ) → 1 ≤ length ys → last (x ∷ ys) ≡ last ys
unfolding last
last-cons x [] h = absurd (omega (arith, h))
last-cons x (y ∷ ys) h = refl

-- The highest digit of a number that is not 0 is not '0'.
low_digits-last :
    (n value : ℕ)
    → 0 < value
    → value < limit (suc n)
    → (last (low_digits (suc n) value) == 48) ≡ false
unfolding low_digits last
low_digits-last zero value pos h = ground arith
low_digits-last (suc n) value pos h = elim (Bool-cases (value / 10 == 0)) [
  | inl y ↦ rw y (ground arith)
  | inr x ↦
      let rest = low_digits (suc n) (value / 10) in
      let ih = low_digits-last n (value / 10) (ground arith) (omega arith) in
      rw x
        (ap (λ c. c == 48) (last-cons (48 + value % 10) rest (low_digits-some n (value / 10))) ∙ ih)
]

-- The swaps turn an array of at most ten digits round.
swap_digits-flip :
    (ds : List ℕ) → length ds ≤ 10 → swap_digits (length ds / 2) 0 (length ds) ds ≡ flip ds
unfolding swap_digits flip
swap_digits-flip [] h = refl
swap_digits-flip (a ∷ []) h = refl
swap_digits-flip (a ∷ b ∷ []) h = refl
swap_digits-flip (a ∷ b ∷ c ∷ []) h = refl
swap_digits-flip (a ∷ b ∷ c ∷ d ∷ []) h = refl
swap_digits-flip (a ∷ b ∷ c ∷ d ∷ e ∷ []) h = refl
swap_digits-flip (a ∷ b ∷ c ∷ d ∷ e ∷ f ∷ []) h = refl
swap_digits-flip (a ∷ b ∷ c ∷ d ∷ e ∷ f ∷ g ∷ []) h = refl
swap_digits-flip (a ∷ b ∷ c ∷ d ∷ e ∷ f ∷ g ∷ i ∷ []) h = refl
swap_digits-flip (a ∷ b ∷ c ∷ d ∷ e ∷ f ∷ g ∷ i ∷ j ∷ []) h = refl
swap_digits-flip (a ∷ b ∷ c ∷ d ∷ e ∷ f ∷ g ∷ i ∷ j ∷ k ∷ []) h = refl
swap_digits-flip (a ∷ b ∷ c ∷ d ∷ e ∷ f ∷ g ∷ i ∷ j ∷ k ∷ l ∷ ds) h = absurd (omega arith)

uint32_text-flip : (value : ℕ) → uint32_text value ≡ flip (low_digits 10 value)
unfolding uint32_text
uint32_text-flip value = swap_digits-flip (low_digits 10 value) (low_digits-length 10 value)

length-uint32_text : (value : ℕ) → length (uint32_text value) ≤ 10
length-uint32_text value =
    let size = ap length (uint32_text-flip value) ∙ length-flip (low_digits 10 value) in
    omega (arith, size, low_digits-length 10 value)

-- The text of 0 has one digit.
low_digits-zero : (n value : ℕ) → value ≡ 0 → length (low_digits (suc n) value) ≡ 1
unfolding low_digits
low_digits-zero n value e = ground arith

-- A text of two digits or more does not begin with '0'.
low_digits-leads :
    (value : ℕ)
    → value < 2 ^ 32
    → 2 ≤ length (low_digits 10 value)
    → (last (low_digits 10 value) == 48) ≡ false
low_digits-leads value h two = elim (dec_lt 0 value) [
  | yes some_value ↦ low_digits-last 9 value some_value (omega arith)
  | no zero_value ↦ absurd (omega (arith, two, low_digits-zero 9 value (omega arith)))
]

uint32_text-read_decimal :
    (value : ℕ) → value < 2 ^ 32 → read_decimal (uint32_text value) ≡ some value
uint32_text-read_decimal value h =
    let ds = low_digits 10 value in
    let size = length-flip ds in
    ap read_decimal (uint32_text-flip value)
    ∙ read_decimal-value_of (flip ds) (AllDigits-flip ds (low_digits-AllDigits 10 value))
        (omega (arith, size, low_digits-some 9 value))
        (λ two.
          ap (λ c. c == 48) (first-flip ds) ∙ low_digits-leads value h (omega (arith, size, two)))
    ∙ ap some (value_of-flip ds ∙ low_digits-from_low 9 value (omega arith))

-- Over a writer that accepts a beginning of what it is given, of one byte or more, minios_print_uint32
-- of a 32-bit number returns true and appends a text of at most ten bytes, the room of its array, that
-- a strict reader of decimal numbers reads back as the number: one that takes digits only, and neither
-- the empty text nor a text of two characters or more that begins with '0'.
pub minios_print_uint32-read_decimal :
    (W : Writer) (S : Sink W) (value : ℕ) (s : W.State)
    → value < 2 ^ 32
    → (s' : W.State) × (text : List ℕ) × (minios_print_uint32 W value s ≡ (true, s'))
      × (S.output s' ≡ S.output s ++ text)
      × (length text ≤ 10)
      × (read_decimal text ≡ some value)
unfolding minios_print_uint32
minios_print_uint32-read_decimal W S value s h =
    let (s', done, out) = minios_write_all_lem W S (uint32_text value) s in
    (s', uint32_text value, done, out, length-uint32_text value, uint32_text-read_decimal value h)
