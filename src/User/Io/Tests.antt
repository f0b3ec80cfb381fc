-- ===== src/User/Io/Tests.antt =====
-- user/libc/io.c over a writer that accepts at most two bytes at a time.
use mini_orange_os.User.Io.Decimal.{read_decimal, minios_print_uint32-read_decimal}
use mini_orange_os.Prelude.Int.{pos}
use mini_orange_os.User.Io.Sink.{minios_write_all_lem, Sink}
use mini_orange_os.Prelude.{length, ℕ, ◌≤◌, min, ◌≡◌, refl, true, some, List, [], ◌∷◌, ◌++◌, arith}
use mini_orange_os.User.Io.{
  Writer, take, minios_write_all, write_rest, drop, minios_print_uint32, uint32_text, low_digits,
  swap_digits,
}

abbrev two_at_most : Writer
two_at_most = record {
  State = List ℕ;
  write = λ bytes s. (pos (min (length bytes) 2), s ++ take (min (length bytes) 2) bytes);
}

two_at_most-Sink : Sink two_at_most
two_at_most-Sink = record {
  output = λ s. s;
  accepts = λ bytes s some_bytes. (
    min (length bytes) 2,
    s ++ take (min (length bytes) 2) bytes,
    refl,
    omega arith,
    omega arith,
    refl,
  );
}

-- Three bytes take two writes.
three_bytes : minios_write_all two_at_most (some (1 ∷ 2 ∷ 3 ∷ [])) [] ≡ (true, 1 ∷ 2 ∷ 3 ∷ [])
unfolding minios_write_all write_rest take drop
three_bytes = refl

minios_write_all_lem_example :
    (s' : List ℕ) × (minios_write_all two_at_most (some (1 ∷ 2 ∷ 3 ∷ [])) [] ≡ (true, s'))
    × (two_at_most-Sink.output s' ≡ [] ++ (1 ∷ 2 ∷ 3 ∷ []))
unfolding two_at_most-Sink
minios_write_all_lem_example = minios_write_all_lem two_at_most two_at_most-Sink (1 ∷ 2 ∷ 3 ∷ []) []

-- The text of 1203.
text_of_1203 : uint32_text 1203 ≡ 49 ∷ 50 ∷ 48 ∷ 51 ∷ []
unfolding uint32_text low_digits swap_digits
text_of_1203 = refl

minios_print_uint32-read_decimal_example :
    (s' : List ℕ) × (text : List ℕ) × (minios_print_uint32 two_at_most 1203 [] ≡ (true, s'))
    × (two_at_most-Sink.output s' ≡ two_at_most-Sink.output [] ++ text)
    × (length text ≤ 10)
    × (read_decimal text ≡ some 1203)
minios_print_uint32-read_decimal_example =
    minios_print_uint32-read_decimal two_at_most two_at_most-Sink 1203 [] (omega arith)
