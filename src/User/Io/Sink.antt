-- ===== src/User/Io/Sink.antt =====
-- minios_write_all over a writer that makes progress: partial writes lose and repeat nothing.
use mathlib.Core.List.{append-nil, append_assoc}
use mini_orange_os.Prelude.{
  ◌==◌, length, ℕ, zero, suc, ◌+◌, ◌≤◌, ◌<◌, min, ◌≡◌, refl, sym, ◌∙◌, true, false, some, List, [],
  ◌∷◌, ◌++◌, arith,
}
use mini_orange_os.Prelude.Int.{pos}
use mini_orange_os.User.Io.{Writer, take, drop, write_rest, minios_write_all}

-- A writer whose write of at least one byte accepts a beginning of the bytes, not empty, in order.
pub record Sink (W : Writer) : Type 0 where
  pub output : W.State → List ℕ
  pub accepts :
      (bytes : List ℕ) (s : W.State)
      → 0 < length bytes
      → (n : ℕ) × (s' : W.State) × (W.write bytes s ≡ (pos n, s'))
        × (0 < n)
        × (n ≤ length bytes)
        × (output s' ≡ output s ++ take n bytes)

length-take : (n : ℕ) (xs : List ℕ) → n ≤ length xs → length (take n xs) ≡ n
unfolding take
length-take zero xs h = refl
length-take (suc n) [] h = absurd (omega arith)
length-take (suc n) (x ∷ xs) h = omega (arith, length-take n xs (omega arith))

length-drop : (n : ℕ) (xs : List ℕ) → n ≤ length xs → length (drop n xs) + n ≡ length xs
unfolding drop
length-drop zero xs h = omega arith
length-drop (suc n) [] h = absurd (omega arith)
length-drop (suc n) (x ∷ xs) h = omega (arith, length-drop n xs (omega arith))

take-take : (n m : ℕ) (xs : List ℕ) → n ≤ m → take n (take m xs) ≡ take n xs
unfolding take
take-take zero m xs h = refl
take-take (suc n) zero xs h = absurd (omega arith)
take-take (suc n) (suc m) [] h = refl
take-take (suc n) (suc m) (x ∷ xs) h = λ j. x ∷ take-take n m xs (omega arith) j

take-drop : (n : ℕ) (xs : List ℕ) → take n xs ++ drop n xs ≡ xs
unfolding take drop
take-drop zero xs = refl
take-drop (suc n) [] = refl
take-drop (suc n) (x ∷ xs) = λ j. x ∷ take-drop n xs j

module _ (W : Writer) (S : Sink W) where
  write_rest_lem :
      (rounds : ℕ) (bytes : List ℕ) (s : W.State)
      → length bytes ≤ rounds
      → (s' : W.State) × (write_rest W rounds bytes s ≡ (true, s'))
        × (S.output s' ≡ S.output s ++ bytes)
  unfolding write_rest
  write_rest_lem zero [] s h = (s, refl, sym (append-nil (S.output s)))
  write_rest_lem zero (b ∷ bytes) s h = absurd (omega arith)
  write_rest_lem (suc rounds) [] s h = (s, refl, sym (append-nil (S.output s)))
  write_rest_lem (suc rounds) (b ∷ bytes) s h =
      let chunk = min (length (b ∷ bytes)) 4096 in
      let size : length (take chunk (b ∷ bytes)) ≡ chunk =
        length-take chunk (b ∷ bytes) (omega arith) in
      let (n, s1, wrote, more, le, out) =
        S.accepts (take chunk (b ∷ bytes)) s (omega (arith, size)) in
      let within : n ≤ chunk = omega (arith, le, size) in
      let left = length-drop n (b ∷ bytes) (omega (arith, within)) in
      let (s', done, all) =
        write_rest_lem rounds (drop n (b ∷ bytes)) s1 (omega (arith, left, more, h)) in
      let nonzero : (n == 0) ≡ false = ground (arith, more) in
      (
        s',
        rw wrote (rw nonzero done),
        all
            ∙ (λ j.
                (out ∙ (λ i. S.output s ++ take-take n chunk (b ∷ bytes) within i)) j
                ++ drop n (b ∷ bytes))
            ∙ append_assoc (S.output s) (take n (b ∷ bytes)) (drop n (b ∷ bytes))
            ∙ (λ j. S.output s ++ take-drop n (b ∷ bytes) j),
      )

  -- Over a writer that accepts a beginning of what it is given, of one byte or more, minios_write_all
  -- returns true after at most as many writes as there are bytes, and what has been written is what was
  -- there before and then exactly the bytes of the buffer.
  pub minios_write_all_lem :
      (bytes : List ℕ) (s : W.State)
      → (s' : W.State) × (minios_write_all W (some bytes) s ≡ (true, s'))
        × (S.output s' ≡ S.output s ++ bytes)
  unfolding minios_write_all
  minios_write_all_lem bytes s = write_rest_lem (length bytes) bytes s (omega arith)
