-- ===== src/Mm/Usercopy/Copy.antt =====
-- What the copies of kernel/mm/usercopy.c move, whatever frames the pages are mapped to.
use mini_orange_os.Prelude.Int.{ℤ, pos}
use mini_orange_os.Mm.Usercopy.Range.{Accessible, validate_user_range_iff}
use mini_orange_os.Mm.Usercopy.{
  copy_loop, physical, allows, validate_user_range, user_access_write, user_access_read, store_byte,
  copy_from_user, copy_to_user,
}
use native.Mathlib.Decide.{ℕ_discrete}
use mini_orange_os.Prelude.{
  ◌==◌, ==_refl, Bool-cases, length, ℕ, zero, suc, ◌+◌, ◌*◌, ◌/◌, ◌≤◌, ◌<◌, ◌≡◌, refl, sym, ◌∙◌,
  subst, ◌≢◌, inl, inr, true, false, Option, none, some, arith,
}

module _ (frame : ℕ → ℕ) where
  -- No physical byte is behind two of the `count` bytes from `address` on.
  abbrev pub IsDistinct : ℕ → ℕ → Type 0
  IsDistinct address count =
      (j k : ℕ)
      → j < count
      → k < count
      → physical frame (address + j) ≡ physical frame (address + k)
      → j ≡ k

  -- The `count` bytes from `a` on share no physical byte with those from `b` on.
  abbrev pub IsApart : ℕ → ℕ → ℕ → Type 0
  IsApart a b count =
      (j k : ℕ) → j < count → k < count → physical frame (a + j) ≢ physical frame (b + k)

  -- The physical byte `a` is behind none of the `count` bytes from `address` on.
  abbrev pub IsOutside : ℕ → ℕ → ℕ → Type 0
  IsOutside a address count = (k : ℕ) → k < count → a ≢ physical frame (address + k)

  -- A byte that no round writes to stays.
  copy_loop-outside :
      (memory : ℕ → ℕ) (destination source index n a : ℕ)
      → ((k : ℕ) → index ≤ k → k < index + n → a ≢ physical frame (destination + k))
      → copy_loop frame memory destination source index n a ≡ memory a
  unfolding copy_loop
  copy_loop-outside memory destination source index zero a out = refl
  copy_loop-outside memory destination source index (suc n) a out =
      let other : (a == physical frame (destination + index)) ≡ false =
        ground (arith, out index (omega arith) (omega arith)) in
      copy_loop-outside
        (store_byte memory (physical frame (destination + index))
          (memory (physical frame (source + index))))
        destination source (index + 1) n a
        (λ k lo hi. out k (omega (arith, lo)) (omega (arith, hi)))
      ∙ rw other refl

  -- Each byte from `index` on reaches its place.
  copy_loop-inside :
      (memory : ℕ → ℕ) (destination source index n k : ℕ)
      → IsDistinct destination (index + n)
      → IsApart destination source (index + n)
      → index ≤ k
      → k < index + n
      → copy_loop frame memory destination source index n (physical frame (destination + k))
        ≡ memory (physical frame (source + k))
  unfolding copy_loop
  copy_loop-inside memory destination source index zero k distinct apart lo hi =
      absurd (omega (arith, lo, hi))
  copy_loop-inside memory destination source index (suc n) k distinct apart lo hi =
      let write = physical frame (destination + index) in
      let stored = store_byte memory write (memory (physical frame (source + index))) in
      elim (ℕ_discrete index k) [
        | yes here ↦
            subst
              (λ j.
                copy_loop frame stored destination source (index + 1) n
                  (physical frame (destination + j))
                ≡ memory (physical frame (source + j)))
              here
              (copy_loop-outside stored destination source (index + 1) n write (λ j lo' hi' e.
                  omega (arith, lo', distinct index j (omega arith) (omega (arith, hi')) e))
                ∙ rw (==_refl write) refl)
        | no later ↦
            (let kept : (physical frame (source + k) == write) ≡ false =
                ground (arith, apart index k (omega arith) hi) in
              copy_loop-inside stored destination source (index + 1) n k
                (λ i j hi' hj. distinct i j (omega (arith, hi')) (omega (arith, hj)))
                (λ i j hi' hj. apart i j (omega (arith, hi')) (omega (arith, hj)))
                (omega (arith, lo, later)) (omega (arith, hi))
              ∙ rw kept refl)
      ]

  -- What one copy of `count` bytes has done to memory.
  pub record Copied (destination source count : ℕ) (before after : ℕ → ℕ) : Type 0 where
    pub moved :
        (k : ℕ)
        → k < count
        → after (physical frame (destination + k)) ≡ before (physical frame (source + k))
    pub rest : (a : ℕ) → IsOutside a destination count → after a ≡ before a

  copy_loop-Copied :
      (memory : ℕ → ℕ) (destination source count : ℕ)
      → IsDistinct destination count
      → IsApart destination source count
      → Copied destination source count memory (copy_loop frame memory destination source 0 count)
  copy_loop-Copied memory destination source count distinct apart = record {
    moved = λ k h.
        copy_loop-inside memory destination source 0 count k
          (λ i j hi hj. distinct i j (omega (arith, hi)) (omega (arith, hj)))
          (λ i j hi hj. apart i j (omega (arith, hi)) (omega (arith, hj))) (omega arith)
          (omega (arith, h));
    rest = λ a out.
        copy_loop-outside memory destination source 0 count a
          (λ k lo hi. out k (omega (arith, hi)));
  }

  -- A copy of nothing.
  none-Copied :
      (memory : ℕ → ℕ) (destination source count : ℕ)
      → (count == 0) ≡ true
      → Copied destination source count memory memory
  none-Copied memory destination source count empty = record {
    moved = λ k h. absurd (ground (arith, empty, h));
    rest = λ a out. refl;
  }

allows-weaken :
    (found : Option ℕ)
    → allows user_access_write found ≡ true
    → allows user_access_read found ≡ true
unfolding allows
allows-weaken none ok = ok
allows-weaken (some flags) ok = ground (arith, ok)

-- A range that validate_user_range accepts for writing it accepts for reading.
pub validate_user_range-weaken :
    (query : ℕ → Option ℕ) (start length : ℕ)
    → validate_user_range query start length user_access_write ≡ true
    → validate_user_range query start length user_access_read ≡ true
unfolding Accessible
validate_user_range-weaken query start length ok =
    let (sound, complete) = validate_user_range_iff query start length user_access_write in
    let (sound', complete') = validate_user_range_iff query start length user_access_read in
    elim (sound ok) [
      | inl empty ↦ complete' (inl empty)
      | inr (fits, all) ↦
          complete' (inr (fits, λ a lo hi. allows-weaken (query (a / 4096 * 4096)) (all a lo hi)))
    ]

module _ (query : ℕ → Option ℕ) (frame : ℕ → ℕ) where
  -- A copy that succeeds has copied.
  abbrev Succeeds : ℕ → ℕ → ℕ → (ℕ → ℕ) → ℤ × (ℕ → ℕ) → Type 0
  Succeeds destination source count memory result =
      (result.0 ≡ pos 0) × Copied frame destination source count memory result.1

  copy_to_user-Copied :
      (memory : ℕ → ℕ) (destination source count : ℕ)
      → validate_user_range query destination count user_access_write ≡ true
      → source ≢ 0
      → IsDistinct frame destination count
      → IsApart frame destination source count
      → Succeeds destination source count memory
          (copy_to_user query frame memory destination source count)
  unfolding copy_to_user
  copy_to_user-Copied memory destination source count valid named distinct apart =
      let not_null : (source == 0) ≡ false = ground (arith, named) in
      elim (Bool-cases (count == 0)) [
        | inl empty ↦ rw empty (refl, none-Copied frame memory destination source count empty)
        | inr some_bytes ↦
            rw (some_bytes, not_null, valid)
              (refl, copy_loop-Copied frame memory destination source count distinct apart)
      ]

  copy_from_user-Copied :
      (memory : ℕ → ℕ) (destination source count : ℕ)
      → validate_user_range query source count user_access_read ≡ true
      → destination ≢ 0
      → IsDistinct frame destination count
      → IsApart frame destination source count
      → Succeeds destination source count memory
          (copy_from_user query frame memory destination source count)
  unfolding copy_from_user
  copy_from_user-Copied memory destination source count valid named distinct apart =
      let not_null : (destination == 0) ≡ false = ground (arith, named) in
      elim (Bool-cases (count == 0)) [
        | inl empty ↦ rw empty (refl, none-Copied frame memory destination source count empty)
        | inr some_bytes ↦
            rw (some_bytes, not_null, valid)
              (refl, copy_loop-Copied frame memory destination source count distinct apart)
      ]

  -- copy_to_user of `count` bytes from a kernel buffer to a range that the user may write, then
  -- copy_from_user of that range to a kernel buffer, neither buffer being NULL. The page tables may
  -- map any page to any frame, as long as no physical byte is behind two bytes of the range or two of
  -- the second buffer, and none of the range is one of either buffer. Then both calls succeed, the
  -- second buffer and the range hold the bytes that the first buffer held, and every physical byte
  -- outside the range and the second buffer is as it was.
  pub copy_from_user-copy_to_user :
      (memory : ℕ → ℕ) (user source result count : ℕ)
      → validate_user_range query user count user_access_write ≡ true
      → source ≢ 0
      → result ≢ 0
      → IsDistinct frame user count
      → IsDistinct frame result count
      → IsApart frame user source count
      → IsApart frame result user count
      → (sent : ℕ → ℕ) × (received : ℕ → ℕ) × (copy_to_user query frame memory user source count
          ≡ (pos 0, sent))
        × (copy_from_user query frame sent result user count ≡ (pos 0, received))
        × ((k : ℕ)
            → k < count
            → (received (physical frame (result + k)) ≡ memory (physical frame (source + k)))
              × (received (physical frame (user + k)) ≡ memory (physical frame (source + k))))
        × ((a : ℕ)
            → IsOutside frame a user count
            → IsOutside frame a result count
            → received a ≡ memory a)
  copy_from_user-copy_to_user memory user source result count valid named named' du dr us ru =
      let there = copy_to_user-Copied memory user source count valid named du us in
      let sent = (copy_to_user query frame memory user source count).1 in
      let readable = validate_user_range-weaken query user count valid in
      let back = copy_from_user-Copied sent result user count readable named' dr ru in
      (
        sent,
        (copy_from_user query frame sent result user count).1,
        (λ i. (there.0 i, sent)),
        (λ i. (back.0 i, (copy_from_user query frame sent result user count).1)),
        λ k h. (
          back.1.moved k h ∙ there.1.moved k h,
          back.1.rest (physical frame (user + k)) (λ j hj e. ru j k hj h (sym e))
              ∙ there.1.moved k h,
        ),
        λ a out out'. back.1.rest a out' ∙ there.1.rest a out,
      )
