-- ===== src/Prelude/Search.antt =====
-- The loop `for (i = first; i < first + rounds; ++i) if (test(i)) return i;`.
use mini_orange_os.Prelude.{
  ℕ, zero, suc, ◌+◌, ◌≤◌, ◌<◌, ◌≡◌, Bool, true, false, Option, none, some, if◌then◌else◌, arith,
  Bool-cases, ==_iff, ◌==◌, inl, inr, refl,
}

unfoldable pub find_from : (ℕ → Bool) → ℕ → ℕ → Option ℕ
find_from test zero i = none
find_from test (suc rounds) i =
    let rest = find_from test rounds (i + 1) in if test i then some i else rest

-- What is found passes the test, lies in the range, and nothing before it passes.
pub record FoundAt (test : ℕ → Bool) (rounds first i : ℕ) : Type 0 where
  pub lower : first ≤ i
  pub upper : i < first + rounds
  pub passes : test i ≡ true
  pub least : (j : ℕ) → first ≤ j → j < i → test j ≡ false

pub find_from-some :
    (test : ℕ → Bool) (rounds first i : ℕ)
    → find_from test rounds first ≡ some i
    → FoundAt test rounds first i
unfolding find_from
find_from-some test zero first i e = absurd (ground arith)
find_from-some test (suc n) first i e = elim (Bool-cases (test first)) [
  | inl y ↦
      let e' : first ≡ i = ground arith in
      record {
        lower = omega arith;
        upper = omega arith;
        passes = rw (← e') y;
        least = λ j lo hi. absurd (omega arith);
      }
  | inr x ↦
      let ih = find_from-some test n (first + 1) i (ground arith) in
      record {
        lower = omega (arith, ih.lower);
        upper = omega (arith, ih.upper);
        passes = ih.passes;
        least = λ j lo hi. elim (Bool-cases (first == j)) [
          | inl e' ↦ rw (← (==_iff first j).0 e') x
          | inr ne ↦ ih.least j (ground arith) hi
        ];
      }
]

pub find_from-none :
    (test : ℕ → Bool) (rounds first : ℕ)
    → find_from test rounds first ≡ none
    → (j : ℕ) → first ≤ j
    → j < first + rounds
    → test j ≡ false
unfolding find_from
find_from-none test zero first e j lo hi = absurd (omega arith)
find_from-none test (suc n) first e j lo hi = elim (Bool-cases (test first)) [
  | inl y ↦ absurd (ground arith)
  | inr x ↦ elim (Bool-cases (first == j)) [
    | inl e' ↦ rw (← (==_iff first j).0 e') x
    | inr ne ↦ find_from-none test n (first + 1) (ground arith) j (ground arith) (omega arith)
  ]
]

-- A number that passes is found or something before it is.
pub find_from-finds :
    (test : ℕ → Bool) (rounds first j : ℕ)
    → first ≤ j
    → j < first + rounds
    → test j ≡ true
    → (i : ℕ) × (find_from test rounds first ≡ some i) × (i ≤ j)
unfolding find_from
find_from-finds test zero first j lo hi p = absurd (omega arith)
find_from-finds test (suc n) first j lo hi p = elim (Bool-cases (test first)) [
  | inl y ↦ (first, rw (y, find_from) refl, lo)
  | inr x ↦ elim (Bool-cases (first == j)) [
    | inl e' ↦ absurd (ground (arith, (==_iff first j).0 e'))
    | inr ne ↦
        let r = find_from-finds test n (first + 1) j (ground arith) (omega arith) p in
        (r.0, rw (x, find_from) r.1, r.2)
  ]
]
