-- ===== src/Mm/Usercopy/Range.antt =====
-- Which ranges validate_user_range of kernel/mm/usercopy.c accepts.
use mini_orange_os.Prelude.{
  ltb, leb, ◌==◌, Bool-cases, trichotomy, length, add32, ℕ, zero, suc, ◌+◌, ◌-◌, ◌*◌, ◌/◌, ◌≤◌, ◌<◌,
  ◌≡◌, refl, subst, ◌↔◌, ◌⊎◌, inl, inr, true, false, Option, arith,
}
use mini_orange_os.Mm.Usercopy.{
  UserAccess, page_allows, check_pages, page_rounds, kernel_base, validate_user_range,
}

check_pages_sound :
    (query : ℕ → Option ℕ) (access : UserAccess) (rounds p l : ℕ)
    → l < 0xC0000
    → p ≤ l
    → check_pages query access rounds (p * 4096) (l * 4096) ≡ true
    → (i : ℕ) → p ≤ i
    → i ≤ l
    → page_allows query access (i * 4096) ≡ true
unfolding check_pages
check_pages_sound query access zero p l lb le ok i lo hi = ground arith
check_pages_sound query access (suc rounds) p l lb le ok i lo hi =
    let next : add32 (p * 4096) 4096 ≡ (p + 1) * 4096 = omega arith in
    elim (trichotomy p i) [
      | inl less ↦
          (let on : check_pages query access rounds (add32 (p * 4096) 4096) (l * 4096) ≡ true =
              ground (arith, ok, less, hi) in
            check_pages_sound query access rounds (p + 1) l lb (omega arith)
              (subst (λ q. check_pages query access rounds q (l * 4096) ≡ true) next on) i
              (omega arith) hi)
      | inr (inl more) ↦ absurd (omega arith)
      | inr (inr same) ↦ subst (λ x. page_allows query access (x * 4096) ≡ true) same (ground arith)
    ]

check_pages_complete :
    (query : ℕ → Option ℕ) (access : UserAccess) (rounds p l : ℕ)
    → l < 0xC0000
    → p ≤ l
    → l < p + rounds
    → ((i : ℕ) → p ≤ i → i ≤ l → page_allows query access (i * 4096) ≡ true)
    → check_pages query access rounds (p * 4096) (l * 4096) ≡ true
unfolding check_pages
check_pages_complete query access zero p l lb le fuel all = absurd (omega arith)
check_pages_complete query access (suc rounds) p l lb le fuel all =
    let next : add32 (p * 4096) 4096 ≡ (p + 1) * 4096 = omega arith in
    let here = all p (omega arith) le in
    elim (trichotomy p l) [
      | inl less ↦
          (let rest =
              check_pages_complete query access rounds (p + 1) l lb (omega arith) (omega arith)
                (λ i lo hi. all i (omega arith) hi) in
            let ne : (p * 4096 == l * 4096) ≡ false = ground arith in rw (here, ne, next) rest)
      | inr (inl more) ↦ absurd (omega arith)
      | inr (inr same) ↦
          (let eq : (p * 4096 == l * 4096) ≡ true = ground arith in rw (here, eq) refl)
    ]

-- Every page of the range is mapped with the access.
unfoldable pub Accessible : (ℕ → Option ℕ) → ℕ → ℕ → UserAccess → Type 0
Accessible query start length access =
    (a : ℕ) → start ≤ a → a < start + length → page_allows query access (a / 4096 * 4096) ≡ true

page_of :
    (query : ℕ → Option ℕ) (start length : ℕ) (access : UserAccess)
    → 0 < length
    → Accessible query start length access
    → (i : ℕ) → start / 4096 ≤ i
    → i ≤ (start + length - 1) / 4096
    → page_allows query access (i * 4096) ≡ true
unfolding Accessible
page_of query start length access here all i lo hi = elim (trichotomy start (i * 4096)) [
  | inl less ↦
      (let e : i * 4096 / 4096 * 4096 ≡ i * 4096 = omega arith in
        subst (λ x. page_allows query access x ≡ true) e
          (all (i * 4096) (omega arith) (omega arith)))
  | inr rest ↦
      (let e : start / 4096 * 4096 ≡ i * 4096 = omega (arith, rest, lo) in
        subst (λ x. page_allows query access x ≡ true) e (all start (omega arith) (omega arith)))
]

-- validate_user_range accepts exactly the empty ranges and the ranges that end at or below kernel_base
-- with every byte on a page the user may access in that way; its page loop needs at most 0xC0000 rounds.
pub validate_user_range_iff :
    (query : ℕ → Option ℕ) (start length : ℕ) (access : UserAccess)
    → (validate_user_range query start length access ≡ true)
      ↔ ((length ≡ 0) ⊎ ((start + length ≤ kernel_base) × Accessible query start length access))
unfolding validate_user_range Accessible
validate_user_range_iff query start length access = (only_if, if_part)
  where
    only_if :
        validate_user_range query start length access ≡ true
        → (length ≡ 0) ⊎ ((start + length ≤ kernel_base) × Accessible query start length access)
    only_if ok = elim (Bool-cases (length == 0)) [
      | inl empty ↦ inl (ground (arith, empty))
      | inr some_bytes ↦
          (let fits : start + length ≤ kernel_base = ground (arith, ok, some_bytes) in
            let pages : check_pages query access page_rounds (start / 4096 * 4096)
                  ((start + length - 1) / 4096 * 4096)
                ≡ true =
              ground (arith, ok, some_bytes) in
            let here : 0 < length = ground (arith, some_bytes) in
            inr (
              fits,
              λ a lo hi.
                  check_pages_sound query access page_rounds (start / 4096)
                    ((start + length - 1) / 4096) (omega arith) (omega arith) pages (a / 4096)
                    (omega arith) (omega arith),
            ))
    ]

    fitting :
        start + length ≤ kernel_base
        → Accessible query start length access
        → validate_user_range query start length access ≡ true
    fitting fits all = elim (Bool-cases (length == 0)) [
      | inl empty ↦ rw empty refl
      | inr some_bytes ↦
          (let here : 0 < length = ground (arith, some_bytes) in
            let low : leb kernel_base start ≡ false = ground (arith, here, fits) in
            let room : ltb (kernel_base - start) length ≡ false = ground (arith, here, fits) in
            rw (some_bytes, low, room)
              (check_pages_complete query access page_rounds (start / 4096)
                ((start + length - 1) / 4096) (omega arith) (omega arith) (omega arith)
                (page_of query start length access here all)))
    ]

    if_part :
        (length ≡ 0) ⊎ ((start + length ≤ kernel_base) × Accessible query start length access)
        → validate_user_range query start length access ≡ true
    if_part (inl empty) = ground (arith, empty)
    if_part (inr (fits, all)) = fitting fits all
