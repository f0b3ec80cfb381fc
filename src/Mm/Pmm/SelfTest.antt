-- ===== src/Mm/Pmm/SelfTest.antt =====
-- pmm_self_test: two pages are taken, the first is given back and taken again, and both are freed.
use mini_orange_os.Prelude.{
  trichotomy, ℕ, ◌*◌, ◌≤◌, ◌<◌, ◌≡◌, refl, subst, ◌≢◌, inl, inr, Bool, true, false, arith,
}
use mini_orange_os.Mm.Bitmap.Laws.{bitmap_get-set}
use mini_orange_os.Mm.Pmm.{Pmm, page_free, alloc, free, self_test}
use mini_orange_os.Mm.Pmm.Invariant.{Inv, card_zero}
use mini_orange_os.Mm.Pmm.Alloc.{
  Allocated, take_page, give_page, Taken, alloc-cases, take_page-Inv, give_page-Inv, card-take,
  page_free-take, page_free-give, free-Taken, page_free-give_self,
}
use mini_orange_os.Mm.Pmm.Laws.{take-Taken, free-take}

-- The steps of the test, one equation for each call.
self_test_steps :
    (p p1 p2 p3 p4 p5 p6 : Pmm) (a b : ℕ)
    → alloc p ≡ (a * 4096, p1)
    → alloc p1 ≡ (b * 4096, p2)
    → free (a * 4096) p2 ≡ (true, p3)
    → alloc p3 ≡ (a * 4096, p4)
    → free (a * 4096) p4 ≡ (true, p5)
    → free (b * 4096) p5 ≡ (true, p6)
    → 256 ≤ a
    → 256 ≤ b
    → a ≢ b
    → p6.free_pages ≡ p.free_pages
    → self_test p ≡ (true, p6)
unfolding self_test
self_test_steps p p1 p2 p3 p4 p5 p6 a b e1 e2 e3 e4 e5 e6 ha hb ne same =
    rw (self_test, e1, e2, e3, e4, e5, e6, same) (ground arith)

-- The first free page is the one that pmm_alloc takes.
alloc-first :
    (p : Pmm)
    → Inv p
    → (page : ℕ) → page < p.total_pages
    → page_free p page ≡ true
    → ((q : ℕ) → q < page → page_free p q ≡ false)
    → Allocated p page
alloc-first p v page below f least = elim (alloc-cases p v) [
  | inl (e, none_free) ↦ absurd (clash f (none_free page below))
  | inr (page', a) ↦ subst (Allocated p) (same page' a) a
]
  where
    clash : {b : Bool} → b ≡ true → b ≡ false → ⊥
    clash x y = cc

    same : (page' : ℕ) → Allocated p page' → page' ≡ page
    same page' a = elim (trichotomy page' page) [
      | inl lt ↦ absurd (clash a.was_free (least page' lt))
      | inr (inl gt) ↦ absurd (clash f (a.first page gt))
      | inr (inr e) ↦ e
    ]

alloc-some : (p : Pmm) → Inv p → 1 ≤ p.free_pages → (page : ℕ) × Allocated p page
alloc-some p v h = elim (alloc-cases p v) [
  | inl (e, none_free) ↦ absurd (
      omega (
        arith,
        v.free_eq,
        card_zero (page_free p) p.total_pages 0 (λ q _ lt. none_free q (omega (arith, lt))),
      ))
  | inr found ↦ found
]

-- The states of the test: `a` and `b` taken, `a` given back, taken and given back again, and `b`
-- given back.
module _ (p : Pmm) (v : Inv p) (a b : ℕ) (first : Allocated p a)
    (second : Allocated (take_page p a) b) where
  abbrev p1 : Pmm
  p1 = take_page p a

  abbrev p2 : Pmm
  p2 = take_page p1 b

  abbrev p3 : Pmm
  p3 = give_page p2 a

  abbrev p6 : Pmm
  p6 = give_page p3 b

  v1 : Inv p1
  v1 = take_page-Inv p v a first

  v2 : Inv p2
  v2 = take_page-Inv p1 v1 b second

  b_ne_a : a ≢ b
  b_ne_a e = ground (arith, page_free-take p v a b first.below, second.was_free)

  a_Taken : Taken p2 a
  a_Taken =
      let t = take-Taken p v a first in
      record {
        below = t.below;
        managed = t.managed;
        in_use =
            rw
              (bitmap_get-set p1.used_bitmap b a true v1.used_bytes
                (omega (arith, second.below, v1.used_covers)))
              (ground (arith, t.in_use));
      }

  v3 : Inv p3
  v3 = give_page-Inv p2 v2 a a_Taken

  -- Below `a` nothing is free, so the third allocation takes `a` again.
  a_again : Allocated p3 a
  a_again = alloc-first p3 v3 a a_Taken.below (page_free-give_self p2 v2 a a_Taken) (λ q h. ground (
    arith,
    first.first q,
    page_free-take p v a q first.below,
    page_free-take p1 v1 b q second.below,
    page_free-give p2 v2 a q a_Taken,
  ))

  b_Taken : Taken p3 b
  b_Taken =
      let t = take-Taken p1 v1 b second in
      record {
        below = t.below;
        managed = t.managed;
        in_use =
            rw
              (bitmap_get-set p2.used_bitmap a b false v2.used_bytes
                (omega (arith, a_Taken.below, v2.used_covers)))
              (ground (arith, t.in_use, b_ne_a));
      }

  count_restored : p6.free_pages ≡ p.free_pages
  count_restored = omega (
    arith,
    v.free_eq,
    v1.free_eq,
    card-take p v a first.below first.was_free,
    card-take p1 v1 b second.below second.was_free,
  )

  steps : self_test p ≡ (true, p6)
  steps =
      self_test_steps p p1 p2 p3 (take_page p3 a) p3 p6 a b first.result second.result
        (free-Taken p2 v2 a a_Taken) a_again.result (free-take p3 v3 a a_again)
        (free-Taken p3 v3 b b_Taken) first.above_low second.above_low b_ne_a count_restored

  pages_restored : (q : ℕ) → page_free p6 q ≡ page_free p q
  pages_restored q = ground (
    arith,
    page_free-take p v a q first.below,
    page_free-take p1 v1 b q second.below,
    page_free-give p2 v2 a q a_Taken,
    page_free-give p3 v3 b q b_Taken,
    page_free-give_self p3 v3 b b_Taken,
    page_free-give_self p2 v2 a a_Taken,
    page_free-give p3 v3 b a b_Taken,
    first.was_free,
    second.was_free,
    b_ne_a,
    page_free-take p v a b first.below,
  )

-- On a state that satisfies the invariant and has two free pages or more pmm_self_test returns true,
-- and the same pages are free afterwards.
pub self_test-passes :
    (p : Pmm)
    → Inv p
    → 2 ≤ p.free_pages
    → ((self_test p).0 ≡ true)
      × ((self_test p).1.free_pages ≡ p.free_pages)
      × ((q : ℕ) → page_free (self_test p).1 q ≡ page_free p q)
self_test-passes p v two =
    let (a, first) = alloc-some p v (omega arith) in
    let (b, second) = alloc-some (take_page p a) (take_page-Inv p v a first) (omega arith) in
    rw (steps p v a b first second)
      (refl, count_restored p v a b first second, pages_restored p v a b first second)
