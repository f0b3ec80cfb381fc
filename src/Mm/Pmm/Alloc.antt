-- ===== src/Mm/Pmm/Alloc.antt =====
-- pmm_alloc and pmm_free: what they return, what they change, and that they keep the invariant.
use mini_orange_os.Prelude.{
  leb, ◌==◌, if◌then◌else◌, ==_iff, Bool-cases, Option-cases, ℕ, zero, suc, ◌+◌, ◌-◌, ◌*◌, ◌/◌, ◌%◌,
  ◌≤◌, ◌<◌, ◌≡◌, refl, ◌∙◌, ◌↔◌, ◌⊎◌, inl, inr, true, false, none, some, arith,
}
use mini_orange_os.Mm.Bitmap.{bitmap_get, bitmap_set}
use mini_orange_os.Mm.Bitmap.Laws.{bitmap_get-set, length-bitmap_set, bitmap_set-Bytes}
use mini_orange_os.Mm.Pmm.{Pmm, page_free, find_free, alloc, free}
use mini_orange_os.Mm.Pmm.Invariant.{Inv, card, card-le, card_clear, card_zero}

-- What the search finds is the first free page of its range.
pub find_free-some :
    (p : Pmm) (n i page : ℕ)
    → find_free p n i ≡ some page
    → (i ≤ page)
      × (page < i + n)
      × (page_free p page ≡ true)
      × ((q : ℕ) → i ≤ q → q < page → page_free p q ≡ false)
unfolding find_free
find_free-some p zero i page e = absurd (ground arith)
find_free-some p (suc n) i page e = elim (Bool-cases (page_free p i)) [
  | inl y ↦
      let e' : i ≡ page = ground arith in
      (omega arith, omega arith, rw (← e') y, λ q lo hi. absurd (omega arith))
  | inr x ↦
      let ih = find_free-some p n (i + 1) page (ground arith) in
      (
        omega arith,
        omega arith,
        ih.2,
        λ q lo hi. elim (Bool-cases (i == q)) [
          | inl e' ↦ rw (← (==_iff i q).0 e') x
          | inr ne ↦ ih.3 q (ground arith) hi
        ],
      )
]

pub find_free-none :
    (p : Pmm) (n i : ℕ)
    → find_free p n i ≡ none
    → (q : ℕ) → i ≤ q
    → q < i + n
    → page_free p q ≡ false
unfolding find_free
find_free-none p zero i e q lo hi = absurd (omega arith)
find_free-none p (suc n) i e q lo hi = elim (Bool-cases (page_free p i)) [
  | inl y ↦ absurd (ground arith)
  | inr x ↦ elim (Bool-cases (i == q)) [
    | inl e' ↦ rw (← (==_iff i q).0 e') x
    | inr ne ↦ find_free-none p n (i + 1) (ground arith) q (ground arith) (omega arith)
  ]
]

-- What an allocation of `page` returns, and what it leaves.
abbrev pub take_page : Pmm → ℕ → Pmm
take_page p page = record p {
  used_bitmap = bitmap_set p.used_bitmap page true;
  free_pages = p.free_pages - 1;
}

pub record Allocated (p : Pmm) (page : ℕ) : Type 0 where
  pub below : page < p.total_pages
  pub above_low : 256 ≤ page
  pub was_free : page_free p page ≡ true
  pub first : (q : ℕ) → q < page → page_free p q ≡ false
  pub result : alloc p ≡ (page * 4096, take_page p page)

module _ (p : Pmm) (v : Inv p) where
  -- The page test after `used_bitmap` is written.
  pub page_free-take :
      (page q : ℕ)
      → page < p.total_pages
      → page_free (take_page p page) q ≡ (if page == q then false else page_free p q)
  page_free-take page q h =
      rw (bitmap_get-set p.used_bitmap page q true v.used_bytes (omega arith)) (ground arith)

  pub card-take :
      (page : ℕ)
      → page < p.total_pages
      → page_free p page ≡ true
      → card (page_free (take_page p page)) p.total_pages 0 + 1 ≡ card (page_free p) p.total_pages 0
  card-take page h f =
      card_clear (page_free p) (page_free (take_page p page)) page p.total_pages 0 f
        (λ q. page_free-take page q h) (omega arith) (omega arith)

  not_low : (page : ℕ) → page_free p page ≡ true → 256 ≤ page
  not_low page f = ground (arith, v.low page)

  alloc-Allocated : (page : ℕ) → find_free p p.total_pages 0 ≡ some page → Allocated p page
  unfolding alloc
  alloc-Allocated page e =
      let s = find_free-some p p.total_pages 0 page e in
      let below : page < p.total_pages = omega (arith, s.1) in
      let c = card-take page below s.2 in
      record {
        below = below;
        above_low = not_low page s.2;
        was_free = s.2;
        first = λ q h. s.3 q (omega arith) h;
        result =
            rw (e, alloc) (ground (arith, v.free_eq, c, card-le (page_free p) p.total_pages 0));
      }

  -- On a valid state pmm_alloc either finds no free page, returns 0 and changes nothing, or
  -- takes the first free page.
  pub alloc-cases :
      ((alloc p ≡ (0, p)) × ((q : ℕ) → q < p.total_pages → page_free p q ≡ false))
      ⊎ ((page : ℕ) × Allocated p page)
  unfolding alloc
  alloc-cases = elim (Option-cases (find_free p p.total_pages 0)) [
    | inl e ↦ inl (
      rw (e, alloc) refl,
      λ q h. find_free-none p p.total_pages 0 e q (omega arith) (omega arith),
    )
    | inr (page, e) ↦ inr (page, alloc-Allocated page e)
  ]

  pub take_page-Inv : (page : ℕ) → Allocated p page → Inv (take_page p page)
  take_page-Inv page a = record {
    used_bytes = bitmap_set-Bytes p.used_bitmap page true v.used_bytes;
    allocatable_bytes = v.allocatable_bytes;
    used_covers = rw (length-bitmap_set p.used_bitmap page true) v.used_covers;
    allocatable_covers = v.allocatable_covers;
    total_le = v.total_le;
    free_eq = omega (arith, v.free_eq, card-take page a.below a.was_free);
    reserved_eq = v.reserved_eq;
    low = v.low;
  }

  -- pmm_alloc on a state that satisfies the invariant leaves one that does.
  pub alloc-Inv : Inv (alloc p).1
  alloc-Inv = elim alloc-cases [
    | inl (e, none_free) ↦ rw e v
    | inr (page, a) ↦ rw a.result (take_page-Inv page a)
  ]

  -- On a state that satisfies the invariant pmm_alloc returns 0 exactly when the counter of free pages
  -- is at 0.
  pub alloc-eq-zero_iff : ((alloc p).0 ≡ 0) ↔ (p.free_pages ≡ 0)
  alloc-eq-zero_iff = elim alloc-cases [
    | inl (e, none_free) ↦ (
      λ _.
          v.free_eq
          ∙ card_zero (page_free p) p.total_pages 0 (λ q _ h. none_free q (omega (arith, h))),
      λ _. rw e refl,
    )
    | inr (page, a) ↦ (
      λ z. absurd (omega (arith, a.above_low, nonzero page a z)),
      λ z. absurd (omega (arith, v.free_eq, card-take page a.below a.was_free)),
    )
  ]
    where
      nonzero : (page : ℕ) → Allocated p page → (alloc p).0 ≡ 0 → page * 4096 ≡ 0
      nonzero page a z = rw a.result at z

-- What a release of `page` leaves.
abbrev pub give_page : Pmm → ℕ → Pmm
give_page p page = record p {
  used_bitmap = bitmap_set p.used_bitmap page false;
  free_pages = p.free_pages + 1;
}

-- The pages that pmm_free accepts.
pub record Taken (p : Pmm) (page : ℕ) : Type 0 where
  pub below : page < p.total_pages
  pub managed : bitmap_get p.allocatable_bitmap page ≡ true
  pub in_use : bitmap_get p.used_bitmap page ≡ true

module _ (p : Pmm) (v : Inv p) where
  pub page_free-give :
      (page q : ℕ)
      → Taken p page
      → page_free p q ≡ (if page == q then false else page_free (give_page p page) q)
  page_free-give page q t =
      rw
        (bitmap_get-set p.used_bitmap page q false v.used_bytes
          (omega (arith, t.below, v.used_covers)))
        (elim (Bool-cases (page == q)) [
          | inl e ↦ rw (e, ← (==_iff page q).0 e, t.in_use) (ground (arith, t.managed))
          | inr ne ↦ rw ne refl
        ])

  pub page_free-give_self : (page : ℕ) → Taken p page → page_free (give_page p page) page ≡ true
  page_free-give_self page t =
      rw
        (
          bitmap_get-set p.used_bitmap page page false v.used_bytes (omega (arith, t.below)),
          t.managed,
        )
        (ground arith)

  pub card-give :
      (page : ℕ)
      → Taken p page
      → card (page_free p) p.total_pages 0 + 1 ≡ card (page_free (give_page p page)) p.total_pages 0
  card-give page t =
      card_clear (page_free (give_page p page)) (page_free p) page p.total_pages 0
        (page_free-give_self page t) (λ q. page_free-give page q t) (omega arith)
        (omega (arith, t.below))

  -- pmm_free of a page that is managed and in use.
  pub free-Taken : (page : ℕ) → Taken p page → free (page * 4096) p ≡ (true, give_page p page)
  unfolding free
  free-Taken page t =
      let e : page * 4096 / 4096 ≡ page = omega arith in
      let z : page * 4096 % 4096 ≡ 0 = omega arith in
      rw (e, z, free)
        (ground (
          arith,
          t.below,
          t.managed,
          t.in_use,
          card-give page t,
          card-le (page_free (give_page p page)) p.total_pages 0,
          v.free_eq,
        ))

  -- Any other address is refused, and nothing changes.
  pub free-cases :
      (address : ℕ)
      → (free address p ≡ (false, p)) ⊎ ((page : ℕ) × (address ≡ page * 4096) × Taken p page)
  unfolding free
  free-cases address = elim (Bool-cases (address % 4096 == 0)) [
    | inr ne ↦ inl (ground arith)
    | inl e ↦ elim (Bool-cases (leb p.total_pages (address / 4096))) [
      | inl above ↦ inl (ground arith)
      | inr below ↦ elim (Bool-cases (bitmap_get p.allocatable_bitmap (address / 4096))) [
        | inr off ↦ inl (ground arith)
        | inl managed ↦ elim (Bool-cases (bitmap_get p.used_bitmap (address / 4096))) [
          | inr off ↦ inl (ground arith)
          | inl in_use ↦ inr (
            address / 4096,
            ground arith,
            record { below = ground arith; managed = managed; in_use = in_use },
          )
        ]
      ]
    ]
  ]

  pub give_page-Inv : (page : ℕ) → Taken p page → Inv (give_page p page)
  give_page-Inv page t = record {
    used_bytes = bitmap_set-Bytes p.used_bitmap page false v.used_bytes;
    allocatable_bytes = v.allocatable_bytes;
    used_covers = rw (length-bitmap_set p.used_bitmap page false) v.used_covers;
    allocatable_covers = v.allocatable_covers;
    total_le = v.total_le;
    free_eq = omega (arith, v.free_eq, card-give page t);
    reserved_eq = v.reserved_eq;
    low = v.low;
  }

  -- pmm_free of any 32-bit address on a state that satisfies the invariant leaves one that does.
  pub free-Inv : (address : ℕ) → Inv (free address p).1
  free-Inv address = elim (free-cases address) [
    | inl e ↦ rw e v
    | inr (page, e, t) ↦ rw (e, free-Taken page t) (give_page-Inv page t)
  ]
