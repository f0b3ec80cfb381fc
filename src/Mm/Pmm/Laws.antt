-- ===== src/Mm/Pmm/Laws.antt =====
-- What a client of pmm_alloc and pmm_free relies on: pages are handed out once, come back whole,
-- and the allocator's own self test passes.
use mini_orange_os.Prelude.{
  ◌==◌, if◌then◌else◌, ==_refl, ℕ, ◌+◌, ◌-◌, ◌*◌, ◌≤◌, ◌<◌, ◌≡◌, refl, ap, ◌∙◌, subst, ◌≢◌, ◌⊎◌,
  inl, inr, Bool, true, false, ◌&&◌, not, arith,
}
use mini_orange_os.Mm.Bitmap.Laws.{bitmap_set_undo, bitmap_get-set}
use mini_orange_os.Mm.Pmm.{Pmm, page_free, alloc, free}
use mini_orange_os.Mm.Pmm.Invariant.{Inv}
use mini_orange_os.Mm.Pmm.Alloc.{
  Allocated, take_page, give_page, Taken, alloc-cases, take_page-Inv, card-take, page_free-take,
  free-Taken, free-cases, give_page-Inv,
}

and_split : (a b : Bool) → a && not b ≡ true → (a ≡ true) × (b ≡ false)
and_split a b h = ground arith

module _ (p : Pmm) (v : Inv p) where
  -- The page just taken can be given back.
  pub take-Taken : (page : ℕ) → Allocated p page → Taken (take_page p page) page
  take-Taken page a = record {
    below = a.below;
    managed = (and_split _ _ a.was_free).0;
    in_use =
        rw
          (
            bitmap_get-set p.used_bitmap page page true v.used_bytes
                (omega (arith, a.below, v.used_covers)),
            ==_refl page,
          )
          refl;
  }

  give-take : (page : ℕ) → Allocated p page → give_page (take_page p page) page ≡ p
  give-take page a =
      let bits =
        bitmap_set_undo p.used_bitmap page v.used_bytes (omega (arith, a.below, v.used_covers))
          (and_split _ _ a.was_free).1 in
      let count : p.free_pages - 1 + 1 ≡ p.free_pages =
        omega (arith, v.free_eq, card-take p v page a.below a.was_free) in
      λ i. record p { used_bitmap = bits i; free_pages = count i }

  pub free-take : (page : ℕ) → Allocated p page → free (page * 4096) (take_page p page) ≡ (true, p)
  free-take page a =
      free-Taken (take_page p page) (take_page-Inv p v page a) page (take-Taken page a)
      ∙ ap (λ q. (true, q)) (give-take page a)

  -- On a state that satisfies the invariant: if pmm_alloc returns an address, then pmm_free takes it
  -- back and restores the whole state.
  pub free-alloc : (alloc p).0 ≢ 0 → free (alloc p).0 (alloc p).1 ≡ (true, p)
  free-alloc nonzero = elim (alloc-cases p v) [
    | inl (e, none_free) ↦ absurd (nonzero (rw e refl))
    | inr (page, a) ↦ rw a.result (free-take page a)
  ]

  not_Taken : (page : ℕ) → Taken p page → Taken (give_page p page) page → ⊥
  not_Taken page t t' =
      let e =
        bitmap_get-set p.used_bitmap page page false v.used_bytes
          (omega (arith, t.below, v.used_covers)) in
      ground (arith, e, t'.in_use)

  -- On a state that satisfies the invariant, an address other than 0 that pmm_alloc returns is a
  -- multiple of the page size in a page below `total_pages` and above the first MiB that was free and
  -- is free no more; the state of every other page is as it was.
  pub alloc_lem :
      (alloc p).0 ≢ 0
      → (page : ℕ) × ((alloc p).0 ≡ page * 4096)
        × (256 ≤ page)
        × (page < p.total_pages)
        × ((alloc p).1.free_pages + 1 ≡ p.free_pages)
        × (page_free p page ≡ true)
        × ((q : ℕ) → page_free (alloc p).1 q ≡ (if page == q then false else page_free p q))
  alloc_lem nonzero = elim (alloc-cases p v) [
    | inl (e, none_free) ↦ absurd (nonzero (rw e refl))
    | inr (page, a) ↦ (
      page,
      rw a.result refl,
      a.above_low,
      a.below,
      rw a.result (omega (arith, v.free_eq, card-take p v page a.below a.was_free)),
      a.was_free,
      λ q. rw a.result (page_free-take p v page q a.below),
    )
  ]

  -- On a state that satisfies the invariant, a page that pmm_free took back is refused when it is
  -- freed again.
  pub free_twice :
      (address : ℕ)
      → (free address p).0 ≡ true
      → free address (free address p).1 ≡ (false, (free address p).1)
  free_twice address h = elim (free-cases p v address) [
    | inl e ↦ absurd (false_true (rw e at h))
    | inr (page, e, t) ↦ rw (e, free-Taken p v page t) (again page t)
  ]
    where
      false_true : false ≡ true → ⊥
      false_true q = cc

      again :
          (page : ℕ)
          → Taken p page
          → free (page * 4096) (give_page p page) ≡ (false, give_page p page)
      again page t = elim (free-cases (give_page p page) (give_page-Inv p v page t) (page * 4096)) [
        | inl e ↦ e
        | inr (page', e, t') ↦
            absurd (not_Taken page t (subst (Taken (give_page p page)) (omega (arith, e)) t'))
      ]

  -- pmm_free accepts exactly the addresses of managed pages in use; it clears the page's bit and
  -- counts the page as free, and any other address leaves the state as it was.
  pub free_lem :
      (address : ℕ)
      → ((free address p ≡ (false, p)) × ((page : ℕ) → address ≡ page * 4096 → Taken p page → ⊥))
        ⊎ ((page : ℕ) × (address ≡ page * 4096)
            × Taken p page
            × (free address p ≡ (true, give_page p page)))
  free_lem address = elim (free-cases p v address) [
    | inr (page, e, t) ↦ inr (page, e, t, rw e (free-Taken p v page t))
    | inl e ↦ inl (e, λ page a t. true_false page a t e)
  ]
    where
      true_false :
          (page : ℕ) → address ≡ page * 4096 → Taken p page → free address p ≡ (false, p) → ⊥
      true_false page a t e = ground (arith, free-Taken p v page t)
