-- ===== src/Mm/Pmm/Build.antt =====
-- The bitmaps that pmm_init builds, against the set of pages that the memory map makes usable.
use mini_orange_os.Prelude.{
  ltb, leb, ◌==◌, if◌then◌else◌, length, ℕ, zero, suc, ◌+◌, ◌≤◌, ◌<◌, ◌≡◌, ap, ◌∙◌, Bool, ◌&&◌, not,
  arith,
}
use mini_orange_os.Mm.Bitmap.{bitmap_get}
use mini_orange_os.Mm.Bitmap.Laws.{Bytes, bitmap_get-set, length-bitmap_set, bitmap_set-Bytes}
use mini_orange_os.Mm.Pmm.{Pmm, max_pages, bitmap_size, set_page, set_pages}

-- Both bitmaps have their full size, a page is allocatable as `f` says, and used if it is not.
pub record Shows (f : ℕ → Bool) (p : Pmm) : Type 0 where
  pub used_bytes : Bytes p.used_bitmap
  pub allocatable_bytes : Bytes p.allocatable_bitmap
  pub used_size : length p.used_bitmap ≡ bitmap_size
  pub allocatable_size : length p.allocatable_bitmap ≡ bitmap_size
  pub allocatable : (q : ℕ) → q < max_pages → bitmap_get p.allocatable_bitmap q ≡ f q
  pub used : (q : ℕ) → q < max_pages → bitmap_get p.used_bitmap q ≡ not (f q)

pub Shows-ext :
    (f g : ℕ → Bool) (p : Pmm) → ((q : ℕ) → q < max_pages → f q ≡ g q) → Shows f p → Shows g p
Shows-ext f g p h s = record {
  used_bytes = s.used_bytes;
  allocatable_bytes = s.allocatable_bytes;
  used_size = s.used_size;
  allocatable_size = s.allocatable_size;
  allocatable = λ q lt. s.allocatable q lt ∙ h q lt;
  used = λ q lt. s.used q lt ∙ ap not (h q lt);
}

set_page-Shows :
    (f : ℕ → Bool) (p : Pmm) (a : Bool) (page : ℕ)
    → page < max_pages
    → Shows f p
    → Shows (λ q. if page == q then a else f q) (set_page a (not a) page p)
unfolding set_page
set_page-Shows f p a page lt s = record {
  used_bytes = bitmap_set-Bytes p.used_bitmap page (not a) s.used_bytes;
  allocatable_bytes = bitmap_set-Bytes p.allocatable_bitmap page a s.allocatable_bytes;
  used_size = length-bitmap_set p.used_bitmap page (not a) ∙ s.used_size;
  allocatable_size = length-bitmap_set p.allocatable_bitmap page a ∙ s.allocatable_size;
  allocatable = λ q hq.
      bitmap_get-set p.allocatable_bitmap page q a s.allocatable_bytes
        (omega (arith, s.allocatable_size))
      ∙ ap (λ x. if page == q then a else x) (s.allocatable q hq);
  used = λ q hq.
      bitmap_get-set p.used_bitmap page q (not a) s.used_bytes (omega (arith, s.used_size))
      ∙ rw (s.used q hq) (ground arith);
}

pub set_pages-Shows :
    (f : ℕ → Bool) (p : Pmm) (a : Bool) (n first : ℕ)
    → first + n ≤ max_pages
    → Shows f p
    → Shows
        (λ q. if leb first q && ltb q (first + n) then a else f q)
        (set_pages a (not a) n first p)
unfolding set_pages
set_pages-Shows f p a zero first le s = Shows-ext f _ p (λ q hq. ground arith) s
set_pages-Shows f p a (suc n) first le s =
    Shows-ext _ _ _ (λ q hq. ground arith)
      (set_pages-Shows (λ q. if first == q then a else f q) (set_page a (not a) first p) a n
        (first + 1) (omega arith) (set_page-Shows f p a first (omega arith) s))
