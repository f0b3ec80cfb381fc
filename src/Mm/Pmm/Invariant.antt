-- ===== src/Mm/Pmm/Invariant.antt =====
-- The invariant of the allocator's state: the counters agree with the two bitmaps, and the first
-- MiB, page 0 with it, is never allocatable, so that the address 0 can mean failure.
use mini_orange_os.Prelude.{
  ◌==◌, if◌then◌else◌, Bool-cases, length, ℕ, zero, suc, ◌+◌, ◌*◌, ◌^◌, ◌≤◌, ◌<◌, ◌≡◌, refl, inl,
  inr, Bool, true, false, arith,
}
use mini_orange_os.Mm.Bitmap.{bitmap_get}
use mini_orange_os.Mm.Bitmap.Laws.{Bytes}
use mini_orange_os.Mm.Pmm.{Pmm, max_pages, page_free, count_free}

-- How many of the `n` numbers from `i` on satisfy a test.
pub card : (ℕ → Bool) → ℕ → ℕ → ℕ
card f zero i = 0
card f (suc n) i = (if f i then 1 else 0) + card f n (i + 1)

pub record Inv (p : Pmm) : Type 0 where
  pub used_bytes : Bytes p.used_bitmap
  pub allocatable_bytes : Bytes p.allocatable_bitmap
  pub used_covers : p.total_pages ≤ 8 * length p.used_bitmap
  pub allocatable_covers : p.total_pages ≤ 8 * length p.allocatable_bitmap
  pub total_le : p.total_pages ≤ max_pages
  pub free_eq : p.free_pages ≡ card (page_free p) p.total_pages 0
  pub reserved_eq :
      p.reserved_pages + card (bitmap_get p.allocatable_bitmap) p.total_pages 0 ≡ p.total_pages
  pub low : (page : ℕ) → page < 256 → bitmap_get p.allocatable_bitmap page ≡ false

pub card-le : (f : ℕ → Bool) (n i : ℕ) → card f n i ≤ n
unfolding card
card-le f zero i = omega arith
card-le f (suc n) i = ground (arith, card-le f n (i + 1))

pub card_ext :
    (f g : ℕ → Bool) (n i : ℕ) → ((q : ℕ) → i ≤ q → q < i + n → f q ≡ g q) → card f n i ≡ card g n i
unfolding card
card_ext f g zero i h = refl
card_ext f g (suc n) i h = rw (
  h i (omega arith) (omega arith),
  card_ext f g n (i + 1) (λ q lo hi. h q (omega arith) (omega arith)),
)

-- Clearing one member takes one off the count.
pub card_clear :
    (f g : ℕ → Bool) (k n i : ℕ)
    → f k ≡ true
    → ((q : ℕ) → g q ≡ (if k == q then false else f q))
    → i ≤ k
    → k < i + n
    → card g n i + 1 ≡ card f n i
unfolding card
card_clear f g k zero i hf hg lo hi = absurd (omega arith)
card_clear f g k (suc n) i hf hg lo hi = elim (Bool-cases (k == i)) [
  | inl e ↦ ground (arith, hg i, card_ext g f n (i + 1) (λ q hq _. ground (arith, hg q)))
  | inr ne ↦ ground (arith, hg i, card_clear f g k n (i + 1) hf hg)
]

-- A test that fails throughout counts nothing, and only such a one.
pub card_zero :
    (f : ℕ → Bool) (n i : ℕ) → ((q : ℕ) → i ≤ q → q < i + n → f q ≡ false) → card f n i ≡ 0
unfolding card
card_zero f zero i h = refl
card_zero f (suc n) i h =
    ground (arith, h i, card_zero f n (i + 1) (λ q lo hi. h q (omega arith) (omega arith)))

-- The loop of pmm_init counts the free pages.
pub count_free-eq-card :
    (p : Pmm) (n i acc : ℕ) → acc + n < 2 ^ 32 → count_free p n i acc ≡ acc + card (page_free p) n i
unfolding count_free card
count_free-eq-card p zero i acc h = omega arith
count_free-eq-card p (suc n) i acc h =
    ground (arith, count_free-eq-card p n (i + 1) acc, count_free-eq-card p n (i + 1) (acc + 1))
