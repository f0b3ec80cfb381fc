-- ===== src/Block/RoundTrip.antt =====
-- kernel/block/block.c on a disk that keeps what is written.
use mini_orange_os.Prelude.{
  ◌==◌, if◌then◌else◌, length, ℕ, zero, suc, ◌+◌, ◌-◌, ◌*◌, ◌/◌, ◌^◌, ◌≤◌, ◌<◌, ◌≡◌, refl, sym, ◌∙◌,
  true, some, List, [], ◌∷◌, arith,
}
use mini_orange_os.Prelude.Int.{pos}
use mini_orange_os.Block.{
  Ata, first_sector, block_request_valid, read_blocks, block_read, write_blocks, block_write,
}

-- A disk: a device whose reads return what was last written. Blocks are numbered, and `view` is what
-- each holds; the driver serves requests that lie on the device.
pub record Disk (A : Ata) : Type 0 where
  pub view : A.State → ℕ → List ℕ
  pub serves_read :
      (b : ℕ) (a : A.State)
      → b * 8 + 8 ≤ A.sector_count a
      → A.read_sectors (b * 8) 8 a ≡ (pos 0, view a b, a)
  pub serves_write :
      (b : ℕ) (bytes : List ℕ) (a : A.State)
      → b * 8 + 8 ≤ A.sector_count a
      → (a' : A.State) × (A.write_sectors (b * 8) 8 bytes a ≡ (pos 0, a'))
        × (A.sector_count a' ≡ A.sector_count a)
        × ((c : ℕ) → view a' c ≡ (if b == c then bytes else view a c))

missed : (k c : ℕ) (x y : List ℕ) → c < k → (if k == c then x else y) ≡ y
missed k c x y h = ground arith

hit : (k : ℕ) (x y : List ℕ) → (if k == k then x else y) ≡ x
hit k x y = ground arith

-- What the guard of a request says on a device of `sectors` sectors.
request_bounds :
    (sectors b n : ℕ) → block_request_valid (sectors / 8) b n true ≡ true → (b + n) * 8 ≤ sectors
unfolding block_request_valid
request_bounds sectors b n valid =
    let h : (n ≤ sectors / 8) × (b ≤ sectors / 8 - n) = ground arith in omega (arith, h.0, h.1)

module _ (A : Ata) (D : Disk A) where
  -- The `n` blocks from `b` on.
  pub blocks_from : A.State → ℕ → ℕ → List (List ℕ)
  blocks_from a b zero = []
  blocks_from a b (suc n) = D.view a b ∷ blocks_from a (b + 1) n

  sector_of : (b i n : ℕ) → b + i + suc n < 2 ^ 29 → first_sector b i ≡ (b + i) * 8
  sector_of b i n h = omega arith

  next_block :
      (a : A.State) (b i n : ℕ) → blocks_from a (b + (i + 1)) n ≡ blocks_from a (b + i + 1) n
  next_block a b i n = let e : b + (i + 1) ≡ b + i + 1 = omega arith in rw e refl

  read_blocks-reads :
      (n b i : ℕ) (a : A.State)
      → b + i + n < 2 ^ 29
      → (b + i + n) * 8 ≤ A.sector_count a
      → read_blocks A n b i a ≡ (pos 0, blocks_from a (b + i) n, a)
  unfolding read_blocks blocks_from
  read_blocks-reads zero b i a lo hi = refl
  read_blocks-reads (suc n) b i a lo hi =
      let served = D.serves_read (b + i) a (omega arith) in
      let ih = read_blocks-reads n b (i + 1) a (omega arith) (omega arith) in
      rw (sector_of b i n lo, served, ih) (λ j. (pos 0, D.view a (b + i) ∷ next_block a b i n j, a))

  -- What a loop of writes has done.
  record Written (blocks : List (List ℕ)) (first : ℕ) (a a' : A.State) : Type 0 where
    count : A.sector_count a' ≡ A.sector_count a
    below : (c : ℕ) → c < first → D.view a' c ≡ D.view a c
    content : blocks_from a' first (length blocks) ≡ blocks

  write_blocks-writes :
      (blocks : List (List ℕ)) (b i : ℕ) (a : A.State)
      → b + i + length blocks < 2 ^ 29
      → (b + i + length blocks) * 8 ≤ A.sector_count a
      → (a' : A.State) × (write_blocks A blocks b i a ≡ (pos 0, a')) × Written blocks (b + i) a a'
  unfolding write_blocks blocks_from
  write_blocks-writes [] b i a lo hi =
      (a, refl, record { count = refl; below = λ c h. refl; content = refl })
  write_blocks-writes (x ∷ xs) b i a lo hi =
      let (a1, served, same, seen) = D.serves_write (b + i) x a (omega arith) in
      let (a', rest, w) = write_blocks-writes xs b (i + 1) a1 (omega arith) (omega (arith, same)) in
      let head : D.view a' (b + i) ≡ x =
        w.below (b + i) (omega arith) ∙ seen (b + i) ∙ hit (b + i) x (D.view a (b + i)) in
      (
        a',
        rw (sector_of b i (length xs) lo, served) rest,
        record {
          count = w.count ∙ same;
          below = λ c h. w.below c (omega (arith, h)) ∙ seen c ∙ missed (b + i) c x (D.view a c) h;
          content = λ j. head j ∷ (sym (next_block a' b i (length xs)) ∙ w.content) j;
        },
      )

  -- On a disk that serves every transfer within its sectors, of which it has fewer than 2^32, with the
  -- block count that block_init derives from them: where the guard accepts a request, block_write
  -- succeeds, block_read of the same range then succeeds and returns exactly the blocks written, and
  -- every block before the range is unchanged.
  pub block_read-block_write :
      (blocks : List (List ℕ)) (b : ℕ) (a : A.State)
      → A.sector_count a < 2 ^ 32
      → block_request_valid (A.sector_count a / 8) b (length blocks) true ≡ true
      → (a' : A.State) × (block_write A (A.sector_count a / 8) b (some blocks) a ≡ (pos 0, a'))
        × (block_read A (A.sector_count a / 8) b (length blocks) true a' ≡ (pos 0, blocks, a'))
        × ((c : ℕ) → c < b → D.view a' c ≡ D.view a c)
  unfolding block_write block_read
  block_read-block_write blocks b a lo valid =
      let fits = request_bounds (A.sector_count a) b (length blocks) valid in
      let (a', written, w) = write_blocks-writes blocks b 0 a (omega arith) (omega (arith, fits)) in
      let read =
        read_blocks-reads (length blocks) b 0 a' (omega arith) (omega (arith, fits, w.count)) in
      let e : b ≡ b + 0 = omega arith in
      (
        a',
        rw (valid, written) refl,
        rw (valid, read) (λ j. (pos 0, w.content j, a')),
        λ c h. w.below c (omega (arith, h)),
      )
