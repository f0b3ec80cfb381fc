-- ===== src/Fs/MiniFs/Bytes.antt =====
-- kernel/fs/minifs.c: numbers in a block, least significant byte first, and what a write to a block
-- leaves of the rest.
use mini_orange_os.Mm.Bitmap.Laws.{Bytes}
use native.Mathlib.Decide.{ℕ_discrete}
use mini_orange_os.Prelude.{
  length, get_or, set, length-set, get_or-set_self, get_or-set_ne, All-set, ℕ, zero, suc, ◌+◌, ◌*◌,
  ◌/◌, ◌%◌, ◌^◌, ◌≤◌, ◌<◌, ◌≡◌, refl, sym, ◌∙◌, subst, ◌⊎◌, inl, List, [], ◌∷◌, arith,
}

unfoldable pub read_le16 : List ℕ → ℕ → ℕ
read_le16 source at_offset = get_or source at_offset 0 + get_or source (at_offset + 1) 0 * 256

unfoldable pub read_le32 : List ℕ → ℕ → ℕ
read_le32 source at_offset =
    get_or source at_offset 0
    + get_or source (at_offset + 1) 0 * 256
    + get_or source (at_offset + 2) 0 * 65536
    + get_or source (at_offset + 3) 0 * 16777216

unfoldable pub write_le16 : List ℕ → ℕ → ℕ → List ℕ
write_le16 destination at_offset value =
    set (set destination at_offset (value % 256)) (at_offset + 1) (value / 256 % 256)

unfoldable pub write_le32 : List ℕ → ℕ → ℕ → List ℕ
write_le32 destination at_offset value =
    let first = set destination at_offset (value % 256) in
    let second = set first (at_offset + 1) (value / 256 % 256) in
    let third = set second (at_offset + 2) (value / 65536 % 256) in
    set third (at_offset + 3) (value / 16777216 % 256)

-- The loop of clear_bytes on the bytes from `at_offset` on.
unfoldable pub clear_bytes : List ℕ → ℕ → ℕ → List ℕ
clear_bytes destination at_offset zero = destination
clear_bytes destination at_offset (suc rounds) =
    clear_bytes (set destination at_offset 0) (at_offset + 1) rounds

-- The loop of copy_bytes to the bytes from `at_offset` on.
unfoldable pub copy_bytes : List ℕ → ℕ → List ℕ → List ℕ
copy_bytes destination at_offset [] = destination
copy_bytes destination at_offset (byte ∷ source) =
    copy_bytes (set destination at_offset byte) (suc at_offset) source

-- An index that lies before a field of `width` bytes or behind it.
abbrev pub Outside : ℕ → ℕ → ℕ → Type 0
Outside i at_offset width = (i < at_offset) ⊎ (at_offset + width ≤ i)

pub length-write_le16 : (d : List ℕ) (o v : ℕ) → length (write_le16 d o v) ≡ length d
unfolding write_le16
length-write_le16 d o v = simp (length-set)

pub length-write_le32 : (d : List ℕ) (o v : ℕ) → length (write_le32 d o v) ≡ length d
unfolding write_le32
length-write_le32 d o v = simp (length-set)

pub length-clear_bytes : (d : List ℕ) (o n : ℕ) → length (clear_bytes d o n) ≡ length d
unfolding clear_bytes
length-clear_bytes d o zero = refl
length-clear_bytes d o (suc n) = length-clear_bytes (set d o 0) (o + 1) n ∙ length-set d o 0

pub get_or-write_le16 :
    (d : List ℕ) (o v i : ℕ) → Outside i o 2 → get_or (write_le16 d o v) i 0 ≡ get_or d i 0
unfolding write_le16
get_or-write_le16 d o v i out =
    get_or-set_ne _ (o + 1) i (v / 256 % 256) 0 (omega arith)
    ∙ get_or-set_ne d o i (v % 256) 0 (omega arith)

pub get_or-write_le32 :
    (d : List ℕ) (o v i : ℕ) → Outside i o 4 → get_or (write_le32 d o v) i 0 ≡ get_or d i 0
unfolding write_le32
get_or-write_le32 d o v i out =
    get_or-set_ne _ (o + 3) i (v / 16777216 % 256) 0 (omega arith)
    ∙ get_or-set_ne _ (o + 2) i (v / 65536 % 256) 0 (omega arith)
    ∙ get_or-set_ne _ (o + 1) i (v / 256 % 256) 0 (omega arith)
    ∙ get_or-set_ne d o i (v % 256) 0 (omega arith)

pub get_or-clear_bytes-Outside :
    (d : List ℕ) (o n i : ℕ) → Outside i o n → get_or (clear_bytes d o n) i 0 ≡ get_or d i 0
unfolding clear_bytes
get_or-clear_bytes-Outside d o zero i out = refl
get_or-clear_bytes-Outside d o (suc n) i out =
    get_or-clear_bytes-Outside (set d o 0) (o + 1) n i (omega arith)
    ∙ get_or-set_ne d o i 0 0 (omega arith)

pub get_or-clear_bytes :
    (d : List ℕ) (o n i : ℕ)
    → o + n ≤ length d
    → o ≤ i
    → i < o + n
    → get_or (clear_bytes d o n) i 0 ≡ 0
unfolding clear_bytes
get_or-clear_bytes d o zero i fits lo hi = absurd (omega arith)
get_or-clear_bytes d o (suc n) i fits lo hi = elim (ℕ_discrete o i) [
  | yes e ↦
      get_or-clear_bytes-Outside (set d o 0) (o + 1) n i (inl (omega arith))
      ∙ subst (λ k. get_or (set d o 0) k 0 ≡ 0) e (get_or-set_self d o 0 0 (omega arith))
  | no ne ↦
      get_or-clear_bytes (set d o 0) (o + 1) n i (omega (arith, length-set d o 0)) (omega arith)
        (omega arith)
]

-- What a number read depends on.
module _ (d e : List ℕ) (o p : ℕ) where
  abbrev pub Agree : ℕ → Type 0
  Agree n = (k : ℕ) → k < n → get_or d (o + k) 0 ≡ get_or e (p + k) 0

  agree_first : get_or d (o + 0) 0 ≡ get_or e (p + 0) 0 → get_or d o 0 ≡ get_or e p 0
  agree_first h =
      let z : (q : ℕ) → q + 0 ≡ q = λ q. omega arith in
      sym (λ i. get_or d (z o i) 0) ∙ h ∙ (λ i. get_or e (z p i) 0)

  pub read_le16_cong : Agree 2 → read_le16 d o ≡ read_le16 e p
  unfolding read_le16
  read_le16_cong h = λ i. agree_first (h 0 (omega arith)) i + h 1 (omega arith) i * 256

  pub read_le32_cong : Agree 4 → read_le32 d o ≡ read_le32 e p
  unfolding read_le32
  read_le32_cong h = λ i.
      agree_first (h 0 (omega arith)) i
      + h 1 (omega arith) i * 256
      + h 2 (omega arith) i * 65536
      + h 3 (omega arith) i * 16777216

-- A number that fits comes back from where it was written.
pub read_le16-write_le16 :
    (d : List ℕ) (o v : ℕ) → o + 2 ≤ length d → v < 2 ^ 16 → read_le16 (write_le16 d o v) o ≡ v
unfolding read_le16 write_le16
read_le16-write_le16 d o v fits small =
    rw
      (
        get_or-set_ne (set d o (v % 256)) (o + 1) o (v / 256 % 256) 0 (omega arith),
        get_or-set_self d o (v % 256) 0 (omega arith),
        get_or-set_self (set d o (v % 256)) (o + 1) (v / 256 % 256) 0
            (omega (arith, length-set d o (v % 256))),
      )
      (omega arith)

pub read_le32-write_le32 :
    (d : List ℕ) (o v : ℕ) → o + 4 ≤ length d → v < 2 ^ 32 → read_le32 (write_le32 d o v) o ≡ v
unfolding read_le32 write_le32
read_le32-write_le32 d o v fits small =
    let a = v % 256 in
    let b = v / 256 % 256 in
    let c = v / 65536 % 256 in
    let d1 = set d o a in
    let d2 = set d1 (o + 1) b in
    let d3 = set d2 (o + 2) c in
    let l1 = length-set d o a in
    let l2 = length-set d1 (o + 1) b in
    let l3 = length-set d2 (o + 2) c in
    let e0 : get_or (set d3 (o + 3) (v / 16777216 % 256)) o 0 ≡ a =
      get_or-set_ne d3 (o + 3) o _ 0 (omega arith)
      ∙ get_or-set_ne d2 (o + 2) o c 0 (omega arith)
      ∙ get_or-set_ne d1 (o + 1) o b 0 (omega arith)
      ∙ get_or-set_self d o a 0 (omega arith) in
    let e1 : get_or (set d3 (o + 3) (v / 16777216 % 256)) (o + 1) 0 ≡ b =
      get_or-set_ne d3 (o + 3) (o + 1) _ 0 (omega arith)
      ∙ get_or-set_ne d2 (o + 2) (o + 1) c 0 (omega arith)
      ∙ get_or-set_self d1 (o + 1) b 0 (omega (arith, l1)) in
    let e2 : get_or (set d3 (o + 3) (v / 16777216 % 256)) (o + 2) 0 ≡ c =
      get_or-set_ne d3 (o + 3) (o + 2) _ 0 (omega arith)
      ∙ get_or-set_self d2 (o + 2) c 0 (omega (arith, l1, l2)) in
    let e3 : get_or (set d3 (o + 3) (v / 16777216 % 256)) (o + 3) 0 ≡ v / 16777216 % 256 =
      get_or-set_self d3 (o + 3) _ 0 (omega (arith, l1, l2, l3)) in
    rw (e0, e1, e2, e3) (omega arith)

-- A number that a write of another field leaves.
pub read_le16-write_le16_ne :
    (d : List ℕ) (o v p : ℕ)
    → (p + 2 ≤ o) ⊎ (o + 2 ≤ p)
    → read_le16 (write_le16 d o v) p ≡ read_le16 d p
read_le16-write_le16_ne d o v p apart =
    read_le16_cong _ d p p (λ k h. get_or-write_le16 d o v (p + k) (omega arith))

pub read_le16-write_le32_ne :
    (d : List ℕ) (o v p : ℕ)
    → (p + 2 ≤ o) ⊎ (o + 4 ≤ p)
    → read_le16 (write_le32 d o v) p ≡ read_le16 d p
read_le16-write_le32_ne d o v p apart =
    read_le16_cong _ d p p (λ k h. get_or-write_le32 d o v (p + k) (omega arith))

pub read_le32-write_le32_ne :
    (d : List ℕ) (o v p : ℕ)
    → (p + 4 ≤ o) ⊎ (o + 4 ≤ p)
    → read_le32 (write_le32 d o v) p ≡ read_le32 d p
read_le32-write_le32_ne d o v p apart =
    read_le32_cong _ d p p (λ k h. get_or-write_le32 d o v (p + k) (omega arith))

zero_sum :
    (a b c d : ℕ) → a ≡ 0 → b ≡ 0 → c ≡ 0 → d ≡ 0 → a + b * 256 + c * 65536 + d * 16777216 ≡ 0
zero_sum a b c d ea eb ec ed = omega arith

pub read_le32_zero :
    (d : List ℕ) (o : ℕ) → ((i : ℕ) → o ≤ i → i < o + 4 → get_or d i 0 ≡ 0) → read_le32 d o ≡ 0
unfolding read_le32
read_le32_zero d o h =
    zero_sum _ _ _ _ (h o (omega arith) (omega arith)) (h (o + 1) (omega arith) (omega arith))
      (h (o + 2) (omega arith) (omega arith)) (h (o + 3) (omega arith) (omega arith))

-- Writes keep a buffer of bytes.
pub write_le16-Bytes : (d : List ℕ) (o v : ℕ) → Bytes d → Bytes (write_le16 d o v)
unfolding write_le16
write_le16-Bytes d o v h =
    All-set (λ x. x < 256) _ (o + 1) _ (omega arith)
      (All-set (λ x. x < 256) d o (v % 256) (omega arith) h)

pub write_le32-Bytes : (d : List ℕ) (o v : ℕ) → Bytes d → Bytes (write_le32 d o v)
unfolding write_le32
write_le32-Bytes d o v h =
    All-set (λ x. x < 256) _ (o + 3) _ (omega arith)
      (All-set (λ x. x < 256) _ (o + 2) _ (omega arith)
        (All-set (λ x. x < 256) _ (o + 1) _ (omega arith)
          (All-set (λ x. x < 256) d o (v % 256) (omega arith) h)))

pub clear_bytes-Bytes : (d : List ℕ) (o n : ℕ) → Bytes d → Bytes (clear_bytes d o n)
unfolding clear_bytes
clear_bytes-Bytes d o zero h = h
clear_bytes-Bytes d o (suc n) h =
    clear_bytes-Bytes (set d o 0) (o + 1) n (All-set (λ x. x < 256) d o 0 (omega arith) h)
