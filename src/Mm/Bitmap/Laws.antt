-- ===== src/Mm/Bitmap/Laws.antt =====
-- A bitmap of bytes behaves as a set of pages.
use native.Mathlib.Decide.{ℕ_discrete}
use mini_orange_os.Prelude.{
  ◌==◌, if◌then◌else◌, ==_iff, holds_below, holds_below_at, length, get_or, All, length-set,
  length-replicate, get_or-set_self, get_or-set_ne, set-set, set-get_or, All-get_or, All-set,
  All-replicate, ℕ, zero, suc, ◌*◌, ◌/◌, ◌%◌, ◌<◌, ◌≡◌, refl, sym, ◌∙◌, Bool, true, false, ◌&&◌,
  ◌||◌, not, List, arith,
}
use mini_orange_os.Mm.Bitmap.{byte_get, byte_set, bitmap_get, bitmap_set, fill}

abbrev pub Bytes : List ℕ → Type 0
Bytes = All (λ x. x < 256)

abbrev bool_eq : Bool → Bool → Bool
bool_eq true b = b
bool_eq false b = not b

bool_eq_sound : (a b : Bool) → bool_eq a b ≡ true → a ≡ b
bool_eq_sound true true h = refl
bool_eq_sound true false h = sym h
bool_eq_sound false true h = h
bool_eq_sound false false h = refl

get_set_ok : Bool → ℕ → ℕ → ℕ → Bool
unfolding byte_get byte_set
get_set_ok v x k j =
    bool_eq (byte_get (byte_set x k v) j) (if k == j then v else byte_get x j)
    && ltb256 (byte_set x k v)
  where
    ltb256 : ℕ → Bool
    ltb256 y = y / 256 == 0

get_set_table :
    (v : Bool) → holds_below 256 (λ x. holds_below 8 (λ k. holds_below 8 (get_set_ok v x k))) ≡ true
unfolding holds_below get_set_ok
get_set_table true = refl
get_set_table false = refl

get_set_entry : (v : Bool) (x k j : ℕ) → x < 256 → k < 8 → j < 8 → get_set_ok v x k j ≡ true
get_set_entry v x k j hx hk hj =
    holds_below_at 8 (get_set_ok v x k) j
      (holds_below_at 8 (λ k. holds_below 8 (get_set_ok v x k)) k
        (holds_below_at 256 _ x (get_set_table v) hx) hk)
      hj

and_left : (a b : Bool) → a && b ≡ true → a ≡ true
and_left a b h = ground arith

and_right : (a b : Bool) → a && b ≡ true → b ≡ true
and_right a b h = ground arith

-- A byte test or write depends on `page % 8` alone.
byte_get-mod : (x p : ℕ) → byte_get x (p % 8) ≡ byte_get x p
unfolding byte_get
byte_get-mod x p = let e : p % 8 % 8 ≡ p % 8 = omega arith in rw e

byte_set-mod : (x p : ℕ) (v : Bool) → byte_set x (p % 8) v ≡ byte_set x p v
unfolding byte_set
byte_set-mod x p v = let e : p % 8 % 8 ≡ p % 8 = omega arith in rw e

byte_get-set :
    (x p q : ℕ) (v : Bool)
    → x < 256
    → byte_get (byte_set x p v) q ≡ (if p % 8 == q % 8 then v else byte_get x q)
unfolding get_set_ok
byte_get-set x p q v hx =
    rw (← byte_set-mod x p v, ← byte_get-mod x q, ← byte_get-mod (byte_set x (p % 8) v) q)
      (bool_eq_sound _ _
        (and_left _ _ (get_set_entry v x (p % 8) (q % 8) hx (omega arith) (omega arith))))

lt_of_div : {n : ℕ} → n / 256 ≡ 0 → n < 256
lt_of_div h = omega arith

pub byte_set-lt : (x p : ℕ) (v : Bool) → x < 256 → byte_set x p v < 256
unfolding get_set_ok
byte_set-lt x p v hx = rw (← byte_set-mod x p v) (
    lt_of_div
      ((==_iff _ _).0 (and_right _ _ (get_set_entry v x (p % 8) 0 hx (omega arith) (omega arith)))))

undo_table :
    holds_below 256
      (λ x. holds_below 8 (λ k. byte_get x k || byte_set (byte_set x k true) k false == x))
    ≡ true
unfolding holds_below byte_get byte_set
undo_table = refl

or_false : (a b : Bool) → a || b ≡ true → a ≡ false → b ≡ true
or_false a b h e = ground arith

byte_set_undo :
    (x p : ℕ) → x < 256 → byte_get x p ≡ false → byte_set (byte_set x p true) p false ≡ x
byte_set_undo x p hx e =
    rw (← byte_set-mod x p true, ← byte_set-mod (byte_set x (p % 8) true) p false)
      ((==_iff _ _).0 (
        or_false (byte_get x (p % 8)) _
          (holds_below_at 8 _ (p % 8) (holds_below_at 256 _ x undo_table hx) (omega arith))
          (byte_get-mod x p ∙ e)))

pub length-bitmap_set : (b : List ℕ) (p : ℕ) (v : Bool) → length (bitmap_set b p v) ≡ length b
unfolding bitmap_set
length-bitmap_set b p v = length-set b (p / 8) _

byte_at : (b : List ℕ) (i : ℕ) → Bytes b → get_or b i 0 < 256
byte_at b i h = All-get_or (λ x. x < 256) b i 0 (omega arith) h

pub bitmap_set-Bytes : (b : List ℕ) (p : ℕ) (v : Bool) → Bytes b → Bytes (bitmap_set b p v)
unfolding bitmap_set
bitmap_set-Bytes b p v h =
    All-set (λ x. x < 256) b (p / 8) _ (byte_set-lt _ p v (byte_at b (p / 8) h)) h

-- A write to a bitmap of bytes at a page inside it changes the bit of its page and no other.
pub bitmap_get-set :
    (b : List ℕ) (p q : ℕ) (v : Bool)
    → Bytes b
    → p < 8 * length b
    → bitmap_get (bitmap_set b p v) q ≡ (if p == q then v else bitmap_get b q)
unfolding bitmap_get bitmap_set
bitmap_get-set b p q v h hp = elim (ℕ_discrete (p / 8) (q / 8)) [
  | yes e ↦
      rw
        (
          ← e,
          get_or-set_self b (p / 8) (byte_set (get_or b (p / 8) 0) p v) 0 (omega arith),
          byte_get-set (get_or b (p / 8) 0) p q v (byte_at b (p / 8) h),
        )
        (ground arith)
  | no ne ↦
      rw (get_or-set_ne b (p / 8) (q / 8) (byte_set (get_or b (p / 8) 0) p v) 0 ne) (ground arith)
]

-- Marking a clear page of a bitmap of bytes and clearing it again gives the bitmap back, byte for
-- byte.
pub bitmap_set_undo :
    (b : List ℕ) (p : ℕ)
    → Bytes b
    → p < 8 * length b
    → bitmap_get b p ≡ false
    → bitmap_set (bitmap_set b p true) p false ≡ b
unfolding bitmap_get bitmap_set
bitmap_set_undo b p h hp e =
    rw
      (
        get_or-set_self b (p / 8) (byte_set (get_or b (p / 8) 0) p true) 0 (omega arith),
        set-set,
        byte_set_undo (get_or b (p / 8) 0) p (byte_at b (p / 8) h) e,
      )
      (set-get_or b (p / 8) 0)

pub length-fill : (n x : ℕ) → length (fill n x) ≡ n
unfolding fill
length-fill n x = length-replicate n x

pub fill-Bytes : (n x : ℕ) → x < 256 → Bytes (fill n x)
unfolding fill
fill-Bytes n x h = All-replicate (λ x. x < 256) n x h

fill_at : (n x i : ℕ) → i < n → get_or (fill n x) i 0 ≡ x
unfolding fill
fill_at zero x i h = absurd (omega arith)
fill_at (suc n) x zero h = refl
fill_at (suc n) x (suc i) h = fill_at n x i (omega arith)

ones_table : holds_below 8 (λ k. byte_get 0xFF k && not (byte_get 0 k)) ≡ true
unfolding holds_below byte_get
ones_table = refl

ones_entry : (p : ℕ) → (byte_get 0xFF p ≡ true) × (byte_get 0 p ≡ false)
ones_entry p =
    let e = holds_below_at 8 _ (p % 8) ones_table (omega arith) in
    rw (← byte_get-mod 0xFF p, ← byte_get-mod 0 p) (ground (arith, e))

pub bitmap_get-fill :
    (n q : ℕ) → q < 8 * n → (bitmap_get (fill n 0xFF) q ≡ true) × (bitmap_get (fill n 0) q ≡ false)
unfolding bitmap_get
bitmap_get-fill n q h =
    rw (fill_at n 0xFF (q / 8) (omega arith), fill_at n 0 (q / 8) (omega arith)) (ones_entry q)
