-- ===== src/Drivers/Keyboard/Queue.antt =====
-- The ring of kernel/drivers/keyboard.c as a queue.
use mini_orange_os.Prelude.{
  ◌==◌, if◌then◌else◌, Bool-cases, length, get_or, set, length-set, get_or-set_self, get_or-set_ne,
  ℕ, zero, suc, ◌+◌, ◌-◌, ◌%◌, ◌≤◌, ◌<◌, ◌≡◌, refl, sym, ap, ◌∙◌, ◌≢◌, ◌↔◌, inl, inr, true, Option,
  none, some, List, [], ◌∷◌, ◌++◌, arith,
}
use mini_orange_os.Drivers.Keyboard.{Keyboard, keyboard_buffer_push, keyboard_try_read}

-- The `n` characters of a ring from index `t` on.
unfoldable pub items : List ℕ → ℕ → ℕ → List ℕ
items buffer t zero = []
items buffer t (suc n) = get_or buffer t 0 ∷ items buffer ((t + 1) % 128) n

unfoldable pub distance : ℕ → ℕ → ℕ
distance t h = (h + 128 - t) % 128

-- What a reader will be given, in order.
unfoldable pub queue : Keyboard → List ℕ
queue k = items k.input_buffer k.input_tail (distance k.input_tail k.input_head)

pub record IsRing (k : Keyboard) : Type 0 where
  pub size : length k.input_buffer ≡ 128
  pub head_bound : k.input_head < 128
  pub tail_bound : k.input_tail < 128

length-items : (buffer : List ℕ) (t n : ℕ) → length (items buffer t n) ≡ n
unfolding items
length-items buffer t zero = refl
length-items buffer t (suc n) = let ih = length-items buffer ((t + 1) % 128) n in omega (arith, ih)

-- A write before the range of a ring does not change it.
items-set :
    (buffer : List ℕ) (n t h v : ℕ)
    → t < 128
    → h < 128
    → n ≤ distance t h
    → items (set buffer h v) t n ≡ items buffer t n
unfolding items distance
items-set buffer zero t h v tb hb le = refl
items-set buffer (suc n) t h v tb hb le =
    let ne : h ≢ t = λ e. omega (arith, e) in
    let ih = items-set buffer n ((t + 1) % 128) h v (omega arith) hb (omega arith) in
    λ j. get_or-set_ne buffer h t v 0 ne j ∷ ih j

items-snoc :
    (buffer : List ℕ) (n t : ℕ)
    → t < 128
    → items buffer t (suc n) ≡ items buffer t n ++ (get_or buffer ((t + n) % 128) 0 ∷ [])
unfolding items
items-snoc buffer zero t tb =
    let e : t ≡ (t + 0) % 128 = omega arith in λ j. get_or buffer (e j) 0 ∷ []
items-snoc buffer (suc n) t tb =
    let ih = items-snoc buffer n ((t + 1) % 128) (omega arith) in
    let e : ((t + 1) % 128 + n) % 128 ≡ (t + suc n) % 128 = omega arith in
    λ j.
      get_or buffer t 0
      ∷ (ih ∙ (λ i. items buffer ((t + 1) % 128) n ++ (get_or buffer (e i) 0 ∷ []))) j

pub first : List ℕ → Option ℕ
first [] = none
first (c ∷ cs) = some c

pub rest : List ℕ → List ℕ
rest [] = []
rest (c ∷ cs) = cs

first-items :
    (buffer : List ℕ) (t n : ℕ) → 0 < n → first (items buffer t n) ≡ some (get_or buffer t 0)
unfolding items first
first-items buffer t zero pos = ground arith
first-items buffer t (suc n) pos = refl

rest-items :
    (buffer : List ℕ) (t n : ℕ)
    → 0 < n
    → rest (items buffer t n) ≡ items buffer ((t + 1) % 128) (n - 1)
unfolding items rest
rest-items buffer t zero pos = ground arith
rest-items buffer t (suc n) pos =
    let e : n ≡ suc n - 1 = omega arith in λ j. items buffer ((t + 1) % 128) (e j)

stored :
    (k : Keyboard) (c : ℕ)
    → IsRing k
    → (k.input_head + 1) % 128 ≢ k.input_tail
    → items
        (set k.input_buffer k.input_head c)
        k.input_tail
        (distance k.input_tail ((k.input_head + 1) % 128))
      ≡ queue k ++ (c ∷ [])
unfolding queue distance
stored k c r ne =
    let n = distance k.input_tail k.input_head in
    let grown : distance k.input_tail ((k.input_head + 1) % 128) ≡ suc n =
      omega (arith, r.head_bound, r.tail_bound, ne) in
    let at : (k.input_tail + n) % 128 ≡ k.input_head = omega (arith, r.head_bound, r.tail_bound) in
    let b = set k.input_buffer k.input_head c in
    let inside : k.input_head < length k.input_buffer = omega (arith, r.head_bound, r.size) in
    (λ j. items b k.input_tail (grown j))
    ∙ items-snoc b n k.input_tail r.tail_bound
    ∙ (λ j.
        items-set k.input_buffer n k.input_tail k.input_head c r.tail_bound r.head_bound
          (omega arith) j
        ++ (get_or b (at j) 0 ∷ []))
    ∙ (λ j. queue k ++ (get_or-set_self k.input_buffer k.input_head c 0 inside j ∷ []))

length-queue : (k : Keyboard) → length (queue k) ≡ distance k.input_tail k.input_head
unfolding queue
length-queue k = length-items k.input_buffer k.input_tail (distance k.input_tail k.input_head)

same_test : (a b c d : ℕ) → ((a ≡ b) ↔ (c ≡ d)) → (a == b) ≡ (c == d)
same_test a b c d h = ground arith

full_test :
    (k : Keyboard)
    → IsRing k
    → (length (queue k) == 127) ≡ ((k.input_head + 1) % 128 == k.input_tail)
unfolding distance
full_test k r =
    let n = length-queue k in
    let hb = r.head_bound in
    let tb = r.tail_bound in
    same_test (length (queue k)) 127 ((k.input_head + 1) % 128) k.input_tail
      ((λ e. omega (arith, e, n, hb, tb)), (λ e. omega (arith, e, n, hb, tb)))

unfolded :
    (k : Keyboard) (c : ℕ)
    → IsRing k
    → (k.input_head + 1) % 128 ≢ k.input_tail
    → queue (record k {
      input_buffer = set k.input_buffer k.input_head c;
      input_head = (k.input_head + 1) % 128;
    })
      ≡ queue k ++ (c ∷ [])
unfolding queue
unfolded k c r ne = stored k c r ne

pub IsRing-keyboard_buffer_push :
    (k : Keyboard) (c : ℕ) → IsRing k → IsRing (keyboard_buffer_push c k)
unfolding keyboard_buffer_push
IsRing-keyboard_buffer_push k c r = elim (Bool-cases ((k.input_head + 1) % 128 == k.input_tail)) [
  | inl full ↦ rw full r
  | inr room ↦ rw room (record {
    size = length-set k.input_buffer k.input_head c ∙ r.size;
    head_bound = omega arith;
    tail_bound = r.tail_bound;
  })
]

-- On a ring whose indices are in bounds, keyboard_buffer_push appends the character to the queue, unless
-- 127 characters wait, when it leaves the queue as it is.
pub keyboard_buffer_push_lem :
    (k : Keyboard) (c : ℕ)
    → IsRing k
    → queue (keyboard_buffer_push c k)
      ≡ (if length (queue k) == 127 then queue k else queue k ++ (c ∷ []))
unfolding keyboard_buffer_push
keyboard_buffer_push_lem k c r = elim (Bool-cases ((k.input_head + 1) % 128 == k.input_tail)) [
  | inl full ↦ rw (full_test k r, full) refl
  | inr room ↦
      rw (full_test k r, room)
        (let ne : (k.input_head + 1) % 128 ≢ k.input_tail = λ e. ground (arith, room, e) in
          unfolded k c r ne)
]

queue-empty : (k : Keyboard) → IsRing k → k.input_tail ≡ k.input_head → queue k ≡ []
unfolding queue distance items
queue-empty k r e =
    let none_left : distance k.input_tail k.input_head ≡ 0 = omega (arith, e, r.head_bound) in
    λ j. items k.input_buffer k.input_tail (none_left j)

queue-read :
    (k : Keyboard)
    → IsRing k
    → k.input_tail ≢ k.input_head
    → (first (queue k) ≡ some (get_or k.input_buffer k.input_tail 0))
      × (queue (record k { input_tail = (k.input_tail + 1) % 128 }) ≡ rest (queue k))
unfolding queue distance
queue-read k r ne =
    let hb = r.head_bound in
    let tb = r.tail_bound in
    let n = distance k.input_tail k.input_head in
    let some_left : 0 < n = omega (arith, ne, hb, tb) in
    let less : distance ((k.input_tail + 1) % 128) k.input_head ≡ n - 1 =
      omega (arith, ne, hb, tb) in
    (
      first-items k.input_buffer k.input_tail n some_left,
      (λ j. items k.input_buffer ((k.input_tail + 1) % 128) (less j))
          ∙ sym (rest-items k.input_buffer k.input_tail n some_left),
    )

-- On a ring whose indices are in bounds, keyboard_try_read with a destination returns the first
-- character of the queue, and nothing if the queue is empty; it leaves the rest of the queue, with
-- indices in bounds.
pub keyboard_try_read_lem :
    (k : Keyboard)
    → IsRing k
    → ((keyboard_try_read true k).0 ≡ first (queue k))
      × (queue (keyboard_try_read true k).1 ≡ rest (queue k))
      × IsRing (keyboard_try_read true k).1
unfolding keyboard_try_read first rest
keyboard_try_read_lem k r = elim (Bool-cases (k.input_tail == k.input_head)) [
  | inl empty ↦ rw empty (
      let nil = queue-empty k r (ground (arith, empty)) in
      (sym (ap first nil), nil ∙ sym (ap rest nil), r))
  | inr waits ↦ rw waits (
      let (head, tail) = queue-read k r (λ e. ground (arith, waits, e)) in
      (
        sym head,
        tail,
        record { size = r.size; head_bound = r.head_bound; tail_bound = omega arith },
      ))
]
