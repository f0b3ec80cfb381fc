-- ===== src/Drivers/Keyboard/Decode.antt =====
-- The scancode decoder of kernel/drivers/keyboard.c.
use mini_orange_os.Drivers.Keyboard.{
  Keyboard, handle_plain, push_nonzero, keyboard_handle_extended, extended_character,
  plain_character, keyboard_handle_irq, ascii_is_letter, differ, normal_map,
}
use mini_orange_os.Prelude.{
  ltb, ◌==◌, if◌then◌else◌, Bool-cases, holds_below, holds_below_at, length, get_or, ℕ, ◌-◌, ◌%◌,
  ◌<◌, ◌≡◌, refl, sym, ap, ◌∙◌, ◌≢◌, ◌⊎◌, inl, inr, Bool, true, false, ◌&&◌, ◌||◌, not, List, [],
  ◌∷◌, ◌++◌, arith,
}
use mini_orange_os.Drivers.Keyboard.Queue.{
  IsRing, IsRing-keyboard_buffer_push, queue, keyboard_buffer_push_lem, items, distance,
}

IsRing-push_nonzero : (k : Keyboard) (c : ℕ) → IsRing k → IsRing (push_nonzero c k)
unfolding push_nonzero
IsRing-push_nonzero k c r = elim (Bool-cases (c == 0)) [
  | inl nul ↦ rw nul r
  | inr char ↦ rw char (IsRing-keyboard_buffer_push k c r)
]

-- The ring of a keyboard whose other fields changed.
IsRing-same :
    (k k' : Keyboard)
    → IsRing k
    → k'.input_buffer ≡ k.input_buffer
    → k'.input_head ≡ k.input_head
    → k'.input_tail ≡ k.input_tail
    → IsRing k'
IsRing-same k k' r b h t = record {
  size = ap length b ∙ r.size;
  head_bound = omega (arith, h, r.head_bound);
  tail_bound = omega (arith, t, r.tail_bound);
}

IsRing-keyboard_handle_extended :
    (s : ℕ) (k : Keyboard) → IsRing k → IsRing (keyboard_handle_extended s k)
unfolding keyboard_handle_extended
IsRing-keyboard_handle_extended s k r =
    let r1 = IsRing-push_nonzero k (extended_character (s % 128)) r in
    let r2 = IsRing-same k (record k { right_ctrl_pressed = ltb s 128 }) r refl refl refl in
    ground (arith, r, r1, r2)

IsRing-handle_plain : (s : ℕ) (k : Keyboard) → IsRing k → IsRing (handle_plain s k)
unfolding handle_plain
IsRing-handle_plain s k r =
    let same = λ (k' : Keyboard). IsRing-same k k' r in
    let r0 =
      IsRing-push_nonzero k
        (plain_character (k.left_shift_pressed || k.right_shift_pressed)
          (k.left_ctrl_pressed || k.right_ctrl_pressed) k.caps_lock (s % 128))
        r in
    let r1 = IsRing-same k (record k { left_shift_pressed = ltb s 128 }) r refl refl refl in
    let r2 = IsRing-same k (record k { right_shift_pressed = ltb s 128 }) r refl refl refl in
    let r3 = IsRing-same k (record k { left_ctrl_pressed = ltb s 128 }) r refl refl refl in
    let r4 = IsRing-same k (record k { caps_lock = not k.caps_lock }) r refl refl refl in
    ground (arith, r, r0, r1, r2, r3, r4)

-- On a ring whose indices are in bounds, keyboard_handle_irq keeps them in bounds, whatever the ports read.
pub IsRing-keyboard_handle_irq :
    (status s : ℕ) (k : Keyboard) → IsRing k → IsRing (keyboard_handle_irq status s k)
unfolding keyboard_handle_irq
IsRing-keyboard_handle_irq status s k r =
    let r1 =
      IsRing-same k (record k { pause_bytes_remaining = k.pause_bytes_remaining - 1 }) r refl refl
        refl in
    let r2 =
      IsRing-same k (record k { pause_bytes_remaining = 5; extended_scancode = false }) r refl refl
        refl in
    let r3 = IsRing-same k (record k { extended_scancode = true }) r refl refl refl in
    let r4 =
      IsRing-keyboard_handle_extended s (record k { extended_scancode = false })
        (IsRing-same k (record k { extended_scancode = false }) r refl refl refl) in
    let r5 = IsRing-handle_plain s k r in ground (arith, r, r1, r2, r3, r4, r5)

-- The interrupts of a list of bytes of the keyboard.
pub handle_bytes : List ℕ → Keyboard → Keyboard
handle_bytes [] k = k
handle_bytes (s ∷ ss) k = handle_bytes ss (keyboard_handle_irq 1 s k)

swallows :
    (bytes : List ℕ) (k : Keyboard)
    → length bytes ≡ k.pause_bytes_remaining
    → handle_bytes bytes k ≡ record k { pause_bytes_remaining = 0 }
unfolding handle_bytes keyboard_handle_irq
swallows [] k h = λ j. record k { pause_bytes_remaining = sym h j }
swallows (s ∷ ss) k h =
    let on : ltb 0 k.pause_bytes_remaining ≡ true = ground (arith, h) in
    rw on (
      swallows ss (record k { pause_bytes_remaining = k.pause_bytes_remaining - 1 })
        (omega (arith, h)))

-- The six bytes of the Pause key, 0xE1 and any five, arriving outside such a sequence, put no character
-- into the ring and leave the whole state as it was, but for a pending 0xE0 prefix, which is dropped.
pub pause-handle_bytes :
    (bytes : List ℕ) (k : Keyboard)
    → length bytes ≡ 5
    → k.pause_bytes_remaining ≡ 0
    → handle_bytes (0xE1 ∷ bytes) k ≡ record k { extended_scancode = false }
unfolding handle_bytes keyboard_handle_irq
pause-handle_bytes bytes k five outside =
    let off : ltb 0 k.pause_bytes_remaining ≡ false = ground (arith, outside) in
    rw off (
      swallows bytes (record k { pause_bytes_remaining = 5; extended_scancode = false }) five
      ∙ (λ j. record k { extended_scancode = false; pause_bytes_remaining = sym outside j }))

letter_ok : Bool → Bool → ℕ → Bool
letter_ok shift caps code =
    not (ascii_is_letter (get_or normal_map code 0))
    || (plain_character shift false caps code
        == (if differ shift caps then get_or normal_map code 0 - 32 else get_or normal_map code 0))
      && (plain_character shift true caps code == get_or normal_map code 0 - 96)

letter_table : (shift caps : Bool) → holds_below 128 (letter_ok shift caps) ≡ true
unfolding letter_ok holds_below ascii_is_letter plain_character differ
letter_table false false = refl
letter_table false true = refl
letter_table true false = refl
letter_table true true = refl

-- For every key whose entry in normal_map is a letter: without Ctrl the character is that letter, in
-- upper case exactly if one of Shift and Caps Lock is on but not both; with Ctrl it is its control code,
-- 1 for `a` to 26 for `z`, whatever Shift and Caps Lock say.
pub plain_character-letter :
    (shift caps : Bool) (code : ℕ)
    → code < 128
    → ascii_is_letter (get_or normal_map code 0) ≡ true
    → (plain_character shift false caps code
        ≡ (if differ shift caps then get_or normal_map code 0 - 32 else get_or normal_map code 0))
      × (plain_character shift true caps code ≡ get_or normal_map code 0 - 96)
unfolding letter_ok
plain_character-letter shift caps code bound letter =
    let ok = holds_below_at 128 (letter_ok shift caps) code (letter_table shift caps) bound in
    (ground (arith, ok, letter), ground (arith, ok, letter))

-- What one interrupt does to the queue of a keyboard.
pub Queued : Keyboard → Keyboard → Type 0
Queued k k' =
    (queue k' ≡ queue k)
    ⊎ ((c : ℕ) × (c ≢ 0) × (length (queue k) ≢ 127) × (queue k' ≡ queue k ++ (c ∷ [])))

Queued-push_nonzero : (k : Keyboard) (c : ℕ) → IsRing k → Queued k (push_nonzero c k)
unfolding push_nonzero Queued
Queued-push_nonzero k c r =
    let pushed = keyboard_buffer_push_lem k c r in
    elim (Bool-cases (c == 0)) [
      | inl nul ↦ rw nul (inl refl)
      | inr char ↦ rw char (elim (Bool-cases (length (queue k) == 127)) [
        | inl full ↦ inl (pushed ∙ (rw full refl))
        | inr room ↦ inr (
          c,
          (λ e. ground (arith, char, e)),
          (λ e. ground (arith, room, e)),
          pushed ∙ (rw room refl),
        )
      ])
    ]

same_queue :
    (k k' : Keyboard)
    → k'.input_buffer ≡ k.input_buffer
    → k'.input_head ≡ k.input_head
    → k'.input_tail ≡ k.input_tail
    → Queued k k'
unfolding Queued queue
same_queue k k' b h t = inl (λ j. items (b j) (t j) (distance (t j) (h j)))

Queued-keyboard_handle_extended :
    (s : ℕ) (k : Keyboard) → IsRing k → Queued k (keyboard_handle_extended s k)
unfolding keyboard_handle_extended
Queued-keyboard_handle_extended s k r =
    let q1 = Queued-push_nonzero k (extended_character (s % 128)) r in
    let q2 = same_queue k (record k { right_ctrl_pressed = ltb s 128 }) refl refl refl in
    let q3 = same_queue k k refl refl refl in ground (arith, q1, q2, q3)

Queued-handle_plain : (s : ℕ) (k : Keyboard) → IsRing k → Queued k (handle_plain s k)
unfolding handle_plain
Queued-handle_plain s k r =
    let q0 =
      Queued-push_nonzero k
        (plain_character (k.left_shift_pressed || k.right_shift_pressed)
          (k.left_ctrl_pressed || k.right_ctrl_pressed) k.caps_lock (s % 128))
        r in
    let q1 = same_queue k (record k { left_shift_pressed = ltb s 128 }) refl refl refl in
    let q2 = same_queue k (record k { right_shift_pressed = ltb s 128 }) refl refl refl in
    let q3 = same_queue k (record k { left_ctrl_pressed = ltb s 128 }) refl refl refl in
    let q4 = same_queue k (record k { caps_lock = not k.caps_lock }) refl refl refl in
    let q5 = same_queue k k refl refl refl in ground (arith, q0, q1, q2, q3, q4, q5)

unprefixed : (k k' : Keyboard) → Queued (record k { extended_scancode = false }) k' → Queued k k'
unfolding Queued queue
unprefixed k k' q = q

-- On a ring whose indices are in bounds, an interrupt leaves the queue of characters as it is, or appends
-- one character, which is not NUL and finds fewer than 127 waiting; no waiting character is lost.
pub Queued-keyboard_handle_irq :
    (status s : ℕ) (k : Keyboard) → IsRing k → Queued k (keyboard_handle_irq status s k)
unfolding keyboard_handle_irq
Queued-keyboard_handle_irq status s k r =
    let q0 = same_queue k k refl refl refl in
    let q1 =
      same_queue k (record k { pause_bytes_remaining = k.pause_bytes_remaining - 1 }) refl refl
        refl in
    let q2 =
      same_queue k (record k { pause_bytes_remaining = 5; extended_scancode = false }) refl refl
        refl in
    let q3 = same_queue k (record k { extended_scancode = true }) refl refl refl in
    let q4 = unprefixed k (keyboard_handle_extended s (record k { extended_scancode = false })) (
      Queued-keyboard_handle_extended s (record k { extended_scancode = false })
        (IsRing-same k (record k { extended_scancode = false }) r refl refl refl)) in
    let q5 = Queued-handle_plain s k r in ground (arith, q0, q1, q2, q3, q4, q5)
