-- ===== src/Drivers/Keyboard/Tests.antt =====
-- kernel/drivers/keyboard.c on a fresh keyboard and on one that holds a character.
use mini_orange_os.Drivers.Keyboard.Decode.{Queued, Queued-keyboard_handle_irq}
use mini_orange_os.Drivers.Keyboard.Queue.{
  queue, IsRing, first, keyboard_buffer_push_lem, rest, keyboard_try_read_lem,
  IsRing-keyboard_buffer_push,
}
use mini_orange_os.Prelude.{
  ◌==◌, if◌then◌else◌, length, get_or, replicate, ◌≡◌, refl, true, false, some, [], ◌∷◌, ◌++◌,
  arith,
}
use mini_orange_os.Drivers.Keyboard.{
  Keyboard, keyboard_buffer_push, keyboard_handle_irq, differ, keyboard_try_read, ascii_is_letter,
  plain_character, handle_plain, normal_map, push_nonzero,
}

abbrev fresh : Keyboard
fresh = record {
  input_buffer = replicate 128 0;
  input_head = 0;
  input_tail = 0;
  left_shift_pressed = false;
  right_shift_pressed = false;
  left_ctrl_pressed = false;
  right_ctrl_pressed = false;
  caps_lock = false;
  extended_scancode = false;
  pause_bytes_remaining = 0;
}

fresh-IsRing : IsRing fresh
fresh-IsRing = record { size = refl; head_bound = omega arith; tail_bound = omega arith }

-- Shift and the key A put an upper-case letter into the ring.
shifted_a :
    (keyboard_try_read true (keyboard_handle_irq 1 0x1E (keyboard_handle_irq 1 0x2A fresh))).0
    ≡ some 65
unfolding keyboard_try_read keyboard_handle_irq handle_plain push_nonzero keyboard_buffer_push
    plain_character ascii_is_letter differ
shifted_a = refl

keyboard_buffer_push_lem_example :
    queue (keyboard_buffer_push 65 fresh)
    ≡ (if length (queue fresh) == 127 then queue fresh else queue fresh ++ (65 ∷ []))
keyboard_buffer_push_lem_example = keyboard_buffer_push_lem fresh 65 fresh-IsRing

keyboard_try_read_lem_example :
    ((keyboard_try_read true (keyboard_buffer_push 65 fresh)).0
      ≡ first (queue (keyboard_buffer_push 65 fresh)))
    × (queue (keyboard_try_read true (keyboard_buffer_push 65 fresh)).1
        ≡ rest (queue (keyboard_buffer_push 65 fresh)))
    × IsRing (keyboard_try_read true (keyboard_buffer_push 65 fresh)).1
keyboard_try_read_lem_example =
    keyboard_try_read_lem (keyboard_buffer_push 65 fresh)
      (IsRing-keyboard_buffer_push fresh 65 fresh-IsRing)

Queued-keyboard_handle_irq_example : Queued fresh (keyboard_handle_irq 1 0x1E fresh)
Queued-keyboard_handle_irq_example = Queued-keyboard_handle_irq 1 0x1E fresh fresh-IsRing

a_is_letter : ascii_is_letter (get_or normal_map 0x1E 0) ≡ true
unfolding ascii_is_letter
a_is_letter = refl
