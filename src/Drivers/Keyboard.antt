-- ===== src/Drivers/Keyboard.antt =====
-- kernel/drivers/keyboard.c: the scancode decoder and the ring of decoded characters. The two ports the
-- handler reads are its arguments. `code` is the scancode without the release bit, `% 128` of a byte.
-- keyboard_init's dialogue with the PS/2 controller is not modelled, only the state it sets.
pub mod Queue
pub mod Decode
mod Tests
use mini_orange_os.Prelude.{
  ltb, leb, ◌==◌, if◌then◌else◌, get_or, set, replicate, ℕ, ◌+◌, ◌-◌, ◌/◌, ◌%◌, Bool, true, false,
  ◌&&◌, ◌||◌, not, Option, none, some, List, ◌∷◌,
}

-- Index 0x39, the last that is not zero, is in the fourth line.
abbrev pub normal_map : List ℕ
normal_map =
    0
    ∷ 27
    ∷ 49
    ∷ 50
    ∷ 51
    ∷ 52
    ∷ 53
    ∷ 54
    ∷ 55
    ∷ 56
    ∷ 57
    ∷ 48
    ∷ 45
    ∷ 61
    ∷ 8
    ∷ 9
    ∷ 113
    ∷ 119
    ∷ 101
    ∷ 114
    ∷ 116
    ∷ 121
    ∷ 117
    ∷ 105
    ∷ 111
    ∷ 112
    ∷ 91
    ∷ 93
    ∷ 10
    ∷ 0
    ∷ 97
    ∷ 115
    ∷ 100
    ∷ 102
    ∷ 103
    ∷ 104
    ∷ 106
    ∷ 107
    ∷ 108
    ∷ 59
    ∷ 39
    ∷ 96
    ∷ 0
    ∷ 92
    ∷ 122
    ∷ 120
    ∷ 99
    ∷ 118
    ∷ 98
    ∷ 110
    ∷ 109
    ∷ 44
    ∷ 46
    ∷ 47
    ∷ 0
    ∷ 0
    ∷ 0
    ∷ 32
    ∷ 0
    ∷ 0
    ∷ 0
    ∷ 0
    ∷ 0
    ∷ 0
    ∷ replicate 64 0

abbrev pub shifted_map : List ℕ
shifted_map =
    0
    ∷ 0
    ∷ 33
    ∷ 64
    ∷ 35
    ∷ 36
    ∷ 37
    ∷ 94
    ∷ 38
    ∷ 42
    ∷ 40
    ∷ 41
    ∷ 95
    ∷ 43
    ∷ 0
    ∷ 0
    ∷ 0
    ∷ 0
    ∷ 0
    ∷ 0
    ∷ 0
    ∷ 0
    ∷ 0
    ∷ 0
    ∷ 0
    ∷ 0
    ∷ 123
    ∷ 125
    ∷ 0
    ∷ 0
    ∷ 0
    ∷ 0
    ∷ 0
    ∷ 0
    ∷ 0
    ∷ 0
    ∷ 0
    ∷ 0
    ∷ 0
    ∷ 58
    ∷ 34
    ∷ 126
    ∷ 0
    ∷ 124
    ∷ 0
    ∷ 0
    ∷ 0
    ∷ 0
    ∷ 0
    ∷ 0
    ∷ 0
    ∷ 60
    ∷ 62
    ∷ 63
    ∷ 0
    ∷ 0
    ∷ 0
    ∷ 0
    ∷ 0
    ∷ 0
    ∷ 0
    ∷ 0
    ∷ 0
    ∷ 0
    ∷ replicate 64 0

pub record Keyboard : Type 0 where
  pub input_buffer : List ℕ
  pub input_head : ℕ
  pub input_tail : ℕ
  pub left_shift_pressed : Bool
  pub right_shift_pressed : Bool
  pub left_ctrl_pressed : Bool
  pub right_ctrl_pressed : Bool
  pub caps_lock : Bool
  pub extended_scancode : Bool
  pub pause_bytes_remaining : ℕ

-- The assignments at the head of keyboard_init.
pub reset : Keyboard → Keyboard
reset k = record k {
  input_head = 0;
  input_tail = 0;
  left_shift_pressed = false;
  right_shift_pressed = false;
  left_ctrl_pressed = false;
  right_ctrl_pressed = false;
  caps_lock = false;
  extended_scancode = false;
  pause_bytes_remaining = 0;
}

-- `!=` on bool.
pub differ : Bool → Bool → Bool
differ a b = if a then not b else b

-- A character of the tables is 7-bit, so the sign of `char` does not matter.
pub ascii_is_letter : ℕ → Bool
ascii_is_letter character = leb 97 character && leb character 122

pub keyboard_buffer_push : ℕ → Keyboard → Keyboard
keyboard_buffer_push character k =
    let next = (k.input_head + 1) % 128 in
    if next == k.input_tail
    then k
    else record k { input_buffer = set k.input_buffer k.input_head character; input_head = next }

-- `character` of the switch of keyboard_handle_extended.
pub extended_character : ℕ → ℕ
extended_character code =
    if code == 0x1C
    then 10
    else if code == 0x35
    then 47
    else if code == 0x47
    then 0x84
    else if code == 0x48
    then 0x82
    else if code == 0x4B
    then 0x80
    else if code == 0x4D
    then 0x81
    else if code == 0x4F
    then 0x85
    else if code == 0x50
    then 0x83
    else if code == 0x53
    then 0x7F
    else 0

pub push_nonzero : ℕ → Keyboard → Keyboard
push_nonzero character k = if not (character == 0) then keyboard_buffer_push character k else k

pub keyboard_handle_extended : ℕ → Keyboard → Keyboard
keyboard_handle_extended scancode k =
    let code = scancode % 128 in
    let pressed = ltb scancode 128 in
    if code == 0x1D
    then record k { right_ctrl_pressed = pressed }
    else if not pressed || (code == 0x2A) || (code == 0x36)
    then k
    else push_nonzero (extended_character code) k

-- `character` of keyboard_handle_irq once no modifier key was seen.
pub plain_character : Bool → Bool → Bool → ℕ → ℕ
plain_character shift_pressed ctrl_pressed caps_lock code =
    let normal = get_or normal_map code 0 in
    let shifted = get_or shifted_map code 0 in
    let chosen = if shift_pressed && not (shifted == 0) then shifted else normal in
    let controlled = if ctrl_pressed && ascii_is_letter normal then normal - 97 + 1 else chosen in
    if ascii_is_letter controlled && differ shift_pressed caps_lock
    then controlled - 97 + 65
    else controlled

-- The end of keyboard_handle_irq: a scancode after no prefix.
pub handle_plain : ℕ → Keyboard → Keyboard
handle_plain scancode k =
    let code = scancode % 128 in
    let pressed = ltb scancode 128 in
    if code == 0x2A
    then record k { left_shift_pressed = pressed }
    else if code == 0x36
    then record k { right_shift_pressed = pressed }
    else if code == 0x1D
    then record k { left_ctrl_pressed = pressed }
    else if not pressed
    then k
    else if code == 0x3A
    then record k { caps_lock = not k.caps_lock }
    else push_nonzero
        (plain_character (k.left_shift_pressed || k.right_shift_pressed)
          (k.left_ctrl_pressed || k.right_ctrl_pressed) k.caps_lock code)
        k

-- keyboard_handle_irq on the byte of the status port and the byte of the data port: bit 0 of the status
-- says that a byte waits, bit 5 that it is the auxiliary device's.
pub keyboard_handle_irq : ℕ → ℕ → Keyboard → Keyboard
keyboard_handle_irq status scancode k =
    if status % 2 == 0
    then k
    else if not (status / 32 % 2 == 0)
    then k
    else if ltb 0 k.pause_bytes_remaining
    then record k { pause_bytes_remaining = k.pause_bytes_remaining - 1 }
    else if scancode == 0xE1
    then record k { pause_bytes_remaining = 5; extended_scancode = false }
    else if scancode == 0xE0
    then record k { extended_scancode = true }
    else if k.extended_scancode
    then keyboard_handle_extended scancode (record k { extended_scancode = false })
    else handle_plain scancode k

-- keyboard_try_read; `destination` says whether the pointer is not NULL.
pub keyboard_try_read : Bool → Keyboard → Option ℕ × Keyboard
keyboard_try_read destination k =
    if not destination || (k.input_tail == k.input_head) then (none, k) else (
      some (get_or k.input_buffer k.input_tail 0),
      record k { input_tail = (k.input_tail + 1) % 128 },
    )
