-- ===== src/Keyboard/Tests.antt =====
-- Runs of the driver of drivers/hid/pstwo/keybrd/keypstwo.c, and its theorems at inputs that meet
-- their hypotheses.
use vsnx_os.Base.{
  ℕ, ◌+◌, ◌≤◌, ◌≡◌, refl, none, some, true, false, ◌++◌, List, [], ◌∷◌, length, arith,
}
use vsnx_os.Keyboard.{
  Keyboard, keyboard_buffer_empty, getchar, ps2_keyboard_interrupt_handler, handle_scancode,
  handle_special_key, handle_extended_scancode, extended_key, handle_ascii, keyboard_buffer_put,
  keyboard_buffer_get, with_ctrl,
}
use vsnx_os.Keyboard.Layout.{scancode_to_ascii, table_entry}
use vsnx_os.Keyboard.Ring.{contents, kept, window}
use vsnx_os.Keyboard.Typing.{type_all, typed_all, contents-type_all}
use vsnx_os.Keyboard.Reads.{KeyEvent, interrupt, read, after, IsReadable, getchar-after}
use vsnx_os.Keyboard.Combos.{letter, is_letter, handler-letter}
use vsnx_os.Keyboard.Controller.{
  Ports, device_none, device_type, ps2_keyboard_init, ps2_identify_device,
}
use vsnx_os.Keyboard.Waits.{ports_accesses}
use vsnx_os.Keyboard.Hooks.{ps2_hook_get_modifiers, ps2_hook_get_key}

abbrev fresh : Keyboard
fresh = record {
  keyboard_state = record {
    shift_pressed = false;
    ctrl_pressed = false;
    alt_pressed = false;
    caps_lock = false;
    num_lock = true;
    scroll_lock = false;
    last_scancode = 0;
  };
  input_buffer = record { buffer = λ i. 0; head = 0; tail = 0; count = 0 };
  extended_scancode = false;
  printed = [];
}

fresh-IsReadable : IsReadable fresh
unfolding window
fresh-IsReadable = record { valid = ground arith; no_zero = tt }

-- Shift, a, release both, b, ctrl, c, and the arrow to the left.
abbrev stream : List ℕ
stream =
    0x2A ∷ 0x1E ∷ 0x9E ∷ 0xAA ∷ 0x30 ∷ 0xB0 ∷ 0x1D ∷ 0x2E ∷ 0xAE ∷ 0x9D ∷ 0xE0 ∷ 0x4B ∷ 0xE0 ∷ 0xCB
    ∷ []

type_all-stream : contents (type_all stream fresh).input_buffer ≡ 65 ∷ 98 ∷ 3 ∷ 2 ∷ []
unfolding ps2_keyboard_interrupt_handler handle_scancode handle_special_key handle_extended_scancode
    extended_key handle_ascii keyboard_buffer_put with_ctrl scancode_to_ascii table_entry window
type_all-stream = refl

-- With both shift keys down, the release of one ends the shift.
both_shifts : (type_all (0x2A ∷ 0x36 ∷ 0xAA ∷ []) fresh).keyboard_state.shift_pressed ≡ false
unfolding ps2_keyboard_interrupt_handler handle_scancode handle_special_key handle_ascii
    scancode_to_ascii table_entry
both_shifts = refl

-- The bytes of the pause key switch num lock.
pause_key :
    (type_all (0xE1 ∷ 0x1D ∷ 0x45 ∷ 0xE1 ∷ 0x9D ∷ 0xC5 ∷ []) fresh).keyboard_state.num_lock ≡ false
unfolding ps2_keyboard_interrupt_handler handle_scancode handle_special_key handle_ascii
    scancode_to_ascii table_entry
pause_key = refl

-- A mouse that answers with the one byte 0x00 is not recognised.
one_byte : device_type (some 0) none ≡ device_none
unfolding device_type
one_byte = refl

modifiers : (ps2_hook_get_modifiers 0 (type_all (0x2A ∷ 0x38 ∷ []) fresh)).0 ≡ 5
unfolding ps2_hook_get_modifiers ps2_keyboard_interrupt_handler handle_scancode handle_special_key
    handle_ascii scancode_to_ascii table_entry
modifiers = refl

hook_get_key : (ps2_hook_get_key 9 (type_all (0x1E ∷ []) fresh)).0 ≡ 97
unfolding ps2_hook_get_key ps2_keyboard_interrupt_handler handle_scancode handle_special_key
    handle_ascii scancode_to_ascii table_entry keyboard_buffer_put keyboard_buffer_get
    keyboard_buffer_empty with_ctrl
hook_get_key = refl

contents-type_all_example :
    contents (type_all stream fresh).input_buffer
    ≡ kept (contents fresh.input_buffer ++ typed_all stream fresh)
contents-type_all_example = contents-type_all stream fresh (fresh-IsReadable.valid)

-- The one character is read, so that nothing waits.
abbrev all_read : List KeyEvent
all_read = interrupt 0x1E ∷ read ∷ []

nothing_waits : (getchar (after all_read fresh)).0 ≡ 0
unfolding after getchar ps2_keyboard_interrupt_handler handle_scancode handle_special_key
    handle_ascii keyboard_buffer_put keyboard_buffer_get with_ctrl scancode_to_ascii table_entry
nothing_waits = refl

getchar-after_example : keyboard_buffer_empty (after all_read fresh).input_buffer ≡ true
getchar-after_example = getchar-after all_read fresh-IsReadable nothing_waits

is_letter-a : is_letter 0x1E ≡ true
unfolding table_entry
is_letter-a = refl

handler-letter_example :
    contents (ps2_keyboard_interrupt_handler 0x1E fresh).input_buffer
    ≡ contents fresh.input_buffer ++ (letter 0x1E fresh.keyboard_state ∷ [])
handler-letter_example =
    handler-letter 0x1E fresh (omega arith) is_letter-a refl (fresh-IsReadable.valid) (omega arith)

-- Hardware that never has an answer, and always takes bytes.
abbrev silent : Ports
silent port l = 0

ports_accesses_example :
    (length (ps2_keyboard_init silent 1 fresh []).1 ≤ 0 + 2200015)
    × (length (ps2_identify_device silent 1 []).1 ≤ 0 + 1100011)
ports_accesses_example = ports_accesses silent 1 fresh []
