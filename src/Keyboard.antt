-- ===== src/Keyboard.antt =====
-- The PS/2 keyboard driver of drivers/hid/pstwo/keybrd/keypstwo.c: the input buffer, the keys that
-- it interprets itself, the interrupt handler and what the driver offers the kernel by hooks.
pub mod Layout
pub mod Ring
pub mod Typing
pub mod Reads
pub mod Combos
pub mod Controller
pub mod Waits
pub mod Hooks
mod Tests
use vsnx_os.Base.{
  ℕ, ◌+◌, ◌-◌, ◌%◌, Bool, true, false, not, ◌&&◌, ◌||◌, ltb, ◌==◌, if◌then◌else◌, List, [], ◌++◌,
  ◌∷◌,
}
use vsnx_os.Keyboard.Layout.{scancode_to_ascii, is_lower, is_upper}

-- `keyboard_state_t`
pub record KeyboardState : Type 0 where
  pub shift_pressed : Bool
  pub ctrl_pressed : Bool
  pub alt_pressed : Bool
  pub caps_lock : Bool
  pub num_lock : Bool
  pub scroll_lock : Bool
  pub last_scancode : ℕ

abbrev pub keyboard_buffer_size : ℕ
keyboard_buffer_size = 256

-- `keyboard_buffer_t`
pub record KeyboardBuffer : Type 0 where
  pub buffer : ℕ → ℕ
  pub head : ℕ
  pub tail : ℕ
  pub count : ℕ

-- The lines that the driver prints.
pub data Message : Type 0 where
  page_up page_down insert : Message

-- The driver's globals, and what it printed.
pub record Keyboard : Type 0 where
  pub keyboard_state : KeyboardState
  pub input_buffer : KeyboardBuffer
  pub extended_scancode : Bool
  pub printed : List Message

unfoldable pub keyboard_buffer_put : ℕ → KeyboardBuffer → KeyboardBuffer
keyboard_buffer_put c b =
    if ltb b.count keyboard_buffer_size
    then record {
      buffer = λ i. if i == b.head then c else b.buffer i;
      head = (b.head + 1) % keyboard_buffer_size;
      tail = b.tail;
      count = b.count + 1;
    }
    else b

unfoldable pub keyboard_buffer_get : KeyboardBuffer → ℕ × KeyboardBuffer
keyboard_buffer_get b =
    if ltb 0 b.count
    then (
      b.buffer b.tail,
      record b { tail = (b.tail + 1) % keyboard_buffer_size; count = b.count - 1 },
    )
    else (0, b)

unfoldable pub keyboard_buffer_empty : KeyboardBuffer → Bool
keyboard_buffer_empty b = b.count == 0

pub keyboard_buffer_available : KeyboardBuffer → ℕ
keyboard_buffer_available b = b.count

-- The function keys F1 to F12 (0x3B to 0x44, 0x57, 0x58) do nothing.
unfoldable pub handle_special_key :
    (scancode : ℕ) (key_pressed : Bool) → KeyboardState → KeyboardState
handle_special_key scancode key_pressed s =
    if scancode == 0x2A || scancode == 0x36
    then record s { shift_pressed = key_pressed }
    else if scancode == 0x1D
    then record s { ctrl_pressed = key_pressed }
    else if scancode == 0x38
    then record s { alt_pressed = key_pressed }
    else if scancode == 0x3A
    then if key_pressed then record s { caps_lock = not s.caps_lock } else s
    else if scancode == 0x45
    then if key_pressed then record s { num_lock = not s.num_lock } else s
    else if scancode == 0x46
    then if key_pressed then record s { scroll_lock = not s.scroll_lock } else s
    else s

-- What a key behind 0xE0 does when it is pressed.
pub data Extended : Type 0 where
  control alternate nothing : Extended
  character : ℕ → Extended
  message : Message → Extended

unfoldable pub extended_key : ℕ → Extended
extended_key scancode =
    if scancode == 0x1D
    then control
    else if scancode == 0x38
    then alternate
    else if scancode == 0x47
    then character 0x01
    else if scancode == 0x48
    then character 0x1B
    else if scancode == 0x49
    then message page_up
    else if scancode == 0x4B
    then character 0x02
    else if scancode == 0x4D
    then character 0x06
    else if scancode == 0x4F
    then character 0x05
    else if scancode == 0x50
    then character 0x0E
    else if scancode == 0x51
    then message page_down
    else if scancode == 0x52
    then message insert
    else if scancode == 0x53
    then character 0x7F
    else nothing

unfoldable pub handle_extended_scancode : (scancode : ℕ) (key_pressed : Bool) → Keyboard → Keyboard
handle_extended_scancode scancode key_pressed k = elim (extended_key scancode) [
  | control ↦ record k { keyboard_state = record k.keyboard_state { ctrl_pressed = key_pressed } }
  | alternate ↦ record k { keyboard_state = record k.keyboard_state { alt_pressed = key_pressed } }
  | nothing ↦ k
  | character c ↦
      if key_pressed then record k { input_buffer = keyboard_buffer_put c k.input_buffer } else k
  | message m ↦ if key_pressed then record k { printed = k.printed ++ (m ∷ []) } else k
]

-- The character that a combination with ctrl stands for.
unfoldable pub with_ctrl : (ctrl_pressed : Bool) → ℕ → ℕ
with_ctrl ctrl_pressed ascii =
    if ctrl_pressed && is_lower ascii
    then ascii - 97 + 1
    else if ctrl_pressed && is_upper ascii
    then ascii - 65 + 1
    else ascii

-- The end of the handler: a key that was pressed is stored if it has a character.
unfoldable pub handle_ascii : (key : ℕ) → Keyboard → Keyboard
handle_ascii key k =
    let s = k.keyboard_state in
    let ascii = scancode_to_ascii s.shift_pressed s.caps_lock key in
    if ascii == 0 then k else record k {
      input_buffer = keyboard_buffer_put (with_ctrl s.ctrl_pressed ascii) k.input_buffer;
    }

-- The handler behind the test for 0xE0: `scancode & 0x80` is set for a key that is released.
unfoldable pub handle_scancode : (scancode : ℕ) → Keyboard → Keyboard
handle_scancode scancode k =
    let key_pressed = ltb scancode 0x80 in
    let key = scancode % 0x80 in
    let s = record k.keyboard_state { last_scancode = scancode } in
    let seen = record k { keyboard_state = s } in
    if k.extended_scancode
    then record (handle_extended_scancode key key_pressed seen) { extended_scancode = false }
    else let special = record seen { keyboard_state = handle_special_key key key_pressed s } in
      if key_pressed then handle_ascii key special else special

-- The handler, given the byte that it reads from the data port.
unfoldable pub ps2_keyboard_interrupt_handler : (scancode : ℕ) → Keyboard → Keyboard
ps2_keyboard_interrupt_handler scancode k =
    if scancode == 0xE0 then record k { extended_scancode = true } else handle_scancode scancode k

unfoldable pub getchar : Keyboard → ℕ × Keyboard
getchar k = let (c, b) = keyboard_buffer_get k.input_buffer in (c, record k { input_buffer = b })

pub kbhit : Keyboard → Bool
kbhit k = not (keyboard_buffer_empty k.input_buffer)

pub checkbuffer : Keyboard → ℕ
checkbuffer k = keyboard_buffer_available k.input_buffer

unfoldable pub kbflush : Keyboard → Keyboard
kbflush k = record k { input_buffer = record k.input_buffer { head = 0; tail = 0; count = 0 } }
