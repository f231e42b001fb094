-- ===== src/Keyboard/Combos.antt =====
-- What the modifiers make of the keys.
use native.Mathlib.Nat.{mod-eq_of_lt}
use vsnx_os.Base.{
  take_all, length-append, ap, ◌∙◌, ◌++◌, ◌||◌, ℕ, ◌+◌, ◌-◌, ◌<◌, ◌≡◌, refl, Bool, true, false, not,
  ◌&&◌, leb, ◌==◌, if◌then◌else◌, [], ◌∷◌, arith,
}
use vsnx_os.Base.Bits.{holds_under, from_table}
use vsnx_os.Keyboard.Layout.{
  scancode_to_ascii_normal, scancode_to_ascii_shift, table_entry, scancode_to_ascii, is_lower,
}
use vsnx_os.Keyboard.{
  KeyboardState, Keyboard, keyboard_buffer_size, handle_special_key, with_ctrl,
  ps2_keyboard_interrupt_handler,
}
use vsnx_os.Keyboard.Ring.{IsValid, contents, kept, length-contents}
use vsnx_os.Keyboard.Typing.{plain, typed, handler-contents}

-- Is the key a letter?
abbrev pub is_letter : ℕ → Bool
is_letter key = is_lower (table_entry scancode_to_ascii_normal key)

abbrev pub same_flag : Bool → Bool → Bool
same_flag true b = b
same_flag false b = not b

-- The two tables against each other: a letter's shifted character is its capital, and the keys
-- that are no letter are in both tables or in none.
tables_law : ℕ → Bool
tables_law key =
    let normal = table_entry scancode_to_ascii_normal key in
    let shifted = table_entry scancode_to_ascii_shift key in
    if is_lower normal
    then shifted + 32 == normal
    else (if normal == 0 then shifted == 0 else not (shifted == 0))
      && not (leb 65 shifted && leb shifted 90)

tables_table : holds_under tables_law 128 ≡ true
unfolding holds_under tables_law table_entry
tables_table = refl

-- No letter is a key that the driver interprets itself, nor 0xE0.
special_law : ℕ → Bool
special_law key =
    if is_letter key
    then not (key == 0x2A || key == 0x36 || key == 0x1D || key == 0x38 || key == 0x3A)
      && not (key == 0x45 || key == 0x46)
    else true

special_table : holds_under special_law 128 ≡ true
unfolding holds_under special_law table_entry
special_table = refl

-- What a letter types: its control code whenever ctrl is down, a capital if just one of shift and
-- caps lock is on, and else the small letter.
abbrev pub letter : ℕ → KeyboardState → ℕ
letter key s =
    let small = table_entry scancode_to_ascii_normal key in
    if s.ctrl_pressed
    then small - 96
    else if same_flag s.shift_pressed s.caps_lock
    then small
    else small - 32

letter-plain :
    (key : ℕ) (s : KeyboardState)
    → key < 128
    → is_letter key ≡ true
    → plain key s ≡ letter key s ∷ []
unfolding scancode_to_ascii with_ctrl tables_law
letter-plain key s less h = ground (arith, from_table tables_law 128 {n = key} tables_table less)

letter-special :
    (key : ℕ) (s : KeyboardState)
    → key < 128
    → is_letter key ≡ true
    → handle_special_key key true s ≡ s
unfolding handle_special_key special_law
letter-special key s less h =
    ground (arith, from_table special_law 128 {n = key} special_table less)

letter-typed :
    (key : ℕ) (s : KeyboardState)
    → key < 128
    → is_letter key ≡ true
    → typed key s false ≡ letter key s ∷ []
letter-typed key s less h =
    let seen : KeyboardState = record s { last_scancode = key } in
    ground (
      arith,
      mod-eq_of_lt {n = key} {m = 128} less,
      letter-plain key seen less h,
      letter-special key seen less h,
    )

-- The press of a letter's key, behind no 0xE0, puts one character into a valid buffer that is not
-- full: the letter's control code whenever ctrl is down, else a capital if just one of shift and
-- caps lock is on, and else the small letter.
pub handler-letter :
    (key : ℕ) (k : Keyboard)
    → key < 128
    → is_letter key ≡ true
    → k.extended_scancode ≡ false
    → IsValid k.input_buffer
    → k.input_buffer.count < keyboard_buffer_size
    → contents (ps2_keyboard_interrupt_handler key k).input_buffer
      ≡ contents k.input_buffer ++ (letter key k.keyboard_state ∷ [])
handler-letter key k less h plain_key v room =
    handler-contents key k v
    ∙ ap kept (
        ap (λ e. contents k.input_buffer ++ typed key k.keyboard_state e) plain_key
        ∙ ap (λ cs. contents k.input_buffer ++ cs) (letter-typed key k.keyboard_state less h))
    ∙ take_all 256 (contents k.input_buffer ++ (letter key k.keyboard_state ∷ [])) (
        ground (
          arith,
          length-append (contents k.input_buffer) (letter key k.keyboard_state ∷ []),
          length-contents k.input_buffer,
        ))
