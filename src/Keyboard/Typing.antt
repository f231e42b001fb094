-- ===== src/Keyboard/Typing.antt =====
-- What a stream of scancodes leaves to be read, described without the buffer.
use vsnx_os.Base.{
  ℕ, ◌%◌, ◌≡◌, ◌∙◌, ap, sym, Bool, true, ltb, ◌==◌, if◌then◌else◌, List, [], ◌∷◌, ◌++◌, arith,
}
use vsnx_os.Keyboard.Layout.{scancode_to_ascii}
use vsnx_os.Keyboard.{
  KeyboardState, Keyboard, character, extended_key, handle_special_key, handle_extended_scancode,
  with_ctrl, handle_ascii, handle_scancode, ps2_keyboard_interrupt_handler,
}
use vsnx_os.Keyboard.Ring.{
  IsValid, contents, kept, put_all, contents-put_all, put_all-IsValid, kept_nil, kept-append,
}

-- The character of a key without 0xE0, if it has one.
abbrev pub plain : ℕ → KeyboardState → List ℕ
plain key s =
    let ascii = scancode_to_ascii s.shift_pressed s.caps_lock key in
    if ascii == 0 then [] else (with_ctrl s.ctrl_pressed ascii ∷ [])

abbrev pub behind_prefix : ℕ → List ℕ
behind_prefix key = elim (extended_key key) [ character c ↦ c ∷ [] | _ ↦ [] ]

-- The characters that one byte from the keyboard types: none or one.
abbrev pub typed : ℕ → KeyboardState → Bool → List ℕ
typed scancode s extended =
    if scancode == 0xE0
    then []
    else if ltb scancode 0x80
    then if extended
      then behind_prefix (scancode % 0x80)
      else plain (scancode % 0x80)
          (handle_special_key (scancode % 0x80) true (record s { last_scancode = scancode }))
    else []

handle_ascii-put :
    (key : ℕ) (k : Keyboard)
    → (handle_ascii key k).input_buffer ≡ put_all (plain key k.keyboard_state) k.input_buffer
unfolding handle_ascii
handle_ascii-put key k = ground arith

extended-put :
    (key : ℕ) (pressed : Bool) (k : Keyboard)
    → (handle_extended_scancode key pressed k).input_buffer
      ≡ put_all (if pressed then behind_prefix key else []) k.input_buffer
unfolding handle_extended_scancode
extended-put key pressed k = ground arith

pub handler-put :
    (scancode : ℕ) (k : Keyboard)
    → (ps2_keyboard_interrupt_handler scancode k).input_buffer
      ≡ put_all (typed scancode k.keyboard_state k.extended_scancode) k.input_buffer
unfolding ps2_keyboard_interrupt_handler handle_scancode
handler-put scancode k = ground (
  arith,
  extended-put (scancode % 0x80) (ltb scancode 0x80)
      (record k { keyboard_state = record k.keyboard_state { last_scancode = scancode } }),
  handle_ascii-put (scancode % 0x80) (record k {
    keyboard_state =
        handle_special_key (scancode % 0x80) (ltb scancode 0x80)
          (record k.keyboard_state { last_scancode = scancode });
  }),
)

-- Interrupts for the bytes of a stream, one after the other.
abbrev pub type_all : List ℕ → Keyboard → Keyboard
type_all [] k = k
type_all (c ∷ cs) k = type_all cs (ps2_keyboard_interrupt_handler c k)

-- The characters that a stream types.
abbrev pub typed_all : List ℕ → Keyboard → List ℕ
typed_all [] k = []
typed_all (c ∷ cs) k =
    typed c k.keyboard_state k.extended_scancode
    ++ typed_all cs (ps2_keyboard_interrupt_handler c k)

pub handler-IsValid :
    (scancode : ℕ) (k : Keyboard)
    → IsValid k.input_buffer
    → IsValid (ps2_keyboard_interrupt_handler scancode k).input_buffer
handler-IsValid scancode k v =
    rw (handler-put scancode k)
      (put_all-IsValid (typed scancode k.keyboard_state k.extended_scancode) v)

pub handler-contents :
    (scancode : ℕ) (k : Keyboard)
    → IsValid k.input_buffer
    → contents (ps2_keyboard_interrupt_handler scancode k).input_buffer
      ≡ kept (contents k.input_buffer ++ typed scancode k.keyboard_state k.extended_scancode)
handler-contents scancode k v =
    ap contents (handler-put scancode k)
    ∙ contents-put_all (typed scancode k.keyboard_state k.extended_scancode) v

-- From a valid state, a stream of bytes leaves in the buffer what was there and, behind it, the
-- characters that the stream types, in their order; what comes when 256 are waiting is lost.
pub contents-type_all :
    (cs : List ℕ) (k : Keyboard)
    → IsValid k.input_buffer
    → contents (type_all cs k).input_buffer ≡ kept (contents k.input_buffer ++ typed_all cs k)
contents-type_all [] k v = sym (kept_nil v)
contents-type_all (c ∷ cs) k v =
    let now = typed c k.keyboard_state k.extended_scancode in
    let later = ps2_keyboard_interrupt_handler c k in
    contents-type_all cs later (handler-IsValid c k v)
    ∙ ap (λ xs. kept (xs ++ typed_all cs later)) (handler-contents c k v)
    ∙ kept-append (contents k.input_buffer) now (typed_all cs later)
