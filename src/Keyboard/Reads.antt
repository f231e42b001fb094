-- ===== src/Keyboard/Reads.antt =====
-- Why a program can read 0 as "no key": no character in the buffer is 0.
use vsnx_os.Base.{
  ℕ, zero, suc, ◌%◌, ◌<◌, ◌≡◌, refl, ap, sym, subst, Bool, true, List, [], ◌∷◌, ◌++◌, take, length,
  ◌∙◌, arith,
}
use vsnx_os.Keyboard.Layout.{scancode_to_ascii}
use vsnx_os.Keyboard.{
  KeyboardState, Keyboard, extended_key, handle_special_key, with_ctrl, keyboard_buffer_empty,
  ps2_keyboard_interrupt_handler, getchar, kbflush,
}
use vsnx_os.Keyboard.Ring.{
  IsValid, window, contents, first, keyboard_buffer_get-IsValid, contents-get, length-contents,
}
use vsnx_os.Keyboard.Typing.{plain, behind_prefix, typed, handler-IsValid, handler-contents}

abbrev pub NoZero : List ℕ → Type 0
NoZero [] = Unit
NoZero (c ∷ cs) = (0 < c) × NoZero cs

NoZero-append : (xs ys : List ℕ) → NoZero xs → NoZero ys → NoZero (xs ++ ys)
NoZero-append [] ys hx hy = hy
NoZero-append (x ∷ xs) ys hx hy = (hx.0, NoZero-append xs ys hx.1 hy)

NoZero-take : (n : ℕ) (xs : List ℕ) → NoZero xs → NoZero (take n xs)
NoZero-take zero xs h = tt
NoZero-take (suc n) [] h = tt
NoZero-take (suc n) (x ∷ xs) h = (h.0, NoZero-take n xs h.1)

NoZero-first : (xs : List ℕ) → NoZero xs → NoZero (first xs).1
NoZero-first [] h = tt
NoZero-first (x ∷ xs) h = h.1

first-zero : (xs : List ℕ) → NoZero xs → (first xs).0 ≡ 0 → xs ≡ []
first-zero [] h e = refl
first-zero (x ∷ xs) h e = absurd (omega (arith, h.0, e))

with_ctrl-lt : (ctrl : Bool) (ascii : ℕ) → 0 < ascii → 0 < with_ctrl ctrl ascii
unfolding with_ctrl
with_ctrl-lt ctrl ascii h = ground arith

NoZero-plain : (key : ℕ) (s : KeyboardState) → NoZero (plain key s)
NoZero-plain key s =
    let ascii = scancode_to_ascii s.shift_pressed s.caps_lock key in
    ground (arith, with_ctrl-lt s.ctrl_pressed ascii)

NoZero-behind_prefix : (key : ℕ) → NoZero (behind_prefix key)
unfolding extended_key
NoZero-behind_prefix key = ground arith

NoZero-typed : (c : ℕ) (s : KeyboardState) (extended : Bool) → NoZero (typed c s extended)
NoZero-typed c s extended = ground (
  arith,
  NoZero-behind_prefix (c % 0x80),
  NoZero-plain (c % 0x80) (handle_special_key (c % 0x80) true (record s { last_scancode = c })),
)

-- What happens to the driver.
pub data KeyEvent : Type 0 where
  interrupt : (scancode : ℕ) → KeyEvent
  read flush : KeyEvent

unfoldable pub after : List KeyEvent → Keyboard → Keyboard
after [] k = k
after (interrupt c ∷ es) k = after es (ps2_keyboard_interrupt_handler c k)
after (read ∷ es) k = after es (getchar k).1
after (flush ∷ es) k = after es (kbflush k)

pub record IsReadable (k : Keyboard) : Type 0 where
  pub valid : IsValid k.input_buffer
  pub no_zero : NoZero (contents k.input_buffer)

handler-IsReadable :
    (c : ℕ) (k : Keyboard) → IsReadable k → IsReadable (ps2_keyboard_interrupt_handler c k)
handler-IsReadable c k r = record {
  valid = handler-IsValid c k r.valid;
  no_zero = subst NoZero (sym (handler-contents c k r.valid)) (
      NoZero-take 256 (contents k.input_buffer ++ typed c k.keyboard_state k.extended_scancode) (
        NoZero-append (contents k.input_buffer) (typed c k.keyboard_state k.extended_scancode)
          r.no_zero (NoZero-typed c k.keyboard_state k.extended_scancode)));
}

getchar-IsReadable : (k : Keyboard) → IsReadable k → IsReadable (getchar k).1
unfolding getchar
getchar-IsReadable k r = record {
  valid = keyboard_buffer_get-IsValid r.valid;
  no_zero =
      subst NoZero (sym (ap (λ x. x.1) (contents-get k.input_buffer)))
        (NoZero-first (contents k.input_buffer) r.no_zero);
}

kbflush-IsReadable : (k : Keyboard) → IsReadable k → IsReadable (kbflush k)
unfolding kbflush window
kbflush-IsReadable k r = record { valid = ground arith; no_zero = tt }

-- Interrupts for any bytes, reads and flushes, in any order, keep the indices of the input buffer
-- in range, the head the count's steps from the tail, and every waiting character different from 0.
pub after-IsReadable : (es : List KeyEvent) {k : Keyboard} → IsReadable k → IsReadable (after es k)
unfolding after
after-IsReadable [] r = r
after-IsReadable (interrupt c ∷ es) {k} r = after-IsReadable es (handler-IsReadable c k r)
after-IsReadable (read ∷ es) {k} r = after-IsReadable es (getchar-IsReadable k r)
after-IsReadable (flush ∷ es) {k} r = after-IsReadable es (kbflush-IsReadable k r)

getchar-empty :
    (k : Keyboard) → IsReadable k → (getchar k).0 ≡ 0 → keyboard_buffer_empty k.input_buffer ≡ true
unfolding getchar keyboard_buffer_empty
getchar-empty k r e = ground (
  arith,
  length-contents k.input_buffer,
  ap length (
      first-zero (contents k.input_buffer) r.no_zero
        (sym (ap (λ x. x.0) (contents-get k.input_buffer)) ∙ e)),
)

-- After any interrupts, reads and flushes from a state with such a buffer, `getchar` returns 0 only
-- if no character waits.
pub getchar-after :
    (es : List KeyEvent) {k : Keyboard}
    → IsReadable k
    → (getchar (after es k)).0 ≡ 0
    → keyboard_buffer_empty (after es k).input_buffer ≡ true
getchar-after es r e = getchar-empty (after es _) (after-IsReadable es r) e
