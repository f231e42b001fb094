-- ===== src/Console.antt =====
-- The text console of os/kernel/hal/vga/vga_text/vga_text.c: the screen of 25 rows of 80 entries at
-- 0xB8000, its cursor and colour. A character is its byte; `char` is signed.
pub mod Scroll
pub mod Page
pub mod Print
pub mod Bounds
mod Tests
use vsnx_os.Base.{
  ℕ, zero, suc, ◌+◌, ◌*◌, ◌/◌, ◌%◌, Bool, true, false, ltb, leb, ◌==◌, if◌then◌else◌, List, [], ◌∷◌,
  bit_or,
}

abbrev pub vga_text_width : ℕ
vga_text_width = 80

abbrev pub vga_text_height : ℕ
vga_text_height = 25

-- The globals, and what was written to the ports, the last first, as port and byte.
pub record Console : Type 0 where
  pub vga_buffer : ℕ → ℕ
  pub cursor_x : ℕ
  pub cursor_y : ℕ
  pub current_color : ℕ
  pub written : List (ℕ × ℕ)

unfoldable pub vga_make_color : (fg bg : ℕ) → ℕ
vga_make_color fg bg = bit_or fg (bg * 16) % 256

-- `(uint16_t)c` of a signed `char`: the upper byte of a byte from 128 on is 0xFF.
abbrev pub sign_extended : ℕ → ℕ
sign_extended c = if ltb c 128 then c else 0xFF00 + c

unfoldable pub vga_make_entry : (c color : ℕ) → ℕ
vga_make_entry c color = bit_or (sign_extended c) (color * 256) % 65536

unfoldable pub vga_update_cursor : Console → Console
vga_update_cursor s =
    let at = (s.cursor_y * vga_text_width + s.cursor_x) % 65536 in
    record s {
      written =
          (0x3D5, at / 256 % 256)
          ∷ ((0x3D4, 0x0E) ∷ ((0x3D5, at % 256) ∷ ((0x3D4, 0x0F) ∷ s.written)));
    }

abbrev pub put_entry : (ℕ → ℕ) → (i entry : ℕ) → ℕ → ℕ
put_entry buf i entry = λ j. if j == i then entry else buf j

-- The inner loop of the scroll, from the column `x` on with `left` columns left.
unfoldable pub scroll_row : (y left x : ℕ) → (ℕ → ℕ) → ℕ → ℕ
scroll_row y zero x buf = buf
scroll_row y (suc left) x buf =
    scroll_row y left (x + 1)
      (put_entry buf (y * vga_text_width + x) (buf ((y + 1) * vga_text_width + x)))

-- The outer loop, from the row `y` on with `left` rows left.
unfoldable pub scroll_rows : (left y : ℕ) → (ℕ → ℕ) → ℕ → ℕ
scroll_rows zero y buf = buf
scroll_rows (suc left) y buf = scroll_rows left (y + 1) (scroll_row y vga_text_width 0 buf)

-- A loop that stores one entry at `left` places from `i` on.
unfoldable pub fill : (entry left i : ℕ) → (ℕ → ℕ) → ℕ → ℕ
fill entry zero i buf = buf
fill entry (suc left) i buf = fill entry left (i + 1) (put_entry buf i entry)

unfoldable pub vga_scroll : Console → Console
vga_scroll s = record s {
  vga_buffer =
      fill (vga_make_entry 32 s.current_color) vga_text_width 1920 (scroll_rows 24 0 s.vga_buffer);
  cursor_y = 24;
}

unfoldable pub vga_text_clear : Console → Console
vga_text_clear s = vga_update_cursor (record s {
  vga_buffer = fill (vga_make_entry 32 s.current_color) 2000 0 s.vga_buffer;
  cursor_x = 0;
  cursor_y = 0;
})

pub vga_text_set_color : (fg bg : ℕ) → Console → Console
vga_text_set_color fg bg s = record s { current_color = vga_make_color fg bg }

-- The result of `vga_dec_text`, which looks for the adapter, is a parameter. The result is 0 or -1.
unfoldable pub vga_text_init : (vga_dec_text : ℕ) → Console → Bool × Console
vga_text_init vga_dec_text s =
    if vga_dec_text == 1
    then (
      true,
      vga_text_clear (record s { current_color = vga_make_color 15 0; cursor_x = 0; cursor_y = 0 }),
    )
    else (false, s)

-- The first part of `vga_putchar`: what the character does at the cursor.
unfoldable pub place_char : (c : ℕ) → Console → Console
place_char c s =
    if c == 10
    then record s { cursor_x = 0; cursor_y = s.cursor_y + 1 }
    else if c == 13
    then record s { cursor_x = 0 }
    else record s {
      vga_buffer =
          put_entry s.vga_buffer (s.cursor_y * vga_text_width + s.cursor_x)
            (vga_make_entry c s.current_color);
      cursor_x = s.cursor_x + 1;
    }

-- Its second part, with its two tests.
unfoldable pub wrap : Console → Console
wrap s =
    if leb vga_text_width s.cursor_x
    then record s { cursor_x = 0; cursor_y = s.cursor_y + 1 }
    else s

unfoldable pub scroll_if_below : Console → Console
scroll_if_below s = if leb vga_text_height s.cursor_y then vga_scroll s else s

unfoldable pub vga_putchar : (c : ℕ) → Console → Console
vga_putchar c s = vga_update_cursor (scroll_if_below (wrap (place_char c s)))

-- The string is the characters in front of the 0 that ends it.
unfoldable pub vga_print : List ℕ → Console → Console
vga_print [] s = s
vga_print (c ∷ cs) s = vga_print cs (vga_putchar c s)

unfoldable pub vga_println : List ℕ → Console → Console
vga_println cs s = vga_putchar 10 (vga_print cs s)
