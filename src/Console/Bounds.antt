-- ===== src/Console/Bounds.antt =====
-- The console of vga_text.c writes to the 2000 entries of the screen only.
use vsnx_os.Base.{ℕ, ◌≤◌, ◌<◌, ◌≡◌, refl, ◌∙◌, List, [], ◌∷◌, arith}
use vsnx_os.Console.{
  Console, fill, scroll_rows, vga_scroll, vga_make_entry, vga_update_cursor, place_char, wrap,
  scroll_if_below, vga_putchar, vga_print,
}
use vsnx_os.Console.Scroll.{fill-at, scroll_rows-at}

-- The cursor is in the screen.
pub record InScreen (s : Console) : Type 0 where
  pub col_in : s.cursor_x < 80
  pub row_in : s.cursor_y < 25

scrolled-outside :
    (entry : ℕ) (buf : ℕ → ℕ) (j : ℕ)
    → 2000 ≤ j
    → fill entry 80 1920 (scroll_rows 24 0 buf) j ≡ buf j
scrolled-outside entry buf j h =
    ground (arith, fill-at entry 80 1920 (scroll_rows 24 0 buf) j, scroll_rows-at 24 0 buf j)

vga_putchar-InScreen : (c : ℕ) (s : Console) → InScreen s → InScreen (vga_putchar c s)
unfolding vga_putchar vga_update_cursor scroll_if_below vga_scroll wrap place_char
vga_putchar-InScreen c s v = ground arith

vga_putchar-outside :
    (c : ℕ) (s : Console) (j : ℕ)
    → InScreen s
    → 2000 ≤ j
    → (vga_putchar c s).vga_buffer j ≡ s.vga_buffer j
unfolding vga_putchar vga_update_cursor scroll_if_below vga_scroll wrap place_char
vga_putchar-outside c s j v h = ground (
  arith,
  scrolled-outside (vga_make_entry 32 s.current_color) (wrap (place_char c s)).vga_buffer j h,
)

-- From a cursor in the screen, any text keeps the cursor in the screen and changes nothing behind
-- the 2000 entries of the screen.
pub vga_print-InScreen :
    (cs : List ℕ) (s : Console)
    → InScreen s
    → InScreen (vga_print cs s)
      × ((j : ℕ) → 2000 ≤ j → (vga_print cs s).vga_buffer j ≡ s.vga_buffer j)
unfolding vga_print
vga_print-InScreen [] s v = (v, λ j h. refl)
vga_print-InScreen (c ∷ cs) s v =
    let (inside, same) = vga_print-InScreen cs (vga_putchar c s) (vga_putchar-InScreen c s v) in
    (inside, λ j h. same j h ∙ vga_putchar-outside c s j v h)
