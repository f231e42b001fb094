-- ===== src/Console/Tests.antt =====
-- Runs of the console of vga_text.c, and its theorems at inputs that meet their hypotheses.
use vsnx_os.Base.{ℕ, ◌≤◌, ◌≡◌, refl, false, [], ◌∷◌, arith}
use vsnx_os.Console.{
  Console, vga_make_entry, vga_update_cursor, vga_text_clear, vga_text_init, place_char, wrap,
  scroll_if_below, vga_scroll, vga_putchar, vga_print, fill, scroll_row, scroll_rows,
}
use vsnx_os.Console.Page.{type_text, blank_page}
use vsnx_os.Console.Print.{Shows, vga_print-page}
use vsnx_os.Console.Bounds.{InScreen, vga_print-InScreen}

abbrev boot : Console
boot = record {
  vga_buffer = λ i. 0;
  cursor_x = 79;
  cursor_y = 24;
  current_color = 15;
  written = [];
}

-- Two letters at the end of the last row scroll the screen.
two_letters :
    let s = vga_print (72 ∷ 105 ∷ []) boot in
    (s.cursor_x ≡ 1) × (s.cursor_y ≡ 24) × (s.vga_buffer 1920 ≡ 0x0F69) × (s.vga_buffer 1839 ≡ 0)
unfolding vga_print vga_putchar vga_update_cursor scroll_if_below vga_scroll wrap place_char
    vga_make_entry fill scroll_row scroll_rows
two_letters = (refl, refl, refl, refl)

-- The colour of an accented letter of code page 437 is lost to the sign of its byte.
sign_extension : vga_make_entry 0xE9 0x0F ≡ 0xFFE9
unfolding vga_make_entry
sign_extension = refl

without_adapter : vga_text_init 0 boot ≡ (false, boot)
unfolding vga_text_init
without_adapter = refl

boot-InScreen : InScreen boot
boot-InScreen = omega arith

vga_print-page_example :
    (top : ℕ) × Shows top
      (type_text boot.current_color (72 ∷ 10 ∷ []) (blank_page boot.current_color))
      (vga_print (72 ∷ 10 ∷ []) (vga_text_clear boot))
vga_print-page_example = vga_print-page (72 ∷ 10 ∷ []) boot

vga_print-InScreen_example :
    InScreen (vga_print (72 ∷ 105 ∷ []) boot)
    × ((j : ℕ) → 2000 ≤ j → (vga_print (72 ∷ 105 ∷ []) boot).vga_buffer j ≡ boot.vga_buffer j)
vga_print-InScreen_example = vga_print-InScreen (72 ∷ 105 ∷ []) boot boot-InScreen
