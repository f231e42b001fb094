-- ===== src/Console/Print.antt =====
-- The console of vga_text.c shows the last rows of the page that is printed on it.
use vsnx_os.Base.{
  ℕ, ◌+◌, ◌*◌, ◌≤◌, ◌<◌, ◌≡◌, refl, ap, subst, Bool-cases, inl, inr, ltb, leb, List, [], ◌∷◌, arith,
}
use vsnx_os.Console.{
  Console, fill, scroll_rows, vga_scroll, vga_make_entry, vga_update_cursor, place_char, wrap,
  scroll_if_below, vga_putchar, vga_print, vga_text_clear,
}
use vsnx_os.Console.Scroll.{fill-at, scroll_rows-at}
use vsnx_os.Console.Page.{Page, type_char, type_text, blank_page}

-- The screen shows the page from the row `top` on, its cursor is the page's, and below the
-- screen the page is blank. `height` is the number of rows that the cursor may stand in.
pub record ShowsIn (height top : ℕ) (p : Page) (s : Console) : Type 0 where
  pub col_in : p.col < 80
  pub row_in : s.cursor_y < height
  pub col_at : s.cursor_x ≡ p.col
  pub row_at : top + s.cursor_y ≡ p.row
  pub shown : (y x : ℕ) → y < 25 → x < 80 → s.vga_buffer (y * 80 + x) ≡ p.cells (top + y) x
  pub blank : (r x : ℕ) → top + 25 ≤ r → p.cells r x ≡ vga_make_entry 32 s.current_color

abbrev pub Shows : ℕ → Page → Console → Type 0
Shows top p s = ShowsIn 25 top p s

-- A character at the cursor, with the wrap behind it, may leave the cursor below the screen.
wrap-place_char :
    (c : ℕ) {top : ℕ} {p : Page} {s : Console}
    → Shows top p s
    → ShowsIn 26 top (type_char s.current_color c p) (wrap (place_char c s))
unfolding type_char wrap place_char
wrap-place_char c {top} {p} {s} v = record {
  col_in = ground arith;
  row_in = ground arith;
  col_at = ground arith;
  row_at = ground arith;
  shown = λ y x hy hx. ground (arith, v.shown y x hy hx);
  blank = λ r x h. ground (arith, v.blank r x h);
}

-- A screen whose cursor is below it, scrolled.
scrolled :
    {top : ℕ} {p : Page} {s : Console}
    → ShowsIn 26 top p s
    → s.cursor_y ≡ 25
    → (y x : ℕ) → y < 25
    → x < 80
    → fill (vga_make_entry 32 s.current_color) 80 1920 (scroll_rows 24 0 s.vga_buffer) (y * 80 + x)
      ≡ p.cells (top + 1 + y) x
scrolled {top} {p} {s} v below y x hy hx = elim (Bool-cases (ltb y 24)) [
  | inl upper ↦
      (ground (
        arith,
        fill-at blank_entry 80 1920 rolled (y * 80 + x),
        scroll_rows-at 24 0 s.vga_buffer (y * 80 + x),
        v.shown (y + 1) x (ground arith) hx,
        next_row,
        next_top,
      ))
  | inr last ↦ ground (
    arith,
    fill-at blank_entry 80 1920 rolled (y * 80 + x),
    v.blank (top + 1 + y) x (ground arith),
  )
]
  where
    blank_entry : ℕ
    blank_entry = vga_make_entry 32 s.current_color

    rolled : ℕ → ℕ
    rolled = scroll_rows 24 0 s.vga_buffer

    next_row : s.vga_buffer ((y + 1) * 80 + x) ≡ s.vga_buffer (y * 80 + x + 80)
    next_row = ap s.vga_buffer (omega arith)

    next_top : p.cells (top + (y + 1)) x ≡ p.cells (top + 1 + y) x
    next_top = ap (λ r. p.cells r x) (omega arith)

scroll-Shows :
    {top : ℕ} {p : Page} {s : Console}
    → ShowsIn 26 top p s
    → (m : ℕ) × Shows m p (scroll_if_below s)
unfolding scroll_if_below vga_scroll
scroll-Shows {top} {p} {s} v = elim (Bool-cases (leb 25 s.cursor_y)) [
  | inl below ↦ rw below (
    top + 1,
    record {
      col_in = v.col_in;
      row_in = omega arith;
      col_at = v.col_at;
      row_at = ground arith;
      shown = λ y x hy hx. scrolled v (ground (arith, v.row_in)) y x hy hx;
      blank = λ r x h. v.blank r x (omega (arith, h));
    },
  )
  | inr inside ↦ rw inside (
    top,
    record {
      col_in = v.col_in;
      row_in = ground arith;
      col_at = v.col_at;
      row_at = v.row_at;
      shown = v.shown;
      blank = v.blank;
    },
  )
]

vga_update_cursor-Shows :
    {top : ℕ} {p : Page} {s : Console} → Shows top p s → Shows top p (vga_update_cursor s)
unfolding vga_update_cursor
vga_update_cursor-Shows v = record {
  col_in = v.col_in;
  row_in = v.row_in;
  col_at = v.col_at;
  row_at = v.row_at;
  shown = v.shown;
  blank = v.blank;
}

vga_putchar-color : (c : ℕ) (s : Console) → (vga_putchar c s).current_color ≡ s.current_color
unfolding vga_putchar vga_update_cursor scroll_if_below vga_scroll wrap place_char
vga_putchar-color c s = ground arith

vga_putchar-Shows :
    (c : ℕ) {top : ℕ} {p : Page} {s : Console}
    → Shows top p s
    → (m : ℕ) × Shows m (type_char s.current_color c p) (vga_putchar c s)
unfolding vga_putchar
vga_putchar-Shows c v =
    let (m, shows) = scroll-Shows (wrap-place_char c v) in (m, vga_update_cursor-Shows shows)

vga_print-Shows :
    (cs : List ℕ) {top : ℕ} {p : Page} {s : Console}
    → Shows top p s
    → (m : ℕ) × Shows m (type_text s.current_color cs p) (vga_print cs s)
unfolding vga_print type_text
vga_print-Shows [] {top} v = (top, v)
vga_print-Shows (c ∷ cs) {p = p} {s = s} v =
    subst
      (λ color.
        (m : ℕ) × Shows m (type_text color cs (type_char s.current_color c p))
          (vga_print cs (vga_putchar c s)))
      (vga_putchar-color c s) (vga_print-Shows cs (vga_putchar-Shows c v).1)

vga_text_clear-Shows : (s : Console) → Shows 0 (blank_page s.current_color) (vga_text_clear s)
unfolding vga_text_clear blank_page
vga_text_clear-Shows s = vga_update_cursor-Shows (record {
  col_in = omega arith;
  row_in = omega arith;
  col_at = refl;
  row_at = omega arith;
  shown = λ y x hy hx.
      ground (arith, fill-at (vga_make_entry 32 s.current_color) 2000 0 s.vga_buffer (y * 80 + x));
  blank = λ r x h. refl;
})

vga_text_clear-color : (s : Console) → (vga_text_clear s).current_color ≡ s.current_color
unfolding vga_text_clear vga_update_cursor
vga_text_clear-color s = refl

-- After a clear and any text, the screen shows 25 rows in a row of the page that the text makes
-- when nothing scrolls: its entries are the page's, its cursor is the page's, in the screen, and
-- the rows of the page below the screen are blank.
pub vga_print-page :
    (cs : List ℕ) (s : Console)
    → (top : ℕ) × Shows top
        (type_text s.current_color cs (blank_page s.current_color))
        (vga_print cs (vga_text_clear s))
vga_print-page cs s =
    subst
      (λ color.
        (m : ℕ) × Shows m (type_text color cs (blank_page s.current_color))
          (vga_print cs (vga_text_clear s)))
      (vga_text_clear-color s) (vga_print-Shows cs (vga_text_clear-Shows s))
