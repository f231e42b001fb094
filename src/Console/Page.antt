-- ===== src/Console/Page.antt =====
-- The abstract page behind the console of vga_text.c: a page without a lower end, on which a
-- character is placed at the cursor, a line is wrapped behind the last column and nothing scrolls.
use vsnx_os.Base.{ℕ, ◌+◌, ◌&&◌, ◌==◌, if◌then◌else◌, List, [], ◌∷◌}
use vsnx_os.Console.{vga_make_entry}

pub record Page : Type 0 where
  pub cells : (row col : ℕ) → ℕ
  pub row : ℕ
  pub col : ℕ

-- An entry written into a cell.
abbrev pub with_cell : (row col entry : ℕ) → (ℕ → ℕ → ℕ) → ℕ → ℕ → ℕ
with_cell row col entry cells r k = if r == row && k == col then entry else cells r k

module _ (color : ℕ) where
  -- One character on the page.
  unfoldable pub type_char : ℕ → Page → Page
  type_char c p =
      if c == 10
      then record p { row = p.row + 1; col = 0 }
      else if c == 13
      then record p { col = 0 }
      else record {
        cells = with_cell p.row p.col (vga_make_entry c color) p.cells;
        row = if p.col == 79 then p.row + 1 else p.row;
        col = if p.col == 79 then 0 else p.col + 1;
      }

  unfoldable pub type_text : List ℕ → Page → Page
  type_text [] p = p
  type_text (c ∷ cs) p = type_text cs (type_char c p)

  -- The page before anything is typed.
  unfoldable pub blank_page : Page
  blank_page = record { cells = λ r k. vga_make_entry 32 color; row = 0; col = 0 }
