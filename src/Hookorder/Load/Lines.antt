-- ===== src/Hookorder/Load/Lines.antt =====
-- The lines of the configuration file of os/kernel/driver/hookorder/hookorder.c against a list of lines.
use vsnx_os.Base.{
  ℕ, ◌≡◌, refl, ◌≢◌, leb, ◌==◌, if◌then◌else◌, List, [], ◌∷◌, ◌++◌, length, take, arith, Bool-cases,
  inl, inr, ap, ◌∙◌, ==-ne, take-append_all, take-append_le, take-take,
}
use vsnx_os.Strings.Search.{Lacks}
use vsnx_os.Hookorder.{Entry, parse_line, strip_comment}
use vsnx_os.Hookorder.Load.{add_entry, cap_length}

abbrev push_byte : ℕ → List (List ℕ) → List (List ℕ)
push_byte c [] = (c ∷ []) ∷ []
push_byte c (l ∷ ls) = (c ∷ l) ∷ ls

-- The lines of a text, without their newlines.
unfoldable pub lines : List ℕ → List (List ℕ)
lines [] = []
lines (c ∷ cs) = let rest = lines cs in if c == b'\n' then [] ∷ rest else push_byte c rest

-- The entries of the lines that parse, in order.
unfoldable pub entries_of : List (List ℕ) → List Entry
entries_of [] = []
entries_of (l ∷ ls) = add_entry [] (parse_line l) ++ entries_of ls

pub lines-append :
    (before after : List ℕ)
    → Lacks b'\n' before
    → lines (before ++ (b'\n' ∷ after)) ≡ before ∷ lines after
unfolding lines
lines-append [] after l = refl
lines-append (c ∷ cs) after (ne, l) = rw (==-ne c b'\n' ne, lines-append cs after l) refl

lines-push : (c : ℕ) (cs : List ℕ) → c ≢ b'\n' → lines (c ∷ cs) ≡ push_byte c (lines cs)
unfolding lines
lines-push c cs ne = rw (==-ne c b'\n' ne) refl

pub lines_one : (c : ℕ) (cs : List ℕ) → Lacks b'\n' (c ∷ cs) → lines (c ∷ cs) ≡ (c ∷ cs) ∷ []
unfolding lines
lines_one c [] (ne, l) = rw (==-ne c b'\n' ne) refl
lines_one c (d ∷ ds) (ne, l) = lines-push c (d ∷ ds) ne ∙ ap (push_byte c) (lines_one d ds l)

strip_comment-take : (raw : List ℕ) → strip_comment (take 515 raw) ≡ strip_comment raw
unfolding strip_comment
strip_comment-take raw = rw (take-take 515 raw, strip_comment) refl

parse_line-take : (raw : List ℕ) → parse_line (take 515 raw) ≡ parse_line raw
unfolding parse_line
parse_line-take raw = rw (strip_comment-take raw, parse_line) refl

-- The copy of a line in its buffer parses like the line.
pub parse_line-cap :
    (xs ys : List ℕ) → parse_line (take (cap_length (length xs)) (xs ++ ys)) ≡ parse_line xs
parse_line-cap xs ys = elim (Bool-cases (leb 516 (length xs))) [
  | inl long ↦
      rw long (ap parse_line (take-append_le 515 xs ys (ground arith)) ∙ parse_line-take xs)
  | inr short ↦ rw short (ap parse_line (take-append_all xs ys))
]
