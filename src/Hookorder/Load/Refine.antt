-- ===== src/Hookorder/Load/Refine.antt =====
-- The loop over the lines in hookorder_load (os/kernel/driver/hookorder/hookorder.c) loads the entries
-- of the file's lines, 256 at most.
use mathlib.Core.List.{append_assoc, append-nil}
use vsnx_os.Base.{
  ℕ, zero, suc, ◌+◌, ◌≤◌, ◌<◌, ◌≡◌, refl, true, false, ◌||◌, leb, Option, none, some, List, [], ◌∷◌,
  ◌++◌, length, take, drop, arith, Bool-cases, inl, inr, ap, ap₂, sym, ◌∙◌, subst, length-append,
  take_all, take-append_all, drop-append_suc, drop-length,
}
use vsnx_os.Strings.{strchr}
use vsnx_os.Strings.Search.{First, at, nowhere, strchr-First}
use vsnx_os.Hookorder.{
  Entry, Parsed, parsed, no_entry, no_separator, bad_tokens, parse_line, is_empty, max_entries,
}
use vsnx_os.Hookorder.Load.{load_lines, add_entry, cap_length}
use vsnx_os.Hookorder.Load.Lines.{lines, entries_of, lines-append, lines_one, parse_line-cap}

-- One entry at most is added, behind the others.
add_entry-append : (es : List Entry) (r : Parsed) → add_entry es r ≡ es ++ add_entry [] r
add_entry-append es no_entry = sym (append-nil es)
add_entry-append es no_separator = sym (append-nil es)
add_entry-append es bad_tokens = sym (append-nil es)
add_entry-append es (parsed e) = refl

add_entry_length : (es : List Entry) (r : Parsed) → length (add_entry es r) ≤ length es + 1
add_entry_length es no_entry = omega arith
add_entry_length es no_separator = omega arith
add_entry_length es bad_tokens = omega arith
add_entry_length es (parsed e) = omega (arith, length-append es (e ∷ []))

-- The entries loaded from a text, behind those there are.
abbrev pub loaded : List Entry → List ℕ → List Entry
loaded es p = take max_entries (es ++ entries_of (lines p))

load_lines-end :
    (n : ℕ) (p : List ℕ) (es : List Entry)
    → (is_empty p || leb max_entries (length es)) ≡ true
    → load_lines (suc n) p es ≡ some es
unfolding load_lines
load_lines-end n p es h = rw (h, load_lines) refl

load_lines-next :
    (n : ℕ) (p : List ℕ) (es : List Entry)
    → (is_empty p || leb max_entries (length es)) ≡ false
    → load_lines (suc n) p es ≡ elim (strchr p b'\n') [
      | some i ↦ load_lines n (drop (suc i) p) (add_entry es (parse_line (take (cap_length i) p)))
      | none ↦
          load_lines n
            (drop (length p) p)
            (add_entry es (parse_line (take (cap_length (length p)) p)))
    ]
unfolding load_lines
load_lines-next n p es h = rw (h, load_lines) refl

-- What a round does with a text, by where its first newline stands.
next_round : (n : ℕ) (p : List ℕ) (es : List Entry) → Option ℕ → Option (List Entry)
next_round n p es (some i) =
    load_lines n (drop (suc i) p) (add_entry es (parse_line (take (cap_length i) p)))
next_round n p es none =
    load_lines n (drop (length p) p) (add_entry es (parse_line (take (cap_length (length p)) p)))

load_lines-round :
    (n : ℕ) (p : List ℕ) (es : List Entry)
    → (is_empty p || leb max_entries (length es)) ≡ false
    → load_lines (suc n) p es ≡ next_round n p es (strchr p b'\n')
unfolding next_round
load_lines-round n p es h = load_lines-next n p es h ∙ by_cases (strchr p b'\n')
  where
    by_cases :
        (o : Option ℕ)
        → elim o [
          | some i ↦
              load_lines n (drop (suc i) p) (add_entry es (parse_line (take (cap_length i) p)))
          | none ↦
              load_lines n
                (drop (length p) p)
                (add_entry es (parse_line (take (cap_length (length p)) p)))
        ]
          ≡ next_round n p es o
    by_cases none = refl
    by_cases (some i) = refl

-- The entry of one line and those of the others.
loaded-cons :
    (es : List Entry) (line : List ℕ) (rest : List (List ℕ))
    → take max_entries (add_entry es (parse_line line) ++ entries_of rest)
      ≡ take max_entries (es ++ entries_of (line ∷ rest))
unfolding entries_of
loaded-cons es line rest =
    ap (λ l. take max_entries (l ++ entries_of rest)) (add_entry-append es (parse_line line))
    ∙ ap (take max_entries) (append_assoc es (add_entry [] (parse_line line)) (entries_of rest))

module _ (n : ℕ) (es : List Entry) (room : length es < max_entries)
    (loop : (q : List ℕ) (fs : List Entry)
      → length q < n
      → length fs ≤ max_entries
      → load_lines n q fs ≡ some (loaded fs q)) where
  next_round-First :
      {p : List ℕ} {o : Option ℕ}
      → length p < suc n
      → is_empty p ≡ false
      → First b'\n' p o
      → next_round n p es o ≡ some (loaded es p)
  unfolding next_round lines
  next_round-First fuel full (at before after l) =
      let rest : drop (suc (length before)) (before ++ (b'\n' ∷ after)) ≡ after =
        drop-append_suc before after b'\n' in
      let line = parse_line-cap before (b'\n' ∷ after) in
      let shorter : length after < n = omega (arith, length-append before (b'\n' ∷ after)) in
      let fs : List Entry = add_entry es (parse_line before) in
      ap₂ (λ q r. load_lines n q (add_entry es r)) rest line
      ∙ (loop after fs shorter (omega (arith, add_entry_length es (parse_line before)))
          ∙ ap some (
              loaded-cons es before (lines after)
              ∙ ap (λ ls. take max_entries (es ++ entries_of ls))
                  (sym (lines-append before after l))))
  next_round-First {p = []} fuel full (nowhere l) = cc
  next_round-First {p = c ∷ cs} fuel full (nowhere l) =
      let p : List ℕ = c ∷ cs in
      let whole : p ++ [] ≡ p = append-nil p in
      let line : parse_line (take (cap_length (length p)) p) ≡ parse_line p =
        subst (λ q. parse_line (take (cap_length (length p)) q) ≡ parse_line p) whole
          (parse_line-cap p []) in
      let fs : List Entry = add_entry es (parse_line p) in
      ap₂ (λ q r. load_lines n q (add_entry es r)) (drop-length p) line
      ∙ (loop [] fs (omega (arith, fuel)) (omega (arith, add_entry_length es (parse_line p)))
          ∙ ap some (
              loaded-cons es p (lines [])
              ∙ ap (λ ls. take max_entries (es ++ entries_of ls))
                  (nothing p ∙ sym (lines_one c cs l))))
    where
      nothing : (p : List ℕ) → p ∷ lines [] ≡ p ∷ []
      nothing p = refl

loaded_full : (es : List Entry) (p : List ℕ) → length es ≡ max_entries → loaded es p ≡ es
loaded_full es p h =
    subst (λ k. take k (es ++ entries_of (lines p)) ≡ es) h
      (take-append_all es (entries_of (lines p)))

loaded-nil : (es : List Entry) → length es ≤ max_entries → loaded es [] ≡ es
unfolding lines entries_of
loaded-nil es h = ap (take max_entries) (append-nil es) ∙ take_all max_entries es h

-- With more fuel than the text is long, the loop ends with the entries that there were and those of
-- the text's lines that parse, in order, the first 256 of them.
pub load_lines_lem :
    (n : ℕ) (p : List ℕ) (es : List Entry)
    → length p < n
    → length es ≤ max_entries
    → load_lines n p es ≡ some (loaded es p)
load_lines_lem zero p es fuel room = absurd (omega (arith, fuel))
load_lines_lem (suc n) [] es fuel room =
    load_lines-end n [] es refl ∙ ap some (sym (loaded-nil es room))
load_lines_lem (suc n) (c ∷ cs) es fuel room = elim (Bool-cases (leb max_entries (length es))) [
  | inl full ↦
      load_lines-end n (c ∷ cs) es full ∙ ap some (sym (loaded_full es (c ∷ cs) (ground arith)))
  | inr more ↦
      load_lines-round n (c ∷ cs) es more
      ∙ next_round-First n es (ground arith) (load_lines_lem n) fuel refl
          (strchr-First b'\n' (c ∷ cs) (omega arith))
]
