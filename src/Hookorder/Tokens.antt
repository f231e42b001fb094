-- ===== src/Hookorder/Tokens.antt =====
-- parse_line of os/kernel/driver/hookorder/hookorder.c reads back the line that an entry is written as.
use vsnx_os.Base.{
  ℕ, ◌≤◌, ◌≡◌, refl, ◌≢◌, false, List, [], ◌∷◌, ◌++◌, length, arith, ap, ◌∙◌, length-append,
  take_all, take-append_all, drop-append_suc,
}
use vsnx_os.Strings.{strncpy}
use vsnx_os.Strings.Search.{Lacks, strchr-Lacks, strchr-append, Lacks-append}
use vsnx_os.Hookorder.{
  Entry, parsed, parse_line, parse_split, parse_sides, parse_tokens, parse_rest, strip_comment,
  make_entry, is_empty, is_blank, str_trim, skip_blanks, drop_end_blanks, str_to_upper, keep_byte,
}

abbrev pub NoBlank : List ℕ → Type 0
NoBlank [] = Unit
NoBlank (c ∷ cs) = (is_blank c ≡ false) × NoBlank cs

skip_blanks-NoBlank : (s : List ℕ) → NoBlank s → skip_blanks s ≡ s
unfolding skip_blanks
skip_blanks-NoBlank [] b = refl
skip_blanks-NoBlank (c ∷ cs) (b, bs) = rw b refl

drop_end_blanks-NoBlank : (s : List ℕ) → NoBlank s → drop_end_blanks s ≡ s
unfolding drop_end_blanks
drop_end_blanks-NoBlank [] b = refl
drop_end_blanks-NoBlank (c ∷ []) (b, bs) = rw b refl
drop_end_blanks-NoBlank (c ∷ d ∷ ds) (b, bs) =
    ap (keep_byte c) (drop_end_blanks-NoBlank (d ∷ ds) bs)

pub str_trim-NoBlank : (s : List ℕ) → NoBlank s → str_trim s ≡ s
unfolding str_trim
str_trim-NoBlank s b = ap drop_end_blanks (skip_blanks-NoBlank s b) ∙ drop_end_blanks-NoBlank s b

NoBlank-append : (xs ys : List ℕ) → NoBlank xs → NoBlank ys → NoBlank (xs ++ ys)
NoBlank-append [] ys a b = b
NoBlank-append (x ∷ xs) ys (h, a) b = (h, NoBlank-append xs ys a b)

-- Text that a line can hold: no comment sign, no blank.
pub record IsText (s : List ℕ) : Type 0 where
  pub no_hash : Lacks b'#' s
  pub no_semicolon : Lacks b';' s
  pub no_blank : NoBlank s

-- A token also has no separator, is not empty, and fits its buffer.
pub record IsToken (s : List ℕ) : Type 0 where
  pub text : IsText s
  pub no_colon : Lacks b':' s
  pub no_arrow : Lacks b'>' s
  pub some_byte : is_empty s ≡ false
  pub short : length s ≤ 63

IsText-append :
    (xs ys : List ℕ) (c : ℕ)
    → IsText xs
    → IsText ys
    → c ≢ b'#'
    → c ≢ b';'
    → is_blank c ≡ false
    → IsText (xs ++ (c ∷ ys))
IsText-append xs ys c a b h s bl = record {
  no_hash = Lacks-append b'#' xs (c ∷ ys) a.no_hash (h, b.no_hash);
  no_semicolon = Lacks-append b';' xs (c ∷ ys) a.no_semicolon (s, b.no_semicolon);
  no_blank = NoBlank-append xs (c ∷ ys) a.no_blank (bl, b.no_blank);
}

-- `<category>:<subclass>:<driver>`
abbrev pub left_side : (category subclass driver : List ℕ) → List ℕ
left_side category subclass driver = category ++ (b':' ∷ (subclass ++ (b':' ∷ driver)))

abbrev pub line_of : (category subclass driver path : List ℕ) → List ℕ
line_of category subclass driver path = left_side category subclass driver ++ (b'>' ∷ path)

strip_comment-IsText : (s : List ℕ) → length s ≤ 515 → IsText s → strip_comment s ≡ s
unfolding strip_comment
strip_comment-IsText s short x =
    let whole : strncpy s 515 ≡ s = take_all 515 s short in
    let hash = strchr-Lacks b'#' s (omega arith) x.no_hash in
    let semicolon = strchr-Lacks b';' s (omega arith) x.no_semicolon in
    rw (whole, hash, semicolon, strip_comment) (str_trim-NoBlank s x.no_blank)

is_empty-append : (xs ys : List ℕ) → is_empty xs ≡ false → is_empty (xs ++ ys) ≡ false
is_empty-append [] ys h = cc
is_empty-append (x ∷ xs) ys h = refl

make_entry-token : (s : List ℕ) → IsToken s → strncpy (str_trim s) 63 ≡ s
make_entry-token s x = rw (str_trim-NoBlank s x.text.no_blank) (take_all 63 s x.short)

-- The entry that a line stands for.
abbrev pub entry_of : (category subclass driver path : List ℕ) → Entry
entry_of category subclass driver path = record {
  category = str_to_upper category;
  subclass = str_to_upper subclass;
  driver = str_to_upper driver;
  path = path;
  claimed = false;
}

module _ (category subclass driver path : List ℕ) (c : IsToken category) (s : IsToken subclass)
    (d : IsToken driver) (p : IsText path) (some_path : is_empty path ≡ false)
    (short : length path ≤ 259) where
  abbrev left : List ℕ
  left = left_side category subclass driver

  abbrev rest : List ℕ
  rest = subclass ++ (b':' ∷ driver)

  left_length : length left ≤ 191
  left_length = omega (
    arith,
    length-append category (b':' ∷ rest),
    length-append subclass (b':' ∷ driver),
    c.short,
    s.short,
    d.short,
  )

  left-IsText : IsText left
  left-IsText =
      IsText-append category rest b':' c.text
        (IsText-append subclass driver b':' s.text d.text (λ e. omega (arith, e))
          (λ e. omega (arith, e)) refl)
        (λ e. omega (arith, e)) (λ e. omega (arith, e)) refl

  left_arrow : Lacks b'>' left
  left_arrow = Lacks-append b'>' category (b':' ∷ rest) c.no_arrow (
    (λ e. omega (arith, e)),
    Lacks-append b'>' subclass (b':' ∷ driver) s.no_arrow ((λ e. omega (arith, e)), d.no_arrow),
  )

  make_entry-entry_of :
      make_entry category subclass driver path ≡ entry_of category subclass driver path
  unfolding make_entry
  make_entry-entry_of =
      rw
        (
          make_entry-token category c,
          make_entry-token subclass s,
          make_entry-token driver d,
          take_all 259 path short,
          make_entry,
        )
        refl

  rest_lem : parse_rest category rest path ≡ parsed (entry_of category subclass driver path)
  unfolding parse_rest
  rest_lem =
      rw
        (
          strchr-append b':' subclass driver s.no_colon,
          take-append_all subclass (b':' ∷ driver),
          drop-append_suc subclass driver b':',
          c.some_byte,
          s.some_byte,
          d.some_byte,
          parse_rest,
        )
        (ap parsed make_entry-entry_of)

  tokens_lem : parse_tokens left path ≡ parse_rest category rest path
  unfolding parse_tokens
  tokens_lem =
      rw
        (
          strchr-append b':' category rest c.no_colon,
          take-append_all category (b':' ∷ rest),
          drop-append_suc category rest b':',
          parse_tokens,
        )
        refl

  sides_lem : parse_sides left path ≡ parse_tokens left path
  unfolding parse_sides
  sides_lem =
      rw
        (
          str_trim-NoBlank left left-IsText.no_blank,
          str_trim-NoBlank path p.no_blank,
          is_empty-append category (b':' ∷ rest) c.some_byte,
          some_path,
          parse_sides,
        )
        refl

  split_lem : parse_split (line_of category subclass driver path) ≡ parse_sides left path
  unfolding parse_split
  split_lem =
      rw
        (
          strchr-append b'>' left path left_arrow,
          take-append_all left (b'>' ∷ path),
          drop-append_suc left path b'>',
          take_all 191 left left_length,
          take_all 259 path short,
          parse_split,
        )
        refl

  -- For tokens of 1 to 63 bytes and a path of 1 to 259, with no blank, comment sign or separator in
  -- them, `parse_line` reads the line `<category>:<subclass>:<driver>><path>` back as the unclaimed
  -- entry with these, the tokens in upper case.
  pub parse_line-line_of :
      parse_line (line_of category subclass driver path)
      ≡ parsed (entry_of category subclass driver path)
  unfolding parse_line
  parse_line-line_of =
      let entry_fits = length-append left (b'>' ∷ path) in
      let text =
        IsText-append left path b'>' left-IsText p (λ e. omega (arith, e)) (λ e. omega (arith, e))
          refl in
      let stripped =
        strip_comment-IsText (line_of category subclass driver path)
          (omega (arith, entry_fits, left_length)) text in
      let some_line =
        is_empty-append left (b'>' ∷ path) (is_empty-append category (b':' ∷ rest) c.some_byte) in
      rw (stripped, some_line, parse_line) (split_lem ∙ (sides_lem ∙ (tokens_lem ∙ rest_lem)))
