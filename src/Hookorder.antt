-- ===== src/Hookorder.antt =====
-- The table of drivers that may claim a device class: os/kernel/driver/hookorder/hookorder.c. The
-- configuration file has a line `CLASS:<subclass>:<driver>:<path>` for each driver, in order of
-- preference. Strings are lists of bytes; a `char` buffer of n bytes holds a string of n - 1.
-- `g_entries` up to `g_entry_count` is a list.
pub mod Table
pub mod Best
pub mod Claims
pub mod Load
pub mod Tokens
mod Tests
use vsnx_os.Base.{
  ℕ, zero, suc, ◌+◌, ◌-◌, Bool, true, false, not, ◌&&◌, ◌||◌, ltb, leb, ◌==◌, if◌then◌else◌, Option,
  none, some, List, [], ◌∷◌, ◌++◌, map, length, take, drop, ℤ, pos, negsuc,
}
use vsnx_os.Strings.{matches, strchr, strrchr, strncpy}
use vsnx_os.Strings.Case.{equal_case}

-- `hookorder_entry_t`; `claimed` is 0 or 1.
pub record Entry : Type 0 where
  pub category : List ℕ
  pub subclass : List ℕ
  pub driver : List ℕ
  pub path : List ℕ
  pub claimed : Bool

abbrev pub max_token : ℕ
max_token = 64

abbrev pub max_path : ℕ
max_path = 260

abbrev pub max_entries : ℕ
max_entries = 256

abbrev pub is_blank : ℕ → Bool
is_blank c = c == b' ' || c == b'\t' || c == b'\r' || c == b'\n'

pub skip_blanks : List ℕ → List ℕ
skip_blanks [] = []
skip_blanks (c ∷ cs) = let rest = skip_blanks cs in if is_blank c then rest else c ∷ cs

-- The loop from the end: a byte stays where one behind it stays or it is not blank.
abbrev pub keep_byte : ℕ → List ℕ → List ℕ
keep_byte c [] = if is_blank c then [] else c ∷ []
keep_byte c (d ∷ ds) = c ∷ d ∷ ds

pub drop_end_blanks : List ℕ → List ℕ
drop_end_blanks [] = []
drop_end_blanks (c ∷ cs) = keep_byte c (drop_end_blanks cs)

unfoldable pub str_trim : List ℕ → List ℕ
str_trim s = drop_end_blanks (skip_blanks s)

abbrev pub to_upper : ℕ → ℕ
to_upper c = if leb b'a' c && leb c b'z' then c - b'a' + b'A' else c

unfoldable pub str_to_upper : List ℕ → List ℕ
str_to_upper [] = []
str_to_upper (c ∷ cs) = to_upper c ∷ str_to_upper cs

abbrev pub is_star : List ℕ → Bool
is_star (c ∷ []) = c == b'*'
is_star _ = false

pub match_token : (pattern value : List ℕ) → Bool
match_token pattern value = if is_star pattern then true else equal_case pattern value

-- A zero put at the byte that was found ends the string there.
abbrev pub cut_at : List ℕ → Option ℕ → List ℕ
cut_at s none = s
cut_at s (some i) = take i s

-- What `parse_line` returns: 1, -1, -2, or 0 with the entry written.
pub data Parsed : Type 0 where
  no_entry no_separator bad_tokens : Parsed
  parsed : Entry → Parsed

abbrev pub is_empty : List ℕ → Bool
is_empty [] = true
is_empty (_ ∷ _) = false

-- The tokens are written into the entry, in upper case but for the path.
pub make_entry : (tok0 tok1 tok2 path : List ℕ) → Entry
make_entry tok0 tok1 tok2 path = record {
  category = str_to_upper (strncpy (str_trim tok0) 63);
  subclass = str_to_upper (strncpy (str_trim tok1) 63);
  driver = str_to_upper (strncpy (str_trim tok2) 63);
  path = strncpy path 259;
  claimed = false;
}

-- Behind the first colon: the second token, up to the next colon, and the third.
pub parse_rest : (tok0 rest path : List ℕ) → Parsed
parse_rest tok0 rest path = elim (strchr rest b':') [
  | none ↦ bad_tokens
  | some j ↦
      if is_empty tok0 || is_empty (take j rest) || is_empty (drop (suc j) rest)
      then bad_tokens
      else parsed (make_entry tok0 (take j rest) (drop (suc j) rest) path)
]

-- The three tokens of the left side.
pub parse_tokens : (left path : List ℕ) → Parsed
parse_tokens left path = elim (strchr left b':') [
  | none ↦ bad_tokens
  | some i ↦ parse_rest (take i left) (drop (suc i) left) path
]

-- Both sides of the separator are trimmed and may not be empty.
pub parse_sides : (left path : List ℕ) → Parsed
parse_sides left path =
    if is_empty (str_trim left) || is_empty (str_trim path)
    then bad_tokens
    else parse_tokens (str_trim left) (str_trim path)

-- The separator is the first `>`, else the last colon.
pub parse_split : (line : List ℕ) → Parsed
parse_split line = elim (strchr line b'>') [
  | some i ↦ parse_sides (strncpy (take i line) 191) (strncpy (drop (suc i) line) 259)
  | none ↦ elim (strrchr line b':') [
    | none ↦ no_separator
    | some i ↦ parse_sides (strncpy (take i line) 191) (strncpy (drop (suc i) line) 259)
  ]
]

-- The line without its comment, trimmed; the buffer has 516 bytes.
pub strip_comment : List ℕ → List ℕ
strip_comment raw =
    let line = strncpy raw 515 in
    let hash = cut_at line (strchr line b'#') in str_trim (cut_at hash (strchr hash b';'))

pub parse_line : (raw : List ℕ) → Parsed
parse_line raw = if is_empty (strip_comment raw) then no_entry else parse_split (strip_comment raw)
