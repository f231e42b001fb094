-- ===== src/Strings.antt =====
-- Functions on strings of os/kernel/utilities/strings/strings.c. A string is the list of its bytes
-- before the terminating zero; a pointer into a string is the offset, and a null pointer is `none`.
-- memcpy to memchr stand with the byte functions.
pub mod Compare
pub mod Case
pub mod Search
mod Tests
use vsnx_os.Base.{
  ℕ, zero, suc, ◌+◌, ◌-◌, ◌*◌, ◌%◌, ◌^◌, Bool, true, false, not, ◌&&◌, ◌||◌, ltb, leb, ◌==◌,
  if◌then◌else◌, Option, none, some, List, [], ◌∷◌, ◌++◌, map, ℤ, pos, negsuc, sub_int, length,
  take, drop, replicate,
}

-- `strcmp`: the difference of the first two bytes that differ, the terminating zero included.
unfoldable pub strcmp : List ℕ → List ℕ → ℤ
strcmp [] [] = pos 0
strcmp [] (b ∷ _) = sub_int 0 b
strcmp (a ∷ _) [] = sub_int a 0
strcmp (a ∷ xs) (b ∷ ys) = let rest = strcmp xs ys in if a == b then rest else sub_int a b

abbrev pub is_zero : ℤ → Bool
is_zero (pos zero) = true
is_zero _ = false

abbrev pub matches : List ℕ → List ℕ → Bool
matches entry_name name = is_zero (strcmp entry_name name)

-- What a buffer holds as a string: the bytes before its first zero.
unfoldable pub until_zero : List ℕ → List ℕ
until_zero [] = []
until_zero (c ∷ cs) = let rest = until_zero cs in if c == 0 then [] else c ∷ rest

-- `strncpy(dest, src, n)` with the zero put behind: what `dest` holds then as a string.
abbrev pub strncpy : List ℕ → ℕ → List ℕ
strncpy src n = take n src

-- The bytes that `strncpy` itself writes: `n` of them, zeroes behind the string.
pub strncpy_bytes : List ℕ → ℕ → List ℕ
strncpy_bytes src zero = []
strncpy_bytes [] (suc n) = 0 ∷ strncpy_bytes [] n
strncpy_bytes (c ∷ src) (suc n) = c ∷ strncpy_bytes src n

pub strncmp : List ℕ → List ℕ → ℕ → ℤ
strncmp xs ys zero = pos 0
strncmp [] [] (suc n) = pos 0
strncmp [] (b ∷ _) (suc n) = sub_int 0 b
strncmp (a ∷ _) [] (suc n) = sub_int a 0
strncmp (a ∷ xs) (b ∷ ys) (suc n) =
    let rest = strncmp xs ys n in if a == b then rest else sub_int a b

-- `strcat`: what `dest` holds then.
abbrev pub strcat : List ℕ → List ℕ → List ℕ
strcat dest src = dest ++ src

abbrev pub strncat : List ℕ → List ℕ → ℕ → List ℕ
strncat dest src n = dest ++ take n src

abbrev pub next_offset : Option ℕ → Option ℕ
next_offset none = none
next_offset (some i) = some (suc i)

-- For a byte below 128, which a `char` holds as it is.
pub strchr : List ℕ → ℕ → Option ℕ
strchr [] c = if c == 0 then some 0 else none
strchr (x ∷ xs) c = let rest = strchr xs c in if x == c then some 0 else next_offset rest

-- `last` is what the loop has found before offset `i`.
pub strrchr_from : (i : ℕ) (last : Option ℕ) → List ℕ → ℕ → Option ℕ
strrchr_from i last [] c = if c == 0 then some i else last
strrchr_from i last (x ∷ xs) c = strrchr_from (suc i) (if x == c then some i else last) xs c

pub strrchr : List ℕ → ℕ → Option ℕ
strrchr xs c = strrchr_from 0 none xs c

-- The inner loop of `strstr`: whether it comes to the end of the needle.
pub starts_with : List ℕ → List ℕ → Bool
starts_with h [] = true
starts_with [] (n ∷ ns) = false
starts_with (x ∷ h) (n ∷ ns) = let rest = starts_with h ns in if x == n then rest else false

pub strstr_loop : List ℕ → List ℕ → Option ℕ
strstr_loop [] needle = none
strstr_loop (x ∷ h) needle =
    let rest = strstr_loop h needle in
    if starts_with (x ∷ h) needle then some 0 else next_offset rest

pub strstr : List ℕ → List ℕ → Option ℕ
strstr h [] = some 0
strstr h (n ∷ ns) = strstr_loop h (n ∷ ns)

-- `(*s >= 'A' && *s <= 'Z') ? *s + 32 : *s`
abbrev pub to_lower : ℕ → ℕ
to_lower c = if leb b'A' c && leb c b'Z' then c + 32 else c

-- The difference of two `char` values, which are signed.
abbrev pub sub_char : ℕ → ℕ → ℤ
sub_char a b = sub_int ((a + 128) % 256) ((b + 128) % 256)

-- Where one string ends, its terminating zero is compared.
unfoldable pub strcasecmp : List ℕ → List ℕ → ℤ
strcasecmp [] [] = sub_char 0 0
strcasecmp [] (b ∷ ys) = sub_char 0 (to_lower b)
strcasecmp (a ∷ xs) [] = sub_char (to_lower a) 0
strcasecmp (a ∷ xs) (b ∷ ys) =
    let rest = strcasecmp xs ys in
    if not (to_lower a == to_lower b) then sub_char (to_lower a) (to_lower b) else rest

pub strncasecmp : List ℕ → List ℕ → ℕ → ℤ
strncasecmp xs ys zero = pos 0
strncasecmp [] [] (suc n) = sub_char 0 0
strncasecmp [] (b ∷ ys) (suc n) = sub_char 0 (to_lower b)
strncasecmp (a ∷ xs) [] (suc n) = sub_char (to_lower a) 0
strncasecmp (a ∷ xs) (b ∷ ys) (suc n) =
    let rest = strncasecmp xs ys n in
    if not (to_lower a == to_lower b) then sub_char (to_lower a) (to_lower b) else rest

-- The loops of `atoi`.
abbrev pub is_space : ℕ → Bool
is_space c = c == b' ' || c == b'\t' || c == b'\n'

unfoldable pub skip_spaces : List ℕ → List ℕ
skip_spaces [] = []
skip_spaces (c ∷ cs) = let rest = skip_spaces cs in if is_space c then rest else c ∷ cs

abbrev pub is_digit : ℕ → Bool
is_digit c = leb b'0' c && leb c b'9'

unfoldable pub digits_from : (result : ℕ) → List ℕ → ℕ
digits_from result [] = result
digits_from result (c ∷ cs) = elim (is_digit c) [
  | true ↦ digits_from (result * 10 + (c - b'0')) cs
  | false ↦ result
]

-- `sign * result`
abbrev pub negate : ℕ → ℤ
negate zero = pos 0
negate (suc n) = negsuc n

abbrev pub signed_digits : List ℕ → ℤ
signed_digits [] = pos 0
signed_digits (c ∷ cs) =
    if c == b'-'
    then negate (digits_from 0 cs)
    else if c == b'+'
    then pos (digits_from 0 cs)
    else pos (digits_from 0 (c ∷ cs))

-- `int result`: `none` where it overflows, which is undefined. It only grows, so that it has overflowed
-- where its last value, the one before the sign, is not below 2 ^ 31.
abbrev pub in_int : ℤ → Option ℤ
in_int (pos n) = if ltb n (2 ^ 31) then some (pos n) else none
in_int (negsuc n) = if ltb (suc n) (2 ^ 31) then some (negsuc n) else none

unfoldable pub atoi : List ℕ → Option ℤ
atoi str = in_int (signed_digits (skip_spaces str))
