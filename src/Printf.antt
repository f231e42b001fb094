-- ===== src/Printf.antt =====
-- Formatted printing: os/kernel/utilities/printf.c. What is printed is the list of the bytes that
-- putchar_output gets. An argument is the 64 bits of a number or a string; `none` stands for behaviour
-- that C leaves undefined: an argument that is missing or of another kind, and a format that ends
-- behind a percent sign.
pub mod Decimal
mod Tests
use vsnx_os.Base.{
  ℕ, zero, suc, ◌+◌, ◌-◌, ◌*◌, ◌/◌, ◌%◌, ◌^◌, Bool, true, false, ◌&&◌, ◌||◌, ltb, leb, ◌==◌,
  if◌then◌else◌, Option, none, some, List, [], ◌∷◌, ◌++◌, length, replicate, u32_mod, u64_mod,
}

-- `digits[d]`
abbrev pub digit_char : (uppercase : Bool) (d : ℕ) → ℕ
digit_char uppercase d =
    if ltb d 10 then b'0' + d else if uppercase then b'A' + d - 10 else b'a' + d - 10

-- The digits of a number above 0, the last first.
unfoldable pub digits_loop : (fuel num base : ℕ) (uppercase : Bool) → List ℕ
digits_loop zero num base uppercase = []
digits_loop (suc n) num base uppercase =
    let rest = digits_loop n (num / base) base uppercase in
    if num == 0 then [] else digit_char uppercase (num % base) ∷ rest

-- A 64-bit number has at most 64 digits.
unfoldable pub digits_of : (num base : ℕ) (uppercase : Bool) → List ℕ
digits_of num base uppercase = if num == 0 then b'0' ∷ [] else digits_loop 64 num base uppercase

-- The loop that prints the buffer from its end.
unfoldable pub backwards : List ℕ → List ℕ → List ℕ
backwards [] printed = printed
backwards (c ∷ cs) printed = backwards cs (c ∷ printed)

-- The buffer is padded up to the width.
unfoldable pub print_number_padded : (num base : ℕ) (uppercase : Bool) (width pad : ℕ) → List ℕ
print_number_padded num base uppercase width pad =
    let buffer = digits_of num base uppercase in
    backwards (buffer ++ replicate (width - length buffer) pad) []

-- For the 64 bits of a signed number.
unfoldable pub print_signed : (num base : ℕ) → List ℕ
print_signed num base =
    if leb (2 ^ 63) num
    then b'-' ∷ print_number_padded ((u64_mod - num) % u64_mod) base false 0 b' '
    else print_number_padded num base false 0 b' '

pub data Arg : Type 0 where
  number : ℕ → Arg
  text : List ℕ → Arg
  null_text : Arg

-- An `int` as the 64 bits of the number that it is widened to.
abbrev pub widened : ℕ → ℕ
widened n = if leb (2 ^ 31) (n % u32_mod) then u64_mod - u32_mod + n % u32_mod else n % u32_mod

abbrev pub is_digit_char : ℕ → Bool
is_digit_char c = leb b'0' c && leb c b'9'

pub parse_width : (width : ℕ) → List ℕ → ℕ × List ℕ
parse_width width [] = (width, [])
parse_width width (c ∷ cs) =
    let rest = parse_width (width * 10 + (c - b'0')) cs in
    if is_digit_char c then rest else (width, c ∷ cs)

abbrev pub parse_pad : List ℕ → ℕ × List ℕ
parse_pad [] = (b' ', [])
parse_pad (c ∷ cs) = if c == b'0' then (b'0', cs) else (b' ', c ∷ cs)

abbrev pub parse_long : List ℕ → Bool × List ℕ
parse_long [] = (false, [])
parse_long (c ∷ cs) = if c == b'l' then (true, cs) else (false, c ∷ cs)

-- What one conversion prints, what it adds to the count, and the arguments behind.
abbrev pub Printed : Type 0
Printed = Option (List ℕ × ℕ × List Arg)

abbrev pub printed_number : (print : ℕ → List ℕ) → List Arg → Printed
printed_number print (number n ∷ args) = some (print n, 1, args)
printed_number print _ = none

abbrev pub printed_text : List Arg → Printed
printed_text (text s ∷ args) = some (s, length s, args)
printed_text (null_text ∷ args) = some (b'(' ∷ b'n' ∷ b'u' ∷ b'l' ∷ b'l' ∷ b')' ∷ [], 6, args)
printed_text _ = none

abbrev pub unsigned_arg : (is_long : Bool) → ℕ → ℕ
unsigned_arg is_long n = if is_long then n % u64_mod else n % u32_mod

abbrev pub signed_arg : (is_long : Bool) → ℕ → ℕ
signed_arg is_long n = if is_long then n % u64_mod else widened n

-- The switch over the conversion.
pub convert : (c : ℕ) (is_long : Bool) (width pad : ℕ) → List Arg → Printed
convert c is_long width pad args =
    if c == b'c'
    then printed_number (λ n. (n % 256) ∷ []) args
    else if c == b's'
    then printed_text args
    else if c == b'd' || c == b'i'
    then printed_number (λ n. print_signed (signed_arg is_long n) 10) args
    else if c == b'u'
    then printed_number (λ n. print_number_padded (unsigned_arg is_long n) 10 false width pad) args
    else if c == b'x'
    then printed_number (λ n. print_number_padded (unsigned_arg is_long n) 16 false width pad) args
    else if c == b'X'
    then printed_number (λ n. print_number_padded (unsigned_arg is_long n) 16 true width pad) args
    else if c == b'p'
    then printed_number (λ n. b'0' ∷ b'x' ∷ print_number_padded (n % u64_mod) 16 false 16 b'0') args
    else if c == b'%'
    then some (b'%' ∷ [], 1, args)
    else some (b'%' ∷ c ∷ [], 2, args)

abbrev pub in_front : (bytes : List ℕ) (count : ℕ) → Option (List ℕ × ℕ) → Option (List ℕ × ℕ)
in_front bytes count none = none
in_front bytes count (some (printed, more)) = some (bytes ++ printed, count + more)

-- One round for each byte of the format at most.
pub printf_loop : (fuel : ℕ) (format : List ℕ) → List Arg → Option (List ℕ × ℕ)
printf_loop zero format args = none
printf_loop (suc n) [] args = some ([], 0)
printf_loop (suc n) (c ∷ cs) args = elim (c == b'%') [
  | false ↦ in_front (c ∷ []) 1 (printf_loop n cs args)
  | true ↦
      let pad = parse_pad cs in
      let width = parse_width 0 (pad.1) in
      let long = parse_long (width.1) in
      elim (long.1) [
        | [] ↦ none
        | conv ∷ rest ↦ elim (convert conv (long.0) (width.0) (pad.0) args) [
          | none ↦ none
          | some (bytes, count, args') ↦ in_front bytes count (printf_loop n rest args')
        ]
      ]
]

-- What is printed and the count that is returned.
pub printf : (format : List ℕ) → List Arg → Option (List ℕ × ℕ)
printf format args = printf_loop (suc (length format)) format args
