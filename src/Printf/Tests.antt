-- ===== src/Printf/Tests.antt =====
-- Runs of os/kernel/utilities/printf.c, and its theorem at a number.
use vsnx_os.Base.{◌-◌, ◌^◌, ◌≡◌, refl, none, some, [], ◌∷◌, arith, pos}
use vsnx_os.Strings.{atoi}
use vsnx_os.Printf.{
  printf, printf_loop, convert, parse_width, print_number_padded, print_signed, digits_of,
  digits_loop, backwards, number,
}
use vsnx_os.Printf.Decimal.{atoi-print_signed}

-- `%x` of 255 counts as one byte.
hexadecimal : printf (b'%' ∷ b'x' ∷ []) (number 255 ∷ []) ≡ some (b'f' ∷ b'f' ∷ [], 1)
unfolding printf printf_loop convert parse_width print_number_padded digits_of digits_loop backwards
hexadecimal = refl

atoi-print_signed_example :
    (atoi (print_signed 2147483647 10) ≡ some (pos 2147483647))
    × (atoi (print_signed (2 ^ 64 - 2147483648) 10) ≡ none)
atoi-print_signed_example = atoi-print_signed 2147483647 (omega arith)
