-- ===== src/Printf/Decimal.antt =====
-- Decimal numbers printed by os/kernel/utilities/printf.c, read back by atoi of
-- os/kernel/utilities/strings/strings.c.
use vsnx_os.Base.{
  ℕ, zero, suc, ◌+◌, ◌-◌, ◌*◌, ◌/◌, ◌%◌, ◌^◌, ◌≤◌, ◌<◌, ◌≡◌, refl, ◌≢◌, inl, inr, true, false, ltb,
  leb, ◌==◌, List, [], ◌∷◌, ◌++◌, length, arith, Bool-cases, ==_iff, ==-ne, ==-ne_iff, sym, ap, ◌∙◌,
  pos, negsuc, none, some, if◌then◌else◌,
}
use vsnx_os.Strings.{digits_from, is_digit, is_space, skip_spaces, atoi, in_int, negate}
use vsnx_os.Printf.{
  digits_loop, digits_of, digit_char, backwards, print_number_padded, print_signed,
}

abbrev pub StartsDigit : List ℕ → Type 0
StartsDigit [] = ⊥
StartsDigit (c ∷ cs) = (b'0' ≤ c) × (c ≤ b'9')

-- The numbers of at most `n` digits lie below.
abbrev powers : ℕ → ℕ
powers zero = 1
powers (suc n) = 10 * powers n

digit-of : (m : ℕ) → digit_char false (m % 10) ≡ b'0' + m % 10
digit-of m = let small : ltb (m % 10) 10 ≡ true = ground arith in rw small refl

-- A digit is read behind a number.
digits_from-digit :
    (r d : ℕ) (s : List ℕ) → d < 10 → digits_from r ((b'0' + d) ∷ s) ≡ digits_from (r * 10 + d) s
unfolding digits_from
digits_from-digit r d s h =
    let digit : is_digit (b'0' + d) ≡ true = ground (arith, h) in
    let value : b'0' + d - b'0' ≡ d = omega arith in rw (digit, value, digits_from) refl

-- What is printed in front of `s` is read as the number in front of it.
digits_loop-digits_from :
    (n m : ℕ) (s : List ℕ)
    → m < powers n
    → digits_from 0 (backwards (digits_loop n m 10 false) s) ≡ digits_from m s
unfolding digits_loop backwards
digits_loop-digits_from zero m s h = ap (λ x. digits_from x s) (omega (arith, h))
digits_loop-digits_from (suc n) m s h = elim (Bool-cases (m == 0)) [
  | inl null ↦ rw null (ap (λ x. digits_from x s) (sym ((==_iff m 0).0 null)))
  | inr more ↦
      rw (more, digit-of m)
        (digits_loop-digits_from n (m / 10) ((b'0' + m % 10) ∷ s) (omega (arith, h))
          ∙ (digits_from-digit (m / 10) (m % 10) s (omega arith)
              ∙ ap (λ x. digits_from x s) (omega arith)))
]

backwards-StartsDigit :
    (n m : ℕ) (s : List ℕ) → StartsDigit s → StartsDigit (backwards (digits_loop n m 10 false) s)
unfolding digits_loop backwards
backwards-StartsDigit zero m s h = h
backwards-StartsDigit (suc n) m s h = elim (Bool-cases (m == 0)) [
  | inl null ↦ rw null h
  | inr more ↦
      rw (more, digit-of m)
        (backwards-StartsDigit n (m / 10) ((b'0' + m % 10) ∷ s) (omega arith, omega arith))
]

loop-StartsDigit : (n m : ℕ) → m ≢ 0 → StartsDigit (backwards (digits_loop (suc n) m 10 false) [])
unfolding digits_loop backwards
loop-StartsDigit n m ne =
    rw (==-ne m 0 ne, digit-of m)
      (backwards-StartsDigit n (m / 10) ((b'0' + m % 10) ∷ []) (omega arith, omega arith))

append-nil : (xs : List ℕ) → xs ++ [] ≡ xs
append-nil [] = refl
append-nil (x ∷ xs) = ap (λ l. x ∷ l) (append-nil xs)

-- A decimal number without a width.
printed-digits :
    (m : ℕ) → print_number_padded m 10 false 0 b' ' ≡ backwards (digits_of m 10 false) []
unfolding print_number_padded
printed-digits m =
    let nothing : 0 - length (digits_of m 10 false) ≡ 0 = omega arith in
    rw (nothing, append-nil (digits_of m 10 false)) refl

-- What is read and how it starts.
printed_lem :
    (m : ℕ)
    → m < 2 ^ 64
    → (digits_from 0 (print_number_padded m 10 false 0 b' ') ≡ m)
      × StartsDigit (print_number_padded m 10 false 0 b' ')
unfolding digits_of backwards digits_from
printed_lem m h = elim (Bool-cases (m == 0)) [
  | inl null ↦ rw (printed-digits m, null) (sym ((==_iff m 0).0 null), (omega arith, omega arith))
  | inr more ↦
      rw (printed-digits m, more)
        (
          digits_loop-digits_from 64 m [] (omega (arith, h)),
          loop-StartsDigit 63 m ((==-ne_iff m 0).0 more),
        )
]

atoi-digits : (s : List ℕ) → StartsDigit s → atoi s ≡ in_int (pos (digits_from 0 s))
unfolding atoi skip_spaces
atoi-digits [] h = absurd h
atoi-digits (c ∷ cs) (low, high) =
    let space : is_space c ≡ false = ground (arith, low) in
    let minus = ==-ne c b'-' (λ e. omega (arith, e, low)) in
    let plus = ==-ne c b'+' (λ e. omega (arith, e, low)) in rw (space, minus, plus) refl

atoi-minus : (s : List ℕ) → atoi (b'-' ∷ s) ≡ in_int (negate (digits_from 0 s))
unfolding atoi skip_spaces
atoi-minus s = refl

-- `atoi` reads back what `print_signed` prints in decimal: a number below 2 ^ 31 from its digits, and
-- one above 2 ^ 64 - 2 ^ 31, which stands for a negative number, with its sign. For 2 ^ 64 - 2 ^ 31
-- itself, printed as -2147483648, the `int` of `atoi` overflows.
pub atoi-print_signed :
    (n : ℕ)
    → n < 2 ^ 31
    → (atoi (print_signed n 10) ≡ some (pos n))
      × (atoi (print_signed (2 ^ 64 - suc n) 10)
          ≡ (if ltb (suc n) (2 ^ 31) then some (negsuc n) else none))
unfolding print_signed
atoi-print_signed n h =
    let (value, digit) = printed_lem n (omega (arith, h)) in
    let (value', digit') = printed_lem (suc n) (omega (arith, h)) in
    let within : ltb n (2 ^ 31) ≡ true = ground (arith, h) in
    let small : leb (2 ^ 63) n ≡ false = ground (arith, h) in
    let large : leb (2 ^ 63) (2 ^ 64 - suc n) ≡ true = ground (arith, h) in
    let minus : (2 ^ 64 - (2 ^ 64 - suc n)) % 2 ^ 64 ≡ suc n = omega (arith, h) in
    (
      rw small (
          atoi-digits (print_number_padded n 10 false 0 b' ') digit
          ∙ (ap (λ x. in_int (pos x)) value ∙ (rw within refl))),
      rw (large, minus)
          (atoi-minus (print_number_padded (suc n) 10 false 0 b' ')
            ∙ ap (λ x. in_int (negate x)) value'),
    )
