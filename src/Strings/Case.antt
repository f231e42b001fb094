-- ===== src/Strings/Case.antt =====
-- strcasecmp of os/kernel/utilities/strings/strings.c: it returns 0 exactly for strings that are equal
-- up to case.
use vsnx_os.Base.{
  ℕ, ◌+◌, ◌%◌, ◌<◌, ◌≡◌, refl, ◌≢◌, ◌↔◌, Bool, true, false, arith, ◌==◌, List, [], ◌∷◌, Bool-cases,
  inl, inr, ==_iff, ==-ne_iff, sym,
}
use vsnx_os.Strings.{strcasecmp, to_lower, sub_char, is_zero}
use vsnx_os.Strings.Compare.{is_zero-sub_int}

-- A string of bytes.
abbrev pub IsBytes : List ℕ → Type 0
IsBytes [] = Unit
IsBytes (a ∷ xs) = (0 < a) × (a < 256) × IsBytes xs

is_zero-sub_char : (a b : ℕ) → a < 256 → b < 256 → a ≢ b → is_zero (sub_char a b) ≡ false
is_zero-sub_char a b ha hb ne =
    is_zero-sub_int ((a + 128) % 256) ((b + 128) % 256) (λ e. ne (omega (arith, e)))

-- Equal up to the case of the letters A to Z.
abbrev pub SameCase : List ℕ → List ℕ → Type 0
SameCase [] [] = Unit
SameCase [] (b ∷ ys) = ⊥
SameCase (a ∷ xs) [] = ⊥
SameCase (a ∷ xs) (b ∷ ys) = (to_lower a ≡ to_lower b) × SameCase xs ys

abbrev pub equal_case : List ℕ → List ℕ → Bool
equal_case xs ys = is_zero (strcasecmp xs ys)

lower-lt : (a : ℕ) → a < 256 → to_lower a < 256
lower-lt a h = ground arith

lower_pos : (a : ℕ) → 0 < a → to_lower a ≢ 0
lower_pos a h e = ground arith

-- For strings, `strcasecmp` returns 0 exactly when they are equal up to case.
pub strcasecmp_iff :
    (xs ys : List ℕ) → IsBytes xs → IsBytes ys → (equal_case xs ys ≡ true) ↔ SameCase xs ys
unfolding strcasecmp
strcasecmp_iff [] [] sx sy = (λ h. tt, λ h. refl)
strcasecmp_iff [] (b ∷ ys) sx (pb, hb, sy) =
    let differ =
      is_zero-sub_char 0 (to_lower b) (omega arith) (lower-lt b hb) (λ e. lower_pos b pb (sym e)) in
    (λ h. cc (h, differ), λ h. absurd h)
strcasecmp_iff (a ∷ xs) [] (pa, ha, sx) sy =
    let differ = is_zero-sub_char (to_lower a) 0 (lower-lt a ha) (omega arith) (lower_pos a pa) in
    (λ h. cc (h, differ), λ h. absurd h)
strcasecmp_iff (a ∷ xs) (b ∷ ys) (pa, ha, sx) (pb, hb, sy) =
    let rest = strcasecmp_iff xs ys sx sy in
    elim (Bool-cases (to_lower a == to_lower b)) [
      | inl same ↦
          let e = (==_iff (to_lower a) (to_lower b)).0 same in
          rw same (λ h. (e, rest.0 h), λ h. rest.1 h.1)
      | inr apart ↦
          let ne = (==-ne_iff (to_lower a) (to_lower b)).0 apart in
          let differ =
            is_zero-sub_char (to_lower a) (to_lower b) (lower-lt a ha) (lower-lt b hb) ne in
          rw apart (λ h. cc (h, differ), λ h. absurd (ne h.0))
    ]
