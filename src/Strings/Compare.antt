-- ===== src/Strings/Compare.antt =====
-- strcmp of os/kernel/utilities/strings/strings.c: it returns 0 exactly for equal strings.
use vsnx_os.Base.{
  ℕ, zero, suc, ◌-◌, ◌<◌, ◌≡◌, refl, ◌≢◌, true, false, arith, leb, ◌==◌, List, [], ◌∷◌, Bool-cases,
  inl, inr, ==_iff, ==-ne_iff, ap₂, pos, sub_int,
}
use vsnx_os.Strings.{strcmp, is_zero, matches}

-- No byte of the string is the terminator.
abbrev pub IsString : List ℕ → Type 0
IsString [] = Unit
IsString (a ∷ xs) = (0 < a) × IsString xs

pub is_zero-pos : (n : ℕ) → n ≢ 0 → is_zero (pos n) ≡ false
is_zero-pos zero ne = absurd (ne refl)
is_zero-pos (suc n) ne = refl

pub is_zero-sub_int : (a b : ℕ) → a ≢ b → is_zero (sub_int a b) ≡ false
is_zero-sub_int a b ne = elim (Bool-cases (leb b a)) [
  | inl above ↦ rw above (is_zero-pos (a - b) (λ e. ne (ground arith)))
  | inr below ↦ rw below refl
]

pub matches_refl : (xs : List ℕ) → matches xs xs ≡ true
unfolding strcmp
matches_refl [] = refl
matches_refl (a ∷ xs) = ground (arith, matches_refl xs)

pub matches-eq : (xs ys : List ℕ) → IsString xs → IsString ys → matches xs ys ≡ true → xs ≡ ys
unfolding strcmp
matches-eq [] [] sx sy h = refl
matches-eq [] (b ∷ ys) sx (pb, sy) h = absurd (cc (h, is_zero-sub_int 0 b (λ e. omega (arith, e))))
matches-eq (a ∷ xs) [] (pa, sx) sy h = absurd (cc (h, is_zero-sub_int a 0 (λ e. omega (arith, e))))
matches-eq (a ∷ xs) (b ∷ ys) (pa, sx) (pb, sy) h = elim (Bool-cases (a == b)) [
  | inl same ↦ ap₂ (λ c zs. c ∷ zs) ((==_iff a b).0 same) (matches-eq xs ys sx sy (ground arith))
  | inr differ ↦ absurd (ground (arith, is_zero-sub_int a b ((==-ne_iff a b).0 differ)))
]
