-- ===== src/Base/Fields.antt =====
-- `|` of an aligned address and flags that fit below the alignment is their sum.
use Prim.Native.Nat.{
  ℕ, zero, suc, ◌+◌, ◌*◌, ◌/◌, ◌^◌, ◌≤◌, ◌<◌, max, bit_or, digits, bit_or-bitwise,
}
use mathlib.Core.Path.{◌≡◌, refl, ◌∙◌, ap}
use native.Mathlib.Nat.{pow-suc}
use native.Mathlib.Omega.{arith}

-- The definition that `bit_or` stands for, with its fuel.
abbrev or_digits : ℕ → ℕ → ℕ → ℕ
or_digits fuel a b = digits (λ b. b) max fuel a b

or_digits-zero : (fuel a : ℕ) → a ≤ fuel → or_digits fuel a 0 ≡ a
or_digits-zero zero zero enough = refl
or_digits-zero (suc fuel) zero enough = refl
or_digits-zero zero (suc a) enough = absurd (omega arith)
or_digits-zero (suc fuel) (suc a) enough =
    omega (arith, or_digits-zero fuel (suc a / 2) (omega arith))

half_field : (k q a : ℕ) → a ≡ q * 2 ^ suc k → a / 2 ≡ q * 2 ^ k
half_field k q a e = omega (arith, ap (λ (t : ℕ). q * t) (pow-suc 2 k))

even_field : (k q a : ℕ) → a ≡ q * 2 ^ suc k → a ≡ 2 * (a / 2)
even_field k q a e = omega (arith, ap (λ (t : ℕ). q * t) (pow-suc 2 k))

half_rest : (k r : ℕ) → r < 2 ^ suc k → r / 2 < 2 ^ k
half_rest k r fits = omega (arith, pow-suc 2 k)

or_digits-field :
    (k fuel a q r : ℕ) → a ≡ q * 2 ^ k → r < 2 ^ k → a ≤ fuel → or_digits fuel a r ≡ a + r
or_digits-field zero fuel a q zero e fits enough = omega (arith, or_digits-zero fuel a enough)
or_digits-field zero fuel a q (suc r) e fits enough = absurd (omega arith)
or_digits-field (suc k) zero zero q r e fits enough = omega arith
or_digits-field (suc k) (suc fuel) zero q r e fits enough = omega arith
or_digits-field (suc k) zero (suc a) q r e fits enough = absurd (omega arith)
or_digits-field (suc k) (suc fuel) (suc a) q r e fits enough = omega (
  arith,
  even_field k q (suc a) e,
  or_digits-field k fuel (suc a / 2) q (r / 2) (half_field k q (suc a) e) (half_rest k r fits)
      (omega arith),
)

pub bit_or-aligned : (k q r : ℕ) → r < 2 ^ k → bit_or (q * 2 ^ k) r ≡ q * 2 ^ k + r
bit_or-aligned k q r fits =
    bit_or-bitwise (q * 2 ^ k) r
    ∙ or_digits-field k (q * 2 ^ k) (q * 2 ^ k) q r refl fits (omega arith)
