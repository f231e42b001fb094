-- ===== src/Pmm/Count.antt =====
-- How many indices below a bound pass a test.
use vsnx_os.Base.{
  ℕ, zero, suc, ◌+◌, ◌≤◌, ◌<◌, ◌≡◌, refl, Bool, true, false, arith, ◌==◌, if◌then◌else◌, Bool-cases,
  inl, inr,
}

unfoldable pub count : (ℕ → Bool) → ℕ → ℕ
count f zero = 0
count f (suc n) = if f n then count f n + 1 else count f n

pub count-le : (f : ℕ → Bool) (n : ℕ) → count f n ≤ n
unfolding count
count-le f zero = omega arith
count-le f (suc n) = ground (arith, count-le f n)

module _ (f g : ℕ → Bool) where
  pub count_congr : (n : ℕ) → ((j : ℕ) → j < n → g j ≡ f j) → count g n ≡ count f n
  unfolding count
  count_congr zero same = refl
  count_congr (suc n) same = ground (arith, same n, count_congr n (λ j h. same j (omega arith)))

  -- One more index passes.
  pub count-add :
      (i n : ℕ)
      → i < n
      → f i ≡ false
      → ((j : ℕ) → g j ≡ (if i == j then true else f j))
      → count g n ≡ count f n + 1
  unfolding count
  count-add i zero h free change = absurd (omega arith)
  count-add i (suc n) h free change = elim (Bool-cases (i == n)) [
    | inl e ↦ ground (arith, change n, count_congr n (λ j hj. below e j hj))
    | inr e ↦ ground (arith, change n, count-add i n (ground arith) free change)
  ]
    where
      below : (i == n) ≡ true → (j : ℕ) → j < n → g j ≡ f j
      below e j hj = ground (arith, change j)
