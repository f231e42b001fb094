-- ===== src/Clock/Order.antt =====
-- The readers of the clock, os/kernel/systemclock/clock.c: the stable read of `time_now_ms`, and the
-- comparisons that allow for wrap-around.
use vsnx_os.Base.{
  ℕ, zero, suc, ◌+◌, ◌*◌, ◌^◌, ◌≤◌, ◌<◌, ◌≡◌, ◌↔◌, true, false, arith, some, u64_mod, add64, sub64,
  Bool-cases, inl, inr, subst,
}
use vsnx_os.Clock.{SystemTime, same_time, to_ms, time_now_ms, time_after, time_before}

same_time-eq : (s t : SystemTime) → same_time s t ≡ true → s ≡ t
same_time-eq s t h = ground arith

same_time-of : (s t : SystemTime) → s ≡ t → same_time s t ≡ true
same_time-of s t e = ground arith

-- What a read that ends has seen: two equal snapshots in a row, whose milliseconds it returns.
abbrev pub Stable : (ℕ → SystemTime) → (k ms : ℕ) → Type 0
Stable reads k ms = (j : ℕ) × (k ≤ j) × (reads j ≡ reads (j + 1)) × (ms ≡ to_ms (reads j))

module _ (reads : ℕ → SystemTime) where
  time_now_ms-some : (n k : ℕ) {ms : ℕ} → time_now_ms reads n k ≡ some ms → Stable reads k ms
  unfolding time_now_ms
  time_now_ms-some zero k h = absurd (cc)
  time_now_ms-some (suc n) k h = elim (Bool-cases (same_time (reads k) (reads (k + 1)))) [
    | inl same ↦ (k, omega arith, same_time-eq (reads k) (reads (k + 1)) same, ground arith)
    | inr differ ↦
        let (j, lo, same, e) = time_now_ms-some n (k + 2) (ground arith) in
        (j, omega arith, same, e)
  ]

  ends :
      (m n k : ℕ)
      → m < n
      → reads (k + 2 * m) ≡ reads (k + 2 * m + 1)
      → (ms : ℕ) × (time_now_ms reads n k ≡ some ms)
  unfolding time_now_ms
  ends m zero k h same = absurd (omega arith)
  ends zero (suc n) k h same =
      let z : k + 2 * 0 ≡ k = omega arith in
      let now : reads k ≡ reads (k + 1) = subst (λ t. reads t ≡ reads (t + 1)) z same in
      (to_ms (reads k), rw (same_time-of (reads k) (reads (k + 1)) now))
  ends (suc m) (suc n) k h same = elim (Bool-cases (same_time (reads k) (reads (k + 1)))) [
    | inl now ↦ (to_ms (reads k), rw now)
    | inr differ ↦
        let z : k + 2 * suc m ≡ k + 2 + 2 * m = omega arith in
        rw differ (ends m n (k + 2) (omega arith) (subst (λ t. reads t ≡ reads (t + 1)) z same))
  ]

  -- Once two reads of a round agree, `time_now_ms` returns, and what it returns are the milliseconds
  -- of a snapshot that was read twice in a row, never of one that changed between the reads.
  pub time_now_ms-Stable :
      (m n k : ℕ)
      → m < n
      → reads (k + 2 * m) ≡ reads (k + 2 * m + 1)
      → (ms : ℕ) × (time_now_ms reads n k ≡ some ms) × Stable reads k ms
  time_now_ms-Stable m n k h same =
      let (ms, e) = ends m n k h same in (ms, e, time_now_ms-some n k e)

-- A time up to 2^63 - 1 milliseconds after another is after it and not before it, also where the
-- count has wrapped between the two; so is a time that much before.
pub time_after-add :
    (b d : ℕ)
    → b < u64_mod
    → 0 < d
    → d < 2 ^ 63
    → (time_after (add64 b d) b ≡ true)
      × (time_before (add64 b d) b ≡ false)
      × (time_before b (add64 b d) ≡ true)
      × (time_after b (add64 b d) ≡ false)
unfolding time_after time_before
time_after-add b d hb pos hd = ground arith

-- Two times are each after the other exactly when they are 2^63 apart, and neither is after the
-- other exactly when they are equal.
pub time_after_total :
    (a b : ℕ)
    → a < u64_mod
    → b < u64_mod
    → (((time_after a b ≡ true) × (time_after b a ≡ true)) ↔ (sub64 a b ≡ 2 ^ 63))
      × (((time_after a b ≡ false) × (time_after b a ≡ false)) ↔ (a ≡ b))
unfolding time_after
time_after_total a b ha hb = (
  (λ h. ground arith, λ h. (ground arith, ground arith)),
  (λ h. ground arith, λ h. (ground arith, ground arith)),
)
