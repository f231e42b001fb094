-- ===== src/Pmm/Runs.antt =====
-- Runs of pages: the search that `find_contiguous_pages` (pmm.c) and `kmalloc` (pmm_api.c) share, and
-- `find_contiguous_pages` itself. The two differ in the test of a page and in how a run is taken.
use vsnx_os.Base.{
  ℕ, zero, suc, ◌+◌, ◌-◌, ◌≤◌, ◌<◌, ◌≡◌, Bool, true, false, not, arith, ◌==◌, if◌then◌else◌, Option,
  none, some, Bool-cases, inl, inr, u64_mod, add64, sub64, mul64, subst, ==_iff,
}
use vsnx_os.Pmm.{PmmInfo, page_size, page_addr, is_used, pmm_mark_page_used}

module _ (ok_page : ℕ → Bool) where
  -- The inner loop: pages `i + j` for `n` values of `j`, up to the first that fails.
  unfoldable pub run_ok : (i n j : ℕ) → Bool
  run_ok i zero j = true
  run_ok i (suc n) j = let rest = run_ok i n (j + 1) in if ok_page (add64 i j) then rest else false

  -- The outer loop: the first of `rounds` start indices from `i` on with a run of `pages_needed`.
  unfoldable pub first_run : (pages_needed rounds i : ℕ) → Option ℕ
  unfolding run_ok
  first_run n zero i = none
  first_run n (suc k) i = let rest = first_run n k (i + 1) in if run_ok i n 0 then some i else rest

-- `i <= total_pages - pages_needed` over `uint64_t`: the number of rounds.
abbrev pub last_start : PmmInfo → ℕ → ℕ
last_start p n = sub64 p.total_pages n

-- How a search ends: at a run, after the last start index, or never. It never ends where the last
-- start index is 2^64 - 1, since every `uint64_t` passes the loop's test.
pub data Search : Type 0 where
  found : ℕ → Search
  exhausted forever : Search

unfoldable pub search_run : (ℕ → Bool) → PmmInfo → ℕ → Search
unfolding first_run
search_run ok_page p n = elim (first_run ok_page n (last_start p n + 1) 0) [
  | some i ↦ Search.found i
  | none ↦ if last_start p n == u64_mod - 1 then Search.forever else Search.exhausted
]

-- The marking loop of `find_contiguous_pages`.
mark_run : PmmInfo → (i n j : ℕ) → PmmInfo
mark_run p i zero j = p
mark_run p i (suc n) j =
    let q = pmm_mark_page_used p (add64 p.memory_start (mul64 (add64 i j) page_size)) in
    mark_run (record q { free_pages = sub64 q.free_pages 1; used_pages = add64 q.used_pages 1 }) i n
      (j + 1)

-- `none`: the call never returns.
pub find_contiguous_pages : PmmInfo → ℕ → Option (ℕ × PmmInfo)
unfolding search_run mark_run pmm_mark_page_used
find_contiguous_pages p n = elim (search_run (λ i. not (is_used p i)) p n) [
  | found i ↦ some (page_addr p i, mark_run p i n 0)
  | exhausted ↦ some (0, p)
  | forever ↦ none
]

module _ (ok_page : ℕ → Bool) where
  at_zero : (i j : ℕ) {b : Bool} → ok_page (add64 i j) ≡ b → ok_page (add64 i (j + 0)) ≡ b
  at_zero i j {b} h = let e : j ≡ j + 0 = omega arith in subst (λ t. ok_page (add64 i t) ≡ b) e h

  at_suc :
      (i j k : ℕ) {b : Bool} → ok_page (add64 i (j + 1 + k)) ≡ b → ok_page (add64 i (j + suc k)) ≡ b
  at_suc i j k {b} h =
      let e : j + 1 + k ≡ j + suc k = omega arith in subst (λ t. ok_page (add64 i t) ≡ b) e h

  pub run_ok-true :
      (i n j : ℕ) → run_ok ok_page i n j ≡ true → (k : ℕ) → k < n → ok_page (add64 i (j + k)) ≡ true
  unfolding run_ok
  run_ok-true i zero j h k hk = absurd (omega arith)
  run_ok-true i (suc n) j h zero hk = at_zero i j (ground arith)
  run_ok-true i (suc n) j h (suc k) hk =
      at_suc i j k (run_ok-true i n (j + 1) (ground arith) k (omega arith))

  run_ok-false :
      (i n j : ℕ)
      → run_ok ok_page i n j ≡ false
      → (k : ℕ) × (k < n) × (ok_page (add64 i (j + k)) ≡ false)
  unfolding run_ok
  run_ok-false i zero j h = absurd (cc)
  run_ok-false i (suc n) j h = elim (Bool-cases (ok_page (add64 i j))) [
    | inr bad ↦ (0, omega arith, at_zero i j bad)
    | inl good ↦
        let (k, hk, bad) = run_ok-false i n (j + 1) (ground arith) in
        (suc k, omega (arith, hk), at_suc i j k bad)
  ]

  -- What a search finds: `k` starts a run, and no start before it does.
  pub record FirstRun (n rounds i k : ℕ) : Type 0 where
    pub from : i ≤ k
    pub to : k < i + rounds
    pub run : run_ok ok_page k n 0 ≡ true
    pub before : (j : ℕ) → i ≤ j → j < k → run_ok ok_page j n 0 ≡ false

  first_run-suc :
      (n rounds i : ℕ)
      → first_run ok_page n (suc rounds) i
        ≡ (if run_ok ok_page i n 0 then some i else first_run ok_page n rounds (i + 1))
  unfolding first_run
  first_run-suc n rounds i = ground arith

  FirstRun-here : (n rounds i : ℕ) → run_ok ok_page i n 0 ≡ true → FirstRun n (suc rounds) i i
  FirstRun-here n rounds i run = record {
    from = omega arith;
    to = omega arith;
    run = run;
    before = λ j lo hi. absurd (omega arith);
  }

  FirstRun-next :
      {n rounds i k : ℕ}
      → run_ok ok_page i n 0 ≡ false
      → FirstRun n rounds (i + 1) k
      → FirstRun n (suc rounds) i k
  FirstRun-next {n} {i} bad f = record {
    from = omega (arith, f.from);
    to = omega (arith, f.to);
    run = f.run;
    before = λ j lo hi. elim (Bool-cases (i == j)) [
      | inl here ↦ subst (λ t. run_ok ok_page t n 0 ≡ false) ((==_iff i j).0 here) bad
      | inr later ↦ f.before j (ground arith) hi
    ];
  }

  pub first_run-some :
      (n rounds i : ℕ) {k : ℕ} → first_run ok_page n rounds i ≡ some k → FirstRun n rounds i k
  unfolding first_run
  first_run-some n zero i h = absurd (cc)
  first_run-some n (suc rounds) i {k} h = elim (Bool-cases (run_ok ok_page i n 0)) [
    | inl run ↦
        let here : i ≡ k = ground (arith, first_run-suc n rounds i) in
        subst (FirstRun n (suc rounds) i) here (FirstRun-here n rounds i run)
    | inr bad ↦
        FirstRun-next bad
          (first_run-some n rounds (i + 1) (ground (arith, first_run-suc n rounds i)))
  ]

  pub first_run-none :
      (n rounds i : ℕ)
      → first_run ok_page n rounds i ≡ none
      → (j : ℕ) → i ≤ j
      → j < i + rounds
      → run_ok ok_page j n 0 ≡ false
  first_run-none n zero i h j lo hi = absurd (omega arith)
  first_run-none n (suc rounds) i h j lo hi = elim (Bool-cases (i == j)) [
    | inl here ↦
        subst (λ t. run_ok ok_page t n 0 ≡ false) ((==_iff i j).0 here)
          (ground (arith, first_run-suc n rounds i))
    | inr later ↦
        first_run-none n rounds (i + 1) (ground (arith, first_run-suc n rounds i)) j (ground arith)
          (omega arith)
  ]

  -- A run that passes the test and does not reach the end of the index range.
  pub run_ok-IsRun :
      (i n : ℕ)
      → i + n ≤ u64_mod
      → run_ok ok_page i n 0 ≡ true
      → (j : ℕ) → j < n
      → ok_page (i + j) ≡ true
  run_ok-IsRun i n fits h j hj =
      let e : add64 i (0 + j) ≡ i + j = omega arith in
      subst (λ t. ok_page t ≡ true) e (run_ok-true i n 0 h j hj)

  pub run_ok-gap :
      (i n : ℕ)
      → i + n ≤ u64_mod
      → run_ok ok_page i n 0 ≡ false
      → (j : ℕ) × (j < n) × (ok_page (i + j) ≡ false)
  run_ok-gap i n fits h =
      let (j, hj, bad) = run_ok-false i n 0 h in
      let e : add64 i (0 + j) ≡ i + j = omega arith in (j, hj, subst (λ t. ok_page t ≡ false) e bad)
