-- ===== src/Kmalloc/Result.antt =====
-- kmalloc of os/kernel/hal/mem/k_mem/pmm_api.c against its contract: a run of pages is handed out
-- exactly when one is left.
use vsnx_os.Base.{
  ℕ, ◌+◌, ◌-◌, ◌*◌, ◌≤◌, ◌<◌, ◌≡◌, refl, Bool, true, false, arith, ◌==◌, Option, some, Option-cases,
  Bool-cases, inl, inr, u64_mod, subst, ==_iff,
}
use vsnx_os.Mmap.{MemoryMap}
use vsnx_os.Pmm.{PmmInfo, page_size, page_addr, is_used}
use vsnx_os.Pmm.Valid.{IsValid, page_addr_lem}
use vsnx_os.Pmm.Alloc.{Allocated, took, full, pmm_alloc_page-Allocated, usable}
use vsnx_os.Pmm.Runs.{
  run_ok, first_run, first_run-some, first_run-none, run_ok-IsRun, run_ok-gap, search_run,
  last_start,
}
use vsnx_os.Pmm.Claim.{Claimed, Claimed-take_page, claim_run, claim_run-Claimed}
use vsnx_os.Kmalloc.{pages_for, is_candidate, kmalloc_pages, kmalloc}

module _ (mmap : MemoryMap) (p : PmmInfo) (n : ℕ) where
  -- Either the first `n` candidates in a row are taken and the address of the first is returned, or
  -- every place for `n` pages has one that is no candidate, and 0 is returned.
  pub data Served : Option (ℕ × PmmInfo) → Type 0 where
    served :
        {q : PmmInfo} {addr : ℕ} (i : ℕ)
        → addr ≡ p.memory_start + i * page_size
        → i + n ≤ p.total_pages
        → ((j : ℕ) → j < n → is_candidate mmap p (i + j) ≡ true)
        → Claimed p i (i + n) q
        → Served (some (addr, q))
    refused :
        ((i : ℕ)
          → i + n ≤ p.total_pages
          → (j : ℕ) × (j < n) × (is_candidate mmap p (i + j) ≡ false))
        → Served (some (0, p))

module _ (mmap : MemoryMap) {p : PmmInfo} (v : IsValid p) where
  kmalloc_pages-Served :
      (n : ℕ) → 0 < n → n ≤ p.total_pages → Served mmap p n (kmalloc_pages mmap p n)
  unfolding kmalloc_pages search_run
  kmalloc_pages-Served n pos fits = elim (Option-cases (first_run test n (last_start p n + 1) 0)) [
    | inr (i, e) ↦
        let f = first_run-some test n (last_start p n + 1) 0 e in
        rw (e, kmalloc_pages) (serve i (omega (arith, f.to, last)) f.run)
    | inl e ↦
        rw (e, not_forever, kmalloc_pages)
          (refused λ i hi.
            run_ok-gap test i n (omega (arith, v.extent, v.fits)) (
              first_run-none test n (last_start p n + 1) 0 e i (omega arith) (omega (arith, last))))
  ]
    where
      test : ℕ → Bool
      test = is_candidate mmap p

      last : last_start p n ≡ p.total_pages - n
      last = omega (arith, v.extent, v.fits)

      not_forever : (last_start p n == u64_mod - 1) ≡ false
      not_forever = ground (arith, last, v.extent, v.fits)

      serve :
          (i : ℕ)
          → i + n ≤ p.total_pages
          → run_ok test i n 0 ≡ true
          → Served mmap p n (some (page_addr p i, claim_run p i n 0))
      serve i hi run =
          let good = run_ok-IsRun test i n (omega (arith, v.extent, v.fits)) run in
          served i (page_addr_lem v i (omega arith)) hi good (
            claim_run-Claimed n i 0 i (i + n) (omega arith) refl v hi
              (λ k hk. ground (arith, good k hk)))

  Allocated-Served : {r : ℕ × PmmInfo} → Allocated mmap p r → Served mmap p 1 (some r)
  Allocated-Served (took k hk good first) =
      let free : is_used p k ≡ false = ground arith in
      served k (page_addr_lem v k hk) (omega arith) (only k good) (Claimed-take_page v k hk free)
    where
      only : (k : ℕ) → usable mmap p k ≡ true → (j : ℕ) → j < 1 → is_candidate mmap p (k + j) ≡ true
      only k good j hj =
          let z : k ≡ k + j = omega arith in subst (λ t. is_candidate mmap p t ≡ true) z good
  Allocated-Served (full none_left) = refused λ i hi.
      let z : i ≡ i + 0 = omega arith in
      (0, omega arith, subst (λ t. is_candidate mmap p t ≡ false) z (none_left i (omega arith)))

  pages_for_bounds :
      (size : ℕ)
      → 0 < size
      → size ≤ p.total_pages * page_size
      → (0 < pages_for size)
        × (pages_for size ≤ p.total_pages)
        × (size ≤ pages_for size * page_size)
  unfolding pages_for
  pages_for_bounds size pos fits = omega (arith, v.extent, v.fits, v.aligned)

  -- For a size of at least one byte whose pages the memory could hold, `kmalloc` always returns: it
  -- hands out exactly the pages of a run of free available pages that holds the size, or 0 with
  -- nothing changed where there is no such run.
  pub kmalloc-Served :
      (size : ℕ)
      → 0 < size
      → size ≤ p.total_pages * page_size
      → Served mmap p (pages_for size) (kmalloc mmap p size) × (size ≤ pages_for size * page_size)
  unfolding kmalloc
  kmalloc-Served size pos fits =
      let (lo, hi, holds) = pages_for_bounds size pos fits in
      let not_zero : (size == 0) ≡ false = ground arith in
      (
        elim (Bool-cases (pages_for size == 1)) [
          | inl one ↦
              rw (not_zero, (==_iff (pages_for size) 1).0 one)
                (Allocated-Served (pmm_alloc_page-Allocated mmap p v.hint_in))
          | inr more ↦ rw (not_zero, more) (kmalloc_pages-Served (pages_for size) lo hi)
        ],
        holds,
      )
