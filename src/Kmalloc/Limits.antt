-- ===== src/Kmalloc/Limits.antt =====
-- kmalloc and kfree of os/kernel/hal/mem/k_mem/pmm_api.c at the edges: a size that wraps, a request
-- that no memory could hold, and a block of several pages.
use vsnx_os.Base.{
  ℕ, ◌+◌, ◌-◌, ◌%◌, ◌≤◌, ◌<◌, ◌≡◌, ◌≢◌, Bool, true, false, arith, ltb, ◌==◌, if◌then◌else◌, none,
  some, Option-cases, Bool-cases, inl, inr, add64, u64_mod, tests, ◌^◌,
}
use native.Mathlib.Numerals.{add-one}
use vsnx_os.Mmap.{MemoryMap}
use vsnx_os.Pmm.{
  PmmInfo, page_size, page_addr, is_used, is_address_available, page_align_down, release_page,
}
use vsnx_os.Pmm.Valid.{IsValid, page_addr_lem, release_page-used_pages}
use vsnx_os.Pmm.Marks.{is_used-release_page}
use vsnx_os.Pmm.Free.{free-page_addr}
use vsnx_os.Pmm.Claim.{Claimed, claim_run}
use vsnx_os.Pmm.Runs.{
  found, forever, first_run, first_run-some, run_ok, search_run, last_start, run_ok-true,
}
use vsnx_os.Kmalloc.{pages_for, is_candidate, kmalloc_pages, kmalloc, kfree}

first_run-zero : (test : ℕ → Bool) (k i : ℕ) → first_run test 0 (k + 1) i ≡ some i
unfolding first_run
first_run-zero test k i = rw (add-one)

search_run-zero : (test : ℕ → Bool) (p : PmmInfo) → search_run test p 0 ≡ found 0
unfolding search_run
search_run-zero test p = rw (first_run-zero test (last_start p 0) 0, search_run)

-- A size in the last page of the address space wraps to no pages at all: the call succeeds with the
-- start of memory and takes nothing.
pub kmalloc_wraps :
    (mmap : MemoryMap) (p : PmmInfo) (size : ℕ)
    → u64_mod - page_size < size
    → size < u64_mod
    → p.memory_start < u64_mod
    → kmalloc mmap p size ≡ some (p.memory_start, p)
unfolding kmalloc kmalloc_pages claim_run pages_for
kmalloc_wraps mmap p size lo hi start =
    let nonzero : (size == 0) ≡ false = ground arith in
    let wrapped : pages_for size ≡ 0 = omega arith in
    let at : page_addr p 0 ≡ p.memory_start = omega arith in
    rw (nonzero, wrapped) (rw (search_run-zero (is_candidate mmap p) p, kmalloc_pages, at))

module _ (mmap : MemoryMap) {p : PmmInfo} (v : IsValid p) where
  -- Available addresses lie in the range of the allocator, as `pmm_init` arranges.
  abbrev pub Covers : Type 0
  Covers =
      (addr : ℕ)
      → is_address_available mmap addr ≡ true
      → (p.memory_start ≤ addr) × (addr < p.memory_end)

  -- Of `total_pages + 1` page indices in a row, around the end of the index range, one is outside.
  outside :
      (i : ℕ)
      → (k : ℕ) × (k < p.total_pages + 1)
        × ((p.memory_start ≤ page_addr p (add64 i (0 + k)))
            → page_addr p (add64 i (0 + k)) < p.memory_end
            → ⊥)
  outside i = elim (Bool-cases (ltb (i % 2 ^ 52) p.total_pages)) [
    | inl inside ↦
        (p.total_pages - i % 2 ^ 52, omega arith, λ lo hi. omega (tests, v.extent, v.fits))
    | inr out ↦ (0, omega arith, λ lo hi. omega (tests, v.extent, v.fits))
  ]

  no_run : Covers → (i : ℕ) → run_ok (is_candidate mmap p) i (p.total_pages + 1) 0 ≡ true → ⊥
  no_run covers i run =
      let (k, hk, out) = outside i in
      let good = run_ok-true (is_candidate mmap p) i (p.total_pages + 1) 0 run k hk in
      let (lo, hi) = covers (page_addr p (add64 i (0 + k))) (ground (arith, good)) in out lo hi

  search_hangs : Covers → search_run (is_candidate mmap p) p (p.total_pages + 1) ≡ forever
  unfolding search_run
  search_hangs covers =
      elim (Option-cases
        (first_run test (p.total_pages + 1) (last_start p (p.total_pages + 1) + 1) 0)) [
          | inr (i, e) ↦ absurd (
              no_run covers i
                (first_run-some test (p.total_pages + 1) (last_start p (p.total_pages + 1) + 1) 0
                  e).run)
          | inl e ↦ rw (e, last, search_run)
        ]
    where
      test : ℕ → Bool
      test = is_candidate mmap p

      last : (last_start p (p.total_pages + 1) == u64_mod - 1) ≡ true
      last = ground (arith, v.extent, v.fits)

  -- Of a valid allocator whose range holds every available address, a request for one page more than
  -- its memory has makes `kmalloc` loop for ever: the last start index is 2^64 - 1, and no run is long
  -- enough.
  pub kmalloc_hangs :
      (size : ℕ)
      → Covers
      → 0 < size
      → 0 < p.total_pages
      → pages_for size ≡ p.total_pages + 1
      → kmalloc mmap p size ≡ none
  unfolding kmalloc kmalloc_pages
  kmalloc_hangs size covers pos some_pages one_more =
      let nonzero : (size == 0) ≡ false = ground arith in
      let several : (p.total_pages + 1 == 1) ≡ false = ground arith in
      rw (nonzero, one_more, several, search_hangs covers, kmalloc_pages)

module _ {p : PmmInfo} (v : IsValid p) where
  free_first :
      (i : ℕ) {n : ℕ} {q : PmmInfo}
      → Claimed p i (i + n) q
      → 0 < n
      → i + n ≤ p.total_pages
      → page_addr q i ≢ 0
      → kfree q (page_addr q i) ≡ release_page q i
  unfolding kfree
  free_first i {q} c pos fits ne =
      let w = c.valid in
      let hi : i < q.total_pages = omega (arith, c.total) in
      let nonnull : (page_addr q i == 0) ≡ false = ground arith in
      let whole : page_align_down (page_addr q i) ≡ page_addr q i =
        omega (arith, page_addr_lem w i hi, w.aligned) in
      rw (nonnull, whole) (free-page_addr i w hi (ground (arith, c.used i)))

  -- Where a valid allocator handed out the `n` pages from page `i` on, `kfree` of their address frees
  -- the first page alone: the others stay in use, and the counter falls by one.
  pub kfree_leaks :
      (i n : ℕ) {q : PmmInfo}
      → 0 < n
      → i + n ≤ p.total_pages
      → Claimed p i (i + n) q
      → page_addr q i ≢ 0
      → ((k : ℕ) → i < k → k < i + n → is_used (kfree q (page_addr q i)) k ≡ true)
        × (is_used (kfree q (page_addr q i)) i ≡ false)
        × ((kfree q (page_addr q i)).used_pages + 1 ≡ p.used_pages + n)
  unfolding kfree
  kfree_leaks i n {q} pos fits c ne =
      rw (free_first i c pos fits ne)
        (λ k lo hi. ground (arith, released k, c.used k), ground (arith, released i), counter)
    where
      used : is_used q i ≡ true
      used = ground (arith, c.used i)

      released : (k : ℕ) → is_used (release_page q i) k ≡ (if i == k then false else is_used q k)
      released = is_used-release_page q c.valid.bytes i

      counter : (release_page q i).used_pages + 1 ≡ p.used_pages + n
      counter =
          omega (arith, release_page-used_pages c.valid i (omega (arith, c.total)) used, c.counter)
