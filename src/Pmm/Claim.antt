-- ===== src/Pmm/Claim.antt =====
-- The loop of kmalloc (os/kernel/hal/mem/k_mem/pmm_api.c) that takes a run of free pages.
use vsnx_os.Base.{
  ℕ, zero, suc, ◌+◌, ◌≤◌, ◌<◌, ◌≡◌, refl, Bool, true, false, ◌&&◌, arith, ltb, leb, ◌==◌,
  if◌then◌else◌, add64, subst, ◌∙◌,
}
use vsnx_os.Pmm.{PmmInfo, is_used, mark, take_page}
use vsnx_os.Pmm.Marks.{is_used-mark, is_used-take_page}
use vsnx_os.Pmm.Valid.{IsValid, take_page-IsValid, take_page-used_pages, used_pages-le}

-- One round of the loop that takes a run: the page is marked and counted; the hint stays.
pub claim_page : PmmInfo → ℕ → PmmInfo
unfolding mark
claim_page p i = record (mark p i) { used_pages = add64 p.used_pages 1 }

unfoldable pub claim_run : PmmInfo → (i n j : ℕ) → PmmInfo
unfolding claim_page
claim_run p i zero j = p
claim_run p i (suc n) j = claim_run (claim_page p (add64 i j)) i n (j + 1)

-- The pages from `lo` to below `hi`
abbrev pub within : ℕ → ℕ → ℕ → Bool
within lo hi k = leb lo k && ltb k hi

-- `q` is `p` with the free pages from `lo` to below `hi` taken: the state stays valid, no other
-- page changes, and the counter grows by their number.
pub record Claimed (p : PmmInfo) (lo hi : ℕ) (q : PmmInfo) : Type 0 where
  pub valid : IsValid q
  pub start : q.memory_start ≡ p.memory_start
  pub total : q.total_pages ≡ p.total_pages
  pub used : (k : ℕ) → is_used q k ≡ (if within lo hi k then true else is_used p k)
  pub counter : q.used_pages + lo ≡ p.used_pages + hi

module _ {p : PmmInfo} (v : IsValid p) (i : ℕ) (hi : i < p.total_pages) where
  is_used-claim_page : (k : ℕ) → is_used (claim_page p i) k ≡ (if i == k then true else is_used p k)
  unfolding is_used claim_page
  is_used-claim_page k = is_used-mark p v.bytes i k

  claim_page-IsValid : is_used p i ≡ false → IsValid (claim_page p i)
  unfolding claim_page is_used take_page
  claim_page-IsValid free =
      let w = take_page-IsValid v i hi free in
      record {
        aligned = v.aligned;
        extent = v.extent;
        fits = v.fits;
        hint_in = v.hint_in;
        bytes = w.bytes;
        counted = w.counted;
      }

  Claimed-claim_page : is_used p i ≡ false → Claimed p i (i + 1) (claim_page p i)
  unfolding claim_page
  Claimed-claim_page free = record {
    valid = claim_page-IsValid free;
    start = refl;
    total = refl;
    used = λ k. ground (arith, is_used-claim_page k);
    counter = omega (arith, used_pages-le v, v.extent, v.fits);
  }

  take_page-memory_start : (take_page p i).memory_start ≡ p.memory_start
  unfolding take_page
  take_page-memory_start = refl

  take_page-total_pages : (take_page p i).total_pages ≡ p.total_pages
  unfolding take_page
  take_page-total_pages = refl

  -- `pmm_alloc_page` takes a single page in the same sense.
  pub Claimed-take_page : is_used p i ≡ false → Claimed p i (i + 1) (take_page p i)
  Claimed-take_page free =
      let t = take_page-used_pages v i hi in
      record {
        valid = take_page-IsValid v i hi free;
        start = take_page-memory_start;
        total = take_page-total_pages;
        used = λ k. ground (arith, is_used-take_page p v.bytes i k);
        counter = omega (arith, t);
      }

Claimed-refl : {p : PmmInfo} (lo : ℕ) → IsValid p → Claimed p lo lo p
Claimed-refl lo v = record {
  valid = v;
  start = refl;
  total = refl;
  used = λ k. ground arith;
  counter = refl;
}

Claimed-trans :
    {p q r : PmmInfo} {lo mid hi : ℕ}
    → lo ≤ mid
    → mid ≤ hi
    → Claimed p lo mid q
    → Claimed q mid hi r
    → Claimed p lo hi r
Claimed-trans below above c d = record {
  valid = d.valid;
  start = d.start ∙ c.start;
  total = d.total ∙ c.total;
  used = λ k. ground (arith, c.used k, d.used k);
  counter = omega (arith, c.counter, d.counter);
}

-- The loop over free pages of the memory, from `m` to below `e`, takes exactly those.
pub claim_run-Claimed :
    (n : ℕ) {p : PmmInfo} (i j m e : ℕ)
    → m ≡ i + j
    → m + n ≡ e
    → IsValid p
    → e ≤ p.total_pages
    → ((k : ℕ) → k < n → is_used p (m + k) ≡ false)
    → Claimed p m e (claim_run p i n j)
unfolding claim_run
claim_run-Claimed zero {p} i j m e em ee v fits free =
    let same : m ≡ e = omega arith in subst (λ t. Claimed p m t p) same (Claimed-refl m v)
claim_run-Claimed (suc n) {p} i j m e em ee v fits free =
    let at : add64 i j ≡ m = omega (arith, v.extent, v.fits) in
    let first : is_used p m ≡ false =
      let z : m + 0 ≡ m = omega arith in
      subst (λ t. is_used p t ≡ false) z (free 0 (omega arith)) in
    let c = Claimed-claim_page v m (omega arith) first in
    rw at (
      Claimed-trans (omega arith) (omega arith) c (
        claim_run-Claimed n i (j + 1) (m + 1) e (omega arith) (omega arith) c.valid
          (omega (arith, c.total)) (λ k hk. ground (arith, rest k hk, c.used (m + 1 + k)))))
  where
    rest : (k : ℕ) → k < n → is_used p (m + 1 + k) ≡ false
    rest k hk =
        let z : m + suc k ≡ m + 1 + k = omega arith in
        subst (λ t. is_used p t ≡ false) z (free (suc k) (omega arith))
