-- ===== src/Pmm/Init.antt =====
-- `pmm_init` of pmm.c: the extent of memory from the available regions of the memory map.
use vsnx_os.Base.{
  ℕ, zero, suc, ◌+◌, ◌-◌, ◌/◌, ◌%◌, ◌≤◌, ◌<◌, ◌≡◌, refl, Bool, true, false, arith, ltb, ◌==◌,
  if◌then◌else◌, List, [], ◌∷◌, u64_mod, add64, sub64, Bool-cases, ◌⊎◌, inl, inr, sym, subst,
}
use vsnx_os.Mmap.{MemoryMap, Region, memory_available}
use vsnx_os.Base.Bits.{test_bit-zero}
use vsnx_os.Pmm.{
  PmmInfo, page_size, page_align, page_align_down, is_used, any_available, is_address_available,
}
use vsnx_os.Pmm.Count.{count}
use vsnx_os.Pmm.Valid.{IsValid}

pub record Bounds : Type 0 where
  pub max_addr : ℕ
  pub min_addr : ℕ

-- One round of the loop over the regions.
widen : Region → Bounds → Bounds
widen r b =
    if r.type == memory_available
    then record {
      max_addr =
          if ltb b.max_addr (add64 r.base_addr r.length)
          then add64 r.base_addr r.length
          else b.max_addr;
      min_addr = if ltb r.base_addr b.min_addr then r.base_addr else b.min_addr;
    }
    else b

bounds_of : List Region → Bounds → Bounds
bounds_of [] b = b
bounds_of (r ∷ rs) b = bounds_of rs (widen r b)

-- `UINT64_MAX` and 0 to begin with
start_bounds : Bounds
start_bounds = record { max_addr = 0; min_addr = u64_mod - 1 }

pages_between : Bounds → ℕ
pages_between b = sub64 (page_align b.max_addr) (page_align_down b.min_addr) / page_size

-- The assignments of `pmm_init`; the bitmap is the memory at 0x200000 as it is.
info_of : (memory : ℕ → ℕ) → Bounds → PmmInfo
unfolding pages_between
info_of memory b = record {
  memory_start = page_align_down b.min_addr;
  memory_end = page_align b.max_addr;
  total_pages = pages_between b;
  free_pages = 0;
  used_pages = 0;
  bitmap = memory;
  bitmap_size = (pages_between b + 7) / 8;
  next_alloc_hint = 0;
}

-- With no region `pmm_init` returns at once.
init_regions : List Region → (memory : ℕ → ℕ) → PmmInfo → PmmInfo
unfolding widen bounds_of start_bounds info_of
init_regions [] memory p = p
init_regions (r ∷ rs) memory p = info_of memory (bounds_of (r ∷ rs) start_bounds)

-- `pmm_init`; `memory` is what the memory at 0x200000 holds.
pub pmm_init : MemoryMap → (memory : ℕ → ℕ) → PmmInfo → PmmInfo
unfolding init_regions
pmm_init mmap memory p = init_regions mmap.regions memory p

-- An available region lies below the last page of the address space and is not empty.
abbrev pub RegionFits : Region → Type 0
RegionFits r =
    r.type ≡ memory_available → (r.base_addr + r.length ≤ u64_mod - page_size) × (0 < r.length)

abbrev pub AllFit : List Region → Type 0
AllFit [] = Unit {0}
AllFit (r ∷ rs) = RegionFits r × AllFit rs

-- Some region is available.
abbrev pub SomeAvailable : List Region → Type 0
SomeAvailable [] = ⊥
SomeAvailable (r ∷ rs) = (r.type ≡ memory_available) ⊎ SomeAvailable rs

-- The loop only widens, stays below the last page, and takes in every available region.
record Widened (b c : Bounds) : Type 0 where
  lower : c.min_addr ≤ b.min_addr
  upper : b.max_addr ≤ c.max_addr
  top : b.max_addr ≤ u64_mod - page_size → c.max_addr ≤ u64_mod - page_size

widen-Widened : (r : Region) (b : Bounds) → RegionFits r → Widened b (widen r b)
unfolding widen
widen-Widened r b fits = ground (arith, fits)

bounds_of-Widened : (rs : List Region) (b : Bounds) → AllFit rs → Widened b (bounds_of rs b)
unfolding bounds_of
bounds_of-Widened [] b fits = omega arith
bounds_of-Widened (r ∷ rs) b fits =
    grind (arith, widen-Widened r b fits.0, bounds_of-Widened rs (widen r b) fits.1)

covers_here :
    (r : Region) (rs : List Region) (b : Bounds) (addr : ℕ)
    → RegionFits r
    → any_available (r ∷ rs) addr ≡ true
    → any_available rs addr ≡ false
    → ((widen r b).min_addr ≤ addr) × (addr < (widen r b).max_addr)
unfolding widen any_available
covers_here r rs b addr fits h rest = ground (arith, fits)

covers_available :
    (rs : List Region) (b : Bounds) (addr : ℕ)
    → AllFit rs
    → any_available rs addr ≡ true
    → ((bounds_of rs b).min_addr ≤ addr) × (addr < (bounds_of rs b).max_addr)
unfolding bounds_of any_available
covers_available [] b addr fits h = absurd (cc)
covers_available (r ∷ rs) b addr fits h = elim (Bool-cases (any_available rs addr)) [
  | inl later ↦ covers_available rs (widen r b) addr fits.1 later
  | inr here ↦
      let w = bounds_of-Widened rs (widen r b) fits.1 in
      let (lo, hi) = covers_here r rs b addr fits.0 h here in
      (omega (arith, w.lower), omega (arith, w.upper))
]

widen_order :
    (r : Region) (b : Bounds)
    → RegionFits r
    → r.type ≡ memory_available
    → (widen r b).min_addr < (widen r b).max_addr
unfolding widen
widen_order r b fits here = ground (arith, fits here)

-- Some available region makes the bounds proper.
bounds_order :
    (rs : List Region) (b : Bounds)
    → AllFit rs
    → SomeAvailable rs
    → (bounds_of rs b).min_addr < (bounds_of rs b).max_addr
unfolding bounds_of
bounds_order [] b fits some_available = absurd some_available
bounds_order (r ∷ rs) b fits (inl here) =
    let w = bounds_of-Widened rs (widen r b) fits.1 in
    let proper : (widen r b).min_addr < (widen r b).max_addr = widen_order r b fits.0 here in
    omega (arith, w.lower, w.upper)
bounds_order (r ∷ rs) b fits (inr later) = bounds_order rs (widen r b) fits.1 later

count-clear : (f : ℕ → Bool) → ((j : ℕ) → f j ≡ false) → (n : ℕ) → count f n ≡ 0
unfolding count
count-clear f clear zero = refl
count-clear f clear (suc n) = ground (arith, clear n, count-clear f clear n)

module _ (memory : ℕ → ℕ) (zeroed : (i : ℕ) → memory i ≡ 0) (b : Bounds) where
  is_used-info_of : (j : ℕ) → is_used (info_of memory b) j ≡ false
  unfolding is_used info_of
  is_used-info_of j = rw (zeroed (j / 8)) (test_bit-zero (j % 8))

  info_of-IsValid :
      b.min_addr < b.max_addr → b.max_addr ≤ u64_mod - page_size → IsValid (info_of memory b)
  unfolding info_of
  info_of-IsValid proper top = record {
    aligned = omega arith;
    extent = omega arith;
    fits = omega arith;
    hint_in = omega arith;
    bytes = λ i. omega (arith, zeroed i);
    counted = sym (count-clear (is_used (info_of memory b)) is_used-info_of (pages_between b));
  }

  info_of-covers :
      (addr : ℕ)
      → b.max_addr ≤ u64_mod - page_size
      → b.min_addr ≤ addr
      → addr < b.max_addr
      → ((info_of memory b).memory_start ≤ addr) × (addr < (info_of memory b).memory_end)
  unfolding info_of
  info_of-covers addr top lo hi = omega arith

-- The allocator is valid, has no page in use, and its range holds every available address.
pub record Ready (mmap : MemoryMap) (p : PmmInfo) : Type 0 where
  pub valid : IsValid p
  pub unused : p.used_pages ≡ 0
  pub all_free : (j : ℕ) → is_used p j ≡ false
  pub covers :
      (addr : ℕ)
      → is_address_available mmap addr ≡ true
      → (p.memory_start ≤ addr) × (addr < p.memory_end)

info_of-Ready :
    (memory : ℕ → ℕ) (mmap : MemoryMap)
    → AllFit mmap.regions
    → SomeAvailable mmap.regions
    → ((i : ℕ) → memory i ≡ 0)
    → Ready mmap (info_of memory (bounds_of mmap.regions start_bounds))
unfolding start_bounds info_of
info_of-Ready memory mmap fits some_available zeroed = record {
  valid =
      info_of-IsValid memory zeroed b (bounds_order mmap.regions start_bounds fits some_available)
        top;
  unused = refl;
  all_free = is_used-info_of memory zeroed b;
  covers =
      λ addr h. let (lo, hi) = available_in addr h in info_of-covers memory zeroed b addr top lo hi;
}
  where
    b : Bounds
    b = bounds_of mmap.regions start_bounds

    top : b.max_addr ≤ u64_mod - page_size
    top = (bounds_of-Widened mmap.regions start_bounds fits).top (omega arith)

    available_in :
        (addr : ℕ)
        → is_address_available mmap addr ≡ true
        → (b.min_addr ≤ addr) × (addr < b.max_addr)
    available_in addr h =
        covers_available mmap.regions start_bounds addr fits (unfold is_address_available in h)

init_regions_lem :
    (memory : ℕ → ℕ) (p : PmmInfo) (rs : List Region)
    → SomeAvailable rs
    → init_regions rs memory p ≡ info_of memory (bounds_of rs start_bounds)
unfolding init_regions
init_regions_lem memory p [] some_available = absurd some_available
init_regions_lem memory p (r ∷ rs) some_available = refl

-- Where every available region is not empty and lies below the last page of the address space, some
-- region is available and the bitmap memory is zero, `pmm_init` leaves a valid allocator with no page
-- in use, whose range holds every available address.
pub pmm_init-Ready :
    (memory : ℕ → ℕ) (p : PmmInfo) (mmap : MemoryMap)
    → AllFit mmap.regions
    → SomeAvailable mmap.regions
    → ((i : ℕ) → memory i ≡ 0)
    → Ready mmap (pmm_init mmap memory p)
unfolding pmm_init
pmm_init-Ready memory p mmap fits some_available zeroed =
    subst (Ready mmap) (sym (init_regions_lem memory p mmap.regions some_available))
      (info_of-Ready memory mmap fits some_available zeroed)
