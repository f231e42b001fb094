-- ===== src/Pmm/Valid.antt =====
-- The invariant of `pmm_info`, and how marking and unmarking one page moves its counter.
use vsnx_os.Base.{ℕ, ◌+◌, ◌*◌, ◌%◌, ◌≤◌, ◌<◌, ◌≡◌, true, false, arith, u64_mod}
use vsnx_os.Pmm.{
  PmmInfo, page_size, page_addr, page_index, out_of_memory_range, is_used, take_page, release_page,
}
use vsnx_os.Pmm.Marks.{is_used-take_page, is_used-release_page, mark-IsBytes, unmark-IsBytes}
use vsnx_os.Pmm.Count.{count, count-le, count-add}

-- `memory_start` and `memory_end` are page boundaries `total_pages` pages apart below 2^64, the
-- hint is an index or one past the last, and `used_pages` counts the marked pages.
pub record IsValid (p : PmmInfo) : Type 0 where
  pub aligned : p.memory_start % page_size ≡ 0
  pub extent : p.memory_end ≡ p.memory_start + p.total_pages * page_size
  pub fits : p.memory_end < u64_mod
  pub hint_in : p.next_alloc_hint ≤ p.total_pages
  pub bytes : (i : ℕ) → p.bitmap i < 256
  pub counted : p.used_pages ≡ count (is_used p) p.total_pages

module _ {p : PmmInfo} (v : IsValid p) where
  -- No address computation wraps.
  pub page_addr_lem : (i : ℕ) → i < p.total_pages → page_addr p i ≡ p.memory_start + i * page_size
  page_addr_lem i h = omega (arith, v.extent, v.fits)

  pub page_in_range : (i : ℕ) → i < p.total_pages → out_of_memory_range p (page_addr p i) ≡ false
  page_in_range i h = ground (arith, page_addr_lem i h, v.extent)

  pub page_index-page_addr : (i : ℕ) → i < p.total_pages → page_index p (page_addr p i) ≡ i
  page_index-page_addr i h = omega (arith, page_addr_lem i h, v.extent, v.fits)

  -- An address that passes the range check lies in the page that its index names.
  pub page_index-lt :
      (addr : ℕ)
      → out_of_memory_range p addr ≡ false
      → (page_index p addr < p.total_pages)
        × (p.memory_start + page_index p addr * page_size ≤ addr)
        × (addr < p.memory_start + page_index p addr * page_size + page_size)
  page_index-lt addr h = ground (arith, v.extent, v.fits)

  pub used_pages-le : p.used_pages ≤ p.total_pages
  used_pages-le = omega (arith, v.counted, count-le (is_used p) p.total_pages)

  pub take_page-IsValid :
      (i : ℕ) → i < p.total_pages → is_used p i ≡ false → IsValid (take_page p i)
  unfolding take_page
  take_page-IsValid i h free = record {
    aligned = v.aligned;
    extent = v.extent;
    fits = v.fits;
    hint_in = omega (arith, v.extent, v.fits);
    bytes = mark-IsBytes p v.bytes i;
    counted = omega (
      arith,
      v.counted,
      count-le (is_used p) p.total_pages,
      count-add (is_used p) (is_used (take_page p i)) i p.total_pages h free
          (is_used-take_page p v.bytes i),
      v.extent,
      v.fits,
    );
  }

  -- The page that is released was one of those counted.
  count-release_page :
      (i : ℕ)
      → i < p.total_pages
      → is_used p i ≡ true
      → count (is_used p) p.total_pages ≡ count (is_used (release_page p i)) p.total_pages + 1
  count-release_page i h used =
      count-add (is_used (release_page p i)) (is_used p) i p.total_pages h
        (ground (arith, is_used-release_page p v.bytes i i))
        (λ j. ground (arith, is_used-release_page p v.bytes i j))

  pub release_page-IsValid :
      (i : ℕ) → i < p.total_pages → is_used p i ≡ true → IsValid (release_page p i)
  unfolding release_page
  release_page-IsValid i h used = record {
    aligned = v.aligned;
    extent = v.extent;
    fits = v.fits;
    hint_in = ground (arith, v.hint_in);
    bytes = unmark-IsBytes p v.bytes i;
    counted = omega (
      arith,
      v.counted,
      count-le (is_used p) p.total_pages,
      count-release_page i h used,
      v.extent,
      v.fits,
    );
  }

  pub take_page-used_pages :
      (i : ℕ) → i < p.total_pages → (take_page p i).used_pages ≡ p.used_pages + 1
  unfolding take_page
  take_page-used_pages i h = omega (arith, used_pages-le, v.extent, v.fits)

  pub release_page-used_pages :
      (i : ℕ)
      → i < p.total_pages
      → is_used p i ≡ true
      → (release_page p i).used_pages + 1 ≡ p.used_pages
  unfolding release_page
  release_page-used_pages i h used =
      omega (arith, v.counted, count-release_page i h used, used_pages-le, v.extent, v.fits)
