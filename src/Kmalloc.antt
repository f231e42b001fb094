-- ===== src/Kmalloc.antt =====
-- The kernel allocator: kmalloc and kfree of os/kernel/hal/mem/k_mem/pmm_api.c over pmm.c.
-- A call that never returns is `none`.
pub mod Result
pub mod Limits
mod Tests
use vsnx_os.Base.{
  ℕ, zero, suc, ◌+◌, ◌-◌, ◌*◌, ◌/◌, ◌%◌, Bool, true, false, not, ◌&&◌, ◌==◌, if◌then◌else◌, Option,
  none, some, add64, sub64, mul64, u64_mod,
}
use vsnx_os.Mmap.{MemoryMap}
use vsnx_os.Pmm.{
  PmmInfo, page_size, page_addr, page_align_down, is_used, is_address_available, pmm_alloc_page,
  pmm_free_page,
}
use vsnx_os.Pmm.Claim.{claim_run}
use vsnx_os.Pmm.Runs.{Search, found, exhausted, forever, search_run}

-- `(size + PAGE_SIZE - 1) / PAGE_SIZE` over `size_t`
unfoldable pub pages_for : ℕ → ℕ
pages_for size = add64 size 4095 / page_size

module _ (mmap : MemoryMap) where
  -- The test of one page: available, and its bit clear.
  abbrev pub is_candidate : PmmInfo → ℕ → Bool
  is_candidate p i = is_address_available mmap (page_addr p i) && not (is_used p i)

  -- The allocation of several pages.
  pub kmalloc_pages : PmmInfo → ℕ → Option (ℕ × PmmInfo)
  kmalloc_pages p n = elim (search_run (is_candidate p) p n) [
    | found i ↦ some (page_addr p i, claim_run p i n 0)
    | exhausted ↦ some (0, p)
    | forever ↦ none
  ]

  unfoldable pub kmalloc : PmmInfo → ℕ → Option (ℕ × PmmInfo)
  kmalloc p size =
      if size == 0
      then some (0, p)
      else if pages_for size == 1
      then some (pmm_alloc_page mmap p)
      else kmalloc_pages p (pages_for size)

-- A null pointer is ignored; otherwise the one page that holds the address is freed.
pub kfree : PmmInfo → ℕ → PmmInfo
kfree p ptr = if ptr == 0 then p else pmm_free_page p (page_align_down ptr)
