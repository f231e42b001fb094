-- ===== src/Pmm/Tests.antt =====
-- A memory of sixteen pages at 4 MiB, runs of the allocator of pmm.c over it, and the theorems at it.
use vsnx_os.Base.{ℕ, ◌<◌, ◌≡◌, refl, inl, arith, ◌==◌, if◌then◌else◌, [], ◌∷◌}
use vsnx_os.Base.Bits.{test_bit}
use vsnx_os.Mmap.{MemoryMap}
use vsnx_os.Pmm.{PmmInfo, is_used, is_address_available, pmm_alloc_page, pmm_free_page}
use vsnx_os.Pmm.Count.{count}
use vsnx_os.Pmm.Valid.{IsValid}
use vsnx_os.Pmm.Alloc.{AllocResult, pmm_alloc_page_lem}
use vsnx_os.Pmm.Free.{FreeResult, pmm_free_page_lem}
use vsnx_os.Pmm.Init.{pmm_init, Ready, pmm_init-Ready}

abbrev mmap : MemoryMap
mmap = record {
  total_memory = 65536;
  usable_memory = 65536;
  regions = record { base_addr = 0x400000; length = 65536; type = 1 } ∷ [];
}

-- Page 0 is in use, and the hint is behind it.
abbrev one_used : PmmInfo
one_used = record {
  memory_start = 0x400000;
  memory_end = 0x410000;
  total_pages = 16;
  free_pages = 0;
  used_pages = 1;
  bitmap = λ i. if i == 0 then 1 else 0;
  bitmap_size = 2;
  next_alloc_hint = 1;
}

bytes_one_used : (i : ℕ) → one_used.bitmap i < 256
bytes_one_used i = ground arith

one_used-IsValid : IsValid one_used
unfolding is_used test_bit count
one_used-IsValid = record {
  aligned = refl;
  extent = refl;
  fits = omega arith;
  hint_in = omega arith;
  bytes = bytes_one_used;
  counted = refl;
}

alloc_one_used : (pmm_alloc_page mmap one_used).0 ≡ 0x401000
unfolding pmm_alloc_page is_address_available is_used test_bit
alloc_one_used = refl

pmm_alloc_page_lem_example : AllocResult mmap one_used-IsValid (pmm_alloc_page mmap one_used)
pmm_alloc_page_lem_example = pmm_alloc_page_lem mmap one_used-IsValid

pmm_free_page_lem_example :
    IsValid (pmm_free_page one_used 0x400abc)
    × FreeResult one_used-IsValid 0x400abc (pmm_free_page one_used 0x400abc)
pmm_free_page_lem_example = pmm_free_page_lem one_used-IsValid 0x400abc

pmm_init-Ready_example : Ready mmap (pmm_init mmap (λ _. 0) one_used)
pmm_init-Ready_example =
    pmm_init-Ready (λ _. 0) one_used mmap (λ _. omega arith, tt) (inl refl) (λ _. refl)
