-- ===== src/Paging/Tests.antt =====
-- A machine whose root table lies in its first page, with no entry present, and the theorems of
-- os/kernel/hal/mem/k_mem/paging.c at it.
use vsnx_os.Base.{ℕ, ◌<◌, ◌≡◌, refl, true, arith, ◌==◌, if◌then◌else◌, [], ◌∷◌}
use vsnx_os.Base.Bits.{test_bit, set_bit}
use vsnx_os.Mmap.{MemoryMap, Region}
use vsnx_os.Pmm.{PmmInfo, is_address_available, pmm_alloc_page, is_used}
use vsnx_os.Pmm.Count.{count}
use vsnx_os.Pmm.Valid.{IsValid}
use vsnx_os.Paging.{
  Machine, clear_entries, next_table, allocate_page_table, new_table, link_table, set_entry,
  paging_map_page, paging_unmap_page, paging_get_physical,
}
use vsnx_os.Paging.Tree.{IsTree}
use vsnx_os.Paging.Resolve.{MapResult, map_page-get_physical}
use vsnx_os.Paging.Unmap.{unmap_page-get_physical}

abbrev region : Region
region = record { base_addr = 0x100000; length = 0x310000; type = 1 }

abbrev mmap : MemoryMap
mmap = record { total_memory = 0x310000; usable_memory = 0x310000; regions = region ∷ [] }

abbrev unmarked : PmmInfo
unmarked = record {
  memory_start = 0x100000;
  memory_end = 0x410000;
  total_pages = 784;
  free_pages = 0;
  used_pages = 0;
  bitmap = λ i. 0;
  bitmap_size = 98;
  next_alloc_hint = 0;
}

byte_bound : (i : ℕ) → unmarked.bitmap i < 256
byte_bound i = ground arith

unmarked-IsValid : IsValid unmarked
unfolding is_used test_bit count
unmarked-IsValid = record {
  aligned = refl;
  extent = refl;
  fits = omega arith;
  hint_in = omega arith;
  bytes = byte_bound;
  counted = refl;
}

abbrev machine : Machine
machine = record { pmm = unmarked; word = λ _. 0; pml4 = 0x100000; total_tables = 0 }

abbrev level : ℕ → ℕ
level t = if t == 0x100000 then 4 else 0

machine-IsTree : IsTree 0 level machine
machine-IsTree = record {
  allocator = unmarked-IsValid;
  root = refl;
  aligned = λ t deep. ground arith;
  child = λ t i deep hi low present. absurd (ground arith);
  taken = λ k hk high deep. absurd (ground (arith, high, deep));
}

-- The address of the source's own paging test.
mapped_address : (paging_map_page mmap machine 0x700000000000 0x40f000 3).0 ≡ true
unfolding paging_map_page next_table allocate_page_table new_table link_table set_entry
    pmm_alloc_page is_address_available is_used test_bit clear_entries set_bit
mapped_address = refl

map_page-get_physical_example :
    MapResult mmap 0 0x700000000abc 0x40f000 3
      (paging_map_page mmap machine 0x700000000abc 0x40f000 3)
map_page-get_physical_example =
    map_page-get_physical mmap 0 0x700000000abc 0x40f000 3 machine-IsTree (omega arith)
      (omega arith) refl

unmap_page-get_physical_example :
    IsTree 0 level (paging_unmap_page machine 0x700000000abc)
    × (paging_get_physical (paging_unmap_page machine 0x700000000abc) 0x700000000abc ≡ 0)
unmap_page-get_physical_example =
    unmap_page-get_physical machine-IsTree 0x700000000abc (omega arith)
