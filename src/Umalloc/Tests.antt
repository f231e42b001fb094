-- ===== src/Umalloc/Tests.antt =====
-- A heap over sixteen pages, set up and with one block, and the theorem of
-- os/kernel/hal/mem/u_mem/vmm_api.c at it.
use vsnx_os.Base.{[], ◌∷◌, arith}
use vsnx_os.Mmap.{MemoryMap}
use vsnx_os.Pmm.{PmmInfo, page_align}
use vsnx_os.Paging.{Machine}
use vsnx_os.Umalloc.{Heap, umalloc, ufree, vmm_init}
use vsnx_os.Umalloc.Blocks.{Granted}
use vsnx_os.Umalloc.Reached.{set_up, freed, Reached-Granted}

abbrev mmap : MemoryMap
mmap = record {
  total_memory = 65536;
  usable_memory = 65536;
  regions = record { base_addr = 0x400000; length = 65536; type = 1 } ∷ [];
}

abbrev pages : PmmInfo
pages = record {
  memory_start = 0x400000;
  memory_end = 0x410000;
  total_pages = 16;
  free_pages = 0;
  used_pages = 0;
  bitmap = λ _. 0;
  bitmap_size = 2;
  next_alloc_hint = 0;
}

abbrev machine : Machine
machine = record { pmm = pages; word = λ _. 0; pml4 = 4096; total_tables = 0 }

abbrev blank : Heap
blank = record {
  free_list = [];
  next_addr = 0;
  total_allocated = 0;
  total_free = 0;
  machine = machine;
}

Reached-Granted_example :
    Granted
      (page_align 5000)
      (ufree mmap (vmm_init blank) 8192).free_list
      (umalloc mmap (ufree mmap (vmm_init blank) 8192) 5000)
Reached-Granted_example =
    Reached-Granted mmap (ufree mmap (vmm_init blank) 8192) 5000 (freed 8192 (set_up blank))
      (omega arith)
