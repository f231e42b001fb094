-- ===== src/Mmap.antt =====
-- The memory map that the boot loader hands over: os/kernel/hal/multiboot2/multiboot2.h, mmap.c.
use vsnx_os.Base.{ℕ, List}

-- `vsnx_memory_region_t`; `reserved` is always written as 0 and never read.
pub record Region : Type 0 where
  pub base_addr : ℕ
  pub length : ℕ
  pub type : ℕ

-- `vsnx_memory_map_t`. `regions` holds the first `region_count` entries of the array.
pub record MemoryMap : Type 0 where
  pub total_memory : ℕ
  pub usable_memory : ℕ
  pub regions : List Region

-- `MULTIBOOT_MEMORY_AVAILABLE`
abbrev pub memory_available : ℕ
memory_available = 1
