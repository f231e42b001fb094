-- ===== src/Kmalloc/Tests.antt =====
-- Runs of kmalloc and kfree of os/kernel/hal/mem/k_mem/pmm_api.c, and their theorems, over a memory of
-- sixteen pages.
use vsnx_os.Base.{ℕ, ◌+◌, ◌*◌, ◌≤◌, ◌≡◌, refl, false, arith, some, [], ◌∷◌}
use vsnx_os.Base.Bits.{test_bit, test_bit-zero}
use mathlib.Core.Option
use vsnx_os.Mmap.{MemoryMap, Region}
use vsnx_os.Pmm.{PmmInfo, page_size, is_used, is_address_available}
use vsnx_os.Pmm.Valid.{IsValid}
use vsnx_os.Pmm.Count.{count}
use vsnx_os.Pmm.Claim.{Claimed, claim_run, claim_run-Claimed}
use vsnx_os.Pmm.Runs.{search_run}
use vsnx_os.Kmalloc.{kmalloc, pages_for, kmalloc_pages}
use vsnx_os.Kmalloc.Result.{Served, kmalloc-Served}
use vsnx_os.Kmalloc.Limits.{Covers}

abbrev region : Region
region = record { base_addr = 0x400000; length = 65536; type = 1 }

abbrev mmap : MemoryMap
mmap = record { total_memory = 65536; usable_memory = 65536; regions = region ∷ [] }

abbrev unused : PmmInfo
unused = record {
  memory_start = 0x400000;
  memory_end = 0x410000;
  total_pages = 16;
  free_pages = 0;
  used_pages = 0;
  bitmap = λ _. 0;
  bitmap_size = 2;
  next_alloc_hint = 0;
}

all_free : (j : ℕ) → is_used unused j ≡ false
unfolding is_used
all_free j = test_bit-zero _

unused-IsValid : IsValid unused
unfolding is_used test_bit count
unused-IsValid = record {
  aligned = refl;
  extent = refl;
  fits = omega arith;
  hint_in = omega arith;
  bytes = λ _. omega arith;
  counted = refl;
}

-- Three pages are found at the start, and the next request goes behind them.
kmalloc_run : Option.map (λ r. r.0) (kmalloc mmap unused 8193) ≡ some 0x400000
unfolding kmalloc kmalloc_pages search_run claim_run pages_for is_address_available is_used test_bit
kmalloc_run = refl

kmalloc-Served_example :
    Served mmap unused (pages_for 8193) (kmalloc mmap unused 8193)
    × (8193 ≤ pages_for 8193 * page_size)
kmalloc-Served_example = kmalloc-Served mmap unused-IsValid 8193 (omega arith) (omega arith)

mmap-Covers : Covers mmap unused-IsValid
unfolding is_address_available
mmap-Covers addr h = ground arith

two-Claimed : Claimed unused 3 5 (claim_run unused 3 2 0)
two-Claimed =
    claim_run-Claimed 2 3 0 3 5 refl refl unused-IsValid (omega arith) (λ k hk. all_free (3 + k))
