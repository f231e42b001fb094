-- ===== src/Paging.antt =====
-- Page tables: os/kernel/hal/mem/k_mem/paging.c over the page allocator of pmm.c. Tables lie in
-- physical memory, which the kernel reads and writes at the same addresses; `word` is the 64-bit
-- word at an address. The control registers and the flush of the translation cache are not modelled.
pub mod Entries
pub mod Tree
pub mod Descend
pub mod Resolve
pub mod Unmap
mod Tests
use vsnx_os.Base.{
  ℕ, zero, suc, ◌+◌, ◌*◌, ◌/◌, ◌%◌, ◌^◌, Bool, true, false, not, ◌==◌, if◌then◌else◌, add32, bit_or,
  Option, none, some,
}
use vsnx_os.Mmap.{MemoryMap}
use vsnx_os.Pmm.{PmmInfo, pmm_alloc_page, pmm_free_page}

-- The memory and `page_mgr`, whose other two fields nothing uses.
pub record Machine : Type 0 where
  pub pmm : PmmInfo
  pub word : ℕ → ℕ
  pub pml4 : ℕ
  pub total_tables : ℕ

-- `get_page_indices`
abbrev pub pml4_index : ℕ → ℕ
pml4_index vaddr = vaddr / 2 ^ 39 % 512

abbrev pub pdp_index : ℕ → ℕ
pdp_index vaddr = vaddr / 2 ^ 30 % 512

abbrev pub pd_index : ℕ → ℕ
pd_index vaddr = vaddr / 2 ^ 21 % 512

abbrev pub pt_index : ℕ → ℕ
pt_index vaddr = vaddr / 2 ^ 12 % 512

-- `table->entries[i]`
abbrev pub entry_addr : ℕ → ℕ → ℕ
entry_addr table i = table + 8 * i

abbrev pub entry : Machine → ℕ → ℕ → ℕ
entry m table i = m.word (entry_addr table i)

abbrev pub store_word : (ℕ → ℕ) → ℕ → ℕ → ℕ → ℕ
store_word word at v a = if a == at then v else word a

-- `table->entries[i] = v`
pub set_entry : Machine → ℕ → ℕ → ℕ → Machine
set_entry m table i v = record m { word = store_word m.word (entry_addr table i) v }

-- `e & PAGE_PRESENT` and `e & ~0xFFF`
abbrev pub is_present : ℕ → Bool
is_present e = e % 2 == 1

abbrev pub frame_of : ℕ → ℕ
frame_of e = e / 4096 * 4096

-- `PAGE_PRESENT | PAGE_WRITABLE | (flags & PAGE_USER)`, three different bits
abbrev pub table_flags : ℕ → ℕ
table_flags flags = 3 + flags / 4 % 2 * 4

-- The loop that clears a new table, from entry `i` on.
pub clear_entries : (rounds i table : ℕ) → (ℕ → ℕ) → ℕ → ℕ
clear_entries zero i table word = word
clear_entries (suc n) i table word =
    clear_entries n (i + 1) table (store_word word (entry_addr table i) 0)

-- `allocate_page_table` behind `pmm_alloc_page`: the page that was handed out is cleared. `none`
-- stands for a null pointer.
pub new_table : Machine → ℕ × PmmInfo → Option ℕ × Machine
new_table m (addr, pmm) =
    if addr == 0
    then (none, record m { pmm = pmm })
    else (some addr, record m { pmm = pmm; word = clear_entries 512 0 addr m.word })

-- A new table is entered in its parent and counted.
pub link_table : (table i flags : ℕ) → Option ℕ × Machine → Option ℕ × Machine
link_table table i flags (none, m) = (none, m)
link_table table i flags (some new, m) = (
  some new,
  record (set_entry m table i (bit_or new (table_flags flags))) {
    total_tables = add32 m.total_tables 1;
  },
)

module _ (mmap : MemoryMap) where
  pub allocate_page_table : Machine → Option ℕ × Machine
  allocate_page_table m = new_table m (pmm_alloc_page mmap m.pmm)

  -- The table that entry `i` of `table` points to, made where the entry is not present: the block
  -- that `paging_map_page` repeats for each level. `none` where memory is exhausted.
  pub next_table : Machine → (table i flags : ℕ) → Option ℕ × Machine
  next_table m table i flags =
      if not (is_present (entry m table i))
      then link_table table i flags (allocate_page_table m)
      else (some (frame_of (entry m table i)), m)

  -- One level of `paging_map_page`: an early return where there is no table.
  abbrev pub descend : Option ℕ × Machine → (ℕ → Machine → Bool × Machine) → Bool × Machine
  descend (none, m) rest = (false, m)
  descend (some table, m) rest = rest table m

  -- `false` for the result 0.
  pub paging_map_page : Machine → (vaddr paddr flags : ℕ) → Bool × Machine
  paging_map_page m vaddr paddr flags =
      descend (next_table m m.pml4 (pml4_index vaddr) flags) λ pdp m1.
        descend (next_table m1 pdp (pdp_index vaddr) flags) λ pd m2.
          descend (next_table m2 pd (pd_index vaddr) flags)
            λ pt m3. (true, set_entry m3 pt (pt_index vaddr) (bit_or (frame_of paddr) flags))

-- The walk that `paging_unmap_page` and `paging_get_physical` begin with: the page table, or `none`
-- where an entry on the way is not present.
pub find_table : Machine → ℕ → Option ℕ
find_table m vaddr =
    let e4 = entry m m.pml4 (pml4_index vaddr) in
    let e3 = entry m (frame_of e4) (pdp_index vaddr) in
    let e2 = entry m (frame_of e3) (pd_index vaddr) in
    if not (is_present e4)
    then none
    else if not (is_present e3)
    then none
    else if not (is_present e2)
    then none
    else some (frame_of e2)

pub paging_unmap_page : Machine → ℕ → Machine
paging_unmap_page m vaddr = elim (find_table m vaddr) [
  | none ↦ m
  | some pt ↦ set_entry m pt (pt_index vaddr) 0
]

pub paging_get_physical : Machine → ℕ → ℕ
paging_get_physical m vaddr = elim (find_table m vaddr) [
  | none ↦ 0
  | some pt ↦
      if not (is_present (entry m pt (pt_index vaddr)))
      then 0
      else bit_or (frame_of (entry m pt (pt_index vaddr))) (vaddr % 4096)
]

-- The low half of a word of 64 bits written as an `uint32_t`.
abbrev pub store_half : (ℕ → ℕ) → ℕ → ℕ → ℕ → ℕ
store_half word at v = store_word word at (word at / 2 ^ 32 * 2 ^ 32 + v % 2 ^ 32)

abbrev pub test_virt : ℕ
test_virt = 0x700000000000

-- The block of `paging_print_info` under a page that there is: it is mapped, written to where it is
-- found, and given back.
pub test_page : MemoryMap → ℕ → Bool × Machine → Machine
test_page mmap test_phys (mapped, m) =
    let written : Machine =
      if paging_get_physical m test_virt == test_phys
      then record m { word = store_half m.word test_phys 0xCAFEBABE }
      else m in
    let left : Machine = if mapped then paging_unmap_page written test_virt else m in
    record left { pmm = pmm_free_page left.pmm test_phys }

pub paging_print_info : MemoryMap → Machine → Machine
paging_print_info mmap m =
    let (test_phys, p) = pmm_alloc_page mmap m.pmm in
    let start : Machine = record m { pmm = p } in
    if test_phys == 0
    then start
    else test_page mmap test_phys (paging_map_page mmap start test_virt test_phys 3)
