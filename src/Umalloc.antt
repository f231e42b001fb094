-- ===== src/Umalloc.antt =====
-- The user heap: umalloc, ufree, urealloc and ucalloc of os/kernel/hal/mem/u_mem/vmm_api.c over the
-- page tables and the page allocator. The list of blocks is a list, the newest first. A call of
-- kmalloc that never returns is `none`.
pub mod Blocks
pub mod Reached
pub mod Calls
mod Tests
use vsnx_os.Base.{
  ℕ, zero, suc, ◌+◌, ◌*◌, ◌/◌, ◌^◌, Bool, true, false, not, ◌&&◌, ltb, leb, ◌==◌, if◌then◌else◌,
  Option, none, some, List, [], ◌∷◌, add64, sub64, mul64,
}
use vsnx_os.Mmap.{MemoryMap}
use vsnx_os.Pmm.{page_size, page_align, pmm_alloc_page, pmm_free_page}
use vsnx_os.Kmalloc.{kmalloc}
use vsnx_os.Paging.{Machine, paging_map_page, paging_unmap_page, paging_get_physical}
use vsnx_os.Memory.{copy_up, umemset}

-- `vmm_block_t`
pub record Block : Type 0 where
  pub addr : ℕ
  pub size : ℕ
  pub is_free : Bool

-- `vmm_info`, with the page tables and the page allocator.
pub record Heap : Type 0 where
  pub free_list : List Block
  pub next_addr : ℕ
  pub total_allocated : ℕ
  pub total_free : ℕ
  pub machine : Machine

abbrev pub user_heap_start : ℕ
user_heap_start = 2 ^ 46

abbrev pub user_heap_end : ℕ
user_heap_end = 36028797018963967

unfoldable pub vmm_init : Heap → Heap
vmm_init h = record h {
  next_addr = user_heap_start;
  free_list = [];
  total_allocated = 0;
  total_free = 0;
}

-- How the loop that maps pages ends: all are mapped, there is no page left for the i-th, or there is no
-- page table for the physical page.
pub data Mapped : Type 0 where
  all_mapped : Machine → Mapped
  no_page : ℕ → Machine → Mapped
  no_table : ℕ → Machine → Mapped

-- Keeps a block of the list in front of what is found behind it.
abbrev pub behind : Block → Option (Block × List Block) → Option (Block × List Block)
behind b none = none
behind b (some (found, bs)) = some (found, b ∷ bs)

-- The first free block that is large enough, and the list with it in use.
unfoldable pub take_block : List Block → (size : ℕ) → Option (Block × List Block)
take_block [] size = none
take_block (b ∷ bs) size =
    let rest = take_block bs size in
    if b.is_free && leb size b.size
    then some (b, record b { is_free = false } ∷ bs)
    else behind b rest

-- The block in use at the address, and the list with it free.
unfoldable pub free_block : List Block → (addr : ℕ) → Option (Block × List Block)
free_block [] addr = none
free_block (b ∷ bs) addr =
    let rest = free_block bs addr in
    if b.addr == addr && not b.is_free
    then some (b, record b { is_free = true } ∷ bs)
    else behind b rest

-- A block that is used again, once its pages are mapped: where they cannot be, it stays in use.
abbrev pub reuse_end : Heap → Block → List Block → Mapped → ℕ × Heap
reuse_end h b blocks (all_mapped m) = (
  b.addr,
  record h {
    free_list = blocks;
    total_allocated = add64 h.total_allocated b.size;
    total_free = sub64 h.total_free b.size;
    machine = m;
  },
)
reuse_end h b blocks (no_page i m) = (
  0,
  record h {
    free_list = blocks;
    total_allocated = add64 h.total_allocated b.size;
    total_free = sub64 h.total_free b.size;
    machine = m;
  },
)
reuse_end h b blocks (no_table phys m) = (
  0,
  record h {
    free_list = blocks;
    total_allocated = add64 h.total_allocated b.size;
    total_free = sub64 h.total_free b.size;
    machine = m;
  },
)

module _ (mmap : MemoryMap) where
  -- Present, writable and of the user.
  abbrev pub page_flags : ℕ
  page_flags = 7

  pub map_page_at : (virt_page i : ℕ) → Machine → (ℕ × Machine → Mapped) → Mapped
  map_page_at virt_page i m next =
      let alloc = pmm_alloc_page mmap m.pmm in
      let taken = record m { pmm = alloc.1 } in
      if alloc.0 == 0
      then no_page i taken
      else (let mapping = paging_map_page mmap taken virt_page (alloc.0) page_flags in
          if mapping.0 then next (alloc.0, mapping.1) else no_table (alloc.0) (mapping.1))

  -- `left` pages from the i-th on.
  pub map_pages : (left i virt_start : ℕ) → Machine → Mapped
  map_pages zero i virt_start m = all_mapped m
  map_pages (suc left) i virt_start m =
      map_page_at (add64 virt_start (mul64 i page_size)) i m
        (λ p. map_pages left (i + 1) virt_start (p.1))

  -- The pages mapped so far are given back.
  pub unmap_pages : (left j virt_start : ℕ) → Machine → Machine
  unmap_pages zero j virt_start m = m
  unmap_pages (suc left) j virt_start m =
      let virt = add64 virt_start (mul64 j page_size) in
      let phys = paging_get_physical m virt in
      let unmapped = paging_unmap_page m virt in
      unmap_pages left (j + 1) virt_start
        (record unmapped { pmm = pmm_free_page unmapped.pmm phys })

  -- A block that is used again.
  unfoldable pub reuse : Heap → Block → List Block → ℕ × Heap
  reuse h b blocks = reuse_end h b blocks (map_pages (b.size / page_size) 0 b.addr h.machine)

  -- A new block, once its pages are mapped.
  unfoldable pub add_block : Heap → (size : ℕ) → Machine → Option (ℕ × Heap)
  add_block h size m = elim (kmalloc mmap m.pmm 32) [
    | none ↦ none
    | some (block, p) ↦
        if block == 0
        then some (
          0,
          record h {
            machine = unmap_pages (size / page_size) 0 h.next_addr (record m { pmm = p });
          },
        )
        else some (
          h.next_addr,
          record h {
            free_list = record { addr = h.next_addr; size = size; is_free = false } ∷ h.free_list;
            next_addr = add64 h.next_addr size;
            total_allocated = add64 h.total_allocated size;
            machine = record m { pmm = p };
          },
        )
  ]

  unfoldable pub new_block : Heap → (size : ℕ) → Option (ℕ × Heap)
  new_block h size =
      if ltb user_heap_end (add64 h.next_addr size)
      then some (0, h)
      else elim (map_pages (size / page_size) 0 h.next_addr h.machine) [
        | all_mapped m ↦ add_block h size m
        | no_page i m ↦ some (0, record h { machine = unmap_pages i 0 h.next_addr m })
        | no_table phys m ↦
            some (0, record h { machine = record m { pmm = pmm_free_page m.pmm phys } })
      ]

  unfoldable pub umalloc : Heap → (size : ℕ) → Option (ℕ × Heap)
  umalloc h size =
      if size == 0 then some (0, h) else elim (take_block h.free_list (page_align size)) [
        | some (b, blocks) ↦ some (reuse h b blocks)
        | none ↦ new_block h (page_align size)
      ]

  -- The pages of a block that are mapped are given back.
  pub give_back_pages : (left i addr : ℕ) → Machine → Machine
  give_back_pages zero i addr m = m
  give_back_pages (suc left) i addr m =
      let virt = add64 addr (mul64 i page_size) in
      let phys = paging_get_physical m virt in
      give_back_pages left (i + 1) addr (
        if phys == 0
        then m
        else (let unmapped = paging_unmap_page m virt in
            record unmapped { pmm = pmm_free_page unmapped.pmm phys }))

  abbrev pub free_found : Heap → Option (Block × List Block) → Heap
  free_found h none = h
  free_found h (some (b, blocks)) = record h {
    free_list = blocks;
    total_allocated = sub64 h.total_allocated b.size;
    total_free = add64 h.total_free b.size;
    machine = give_back_pages (b.size / page_size) 0 b.addr h.machine;
  }

  unfoldable pub ufree : Heap → (ptr : ℕ) → Heap
  ufree h ptr = if ptr == 0 then h else free_found h (free_block h.free_list ptr)

  -- The old bytes are copied, and the old block is freed.
  pub moved_block :
      (mem : ℕ → ℕ) (ptr old_size : ℕ) → Option (ℕ × Heap) → Option (ℕ × Heap × (ℕ → ℕ))
  moved_block mem ptr old_size none = none
  moved_block mem ptr old_size (some (new_ptr, h)) =
      if new_ptr == 0
      then some (0, h, mem)
      else some (new_ptr, ufree h ptr, copy_up old_size 0 new_ptr ptr mem)

  abbrev pub with_memory : (mem : ℕ → ℕ) → Option (ℕ × Heap) → Option (ℕ × Heap × (ℕ → ℕ))
  with_memory mem none = none
  with_memory mem (some (ptr, h)) = some (ptr, h, mem)

  pub urealloc : Heap → (mem : ℕ → ℕ) → (ptr new_size : ℕ) → Option (ℕ × Heap × (ℕ → ℕ))
  urealloc h mem ptr new_size =
      if ptr == 0
      then with_memory mem (umalloc h new_size)
      else if new_size == 0
      then some (0, ufree h ptr, mem)
      else elim (free_block h.free_list ptr) [
        | none ↦ some (0, h, mem)
        | some (b, _) ↦
            if leb (page_align new_size) b.size
            then some (ptr, h, mem)
            else moved_block mem ptr b.size (umalloc h (page_align new_size))
      ]

  abbrev pub cleared : (mem : ℕ → ℕ) (size : ℕ) → Option (ℕ × Heap) → Option (ℕ × Heap × (ℕ → ℕ))
  cleared mem size none = none
  cleared mem size (some (ptr, h)) =
      if ptr == 0 then some (0, h, mem) else some (ptr, h, umemset mem ptr 0 size)

  -- A count of 0 divides by 0, which faults: `none`.
  pub ucalloc : Heap → (mem : ℕ → ℕ) → (num size : ℕ) → Option (ℕ × Heap × (ℕ → ℕ))
  ucalloc h mem num size =
      if num == 0
      then none
      else if not (mul64 num size / num == size)
      then some (0, h, mem)
      else cleared mem (mul64 num size) (umalloc h (mul64 num size))
