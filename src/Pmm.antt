-- ===== src/Pmm.antt =====
-- The physical page allocator: os/kernel/hal/mem/k_mem/pmm.c and its state in k_mem.h.
-- The bitmap is the memory at `pmm_info.bitmap`, a function from byte index to byte; a read or a
-- write behind `bitmap_size` is one of the memory that lies there. No function here writes through
-- a page address, so pages that overlap the bitmap play no part.
pub mod Marks
pub mod Count
pub mod Valid
pub mod Alloc
pub mod Free
pub mod Init
pub mod Runs
pub mod Claim
mod Tests
use vsnx_os.Base.{
  ℕ, zero, suc, ◌+◌, ◌-◌, ◌*◌, ◌/◌, ◌%◌, ◌^◌, Bool, true, false, not, ◌&&◌, List, [], ◌∷◌, ltb, leb,
  ◌==◌, if◌then◌else◌, Option, none, some, add64, sub64, mul64,
}
use vsnx_os.Base.Bits.{test_bit, set_bit, clear_bit}
use vsnx_os.Mmap.{Region, MemoryMap, memory_available}

-- `PAGE_SIZE`
abbrev pub page_size : ℕ
page_size = 4096

-- `PAGE_ALIGN_DOWN(addr)`, `addr & ~4095`
abbrev pub page_align_down : ℕ → ℕ
page_align_down addr = addr / page_size * page_size

-- `PAGE_ALIGN(addr)`; the sum is a `uint64_t`
abbrev pub page_align : ℕ → ℕ
page_align addr = page_align_down (add64 addr 4095)

-- `pmm_info_t`
pub record PmmInfo : Type 0 where
  pub memory_start : ℕ
  pub memory_end : ℕ
  pub total_pages : ℕ
  pub free_pages : ℕ
  pub used_pages : ℕ
  pub bitmap : ℕ → ℕ
  pub bitmap_size : ℕ
  pub next_alloc_hint : ℕ

-- `memory[at] = byte`
abbrev pub store_byte : (ℕ → ℕ) → ℕ → ℕ → ℕ → ℕ
store_byte memory at byte i = if i == at then byte else memory i

-- `pmm_info.bitmap[i / 8] & (1 << i % 8)`
unfoldable pub is_used : PmmInfo → ℕ → Bool
is_used p i = test_bit (p.bitmap (i / 8)) (i % 8)

-- `pmm_info.bitmap[i / 8] |= (1 << i % 8)`
pub mark : PmmInfo → ℕ → PmmInfo
mark p i = record p { bitmap = store_byte p.bitmap (i / 8) (set_bit (p.bitmap (i / 8)) (i % 8)) }

-- `pmm_info.bitmap[i / 8] &= ~(1 << i % 8)`
pub unmark : PmmInfo → ℕ → PmmInfo
unmark p i = record p {
  bitmap = store_byte p.bitmap (i / 8) (clear_bit (p.bitmap (i / 8)) (i % 8));
}

-- `pmm_info.memory_start + (i * PAGE_SIZE)`
abbrev pub page_addr : PmmInfo → ℕ → ℕ
page_addr p i = add64 p.memory_start (mul64 i page_size)

-- `(page_addr - pmm_info.memory_start) / PAGE_SIZE`, behind the range check
abbrev pub page_index : PmmInfo → ℕ → ℕ
page_index p addr = sub64 addr p.memory_start / page_size

-- The loop of `is_address_available`.
unfoldable pub any_available : List Region → ℕ → Bool
any_available [] addr = false
any_available (r ∷ rs) addr =
    let rest = any_available rs addr in
    if r.type == memory_available
    then (if leb r.base_addr addr && ltb addr (add64 r.base_addr r.length) && leb 0x400000 addr
        then true
        else rest)
    else rest

unfoldable pub is_address_available : MemoryMap → ℕ → Bool
unfolding any_available
is_address_available mmap addr = any_available mmap.regions addr

-- The body of `pmm_alloc_page` once page `i` is found free.
unfoldable pub take_page : PmmInfo → ℕ → PmmInfo
unfolding mark
take_page p i = record (mark p i) { used_pages = add64 p.used_pages 1; next_alloc_hint = add64 i 1 }

module _ (mmap : MemoryMap) where
  -- Both loops of `pmm_alloc_page`: `rounds` pages from `i` on, with the index of the first that
  -- is available and free.
  pub scan : PmmInfo → (rounds i : ℕ) → Option ℕ
  scan p zero i = none
  scan p (suc n) i =
      let rest = scan p n (i + 1) in
      if not (is_address_available mmap (page_addr p i))
      then rest
      else if not (is_used p i)
      then some i
      else rest

  -- A found page is marked, and its address is returned.
  finish_alloc : PmmInfo → ℕ → ℕ × PmmInfo
  finish_alloc p i = (page_addr p i, take_page p i)

  -- From the hint to the end, then from the start to the hint; 0 where no page is left.
  unfoldable pub pmm_alloc_page : PmmInfo → ℕ × PmmInfo
  unfolding scan take_page finish_alloc
  pmm_alloc_page p = elim (scan p (p.total_pages - p.next_alloc_hint) p.next_alloc_hint) [
    | some i ↦ finish_alloc p i
    | none ↦ elim (scan p p.next_alloc_hint 0) [ some i ↦ finish_alloc p i | none ↦ (0, p) ]
  ]

-- The range check of the functions that take a page address.
abbrev pub out_of_memory_range : PmmInfo → ℕ → Bool
out_of_memory_range p addr = if ltb addr p.memory_start then true else leb p.memory_end addr

-- The body of `pmm_free_page` once page `i` is found used.
pub release_page : PmmInfo → ℕ → PmmInfo
unfolding unmark
release_page p i = record (unmark p i) {
  used_pages = sub64 p.used_pages 1;
  next_alloc_hint = if ltb i p.next_alloc_hint then i else p.next_alloc_hint;
}

pub pmm_free_page : PmmInfo → ℕ → PmmInfo
unfolding release_page
pmm_free_page p addr =
    if out_of_memory_range p addr
    then p
    else if is_used p (page_index p addr)
    then release_page p (page_index p addr)
    else p

pub pmm_mark_page_used : PmmInfo → ℕ → PmmInfo
unfolding mark
pmm_mark_page_used p addr = if out_of_memory_range p addr then p else mark p (page_index p addr)

pub pmm_mark_page_free : PmmInfo → ℕ → PmmInfo
unfolding unmark
pmm_mark_page_free p addr = if out_of_memory_range p addr then p else unmark p (page_index p addr)

pub pmm_get_total_pages : PmmInfo → ℕ
pmm_get_total_pages p = p.total_pages

pub pmm_get_free_pages : PmmInfo → ℕ
pmm_get_free_pages p = p.free_pages
