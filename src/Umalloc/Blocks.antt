-- ===== src/Umalloc/Blocks.antt =====
-- The blocks of the user heap (os/kernel/hal/mem/u_mem/vmm_api.c): how they lie, and what a call hands
-- out.
use vsnx_os.Base.{
  ℕ, ◌+◌, ◌-◌, ◌/◌, ◌^◌, ◌≤◌, ◌≡◌, refl, ◌⊎◌, inl, inr, true, false, ◌&&◌, ltb, leb, ◌==◌, Option,
  none, some, List, [], ◌∷◌, arith, Bool-cases, add64, sym,
}
use vsnx_os.Mmap.{MemoryMap}
use vsnx_os.Pmm.{PmmInfo, page_align, page_size, pmm_alloc_page, pmm_free_page}
use vsnx_os.Kmalloc.{kmalloc, pages_for}
use vsnx_os.Paging.{Machine}
use vsnx_os.Umalloc.{
  Block, Heap, user_heap_start, user_heap_end, Mapped, all_mapped, no_page, no_table, behind,
  take_block, map_pages, reuse, add_block, new_block, umalloc, reuse_end, unmap_pages,
}

-- The blocks lie one behind the other from the start of the heap up to `top`, the newest last.
abbrev pub Laid : (top : ℕ) → List Block → Type 0
Laid top [] = top ≡ user_heap_start
Laid top (b ∷ bs) = (b.addr + b.size ≡ top) × Laid b.addr bs

pub record IsHeap (h : Heap) : Type 0 where
  pub laid : Laid h.next_addr h.free_list
  pub below : h.next_addr ≤ user_heap_end

-- A block in use of at least `size` bytes at the address.
abbrev pub InUse : (addr size : ℕ) → List Block → Type 0
InUse addr size [] = ⊥
InUse addr size (b ∷ bs) =
    ((b.addr ≡ addr) × (size ≤ b.size) × (b.is_free ≡ false)) ⊎ InUse addr size bs

-- A free block at `addr` of at least `size` bytes is in use now, and no other block has changed.
pub data Reuses (size addr : ℕ) : (before after : List Block) → Type 0 where
  here :
      {b : Block} {bs : List Block}
      → b.addr ≡ addr
      → size ≤ b.size
      → b.is_free ≡ true
      → Reuses size addr (b ∷ bs) (record b { is_free = false } ∷ bs)
  later :
      {b : Block} {bs bs' : List Block}
      → Reuses size addr bs bs'
      → Reuses size addr (b ∷ bs) (b ∷ bs')

-- The block handed out was free, or is new behind all others: it was not in use.
pub data Hands (size addr : ℕ) (before : List Block) : List Block → Type 0 where
  reused : {after : List Block} → Reuses size addr before after → Hands size addr before after
  fresh : Hands size addr before (record { addr = addr; size = size; is_free = false } ∷ before)

-- The blocks in use are still.
abbrev pub Keeps : (before after : List Block) → Type 0
Keeps before after = (addr size : ℕ) → InUse addr size before → InUse addr size after

Reuses-Keeps :
    {size addr : ℕ} {before after : List Block} → Reuses size addr before after → Keeps before after
Reuses-Keeps (here at fits free) a n (inl (at', fits', used)) = absurd (ground (arith, free, used))
Reuses-Keeps (here at fits free) a n (inr u) = inr u
Reuses-Keeps (later r) a n (inl u) = inl u
Reuses-Keeps (later r) a n (inr u) = inr (Reuses-Keeps r a n u)

pub Hands-Keeps :
    {size addr : ℕ} {before after : List Block} → Hands size addr before after → Keeps before after
Hands-Keeps (reused r) = Reuses-Keeps r
Hands-Keeps fresh = λ a n u. inr u

Reuses-InUse :
    {size addr : ℕ} {before after : List Block}
    → Reuses size addr before after
    → InUse addr size after
Reuses-InUse (here at fits free) = inl (at, fits, refl)
Reuses-InUse (later r) = inr (Reuses-InUse r)

data Taken (size top : ℕ) (before : List Block) : Option (Block × List Block) → Type 0 where
  missing : Taken size top before none
  taken :
      {b : Block} {bs : List Block}
      → Laid top bs
      → Reuses size b.addr before bs
      → Taken size top before (some (b, bs))

behind-Taken :
    (size top : ℕ) (b : Block) {bs : List Block} {o : Option (Block × List Block)}
    → b.addr + b.size ≡ top
    → Taken size b.addr bs o
    → Taken size top (b ∷ bs) (behind b o)
behind-Taken size top b e missing = missing
behind-Taken size top b e (taken l r) = taken (e, l) (later r)

take_block-Taken :
    (bs : List Block) (size top : ℕ) → Laid top bs → Taken size top bs (take_block bs size)
unfolding take_block
take_block-Taken [] size top l = missing
take_block-Taken (b ∷ bs) size top (e, l) = elim (Bool-cases (b.is_free && leb size b.size)) [
  | inl fits ↦ rw fits (taken (e, l) (here refl (ground (arith, fits)) (ground (arith, fits))))
  | inr other ↦ rw other (behind-Taken size top b e (take_block-Taken bs size b.addr l))
]

-- What a call of `umalloc` returns: null, or the address of a block in use, which was not in use in
-- the list before; the heap stays in order, and the blocks in use stay so.
pub data Granted (size : ℕ) (before : List Block) : Option (ℕ × Heap) → Type 0 where
  refused : {h : Heap} → IsHeap h → Keeps before h.free_list → Granted size before (some (0, h))
  granted :
      {a : ℕ} {h : Heap}
      → IsHeap h
      → InUse a size h.free_list
      → Hands size a before h.free_list
      → Granted size before (some (a, h))

module _ (mmap : MemoryMap) where
  reuse-Granted :
      (h : Heap) (b : Block) (bs : List Block) (size : ℕ)
      → Laid h.next_addr bs
      → h.next_addr ≤ user_heap_end
      → Reuses size b.addr h.free_list bs
      → Granted size h.free_list (some (reuse mmap h b bs))
  unfolding reuse
  reuse-Granted h b bs size l below r =
      by_end (map_pages mmap (b.size / page_size) 0 b.addr h.machine)
    where
      by_end : (x : Mapped) → Granted size h.free_list (some (reuse_end h b bs x))
      by_end (all_mapped m) =
          granted (record { laid = l; below = below }) (Reuses-InUse r) (reused r)
      by_end (no_page i m) = refused (record { laid = l; below = below }) (Reuses-Keeps r)
      by_end (no_table phys m) = refused (record { laid = l; below = below }) (Reuses-Keeps r)

  -- A block descriptor takes one page, so that its allocation ends.
  kmalloc-descriptor : (p : PmmInfo) → kmalloc mmap p 32 ≡ some (pmm_alloc_page mmap p)
  unfolding kmalloc pages_for
  kmalloc-descriptor p = refl

  add_block-Granted :
      (h : Heap) (size : ℕ) (m : Machine)
      → IsHeap h
      → h.next_addr + size ≤ user_heap_end
      → Granted size h.free_list (add_block mmap h size m)
  unfolding add_block
  add_block-Granted h size m x room =
      rw (kmalloc-descriptor m.pmm, add_block)
        (elim (Bool-cases ((pmm_alloc_page mmap m.pmm).0 == 0)) [
          | inl full ↦ rw full (refused (record { laid = x.laid; below = x.below }) (λ a n u. u))
          | inr some_page ↦
              let top : add64 h.next_addr size ≡ h.next_addr + size = omega (arith, room) in
              rw some_page (
                granted (record { laid = (sym top, x.laid); below = omega (arith, room, top) })
                  (inl (refl, omega arith, refl)) fresh)
        ])

  new_block-Granted :
      (h : Heap) (size : ℕ)
      → IsHeap h
      → size ≤ 2 ^ 63
      → Granted size h.free_list (new_block mmap h size)
  unfolding new_block
  new_block-Granted h size x small =
      elim (Bool-cases (ltb user_heap_end (add64 h.next_addr size))) [
        | inl full ↦ rw (full, new_block) (refused x (λ a n u. u))
        | inr room ↦
            rw (room, new_block)
              (by_end (map_pages mmap (size / page_size) 0 h.next_addr h.machine) (fits room))
      ]
    where
      fits : ltb user_heap_end (add64 h.next_addr size) ≡ false → h.next_addr + size ≤ user_heap_end
      fits room = ground (arith, room, x.below, small)

      by_end :
          (e : Mapped)
          → h.next_addr + size ≤ user_heap_end
          → Granted size h.free_list (elim e [
            | all_mapped m ↦ add_block mmap h size m
            | no_page i m ↦ some (0, record h { machine = unmap_pages mmap i 0 h.next_addr m })
            | no_table phys m ↦
                some (0, record h { machine = record m { pmm = pmm_free_page m.pmm phys } })
          ])
      by_end (all_mapped m) room = add_block-Granted h size m x room
      by_end (no_page i m) room = refused (record { laid = x.laid; below = x.below }) (λ a n u. u)
      by_end (no_table phys m) room =
          refused (record { laid = x.laid; below = x.below }) (λ a n u. u)

  after_take-Granted :
      (h : Heap) (size : ℕ) {o : Option (Block × List Block)}
      → IsHeap h
      → size ≤ 2 ^ 63
      → Taken size h.next_addr h.free_list o
      → Granted size h.free_list (elim o [
        | some (b, blocks) ↦ some (reuse mmap h b blocks)
        | none ↦ new_block mmap h size
      ])
  after_take-Granted h size x small missing = new_block-Granted h size x small
  after_take-Granted h size x small (taken {b = b} {bs = bs} l r) =
      reuse-Granted h b bs size l x.below r

  -- On a heap in order, `umalloc` of at most 2 ^ 63 - 2 ^ 12 bytes returns null or the address of a block
  -- in use that holds the size rounded up to pages and was not in use before; no two blocks overlap,
  -- all lie in the heap, and those in use stay so.
  pub umalloc-Granted :
      (h : Heap) (size : ℕ)
      → IsHeap h
      → size ≤ 2 ^ 63 - 2 ^ 12
      → Granted (page_align size) h.free_list (umalloc mmap h size)
  unfolding umalloc
  umalloc-Granted h size x small = elim (Bool-cases (size == 0)) [
    | inl nothing ↦ rw (nothing, umalloc) (refused x (λ a n u. u))
    | inr some_byte ↦
        rw (some_byte, umalloc)
          (after_take-Granted h (page_align size) x (omega (arith, small))
            (take_block-Taken h.free_list (page_align size) h.next_addr x.laid))
  ]
