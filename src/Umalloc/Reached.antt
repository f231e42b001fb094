-- ===== src/Umalloc/Reached.antt =====
-- The states of the user heap (os/kernel/hal/mem/u_mem/vmm_api.c, vmm.c) that its calls lead to.
use vsnx_os.Base.{
  ℕ, ◌+◌, ◌-◌, ◌^◌, ◌≤◌, ◌≡◌, refl, inl, inr, not, ◌&&◌, ◌==◌, Option, none, some, List, [], ◌∷◌,
  arith, Bool-cases, subst,
}
use vsnx_os.Mmap.{MemoryMap}
use vsnx_os.Pmm.{page_align}
use vsnx_os.Umalloc.{Block, Heap, behind, free_block, free_found, ufree, umalloc, vmm_init}
use vsnx_os.Umalloc.Blocks.{Laid, IsHeap, Granted, refused, granted, umalloc-Granted}

-- The list that `free_block` returns lies as the old one did.
data LaidToo (top : ℕ) : Option (Block × List Block) → Type 0 where
  missing : LaidToo top none
  laid_too : {b : Block} {bs : List Block} → Laid top bs → LaidToo top (some (b, bs))

behind-LaidToo :
    (top : ℕ) (b : Block) {o : Option (Block × List Block)}
    → b.addr + b.size ≡ top
    → LaidToo b.addr o
    → LaidToo top (behind b o)
behind-LaidToo top b e missing = missing
behind-LaidToo top b e (laid_too l) = laid_too (e, l)

-- The list of the heap that a call of `umalloc` leaves.
abbrev pub IsLeft : Option (ℕ × Heap) → Type 0
IsLeft none = Unit
IsLeft (some (a, h)) = IsHeap h

pub Granted-IsLeft :
    (size : ℕ) {before : List Block} {o : Option (ℕ × Heap)} → Granted size before o → IsLeft o
Granted-IsLeft size (refused x k) = x
Granted-IsLeft size (granted x u k) = x

module _ (mmap : MemoryMap) where
  free_block-LaidToo :
      (bs : List Block) (addr top : ℕ) → Laid top bs → LaidToo top (free_block bs addr)
  unfolding free_block
  free_block-LaidToo [] addr top l = missing
  free_block-LaidToo (b ∷ bs) addr top (e, l) =
      elim (Bool-cases (b.addr == addr && not b.is_free)) [
        | inl here ↦ rw here (laid_too (e, l))
        | inr other ↦ rw other (behind-LaidToo top b e (free_block-LaidToo bs addr b.addr l))
      ]

  pub ufree-IsHeap : (h : Heap) (ptr : ℕ) → IsHeap h → IsHeap (ufree mmap h ptr)
  unfolding ufree
  ufree-IsHeap h ptr x = elim (Bool-cases (ptr == 0)) [
    | inl null ↦ rw (null, ufree) x
    | inr some_ptr ↦
        rw (some_ptr, ufree) (by_block (free_block-LaidToo h.free_list ptr h.next_addr x.laid))
  ]
    where
      by_block :
          {o : Option (Block × List Block)} → LaidToo h.next_addr o → IsHeap (free_found mmap h o)
      by_block missing = x
      by_block (laid_too l) = record { laid = l; below = x.below }

  -- The heap is set up, and blocks of a size below 2 ^ 63 are allocated and freed.
  pub data Reached : Heap → Type 0 where
    set_up : (h : Heap) → Reached (vmm_init h)
    allocated :
        {h h' : Heap} (size a : ℕ)
        → Reached h
        → size ≤ 2 ^ 63 - 2 ^ 12
        → umalloc mmap h size ≡ some (a, h')
        → Reached h'
    freed : {h : Heap} (ptr : ℕ) → Reached h → Reached (ufree mmap h ptr)

  Reached-IsHeap : {h : Heap} → Reached h → IsHeap h
  unfolding vmm_init
  Reached-IsHeap (set_up h) = record { laid = refl; below = omega arith }
  Reached-IsHeap (allocated {h = h} size a r small e) = Granted-IsLeft (page_align size) (
      subst (Granted (page_align size) h.free_list) e
        (umalloc-Granted mmap h size (Reached-IsHeap r) small))
  Reached-IsHeap (freed {h = h} ptr r) = ufree-IsHeap h ptr (Reached-IsHeap r)

  -- In each state that allocations and frees lead to from `vmm_init`, `umalloc` of at most
  -- 2 ^ 63 - 2 ^ 12 bytes ends and returns null or the address of a block in use that holds the size
  -- rounded up to pages, where the blocks lie one behind the other in the heap without overlapping.
  -- The block was free or is new, no other block changes with it, and blocks in use stay so.
  pub Reached-Granted :
      (h : Heap) (size : ℕ)
      → Reached h
      → size ≤ 2 ^ 63 - 2 ^ 12
      → Granted (page_align size) h.free_list (umalloc mmap h size)
  Reached-Granted h size r small = umalloc-Granted mmap h size (Reached-IsHeap r) small
