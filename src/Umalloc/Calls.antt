-- ===== src/Umalloc/Calls.antt =====
-- The user heap (os/kernel/hal/mem/u_mem/vmm_api.c) stays in order over each of its calls.
use vsnx_os.Base.{
  ℕ, ◌-◌, ◌^◌, ◌≤◌, inl, inr, Bool-cases, not, leb, ◌==◌, if◌then◌else◌, Option, none, some, List,
  ◌/◌, mul64, arith,
}
use vsnx_os.Mmap.{MemoryMap}
use vsnx_os.Pmm.{page_align}
use vsnx_os.Umalloc.{
  Block, Heap, free_block, umalloc, urealloc, ucalloc, moved_block, with_memory, cleared,
}
use vsnx_os.Umalloc.Blocks.{IsHeap, umalloc-Granted}
use vsnx_os.Umalloc.Reached.{IsLeft, Granted-IsLeft, ufree-IsHeap}

-- The list of the heap that a call leaves which changes the memory too.
abbrev pub LeftWith : Option (ℕ × Heap × (ℕ → ℕ)) → Type 0
LeftWith none = Unit
LeftWith (some (ptr, h, mem)) = IsHeap h

module _ (mmap : MemoryMap) where
  pub umalloc-IsLeft :
      (h : Heap) (size : ℕ) → IsHeap h → size ≤ 2 ^ 63 - 2 ^ 12 → IsLeft (umalloc mmap h size)
  umalloc-IsLeft h size x small =
      Granted-IsLeft (page_align size) (umalloc-Granted mmap h size x small)

  with_memory-LeftWith :
      (mem : ℕ → ℕ) (o : Option (ℕ × Heap)) → IsLeft o → LeftWith (with_memory mmap mem o)
  with_memory-LeftWith mem none x = tt
  with_memory-LeftWith mem (some (ptr, h)) x = x

  cleared-LeftWith :
      (mem : ℕ → ℕ) (size : ℕ) (o : Option (ℕ × Heap))
      → IsLeft o
      → LeftWith (cleared mmap mem size o)
  cleared-LeftWith mem size none x = tt
  cleared-LeftWith mem size (some (ptr, h)) x = elim (Bool-cases (ptr == 0)) [
    | inl null ↦ rw null x
    | inr there ↦ rw there x
  ]

  moved_block-LeftWith :
      (mem : ℕ → ℕ) (ptr old_size : ℕ) (o : Option (ℕ × Heap))
      → IsLeft o
      → LeftWith (moved_block mmap mem ptr old_size o)
  unfolding moved_block
  moved_block-LeftWith mem ptr old_size none x = tt
  moved_block-LeftWith mem ptr old_size (some (new_ptr, h)) x = elim (Bool-cases (new_ptr == 0)) [
    | inl null ↦ rw null x
    | inr there ↦ rw there (ufree-IsHeap mmap h ptr x)
  ]

  pub ucalloc-LeftWith :
      (h : Heap) (mem : ℕ → ℕ) (num size : ℕ)
      → IsHeap h
      → mul64 num size ≤ 2 ^ 63 - 2 ^ 12
      → LeftWith (ucalloc mmap h mem num size)
  unfolding ucalloc
  ucalloc-LeftWith h mem num size x small = elim (Bool-cases (num == 0)) [
    | inl nothing ↦ rw (nothing, ucalloc) tt
    | inr some_items ↦ elim (Bool-cases (not (mul64 num size / num == size))) [
      | inl wraps ↦ rw (some_items, wraps, ucalloc) x
      | inr fits ↦
          rw (some_items, fits, ucalloc)
            (cleared-LeftWith mem (mul64 num size) (umalloc mmap h (mul64 num size))
              (umalloc-IsLeft h (mul64 num size) x small))
    ]
  ]

  pub urealloc-LeftWith :
      (h : Heap) (mem : ℕ → ℕ) (ptr new_size : ℕ)
      → IsHeap h
      → new_size ≤ 2 ^ 63 - 2 ^ 12
      → LeftWith (urealloc mmap h mem ptr new_size)
  unfolding urealloc
  urealloc-LeftWith h mem ptr new_size x small = elim (Bool-cases (ptr == 0)) [
    | inl null ↦
        rw (null, urealloc)
          (with_memory-LeftWith mem (umalloc mmap h new_size) (umalloc-IsLeft h new_size x small))
    | inr there ↦ elim (Bool-cases (new_size == 0)) [
      | inl nothing ↦ rw (there, nothing, urealloc) (ufree-IsHeap mmap h ptr x)
      | inr some_byte ↦ rw (there, some_byte, urealloc) (by_block (free_block h.free_list ptr))
    ]
  ]
    where
      by_size :
          (b : Block)
          → LeftWith (
              if leb (page_align new_size) b.size
              then some (ptr, h, mem)
              else moved_block mmap mem ptr b.size (umalloc mmap h (page_align new_size)))
      by_size b = elim (Bool-cases (leb (page_align new_size) b.size)) [
        | inl fits ↦ rw fits x
        | inr larger ↦ rw larger (
            moved_block-LeftWith mem ptr b.size (umalloc mmap h (page_align new_size))
              (umalloc-IsLeft h (page_align new_size) x (omega (arith, small))))
      ]

      by_block :
          (o : Option (Block × List Block))
          → LeftWith (elim o [
            | none ↦ some (0, h, mem)
            | some (b, _) ↦
                if leb (page_align new_size) b.size
                then some (ptr, h, mem)
                else moved_block mmap mem ptr b.size (umalloc mmap h (page_align new_size))
          ])
      by_block none = x
      by_block (some (b, bs)) = by_size b
