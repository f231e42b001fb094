-- ===== src/Elf/Segment.antt =====
-- What elf_load_segment of os/kernel/elf/elf.c makes of a segment.
use vsnx_os.Base.{
  ℕ, suc, ◌+◌, ◌-◌, ◌^◌, ◌≤◌, ◌<◌, ◌≡◌, ◌≢◌, refl, ap, inl, inr, Bool-cases, ◌&&◌, ltb, leb, ◌==◌,
  if◌then◌else◌, Option, none, some, List, [], ◌∷◌, length, get_elem?, arith, u64_mod, u32_mod,
  add64, ◌%◌,
}
use vsnx_os.Mmap.{MemoryMap}
use vsnx_os.Pmm.{page_align, store_byte}
use vsnx_os.Memory.Copy.{set_lem}
use vsnx_os.Umalloc.{Block, Heap}
use vsnx_os.Umalloc.Blocks.{
  Laid, IsHeap, InUse, Keeps, Hands-Keeps, Granted, refused, granted, umalloc-Granted,
}
use vsnx_os.Umalloc.Reached.{ufree-IsHeap}
use vsnx_os.Elf.{
  Files, Phdr, Loader, Call, fat_lseek, store_bytes, loaded_entry, clear_bss, fill_segment,
  elf_load_segment,
}

abbrev pub byte_at : List ℕ → ℕ → ℕ
byte_at bs i = elim (get_elem? bs i) [ none ↦ 0 | some b ↦ b ]

byte_at-later : (b : ℕ) (bs : List ℕ) (k j : ℕ) → k ≡ suc j → byte_at (b ∷ bs) k ≡ byte_at bs j
byte_at-later b bs k j e = ap (byte_at (b ∷ bs)) e

byte_at-first : (b : ℕ) (bs : List ℕ) (k : ℕ) → k ≡ 0 → byte_at (b ∷ bs) k ≡ b
byte_at-first b bs k e = ap (byte_at (b ∷ bs)) e

pub store_bytes-at :
    (bs : List ℕ) (at : ℕ) (mem : ℕ → ℕ) (a : ℕ)
    → store_bytes bs at mem a
      ≡ (if leb at a && ltb a (at + length bs) then byte_at bs (a - at) else mem a)
unfolding store_bytes
store_bytes-at [] at mem a = ground arith
store_bytes-at (b ∷ bs) at mem a =
    let rest = store_bytes-at bs (at + 1) (store_byte mem at b) a in
    elim (Bool-cases (ltb at a)) [
      | inl behind ↦ ground (arith, rest, byte_at-later b bs (a - at) (a - (at + 1)) (ground arith))
      | inr here ↦ elim (Bool-cases (a == at)) [
        | inl at_it ↦ ground (arith, rest, byte_at-first b bs (a - at) (ground arith))
        | inr before ↦ ground (arith, rest)
      ]
    ]

-- The bytes of a segment: those of the file, with zeros behind them.
abbrev pub image : (filesz : ℕ) → List ℕ → ℕ → ℕ
image filesz bytes i = if ltb i filesz then byte_at bytes i else 0

-- The memory with a segment in it.
abbrev pub with_segment : Phdr → (bytes : List ℕ) (segment_mem : ℕ) → (ℕ → ℕ) → ℕ → ℕ
with_segment ph bytes segment_mem mem a =
    if leb segment_mem a && ltb a (segment_mem + ph.p_memsz)
    then image ph.p_filesz bytes (a - segment_mem)
    else mem a

stored_segment :
    (ph : Phdr) (bytes : List ℕ) (segment_mem : ℕ) (mem : ℕ → ℕ) (a : ℕ)
    → length bytes ≡ ph.p_filesz
    → ph.p_filesz ≤ ph.p_memsz
    → segment_mem ≢ 0
    → segment_mem + ph.p_memsz < u64_mod
    → clear_bss ph segment_mem (store_bytes bytes segment_mem mem) a
      ≡ with_segment ph bytes segment_mem mem a
unfolding clear_bss
stored_segment ph bytes segment_mem mem a full fits there below =
    elim (Bool-cases (ltb ph.p_filesz ph.p_memsz)) [
      | inl more ↦ ground (
        arith,
        full,
        store_bytes-at bytes segment_mem mem a,
        (set_lem (store_bytes bytes segment_mem mem) (add64 segment_mem ph.p_filesz) 0
            (ph.p_memsz - ph.p_filesz) a (ground arith)).1,
      )
      | inr all ↦ ground (arith, full, store_bytes-at bytes segment_mem mem a)
    ]

-- A block in use ends in the heap.
block_end :
    (bs : List Block) (top addr size : ℕ) → Laid top bs → InUse addr size bs → addr + size ≤ top
block_end [] top addr size l u = absurd u
block_end (b ∷ bs) top addr size (e, l) (inl (at, fits, used)) = omega (arith, e, at, fits)
block_end (b ∷ bs) top addr size (e, l) (inr rest) =
    omega (arith, e, block_end bs b.addr addr size l rest)

-- A segment in a block of the heap: the result is the entry point's new address if the segment has
-- it, and `Image` holds of the address and the memory.
pub record Placed (ph : Phdr) (entry : ℕ) (Image : ℕ → (ℕ → ℕ) → Type 0) (result : ℕ) (l : Loader)
    : Type 0 where
  pub segment_mem : ℕ
  pub in_use : InUse segment_mem (page_align ph.p_memsz) l.heap.free_list
  pub result_at : result ≡ loaded_entry ph entry segment_mem
  pub image_at : Image segment_mem l.memory

-- The outcomes of `elf_load_segment`; the heap stays in order, and the blocks in use before a
-- segment is loaded stay so.
pub data Loads (ph : Phdr) (entry : ℕ) (before : List Block) (Image : ℕ → (ℕ → ℕ) → Type 0)
    : Option (ℕ × Loader) → Type 0 where
  not_loaded : {l : Loader} → IsHeap l.heap → Loads ph entry before Image (some (0, l))
  placed :
      {result : ℕ} {l : Loader}
      → IsHeap l.heap
      → Keeps before l.heap.free_list
      → Placed ph entry Image result l
      → Loads ph entry before Image (some (result, l))

-- A read with the result that was asked for stored as many bytes.
abbrev pub ReadsWhole : Files → Type 0
ReadsWhole files =
    (fd count : ℕ) (calls : List Call)
    → (files.got fd count calls).0 ≡ count
    → length (files.got fd count calls).1 ≡ count

-- The memory is the old one but for the segment's bytes.
abbrev pub Holds : Phdr → (bytes : List ℕ) → (ℕ → ℕ) → ℕ → (ℕ → ℕ) → Type 0
Holds ph bytes mem segment_mem mem' = (a : ℕ) → mem' a ≡ with_segment ph bytes segment_mem mem a

module _ (mmap : MemoryMap) (files : Files) (ph : Phdr) (fd entry : ℕ) where
  abbrev pub answer : Loader → ℕ × List ℕ
  answer l = files.got fd ph.p_filesz (fat_lseek fd (ph.p_offset % u32_mod) ∷ l.calls)

  module _ (Image : ℕ → (ℕ → ℕ) → Type 0) (small : ph.p_memsz ≤ 2 ^ 63 - 2 ^ 12) where
    fill_segment-Loads :
        (before : List Block) (segment_mem : ℕ) (l : Loader)
        → IsHeap l.heap
        → Keeps before l.heap.free_list
        → InUse segment_mem (page_align ph.p_memsz) l.heap.free_list
        → (segment_mem ≢ 0
            → segment_mem + ph.p_memsz < u64_mod
            → (answer l).0 ≡ ph.p_filesz
            → Image segment_mem
                (clear_bss ph segment_mem (store_bytes (answer l).1 segment_mem l.memory)))
        → Loads ph entry before Image (some (fill_segment mmap files ph fd entry segment_mem l))
    unfolding fill_segment
    fill_segment-Loads before segment_mem l x keeps u image =
        let above =
          block_end l.heap.free_list l.heap.next_addr segment_mem (page_align ph.p_memsz) x.laid
            u in
        elim (Bool-cases (segment_mem == 0)) [
          | inl null ↦ rw (null, fill_segment) (not_loaded x)
          | inr there ↦ elim (Bool-cases ((answer l).0 == ph.p_filesz)) [
            | inl read ↦
                rw (there, read, fill_segment)
                  (placed x keeps (record {
                    segment_mem = segment_mem;
                    in_use = u;
                    result_at = refl;
                    image_at = image (ground arith) (omega (arith, above, x.below)) (ground arith);
                  }))
            | inr short ↦
                rw (there, short, fill_segment)
                  (not_loaded (ufree-IsHeap mmap l.heap segment_mem x))
          ]
        ]

    null-Loads :
        (before : List Block) (l : Loader)
        → IsHeap l.heap
        → Loads ph entry before Image (some (fill_segment mmap files ph fd entry 0 l))
    unfolding fill_segment
    null-Loads before l x = not_loaded x

    -- `elf_load_segment` of a segment of at most 2 ^ 63 - 2 ^ 12 bytes, on a heap in order.
    pub elf_load_segment-Loads :
        (l : Loader)
        → IsHeap l.heap
        → ((segment_mem : ℕ)
            → segment_mem ≢ 0
            → segment_mem + ph.p_memsz < u64_mod
            → (answer l).0 ≡ ph.p_filesz
            → Image segment_mem
                (clear_bss ph segment_mem (store_bytes (answer l).1 segment_mem l.memory)))
        → Loads ph entry l.heap.free_list Image (elf_load_segment mmap files ph fd entry l)
    unfolding elf_load_segment
    elf_load_segment-Loads l x image = by_grant (umalloc-Granted mmap l.heap ph.p_memsz x small)
      where
        by_grant :
            {o : Option (ℕ × Heap)}
            → Granted (page_align ph.p_memsz) l.heap.free_list o
            → Loads ph entry l.heap.free_list Image (elim o [
              | none ↦ none
              | some (segment_mem, heap) ↦
                  some (fill_segment mmap files ph fd entry segment_mem (record l { heap = heap }))
            ])
        by_grant (refused {h = h} y k) = null-Loads l.heap.free_list (record l { heap = h }) y
        by_grant (granted {a = a} {h = h} y u k) =
            fill_segment-Loads l.heap.free_list a (record l { heap = h }) y (Hands-Keeps k) u
              (image a)

-- On a heap in order, `elf_load_segment` of a segment that has at most 2 ^ 63 - 2 ^ 12 bytes and no
-- more in the file than in memory ends. Its result is 0, or it is the new address of the entry point
-- (1 if the segment does not have it) for a block in use: then the block begins with the bytes read
-- from the file, zeros up to the size in memory follow, and no other byte of the memory has changed.
pub elf_load_segment-Holds :
    (mmap : MemoryMap) (files : Files) (ph : Phdr) (fd entry : ℕ) (l : Loader)
    → ReadsWhole files
    → ph.p_filesz ≤ ph.p_memsz
    → ph.p_memsz ≤ 2 ^ 63 - 2 ^ 12
    → IsHeap l.heap
    → Loads ph entry l.heap.free_list
        (Holds ph (answer mmap files ph fd entry l).1 l.memory)
        (elf_load_segment mmap files ph fd entry l)
elf_load_segment-Holds mmap files ph fd entry l whole fits small x =
    elf_load_segment-Loads mmap files ph fd entry
      (Holds ph (answer mmap files ph fd entry l).1 l.memory) small l x
      (λ segment_mem there below read a.
        stored_segment ph (answer mmap files ph fd entry l).1 segment_mem l.memory a
          (whole fd ph.p_filesz (fat_lseek fd (ph.p_offset % u32_mod) ∷ l.calls) read) fits there
          below)
