-- ===== src/Elf/Tests.antt =====
-- A small program for the loader of os/kernel/elf/elf.c, runs on it, and the loader's theorems at it.
use vsnx_os.Base.{
  ℕ, ◌≡◌, refl, inl, inr, ◌==◌, if◌then◌else◌, some, List, [], ◌∷◌, replicate, length-replicate,
  Bool-cases, arith,
}
use vsnx_os.Mmap.{MemoryMap}
use vsnx_os.Pmm.{PmmInfo}
use vsnx_os.Paging.{Machine}
use vsnx_os.Umalloc.{Heap, user_heap_start}
use vsnx_os.Umalloc.Blocks.{IsHeap}
use vsnx_os.Elf.{
  Files, hdr_of, Phdr, Loader, field, store_bytes, fill_segment, clear_bss, elf_load_segment,
}
use vsnx_os.Elf.Segment.{ReadsWhole, Loads, Holds, answer, elf_load_segment-Holds}
use vsnx_os.Elf.Parsed.{Parsed}

abbrev mmap : MemoryMap
mmap = record {
  total_memory = 65536;
  usable_memory = 65536;
  regions = record { base_addr = 0x400000; length = 65536; type = 1 } ∷ [];
}

abbrev pages : PmmInfo
pages = record {
  memory_start = 0x400000;
  memory_end = 0x410000;
  total_pages = 16;
  free_pages = 16;
  used_pages = 0;
  bitmap = λ _. 0;
  bitmap_size = 2;
  next_alloc_hint = 0;
}

abbrev machine : Machine
machine = record { pmm = pages; word = λ _. 0; pml4 = 4096; total_tables = 0 }

abbrev heap : Heap
heap = record {
  free_list = [];
  next_addr = user_heap_start;
  total_allocated = 0;
  total_free = 0;
  machine = machine;
}

heap-IsHeap : IsHeap heap
heap-IsHeap = record { laid = refl; below = omega arith }

-- An executable with one segment of two bytes in the file and four in memory.
abbrev header_bytes : List ℕ
header_bytes =
    127 ∷ 69 ∷ 76 ∷ 70 ∷ 0 ∷ 0 ∷ 0 ∷ 0 ∷ 0 ∷ 0 ∷ 0 ∷ 0 ∷ 0 ∷ 0 ∷ 0 ∷ 0 ∷ 2 ∷ 0 ∷ 62 ∷ 0 ∷ 0 ∷ 0 ∷ 0
    ∷ 0 ∷ 0 ∷ 16 ∷ 64 ∷ 0 ∷ 0 ∷ 0 ∷ 0 ∷ 0 ∷ 64 ∷ 0 ∷ 0 ∷ 0 ∷ 0 ∷ 0 ∷ 0 ∷ 0 ∷ 0 ∷ 0 ∷ 0 ∷ 0 ∷ 0 ∷ 0
    ∷ 0 ∷ 0 ∷ 0 ∷ 0 ∷ 0 ∷ 0 ∷ 64 ∷ 0 ∷ 56 ∷ 0 ∷ 1 ∷ 0 ∷ 0 ∷ 0 ∷ 0 ∷ 0 ∷ 0 ∷ 0 ∷ []

abbrev phdr_bytes : List ℕ
phdr_bytes =
    1 ∷ 0 ∷ 0 ∷ 0 ∷ 5 ∷ 0 ∷ 0 ∷ 0 ∷ 0 ∷ 0 ∷ 0 ∷ 0 ∷ 0 ∷ 0 ∷ 0 ∷ 0 ∷ 0 ∷ 16 ∷ 64 ∷ 0 ∷ 0 ∷ 0 ∷ 0 ∷ 0
    ∷ 0 ∷ 0 ∷ 0 ∷ 0 ∷ 0 ∷ 0 ∷ 0 ∷ 0 ∷ 2 ∷ 0 ∷ 0 ∷ 0 ∷ 0 ∷ 0 ∷ 0 ∷ 0 ∷ 4 ∷ 0 ∷ 0 ∷ 0 ∷ 0 ∷ 0 ∷ 0 ∷ 0
    ∷ 0 ∷ 0 ∷ 0 ∷ 0 ∷ 0 ∷ 0 ∷ 0 ∷ 0 ∷ []

abbrev files : Files
files = record {
  opened = λ filename calls. some 3;
  got = λ fd count calls.
      if count == 64
      then (64, header_bytes)
      else if count == 56
      then (56, phdr_bytes)
      else (count, replicate count 7);
}

abbrev loader : Loader
loader = record { calls = []; heap = heap; memory = λ a. 9 }

header-read : hdr_of (store_bytes header_bytes 0 (λ _. 0)) ≡ record {
  magic = 0x464C457F;
  e_type = 2;
  e_machine = 62;
  e_entry = 0x401000;
  e_phoff = 64;
  e_phnum = 1;
}
unfolding hdr_of field store_bytes
header-read = refl

abbrev segment : Phdr
segment = record { p_type = 1; p_offset = 0; p_vaddr = 0x401000; p_filesz = 2; p_memsz = 4 }

-- A segment with more bytes in the file than in memory is written behind its block.
beyond :
    (fill_segment mmap files
        (record segment { p_filesz = 3; p_memsz = 1 })
        3
        0
        0x5000
        loader).1.memory
      0x5002
    ≡ 7
unfolding fill_segment store_bytes clear_bss
beyond = refl

files-ReadsWhole : ReadsWhole files
files-ReadsWhole fd count calls e = elim (Bool-cases (count == 64)) [
  | inl hdr ↦ ground (arith, hdr)
  | inr no_hdr ↦ elim (Bool-cases (count == 56)) [
    | inl ph ↦ ground (arith, ph, no_hdr)
    | inr other ↦ ground (arith, no_hdr, other, length-replicate {A = ℕ} count 7)
  ]
]

elf_load_segment-Holds_example :
    Loads segment 0x401000 loader.heap.free_list
      (Holds segment (answer mmap files segment 3 0x401000 loader).1 loader.memory)
      (elf_load_segment mmap files segment 3 0x401000 loader)
elf_load_segment-Holds_example =
    elf_load_segment-Holds mmap files segment 3 0x401000 loader files-ReadsWhole (omega arith)
      (omega arith) heap-IsHeap
