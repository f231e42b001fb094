-- ===== src/Elf.antt =====
-- The loader of programs, os/kernel/elf/elf.c, over the user heap. The file system is a library:
-- what its calls answer is a parameter, given the calls so far. A call of kmalloc inside umalloc that
-- never returns is `none`.
pub mod Segment
pub mod Parsed
mod Tests
use vsnx_os.Base.{
  ℕ, zero, suc, ◌+◌, ◌-◌, ◌*◌, ◌%◌, ◌^◌, Bool, true, false, not, ◌&&◌, ◌||◌, ltb, leb, ◌==◌,
  if◌then◌else◌, Option, none, some, List, [], ◌∷◌, add64, sub64, mul64, u32_mod, u64_mod,
}
use vsnx_os.Mmap.{MemoryMap}
use vsnx_os.Pmm.{store_byte}
use vsnx_os.Memory.{umemset}
use vsnx_os.Umalloc.{Heap, umalloc, ufree}

-- A call of the file system; the last argument of `fat_open` and the result pointer are left out,
-- and an `int` offset is given by its low 32 bits.
pub data Call : Type 0 where
  fat_open : (filename : List ℕ) → Call
  fat_lseek : (fd offset : ℕ) → Call
  fat_read : (fd count : ℕ) → Call
  fat_close : (fd : ℕ) → Call

-- What the calls answer, given the calls before, the last first: a file descriptor that is not
-- negative or none, and the result of a read, as the unsigned number of 64 bits that it is compared
-- as, with the bytes that it stored.
pub record Files : Type 0 where
  pub opened : (filename : List ℕ) → List Call → Option ℕ
  pub got : (fd count : ℕ) → List Call → ℕ × List ℕ

-- The bytes of a little-endian field of `size` bytes at an offset.
unfoldable pub field : (size offset : ℕ) → (ℕ → ℕ) → ℕ
field zero offset bytes = 0
field (suc n) offset bytes = bytes offset + 256 * field n (offset + 1) bytes

-- Bytes stored from an address on.
unfoldable pub store_bytes : List ℕ → (at : ℕ) → (ℕ → ℕ) → ℕ → ℕ
store_bytes [] at mem = mem
store_bytes (b ∷ bs) at mem = store_bytes bs (at + 1) (store_byte mem at b)

-- `elf64_hdr_t`, but for the fields that are not used; `magic` is the start of `e_ident`.
pub record Hdr : Type 0 where
  pub magic : ℕ
  pub e_type : ℕ
  pub e_machine : ℕ
  pub e_entry : ℕ
  pub e_phoff : ℕ
  pub e_phnum : ℕ

-- The structure is packed.
unfoldable pub hdr_of : (ℕ → ℕ) → Hdr
hdr_of bytes = record {
  magic = field 4 0 bytes;
  e_type = field 2 16 bytes;
  e_machine = field 2 18 bytes;
  e_entry = field 8 24 bytes;
  e_phoff = field 8 32 bytes;
  e_phnum = field 2 56 bytes;
}

-- `elf64_phdr_t`, but for the fields that are not used.
pub record Phdr : Type 0 where
  pub p_type : ℕ
  pub p_offset : ℕ
  pub p_vaddr : ℕ
  pub p_filesz : ℕ
  pub p_memsz : ℕ

unfoldable pub phdr_of : (ℕ → ℕ) → Phdr
phdr_of bytes = record {
  p_type = field 4 0 bytes;
  p_offset = field 8 8 bytes;
  p_vaddr = field 8 16 bytes;
  p_filesz = field 8 32 bytes;
  p_memsz = field 8 40 bytes;
}

-- The calls so far, the last first, the user heap, and the memory.
pub record Loader : Type 0 where
  pub calls : List Call
  pub heap : Heap
  pub memory : ℕ → ℕ

abbrev pub call : Call → Loader → Loader
call c l = record l { calls = c ∷ l.calls }

-- Does the segment have the entry point?
abbrev pub has_entry : Phdr → (entry : ℕ) → Bool
has_entry ph entry = leb ph.p_vaddr entry && ltb entry (add64 ph.p_vaddr ph.p_memsz)

-- What `elf_load_segment` returns for a segment that is loaded.
abbrev pub loaded_entry : Phdr → (entry segment_mem : ℕ) → ℕ
loaded_entry ph entry segment_mem =
    if has_entry ph entry then add64 segment_mem (sub64 entry ph.p_vaddr) else 1

-- The bytes behind the file's are cleared.
unfoldable pub clear_bss : Phdr → (segment_mem : ℕ) → (ℕ → ℕ) → ℕ → ℕ
clear_bss ph segment_mem mem =
    if ltb ph.p_filesz ph.p_memsz
    then umemset mem (add64 segment_mem ph.p_filesz) 0 (ph.p_memsz - ph.p_filesz)
    else mem

module _ (mmap : MemoryMap) (files : Files) where
  -- The part of `elf_load_segment` behind `umalloc`.
  unfoldable pub fill_segment : Phdr → (fd entry segment_mem : ℕ) → Loader → ℕ × Loader
  fill_segment ph fd entry segment_mem l =
      let sought = call (fat_lseek fd (ph.p_offset % u32_mod)) l in
      let (result, bytes) = files.got fd ph.p_filesz sought.calls in
      let stored = store_bytes bytes segment_mem l.memory in
      let read = record sought {
        calls = fat_read fd ph.p_filesz ∷ sought.calls;
        memory = stored;
      } in
      if segment_mem == 0
      then (0, l)
      else if result == ph.p_filesz
      then (
        loaded_entry ph entry segment_mem,
        record read { memory = clear_bss ph segment_mem stored },
      )
      else (0, record read { heap = ufree mmap l.heap segment_mem })

  unfoldable pub elf_load_segment : Phdr → (fd entry : ℕ) → Loader → Option (ℕ × Loader)
  elf_load_segment ph fd entry l = elim (umalloc mmap l.heap ph.p_memsz) [
    | none ↦ none
    | some (segment_mem, heap) ↦
        some (fill_segment ph fd entry segment_mem (record l { heap = heap }))
  ]

  -- The i-th program header: its bytes, in the place of the local variable, whose bytes are what
  -- they were where the read, which is not looked at, gives none.
  unfoldable pub read_phdr : (fd phoff i : ℕ) → (phdr : ℕ → ℕ) → Loader → (ℕ → ℕ) × Loader
  read_phdr fd phoff i phdr l =
      let sought = call (fat_lseek fd ((phoff + i * 56) % u32_mod)) l in
      (store_bytes (files.got fd 56 sought.calls).1 0 phdr, call (fat_read fd 56) sought)

  -- The body of the loop behind the read; `again` is the rest of the loop, with the entry point so far.
  unfoldable pub load_header :
      Phdr
      → (fd entry actual : ℕ) → Loader
      → (again : ℕ → Loader → Option (Option ℕ × Loader)) → Option (Option ℕ × Loader)
  load_header ph fd entry actual l again = elim (ph.p_type == 1) [
    | false ↦ again actual l
    | true ↦ elim (elf_load_segment ph fd entry l) [
      | none ↦ none
      | some (loaded, l') ↦ elim (loaded == 0) [
        | true ↦ some (none, l')
        | false ↦ again (if has_entry ph entry then loaded else actual) l'
      ]
    ]
  ]

  -- The loop over the program headers, `left` of them from the i-th on; the result is `none` where
  -- a segment cannot be loaded.
  unfoldable pub load_segments :
      (h : Hdr) (fd left i : ℕ) (phdr : ℕ → ℕ) (actual : ℕ) → Loader → Option (Option ℕ × Loader)
  load_segments h fd zero i phdr actual l = some (some actual, l)
  load_segments h fd (suc left) i phdr actual l =
      let (phdr', l') = read_phdr fd h.e_phoff i phdr l in
      load_header (phdr_of phdr') fd h.e_entry actual l'
        (λ actual' l''. load_segments h fd left (i + 1) phdr' actual' l'')

  -- The file is closed; a segment that cannot be loaded makes the result 0.
  abbrev pub finish : (fd : ℕ) → Option (Option ℕ × Loader) → Option (ℕ × Loader)
  finish fd none = none
  finish fd (some (none, l)) = some (0, call (fat_close fd) l)
  finish fd (some (some actual, l)) = some (actual, call (fat_close fd) l)

  -- The part of `elf_parse` behind `fat_open`. `hdr` and `phdr` are the bytes of the local
  -- variables before they are read.
  unfoldable pub parse_opened : (fd : ℕ) (hdr phdr : ℕ → ℕ) → Loader → Option (ℕ × Loader)
  parse_opened fd hdr phdr l =
      let (result, bytes) = files.got fd 64 l.calls in
      let read = call (fat_read fd 64) l in
      let h = hdr_of (store_bytes bytes 0 hdr) in
      if not (result == 64)
      then some (0, call (fat_close fd) read)
      else if not (h.magic == 0x464C457F)
      then some (0, call (fat_close fd) read)
      else if not (h.e_machine == 62) || not (h.e_type == 2)
      then some (0, call (fat_close fd) read)
      else finish fd (load_segments h fd h.e_phnum 0 phdr 0 read)

  unfoldable pub elf_parse : (filename : List ℕ) (hdr phdr : ℕ → ℕ) → Loader → Option (ℕ × Loader)
  elf_parse filename hdr phdr l = elim (files.opened filename l.calls) [
    | none ↦ some (0, call (fat_open filename) l)
    | some fd ↦ parse_opened fd hdr phdr (call (fat_open filename) l)
  ]
