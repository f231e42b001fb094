-- ===== src/Elf/Parsed.antt =====
-- How elf_parse of os/kernel/elf/elf.c ends: with the file closed, the heap in order and an entry
-- point that a loaded segment has.
use vsnx_os.Base.{
  ℕ, zero, suc, ◌+◌, ◌-◌, ◌^◌, ◌≤◌, ◌≡◌, ◌⊎◌, refl, ◌∙◌, inl, inr, true, false, not, ◌||◌,
  Bool-cases, ◌==◌, if◌then◌else◌, Option, none, some, List, [], ◌∷◌, arith, add64, sub64, u32_mod,
  ◌*◌, ◌%◌, ◌<◌, subst,
}
use vsnx_os.Mmap.{MemoryMap}
use vsnx_os.Umalloc.{Heap, Block, umalloc}
use vsnx_os.Pmm.{page_align}
use vsnx_os.Umalloc.Blocks.{IsHeap, InUse, Keeps}
use vsnx_os.Elf.{
  Files, Hdr, hdr_of, Phdr, phdr_of, Loader, Call, fat_open, fat_lseek, fat_read, fat_close, call,
  store_bytes, has_entry, loaded_entry, fill_segment, elf_load_segment, read_phdr, load_header,
  load_segments, finish, parse_opened, elf_parse,
}
use vsnx_os.Elf.Segment.{Loads, not_loaded, placed, elf_load_segment-Loads}

-- The calls that close a file.
abbrev pub closes : List Call → ℕ
closes [] = 0
closes (fat_close fd ∷ cs) = suc (closes cs)
closes (_ ∷ cs) = closes cs

-- The bytes that the local variable holds once the first `i` program headers were read: each read is
-- behind the seek to its header, and overwrites what it stores.
pub data Held (files : Files) (fd phoff : ℕ) (phdr : ℕ → ℕ) : (i : ℕ) → (ℕ → ℕ) → Type 0 where
  unread : Held files fd phoff phdr 0 phdr
  read :
      {i : ℕ} {bytes : ℕ → ℕ} (calls : List Call)
      → Held files fd phoff phdr i bytes
      → Held files fd phoff phdr (suc i) (
          store_bytes
            (files.got fd 56 (fat_lseek fd ((phoff + i * 56) % u32_mod) ∷ calls)).1
            0
            bytes)

-- An entry point of the program in its new place: a segment to load, whose program header was read
-- as the `i`-th of the file, has it, and a block in use is for the segment.
pub record Entered (files : Files) (h : Hdr) (fd : ℕ) (phdr : ℕ → ℕ) (blocks : List Block)
    (result : ℕ) : Type 0 where
  pub i : ℕ
  pub in_file : i < h.e_phnum
  pub bytes : ℕ → ℕ
  pub held : Held files fd h.e_phoff phdr (suc i) bytes
  pub to_load : (phdr_of bytes).p_type ≡ 1
  pub inside : has_entry (phdr_of bytes) h.e_entry ≡ true
  pub segment_mem : ℕ
  pub in_use : InUse segment_mem (page_align (phdr_of bytes).p_memsz) blocks
  pub result_at : result ≡ add64 segment_mem (sub64 h.e_entry (phdr_of bytes).p_vaddr)

-- A program header with at most 2 ^ 63 - 2 ^ 12 bytes in memory.
abbrev pub SmallHeader : (ℕ → ℕ) → Type 0
SmallHeader phdr = (phdr_of phdr).p_memsz ≤ 2 ^ 63 - 2 ^ 12

-- The local variable starts with a small header, and a read of a program header leaves a small one,
-- also where it stores less than it was asked for, or nothing.
abbrev pub SmallSegments : Files → (phdr : ℕ → ℕ) → Type 0
SmallSegments files phdr =
    SmallHeader phdr
    × ((fd : ℕ) (calls : List Call) (held : ℕ → ℕ)
        → SmallHeader held
        → SmallHeader (store_bytes (files.got fd 56 calls).1 0 held))

-- An entry point so far, or none.
abbrev EnteredOrNone : Files → Hdr → (fd : ℕ) → (phdr : ℕ → ℕ) → List Block → (actual : ℕ) → Type 0
EnteredOrNone files h fd phdr blocks actual = (actual ≡ 0) ⊎ Entered files h fd phdr blocks actual

-- The loop has closed nothing more than the `n` files closed before.
data Ran (files : Files) (h : Hdr) (fd : ℕ) (phdr : ℕ → ℕ) (n : ℕ)
    : Option (Option ℕ × Loader) → Type 0 where
  stopped :
      {l : Loader} → IsHeap l.heap → closes l.calls ≡ n → Ran files h fd phdr n (some (none, l))
  ran :
      {actual : ℕ} {l : Loader}
      → IsHeap l.heap
      → closes l.calls ≡ n
      → EnteredOrNone files h fd phdr l.heap.free_list actual
      → Ran files h fd phdr n (some (some actual, l))

-- The block stays in use.
kept-EnteredOrNone :
    {files : Files} {h : Hdr} {fd : ℕ} {phdr : ℕ → ℕ} {blocks blocks' : List Block} {actual : ℕ}
    → Keeps blocks blocks'
    → EnteredOrNone files h fd phdr blocks actual
    → EnteredOrNone files h fd phdr blocks' actual
kept-EnteredOrNone keeps (inl e) = inl e
kept-EnteredOrNone keeps (inr e) = inr (record {
  i = e.i;
  in_file = e.in_file;
  bytes = e.bytes;
  held = e.held;
  to_load = e.to_load;
  inside = e.inside;
  segment_mem = e.segment_mem;
  in_use = keeps e.segment_mem (page_align (phdr_of e.bytes).p_memsz) e.in_use;
  result_at = e.result_at;
})

-- No call between closes a file.
abbrev ClosesSame : (n : ℕ) → Option (ℕ × Loader) → Type 0
ClosesSame n none = Unit
ClosesSame n (some (result, l)) = closes l.calls ≡ n

module _ (mmap : MemoryMap) (files : Files) where
  -- A segment closes no file.
  fill_segment-closes :
      (ph : Phdr) (fd entry segment_mem : ℕ) (l : Loader)
      → closes (fill_segment mmap files ph fd entry segment_mem l).1.calls ≡ closes l.calls
  unfolding fill_segment
  fill_segment-closes ph fd entry segment_mem l = ground arith

  elf_load_segment-closes :
      (ph : Phdr) (fd entry : ℕ) (l : Loader)
      → ClosesSame (closes l.calls) (elf_load_segment mmap files ph fd entry l)
  unfolding elf_load_segment
  elf_load_segment-closes ph fd entry l = by_block (umalloc mmap l.heap ph.p_memsz)
    where
      by_block :
          (o : Option (ℕ × Heap))
          → ClosesSame (closes l.calls) (elim o [
            | none ↦ none
            | some (segment_mem, heap) ↦
                some (fill_segment mmap files ph fd entry segment_mem (record l { heap = heap }))
          ])
      by_block none = tt
      by_block (some (segment_mem, heap)) =
          fill_segment-closes ph fd entry segment_mem (record l { heap = heap })

  module _ (h : Hdr) (fd : ℕ) (phdr : ℕ → ℕ) (i : ℕ) (bytes : ℕ → ℕ) (in_file : i < h.e_phnum)
      (held : Held files fd h.e_phoff phdr (suc i) bytes) where
    abbrev ph : Phdr
    ph = phdr_of bytes

    -- The entry point so far, behind a segment that is loaded.
    next_entry :
        {blocks : List Block} (actual loaded segment_mem : ℕ)
        → ph.p_type ≡ 1
        → InUse segment_mem (page_align ph.p_memsz) blocks
        → loaded ≡ loaded_entry ph h.e_entry segment_mem
        → EnteredOrNone files h fd phdr blocks actual
        → EnteredOrNone files h fd phdr blocks (if has_entry ph h.e_entry then loaded else actual)
    next_entry actual loaded segment_mem to_load in_use at before =
        elim (Bool-cases (has_entry ph h.e_entry)) [
          | inl inside ↦ rw inside (
              inr (record {
                i = i;
                in_file = in_file;
                bytes = bytes;
                held = held;
                segment_mem = segment_mem;
                to_load = to_load;
                inside = inside;
                in_use = in_use;
                result_at = ground (arith, at, inside);
              }))
          | inr outside ↦ rw outside before
        ]

    load_header-Ran :
        (actual n : ℕ) (l : Loader)
        → (again : ℕ → Loader → Option (Option ℕ × Loader)) → SmallHeader bytes
        → IsHeap l.heap
        → closes l.calls ≡ n
        → EnteredOrNone files h fd phdr l.heap.free_list actual
        → ((actual' : ℕ) (l' : Loader)
            → IsHeap l'.heap
            → closes l'.calls ≡ n
            → EnteredOrNone files h fd phdr l'.heap.free_list actual'
            → Ran files h fd phdr n (again actual' l'))
        → Ran files h fd phdr n (load_header mmap files ph fd h.e_entry actual l again)
    unfolding load_header
    load_header-Ran actual n l again small x closed e rest = elim (Bool-cases (ph.p_type == 1)) [
      | inl to_load ↦
          rw (to_load, load_header)
            (by_step (ground arith)
              (elf_load_segment-Loads mmap files ph fd h.e_entry (λ _ _. Unit) small l x
                (λ segment_mem there below read. tt))
              (elf_load_segment-closes ph fd h.e_entry l))
      | inr other ↦ rw (other, load_header) (rest actual l x closed e)
    ]
      where
        by_step :
            ph.p_type ≡ 1
            → {o : Option (ℕ × Loader)} → Loads ph h.e_entry l.heap.free_list (λ _ _. Unit) o
            → ClosesSame (closes l.calls) o
            → Ran files h fd phdr n (elim o [
              | none ↦ none
              | some (loaded, l') ↦ elim (loaded == 0) [
                | true ↦ some (none, l')
                | false ↦ again (if has_entry ph h.e_entry then loaded else actual) l'
              ]
            ])
        by_step to_load (not_loaded y) same = stopped y (same ∙ closed)
        by_step to_load (placed {result = loaded} {l = l'} y keeps p) same =
            elim (Bool-cases (loaded == 0)) [
              | inl failed ↦ rw failed (stopped y (same ∙ closed))
              | inr ok ↦ rw ok (
                  rest (if has_entry ph h.e_entry then loaded else actual) l' y (same ∙ closed) (
                    next_entry actual loaded p.segment_mem to_load p.in_use p.result_at
                      (kept-EnteredOrNone keeps e)))
            ]

  module _ (h : Hdr) (fd : ℕ) (phdr : ℕ → ℕ) (small : SmallSegments files phdr) where
    load_segments-Ran :
        (left i : ℕ) (bytes : ℕ → ℕ) (actual n : ℕ) (l : Loader)
        → i + left ≡ h.e_phnum
        → Held files fd h.e_phoff phdr i bytes
        → SmallHeader bytes
        → IsHeap l.heap
        → closes l.calls ≡ n
        → EnteredOrNone files h fd phdr l.heap.free_list actual
        → Ran files h fd phdr n (load_segments mmap files h fd left i bytes actual l)
    unfolding load_segments read_phdr
    load_segments-Ran zero i bytes actual n l all held fits x closed e = ran x closed e
    load_segments-Ran (suc left) i bytes actual n l all held fits x closed e =
        let (bytes', l') = read_phdr mmap files fd h.e_phoff i bytes l in
        let held' : Held files fd h.e_phoff phdr (suc i) bytes' = read l.calls held in
        let fits' : SmallHeader bytes' =
          small.1 fd (fat_lseek fd ((h.e_phoff + i * 56) % u32_mod) ∷ l.calls) bytes fits in
        load_header-Ran h fd phdr i bytes' (omega (arith, all)) held' actual n l'
          (λ actual' l''. load_segments mmap files h fd left (i + 1) bytes' actual' l'') fits' x
          closed e
          (λ actual' l'' y closed' e'.
            load_segments-Ran left (i + 1) bytes' actual' n l'' (omega (arith, all)) (again held')
              fits' y closed' e')
      where
        again :
            {i : ℕ} {bytes : ℕ → ℕ}
            → Held files fd h.e_phoff phdr (suc i) bytes
            → Held files fd h.e_phoff phdr (i + 1) bytes
        again {i = i} {bytes = bytes} x =
            subst (λ j. Held files fd h.e_phoff phdr j bytes) (omega arith) x

-- The header that `elf_parse` reads is that of an executable for x86-64.
pub record IsExecutable (h : Hdr) : Type 0 where
  pub magic_at : h.magic ≡ 0x464C457F
  pub machine_at : h.e_machine ≡ 62
  pub type_at : h.e_type ≡ 2

-- The outcomes of `elf_parse`: no file was opened, or the file opened is closed by the last call, and
-- none before; then the result is 0, or the file is an executable with a segment that has its
-- entry point, and the result is the entry point in the segment's block.
pub data Parsed (files : Files) (phdr : ℕ → ℕ) (filename : List ℕ) (header : ℕ → Hdr) (l : Loader)
    : Option ℕ → Option (ℕ × Loader) → Type 0 where
  no_file : Parsed files phdr filename header l none (some (0, call (fat_open filename) l))
  closed :
      {fd result : ℕ} {l' : Loader}
      → IsHeap l'.heap
      → closes l'.calls ≡ closes l.calls
      → (result ≡ 0)
        ⊎ (IsExecutable (header fd) × Entered files (header fd) fd phdr l'.heap.free_list result)
      → Parsed files phdr filename header l (some fd) (some (result, call (fat_close fd) l'))

-- The header that the first read gives.
abbrev pub read_header : Files → (hdr : ℕ → ℕ) → List Call → (fd : ℕ) → Hdr
read_header files hdr calls fd = hdr_of (store_bytes (files.got fd 64 calls).1 0 hdr)

module _ (mmap : MemoryMap) (files : Files) (filename : List ℕ) (hdr phdr : ℕ → ℕ) (l : Loader)
    (small : SmallSegments files phdr) (x : IsHeap l.heap) where
  abbrev header : ℕ → Hdr
  header = read_header files hdr (fat_open filename ∷ l.calls)

  finish-Parsed :
      (fd : ℕ) {o : Option (Option ℕ × Loader)}
      → IsExecutable (header fd)
      → Ran files (header fd) fd phdr (closes l.calls) o
      → Parsed files phdr filename header l (some fd) (finish mmap files fd o)
  finish-Parsed fd ok (stopped y same) = closed y same (inl refl)
  finish-Parsed fd ok (ran y same (inl zero_entry)) = closed y same (inl zero_entry)
  finish-Parsed fd ok (ran y same (inr e)) = closed y same (inr (ok, e))

  parse_opened-Parsed :
      (fd : ℕ)
      → Parsed files phdr filename header l
          (some fd)
          (parse_opened mmap files fd hdr phdr (call (fat_open filename) l))
  unfolding parse_opened
  parse_opened-Parsed fd =
      let h = header fd in
      let read_header_of = call (fat_read fd 64) (call (fat_open filename) l) in
      elim (Bool-cases ((files.got fd 64 (fat_open filename ∷ l.calls)).0 == 64)) [
        | inr short ↦ rw (short, parse_opened) (closed x refl (inl refl))
        | inl whole ↦ elim (Bool-cases (h.magic == 0x464C457F)) [
          | inr no_elf ↦ rw (whole, no_elf, parse_opened) (closed x refl (inl refl))
          | inl elf ↦ elim (Bool-cases (not (h.e_machine == 62) || not (h.e_type == 2))) [
            | inl foreign ↦ rw (whole, elf, foreign, parse_opened) (closed x refl (inl refl))
            | inr native ↦
                rw (whole, elf, native, parse_opened)
                  (finish-Parsed fd
                    (record {
                      magic_at = ground (arith, elf);
                      machine_at = ground (arith, native);
                      type_at = ground (arith, native);
                    })
                    (load_segments-Ran mmap files h fd phdr small h.e_phnum 0 phdr 0
                      (closes l.calls) read_header_of (omega arith) unread small.0 x refl
                      (inl refl)))
          ]
        ]
      ]

pub elf_parse-Parsed :
    (mmap : MemoryMap) (files : Files) (filename : List ℕ) (hdr phdr : ℕ → ℕ) (l : Loader)
    → SmallSegments files phdr
    → IsHeap l.heap
    → Parsed files phdr filename
        (read_header files hdr (fat_open filename ∷ l.calls))
        l
        (files.opened filename l.calls)
        (elf_parse mmap files filename hdr phdr l)
unfolding elf_parse
elf_parse-Parsed mmap files filename hdr phdr l small x = by_open (files.opened filename l.calls)
  where
    by_open :
        (o : Option ℕ)
        → Parsed files phdr filename (header mmap files filename hdr phdr l small x) l o (elim o [
          | none ↦ some (0, call (fat_open filename) l)
          | some fd ↦ parse_opened mmap files fd hdr phdr (call (fat_open filename) l)
        ])
    by_open none = no_file
    by_open (some fd) = parse_opened-Parsed mmap files filename hdr phdr l small x fd
