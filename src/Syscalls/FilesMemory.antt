-- ===== src/Syscalls/FilesMemory.antt =====
-- The handlers of os/kernel/syscalls/handles.c for printing, for files and for memory.
use vsnx_os.Base.{ℕ, none, some, List}
use vsnx_os.Syscalls.{
  FatCall, fat_open, fat_close, fat_read, fat_write, fat_lseek, fat_mkdir, fat_unlink, World,
  Kernel, word, int_arg, Outcome, returns, with_heap, with_heap_memory, or_error,
}
use vsnx_os.Umalloc.{umalloc, ufree, urealloc, ucalloc}

module _ (w : World) where
  -- The library is called and its result or its error number is returned.
  unfoldable pub call_fat : FatCall → Kernel → Outcome
  call_fat c k =
      let (result, rerrno, mem) = w.fat c k.loader.memory in
      returns (word (or_error result rerrno))
        (record k { loader = record k.loader { memory = mem } })

  abbrev pub string : Kernel → ℕ → List ℕ
  string k ptr = w.text k.loader.memory ptr

  -- What is printed is left out.
  unfoldable pub printf_handler : Kernel → Outcome
  printf_handler k = returns 0 k

  unfoldable pub open_handler : (filename_ptr flags mode : ℕ) → Kernel → Outcome
  open_handler filename_ptr flags mode k =
      call_fat (fat_open (string k filename_ptr) (int_arg flags) (int_arg mode)) k

  unfoldable pub close_handler : (fd : ℕ) → Kernel → Outcome
  close_handler fd k = call_fat (fat_close (int_arg fd)) k

  unfoldable pub read_handler : (fd buffer_ptr count : ℕ) → Kernel → Outcome
  read_handler fd buffer_ptr count k = call_fat (fat_read (int_arg fd) buffer_ptr count) k

  unfoldable pub write_handler : (fd buffer_ptr count : ℕ) → Kernel → Outcome
  write_handler fd buffer_ptr count k = call_fat (fat_write (int_arg fd) buffer_ptr count) k

  unfoldable pub lseek_handler : (fd offset whence : ℕ) → Kernel → Outcome
  lseek_handler fd offset whence k =
      call_fat (fat_lseek (int_arg fd) (int_arg offset) (int_arg whence)) k

  unfoldable pub mkdir_handler : (path_ptr mode : ℕ) → Kernel → Outcome
  mkdir_handler path_ptr mode k = call_fat (fat_mkdir (string k path_ptr) (int_arg mode)) k

  unfoldable pub unlink_handler : (path_ptr : ℕ) → Kernel → Outcome
  unlink_handler path_ptr k = call_fat (fat_unlink (string k path_ptr)) k

  unfoldable pub malloc_handler : (size : ℕ) → Kernel → Outcome
  malloc_handler size k = elim (umalloc w.mmap k.loader.heap size) [
    | none ↦ none
    | some (ptr, h) ↦ returns ptr (with_heap k h)
  ]

  unfoldable pub free_handler : (ptr : ℕ) → Kernel → Outcome
  free_handler ptr k = returns 0 (with_heap k (ufree w.mmap k.loader.heap ptr))

  unfoldable pub realloc_handler : (ptr new_size : ℕ) → Kernel → Outcome
  realloc_handler ptr new_size k =
      elim (urealloc w.mmap k.loader.heap k.loader.memory ptr new_size) [
        | none ↦ none
        | some (new_ptr, h, mem) ↦ returns new_ptr (with_heap_memory k h mem)
      ]

  unfoldable pub calloc_handler : (num size : ℕ) → Kernel → Outcome
  calloc_handler num size k = elim (ucalloc w.mmap k.loader.heap k.loader.memory num size) [
    | none ↦ none
    | some (ptr, h, mem) ↦ returns ptr (with_heap_memory k h mem)
  ]
