-- ===== src/Syscalls.antt =====
-- System calls: the handlers of os/kernel/syscalls/handles.c and the dispatch of
-- os/kernel/syscalls/syscall.c over the heap, the threads, the processes and the pipes. Results are
-- words of 64 bits. A call that never comes back is `none`; one that comes back without a result
-- has the result `none`.
pub mod FilesMemory
pub mod ThreadCalls
pub mod ProcessCalls
pub mod Dispatch
pub mod Keeps
pub mod Calls
mod Tests
use vsnx_os.Base.{
  ℕ, zero, suc, ◌+◌, ◌-◌, ◌^◌, ◌%◌, Bool, true, false, leb, ◌==◌, if◌then◌else◌, Option, none, some,
  List, [], ◌∷◌, ◌++◌, ℤ, pos, negsuc, u32_mod, u64_mod, get_elem?,
}
use vsnx_os.Mmap.{MemoryMap}
use vsnx_os.Queue.{ThreadState, thread_ready, thread_running, thread_blocked, thread_terminated}
use vsnx_os.Scheduler.{Sched, Priority, low, background, normal, high, ultra, immediates}
use vsnx_os.Threads.{
  Freed, thread_create, thread_execute, thread_exit, thread_terminate, thread_block, thread_unblock,
  getpid, gettid, thread_get_by_tid, thread_exists, thread_get_state,
}
use vsnx_os.Umalloc.{Heap, umalloc, ufree, urealloc, ucalloc}
use vsnx_os.Elf.{Files, Loader}
use vsnx_os.Process.{
  Procs, NewMemory, give_back, spawn_process, execute_process, kill_process, find_process_by_pid,
}
use vsnx_os.Registry.{Entry, makepipe, getpipe}
use vsnx_os.Clock.{uptime_seconds, uptime_minutes, time_after, time_before}

-- A call of the file system's library; an `int` is given by its low 32 bits.
pub data FatCall : Type 0 where
  fat_open : (filename : List ℕ) (flags mode : ℕ) → FatCall
  fat_close : (fd : ℕ) → FatCall
  fat_read fat_write : (fd buffer count : ℕ) → FatCall
  fat_lseek : (fd offset whence : ℕ) → FatCall
  fat_mkdir : (path : List ℕ) (mode : ℕ) → FatCall
  fat_unlink : (path : List ℕ) → FatCall

-- What the rest of the machine answers during one call: the library's result and error number, with
-- the memory that it leaves; the string at an address; what kmalloc returns for a process, a
-- thread and its kernel stack; the state in which the caller runs again after the scheduler was called; the file system
-- of the loader, and the bytes of its local variables; whether there is memory for a pipe; the
-- milliseconds of the clock; and fuel for the ready queue.
pub record World : Type 0 where
  pub mmap : MemoryMap
  pub fat : FatCall → (ℕ → ℕ) → ℤ × ℤ × (ℕ → ℕ)
  pub text : (ℕ → ℕ) → ℕ → List ℕ
  pub given : NewMemory
  pub switch : Sched → Option Sched
  pub files : Files
  pub hdr : ℕ → ℕ
  pub phdr : ℕ → ℕ
  pub pipe_memory : Bool
  pub now : ℕ
  pub links : ℕ

-- The state that the handlers change; a pipe's function is its address.
pub record Kernel : Type 0 where
  pub loader : Loader
  pub procs : Procs
  pub pipes : List (Entry ℕ)

-- An `int` result as a word.
abbrev pub word : ℤ → ℕ
word (pos n) = n % u64_mod
word (negsuc n) = u64_mod - 1 - n % u64_mod

abbrev pub int_arg : ℕ → ℕ
int_arg a = a % u32_mod

abbrev pub max_syscalls : ℕ
max_syscalls = 99999

abbrev pub Outcome : Type 0
Outcome = Option (Option ℕ × Kernel)

abbrev pub returns : ℕ → Kernel → Outcome
returns result k = some (some result, k)

abbrev pub with_sched : Kernel → Sched → Kernel
with_sched k s = record k { procs = record k.procs { sched = s } }

abbrev pub with_heap : Kernel → Heap → Kernel
with_heap k h = record k { loader = record k.loader { heap = h } }

-- Memory that is given back to the heap.
abbrev pub returned_to : MemoryMap → List Freed → Kernel → Kernel
returned_to mmap freed k = with_heap k (give_back mmap freed k.loader.heap)

abbrev pub with_heap_memory : Kernel → Heap → (ℕ → ℕ) → Kernel
with_heap_memory k h mem = record k { loader = record k.loader { heap = h; memory = mem } }

-- `-rerrno` of the error number, below 0 and not.
abbrev pub negated : ℤ → ℤ
negated (pos zero) = pos 0
negated (pos (suc n)) = negsuc n
negated (negsuc n) = pos (n + 1)

-- `result < 0 ? -rerrno : result`
abbrev pub or_error : (result rerrno : ℤ) → ℤ
or_error (pos n) rerrno = pos n
or_error (negsuc n) rerrno = negated rerrno

-- The number of a thread's state; -1, as the enumeration without a value below 0 that it is returned
-- as, where there is no thread.
abbrev pub state_number : Option ThreadState → ℕ
state_number none = u32_mod - 1
state_number (some thread_ready) = 0
state_number (some thread_running) = 1
state_number (some thread_blocked) = 2
state_number (some thread_terminated) = 3

-- A number as a priority; the scheduler treats one that is no value as it treats `high`.
abbrev pub priority_number : ℕ → Priority
priority_number p =
    if p == 0
    then low
    else if p == 1
    then background
    else if p == 2
    then normal
    else if p == 4
    then ultra
    else if p == 5
    then immediates
    else high

abbrev pub stuck_or : Option (ℤ × Sched) → Kernel → Outcome
stuck_or none k = none
stuck_or (some (rc, s)) k = returns (word rc) (with_sched k s)
