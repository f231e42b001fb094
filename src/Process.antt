-- ===== src/Process.antt =====
-- Processes: os/kernel/elf/process.c over the loader and the threads, and find_process_by_pid of
-- os/kernel/syscalls/handles.c. What kmalloc returns for a process and its thread are
-- arguments, 0 being the null pointer; a slot of the table holds a process's address or 0. The stacks of
-- ring 3 are taken from the user heap; memory that is given back is listed and then given to it.
pub mod Kill
pub mod Pids
pub mod Ends
pub mod Left
mod Tests
use vsnx_os.Base.{
  ℕ, zero, suc, ◌+◌, Bool, true, false, not, ◌&&◌, ◌||◌, ◌==◌, if◌then◌else◌, Option, none, some,
  leb, List, [], ◌∷◌, ◌++◌, take, ℤ, negsuc, add32, sub32,
}
use vsnx_os.Mmap.{MemoryMap}
use vsnx_os.Scheduler.{Sched, Priority, max_threads}
use vsnx_os.Threads.{
  Freed, kernel_memory, user_memory, stacks_of, set_slot, fill_slot, thread_create, thread_execute,
}
use vsnx_os.Kmalloc.{kfree}
use vsnx_os.Umalloc.{Heap, umalloc, ufree}
use vsnx_os.Elf.{Files, Loader, elf_parse}

-- `process_t`; the name is its characters in front of the 0, and `next` is not used.
pub record Process : Type 0 where
  pub pid : ℕ
  pub entry_point : ℕ
  pub main_thread : ℕ
  pub ring3 : Bool
  pub name : List ℕ

-- The globals of process.c and the processes, over the scheduler's state.
pub record Procs : Type 0 where
  pub process_table : ℕ → ℕ
  pub process : ℕ → Process
  pub next_pid : ℕ
  pub sched : Sched

abbrev pub max_processes : ℕ
max_processes = 256

abbrev pub set_process : (ℕ → Process) → ℕ → Process → ℕ → Process
set_process process p x q = if q == p then x else process q

-- The memory that `spawn_process` is given: the process's, its thread's and the thread's stacks.
pub record NewMemory : Type 0 where
  pub proc : ℕ
  pub thread : ℕ
  pub stack_base : ℕ
  pub kernel_stack : ℕ

-- Memory that is given back, in this order, to the heap and to the page allocator below it.
unfoldable pub give_back : MemoryMap → List Freed → Heap → Heap
give_back mmap [] h = h
give_back mmap (kernel_memory p ∷ fs) h =
    give_back mmap fs (record h { machine = record h.machine { pmm = kfree h.machine.pmm p } })
give_back mmap (user_memory p ∷ fs) h = give_back mmap fs (ufree mmap h p)

-- The stack of a new thread of ring 3, which `thread_create` takes from the heap where there is room
-- for the thread; `given` in ring 0.
unfoldable pub new_stack :
    MemoryMap → (ring3 : Bool) (thread given : ℕ) → Sched → Heap → Option (ℕ × Heap)
new_stack mmap ring3 thread given s h =
    if not (leb max_threads s.thread_count) && (not (thread == 0) && ring3)
    then umalloc mmap h 16384
    else some (given, h)

-- `spawn_process` behind the loader, which has found the entry point.
unfoldable pub start_process :
    (entry_point : ℕ)
    → NewMemory
    → (filename : List ℕ) (ring3 : Bool) → Priority
    → Procs
    → ℕ × Procs × List Freed
start_process entry_point m filename ring3 priority s =
    let (thread, sched, freed) =
      thread_create m.thread m.stack_base m.kernel_stack entry_point 0 ring3 priority s.next_pid
        s.sched in
    let started = record s {
      process = set_process s.process m.proc (record {
        pid = s.next_pid;
        entry_point = entry_point;
        main_thread = thread;
        ring3 = ring3;
        name = take 63 filename;
      });
      next_pid = add32 s.next_pid 1;
      sched = sched;
    } in
    if entry_point == 0
    then (0, s, [])
    else if m.proc == 0
    then (0, s, [])
    else if thread == 0
    then (0, started, freed ++ (kernel_memory m.proc ∷ []))
    else (
      m.proc,
      record started { process_table = fill_slot max_processes 0 s.process_table m.proc },
      freed,
    )

-- No stack is asked for where `spawn_process` returns in front of `thread_create`.
abbrev pub stack_for :
    MemoryMap → (early ring3 : Bool) → NewMemory → Procs → Heap → Option (ℕ × Heap)
stack_for mmap early ring3 m s h =
    if early then some (m.stack_base, h) else new_stack mmap ring3 m.thread m.stack_base s.sched h

-- The process with this stack; what is given back goes to the heap.
abbrev pub started_in :
    MemoryMap
    → (entry_point stack_base : ℕ) → NewMemory
    → (filename : List ℕ) (ring3 : Bool) → Priority
    → Procs
    → Loader
    → Heap
    → (ℕ × Procs) × Loader
started_in mmap entry_point stack_base m filename ring3 priority s l h =
    let (proc, s', freed) =
      start_process entry_point (record m { stack_base = stack_base }) filename ring3 priority s in
    ((proc, s'), record l { heap = give_back mmap freed h })

unfoldable pub spawn_process :
    MemoryMap
    → Files
    → (hdr phdr : ℕ → ℕ) → NewMemory
    → (filename : List ℕ) (ring3 : Bool) → Priority
    → Loader
    → Procs
    → Option ((ℕ × Procs) × Loader)
spawn_process mmap files hdr phdr m filename ring3 priority l s =
    elim (elf_parse mmap files filename hdr phdr l) [
      | none ↦ none
      | some (entry_point, l') ↦
          elim (stack_for mmap (entry_point == 0 || m.proc == 0) ring3 m s l'.heap) [
            | none ↦ none
            | some (stack_base, h) ↦
                some (started_in mmap entry_point stack_base m filename ring3 priority s l' h)
          ]
    ]

unfoldable pub execute_process : (links : ℕ) → (proc : ℕ) → Procs → Option (ℤ × Procs)
execute_process links proc s =
    if proc == 0 || (s.process proc).main_thread == 0
    then some (negsuc 0, s)
    else elim (thread_execute links (s.process proc).main_thread s.sched) [
      | none ↦ none
      | some (rc, sched) ↦ some (rc, record s { sched = sched })
    ]

-- Does the slot have a thread of the process?
abbrev pub owned : (pid i : ℕ) → Sched → Bool
owned pid i s = not (s.thread_table i == 0) && (s.thread (s.thread_table i)).owner_pid == pid

-- One slot with a thread of the process: its memory is given back.
abbrev pub kill_slot : (i : ℕ) → Sched × List Freed → Sched × List Freed
kill_slot i (s, freed) = (
  record s { thread_table = set_slot s.thread_table i 0; thread_count = sub32 s.thread_count 1 },
  freed ++ (stacks_of (s.thread (s.thread_table i)) ++ (kernel_memory (s.thread_table i) ∷ [])),
)

-- The loop over the threads, `left` slots from the i-th on.
unfoldable pub kill_threads : (pid left i : ℕ) → Sched × List Freed → Sched × List Freed
kill_threads pid zero i s = s
kill_threads pid (suc left) i s =
    kill_threads pid left (i + 1) (if owned pid i s.0 then kill_slot i s else s)

abbrev pub has_pid : (pid i : ℕ) → Procs → Bool
has_pid pid i s = not (s.process_table i == 0) && (s.process (s.process_table i)).pid == pid

-- The loop over the processes: the first slot with the process is cleared, in front of the `kfree`,
-- which gets the null pointer of the cleared slot and gives nothing back.
unfoldable pub clear_slot : (pid left i : ℕ) → Procs → Procs
clear_slot pid zero i s = s
clear_slot pid (suc left) i s = elim (has_pid pid i s) [
  | true ↦ record s { process_table = set_slot s.process_table i 0 }
  | false ↦ clear_slot pid left (i + 1) s
]

-- The result is 0.
unfoldable pub kill_process : (pid : ℕ) → Procs → Procs × List Freed
kill_process pid s =
    let (sched, freed) = kill_threads pid max_threads 0 (s.sched, []) in
    (clear_slot pid max_processes 0 (record s { sched = sched }), freed)

-- The loop of `find_process_by_pid`; 0 where no process has the pid.
unfoldable pub find_from : (pid left i : ℕ) → Procs → ℕ
find_from pid zero i s = 0
find_from pid (suc left) i s =
    let rest = find_from pid left (i + 1) s in if has_pid pid i s then s.process_table i else rest

unfoldable pub find_process_by_pid : (pid : ℕ) → Procs → ℕ
find_process_by_pid pid s = find_from pid max_processes 0 s
