-- ===== src/Process/Left.antt =====
-- What spawn_process and execute_process of os/kernel/elf/process.c leave of the heap and of the
-- table of processes.
use vsnx_os.Base.{
  ℕ, ◌+◌, ◌^◌, ◌<◌, ◌≢◌, inl, inr, Bool, Bool-cases, ◌||◌, ◌&&◌, not, leb, ◌==◌, Option, none, some,
  List, [], ◌∷◌, ℤ, true, false, if◌then◌else◌, arith,
}
use vsnx_os.Mmap.{MemoryMap}
use vsnx_os.Scheduler.{Sched, Priority, max_threads}
use vsnx_os.Threads.{Freed, kernel_memory, user_memory, thread_execute}
use vsnx_os.Kmalloc.{kfree}
use vsnx_os.Umalloc.{Heap, umalloc, ufree}
use vsnx_os.Umalloc.Reached.{IsLeft, ufree-IsHeap}
use vsnx_os.Umalloc.Calls.{umalloc-IsLeft}
use vsnx_os.Umalloc.Blocks.{IsHeap}
use vsnx_os.Elf.{Files, Hdr, Loader, elf_parse}
use vsnx_os.Elf.Parsed.{SmallSegments, Parsed, no_file, closed, elf_parse-Parsed}
use vsnx_os.Process.{
  Procs, NewMemory, give_back, new_stack, stack_for, started_in, max_processes, spawn_process,
  execute_process,
}
use vsnx_os.Process.Pids.{IsTable, start_process-IsTable}

abbrev HeapLeft : Option (ℕ × Loader) → Type 0
HeapLeft none = Unit
HeapLeft (some (e, l)) = IsHeap l.heap

Parsed-HeapLeft :
    {files : Files} {phdr : ℕ → ℕ} {filename : List ℕ} {header : ℕ → Hdr} {l : Loader}
    {f : Option ℕ} {o : Option (ℕ × Loader)}
    → IsHeap l.heap
    → Parsed files phdr filename header l f o
    → HeapLeft o
Parsed-HeapLeft x no_file = x
Parsed-HeapLeft x (closed y same e) = y

-- The table does not depend on the threads.
pub other_sched : {s : Procs} (sched : Sched) → IsTable s → IsTable (record s { sched = sched })
other_sched sched t = record { known = t.known; unique = t.unique }

abbrev pub TableLeft : Option (ℤ × Procs) → Type 0
TableLeft none = Unit
TableLeft (some (rc, s)) = IsTable s

pub execute_process-TableLeft :
    (links proc : ℕ) (s : Procs) → IsTable s → TableLeft (execute_process links proc s)
unfolding execute_process
execute_process-TableLeft links proc s t =
    elim (Bool-cases (proc == 0 || (s.process proc).main_thread == 0)) [
      | inl null ↦ rw (null, execute_process) t
      | inr there ↦
          rw (there, execute_process)
            (by_execute (thread_execute links (s.process proc).main_thread s.sched))
    ]
  where
    by_execute :
        (o : Option (ℤ × Sched))
        → TableLeft
            (elim o [ none ↦ none | some (rc, sched) ↦ some (rc, record s { sched = sched }) ])
    by_execute none = tt
    by_execute (some (rc, sched)) = other_sched sched t

pub give_back-IsHeap :
    (mmap : MemoryMap) (freed : List Freed) (h : Heap) → IsHeap h → IsHeap (give_back mmap freed h)
unfolding give_back
give_back-IsHeap mmap [] h x = x
give_back-IsHeap mmap (kernel_memory p ∷ fs) h x =
    give_back-IsHeap mmap fs
      (record h { machine = record h.machine { pmm = kfree h.machine.pmm p } })
      (record { laid = x.laid; below = x.below })
give_back-IsHeap mmap (user_memory p ∷ fs) h x =
    give_back-IsHeap mmap fs (ufree mmap h p) (ufree-IsHeap mmap h p x)

if-IsLeft : (b : Bool) (x y : Option (ℕ × Heap)) → IsLeft x → IsLeft y → IsLeft (if b then x else y)
if-IsLeft true x y left right = left
if-IsLeft false x y left right = right

pub new_stack-IsLeft :
    (mmap : MemoryMap) (ring3 : Bool) (thread given : ℕ) (s : Sched) (h : Heap)
    → IsHeap h
    → IsLeft (new_stack mmap ring3 thread given s h)
unfolding new_stack
new_stack-IsLeft mmap ring3 thread given s h x =
    if-IsLeft (not (leb max_threads s.thread_count) && (not (thread == 0) && ring3))
      (umalloc mmap h 16384) (some (given, h)) (umalloc-IsLeft mmap h 16384 x (omega arith)) x

stack_for-IsLeft :
    (mmap : MemoryMap) (early ring3 : Bool) (m : NewMemory) (s : Procs) (h : Heap)
    → IsHeap h
    → IsLeft (stack_for mmap early ring3 m s h)
stack_for-IsLeft mmap early ring3 m s h x =
    if-IsLeft early (some (m.stack_base, h)) (new_stack mmap ring3 m.thread m.stack_base s.sched h)
      x (new_stack-IsLeft mmap ring3 m.thread m.stack_base s.sched h x)

abbrev pub SpawnLeft : Option ((ℕ × Procs) × Loader) → Type 0
SpawnLeft none = Unit
SpawnLeft (some ((proc, s), l)) = IsTable s × IsHeap l.heap

pub spawn_process-SpawnLeft :
    (mmap : MemoryMap) (files : Files) (hdr phdr : ℕ → ℕ) (m : NewMemory) (filename : List ℕ)
    → (ring3 : Bool) (priority : Priority) (l : Loader) (s : Procs) → SmallSegments files phdr
    → IsHeap l.heap
    → IsTable s
    → s.next_pid + 1 < 2 ^ 32
    → ((i : ℕ) → i < max_processes → s.process_table i ≢ m.proc)
    → SpawnLeft (spawn_process mmap files hdr phdr m filename ring3 priority l s)
unfolding spawn_process
spawn_process-SpawnLeft mmap files hdr phdr m filename ring3 priority l s small x t room fresh =
    by_parse (elf_parse mmap files filename hdr phdr l)
      (Parsed-HeapLeft x (elf_parse-Parsed mmap files filename hdr phdr l small x))
  where
    by_parse :
        (o : Option (ℕ × Loader))
        → HeapLeft o
        → SpawnLeft (elim o [
          | none ↦ none
          | some (entry_point, l') ↦
              elim (stack_for mmap (entry_point == 0 || m.proc == 0) ring3 m s l'.heap) [
                | none ↦ none
                | some (stack_base, h) ↦
                    some (started_in mmap entry_point stack_base m filename ring3 priority s l' h)
              ]
        ])
    by_parse none y = tt
    by_parse (some (entry_point, l')) y =
        by_stack entry_point l' (stack_for mmap (entry_point == 0 || m.proc == 0) ring3 m s l'.heap)
          (stack_for-IsLeft mmap (entry_point == 0 || m.proc == 0) ring3 m s l'.heap y)
      where
        by_stack :
            (entry_point : ℕ) (l' : Loader) (o : Option (ℕ × Heap))
            → IsLeft o
            → SpawnLeft (elim o [
              | none ↦ none
              | some (stack_base, h) ↦
                  some (started_in mmap entry_point stack_base m filename ring3 priority s l' h)
            ])
        by_stack entry_point l' none y = tt
        by_stack entry_point l' (some (stack_base, h)) y = (
          start_process-IsTable entry_point (record m { stack_base = stack_base }) filename ring3
              priority s t room fresh,
          give_back-IsHeap mmap _ h y,
        )
