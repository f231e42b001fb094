-- ===== src/Syscalls/Keeps.antt =====
-- Every system call of os/kernel/syscalls/syscall.c leaves the user heap in order and the pids of the
-- processes different.
use vsnx_os.Base.{
  ℕ, ◌+◌, ◌-◌, ◌^◌, ◌≤◌, ◌<◌, ◌≢◌, Bool, true, false, ◌==◌, if◌then◌else◌, Option, none, some, List,
  ℤ, negsuc, mul64,
}
use vsnx_os.Scheduler.{Sched, Priority}
use vsnx_os.Threads.{
  Freed, thread_execute, thread_exit, thread_terminate, thread_block, thread_get_by_tid,
}
use vsnx_os.Umalloc.{Heap, umalloc, urealloc, ucalloc}
use vsnx_os.Umalloc.Blocks.{IsHeap}
use vsnx_os.Umalloc.Reached.{IsLeft, ufree-IsHeap}
use vsnx_os.Umalloc.Calls.{LeftWith, umalloc-IsLeft, ucalloc-LeftWith, urealloc-LeftWith}
use vsnx_os.Elf.{Loader}
use vsnx_os.Elf.Parsed.{SmallSegments}
use vsnx_os.Process.{
  new_stack, Procs, max_processes, spawn_process, execute_process, find_process_by_pid,
}
use vsnx_os.Process.Pids.{IsTable}
use vsnx_os.Process.Ends.{kill_process-Gone}
use vsnx_os.Process.Left.{
  give_back-IsHeap, new_stack-IsLeft, other_sched, TableLeft, execute_process-TableLeft, SpawnLeft,
  spawn_process-SpawnLeft,
}
use vsnx_os.Syscalls.{
  returned_to, FatCall, World, Kernel, word, int_arg, Outcome, returns, with_sched, with_heap,
  with_heap_memory, priority_number, stuck_or,
}
use vsnx_os.Syscalls.FilesMemory.{
  call_fat, malloc_handler, free_handler, realloc_handler, calloc_handler,
}
use vsnx_os.Syscalls.ThreadCalls.{
  created_thread, word_or_none, thread_create_handler, thread_execute_handler, thread_exit_handler,
  thread_terminate_handler, thread_block_handler,
}
use vsnx_os.Syscalls.ProcessCalls.{
  spawn_process_handler, execute_process_handler, kill_process_handler,
}

pub record IsKernel (k : Kernel) : Type 0 where
  pub heap : IsHeap k.loader.heap
  pub table : IsTable k.procs

-- A call that comes back leaves such a state.
pub data Keeps : Outcome → Type 0 where
  stuck : Keeps none
  back : {r : Option ℕ} {k : Kernel} → IsKernel k → Keeps (some (r, k))

if-Keeps : (b : Bool) {x y : Outcome} → Keeps x → Keeps y → Keeps (if b then x else y)
if-Keeps true x y = x
if-Keeps false x y = y

elim-Keeps :
    {A : Type 0} (o : Option A) (f : A → Outcome)
    → ((a : A) → Keeps (f a))
    → Keeps (elim o [ none ↦ none | some a ↦ f a ])
elim-Keeps none f h = stuck
elim-Keeps (some a) f h = h a

module _ (w : World) (k : Kernel) (v : IsKernel k) where
  pub sched-Keeps :
      (r : Option ℕ) (s : Sched) (freed : List Freed)
      → Keeps (some (r, returned_to w.mmap freed (with_sched k s)))
  sched-Keeps r s freed = back (record {
    heap = give_back-IsHeap w.mmap freed k.loader.heap v.heap;
    table = other_sched s v.table;
  })

  pub stuck_or-Keeps : (o : Option (ℤ × Sched)) → Keeps (stuck_or o k)
  stuck_or-Keeps none = stuck
  stuck_or-Keeps (some (rc, s)) = back (record { heap = v.heap; table = other_sched s v.table })

  pub fat-Keeps : (c : FatCall) → Keeps (call_fat w c k)
  unfolding call_fat
  fat-Keeps c = back (record { heap = v.heap; table = v.table })

  pub malloc-Keeps : (size : ℕ) → size ≤ 2 ^ 63 - 2 ^ 12 → Keeps (malloc_handler w size k)
  unfolding malloc_handler
  malloc-Keeps size small =
      by_block (umalloc w.mmap k.loader.heap size)
        (umalloc-IsLeft w.mmap k.loader.heap size v.heap small)
    where
      by_block :
          (o : Option (ℕ × Heap))
          → IsLeft o
          → Keeps (elim o [ none ↦ none | some (ptr, h) ↦ returns ptr (with_heap k h) ])
      by_block none x = stuck
      by_block (some (ptr, h)) x = back (record { heap = x; table = v.table })

  pub left-Keeps :
      (o : Option (ℕ × Heap × (ℕ → ℕ)))
      → LeftWith o
      → Keeps (elim o [ none ↦ none | some (ptr, h, mem) ↦ returns ptr (with_heap_memory k h mem) ])
  left-Keeps none x = stuck
  left-Keeps (some (ptr, h, mem)) x = back (record { heap = x; table = v.table })

  pub realloc-Keeps :
      (ptr new_size : ℕ) → new_size ≤ 2 ^ 63 - 2 ^ 12 → Keeps (realloc_handler w ptr new_size k)
  unfolding realloc_handler
  realloc-Keeps ptr new_size small =
      left-Keeps (urealloc w.mmap k.loader.heap k.loader.memory ptr new_size)
        (urealloc-LeftWith w.mmap k.loader.heap k.loader.memory ptr new_size v.heap small)

  pub calloc-Keeps :
      (num size : ℕ) → mul64 num size ≤ 2 ^ 63 - 2 ^ 12 → Keeps (calloc_handler w num size k)
  unfolding calloc_handler
  calloc-Keeps num size small =
      left-Keeps (ucalloc w.mmap k.loader.heap k.loader.memory num size)
        (ucalloc-LeftWith w.mmap k.loader.heap k.loader.memory num size v.heap small)

  pub thread_create-Keeps : (a b c d : ℕ) → Keeps (thread_create_handler w a b c d k)
  unfolding thread_create_handler
  thread_create-Keeps a b c d = if-Keeps (a == 0) (back v) (
      by_stack (new_stack w.mmap true w.given.thread w.given.stack_base k.procs.sched k.loader.heap)
        (new_stack-IsLeft w.mmap true w.given.thread w.given.stack_base k.procs.sched k.loader.heap
          v.heap))
    where
      by_stack :
          (o : Option (ℕ × Heap))
          → IsLeft o
          → Keeps (elim o [
            | none ↦ none
            | some (stack_base, h) ↦
                created_thread w a b
                  (priority_number (int_arg c))
                  (int_arg d)
                  stack_base
                  (with_heap k h)
          ])
      by_stack none x = stuck
      by_stack (some (stack_base, h)) x =
          back (record { heap = give_back-IsHeap w.mmap _ h x; table = other_sched _ v.table })

  pub thread_execute-Keeps : (tid : ℕ) → Keeps (thread_execute_handler w tid k)
  unfolding thread_execute_handler
  thread_execute-Keeps tid =
      let t = thread_get_by_tid (int_arg tid) k.procs.sched in
      if-Keeps (t == 0) (back v) (stuck_or-Keeps (thread_execute w.links t k.procs.sched))

  pub thread_exit-Keeps : Keeps (thread_exit_handler w k)
  unfolding thread_exit_handler
  thread_exit-Keeps =
      elim-Keeps (thread_exit w.switch w.links k.procs.sched)
        (λ (a : Sched × List Freed). some (none, returned_to w.mmap a.1 (with_sched k a.0)))
        (λ a. sched-Keeps none a.0 a.1)

  pub thread_terminate-Keeps : (tid : ℕ) → Keeps (thread_terminate_handler w tid k)
  unfolding thread_terminate_handler
  thread_terminate-Keeps tid =
      elim-Keeps (thread_terminate w.switch w.links (int_arg tid) k.procs.sched)
        (λ (a : Option ℤ × Sched × List Freed).
          some (word_or_none w a.0, returned_to w.mmap a.2 (with_sched k a.1)))
        (λ a. sched-Keeps (word_or_none w a.0) a.1 a.2)

  pub thread_block-Keeps : Keeps (thread_block_handler w k)
  unfolding thread_block_handler
  thread_block-Keeps =
      elim-Keeps (thread_block w.switch w.links k.procs.sched)
        (λ (a : Option ℤ × Sched). some (none, with_sched k a.1))
        (λ a. back (record { heap = v.heap; table = other_sched a.1 v.table }))

  pub execute_process-Keeps : (pid : ℕ) → Keeps (execute_process_handler w pid k)
  unfolding execute_process_handler
  execute_process-Keeps pid =
      let proc = find_process_by_pid (int_arg pid) k.procs in
      if-Keeps (proc == 0) (back v) (
        by_table (execute_process w.links proc k.procs)
          (execute_process-TableLeft w.links proc k.procs v.table))
    where
      by_table :
          (o : Option (ℤ × Procs))
          → TableLeft o
          → Keeps (elim o [
            | none ↦ none
            | some (rc, procs) ↦ returns (word rc) (record k { procs = procs })
          ])
      by_table none t = stuck
      by_table (some (rc, procs)) t = back (record { heap = v.heap; table = t })

  pub kill_process-Keeps : (pid : ℕ) → Keeps (kill_process_handler w pid k)
  unfolding kill_process_handler
  kill_process-Keeps pid = back (record {
    heap = give_back-IsHeap w.mmap _ k.loader.heap v.heap;
    table = (kill_process-Gone (int_arg pid) k.procs v.table).1;
  })

  pub spawn_process-Keeps :
      (filename_ptr priority : ℕ)
      → SmallSegments w.files w.phdr
      → k.procs.next_pid + 1 < 2 ^ 32
      → ((i : ℕ) → i < max_processes → k.procs.process_table i ≢ w.given.proc)
      → Keeps (spawn_process_handler w filename_ptr priority k)
  unfolding spawn_process_handler
  spawn_process-Keeps filename_ptr priority small room fresh =
      if-Keeps (filename_ptr == 0) (back v) (
        by_spawn
          (spawn_process w.mmap w.files w.hdr w.phdr w.given name true by_number k.loader k.procs)
          (spawn_process-SpawnLeft w.mmap w.files w.hdr w.phdr w.given name true by_number k.loader
            k.procs small v.heap v.table room fresh))
    where
      name : List ℕ
      name = w.text k.loader.memory filename_ptr

      by_number : Priority
      by_number = priority_number (int_arg priority)

      by_spawn :
          (o : Option ((ℕ × Procs) × Loader))
          → SpawnLeft o
          → Keeps (elim o [
            | none ↦ none
            | some ((proc, procs), l) ↦
                returns
                  (if proc == 0 then word (negsuc 1) else (procs.process proc).pid)
                  (record k { loader = l; procs = procs })
          ])
      by_spawn none x = stuck
      by_spawn (some ((proc, procs), l)) (t, x) = back (record { heap = x; table = t })

  pub free-Keeps : (ptr : ℕ) → Keeps (free_handler w ptr k)
  unfolding free_handler
  free-Keeps ptr =
      back (record { heap = ufree-IsHeap w.mmap k.loader.heap ptr v.heap; table = v.table })
