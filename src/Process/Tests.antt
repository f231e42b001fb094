-- ===== src/Process/Tests.antt =====
-- Processes over a small table of threads, and the theorems of os/kernel/elf/process.c at them.
use vsnx_os.Base.{ℕ, ◌<◌, ◌≡◌, ◌≢◌, refl, false, ◌==◌, if◌then◌else◌, [], ◌∷◌, length, arith}
use vsnx_os.Queue.{thread_ready}
use vsnx_os.Scheduler.{Frame, Sched, normal, max_threads}
use vsnx_os.Process.{
  Procs, NewMemory, max_processes, start_process, kill_process, kill_threads, clear_slot,
  find_process_by_pid, find_from,
}
use vsnx_os.Process.Kill.{Killed, Returned}
use vsnx_os.Process.Pids.{IsTable, start_process-IsTable}
use vsnx_os.Process.Ends.{Gone, kill_process-Gone}

abbrev no_frame : Frame
no_frame = record {
  general = λ i. 0;
  int_no = 0;
  err_code = 0;
  rip = 0;
  cs = 8;
  rflags = 514;
  rsp = 0;
  ss = 16;
}

-- The kernel's thread, and one thread of each of the processes 1 and 2; the first runs, and the other
-- is queued.
abbrev threads : Sched
threads = record {
  queue = record { ready_queue = 32; next = λ t. 0; state = λ t. thread_ready };
  thread = λ t. record {
    tid = t;
    owner_pid = if t == 8 then 0 else if t == 16 then 1 else 2;
    ring3 = false;
    priority = normal;
    context = no_frame;
    stack_base = 65536;
    stack_size = 16384;
    kernel_stack = 0;
    cooldown = 0;
  };
  thread_table = λ i. if i == 0 then 8 else if i == 1 then 16 else if i == 2 then 32 else 0;
  current_thread = 16;
  next_tid = 33;
  thread_count = 3;
  scheduler_counter = 0;
  rsp0 = 0;
}

abbrev procs : Procs
procs = record {
  process_table = λ i. if i == 0 then 100 else if i == 1 then 200 else 0;
  process = λ p. record {
    pid = if p == 100 then 1 else 2;
    entry_point = 4096;
    main_thread = if p == 100 then 16 else 32;
    ring3 = false;
    name = 65 ∷ [];
  };
  next_pid = 3;
  sched = threads;
}

procs-IsTable : IsTable procs
procs-IsTable = record {
  known = λ i hi there. ground (arith, there);
  unique = λ i j hi hj ti tj e. ground (arith, ti, tj, e);
}

-- The queued thread of a process that is killed stays queued, and its memory is given back.
still_queued :
    let (s, freed) = kill_process 2 procs in
    (s.sched.queue.ready_queue ≡ 32) × (s.sched.thread_table 2 ≡ 0) × (length freed ≡ 2)
unfolding kill_process kill_threads clear_slot
still_queued = (refl, refl, refl)

found_2 : find_process_by_pid 2 procs ≡ 200
unfolding find_process_by_pid find_from
found_2 = refl

kill_process-Gone_example :
    let (s', freed) = kill_process 2 procs in
    Gone 2 s'
    × IsTable s'
    × Killed 2 0 max_threads procs.sched s'.sched
    × Returned 2 max_threads 0 procs.sched [] (s'.sched, freed)
kill_process-Gone_example = kill_process-Gone 2 procs procs-IsTable

abbrev memory : NewMemory
memory = record { proc = 300; thread = 48; stack_base = 81920; kernel_stack = 0 }

procs-fresh : (i : ℕ) → i < max_processes → procs.process_table i ≢ 300
procs-fresh i hi e = ground (arith, e)

start_process-IsTable_example : IsTable (start_process 4096 memory (65 ∷ []) false normal procs).1
start_process-IsTable_example =
    start_process-IsTable 4096 memory (65 ∷ []) false normal procs procs-IsTable (omega arith)
      procs-fresh
