-- ===== src/Syscalls/ProcessCalls.antt =====
-- The handlers of os/kernel/syscalls/handles.c for processes, pipes and the clock.
use vsnx_os.Base.{ℕ, true, ◌==◌, if◌then◌else◌, none, some, List, negsuc}
use vsnx_os.Syscalls.{World, Kernel, word, int_arg, Outcome, returns, returned_to, priority_number}
use vsnx_os.Process.{spawn_process, execute_process, kill_process, find_process_by_pid}
use vsnx_os.Registry.{makepipe, getpipe}
use vsnx_os.Clock.{uptime_seconds, uptime_minutes, time_after, time_before}

module _ (w : World) where
  abbrev string : Kernel → ℕ → List ℕ
  string k ptr = w.text k.loader.memory ptr

  unfoldable pub spawn_process_handler : (filename_ptr priority : ℕ) → Kernel → Outcome
  spawn_process_handler filename_ptr priority k =
      let spawned =
        spawn_process w.mmap w.files w.hdr w.phdr w.given (string k filename_ptr) true
          (priority_number (int_arg priority)) k.loader k.procs in
      if filename_ptr == 0 then returns (word (negsuc 0)) k else elim spawned [
        | none ↦ none
        | some ((proc, procs), l) ↦
            returns (if proc == 0 then word (negsuc 1) else (procs.process proc).pid)
              (record k { loader = l; procs = procs })
      ]

  unfoldable pub execute_process_handler : (pid_arg : ℕ) → Kernel → Outcome
  execute_process_handler pid_arg k =
      let proc = find_process_by_pid (int_arg pid_arg) k.procs in
      if proc == 0
      then returns (word (negsuc 0)) k
      else elim (execute_process w.links proc k.procs) [
        | none ↦ none
        | some (rc, procs) ↦ returns (word rc) (record k { procs = procs })
      ]

  unfoldable pub kill_process_handler : (pid_arg : ℕ) → Kernel → Outcome
  kill_process_handler pid_arg k =
      let (procs, freed) = kill_process (int_arg pid_arg) k.procs in
      returns 0 (returned_to w.mmap freed (record k { procs = procs }))

  unfoldable pub makepipe_handler : (name_ptr func_ptr : ℕ) → Kernel → Outcome
  makepipe_handler name_ptr func_ptr k =
      returns 0 (record k { pipes = makepipe w.pipe_memory k.pipes (string k name_ptr) func_ptr })

  unfoldable pub getpipe_handler : (name_ptr : ℕ) → Kernel → Outcome
  getpipe_handler name_ptr k =
      returns (elim (getpipe k.pipes (string k name_ptr)) [ none ↦ 0 | some func ↦ func ]) k

  unfoldable pub time_now_ms_handler : Kernel → Outcome
  time_now_ms_handler k = returns w.now k

  unfoldable pub uptime_seconds_handler : Kernel → Outcome
  uptime_seconds_handler k = returns (uptime_seconds w.now) k

  unfoldable pub uptime_minutes_handler : Kernel → Outcome
  uptime_minutes_handler k = returns (uptime_minutes w.now) k

  unfoldable pub time_after_handler : (a b : ℕ) → Kernel → Outcome
  time_after_handler a b k = returns (if time_after a b then 1 else 0) k

  unfoldable pub time_before_handler : (a b : ℕ) → Kernel → Outcome
  time_before_handler a b k = returns (if time_before a b then 1 else 0) k
