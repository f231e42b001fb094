-- ===== src/Syscalls/ThreadCalls.antt =====
-- The handlers of os/kernel/syscalls/handles.c for threads.
use vsnx_os.Base.{ℕ, true, ◌==◌, if◌then◌else◌, Option, none, some, ℤ, negsuc}
use vsnx_os.Scheduler.{Priority}
use vsnx_os.Process.{new_stack}
use vsnx_os.Syscalls.{
  World, Kernel, word, int_arg, Outcome, returns, with_sched, with_heap, returned_to, state_number,
  priority_number, stuck_or,
}
use vsnx_os.Threads.{
  thread_create, thread_execute, thread_exit, thread_terminate, thread_block, thread_unblock,
  getpid, gettid, thread_get_by_tid, thread_exists, thread_get_state,
}

module _ (w : World) where
  unfoldable pub getpid_handler : Kernel → Outcome
  getpid_handler k = returns (getpid k.procs.sched) k

  unfoldable pub gettid_handler : Kernel → Outcome
  gettid_handler k = returns (gettid k.procs.sched) k

  unfoldable pub get_by_tid_handler : (tid_arg : ℕ) → Kernel → Outcome
  get_by_tid_handler tid_arg k = returns (thread_get_by_tid (int_arg tid_arg) k.procs.sched) k

  unfoldable pub thread_exists_handler : (tid_arg : ℕ) → Kernel → Outcome
  thread_exists_handler tid_arg k =
      returns (if thread_exists (int_arg tid_arg) k.procs.sched then 1 else 0) k

  unfoldable pub get_state_handler : (tid_arg : ℕ) → Kernel → Outcome
  get_state_handler tid_arg k =
      returns (state_number (thread_get_state (int_arg tid_arg) k.procs.sched)) k

  -- The thread in this stack, which was taken from the heap.
  abbrev pub created_thread :
      (func_ptr arg_ptr : ℕ) → Priority → (owner_pid stack_base : ℕ) → Kernel → Outcome
  created_thread func_ptr arg_ptr priority owner_pid stack_base k =
      let (t, s, freed) =
        thread_create w.given.thread stack_base w.given.kernel_stack func_ptr arg_ptr true priority
          owner_pid k.procs.sched in
      returns (if t == 0 then word (negsuc 1) else (s.thread t).tid)
        (returned_to w.mmap freed (with_sched k s))

  unfoldable pub thread_create_handler :
      (func_ptr arg_ptr priority_arg owner_pid_arg : ℕ) → Kernel → Outcome
  thread_create_handler func_ptr arg_ptr priority_arg owner_pid_arg k =
      if func_ptr == 0
      then returns (word (negsuc 0)) k
      else elim (new_stack w.mmap true w.given.thread w.given.stack_base k.procs.sched
          k.loader.heap) [
            | none ↦ none
            | some (stack_base, h) ↦
                created_thread func_ptr arg_ptr (priority_number (int_arg priority_arg))
                  (int_arg owner_pid_arg) stack_base (with_heap k h)
          ]

  unfoldable pub thread_execute_handler : (tid_arg : ℕ) → Kernel → Outcome
  thread_execute_handler tid_arg k =
      let t = thread_get_by_tid (int_arg tid_arg) k.procs.sched in
      if t == 0
      then returns (word (negsuc 0)) k
      else stuck_or (thread_execute w.links t k.procs.sched) k

  -- Declared not to return, as `thread_exit` is: where it comes back, there is no result.
  unfoldable pub thread_exit_handler : Kernel → Outcome
  thread_exit_handler k = elim (thread_exit w.switch w.links k.procs.sched) [
    | none ↦ none
    | some (s, freed) ↦ some (none, returned_to w.mmap freed (with_sched k s))
  ]

  abbrev pub word_or_none : Option ℤ → Option ℕ
  word_or_none none = none
  word_or_none (some rc) = some (word rc)

  unfoldable pub thread_terminate_handler : (tid_arg : ℕ) → Kernel → Outcome
  thread_terminate_handler tid_arg k =
      elim (thread_terminate w.switch w.links (int_arg tid_arg) k.procs.sched) [
        | none ↦ none
        | some (rc, s, freed) ↦ some (word_or_none rc, returned_to w.mmap freed (with_sched k s))
      ]

  unfoldable pub thread_block_handler : Kernel → Outcome
  thread_block_handler k = elim (thread_block w.switch w.links k.procs.sched) [
    | none ↦ none
    | some (rc, s) ↦ some (none, with_sched k s)
  ]

  unfoldable pub thread_unblock_handler : (tid : ℕ) → Kernel → Outcome
  thread_unblock_handler tid k = stuck_or (thread_unblock w.links (int_arg tid) k.procs.sched) k
