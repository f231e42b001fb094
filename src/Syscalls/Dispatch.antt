-- ===== src/Syscalls/Dispatch.antt =====
-- The table of init_syscalls and the dispatch of os/kernel/syscalls/syscall.c.
use vsnx_os.Base.{
  ◌≡◌, ◌⊎◌, ◌≤◌, ◌^◌, ◌-◌, arith, ℕ, ◌-◌, ◌^◌, leb, ◌==◌, if◌then◌else◌, Option, none, some, negsuc,
}
use vsnx_os.Syscalls.{World, Kernel, word, Outcome, returns, max_syscalls}
use vsnx_os.Syscalls.FilesMemory.{
  printf_handler, open_handler, close_handler, read_handler, write_handler, lseek_handler,
  mkdir_handler, unlink_handler, malloc_handler, free_handler, realloc_handler, calloc_handler,
}
use vsnx_os.Syscalls.ThreadCalls.{
  getpid_handler, gettid_handler, get_by_tid_handler, thread_exists_handler, get_state_handler,
  thread_create_handler, thread_execute_handler, thread_exit_handler, thread_terminate_handler,
  thread_block_handler, thread_unblock_handler,
}
use vsnx_os.Syscalls.ProcessCalls.{
  spawn_process_handler, execute_process_handler, kill_process_handler, makepipe_handler,
  getpipe_handler, time_now_ms_handler, uptime_seconds_handler, uptime_minutes_handler,
  time_after_handler, time_before_handler,
}

module _ (w : World) where
  -- The entries for printing, files and memory; `rest` are the other entries of the table.
  unfoldable pub file_entries :
      (i arg1 arg2 arg3 : ℕ) → Kernel → (rest : Option Outcome) → Option Outcome
  file_entries i arg1 arg2 arg3 k rest =
      if i == 1
      then some (printf_handler w k)
      else if i == 2
      then some (open_handler w arg1 arg2 arg3 k)
      else if i == 3
      then some (close_handler w arg1 k)
      else if i == 4
      then some (read_handler w arg1 arg2 arg3 k)
      else if i == 5
      then some (write_handler w arg1 arg2 arg3 k)
      else if i == 6
      then some (lseek_handler w arg1 arg2 arg3 k)
      else if i == 7
      then some (mkdir_handler w arg1 arg2 k)
      else if i == 8
      then some (unlink_handler w arg1 k)
      else if i == 9
      then some (malloc_handler w arg1 k)
      else if i == 10
      then some (free_handler w arg1 k)
      else if i == 11
      then some (realloc_handler w arg1 arg2 k)
      else if i == 12
      then some (calloc_handler w arg1 arg2 k)
      else rest

  -- The entries for threads.
  unfoldable pub thread_entries :
      (i arg1 arg2 arg4 arg5 : ℕ) → Kernel → (rest : Option Outcome) → Option Outcome
  thread_entries i arg1 arg2 arg4 arg5 k rest =
      if i == 13
      then some (getpid_handler w k)
      else if i == 14
      then some (gettid_handler w k)
      else if i == 15
      then some (get_by_tid_handler w arg1 k)
      else if i == 16
      then some (thread_exists_handler w arg1 k)
      else if i == 17
      then some (get_state_handler w arg1 k)
      else if i == 18
      then some (thread_create_handler w arg1 arg2 arg4 arg5 k)
      else if i == 19
      then some (thread_execute_handler w arg1 k)
      else if i == 20
      then some (thread_exit_handler w k)
      else if i == 21
      then some (thread_terminate_handler w arg1 k)
      else if i == 28
      then some (thread_block_handler w k)
      else if i == 29
      then some (thread_unblock_handler w arg1 k)
      else rest

  -- The entries for processes, pipes and the clock.
  unfoldable pub process_entries :
      (i arg1 arg2 : ℕ) → Kernel → (rest : Option Outcome) → Option Outcome
  process_entries i arg1 arg2 k rest =
      if i == 22
      then some (spawn_process_handler w arg1 arg2 k)
      else if i == 23
      then some (execute_process_handler w arg1 k)
      else if i == 24
      then some (kill_process_handler w arg1 k)
      else if i == 25
      then some (makepipe_handler w arg1 arg2 k)
      else if i == 26
      then some (getpipe_handler w arg1 k)
      else if i == 30
      then some (time_now_ms_handler w k)
      else if i == 31
      then some (uptime_seconds_handler w k)
      else if i == 32
      then some (uptime_minutes_handler w k)
      else if i == 33
      then some (time_after_handler w arg1 arg2 k)
      else if i == 34
      then some (time_before_handler w arg1 arg2 k)
      else rest

  -- `syscall_table[i].handler`, as `init_syscalls` sets it, applied to the arguments; `none` for the
  -- null pointer.
  unfoldable pub syscall_table : (i arg1 arg2 arg3 arg4 arg5 : ℕ) → Kernel → Option Outcome
  syscall_table i arg1 arg2 arg3 arg4 arg5 k =
      file_entries i arg1 arg2 arg3 k
        (thread_entries i arg1 arg2 arg4 arg5 k (process_entries i arg1 arg2 k none))

  -- What is left in rax when the handler returns.
  unfoldable pub syscall_handler : (syscall_num arg1 arg2 arg3 arg4 arg5 : ℕ) → Kernel → Outcome
  syscall_handler syscall_num arg1 arg2 arg3 arg4 arg5 k =
      if leb max_syscalls syscall_num
      then returns (word (negsuc 0)) k
      else elim (syscall_table syscall_num arg1 arg2 arg3 arg4 arg5 k) [
        | none ↦ returns (word (negsuc 0)) k
        | some outcome ↦ outcome
      ]

-- A number without a handler gives -1 and changes nothing.
pub syscall_handler-unknown :
    (w : World) (num arg1 arg2 arg3 arg4 arg5 : ℕ) (k : Kernel)
    → (num ≡ 0) ⊎ ((num ≡ 27) ⊎ (35 ≤ num))
    → syscall_handler w num arg1 arg2 arg3 arg4 arg5 k ≡ returns (2 ^ 64 - 1) k
unfolding syscall_handler syscall_table file_entries thread_entries process_entries
syscall_handler-unknown w num arg1 arg2 arg3 arg4 arg5 k h = ground (arith, h)
