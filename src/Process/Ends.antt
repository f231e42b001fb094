-- ===== src/Process/Ends.antt =====
-- What kill_process of os/kernel/elf/process.c leaves behind.
use vsnx_os.Base.{
  ℕ, ◌<◌, ◌≡◌, ◌≢◌, refl, sym, ◌∙◌, subst, inl, inr, true, false, Bool-cases, ◌==◌, [], arith,
}
use vsnx_os.Scheduler.{Sched, max_threads}
use vsnx_os.Threads.{set_slot}
use vsnx_os.Process.{Procs, max_processes, owned, has_pid, kill_threads, clear_slot, kill_process}
use vsnx_os.Process.Kill.{Killed, kill_threads-Killed, Returned, kill_threads-Returned}
use vsnx_os.Process.Pids.{IsTable, pid_at, cleared-IsTable, clear_slot-cases}

-- No slot of either table has the process or a thread of it.
pub record Gone (pid : ℕ) (s : Procs) : Type 0 where
  pub no_thread : (j : ℕ) → j < max_threads → owned pid j s.sched ≡ false
  pub no_process : (j : ℕ) → j < max_processes → has_pid pid j s ≡ false

has_pid-at :
    (pid k : ℕ) (s : Procs) → has_pid pid k s ≡ true → (s.process_table k ≢ 0) × (pid_at s k ≡ pid)
has_pid-at pid k s h = (λ e. ground (arith, h, e), ground (arith, h))

-- Behind the one slot that has the pid no other has it.
no_other :
    (pid k j : ℕ) (s : Procs)
    → IsTable s
    → k < max_processes
    → has_pid pid k s ≡ true
    → j < max_processes
    → has_pid pid j (record s { process_table = set_slot s.process_table k 0 }) ≡ false
no_other pid k j s v hk found hj = elim (Bool-cases (j == k)) [
  | inl here ↦ ground (arith, here)
  | inr other ↦ elim (Bool-cases (has_pid pid j s)) [
    | inl too ↦
        let (tk, pk) = has_pid-at pid k s found in
        let (tj, pj) = has_pid-at pid j s too in
        absurd (ground (arith, other, v.unique k j hk hj tk tj (pk ∙ sym pj)))
    | inr free ↦ ground (arith, other, free)
  ]
]

cleared-no_process :
    (pid : ℕ) (s : Procs)
    → IsTable s
    → IsTable (clear_slot pid max_processes 0 s)
      × ((j : ℕ) → j < max_processes → has_pid pid j (clear_slot pid max_processes 0 s) ≡ false)
      × ((clear_slot pid max_processes 0 s).sched ≡ s.sched)
cleared-no_process pid s v = elim (clear_slot-cases pid max_processes 0 s) [
  | inl (same, none_left) ↦ rw same (v, λ j hj. none_left j (omega arith) (omega (arith, hj)), refl)
  | inr (k, less, found, cleared) ↦
      rw cleared
        (cleared-IsTable s k v, λ j hj. no_other pid k j s v (omega (arith, less)) found hj, refl)
]

Killed-no_thread :
    (pid : ℕ) (s s' : Sched)
    → Killed pid 0 max_threads s s'
    → (j : ℕ) → j < max_threads
    → owned pid j s' ≡ false
Killed-no_thread pid s s' k j hj = ground (arith, k.slots j, k.thread_same)

-- Where the pids in the table are different, `kill_process` clears the slots of the process's threads
-- and no other, leaves no slot with the process, and keeps the pids different. It gives back the
-- stacks and the records of just these threads, in the order of their slots, and takes their number
-- off the count of threads. The ready queue and the running thread stay what they are, also where
-- they are threads of the process.
pub kill_process-Gone :
    (pid : ℕ) (s : Procs)
    → IsTable s
    → let (s', freed) = kill_process pid s in
      Gone pid s'
      × IsTable s'
      × Killed pid 0 max_threads s.sched s'.sched
      × Returned pid max_threads 0 s.sched [] (s'.sched, freed)
unfolding kill_process
kill_process-Gone pid s v =
    let killed = kill_threads-Killed pid max_threads 0 max_threads s.sched [] (omega arith) in
    let returned = kill_threads-Returned pid max_threads 0 s.sched [] in
    let (table, no_process, same) = cleared-no_process pid s' after in
    let kept = subst (Killed pid 0 max_threads s.sched) (sym same) killed in
    (
      record { no_thread = Killed-no_thread pid s.sched _ kept; no_process = no_process },
      table,
      kept,
      record { memory = returned.memory; count = rw same returned.count },
    )
  where
    s' : Procs
    s' = record s { sched = (kill_threads pid max_threads 0 (s.sched, [])).0 }

    after : IsTable s'
    after = record { known = v.known; unique = v.unique }
