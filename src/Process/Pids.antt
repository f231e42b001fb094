-- ===== src/Process/Pids.antt =====
-- The process identifiers of os/kernel/elf/process.c: those in the table are different, and stay so.
use vsnx_os.Base.{
  take, ℕ, zero, suc, ◌+◌, ◌^◌, ◌≤◌, ◌<◌, ◌≡◌, ◌≢◌, ◌⊎◌, refl, ◌∙◌, sym, subst, inl, inr, Bool,
  true, false, Bool-cases, ◌==◌, List, arith, add32,
}
use vsnx_os.Scheduler.{Sched, Priority}
use vsnx_os.Threads.{Freed, set_slot, fill_slot, thread_create}
use vsnx_os.Process.{
  Procs, Process, NewMemory, max_processes, set_process, has_pid, start_process, clear_slot,
}

-- The pid of the process in a slot.
abbrev pub pid_at : Procs → ℕ → ℕ
pid_at s i = (s.process (s.process_table i)).pid

pub record IsTable (s : Procs) : Type 0 where
  pub known : (i : ℕ) → i < max_processes → s.process_table i ≢ 0 → pid_at s i < s.next_pid
  pub unique :
      (i j : ℕ)
      → i < max_processes
      → j < max_processes
      → s.process_table i ≢ 0
      → s.process_table j ≢ 0
      → pid_at s i ≡ pid_at s j
      → i ≡ j

fill_slot-cases :
    (left i : ℕ) (table : ℕ → ℕ) (t : ℕ)
    → (fill_slot left i table t ≡ table)
      ⊎ ((k : ℕ) × (fill_slot left i table t ≡ set_slot table k t))
unfolding fill_slot
fill_slot-cases zero i table t = inl refl
fill_slot-cases (suc left) i table t = elim (Bool-cases (table i == 0)) [
  | inl free ↦ rw (free, fill_slot) (inr (i, refl))
  | inr taken ↦ rw (taken, fill_slot) (fill_slot-cases left (i + 1) table t)
]

-- A process at an address that no slot has, with the next pid, in no slot or in one.
module _ (s : Procs) (proc : ℕ) (x : Process) (v : IsTable s) (pid : x.pid ≡ s.next_pid)
    (room : s.next_pid + 1 < 2 ^ 32)
    (fresh : (i : ℕ) → i < max_processes → s.process_table i ≢ proc) where
  abbrev beside : (table : ℕ → ℕ) → Sched → Procs
  beside table sched = record {
    process_table = table;
    process = set_process s.process proc x;
    next_pid = add32 s.next_pid 1;
    sched = sched;
  }

  beside-IsTable : (sched : Sched) → IsTable (beside s.process_table sched)
  beside-IsTable sched = record {
    known = λ i hi there. ground (arith, room, v.known i hi there, fresh i hi);
    unique =
        λ i j hi hj ti tj e. v.unique i j hi hj ti tj (ground (arith, e, fresh i hi, fresh j hj));
  }

  -- A slot in use has the new process and its pid, or the one that it had before.
  slot-cases :
      (sched : Sched) (k i : ℕ)
      → i < max_processes
      → let s' = beside (set_slot s.process_table k proc) sched in
        s'.process_table i ≢ 0
        → ((i ≡ k) × (pid_at s' i ≡ s.next_pid))
          ⊎ ((s.process_table i ≢ 0) × (pid_at s' i ≡ pid_at s i))
  slot-cases sched k i hi there = elim (Bool-cases (i == k)) [
    | inl here ↦ inl (ground (arith, here), ground (arith, here, pid))
    | inr other ↦ inr (λ e. there (ground (arith, other, e)), ground (arith, other, fresh i hi))
  ]

  in_slot-IsTable :
      (sched : Sched) (k : ℕ) → IsTable (beside (set_slot s.process_table k proc) sched)
  in_slot-IsTable sched k = record {
    known = λ i hi ti. elim (slot-cases sched k i hi ti) [
      | inl (at, e) ↦ omega (arith, e, room)
      | inr (there, e) ↦ omega (arith, e, room, v.known i hi there)
    ];
    unique = λ i j hi hj ti tj e. elim (slot-cases sched k i hi ti) [
      | inl (at, ei) ↦ elim (slot-cases sched k j hj tj) [
        | inl (at', ej) ↦ at ∙ sym at'
        | inr (there, ej) ↦ absurd (omega (arith, e, ei, ej, v.known j hj there))
      ]
      | inr (there, ei) ↦ elim (slot-cases sched k j hj tj) [
        | inl (at', ej) ↦ absurd (omega (arith, e, ei, ej, v.known i hi there))
        | inr (there', ej) ↦ v.unique i j hi hj there there' (sym ei ∙ e ∙ ej)
      ]
    ];
  }

-- A cleared slot.
pub cleared-IsTable :
    (s : Procs) (k : ℕ)
    → IsTable s
    → IsTable (record s { process_table = set_slot s.process_table k 0 })
cleared-IsTable s k v = record {
  known = λ i hi ti. elim (Bool-cases (i == k)) [
    | inl here ↦ absurd (ti (ground (arith, here)))
    | inr other ↦ ground (arith, other, v.known i hi (λ e. ti (ground (arith, other, e))))
  ];
  unique = λ i j hi hj ti tj e. elim (Bool-cases (i == k)) [
    | inl here ↦ absurd (ti (ground (arith, here)))
    | inr other ↦ elim (Bool-cases (j == k)) [
      | inl here ↦ absurd (tj (ground (arith, here)))
      | inr other' ↦
          v.unique i j hi hj (λ z. ti (ground (arith, other, z)))
            (λ z. tj (ground (arith, other', z))) (ground (arith, e, other, other'))
    ]
  ];
}

-- While the pids do not wrap, a spawn at an address that no slot of the table has keeps the pids in the
-- table different and below the next.
pub start_process-IsTable :
    (entry_point : ℕ) (m : NewMemory) (filename : List ℕ) (ring3 : Bool) (priority : Priority)
    (s : Procs)
    → IsTable s
    → s.next_pid + 1 < 2 ^ 32
    → ((i : ℕ) → i < max_processes → s.process_table i ≢ m.proc)
    → IsTable (start_process entry_point m filename ring3 priority s).1
unfolding start_process
start_process-IsTable entry_point m filename ring3 priority s v room fresh =
    elim (Bool-cases (entry_point == 0)) [
      | inl no_entry ↦ rw (no_entry, start_process) v
      | inr entry ↦ elim (Bool-cases (m.proc == 0)) [
        | inl null ↦ rw (entry, null, start_process) v
        | inr there ↦ elim (Bool-cases (thread == 0)) [
          | inl no_thread ↦
              rw (entry, there, no_thread, start_process)
                (beside-IsTable s m.proc x v refl room fresh sched)
          | inr started ↦
              rw (entry, there, started, start_process)
                (elim (fill_slot-cases max_processes 0 s.process_table m.proc) [
                  | inl full ↦
                      subst (λ table. IsTable (beside s m.proc x v refl room fresh table sched))
                        (sym full) (beside-IsTable s m.proc x v refl room fresh sched)
                  | inr (k, filled) ↦
                      subst (λ table. IsTable (beside s m.proc x v refl room fresh table sched))
                        (sym filled) (in_slot-IsTable s m.proc x v refl room fresh sched k)
                ])
        ]
      ]
    ]
  where
    created : ℕ × Sched × List Freed
    created =
        thread_create m.thread m.stack_base m.kernel_stack entry_point 0 ring3 priority s.next_pid
          s.sched

    thread : ℕ
    thread = created.0

    sched : Sched
    sched = created.1

    x : Process
    x = record {
      pid = s.next_pid;
      entry_point = entry_point;
      main_thread = thread;
      ring3 = ring3;
      name = take 63 filename;
    }

-- The loop of `kill_process` clears one slot, after which no slot has the pid, or finds none.
pub clear_slot-cases :
    (pid left i : ℕ) (s : Procs)
    → ((clear_slot pid left i s ≡ s) × ((j : ℕ) → i ≤ j → j < i + left → has_pid pid j s ≡ false))
      ⊎ ((k : ℕ) × (k < i + left)
          × (has_pid pid k s ≡ true)
          × (clear_slot pid left i s ≡ record s { process_table = set_slot s.process_table k 0 }))
unfolding clear_slot
clear_slot-cases pid zero i s = inl (refl, λ j low high. absurd (omega arith))
clear_slot-cases pid (suc left) i s = elim (Bool-cases (has_pid pid i s)) [
  | inl here ↦ rw (here, clear_slot) (inr (i, omega arith, here, refl))
  | inr other ↦
      rw (other, clear_slot)
        (elim (clear_slot-cases pid left (i + 1) s) [
          | inl (same, none_left) ↦ inl (
            same,
            λ j low high. elim (Bool-cases (j == i)) [
              | inl at ↦ ground (arith, at, other)
              | inr behind ↦ none_left j (ground (arith, behind)) (omega arith)
            ],
          )
          | inr (k, less, found, cleared) ↦ inr (k, omega (arith, less), found, cleared)
        ])
]
