-- ===== src/Process/Kill.antt =====
-- What kill_process of os/kernel/elf/process.c leaves of a process's threads.
use vsnx_os.Base.{
  ℕ, zero, suc, ◌+◌, ◌%◌, ◌^◌, ◌<◌, ◌≤◌, ◌≡◌, refl, sym, ap, ◌∙◌, inl, inr, Bool-cases, ◌&&◌, ltb,
  leb, if◌then◌else◌, List, [], ◌∷◌, ◌++◌, arith,
}
use vsnx_os.Scheduler.{Sched}
use vsnx_os.Threads.{Freed, kernel_memory, stacks_of}
use vsnx_os.Process.{owned, kill_slot, kill_threads}

-- The threads of the process in `left` slots from the i-th on.
abbrev pub threads_of : (pid left i : ℕ) → Sched → ℕ
threads_of pid zero i s = 0
threads_of pid (suc left) i s =
    let rest = threads_of pid left (i + 1) s in if owned pid i s then suc rest else rest

-- The memory of these threads: stacks and records.
abbrev pub memory_of : (pid left i : ℕ) → Sched → List Freed
memory_of pid zero i s = []
memory_of pid (suc left) i s =
    let rest = memory_of pid left (i + 1) s in
    let t = s.thread_table i in
    if owned pid i s then stacks_of (s.thread t) ++ (kernel_memory t ∷ rest) else rest

-- `s'` is `s` with the slots from `i` to below `top` cleared of the process's threads.
pub record Killed (pid i top : ℕ) (s s' : Sched) : Type 0 where
  pub slots :
      (j : ℕ)
      → s'.thread_table j
        ≡ (if leb i j && (ltb j top && owned pid j s) then 0 else s.thread_table j)
  pub thread_same : s'.thread ≡ s.thread
  pub queue_same : s'.queue ≡ s.queue
  pub current_same : s'.current_thread ≡ s.current_thread

module _ (pid i top : ℕ) (s : Sched) (freed : List Freed) (less : i < top) where
  abbrev step : Sched × List Freed
  step = if owned pid i s then kill_slot i (s, freed) else (s, freed)

  step-Killed : {s' : Sched} → Killed pid (i + 1) top step.0 s' → Killed pid i top s s'
  step-Killed k = record {
    slots = λ j. ground (arith, k.slots j);
    thread_same = ground (arith, k.thread_same);
    queue_same = ground (arith, k.queue_same);
    current_same = ground (arith, k.current_same);
  }

pub kill_threads-Killed :
    (pid left i top : ℕ) (s : Sched) (freed : List Freed)
    → top ≡ i + left
    → Killed pid i top s (kill_threads pid left i (s, freed)).0
unfolding kill_threads
kill_threads-Killed pid zero i top s freed e = record {
  slots = λ j. ground arith;
  thread_same = refl;
  queue_same = refl;
  current_same = refl;
}
kill_threads-Killed pid (suc left) i top s freed e =
    let (s', freed') = step pid i top s freed (omega (arith, e)) in
    step-Killed pid i top s freed (omega (arith, e))
      (kill_threads-Killed pid left (i + 1) top s' freed' (omega (arith, e)))

-- What is given back and counted depends on the slots looked at.
same_memory :
    (pid left i : ℕ) (s s' : Sched)
    → ((j : ℕ) → i ≤ j → s'.thread_table j ≡ s.thread_table j)
    → s'.thread ≡ s.thread
    → (memory_of pid left i s' ≡ memory_of pid left i s)
      × (threads_of pid left i s' ≡ threads_of pid left i s)
same_memory pid zero i s s' slots thread = (refl, refl)
same_memory pid (suc left) i s s' slots thread =
    let (memory, count) =
      same_memory pid left (i + 1) s s' (λ j h. slots j (omega (arith, h))) thread in
    rw (memory, count, slots i (omega arith), thread) (refl, refl)

-- What the kills have given back, and what they have left of the count of threads.
pub record Returned (pid left i : ℕ) (s : Sched) (freed : List Freed) (r : Sched × List Freed)
    : Type 0 where
  pub memory : r.1 ≡ freed ++ memory_of pid left i s
  pub count : (r.0.thread_count + threads_of pid left i s) % 2 ^ 32 ≡ s.thread_count % 2 ^ 32

append_assoc : (xs ys zs : List Freed) → (xs ++ ys) ++ zs ≡ xs ++ (ys ++ zs)
append_assoc [] ys zs = refl
append_assoc (x ∷ xs) ys zs = ap (λ l. x ∷ l) (append_assoc xs ys zs)

append_nil : (xs : List Freed) → xs ++ [] ≡ xs
append_nil [] = refl
append_nil (x ∷ xs) = ap (λ l. x ∷ l) (append_nil xs)

pub kill_threads-Returned :
    (pid left i : ℕ) (s : Sched) (freed : List Freed)
    → Returned pid left i s freed (kill_threads pid left i (s, freed))
unfolding kill_threads
kill_threads-Returned pid zero i s freed = record {
  memory = sym (append_nil freed);
  count = omega arith;
}
kill_threads-Returned pid (suc left) i s freed = elim (Bool-cases (owned pid i s)) [
  | inr other ↦
      let r = kill_threads-Returned pid left (i + 1) s freed in
      rw (other, kill_threads) (record { memory = rw other r.memory; count = rw other r.count })
  | inl own ↦
      let (s', freed') = kill_slot i (s, freed) in
      let r = kill_threads-Returned pid left (i + 1) s' freed' in
      let (memory, count) = same_memory pid left (i + 1) s s' (λ j h. ground (arith, h)) refl in
      let t = s.thread_table i in
      let rest = memory_of pid left (i + 1) s in
      rw (own, kill_threads)
        (record {
          memory = rw own (
              r.memory
              ∙ (ap (λ m. freed' ++ m) memory
                  ∙ (append_assoc freed (stacks_of (s.thread t) ++ (kernel_memory t ∷ [])) rest
                      ∙ ap (λ m. freed ++ m)
                          (append_assoc (stacks_of (s.thread t)) (kernel_memory t ∷ []) rest))));
          count = rw own (omega (arith, r.count, count));
        })
]
