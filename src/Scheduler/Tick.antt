-- ===== src/Scheduler/Tick.antt =====
-- scheduler_tick of os/kernel/threading/schedular.c when a thread is interrupted that can run on.
use vsnx_os.Base.{
  ℕ, ◌+◌, ◌%◌, ◌<◌, ◌≡◌, refl, ◌≢◌, Bool, true, false, ◌&&◌, ◌==◌, if◌then◌else◌, List, [], ◌∷◌,
  ◌++◌, length, arith, ==_iff, ==-ne, subst, sym, ap, ◌∙◌, Option, some, length-append, u32_mod,
}
use vsnx_os.Queue.{
  Queue, ThreadState, thread_ready, thread_running, thread_blocked, thread_terminated, set_state,
  add_to_ready_queue,
}
use vsnx_os.Queue.Chain.{Distinct, member}
use vsnx_os.Queue.Order.{IsQueue}
use vsnx_os.Queue.Add.{enters, add_lem, Distinct-append}
use vsnx_os.Scheduler.{Frame, Sched, cannot_run, save_context, put_back, scheduler_tick, with_queue}
use vsnx_os.Scheduler.Rotation.{FirstLeast, Picked-FirstLeast, total}
use vsnx_os.Scheduler.Round.{cooldowns, AllRun, Scheduled, scheduled, AllRun-map}
use vsnx_os.Scheduler.Picks.{select-Scheduled, enters-again}

-- The interrupted thread can run on, is not queued, and the queued threads can run.
pub record Interrupted (links : ℕ) (frame : Frame) (s : Sched) (xs : List ℕ) : Type 0 where
  pub queue : IsQueue s.queue xs
  pub some_thread : s.current_thread ≢ 0
  pub apart : member s.current_thread xs ≡ false
  pub runs : cannot_run (s.queue.state s.current_thread) ≡ false
  pub all_run : AllRun (save_context s frame) (xs ++ (s.current_thread ∷ []))
  pub room : length xs < links

put_back-runs :
    (links : ℕ) (s : Sched) (st : ThreadState)
    → cannot_run st ≡ false
    → put_back links s st
      ≡ with_queue s (
          add_to_ready_queue links
            (record s.queue { state = set_state s.queue.state s.current_thread thread_ready })
            s.current_thread)
unfolding put_back
put_back-runs links s thread_ready h = refl
put_back-runs links s thread_running h = refl
put_back-runs links s thread_blocked h = cc
put_back-runs links s thread_terminated h = cc

-- A choice does not depend on the queue and the counter that the state begins with.
Scheduled-queue :
    (frame : Frame) (s : Sched) (q : Queue) (n : ℕ) (xs : List ℕ) {r : Option (Frame × Sched)}
    → Scheduled frame (record s { queue = q; scheduler_counter = n }) xs r
    → Scheduled frame s xs r
Scheduled-queue frame s q n xs (scheduled after p v c st cd) = scheduled after p v c st cd

state_or :
    (b c : Bool) (st : ThreadState)
    → cannot_run st ≡ false
    → cannot_run (if b then thread_ready else if c then thread_ready else st) ≡ false
state_or true c st h = refl
state_or false true st h = refl
state_or false false st h = h

-- A timer interrupt of a thread that is not queued and can run on, with frames and stacks to restore:
-- it goes to the end of the queue with its context saved, and `scheduler_tick`, with more rounds than
-- the cooldowns of all add up to, starts the thread that the rotation of this queue picks.
pub scheduler_tick-Scheduled :
    (rounds links : ℕ) (frame : Frame) (s : Sched) (xs : List ℕ)
    → Interrupted links frame s xs
    → total (cooldowns (save_context s frame)) (xs ++ (s.current_thread ∷ [])) < rounds
    → Scheduled frame
        (save_context s frame)
        (xs ++ (s.current_thread ∷ []))
        (scheduler_tick rounds links frame s)
unfolding scheduler_tick
scheduler_tick-Scheduled rounds links frame s xs x fuel =
    let t = s.current_thread in
    let counter = (s.scheduler_counter + 1) % u32_mod in
    let saved = save_context (record s { scheduler_counter = counter }) frame in
    let ready_queue : Queue = record s.queue { state = set_state s.queue.state t thread_ready } in
    let v : IsQueue ready_queue xs = record {
      chain = x.queue.chain;
      distinct = x.queue.distinct;
    } in
    let at_t : set_state s.queue.state t thread_ready t ≡ thread_ready =
      rw ((==_iff t t).1 refl) refl in
    let (q, eq, added) = add_lem links ready_queue t xs x.room v in
    let enter = enters-again ready_queue t xs x.some_thread (ap cannot_run at_t) x.apart in
    let next_queue = subst (λ b. IsQueue q (if b then xs ++ (t ∷ []) else xs)) enter added.queue in
    let put = put_back-runs links saved (s.queue.state t) x.runs ∙ ap (with_queue saved) eq in
    let l = length-append xs (t ∷ []) in
    rw (==-ne t 0 x.some_thread, put, scheduler_tick)
      (Scheduled-queue frame (save_context s frame) q counter (xs ++ (t ∷ [])) (
        select-Scheduled links frame rounds 0 (record saved { queue = q }) (xs ++ (t ∷ []))
          (omega (arith, l)) next_queue
          (AllRun-map (save_context s frame) (record saved { queue = q }) (xs ++ (t ∷ []))
            (λ u h.
              rw (added.states u)
                (state_or (enters ready_queue t xs && u == t) (u == t) (s.queue.state u) h))
            (λ u. refl) x.all_run)
          (omega (arith, l, x.room)) fuel))

-- A state whose running thread is the first of the list with the least cooldown.
pub data Fair (s : Sched) (xs : List ℕ) : Option (Frame × Sched) → Type 0 where
  fair :
      (frame : Frame) (after : Sched)
      → FirstLeast (cooldowns s) after.current_thread xs
      → Fair s xs (some (frame, after))

Scheduled-Fair :
    (frame : Frame) (s : Sched) (xs : List ℕ) {r : Option (Frame × Sched)}
    → Distinct xs
    → Scheduled frame s xs r
    → Fair s xs r
Scheduled-Fair frame s xs dist (scheduled after p v c st cd) =
    fair _ after (subst (λ u. FirstLeast (cooldowns s) u xs) (sym c) (Picked-FirstLeast p dist))

-- Where a timer interrupts a thread that is not queued and can run on, with frames and stacks to
-- restore, and with more rounds than the cooldowns of all add up to, the thread that
-- `scheduler_tick` starts is the first of the queue, the interrupted thread last, that has the
-- least cooldown.
pub scheduler_tick-Fair :
    (rounds links : ℕ) (frame : Frame) (s : Sched) (xs : List ℕ)
    → Interrupted links frame s xs
    → total (cooldowns (save_context s frame)) (xs ++ (s.current_thread ∷ [])) < rounds
    → Fair
        (save_context s frame)
        (xs ++ (s.current_thread ∷ []))
        (scheduler_tick rounds links frame s)
scheduler_tick-Fair rounds links frame s xs x fuel =
    Scheduled-Fair frame (save_context s frame) (xs ++ (s.current_thread ∷ []))
      (Distinct-append s.current_thread xs x.apart x.queue.distinct)
      (scheduler_tick-Scheduled rounds links frame s xs x fuel)
