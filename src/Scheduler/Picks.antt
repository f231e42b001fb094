-- ===== src/Scheduler/Picks.antt =====
-- Which thread scheduler_tick of os/kernel/threading/schedular.c starts: a rotation of the queue.
use vsnx_os.Base.{
  ℕ, zero, suc, ◌≤◌, ◌<◌, ◌≡◌, refl, ◌≢◌, Bool, true, false, ◌&&◌, ◌==◌, if◌then◌else◌, List, [],
  ◌∷◌, ◌++◌, length, arith, ==_iff, ==-ne, subst, sym, ap, ◌∙◌, some, length-append,
}
use vsnx_os.Queue.{Queue, ThreadState, thread_ready}
use vsnx_os.Queue.Chain.{Distinct, member}
use vsnx_os.Queue.Order.{IsQueue, Chain-first}
use vsnx_os.Queue.Add.{enters, add_lem}
use vsnx_os.Scheduler.{
  Frame, Sched, set_cooldown, take_first, cannot_run, dispatch, select, start_thread, no_context,
  restored,
}
use vsnx_os.Scheduler.Rotation.{at_once, total, total-later}
use vsnx_os.Scheduler.Round.{
  cooldowns, AllRun, Scheduled, scheduled, take_first-IsQueue, cooldown-if, cooldowns-set,
  can_enter, AllRun-map, AllRun-append, Scheduled-later, select-dispatch, dispatch-now,
  dispatch-later, set_cooldown-same,
}

-- The thread is started; `rsp0` may change.
started :
    (frame : Frame) (s : Sched) (q : Queue) (t : ℕ) (xs : List ℕ) (b : Bool) (r : ℕ)
    → cooldowns s t ≡ 0
    → IsQueue q xs
    → Scheduled frame s (t ∷ xs) (
        some (
          restored frame (s.thread t),
          (if b
              then record (start_thread (record s { queue = q }) t) { rsp0 = r }
              else start_thread (record s { queue = q }) t),
        ))
started frame s q t xs true r e v =
    scheduled _ (at_once t xs e) (record { chain = v.chain; distinct = v.distinct }) refl
      (rw ((==_iff t t).1 refl) refl) (λ u. cooldown-if (u == t) _ _)
started frame s q t xs false r e v =
    scheduled _ (at_once t xs e) (record { chain = v.chain; distinct = v.distinct }) refl
      (rw ((==_iff t t).1 refl) refl) (λ u. cooldown-if (u == t) _ _)

-- A thread that can run enters the queue it was taken from.
pub enters-again :
    (q : Queue) (t : ℕ) (xs : List ℕ)
    → t ≢ 0
    → cannot_run (q.state t) ≡ false
    → member t xs ≡ false
    → enters q t xs ≡ true
enters-again q t xs ne runs out = rw (==-ne t 0 ne, can_enter (q.state t) runs, out) refl

AllRun-added :
    (s : Sched) (q : Queue) (t k : ℕ) (xs : List ℕ)
    → ((u : ℕ) → q.state u ≡ (if u == t then thread_ready else s.queue.state u))
    → AllRun s (t ∷ xs)
    → AllRun (set_cooldown (record s { queue = q }) t k) (xs ++ (t ∷ []))
AllRun-added s q t k xs states (h, c, a) =
    AllRun-map s (set_cooldown (record s { queue = q }) t k) (xs ++ (t ∷ []))
      (λ x hx. rw (states x) (ready_or (x == t) (s.queue.state x) hx))
      (λ x. set_cooldown-same no_context (λ y j. refl) s.thread t k x)
      (AllRun-append s xs t a (h, c, tt))
  where
    ready_or :
        (b : Bool) (st : ThreadState)
        → cannot_run st ≡ false
        → cannot_run (if b then thread_ready else st) ≡ false
    ready_or true st hx = refl
    ready_or false st hx = hx

module _ (links : ℕ) (frame : Frame) where
  -- One round for a queue that begins with `t`.
  first-Scheduled :
      (n next_thread : ℕ) (s : Sched) (t : ℕ) (xs : List ℕ) (count : ℕ)
      → cooldowns s t ≡ count
      → IsQueue s.queue (t ∷ xs)
      → AllRun s (t ∷ xs)
      → length (t ∷ xs) ≤ links
      → total (cooldowns s) (t ∷ xs) < suc n
      → ((s' : Sched)
          → IsQueue s'.queue (xs ++ (t ∷ []))
          → AllRun s' (xs ++ (t ∷ []))
          → total (cooldowns s') (xs ++ (t ∷ [])) < n
          → Scheduled frame s' (xs ++ (t ∷ [])) (select n links frame 0 s'))
      → Scheduled frame s (t ∷ xs) (select (suc n) links frame next_thread s)
  unfolding Distinct
  first-Scheduled n next_thread s t xs count e v runs room fuel go =
      let (first, full) = Chain-first s.queue.next s.queue.ready_queue t xs v.chain in
      let some_thread : t ≢ 0 = λ z. full (first ∙ z) in
      let popped = take_first-IsQueue s.queue t xs v in
      let out = (v.distinct).0 in
      subst (Scheduled frame s (t ∷ xs)) (sym (select-dispatch n links frame next_thread s t xs v))
        (by_count count e some_thread popped out)
    where
      by_count :
          (c : ℕ)
          → cooldowns s t ≡ c
          → t ≢ 0
          → IsQueue (take_first s.queue) xs
          → member t xs ≡ false
          → Scheduled frame s (t ∷ xs) (
              dispatch
                (select n links frame)
                links
                frame
                t
                (record s { queue = take_first s.queue }))
      by_count zero e0 ne popped out =
          subst (Scheduled frame s (t ∷ xs))
            (sym (
              dispatch-now (select n links frame) links frame
                (record s { queue = take_first s.queue }) t ne (runs.0) (runs.1) e0))
            (started frame s (take_first s.queue) t xs _ _ e0 popped)
      by_count (suc k) ek ne popped out =
          let (q, eq, added) = add_lem links (take_first s.queue) t xs room popped in
          let enter = enters-again (take_first s.queue) t xs ne (runs.0) out in
          let next_queue =
            subst (λ b. IsQueue q (if b then xs ++ (t ∷ []) else xs)) enter added.queue in
          let states : (u : ℕ) → q.state u ≡ (if u == t then thread_ready else s.queue.state u) =
            λ u.
              added.states u
              ∙ ap (λ b. if b && u == t then thread_ready else s.queue.state u) enter in
          subst (Scheduled frame s (t ∷ xs))
            (sym (
              dispatch-later (select n links frame) links frame
                (record s { queue = take_first s.queue }) t ne (runs.0) (runs.1) k q ek eq))
            (Scheduled-later frame s q t k xs ek (
              go (set_cooldown (record s { queue = q }) t k) next_queue
                (AllRun-added s q t k xs states runs)
                (subst (λ c. total c (xs ++ (t ∷ [])) < n)
                  (sym (cooldowns-set (record s { queue = q }) t k))
                  (omega (arith, total-later (cooldowns s) t k xs ek out, fuel)))))

  -- With more rounds than the cooldowns of the queue add up to, and fuel for its threads, `select`
  -- on a queue of threads that can run ends: it starts the thread that the rotation picks, off the
  -- queue and with its stride less one as its cooldown, and leaves the others as the rotation does.
  pub select-Scheduled :
      (n next_thread : ℕ) (s : Sched) (xs : List ℕ)
      → 0 < length xs
      → IsQueue s.queue xs
      → AllRun s xs
      → length xs ≤ links
      → total (cooldowns s) xs < n
      → Scheduled frame s xs (select n links frame next_thread s)
  select-Scheduled zero next_thread s xs some_thread v runs room fuel = absurd (omega (arith, fuel))
  select-Scheduled (suc n) next_thread s [] some_thread v runs room fuel =
      absurd (omega (arith, some_thread))
  select-Scheduled (suc n) next_thread s (t ∷ xs) some_thread v runs room fuel =
      let l = length-append xs (t ∷ []) in
      first-Scheduled n next_thread s t xs (cooldowns s t) refl v runs room fuel
        (λ s' v' runs' fuel'.
          select-Scheduled n 0 s' (xs ++ (t ∷ [])) (omega (arith, l)) v' runs'
            (omega (arith, l, room)) fuel')
