-- ===== src/Scheduler/Round.antt =====
-- One round of scheduler_tick of os/kernel/threading/schedular.c on a queue of threads that can run.
use vsnx_os.Base.{
  ℕ, suc, ◌-◌, ◌≡◌, refl, ◌≢◌, inl, inr, Bool, true, false, ◌==◌, if◌then◌else◌, List, [], ◌∷◌,
  ◌++◌, Bool-cases, ==_iff, ==-ne, subst, sym, ap, ap₂, ◌∙◌, Option, some, fun_ext,
}
use vsnx_os.Queue.{
  Queue, ThreadState, thread_ready, thread_running, thread_blocked, thread_terminated,
  is_terminated, add_to_ready_queue,
}
use vsnx_os.Queue.Chain.{Chain, Distinct, Chain-link}
use vsnx_os.Queue.Order.{IsQueue, Chain-first}
use vsnx_os.Scheduler.{
  Frame, Thread, Sched, set_thread, set_cooldown, take_first, cannot_run, candidate, dispatch,
  first_or, without_first, select, stride, start_thread, no_context, set_rsp0, restored,
}
use vsnx_os.Scheduler.Rotation.{Picked, later, set_count}

abbrev pub cooldowns : Sched → ℕ → ℕ
cooldowns s t = (s.thread t).cooldown

-- Every thread of the list is ready or running, and its context can be restored.
abbrev pub AllRun : Sched → List ℕ → Type 0
AllRun s [] = Unit
AllRun s (x ∷ xs) =
    (cannot_run (s.queue.state x) ≡ false) × (no_context (s.thread x) ≡ false) × AllRun s xs

-- What a choice of a thread from the queue comes to.
pub data Scheduled (frame : Frame) (s : Sched) (xs : List ℕ) : Option (Frame × Sched) → Type 0 where
  scheduled :
      {t : ℕ} {ys : List ℕ} {d : ℕ → ℕ} (s' : Sched)
      → Picked (cooldowns s) xs t ys d
      → IsQueue s'.queue ys
      → s'.current_thread ≡ t
      → s'.queue.state t ≡ thread_running
      → ((u : ℕ) → cooldowns s' u ≡ (if u == t then stride (s.thread t).priority - 1 else d u))
      → Scheduled frame s xs (some (restored frame (s.thread t), s'))

pub take_first-IsQueue :
    (q : Queue) (x : ℕ) (xs : List ℕ) → IsQueue q (x ∷ xs) → IsQueue (take_first q) xs
unfolding Chain Distinct
take_first-IsQueue q x xs v =
    let (e, ne, c) = v.chain in
    let (out, d) = v.distinct in
    record { chain = rw e (Chain-link q.next x 0 (q.next x) xs out c); distinct = d }

candidate-first :
    (t : ℕ) (table : ℕ → ℕ) (state : ℕ → ThreadState) → t ≢ 0 → candidate t table state ≡ t
unfolding candidate
candidate-first t table state ne = rw (==-ne t 0 ne, candidate) refl

-- What does not depend on a cooldown.
module _ {A : Type 0} (f : Thread → A)
    (same : (x : Thread) (k : ℕ) → f (record x { cooldown = k }) ≡ f x) where
  pub set_cooldown-same :
      (thread : ℕ → Thread) (t k u : ℕ)
      → f (set_thread thread t (record (thread t) { cooldown = k }) u) ≡ f (thread u)
  set_cooldown-same thread t k u = elim (Bool-cases (u == t)) [
    | inl here ↦ rw here (same (thread t) k ∙ ap (λ v. f (thread v)) (sym ((==_iff u t).0 here)))
    | inr there ↦ rw there refl
  ]

pub cooldown-if :
    (b : Bool) (x y : Thread)
    → (if b then x else y).cooldown ≡ (if b then x.cooldown else y.cooldown)
cooldown-if true x y = refl
cooldown-if false x y = refl

pub cooldowns-set :
    (s : Sched) (t k : ℕ) → cooldowns (set_cooldown s t k) ≡ set_count (cooldowns s) t k
cooldowns-set s t k = fun_ext (λ u. cooldown-if (u == t) _ _)

pub can_enter : (st : ThreadState) → cannot_run st ≡ false → is_terminated st ≡ false
can_enter thread_ready h = refl
can_enter thread_running h = refl
can_enter thread_blocked h = refl
can_enter thread_terminated h = cc

pub AllRun-map :
    (s s' : Sched) (xs : List ℕ)
    → ((x : ℕ) → cannot_run (s.queue.state x) ≡ false → cannot_run (s'.queue.state x) ≡ false)
    → ((x : ℕ) → no_context (s'.thread x) ≡ no_context (s.thread x))
    → AllRun s xs
    → AllRun s' xs
AllRun-map s s' [] f g a = tt
AllRun-map s s' (x ∷ xs) f g (h, k, a) = (f x h, g x ∙ k, AllRun-map s s' xs f g a)

pub AllRun-append :
    (s : Sched) (xs : List ℕ) (t : ℕ) → AllRun s xs → AllRun s (t ∷ []) → AllRun s (xs ++ (t ∷ []))
AllRun-append s [] t a b = b
AllRun-append s (x ∷ xs) t (h, k, a) b = (h, k, AllRun-append s xs t a b)

-- A choice from the queue behind a thread that counted down.
pub Scheduled-later :
    (frame : Frame) (s : Sched) (q : Queue) (t k : ℕ) (xs : List ℕ) {r : Option (Frame × Sched)}
    → cooldowns s t ≡ suc k
    → Scheduled frame (set_cooldown (record s { queue = q }) t k) (xs ++ (t ∷ [])) r
    → Scheduled frame s (t ∷ xs) r
Scheduled-later frame s q t k xs e (scheduled {t = u} {ys = ys} {d = d} s' p v c st cd) =
    subst (λ f. Scheduled frame s (t ∷ xs) (some (f, s')))
      (sym (set_cooldown-same (restored frame) (λ x j. refl) s.thread t k u))
      (scheduled s'
        (later e (subst (λ z. Picked z (xs ++ (t ∷ [])) u ys d) (cooldowns-set s t k) p)) v c st
        (λ w.
          cd w
          ∙ ap (λ z. if w == u then stride z - 1 else d w)
              (set_cooldown-same (λ x. x.priority) (λ x j. refl) s.thread t k u)))

-- The first thread of the queue is the one found.
pub select-dispatch :
    (n links : ℕ) (frame : Frame) (next_thread : ℕ) (s : Sched) (t : ℕ) (xs : List ℕ)
    → IsQueue s.queue (t ∷ xs)
    → select (suc n) links frame next_thread s
      ≡ dispatch (select n links frame) links frame t (record s { queue = take_first s.queue })
unfolding select
select-dispatch n links frame next_thread s t xs v =
    let (first, some_thread) = Chain-first s.queue.next s.queue.ready_queue t xs v.chain in
    let full = ==-ne s.queue.ready_queue 0 some_thread in
    let found : first_or next_thread s.queue ≡ t = rw full first in
    let popped : without_first s.queue ≡ take_first s.queue = rw full refl in
    ap₂ (λ c q. dispatch (select n links frame) links frame c (record s { queue = q }))
      (ap (λ c. candidate c s.thread_table s.queue.state) found
        ∙ candidate-first t s.thread_table s.queue.state (λ z. some_thread (first ∙ z)))
      popped

-- What becomes of the first thread `t`, which is off the queue already.
module _ (again : (next_thread : ℕ) → Sched → Option (Frame × Sched)) (links : ℕ) (frame : Frame)
    (s : Sched) (t : ℕ) (some_thread : t ≢ 0) (runs : cannot_run (s.queue.state t) ≡ false)
    (context : no_context (s.thread t) ≡ false) where
  pub dispatch-now :
      cooldowns s t ≡ 0
      → dispatch again links frame t s
        ≡ some (restored frame (s.thread t), set_rsp0 (start_thread s t) (s.thread t))
  unfolding dispatch
  dispatch-now e = rw (==-ne t 0 some_thread, runs, e, context, dispatch) refl

  pub dispatch-later :
      (k : ℕ) (q : Queue)
      → cooldowns s t ≡ suc k
      → add_to_ready_queue links s.queue t ≡ some q
      → dispatch again links frame t s ≡ again 0 (set_cooldown (record s { queue = q }) t k)
  unfolding dispatch
  dispatch-later k q e added = rw (==-ne t 0 some_thread, runs, e, added, dispatch) refl
