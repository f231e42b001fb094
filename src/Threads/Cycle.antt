-- ===== src/Threads/Cycle.antt =====
-- thread_execute of os/kernel/threading/threading.c on a thread that is in the queue already.
use vsnx_os.Base.{
  ℕ, zero, suc, ◌≤◌, ◌≡◌, refl, ◌≢◌, false, none, some, List, [], ◌∷◌, ◌++◌, length, pos, ==_iff,
  ==-ne, sym, ap, ◌∙◌,
}
use vsnx_os.Queue.{thread_ready, is_terminated, link, is_queued, last_from, add_to_ready_queue}
use vsnx_os.Queue.Chain.{Chain, Distinct, member, member-cons, last, last_from_lem}
use vsnx_os.Queue.Order.{IsQueue}
use vsnx_os.Scheduler.{Sched}
use vsnx_os.Threads.{enqueue, thread_execute}

-- From `p` on, the pointers lead through the threads of the list to `t`, which leads to itself.
Lasso : (ℕ → ℕ) → ℕ → List ℕ → ℕ → Type 0
Lasso next p [] t = (p ≡ t) × (next t ≡ t)
Lasso next p (x ∷ xs) t = (p ≡ x) × (x ≢ 0) × Lasso next (next x) xs t

member-last :
    (u t : ℕ) (xs : List ℕ) → member u (xs ++ (t ∷ [])) ≡ false → (u ≢ t) × (member u xs ≡ false)
unfolding member
member-last u t [] out = (member-cons u t [] out)
member-last u t (x ∷ xs) out =
    let (apart, rest) = member-cons u x (xs ++ (t ∷ [])) out in
    let (ne, none_of) = member-last u t xs rest in (ne, rw (==-ne u x apart, none_of) refl)

-- The search of a thread that is not there does not end.
is_queued-endless :
    (n : ℕ) (next : ℕ → ℕ) (p : ℕ) (xs : List ℕ) (t u : ℕ)
    → Lasso next p xs t
    → t ≢ 0
    → u ≢ t
    → member u xs ≡ false
    → is_queued n next p u ≡ none
unfolding is_queued Lasso
is_queued-endless zero next p xs t u l ne apart out = refl
is_queued-endless (suc n) next p [] t u (e, loop) ne apart out =
    rw (e, ==-ne t 0 ne, ==-ne t u (λ z. apart (sym z)))
      (is_queued-endless n next (next t) [] t u (loop, loop) ne apart out)
is_queued-endless (suc n) next p (x ∷ xs) t u (e, some_thread, l) ne apart out =
    let (other, rest) = member-cons u x xs out in
    rw (e, ==-ne x 0 some_thread, ==-ne x u (λ z. other (sym z)))
      (is_queued-endless n next (next x) xs t u l ne apart rest)

-- The last thread of a queue is linked to itself.
Chain-Lasso :
    (next : ℕ → ℕ) (p : ℕ) (xs : List ℕ) (t : ℕ)
    → Chain next p (xs ++ (t ∷ []))
    → Distinct (xs ++ (t ∷ []))
    → Lasso (link next t t) p xs t
unfolding Chain Distinct Lasso
Chain-Lasso next p [] t (e, ne, c) d = (e, rw ((==_iff t t).1 refl) refl)
Chain-Lasso next p (x ∷ xs) t (e, ne, c) (out, d) =
    let (apart, rest) = member-last x t xs out in
    (e, ne, rw (==-ne x t apart) (Chain-Lasso next (next x) xs t c d))

last-append : (x t : ℕ) (xs : List ℕ) → last x (xs ++ (t ∷ [])) ≡ t
unfolding last
last-append x t [] = refl
last-append x t (y ∷ ys) = last-append y t ys

-- The loop to the last thread ends at `t`.
last-found :
    (links : ℕ) (next : ℕ → ℕ) (p : ℕ) (xs : List ℕ) (t : ℕ)
    → Chain next p (xs ++ (t ∷ []))
    → length (xs ++ (t ∷ [])) ≤ links
    → (p ≢ 0) × (last_from links next p ≡ some t)
unfolding Chain last
last-found links next p [] t (e, ne, c) room =
    (λ z. ne (sym e ∙ z), last_from_lem links next p t [] room (e, ne, c))
last-found links next p (x ∷ xs) t (e, ne, c) room = (
  λ z. ne (sym e ∙ z),
  last_from_lem links next p x (xs ++ (t ∷ [])) room (e, ne, c) ∙ ap some (last-append x t xs),
)

-- What a second execution of a queued thread leaves: no search of another thread ends.
pub record Endless (s : Sched) (xs : List ℕ) (t : ℕ) (s' : Sched) : Type 0 where
  pub self : s'.queue.next t ≡ t
  pub hangs :
      (n u : ℕ)
      → u ≢ 0
      → is_terminated (s.queue.state u) ≡ false
      → member u (xs ++ (t ∷ [])) ≡ false
      → add_to_ready_queue n s'.queue u ≡ none

Lasso-Endless :
    (s : Sched) (xs : List ℕ) (t : ℕ)
    → t ≢ 0
    → Lasso (link s.queue.next t t) s.queue.ready_queue xs t
    → Endless s xs t (record s { queue = record s.queue { next = link s.queue.next t t } })
unfolding add_to_ready_queue
Lasso-Endless s xs t ne l = record {
  self = rw ((==_iff t t).1 refl) refl;
  hangs = λ n u some_thread alive out.
      let (apart, rest) = member-last u t xs out in
      let search =
        is_queued-endless n (link s.queue.next t t) s.queue.ready_queue xs t u l ne apart rest in
      rw (==-ne u 0 some_thread, alive, search, add_to_ready_queue) refl;
}

Chain-last : (next : ℕ → ℕ) (p : ℕ) (xs : List ℕ) (t : ℕ) → Chain next p (xs ++ (t ∷ [])) → t ≢ 0
unfolding Chain
Chain-last next p [] t (e, ne, c) = ne
Chain-last next p (x ∷ xs) t (e, ne, c) = Chain-last next (next x) xs t c

-- `thread_execute` of a ready thread that is the last of the queue already reports success, but links
-- the thread to itself: from then on `add_to_ready_queue` of any thread that is alive and not in the
-- queue runs out of any fuel.
pub thread_execute-Endless :
    (links t : ℕ) (s : Sched) (xs : List ℕ)
    → s.queue.state t ≡ thread_ready
    → IsQueue s.queue (xs ++ (t ∷ []))
    → length (xs ++ (t ∷ [])) ≤ links
    → (s' : Sched) × (thread_execute links t s ≡ some (pos 0, s')) × Endless s xs t s'
unfolding thread_execute enqueue
thread_execute-Endless links t s xs ready v room =
    let ne = Chain-last s.queue.next s.queue.ready_queue xs t v.chain in
    let (full, found) = last-found links s.queue.next s.queue.ready_queue xs t v.chain room in
    (
      record s { queue = record s.queue { next = link s.queue.next t t } },
      rw (==-ne t 0 ne, ready, ==-ne s.queue.ready_queue 0 full, found, enqueue, thread_execute)
          refl,
      Lasso-Endless s xs t ne
          (Chain-Lasso s.queue.next s.queue.ready_queue xs t v.chain v.distinct),
    )
