-- ===== src/Queue/Add.antt =====
-- add_to_ready_queue of os/kernel/threading/schedular.c against a list of threads.
use vsnx_os.Base.{
  ℕ, ◌<◌, ◌≡◌, refl, ◌≢◌, Bool, true, false, not, ◌&&◌, ◌||◌, arith, ◌==◌, if◌then◌else◌, some,
  List, [], ◌∷◌, ◌++◌, length, Bool-cases, inl, inr, ==_iff, ==-ne, ap, sym, ◌∙◌,
}
use vsnx_os.Queue.{
  Queue, thread_ready, is_terminated, link, set_state, last_from, append_thread, add_to_ready_queue,
}
use vsnx_os.Queue.Chain.{
  Chain, member, Distinct, last, member-cons, Chain-link, is_queued_lem, last_from_lem,
  Chain-append,
}
use vsnx_os.Queue.Order.{IsQueue, Chain-first, Chain-none}

member-append :
    (s t : ℕ) (xs : List ℕ) → s ≢ t → member s xs ≡ false → member s (xs ++ (t ∷ [])) ≡ false
unfolding member
member-append s t [] apart out = ground (arith, ==-ne s t apart)
member-append s t (x ∷ xs) apart out =
    let (now, later) = member-cons s x xs out in
    ground (arith, ==-ne s x now, member-append s t xs apart later)

pub Distinct-append :
    (t : ℕ) (xs : List ℕ) → member t xs ≡ false → Distinct xs → Distinct (xs ++ (t ∷ []))
unfolding Distinct member
Distinct-append t [] out d = (refl, tt)
Distinct-append t (x ∷ xs) out (d, ds) =
    let (apart, later) = member-cons t x xs out in
    (member-append x t xs (λ h. apart (sym h)) d, Distinct-append t xs later ds)

-- Whether `add_to_ready_queue` does anything.
abbrev pub enters : Queue → ℕ → List ℕ → Bool
enters q t xs = not (t == 0 || is_terminated (q.state t)) && not (member t xs)

-- What adding a thread comes to.
pub record Added (q : Queue) (t : ℕ) (xs : List ℕ) (q' : Queue) : Type 0 where
  pub queue : IsQueue q' (if enters q t xs then xs ++ (t ∷ []) else xs)
  pub states : (s : ℕ) → q'.state s ≡ (if enters q t xs && s == t then thread_ready else q.state s)

append_empty :
    (fuel : ℕ) (q : Queue) (t : ℕ)
    → q.ready_queue ≡ 0
    → append_thread fuel q t
      ≡ some (record {
        ready_queue = t;
        next = link q.next t 0;
        state = set_state q.state t thread_ready;
      })
unfolding append_thread
append_empty fuel q t e = rw ((==_iff q.ready_queue 0).1 e, append_thread) refl

append_last :
    (fuel : ℕ) (q : Queue) (t l : ℕ)
    → q.ready_queue ≢ 0
    → last_from fuel (link q.next t 0) q.ready_queue ≡ some l
    → append_thread fuel q t
      ≡ some (record {
        ready_queue = q.ready_queue;
        next = link (link q.next t 0) l t;
        state = set_state q.state t thread_ready;
      })
unfolding append_thread
append_last fuel q t l ne e = rw (==-ne q.ready_queue 0 ne, e, append_thread) refl

Chain-single : (next : ℕ → ℕ) (t : ℕ) → t ≢ 0 → Chain (link next t 0) t (t ∷ [])
unfolding Chain
Chain-single next t ne = (refl, ne, ground arith)

append_thread_lem :
    (fuel : ℕ) (q : Queue) (t : ℕ) (xs : List ℕ)
    → length xs < fuel
    → t ≢ 0
    → member t xs ≡ false
    → IsQueue q xs
    → (q' : Queue) × (append_thread fuel q t ≡ some q')
      × IsQueue q' (xs ++ (t ∷ []))
      × (q'.state ≡ set_state q.state t thread_ready)
append_thread_lem fuel q t [] room there out v = (
  record { ready_queue = t; next = link q.next t 0; state = set_state q.state t thread_ready },
  append_empty fuel q t (Chain-none q.next q.ready_queue v.chain),
  record { chain = Chain-single q.next t there; distinct = Distinct-append t [] out v.distinct },
  refl,
)
append_thread_lem fuel q t (x ∷ xs) room there out v =
    let (first, ne) = Chain-first q.next q.ready_queue x xs v.chain in
    let c = Chain-link q.next t 0 q.ready_queue (x ∷ xs) out v.chain in
    (
      record {
        ready_queue = q.ready_queue;
        next = link (link q.next t 0) (last x xs) t;
        state = set_state q.state t thread_ready;
      },
      append_last fuel q t (last x xs) ne
          (last_from_lem fuel (link q.next t 0) q.ready_queue x xs (omega arith) c),
      record {
        chain =
            Chain-append (link q.next t 0) t q.ready_queue x xs there (ground arith) out v.distinct
              c;
        distinct = Distinct-append t (x ∷ xs) out v.distinct;
      },
      refl,
    )

module _ (fuel : ℕ) (q : Queue) (t : ℕ) (xs : List ℕ) (room : length xs < fuel)
    (v : IsQueue q xs) where
  add_ignored :
      (t == 0 || is_terminated (q.state t)) ≡ true
      → (q' : Queue) × (add_to_ready_queue fuel q t ≡ some q') × Added q t xs q'
  unfolding add_to_ready_queue
  add_ignored h =
      (q, rw (h, add_to_ready_queue) refl, record { queue = rw h v; states = λ s. rw h refl })

  add_again :
      (t == 0 || is_terminated (q.state t)) ≡ false
      → member t xs ≡ true
      → (q' : Queue) × (add_to_ready_queue fuel q t ≡ some q') × Added q t xs q'
  unfolding add_to_ready_queue
  add_again h m =
      let there : t ≢ 0 = λ e. ground (arith, (==_iff t 0).1 e) in
      let looked = is_queued_lem fuel q.next t q.ready_queue xs there room v.chain ∙ ap some m in
      (
        q,
        rw (h, looked, add_to_ready_queue) refl,
        record { queue = rw (h, m) v; states = λ s. rw (h, m) refl },
      )

  add_new :
      (t == 0 || is_terminated (q.state t)) ≡ false
      → member t xs ≡ false
      → (q' : Queue) × (add_to_ready_queue fuel q t ≡ some q') × Added q t xs q'
  unfolding add_to_ready_queue
  add_new h m =
      let there : t ≢ 0 = λ e. ground (arith, (==_iff t 0).1 e) in
      let looked = is_queued_lem fuel q.next t q.ready_queue xs there room v.chain ∙ ap some m in
      let (q', run, w, states) = append_thread_lem fuel q t xs room there m v in
      (
        q',
        rw (h, looked, add_to_ready_queue) run,
        record { queue = rw (h, m) w; states = λ s. rw (h, m) (ap (λ f. f s) states) },
      )

  -- With more fuel than the queue has threads, `add_to_ready_queue` ends. A thread that is not null,
  -- not terminated and not queued comes last in the queue and is ready; any other changes nothing.
  pub add_lem : (q' : Queue) × (add_to_ready_queue fuel q t ≡ some q') × Added q t xs q'
  add_lem = elim (Bool-cases (t == 0 || is_terminated (q.state t))) [
    | inl skip ↦ add_ignored skip
    | inr go ↦ elim (Bool-cases (member t xs)) [ inl m ↦ add_again go m | inr m ↦ add_new go m ]
  ]
