-- ===== src/Queue.antt =====
-- The ready queue of os/kernel/threading/schedular.c: threads linked by their `next` fields. A
-- thread is named by its address, 0 being the null pointer, and the queue is the part of the threads'
-- records that these functions touch: `next` and `state` of each thread, and the global `ready_queue`.
-- The loops follow pointers: they run on fuel, and `none` says that it ran out.
pub mod Chain
pub mod Order
pub mod Add
pub mod Remove
mod Tests
use vsnx_os.Base.{ℕ, zero, suc, Bool, true, false, ◌||◌, ◌==◌, if◌then◌else◌, Option, none, some}

-- `thread_state_t`
pub data ThreadState : Type 0 where
  thread_ready thread_running thread_blocked thread_terminated : ThreadState

abbrev pub is_terminated : ThreadState → Bool
is_terminated thread_terminated = true
is_terminated _ = false

pub record Queue : Type 0 where
  pub ready_queue : ℕ
  pub next : ℕ → ℕ
  pub state : ℕ → ThreadState

-- `thread->next = v`
abbrev pub link : (ℕ → ℕ) → ℕ → ℕ → ℕ → ℕ
link next thread v t = if t == thread then v else next t

abbrev pub set_state : (ℕ → ThreadState) → ℕ → ThreadState → ℕ → ThreadState
set_state state thread v t = if t == thread then v else state t

-- The loop that looks whether the thread is queued already.
unfoldable pub is_queued : (fuel : ℕ) (next : ℕ → ℕ) (check thread : ℕ) → Option Bool
is_queued zero next check thread = none
is_queued (suc n) next check thread =
    let rest = is_queued n next (next check) thread in
    if check == 0 then some false else if check == thread then some true else rest

-- The loop to the last thread.
pub last_from : (fuel : ℕ) (next : ℕ → ℕ) (last : ℕ) → Option ℕ
last_from zero next last = none
last_from (suc n) next last =
    let rest = last_from n next (next last) in if next last == 0 then some last else rest

-- The end of `add_to_ready_queue`, for a thread that is not queued.
pub append_thread : (fuel : ℕ) → Queue → ℕ → Option Queue
append_thread fuel q thread =
    let next = link q.next thread 0 in
    let state = set_state q.state thread thread_ready in
    if q.ready_queue == 0
    then some (record { ready_queue = thread; next = next; state = state })
    else elim (last_from fuel next q.ready_queue) [
      | none ↦ none
      | some last ↦
          some (record { ready_queue = q.ready_queue; next = link next last thread; state = state })
    ]

unfoldable pub add_to_ready_queue : (fuel : ℕ) → Queue → ℕ → Option Queue
add_to_ready_queue fuel q thread =
    if thread == 0 || is_terminated (q.state thread)
    then some q
    else elim (is_queued fuel q.next q.ready_queue thread) [
      | none ↦ none
      | some true ↦ some q
      | some false ↦ append_thread fuel q thread
    ]

-- The loop of `remove_from_ready_queue`.
pub unlink : (fuel : ℕ) (next : ℕ → ℕ) (current target : ℕ) → Option (ℕ → ℕ)
unlink zero next current target = none
unlink (suc n) next current target =
    let rest = unlink n next (next current) target in
    if current == 0 || next current == 0
    then some next
    else if next current == target
    then some (link (link next current (next target)) target 0)
    else rest

pub remove_from_ready_queue : (fuel : ℕ) → Queue → ℕ → Option Queue
remove_from_ready_queue fuel q target =
    if target == 0 || q.ready_queue == 0
    then some q
    else if q.ready_queue == target
    then some (record q { ready_queue = q.next q.ready_queue; next = link q.next target 0 })
    else elim (unlink fuel q.next q.ready_queue target) [
      | none ↦ none
      | some next ↦ some (record q { next = next })
    ]
