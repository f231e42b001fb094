-- ===== src/Threads.antt =====
-- Creating, ending, blocking and looking up threads: os/kernel/threading/threading.c over the
-- scheduler's state. What kmalloc and umalloc return are arguments, 0 being the null pointer; a slot of
-- the table holds a thread's address or 0. Memory that is given back is listed.
pub mod Cycle
mod Tests
use vsnx_os.Base.{
  ℕ, zero, suc, ◌+◌, ◌-◌, ◌%◌, Bool, true, false, not, ◌&&◌, ◌||◌, ltb, leb, ◌==◌, if◌then◌else◌,
  Option, none, some, List, [], ◌∷◌, ◌++◌, ℤ, pos, negsuc, add64, u32_mod, add32, sub32,
}
use vsnx_os.Queue.{
  Queue, ThreadState, thread_ready, thread_running, thread_blocked, thread_terminated, link,
  set_state, last_from, remove_from_ready_queue,
}
use vsnx_os.Scheduler.{
  Frame, Thread, Sched, Priority, immediates, set_thread, is_ready, max_threads, with_queue,
}

pub data Freed : Type 0 where
  kernel_memory user_memory : ℕ → Freed

-- `thread->state = state`
abbrev pub with_state : Sched → ℕ → ThreadState → Sched
with_state s t state = record s {
  queue = record s.queue { state = set_state s.queue.state t state };
}

abbrev pub set_slot : (ℕ → ℕ) → ℕ → ℕ → ℕ → ℕ
set_slot thread_table i t j = if j == i then t else thread_table j

-- `kernel_thread` is what kmalloc returns, which is not looked at.
pub threading_init : (kernel_thread : ℕ) → Sched → Sched
threading_init kernel_thread s = record s {
  queue = record s.queue {
    next = link s.queue.next kernel_thread 0;
    state = set_state s.queue.state kernel_thread thread_running;
  };
  thread =
      set_thread s.thread kernel_thread
        (record (s.thread kernel_thread) { tid = 0; ring3 = false; priority = immediates });
  thread_table =
      λ i. if i == 0 then kernel_thread else if ltb i max_threads then 0 else s.thread_table i;
  current_thread = kernel_thread;
  thread_count = 1;
}

-- The first free slot, of `left` slots from the i-th on, takes the thread.
unfoldable pub fill_slot : (left i : ℕ) (thread_table : ℕ → ℕ) (t : ℕ) → ℕ → ℕ
fill_slot zero i thread_table t = thread_table
fill_slot (suc left) i thread_table t = elim (thread_table i == 0) [
  | true ↦ set_slot thread_table i t
  | false ↦ fill_slot left (i + 1) thread_table t
]

abbrev pub first_context : Frame → (func arg stack_base : ℕ) (ring3 : Bool) → Frame
first_context c func arg stack_base ring3 = record c {
  rsp = add64 stack_base 16376;
  rip = func;
  general = λ i. if i == 9 then arg else c.general i;
  rflags = 514;
  cs = if ring3 then 27 else 8;
  ss = if ring3 then 35 else 16;
}

-- The fields of a new thread; its cooldown stays what the memory holds.
pub new_thread :
    Thread
    → (tid func arg : ℕ) → (ring3 : Bool) → Priority
    → (owner_pid stack_base kernel_stack : ℕ) → Thread
new_thread x tid func arg ring3 priority owner_pid stack_base kernel_stack = record x {
  tid = tid;
  owner_pid = owner_pid;
  ring3 = ring3;
  priority = priority;
  context = first_context x.context func arg stack_base ring3;
  stack_base = stack_base;
  stack_size = 16384;
  kernel_stack = if ring3 then kernel_stack else 0;
}

-- `umalloc` or `kmalloc` of the stack, and `kmalloc` of a user thread's kernel stack.
abbrev pub no_stacks : (ring3 : Bool) (stack_base kernel_stack : ℕ) → Bool
no_stacks ring3 stack_base kernel_stack = stack_base == 0 || (ring3 && kernel_stack == 0)

abbrev pub free_unless_null : (ℕ → Freed) → ℕ → List Freed
free_unless_null free p = if p == 0 then [] else free p ∷ []

abbrev pub free_stacks : (ring3 : Bool) (stack_base kernel_stack : ℕ) → List Freed
free_stacks ring3 stack_base kernel_stack =
    if ring3
    then free_unless_null user_memory stack_base ++ free_unless_null kernel_memory kernel_stack
    else []

pub thread_create :
    (thread stack_base kernel_stack : ℕ)
    → (func arg : ℕ) → (ring3 : Bool) → Priority
    → (owner_pid : ℕ) → Sched
    → ℕ × Sched × List Freed
thread_create thread stack_base kernel_stack func arg ring3 priority owner_pid s =
    if leb max_threads s.thread_count
    then (0, s, [])
    else if thread == 0
    then (0, s, [])
    else if no_stacks ring3 stack_base kernel_stack
    then (0, s, free_stacks ring3 stack_base kernel_stack ++ (kernel_memory thread ∷ []))
    else (
      thread,
      record s {
        next_tid = add32 s.next_tid 1;
        thread = set_thread s.thread thread (
            new_thread (s.thread thread) s.next_tid func arg ring3 priority owner_pid stack_base
              kernel_stack);
        queue = record s.queue {
          next = link s.queue.next thread 0;
          state = set_state s.queue.state thread thread_ready;
        };
        thread_table = fill_slot 255 1 s.thread_table thread;
        thread_count = add32 s.thread_count 1;
      },
      [],
    )

-- The thread is linked behind the last of the queue; its own link stays.
unfoldable pub enqueue : (links : ℕ) → Queue → ℕ → Option Queue
enqueue links q t =
    if q.ready_queue == 0
    then some (record q { ready_queue = t })
    else elim (last_from links q.next q.ready_queue) [
      | none ↦ none
      | some last ↦ some (record q { next = link q.next last t })
    ]

unfoldable pub thread_execute : (links : ℕ) → (thread : ℕ) → Sched → Option (ℤ × Sched)
thread_execute links thread s =
    if thread == 0 || not (is_ready (s.queue.state thread))
    then some (negsuc 0, s)
    else elim (with_queue s (enqueue links s.queue thread)) [
      | none ↦ none
      | some s' ↦ some (pos 0, s')
    ]

pub gettid : Sched → ℕ
gettid s = if s.current_thread == 0 then 0 else (s.thread s.current_thread).tid

pub getpid : Sched → ℕ
getpid s = if s.current_thread == 0 then 0 else (s.thread s.current_thread).owner_pid

-- The loop over the table, `left` slots from the i-th on; 0 where no slot has the thread.
unfoldable pub find_tid : (left i tid : ℕ) → Sched → ℕ
find_tid zero i tid s = 0
find_tid (suc left) i tid s =
    let rest = find_tid left (i + 1) tid s in
    if not (s.thread_table i == 0) && (s.thread (s.thread_table i)).tid == tid
    then s.thread_table i
    else rest

unfoldable pub thread_get_by_tid : (tid : ℕ) → Sched → ℕ
thread_get_by_tid tid s = find_tid max_threads 0 tid s

pub thread_exists : (tid : ℕ) → Sched → Bool
thread_exists tid s = not (thread_get_by_tid tid s == 0)

-- `none` for the result -1.
unfoldable pub thread_get_state : (tid : ℕ) → Sched → Option ThreadState
thread_get_state tid s =
    if thread_get_by_tid tid s == 0 then none else some (s.queue.state (thread_get_by_tid tid s))

abbrev pub drop_stacks : Thread → Thread
drop_stacks x =
    if x.ring3 then record x { stack_base = 0; kernel_stack = 0 } else record x { stack_base = 0 }

abbrev pub stacks_of : Thread → List Freed
stacks_of x =
    if x.ring3
    then free_unless_null user_memory x.stack_base ++ free_unless_null kernel_memory x.kernel_stack
    else free_unless_null kernel_memory x.stack_base

-- The end of `clean_up`, behind the interrupt that calls the scheduler.
unfoldable pub clean_rest : (links : ℕ) (thread : ℕ) → Sched → Option (Sched × List Freed)
clean_rest links thread s = elim (with_queue s (remove_from_ready_queue links s.queue thread)) [
  | none ↦ none
  | some s' ↦ some (
    with_state
        (record s' {
          thread = set_thread s'.thread thread (drop_stacks (s'.thread thread));
          thread_count = sub32 s'.thread_count 1;
        })
        thread thread_terminated,
    stacks_of (s.thread thread),
  )
]

-- `switch` is the state in which the caller runs again after the scheduler was called; `none` where it
-- never does.
module _ (switch : Sched → Option Sched) where
  unfoldable pub clean_up : (links : ℕ) (thread : ℕ) → Sched → Option (Sched × List Freed)
  clean_up links thread s =
      if thread == 0
      then some (s, [])
      else elim (with_queue s (remove_from_ready_queue links s.queue thread)) [
        | none ↦ none
        | some s' ↦ elim (switch s') [ none ↦ none | some s'' ↦ clean_rest links thread s'' ]
      ]

  -- Declared not to return, as `clean_up` is: the state is the one that it has then.
  pub thread_exit : (links : ℕ) → Sched → Option (Sched × List Freed)
  thread_exit links s =
      let t = s.current_thread in
      if t == 0
      then some (s, [])
      else if (s.thread t).tid == 0
      then some (s, [])
      else (let ended = with_state s t thread_terminated in
          elim (with_queue ended (remove_from_ready_queue links ended.queue t)) [
            | none ↦ none
            | some s' ↦ clean_up links t (record s' { thread_count = sub32 s'.thread_count 1 })
          ])

  -- `clean_up` is declared not to return: what stands behind its call, the `kfree` of the thread and
  -- the result 0, is not reached. Where it comes back, which is undefined, there is no result.
  abbrev pub no_result : Option (Sched × List Freed) → Option (Option ℤ × Sched × List Freed)
  no_result none = none
  no_result (some (s, freed)) = some (none, s, freed)

  unfoldable pub thread_terminate :
      (links : ℕ) (tid : ℕ) → Sched → Option (Option ℤ × Sched × List Freed)
  thread_terminate links tid s =
      let target = find_tid 255 1 tid s in
      if tid == 0
      then some (some (negsuc 0), s, [])
      else if target == 0
      then some (some (negsuc 1), s, [])
      else no_result (
          clean_up links target
            (if target == s.current_thread then with_state s target thread_terminated else s))

  -- `none` where a loop or the switch does not come back; the result is not set where it does. The
  -- function is declared not to return, so that what a caller finds then is undefined.
  pub thread_block : (links : ℕ) → Sched → Option (Option ℤ × Sched)
  thread_block links s =
      let t = s.current_thread in
      if t == 0
      then some (some (negsuc 0), s)
      else if (s.thread t).tid == 0
      then some (some (negsuc 0), s)
      else (let blocked = with_state s t thread_blocked in
          elim (with_queue blocked (remove_from_ready_queue links blocked.queue t)) [
            | none ↦ none
            | some s' ↦ elim (switch s') [ none ↦ none | some s'' ↦ some (none, s'') ]
          ])

abbrev pub is_blocked : ThreadState → Bool
is_blocked thread_blocked = true
is_blocked _ = false

-- Behind the last of the queue, with its own link cleared.
abbrev pub enqueue_last : (links : ℕ) → Queue → ℕ → Option Queue
enqueue_last links q t = elim (enqueue links q t) [
  | none ↦ none
  | some q' ↦ some (record q' { next = link q'.next t 0 })
]

pub thread_unblock : (links : ℕ) (tid : ℕ) → Sched → Option (ℤ × Sched)
thread_unblock links tid s =
    let t = thread_get_by_tid tid s in
    if t == 0
    then some (negsuc 0, s)
    else if not (is_blocked (s.queue.state t))
    then some (negsuc 1, s)
    else elim (with_queue s (enqueue_last links (with_state s t thread_ready).queue t)) [
      | none ↦ none
      | some s' ↦ some (pos 0, s')
    ]
