-- ===== src/Scheduler.antt =====
-- scheduler_tick of os/kernel/threading/schedular.c over the ready queue. Threads are named by their
-- addresses, 0 being the null pointer; their states and links stand in the queue. A cooldown is an
-- `int` that is only compared with 0 and counted down above it, so that one below 0 counts as 0.
pub mod Rotation
pub mod Round
pub mod Picks
pub mod Tick
mod Tests
use vsnx_os.Base.{
  ℕ, zero, suc, ◌+◌, ◌-◌, ◌%◌, Bool, true, false, not, ◌&&◌, ◌||◌, leb, ◌==◌, if◌then◌else◌, Option,
  none, some, bit_or, u32_mod, u64_mod,
}
use vsnx_os.Queue.{
  Queue, ThreadState, thread_ready, thread_running, thread_blocked, thread_terminated,
  is_terminated, link, set_state, add_to_ready_queue, remove_from_ready_queue,
}

-- `interrupt_frame_t`; `general` are its first fifteen registers, r15 to rax.
pub record Frame : Type 0 where
  pub general : ℕ → ℕ
  pub int_no : ℕ
  pub err_code : ℕ
  pub rip : ℕ
  pub cs : ℕ
  pub rflags : ℕ
  pub rsp : ℕ
  pub ss : ℕ

pub data Priority : Type 0 where
  low background normal high ultra immediates : Priority

-- `thread_t` but for its state and its link; `ring3` is the privilege.
pub record Thread : Type 0 where
  pub tid : ℕ
  pub owner_pid : ℕ
  pub ring3 : Bool
  pub priority : Priority
  pub context : Frame
  pub stack_base : ℕ
  pub stack_size : ℕ
  pub kernel_stack : ℕ
  pub cooldown : ℕ

-- The globals of threading.c and schedular.c, the threads, and `tss.rsp0`.
pub record Sched : Type 0 where
  pub queue : Queue
  pub thread : ℕ → Thread
  pub thread_table : ℕ → ℕ
  pub current_thread : ℕ
  pub next_tid : ℕ
  pub thread_count : ℕ
  pub scheduler_counter : ℕ
  pub rsp0 : ℕ

abbrev pub max_threads : ℕ
max_threads = 256

abbrev pub set_thread : (ℕ → Thread) → ℕ → Thread → ℕ → Thread
set_thread thread t x u = if u == t then x else thread u

-- The first thread is taken off the queue.
abbrev pub take_first : Queue → Queue
take_first q = record q { ready_queue = q.next q.ready_queue; next = link q.next q.ready_queue 0 }

abbrev pub first_or : ℕ → Queue → ℕ
first_or next_thread q = if q.ready_queue == 0 then next_thread else q.ready_queue

abbrev pub without_first : Queue → Queue
without_first q = if q.ready_queue == 0 then q else take_first q

abbrev pub is_ready : ThreadState → Bool
is_ready thread_ready = true
is_ready _ = false

-- The loop over the table, `left` slots from the i-th on; 0 where no thread is ready.
unfoldable pub find_ready : (left i : ℕ) (thread_table : ℕ → ℕ) (state : ℕ → ThreadState) → ℕ
find_ready zero i thread_table state = 0
find_ready (suc left) i thread_table state =
    let rest = find_ready left (i + 1) thread_table state in
    if not (thread_table i == 0) && is_ready (state (thread_table i)) then thread_table i else rest

abbrev pub kernel_thread : (thread_table : ℕ → ℕ) (state : ℕ → ThreadState) → ℕ
kernel_thread thread_table state =
    if not (thread_table 0 == 0) && not (is_terminated (state (thread_table 0)))
    then thread_table 0
    else 0

-- The thread that was taken, else a ready one of the table, else the kernel's.
unfoldable pub candidate : (next_thread : ℕ) (thread_table : ℕ → ℕ) (state : ℕ → ThreadState) → ℕ
candidate next_thread thread_table state =
    if not (next_thread == 0)
    then next_thread
    else if not (find_ready 255 1 thread_table state == 0)
    then find_ready 255 1 thread_table state
    else kernel_thread thread_table state

abbrev pub cannot_run : ThreadState → Bool
cannot_run thread_blocked = true
cannot_run thread_terminated = true
cannot_run _ = false

abbrev pub stride : Priority → ℕ
stride ultra = 2
stride normal = 4
stride low = 16
stride background = 64
stride _ = 1

abbrev pub set_cooldown : Sched → (t cooldown : ℕ) → Sched
set_cooldown s t cooldown = record s {
  thread = set_thread s.thread t (record (s.thread t) { cooldown = cooldown });
}

-- `t` becomes the running thread.
abbrev pub start_thread : Sched → ℕ → Sched
start_thread s t = record s {
  thread =
      set_thread s.thread t (record (s.thread t) { cooldown = stride (s.thread t).priority - 1 });
  current_thread = t;
  queue = record s.queue { state = set_state s.queue.state t thread_running };
}

-- The context of a user thread cannot be restored without its two stacks.
abbrev pub no_context : Thread → Bool
no_context x = x.ring3 && (x.kernel_stack == 0 || x.context.rsp == 0)

abbrev pub set_rsp0 : Sched → Thread → Sched
set_rsp0 s x =
    if x.ring3 && not (x.kernel_stack == 0)
    then record s { rsp0 = (x.kernel_stack + 8192 - 8) % u64_mod }
    else s

abbrev pub restored : Frame → Thread → Frame
restored frame x =
    if x.ring3
    then record x.context {
      int_no = frame.int_no;
      err_code = frame.err_code;
      cs = 27;
      rflags = bit_or (x.context.rflags) 512;
      ss = 35;
    }
    else x.context

abbrev pub end_thread : Sched → ℕ → Sched
end_thread s t = record s {
  queue = record s.queue { state = set_state s.queue.state t thread_terminated };
}

abbrev pub with_queue : Sched → Option Queue → Option Sched
with_queue s none = none
with_queue s (some q) = some (record s { queue = q })

-- What becomes of the thread that was found; `again` is the jump to `select_again`, and `links` the
-- fuel of the loops over the queue.
unfoldable pub dispatch :
    (again : (next_thread : ℕ) → Sched → Option (Frame × Sched))
    → (links : ℕ) → Frame
    → (t : ℕ) → Sched
    → Option (Frame × Sched)
dispatch again links frame t s = elim (t == 0) [
  | true ↦ some (frame, s)
  | false ↦ elim (cannot_run (s.queue.state t)) [
    | true ↦ elim (with_queue s (remove_from_ready_queue links s.queue t)) [
      | none ↦ none
      | some s' ↦ again 0 s'
    ]
    | false ↦ elim ((s.thread t).cooldown) [
      | suc c ↦ elim (add_to_ready_queue links s.queue t) [
        | none ↦ none
        | some q ↦ again 0 (set_cooldown (record s { queue = q }) t c)
      ]
      | zero ↦ elim (no_context (s.thread t)) [
        | true ↦ again t (end_thread (set_rsp0 (start_thread s t) (s.thread t)) t)
        | false ↦ some (restored frame (s.thread t), set_rsp0 (start_thread s t) (s.thread t))
      ]
    ]
  ]
]

-- From the label `select_again` on.
unfoldable pub select :
    (rounds links : ℕ) → Frame → (next_thread : ℕ) → Sched → Option (Frame × Sched)
select zero links frame next_thread s = none
select (suc n) links frame next_thread s =
    dispatch (select n links frame) links frame
      (candidate (first_or next_thread s.queue) s.thread_table s.queue.state)
      (record s { queue = without_first s.queue })

-- The running thread goes back to the queue as a ready one, or off it where it is at its end.
unfoldable pub put_back : (links : ℕ) → Sched → ThreadState → Option Sched
put_back links s thread_terminated =
    with_queue (record s { current_thread = 0 })
      (remove_from_ready_queue links s.queue s.current_thread)
put_back links s thread_blocked =
    with_queue (record s { current_thread = 0 })
      (remove_from_ready_queue links s.queue s.current_thread)
put_back links s _ = with_queue s (
    add_to_ready_queue links
      (record s.queue { state = set_state s.queue.state s.current_thread thread_ready })
      s.current_thread)

abbrev pub save_context : Sched → Frame → Sched
save_context s frame = record s {
  thread =
      set_thread s.thread s.current_thread (record (s.thread s.current_thread) { context = frame });
}

-- For a frame that is not null.
unfoldable pub scheduler_tick : (rounds links : ℕ) → Frame → Sched → Option (Frame × Sched)
scheduler_tick rounds links frame s =
    let s1 = record s { scheduler_counter = (s.scheduler_counter + 1) % u32_mod } in
    if s.current_thread == 0
    then select rounds links frame 0 s1
    else elim (put_back links (save_context s1 frame) (s.queue.state s.current_thread)) [
      | none ↦ none
      | some s2 ↦ select rounds links frame 0 s2
    ]
