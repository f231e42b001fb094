-- ===== src/Threads/Tests.antt =====
-- A queue of the threads at 16 and 32, and the theorems of os/kernel/threading/threading.c at it.
use vsnx_os.Base.{◌≡◌, refl, false, ◌==◌, if◌then◌else◌, arith, some, [], ◌∷◌, pos}
use vsnx_os.Queue.{thread_ready}
use vsnx_os.Queue.Chain.{Chain, Distinct, member}
use vsnx_os.Queue.Order.{IsQueue}
use vsnx_os.Scheduler.{Frame, Sched, normal}
use vsnx_os.Threads.{thread_execute}
use vsnx_os.Threads.Cycle.{Endless, thread_execute-Endless}

abbrev no_frame : Frame
no_frame = record {
  general = λ i. 0;
  int_no = 0;
  err_code = 0;
  rip = 0;
  cs = 8;
  rflags = 514;
  rsp = 0;
  ss = 16;
}

abbrev two_threads : Sched
two_threads = record {
  queue = record {
    ready_queue = 16;
    next = λ t. if t == 16 then 32 else 0;
    state = λ t. thread_ready;
  };
  thread = λ t. record {
    tid = t;
    owner_pid = 1;
    ring3 = false;
    priority = normal;
    context = no_frame;
    stack_base = 65536;
    stack_size = 16384;
    kernel_stack = 0;
    cooldown = 0;
  };
  thread_table = λ i. if i == 1 then 16 else if i == 2 then 32 else 0;
  current_thread = 0;
  next_tid = 33;
  thread_count = 3;
  scheduler_counter = 0;
  rsp0 = 0;
}

two_threads-IsQueue : IsQueue (two_threads.queue) (16 ∷ 32 ∷ [])
unfolding Chain Distinct member
two_threads-IsQueue = record {
  chain = (refl, (λ e. omega (arith, e)), (refl, (λ e. omega (arith, e)), refl));
  distinct = (refl, (refl, tt));
}

thread_execute-Endless_example :
    (s : Sched) × (thread_execute 2 32 two_threads ≡ some (pos 0, s))
    × Endless two_threads (16 ∷ []) 32 s
thread_execute-Endless_example =
    thread_execute-Endless 2 32 two_threads (16 ∷ []) refl two_threads-IsQueue (omega arith)
