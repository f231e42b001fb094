-- ===== src/Scheduler/Tests.antt =====
-- A timer interrupt of the thread at 16 with threads at 32 and 48 in the queue, and the theorems of
-- os/kernel/threading/schedular.c at it.
use vsnx_os.Base.{ℕ, refl, false, ◌==◌, if◌then◌else◌, arith, [], ◌∷◌}
use vsnx_os.Queue.{thread_ready, thread_running}
use vsnx_os.Queue.Chain.{Chain, Distinct, member}
use vsnx_os.Scheduler.{Frame, Thread, Sched, normal, ultra, save_context, scheduler_tick}
use vsnx_os.Scheduler.Round.{Scheduled}
use vsnx_os.Scheduler.Tick.{Interrupted, Fair, scheduler_tick-Scheduled, scheduler_tick-Fair}

abbrev frame : Frame
frame = record {
  general = λ i. i;
  int_no = 32;
  err_code = 0;
  rip = 4096;
  cs = 8;
  rflags = 514;
  rsp = 8192;
  ss = 16;
}

abbrev threads : ℕ → Thread
threads t = record {
  tid = t;
  owner_pid = 1;
  ring3 = false;
  priority = if t == 32 then normal else ultra;
  context = frame;
  stack_base = 65536;
  stack_size = 16384;
  kernel_stack = 0;
  cooldown = if t == 32 then 3 else 1;
}

abbrev state : Sched
state = record {
  queue = record {
    ready_queue = 32;
    next = λ t. if t == 32 then 48 else 0;
    state = λ t. if t == 16 then thread_running else thread_ready;
  };
  thread = threads;
  thread_table = λ i. 0;
  current_thread = 16;
  next_tid = 4;
  thread_count = 4;
  scheduler_counter = 0;
  rsp0 = 0;
}

state-Interrupted : Interrupted 3 frame state (32 ∷ 48 ∷ [])
unfolding Chain Distinct member
state-Interrupted = record {
  queue = record {
    chain = (refl, (λ e. omega (arith, e)), (refl, (λ e. omega (arith, e)), refl));
    distinct = (refl, (refl, tt));
  };
  some_thread = λ e. omega (arith, e);
  apart = refl;
  runs = refl;
  all_run = (refl, refl, (refl, refl, (refl, refl, tt)));
  room = omega arith;
}

scheduler_tick-Scheduled_example :
    Scheduled frame (save_context state frame) (32 ∷ 48 ∷ 16 ∷ []) (scheduler_tick 6 3 frame state)
scheduler_tick-Scheduled_example =
    scheduler_tick-Scheduled 6 3 frame state (32 ∷ 48 ∷ []) state-Interrupted (omega arith)

scheduler_tick-Fair_example :
    Fair (save_context state frame) (32 ∷ 48 ∷ 16 ∷ []) (scheduler_tick 6 3 frame state)
scheduler_tick-Fair_example =
    scheduler_tick-Fair 6 3 frame state (32 ∷ 48 ∷ []) state-Interrupted (omega arith)
