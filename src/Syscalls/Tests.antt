-- ===== src/Syscalls/Tests.antt =====
-- System calls of a kernel without processes, and the theorems of os/kernel/syscalls/syscall.c at it.
use vsnx_os.Base.{◌≡◌, refl, false, true, if◌then◌else◌, ◌==◌, none, some, [], ◌∷◌, replicate, pos}
use vsnx_os.Queue.{thread_ready}
use vsnx_os.Threads.{thread_get_state, thread_get_by_tid, find_tid}
use vsnx_os.Scheduler.{Frame, Sched, normal}
use vsnx_os.Pmm.{PmmInfo}
use vsnx_os.Umalloc.{Heap, user_heap_start}
use vsnx_os.Syscalls.{World, Kernel, returns}
use vsnx_os.Syscalls.ThreadCalls.{get_state_handler}
use vsnx_os.Syscalls.Keeps.{Keeps}

abbrev no_frame : Frame
no_frame = record {
  general = λ i. 0;
  int_no = 0;
  err_code = 0;
  rip = 0;
  cs = 8;
  rflags = 514;
  rsp = 0;
  ss = 16;
}

abbrev idle : Sched
idle = record {
  queue = record { ready_queue = 0; next = λ t. 0; state = λ t. thread_ready };
  thread = λ t. record {
    tid = 0;
    owner_pid = 0;
    ring3 = false;
    priority = normal;
    context = no_frame;
    stack_base = 65536;
    stack_size = 16384;
    kernel_stack = 0;
    cooldown = 0;
  };
  thread_table = λ i. if i == 0 then 8 else 0;
  current_thread = 8;
  next_tid = 1;
  thread_count = 1;
  scheduler_counter = 0;
  rsp0 = 0;
}

abbrev pages : PmmInfo
pages = record {
  memory_start = 0x400000;
  memory_end = 0x410000;
  total_pages = 16;
  free_pages = 16;
  used_pages = 0;
  bitmap = λ _. 0;
  bitmap_size = 2;
  next_alloc_hint = 0;
}

abbrev heap : Heap
heap = record {
  free_list = [];
  next_addr = user_heap_start;
  total_allocated = 0;
  total_free = 0;
  machine = record { pmm = pages; word = λ _. 0; pml4 = 4096; total_tables = 0 };
}

abbrev kernel : Kernel
kernel = record {
  loader = record { calls = []; heap = heap; memory = λ a. 0 };
  procs = record {
    process_table = λ i. 0;
    process = λ p. record { pid = 0; entry_point = 0; main_thread = 0; ring3 = false; name = [] };
    next_pid = 1;
    sched = idle;
  };
  pipes = [];
}

abbrev world : World
world = record {
  mmap = record {
    total_memory = 65536;
    usable_memory = 65536;
    regions = record { base_addr = 0x400000; length = 65536; type = 1 } ∷ [];
  };
  fat = λ c mem. (pos 3, pos 0, mem);
  text = λ mem a. [];
  given = record { proc = 300; thread = 48; stack_base = 81920; kernel_stack = 90112 };
  switch = λ s. some s;
  files = record { opened = λ filename calls. none; got = λ fd count calls. (0, replicate 56 0) };
  hdr = λ i. 0;
  phdr = λ i. 0;
  pipe_memory = true;
  now = 5000;
  links = 10;
}

-- The state of a thread that does not exist is not -1 but the unsigned number of 32 bits.
no_state : get_state_handler world 77 kernel ≡ returns 4294967295 kernel
unfolding get_state_handler thread_get_state thread_get_by_tid find_tid
no_state = refl
