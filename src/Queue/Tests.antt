-- ===== src/Queue/Tests.antt =====
-- A queue of two threads, at 16 and 32, and the theorems of os/kernel/threading/schedular.c at it.
use vsnx_os.Base.{◌≡◌, refl, arith, ◌==◌, if◌then◌else◌, some, [], ◌∷◌}
use vsnx_os.Queue.{Queue, thread_ready, thread_running, add_to_ready_queue}
use vsnx_os.Queue.Chain.{Chain, Distinct, member}
use vsnx_os.Queue.Order.{IsQueue}
use vsnx_os.Queue.Add.{Added, add_lem}
use vsnx_os.Queue.Remove.{Removed, remove_lem}

abbrev two : Queue
two = record {
  ready_queue = 16;
  next = λ t. if t == 16 then 32 else 0;
  state = λ t. if t == 48 then thread_running else thread_ready;
}

two-IsQueue : IsQueue two (16 ∷ 32 ∷ [])
unfolding Chain Distinct member
two-IsQueue = record {
  chain = (refl, (λ e. omega (arith, e)), (refl, (λ e. omega (arith, e)), refl));
  distinct = (refl, (refl, tt));
}

add_lem_example :
    (q : Queue) × (add_to_ready_queue 3 two 48 ≡ some q) × Added two 48 (16 ∷ 32 ∷ []) q
add_lem_example = add_lem 3 two 48 (16 ∷ 32 ∷ []) (omega arith) two-IsQueue

remove_lem_example : Removed 2 two 32 (16 ∷ 32 ∷ [])
remove_lem_example = remove_lem 2 two 32 (16 ∷ 32 ∷ []) (omega arith) two-IsQueue
