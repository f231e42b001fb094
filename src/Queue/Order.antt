-- ===== src/Queue/Order.antt =====
-- The ready queue of os/kernel/threading/schedular.c as a list of threads without duplicates.
use vsnx_os.Base.{ℕ, ◌≡◌, ◌≢◌, List, [], ◌∷◌, sym, ◌∙◌}
use vsnx_os.Queue.{Queue}
use vsnx_os.Queue.Chain.{Chain, Distinct}

-- The queue holds exactly these threads, in this order, each once.
pub record IsQueue (q : Queue) (xs : List ℕ) : Type 0 where
  pub chain : Chain q.next q.ready_queue xs
  pub distinct : Distinct xs

pub Chain-first : (next : ℕ → ℕ) (p x : ℕ) (xs : List ℕ) → Chain next p (x ∷ xs) → (p ≡ x) × (p ≢ 0)
unfolding Chain
Chain-first next p x xs (e, ne, c) = (e, λ h. ne (sym e ∙ h))

pub Chain-none : (next : ℕ → ℕ) (p : ℕ) → Chain next p [] → p ≡ 0
unfolding Chain
Chain-none next p c = c
