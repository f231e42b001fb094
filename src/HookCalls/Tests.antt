-- ===== src/HookCalls/Tests.antt =====
-- Hook calls on a table with one entry, and the theorems at them.
use vsnx_os.Base.{suc, ◌+◌, ◌%◌, ◌≢◌, ◌==◌, if◌then◌else◌, arith, [], ◌∷◌, pos}
use vsnx_os.Base.Bits.{test_bit}
use vsnx_os.Mmap.{Region}
use vsnx_os.Pmm.{PmmInfo, is_address_available, pmm_alloc_page, is_used}
use vsnx_os.HookCalls.{Hooks, Caller}
use vsnx_os.HookCalls.Registered.{Answers, registered-Answers}

abbrev region : Region
region = record { base_addr = 0x400000; length = 65536; type = 1 }

abbrev pages : PmmInfo
pages = record {
  memory_start = 0x400000;
  memory_end = 0x410000;
  total_pages = 16;
  free_pages = 0;
  used_pages = 1;
  bitmap = λ i. if i == 0 then 1 else 0;
  bitmap_size = 2;
  next_alloc_hint = 1;
}

-- A hook named "b" is there.
abbrev one : Hooks
one = record {
  hook_list = record { name = 98 ∷ []; func = 7 } ∷ [];
  machine = record { pmm = pages; word = λ a. 0; pml4 = 0x400000; total_tables = 0 };
  memory = λ a. a;
}

-- The string at an address is a letter that the word there says; a function returns its argument and
-- one more, and leaves its address in word 50.
abbrev caller : Caller
caller = record {
  mmap = record { total_memory = 65536; usable_memory = 65536; regions = region ∷ [] };
  text = λ memory a. (97 + memory a % 10) ∷ [];
  run = λ func argument k.
      (pos (suc argument), record k { memory = λ a. if a == 50 then func else k.memory a });
}

page_left : (pmm_alloc_page caller.mmap pages).0 ≢ 0
unfolding pmm_alloc_page is_address_available is_used test_bit
page_left = ground arith

-- At address 2 is "c", a new name.
registered-Answers_example : ((registered : Hooks) × Answers caller one 2 9 registered)
registered-Answers_example =
    registered-Answers caller one 2 9 page_left ((omega arith, tt), tt) (omega arith, tt)
      (omega arith)
