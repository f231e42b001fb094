-- ===== src/HookCalls/Registered.antt =====
-- Registration, lookup and call of a hook through os/kernel/driver/hookcall/hookcall.c, and the
-- translation of an address mapped through it.
use vsnx_os.Base.{
  ℕ, ◌+◌, ◌%◌, ◌<◌, ◌≤◌, ◌≡◌, ◌≢◌, ◌⊎◌, inl, inr, refl, ap, arith, ◌==◌, not, Option, Bool, true,
  false, List, none, some, length, u32_mod,
}
use vsnx_os.Strings.Compare.{IsString}
use vsnx_os.Registry.{Entry, replace_func, register_hook}
use vsnx_os.Registry.Lookup.{Strings, Changed, register_hook_lem, call_hook-found}
use vsnx_os.Syscalls.{word}
use vsnx_os.Pmm.{PmmInfo, pmm_alloc_page}
use vsnx_os.Kmalloc.{kmalloc, pages_for}
use vsnx_os.Paging.{Machine, pml4_index, frame_of, store_word, paging_map_page, paging_get_physical}
use vsnx_os.Paging.Tree.{IsTree}
use vsnx_os.Paging.Resolve.{MapResult, map_page-get_physical}
use vsnx_os.HookCalls.{
  Hooks, Caller, Outcome, entry_memory, register_hook_handler, get_hook_handler, call_hook_handler,
  paging_map_page_handler, paging_get_physical_handler, hookcall_table, hookcall_handler, as_int,
}

abbrev result_of : Outcome → ℕ
result_of none = 0
result_of (some (result, k)) = result

module _ (c : Caller) (k : Hooks) (name_ptr func_ptr : ℕ) where
  -- The answers of the hook calls after a registration through hook call 1: the name is found and its
  -- function runs, other names are answered as before, and the page tables and the caller's memory
  -- are as they were.
  pub record Answers (registered : Hooks) : Type 0 where
    pub answer : hookcall_handler c 1 name_ptr func_ptr 0 k ≡ some (0, registered)
    pub found : hookcall_handler c 3 name_ptr 0 0 registered ≡ some (func_ptr, registered)
    pub called :
        (data_ptr : ℕ)
        → hookcall_handler c 2 name_ptr data_ptr 0 registered
          ≡ some
              (word (c.run func_ptr data_ptr registered).0, (c.run func_ptr data_ptr registered).1)
    pub others :
        (other_ptr : ℕ)
        → IsString (c.text k.memory other_ptr)
        → c.text k.memory other_ptr ≢ c.text k.memory name_ptr
        → (found : ℕ) → hookcall_handler c 3 other_ptr 0 0 k ≡ some (found, k)
        → hookcall_handler c 3 other_ptr 0 0 registered ≡ some (found, registered)
    pub tables : registered.machine.word ≡ k.machine.word
    pub memory : registered.memory ≡ k.memory

  entry_memory-room :
      (pmm_alloc_page c.mmap k.machine.pmm).0 ≢ 0
      → (p : PmmInfo) × (entry_memory c (c.text k.memory name_ptr) func_ptr k ≡ some (true, p))
  unfolding entry_memory kmalloc pages_for
  entry_memory-room page =
      let given : ((pmm_alloc_page c.mmap k.machine.pmm).0 == 0) ≡ false = ground (arith, page) in
      elim (replace_func k.hook_list (c.text k.memory name_ptr) func_ptr)
        as (λ o.
          (p : PmmInfo) × ((elim o as (λ _. Option (Bool × PmmInfo)) [
            | some changed ↦ some (true, k.machine.pmm)
            | none ↦ some (
              not ((pmm_alloc_page c.mmap k.machine.pmm).0 == 0),
              (pmm_alloc_page c.mmap k.machine.pmm).1,
            )
          ])
            ≡ some (true, p))) [
              | some changed ↦ (k.machine.pmm, refl)
              | none ↦ (
                (pmm_alloc_page c.mmap k.machine.pmm).1,
                ap (λ b. some (not b, (pmm_alloc_page c.mmap k.machine.pmm).1)) given,
              )
            ]

  -- Where a page is left, a registration through hook call 1 of a function under a name of at most 63
  -- bytes returns 0. Then hook call 3 finds the function and hook call 2 runs it, hook call 3 finds
  -- for every other name what it found before, and the page tables and the memory of the caller are
  -- as they were. The names are strings, those of the table too.
  pub registered-Answers :
      (pmm_alloc_page c.mmap k.machine.pmm).0 ≢ 0
      → Strings k.hook_list
      → IsString (c.text k.memory name_ptr)
      → length (c.text k.memory name_ptr) ≤ 63
      → (registered : Hooks) × Answers registered
  unfolding hookcall_handler hookcall_table register_hook_handler get_hook_handler call_hook_handler
  registered-Answers page strings name short =
      let (p, room) = entry_memory-room page in
      let hooks : List (Entry ℕ) =
        register_hook true k.hook_list (c.text k.memory name_ptr) func_ptr in
      let registered : Hooks = record k {
        hook_list = hooks;
        machine = record k.machine { pmm = p };
      } in
      let c' : Changed k.hook_list (c.text k.memory name_ptr) func_ptr hooks =
        register_hook_lem k.hook_list (c.text k.memory name_ptr) func_ptr strings name short in
      (
        registered,
        record {
          answer = rw (room, register_hook_handler) refl;
          found = rw c'.own refl;
          called = λ data_ptr.
              rw
                (call_hook-found (λ func. c.run func data_ptr) hooks (c.text k.memory name_ptr)
                  registered c'.own)
                refl;
          others = λ other_ptr so ne found h.
              rw (c'.others (c.text k.memory other_ptr) so ne)
                (ap (λ o. some (result_of o, registered)) h);
          tables = refl;
          memory = refl;
        },
      )

module _ (c : Caller) (first : ℕ) (k : Hooks) (vaddr paddr flags out_ptr : ℕ) where
  -- Mapping through hook call 7 and translating through hook call 5: either the mapping reports
  -- success and the frame with the address's offset is stored where the caller says, or it reports
  -- failure; other words of the caller's memory and the hooks are as they were.
  pub record Translates (mapped translated : Hooks) : Type 0 where
    pub answer :
        ((hookcall_handler c 7 vaddr paddr flags k ≡ some (1, mapped))
          × (translated.memory out_ptr ≡ frame_of paddr + vaddr % 4096))
        ⊎ (hookcall_handler c 7 vaddr paddr flags k ≡ some (0, mapped))
    pub next : hookcall_handler c 5 vaddr out_ptr 0 mapped ≡ some (0, translated)
    pub tree : (level : ℕ → ℕ) × IsTree first level translated.machine
    pub rest : (a : ℕ) → a ≢ out_ptr → translated.memory a ≡ k.memory a
    pub hooks : translated.hook_list ≡ k.hook_list

  -- On a tree of page tables, for present flags below bit 12 and an address whose root entry is not
  -- the boot code's, the two calls translate as `Translates` says.
  pub mapped-Translates :
      {level : ℕ → ℕ}
      → IsTree first level k.machine
      → first ≤ pml4_index vaddr
      → flags < 4096
      → flags % 2 ≡ 1
      → (mapped : Hooks) × (translated : Hooks) × Translates mapped translated
  unfolding hookcall_handler hookcall_table paging_map_page_handler paging_get_physical_handler
  mapped-Translates tree low small odd =
      let same : flags % u32_mod ≡ flags = omega arith in
      let result : Bool × Machine =
        paging_map_page c.mmap k.machine vaddr paddr (flags % u32_mod) in
      let (tree', r) : MapResult c.mmap first vaddr paddr (flags % u32_mod) result =
        map_page-get_physical c.mmap first vaddr paddr (flags % u32_mod) tree low (omega arith)
          (omega arith) in
      let mapped : Hooks = record k { machine = result.1 } in
      (
        mapped,
        record mapped { memory = store_word k.memory out_ptr (paging_get_physical result.1 vaddr) },
        record {
          answer = elim r [
            | inl (ok, there) ↦ inl (ap (λ b. some (as_int b, mapped)) ok, ground (arith, there))
            | inr (failed, none_left) ↦ inr (ap (λ b. some (as_int b, mapped)) failed)
          ];
          next = refl;
          tree = tree';
          rest = λ a ne. ground (arith, ne);
          hooks = refl;
        },
      )
