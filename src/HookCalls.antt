-- ===== src/HookCalls.antt =====
-- Hook calls: the handlers of os/kernel/driver/hookcall/hookset.c and the dispatch of
-- os/kernel/driver/hookcall/hookcall.c over the table of hooks and the page tables. Results are
-- words of 64 bits; a call of kmalloc that never returns is `none`. The interrupt's entry, which saves and restores the registers, is assembly and
-- left out.
pub mod Registered
mod Tests
use vsnx_os.Base.{
  ℕ, ◌/◌, ◌%◌, ◌*◌, ◌^◌, Bool, true, false, not, leb, ◌==◌, if◌then◌else◌, Option, none, some, List,
  ℤ, negsuc, u32_mod,
}
use vsnx_os.Mmap.{MemoryMap}
use vsnx_os.Syscalls.{word}
use vsnx_os.Pmm.{PmmInfo}
use vsnx_os.Kmalloc.{kmalloc}
use vsnx_os.Registry.{Entry, replace_func, register_hook, call_hook, get_hook}
use vsnx_os.Paging.{
  Machine, store_word, paging_map_page, paging_unmap_page, paging_get_physical, paging_print_info,
}

-- `hook_list`, whose functions are addresses, the page tables, and the words of the caller's memory,
-- which are kept apart from the tables.
pub record Hooks : Type 0 where
  pub hook_list : List (Entry ℕ)
  pub machine : Machine
  pub memory : ℕ → ℕ

-- What the rest of the machine answers during one call: the string at an address, and what a
-- function does with its argument.
pub record Caller : Type 0 where
  pub mmap : MemoryMap
  pub text : (ℕ → ℕ) → ℕ → List ℕ
  pub run : (func argument : ℕ) → Hooks → ℤ × Hooks

abbrev pub Outcome : Type 0
Outcome = Option (ℕ × Hooks)

-- A function's address, 0 for the null pointer.
abbrev pub address_or_null : Option ℕ → ℕ
address_or_null none = 0
address_or_null (some func) = func

abbrev pub as_int : Bool → ℕ
as_int mapped = if mapped then 1 else 0

-- `sizeof(hook_entry_t)`
abbrev pub entry_size : ℕ
entry_size = 80

module _ (c : Caller) where
  -- Memory for an entry, which `register_hook` asks for only where no entry has the name: whether
  -- there is some, and the page allocator.
  unfoldable pub entry_memory : (name : List ℕ) (func : ℕ) → Hooks → Option (Bool × PmmInfo)
  entry_memory name func k = elim (replace_func k.hook_list name func) [
    | some changed ↦ some (true, k.machine.pmm)
    | none ↦ elim (kmalloc c.mmap k.machine.pmm entry_size) [
      | none ↦ none
      | some (ptr, p) ↦ some (not (ptr == 0), p)
    ]
  ]

  unfoldable pub register_hook_handler : (name_ptr func_ptr : ℕ) → Hooks → Outcome
  register_hook_handler name_ptr func_ptr k =
      let name : List ℕ = c.text k.memory name_ptr in
      elim (entry_memory name func_ptr k) [
        | none ↦ none
        | some (room, p) ↦ some (
          0,
          record k {
            hook_list = register_hook room k.hook_list name func_ptr;
            machine = record k.machine { pmm = p };
          },
        )
      ]

  unfoldable pub call_hook_handler : (name_ptr data_ptr : ℕ) → Hooks → Outcome
  call_hook_handler name_ptr data_ptr k =
      let (result, k') =
        call_hook (λ func. c.run func data_ptr) k.hook_list (c.text k.memory name_ptr) k in
      some (word result, k')

  unfoldable pub get_hook_handler : (name_ptr : ℕ) → Hooks → Outcome
  get_hook_handler name_ptr k =
      some (address_or_null (get_hook k.hook_list (c.text k.memory name_ptr)), k)

  unfoldable pub paging_map_page_handler : (vaddr paddr flags : ℕ) → Hooks → Outcome
  paging_map_page_handler vaddr paddr flags k =
      let (mapped, m) = paging_map_page c.mmap k.machine vaddr paddr (flags % u32_mod) in
      some (as_int mapped, record k { machine = m })

  unfoldable pub paging_unmap_page_handler : (vaddr : ℕ) → Hooks → Outcome
  paging_unmap_page_handler vaddr k =
      some (0, record k { machine = paging_unmap_page k.machine vaddr })

  -- The result is stored where the caller says.
  unfoldable pub paging_get_physical_handler : (vaddr out_ptr : ℕ) → Hooks → Outcome
  paging_get_physical_handler vaddr out_ptr k =
      some
        (0, record k { memory = store_word k.memory out_ptr (paging_get_physical k.machine vaddr) })

  unfoldable pub paging_print_info_handler : Hooks → Outcome
  paging_print_info_handler k = some (0, record k { machine = paging_print_info c.mmap k.machine })

  -- `hookcall_table[i].handler`, as `init_hookcalls` sets it, applied to the arguments; `none` for
  -- the null pointer.
  unfoldable pub hookcall_table : (i arg1 arg2 arg3 : ℕ) → Hooks → Option Outcome
  hookcall_table i arg1 arg2 arg3 k =
      if i == 7
      then some (paging_map_page_handler arg1 arg2 arg3 k)
      else if i == 6
      then some (paging_unmap_page_handler arg1 k)
      else if i == 5
      then some (paging_get_physical_handler arg1 arg2 k)
      else if i == 4
      then some (paging_print_info_handler k)
      else if i == 3
      then some (get_hook_handler arg1 k)
      else if i == 2
      then some (call_hook_handler arg1 arg2 k)
      else if i == 1
      then some (register_hook_handler arg1 arg2 k)
      else none

  -- What is left in rax, and the state.
  unfoldable pub hookcall_handler : (hookcall_num arg1 arg2 arg3 : ℕ) → Hooks → Outcome
  hookcall_handler hookcall_num arg1 arg2 arg3 k =
      if leb 99999 hookcall_num
      then some (word (negsuc 0), k)
      else elim (hookcall_table hookcall_num arg1 arg2 arg3 k) [
        | none ↦ some (word (negsuc 0), k)
        | some answer ↦ answer
      ]
