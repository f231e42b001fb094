-- ===== src/Syscalls/Calls.antt =====
-- What the dispatch of os/kernel/syscalls/syscall.c keeps of the kernel's state, whichever the call.
use vsnx_os.Base.{Option, none, some}
use vsnx_os.Syscalls.{Outcome}
use vsnx_os.Syscalls.Keeps.{Keeps}

abbrev EntryKeeps : Option Outcome → Type 0
EntryKeeps none = Unit
EntryKeeps (some o) = Keeps o
