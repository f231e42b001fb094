-- ===== src/Registry.antt =====
-- The kernel's tables of named functions: os/kernel/ipc/pipe/pipecall.c and os/kernel/driver/hook.c,
-- over strcmp of os/kernel/utilities/strings/strings.c. A string is the list of its bytes before the
-- terminating zero, and an entry's `char name[64]` the string it holds. The linked list of entries is
-- a list, newest first; a function pointer is a value of any type. Whether `kmalloc` has memory for
-- an entry is an argument.
pub mod Lookup
pub mod Long
use vsnx_os.Base.{
  ℕ, zero, suc, Bool, true, false, if◌then◌else◌, Option, none, some, List, [], ◌∷◌, take, ℤ,
  negsuc,
}
use vsnx_os.Strings.{matches}

-- `strncpy(entry->name, name, 63)` and the zero at 63.
abbrev pub stored_name : List ℕ → List ℕ
stored_name name = take 63 name

pub record Entry (F : Type 0) : Type 0 where
  pub name : List ℕ
  pub func : F

module _ {F : Type 0} where
  -- The walk of `getpipe` and `get_hook`; `none` for a null pointer.
  pub get_hook : List (Entry F) → List ℕ → Option F
  get_hook [] name = none
  get_hook (e ∷ es) name =
      let rest = get_hook es name in if matches e.name name then some e.func else rest

  -- The walk of `makepipe` and `register_hook`: the first entry with the name gets the function.
  pub replace_func : List (Entry F) → List ℕ → F → Option (List (Entry F))
  replace_func [] name func = none
  replace_func (e ∷ es) name func =
      let rest = replace_func es name func in
      if matches e.name name
      then some (record e { func = func } ∷ es)
      else elim rest [ none ↦ none | some later ↦ some (e ∷ later) ]

  -- A new entry is the first.
  pub insert : (memory : Bool) → List (Entry F) → List ℕ → F → List (Entry F)
  insert memory es name func =
      if memory then record { name = stored_name name; func = func } ∷ es else es

  pub register_hook : (memory : Bool) → List (Entry F) → List ℕ → F → List (Entry F)
  register_hook memory es name func = elim (replace_func es name func) [
    | some changed ↦ changed
    | none ↦ insert memory es name func
  ]

  -- The function is called by `call`, which returns its result and the state it leaves; -1 where the
  -- name is not there.
  pub call_hook : {S : Type 0} → (call : F → S → ℤ × S) → List (Entry F) → List ℕ → S → ℤ × S
  call_hook call es name s = elim (get_hook es name) [
    | none ↦ (negsuc 0, s)
    | some func ↦ call func s
  ]

  -- The functions of pipecall.c, which are the same walks over `pipe_list`.
  pub getpipe : List (Entry F) → List ℕ → Option F
  unfolding get_hook
  getpipe es name = get_hook es name

  pub makepipe : (memory : Bool) → List (Entry F) → List ℕ → F → List (Entry F)
  unfolding register_hook
  makepipe memory es name func = register_hook memory es name func
