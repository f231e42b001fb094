-- ===== src/Hookorder/Table.antt =====
-- The operations on the loaded table of os/kernel/driver/hookorder/hookorder.c.
use vsnx_os.Base.{
  ℕ, ◌+◌, ◌-◌, Bool, true, false, ◌&&◌, ltb, ◌==◌, if◌then◌else◌, Option, none, some, List, [], ◌∷◌,
  length, get_elem?,
}
use vsnx_os.Strings.{matches, strncpy}
use vsnx_os.Strings.Case.{equal_case}
use vsnx_os.Hookorder.{Entry, str_to_upper, match_token}

pub hookorder_count : List Entry → ℕ
hookorder_count es = length es

-- `i` is not negative here; a null pointer is `none`.
pub hookorder_get : List Entry → ℕ → Option Entry
hookorder_get es i = get_elem? es i

-- The first entry with the subclass decides.
unfoldable pub hookorder_is_claimed : List Entry → List ℕ → Bool
hookorder_is_claimed [] subclass = false
hookorder_is_claimed (e ∷ es) subclass =
    let rest = hookorder_is_claimed es subclass in
    if equal_case e.subclass subclass then e.claimed else rest

abbrev pub keep_front : Entry → Option (List Entry) → Option (List Entry)
keep_front e none = none
keep_front e (some later) = some (e ∷ later)

-- The first entry with the subclass and the driver is marked; `none` for the result -1.
unfoldable pub hookorder_mark_claimed :
    List Entry → (subclass driver : List ℕ) → Option (List Entry)
hookorder_mark_claimed [] subclass driver = none
hookorder_mark_claimed (e ∷ es) subclass driver =
    let rest = hookorder_mark_claimed es subclass driver in
    if equal_case e.subclass subclass && equal_case e.driver driver
    then some (record e { claimed = true } ∷ es)
    else keep_front e rest

-- `"CLASS"`
abbrev pub class_word : List ℕ
class_word = b'C' ∷ b'L' ∷ b'A' ∷ b'S' ∷ b'S' ∷ []

-- The upper-case copy in a buffer of 64 bytes.
abbrev pub query : List ℕ → List ℕ
query s = str_to_upper (strncpy s 63)

pub find_exact_in : List Entry → (sub drv : List ℕ) → Option Entry
find_exact_in [] sub drv = none
find_exact_in (e ∷ es) sub drv =
    let rest = find_exact_in es sub drv in
    if equal_case e.category class_word && equal_case e.subclass sub && equal_case e.driver drv
    then some e
    else rest

pub hookorder_find_exact : List Entry → (subclass driver : List ℕ) → Option Entry
hookorder_find_exact es subclass driver = find_exact_in es (query subclass) (query driver)

-- The three tests that skip an entry.
unfoldable pub entry_fits : (sub drv : List ℕ) → Entry → Bool
entry_fits sub drv e =
    equal_case e.category class_word && match_token e.subclass sub && match_token e.driver drv

-- How general the entry is: `strcmp(..., "*") == 0` counts 2 for the subclass, 1 for the driver.
unfoldable pub rank : Entry → ℕ
rank e =
    (if matches e.subclass (b'*' ∷ []) then 2 else 0)
    + (if matches e.driver (b'*' ∷ []) then 1 else 0)

-- The loop, with the best entry and its rank so far; an entry of rank 0 ends it.
unfoldable pub best_in :
    List Entry → (sub drv : List ℕ) → Option Entry → (best_rank : ℕ) → Option Entry
best_in [] sub drv best best_rank = best
best_in (e ∷ es) sub drv best best_rank = elim (entry_fits sub drv e && ltb (rank e) best_rank) [
  | false ↦ best_in es sub drv best best_rank
  | true ↦ elim (rank e == 0) [ true ↦ some e | false ↦ best_in es sub drv (some e) (rank e) ]
]

unfoldable pub hookorder_find_best : List Entry → (subclass driver : List ℕ) → Option Entry
hookorder_find_best es subclass driver = best_in es (query subclass) (query driver) none 999

-- The path in a buffer of `outsz` bytes; `none` for the result -1.
pub hookorder_find_path : List Entry → (subclass driver : List ℕ) → (outsz : ℕ) → Option (List ℕ)
hookorder_find_path es subclass driver outsz = elim (hookorder_find_best es subclass driver) [
  | none ↦ none
  | some e ↦ some (strncpy e.path (outsz - 1))
]

abbrev pub changed_or : List Entry → Option (List Entry) → List Entry
changed_or es none = es
changed_or es (some changed) = changed

-- After a claim the entries are the marked ones, if any was found to mark.
abbrev pub marked : List Entry → (subclass driver : List ℕ) → List Entry
marked es subclass driver = changed_or es (hookorder_mark_claimed es subclass driver)

-- `spawn` is whether `spawn_process` makes a process of the path, which is then executed. The result
-- is 0, -1 for no entry, or -2 for a class that is claimed or a process that is not made.
pub data Spawned : Type 0 where
  spawned missing refused : Spawned

unfoldable pub hookorder_spawn_for :
    (spawn : List ℕ → Bool) → List Entry → (subclass driver : List ℕ) → Spawned × List Entry
hookorder_spawn_for spawn es subclass driver =
    if hookorder_is_claimed es subclass
    then (refused, es)
    else elim (hookorder_find_best es subclass driver) [
      | none ↦ (missing, es)
      | some e ↦ if spawn e.path then (spawned, marked es subclass driver) else (refused, es)
    ]
