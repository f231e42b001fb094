-- ===== src/Startup.antt =====
-- The list of processes to start: os/kernel/startup/slistcfg.c. The file is the list of the buffers
-- that its reads return, up to the one that returns nothing; what spawn_process returns for the n-th
-- call is an argument. A line in the making is the list of its bytes.
pub mod Limit
mod Tests
use vsnx_os.Base.{
  ℕ, zero, suc, ◌+◌, ◌-◌, Bool, true, false, not, ◌&&◌, ◌||◌, ltb, leb, ◌==◌, if◌then◌else◌, Option,
  none, some, List, [], ◌∷◌, ◌++◌, length, take, drop,
}
use vsnx_os.Strings.{matches, strrchr, until_zero}
use vsnx_os.Hookorder.{is_empty}
use vsnx_os.Scheduler.{Priority, low, background, normal, high, ultra, immediates}

abbrev pub max_line_length : ℕ
max_line_length = 256

abbrev pub max_spawned : ℕ
max_spawned = 32

-- The word behind the last space.
pub priority_of : List ℕ → Priority
priority_of w =
    if matches w (b'L' ∷ b'O' ∷ b'W' ∷ [])
    then low
    else if matches w (b'N' ∷ b'O' ∷ b'R' ∷ b'M' ∷ b'A' ∷ b'L' ∷ [])
    then normal
    else if matches w (b'H' ∷ b'I' ∷ b'G' ∷ b'H' ∷ [])
    then high
    else if matches w (b'U' ∷ b'L' ∷ b'T' ∷ b'R' ∷ b'A' ∷ [])
    then ultra
    else if matches w (b'B' ∷ b'A' ∷ b'C' ∷ b'K' ∷ b'G' ∷ b'R' ∷ b'O' ∷ b'U' ∷ b'N' ∷ b'D' ∷ [])
    then background
    else if matches w (b'I' ∷ b'M' ∷ b'M' ∷ b'E' ∷ b'D' ∷ b'I' ∷ b'A' ∷ b'T' ∷ b'E' ∷ b'S' ∷ [])
    then immediates
    else normal

-- The path and the priority of `parse_line`.
pub list_line : List ℕ → List ℕ × Priority
list_line line = elim (strrchr line b' ') [
  | none ↦ (line, normal)
  | some i ↦ (take i line, priority_of (drop (suc i) line))
]

-- The calls of spawn_process, and the count of those that succeeded.
pub record Startup : Type 0 where
  pub line : List ℕ
  pub calls : List (List ℕ × Priority)
  pub spawned : ℕ

abbrev pub starts_blank : ℕ → Bool
starts_blank c = c == b' ' || c == b'\t'

abbrev pub ends_blank : ℕ → Bool
ends_blank c = c == b' ' || c == b'\t' || c == b'\r'

pub skip_start : List ℕ → List ℕ
skip_start [] = []
skip_start (c ∷ cs) = let rest = skip_start cs in if starts_blank c then rest else c ∷ cs

abbrev pub cut_blank : ℕ → List ℕ → List ℕ
cut_blank c [] = if ends_blank c then [] else c ∷ []
cut_blank c (d ∷ ds) = c ∷ d ∷ ds

pub cut_end : List ℕ → List ℕ
cut_end [] = []
cut_end (c ∷ cs) = cut_blank c (cut_end cs)

-- The end never goes before the first byte.
abbrev pub keep_first : List ℕ → List ℕ
keep_first [] = []
keep_first (c ∷ cs) = c ∷ cut_end cs

-- The line between its blanks.
unfoldable pub trimmed : List ℕ → List ℕ
trimmed line = keep_first (skip_start (until_zero line))

-- Neither empty nor a comment.
abbrev pub is_entry : List ℕ → Bool
is_entry [] = false
is_entry (c ∷ _) = not (c == b'#')

-- The trimmed line stays in the buffer.
unfoldable pub spawn_line : (spawn : ℕ → Bool) → Startup → Startup
spawn_line spawn s =
    let start = trimmed s.line in
    record s {
      calls = s.calls ++ (list_line start ∷ []);
      spawned = if spawn (length s.calls) then s.spawned + 1 else s.spawned;
    }

abbrev pub is_line_end : ℕ → Bool
is_line_end c = c == b'\n' || c == b'\r'

abbrev pub add_byte : ℕ → Startup → Startup
add_byte c s =
    if ltb (length s.line) (max_line_length - 1) then record s { line = s.line ++ (c ∷ []) } else s

-- How a byte leaves the loop: at the limit it is left, with the line as it is.
pub data Next : Type 0 where
  go stop : Startup → Next

-- The end of a line that is not empty.
unfoldable pub end_line : (spawn : ℕ → Bool) → Startup → Next
end_line spawn s = elim (is_entry (trimmed s.line)) [
  | false ↦ go (record s { line = [] })
  | true ↦ elim (leb max_spawned (spawn_line spawn s).spawned) [
    | true ↦ stop (spawn_line spawn s)
    | false ↦ go (record (spawn_line spawn s) { line = [] })
  ]
]

unfoldable pub list_byte : (spawn : ℕ → Bool) (c : ℕ) → Startup → Next
list_byte spawn c s =
    if is_line_end c
    then (if is_empty s.line then go s else end_line spawn s)
    else go (add_byte c s)

-- The loop over the bytes of a buffer.
unfoldable pub feed : (spawn : ℕ → Bool) → List ℕ → Startup → Startup
feed spawn [] s = s
feed spawn (c ∷ cs) s = elim (list_byte spawn c s) [ stop s' ↦ s' | go s' ↦ feed spawn cs s' ]

-- The loop over the reads.
unfoldable pub read_list : (spawn : ℕ → Bool) → List (List ℕ) → Startup → Startup
read_list spawn [] s = s
read_list spawn (b ∷ buffers) s = elim (leb max_spawned (feed spawn b s).spawned) [
  | true ↦ feed spawn b s
  | false ↦ read_list spawn buffers (feed spawn b s)
]

-- A last line without its end.
unfoldable pub last_line : (spawn : ℕ → Bool) → Startup → Startup
last_line spawn s =
    if is_empty s.line then s else if is_entry (trimmed s.line) then spawn_line spawn s else s

abbrev pub nothing_read : Startup
nothing_read = record { line = []; calls = []; spawned = 0 }

-- The calls that are made; none where the file does not open.
unfoldable pub parse_startup_list :
    (spawn : ℕ → Bool) (opens : Bool) (buffers : List (List ℕ)) → List (List ℕ × Priority)
parse_startup_list spawn opens buffers =
    if opens then (last_line spawn (read_list spawn buffers nothing_read)).calls else []
