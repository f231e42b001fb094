-- ===== src/Hookorder/Load.antt =====
-- hookorder_load of os/kernel/driver/hookorder/hookorder.c: the configuration file is read into a cache
-- of 64 KiB and taken apart line by line. The file system is given by its answers: `fat_read off room`
-- is what a read returns after `off` bytes, at most `room` of them, and `none` an error.
pub mod Lines
pub mod Refine
pub mod Reading
use vsnx_os.Base.{
  ℕ, zero, suc, ◌+◌, ◌-◌, Bool, true, false, ◌||◌, ltb, leb, ◌==◌, if◌then◌else◌, Option, none,
  some, List, [], ◌∷◌, ◌++◌, length, take, drop, ℤ, pos, negsuc,
}
use vsnx_os.Strings.{strchr, until_zero}
use vsnx_os.Hookorder.{Entry, Parsed, parsed, parse_line, is_empty, max_entries}

-- `sizeof(g_cfg_cache)`
abbrev pub cache_size : ℕ
cache_size = 65536

-- How the read loop ends.
pub data Cached : Type 0 where
  read_error out_of_fuel : Cached
  cached : List ℕ → Cached

-- Each round appends what a read returns; a read of nothing ends the loop.
unfoldable pub read_cache : (fuel : ℕ) (fat_read : ℕ → ℕ → Option (List ℕ)) → List ℕ → Cached
read_cache zero fat_read cfg = out_of_fuel
read_cache (suc n) fat_read cfg = elim (ltb (length cfg + 1) cache_size) [
  | false ↦ cached cfg
  | true ↦ elim (fat_read (length cfg) (cache_size - length cfg - 1)) [
    | none ↦ read_error
    | some [] ↦ cached cfg
    | some (c ∷ chunk) ↦ read_cache n fat_read (cfg ++ (c ∷ chunk))
  ]
]

-- A line of more than 515 bytes is cut.
abbrev pub cap_length : ℕ → ℕ
cap_length len = if leb 516 len then 515 else len

abbrev pub add_entry : List Entry → Parsed → List Entry
add_entry es (parsed e) = es ++ (e ∷ [])
add_entry es _ = es

-- The loop over the lines, with the entries so far.
unfoldable pub load_lines : (fuel : ℕ) (p : List ℕ) → List Entry → Option (List Entry)
load_lines zero p es = none
load_lines (suc n) p es = elim (is_empty p || leb max_entries (length es)) [
  | true ↦ some es
  | false ↦ elim (strchr p b'\n') [
    | some i ↦ load_lines n (drop (suc i) p) (add_entry es (parse_line (take (cap_length i) p)))
    | none ↦
        load_lines n (drop (length p) p)
          (add_entry es (parse_line (take (cap_length (length p)) p)))
  ]
]

-- `-1`: the file does not open. `-2`: a read fails, with no entry left. Else the number of entries.
pub hookorder_load :
    (fuel : ℕ) (opens : Bool) (fat_read : ℕ → ℕ → Option (List ℕ))
    → List Entry
    → Option (ℤ × List Entry)
hookorder_load fuel opens fat_read es = elim opens [
  | false ↦ some (negsuc 0, es)
  | true ↦ elim (read_cache fuel fat_read []) [
    | out_of_fuel ↦ none
    | read_error ↦ some (negsuc 1, [])
    | cached cfg ↦ elim (load_lines fuel (until_zero cfg) []) [
      | none ↦ none
      | some loaded ↦ some (pos (length loaded), loaded)
    ]
  ]
]
