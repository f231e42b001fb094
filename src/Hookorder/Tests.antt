-- ===== src/Hookorder/Tests.antt =====
-- Tables of two entries, and the theorems of os/kernel/driver/hookorder/hookorder.c at them.
use vsnx_os.Base.{
  ℕ, zero, suc, subst, ◌≤◌, ◌≡◌, refl, true, false, arith, Option, none, some, List, [], ◌∷◌, inl,
  length,
}
use vsnx_os.Strings.{strcasecmp, strcmp}
use vsnx_os.Hookorder.{Entry, parsed, parse_line, match_token, str_to_upper}
use vsnx_os.Hookorder.Table.{
  hookorder_is_claimed, hookorder_spawn_for, hookorder_find_best, query, refused, class_word,
  best_in, entry_fits, rank,
}
use vsnx_os.Hookorder.Best.{Chosen, find_best-Chosen}
use vsnx_os.Hookorder.Claims.{after, spawn_for_once}
use vsnx_os.Hookorder.Tokens.{IsToken, IsText, line_of, entry_of, parse_line-line_of}
use vsnx_os.Hookorder.Load.{hookorder_load, read_cache}
use vsnx_os.Hookorder.Load.Reading.{AtMost, LoadResult, hookorder_load_lem}
use vsnx_os.Hookorder.Load.Refine.{load_lines_lem, loaded}
use vsnx_os.Hookorder.Load.{load_lines}

-- `GPU`, `A` and `B`
abbrev gpu : List ℕ
gpu = b'G' ∷ b'P' ∷ b'U' ∷ []

abbrev driver_a : List ℕ
driver_a = b'A' ∷ []

abbrev driver_b : List ℕ
driver_b = b'B' ∷ []

abbrev driver_entry : List ℕ → Entry
driver_entry driver = record {
  category = class_word;
  subclass = gpu;
  driver = driver;
  path = b'/' ∷ driver;
  claimed = false;
}

abbrev table : List Entry
table = driver_entry driver_a ∷ driver_entry driver_b ∷ []

spawn_for_once_example :
    hookorder_spawn_for (λ _. true) (after (λ _. true) table gpu driver_a) gpu driver_b
    ≡ (refused, after (λ _. true) table gpu driver_a)
unfolding strcasecmp strcmp str_to_upper hookorder_spawn_for hookorder_is_claimed
    hookorder_find_best best_in entry_fits rank match_token
spawn_for_once_example =
    spawn_for_once (λ _. true) table gpu driver_a driver_b (inl (refl, refl)) refl

gpu-IsText : IsText gpu
gpu-IsText = record {
  no_hash = ((λ e. omega (arith, e)), ((λ e. omega (arith, e)), ((λ e. omega (arith, e)), tt)));
  no_semicolon =
      ((λ e. omega (arith, e)), ((λ e. omega (arith, e)), ((λ e. omega (arith, e)), tt)));
  no_blank = (refl, (refl, (refl, tt)));
}

gpu-IsToken : IsToken gpu
gpu-IsToken = record {
  text = gpu-IsText;
  no_colon = ((λ e. omega (arith, e)), ((λ e. omega (arith, e)), ((λ e. omega (arith, e)), tt)));
  no_arrow = ((λ e. omega (arith, e)), ((λ e. omega (arith, e)), ((λ e. omega (arith, e)), tt)));
  some_byte = refl;
  short = omega arith;
}

parse_line-line_of_example :
    parse_line (line_of gpu gpu gpu gpu) ≡ parsed (entry_of gpu gpu gpu gpu)
parse_line-line_of_example =
    parse_line-line_of gpu gpu gpu gpu gpu-IsToken gpu-IsToken gpu-IsToken gpu-IsText refl
      (omega arith)

-- A file of one byte.
abbrev one_byte : ℕ → ℕ → Option (List ℕ)
one_byte zero (suc room) = some (b'x' ∷ [])
one_byte _ _ = some []

abbrev bytes_or : List ℕ → Option (List ℕ) → List ℕ
bytes_or d none = d
bytes_or d (some x) = x

some-short :
    (room : ℕ) (bytes chunk : List ℕ)
    → length bytes ≤ room
    → some bytes ≡ some chunk
    → length chunk ≤ room
some-short room bytes chunk h e = subst (λ o. length (bytes_or [] o) ≤ room) e h

one_byte-AtMost : AtMost one_byte
one_byte-AtMost zero zero chunk e = some-short zero [] chunk (omega arith) e
one_byte-AtMost zero (suc room) chunk e = some-short (suc room) (b'x' ∷ []) chunk (omega arith) e
one_byte-AtMost (suc off) room chunk e = some-short room [] chunk (omega arith) e

hookorder_load_lem_example :
    LoadResult true [] (read_cache 65537 one_byte []) (hookorder_load 65537 true one_byte [])
hookorder_load_lem_example = hookorder_load_lem 65537 true one_byte [] one_byte-AtMost (omega arith)

load_lines_lem_example :
    load_lines 5 (b'#' ∷ b'\n' ∷ b'x' ∷ []) [] ≡ some (loaded [] (b'#' ∷ b'\n' ∷ b'x' ∷ []))
load_lines_lem_example = load_lines_lem 5 (b'#' ∷ b'\n' ∷ b'x' ∷ []) [] (omega arith) (omega arith)

find_best-Chosen_example :
    Chosen (query gpu) (query driver_b) table (hookorder_find_best table gpu driver_b)
find_best-Chosen_example = find_best-Chosen table gpu driver_b
