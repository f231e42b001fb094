-- ===== src/Startup/Tests.antt =====
-- A list of 32 lines, and the theorem of os/kernel/startup/slistcfg.c at it.
use vsnx_os.Base.{ℕ, zero, suc, ◌≡◌, refl, true, arith, List, [], ◌∷◌, ◌++◌}
use vsnx_os.Strings.{until_zero}
use vsnx_os.Startup.{
  feed, list_byte, end_line, spawn_line, trimmed, skip_start, cut_end, nothing_read, read_list,
  list_line, parse_startup_list,
}
use vsnx_os.Startup.Limit.{parse_startup_list-twice}

-- `n` lines of one byte, and a last one without its end.
abbrev lines_of_x : ℕ → List ℕ
lines_of_x zero = b'x' ∷ []
lines_of_x (suc n) = b'x' ∷ b'\n' ∷ lines_of_x n

-- A first buffer ends in the middle of the second line.
abbrev first_buffer : List (List ℕ)
first_buffer = (b'x' ∷ b'\n' ∷ b'z' ∷ []) ∷ []

parse_startup_list-twice_example :
    let s = feed (λ n. true) (lines_of_x 30) (read_list (λ n. true) first_buffer nothing_read) in
    parse_startup_list
      (λ n. true)
      true
      (first_buffer ++ ((lines_of_x 30 ++ (b'\n' ∷ b'y' ∷ b'\n' ∷ [])) ∷ []))
    ≡ (s.calls ++ (list_line (trimmed s.line) ∷ [])) ++ (list_line (trimmed s.line) ∷ [])
unfolding read_list feed list_byte end_line spawn_line trimmed skip_start cut_end until_zero
parse_startup_list-twice_example =
    parse_startup_list-twice (λ n. true) first_buffer (lines_of_x 30) (b'y' ∷ b'\n' ∷ []) []
      (omega arith) refl refl refl refl
