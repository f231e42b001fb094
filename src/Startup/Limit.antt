-- ===== src/Startup/Limit.antt =====
-- What parse_startup_list of os/kernel/startup/slistcfg.c does with the line at which its limit is
-- reached.
use vsnx_os.Base.{
  ℕ, ◌≤◌, ◌<◌, ◌≡◌, refl, inl, inr, Bool, true, false, leb, List, [], ◌∷◌, ◌++◌, length, arith,
  Bool-cases, ap, ◌∙◌, subst, sym,
}
use vsnx_os.Hookorder.{is_empty}
use vsnx_os.Startup.{
  Startup, Next, go, stop, list_line, trimmed, is_entry, spawn_line, is_line_end, end_line,
  list_byte, feed, read_list, last_line, nothing_read, parse_startup_list,
}

-- The loop is left at the limit only.
abbrev LeftAtLimit : Next → Type 0
LeftAtLimit (go s) = Unit
LeftAtLimit (stop s) = 32 ≤ s.spawned

module _ (spawn : ℕ → Bool) where
  end_line-LeftAtLimit : (s : Startup) → LeftAtLimit (end_line spawn s)
  unfolding end_line
  end_line-LeftAtLimit s = elim (Bool-cases (is_entry (trimmed s.line))) [
    | inr other ↦ rw (other, end_line) tt
    | inl starts ↦ elim (Bool-cases (leb 32 (spawn_line spawn s).spawned)) [
      | inr below ↦ rw (starts, below, end_line) tt
      | inl full ↦ rw (starts, full, end_line) (ground (arith, full))
    ]
  ]

  list_byte-LeftAtLimit : (c : ℕ) (s : Startup) → LeftAtLimit (list_byte spawn c s)
  unfolding list_byte
  list_byte-LeftAtLimit c s = elim (Bool-cases (is_line_end c)) [
    | inr other ↦ rw (other, list_byte) tt
    | inl line_end ↦ elim (Bool-cases (is_empty s.line)) [
      | inl nothing ↦ rw (line_end, nothing, list_byte) tt
      | inr some_byte ↦ rw (line_end, some_byte, list_byte) (end_line-LeftAtLimit s)
    ]
  ]

  -- As long as the limit is not reached, a buffer may be fed in two parts.
  feed-append :
      (b cs : List ℕ) (s : Startup)
      → (feed spawn b s).spawned < 32
      → feed spawn (b ++ cs) s ≡ feed spawn cs (feed spawn b s)
  unfolding feed
  feed-append [] cs s below = refl
  feed-append (c ∷ b) cs s below =
      by_next (list_byte spawn c s) (list_byte-LeftAtLimit c s) (feed-append b cs) below
    where
      by_next :
          (n : Next)
          → LeftAtLimit n
          → ((s' : Startup)
              → (feed spawn b s').spawned < 32
              → feed spawn (b ++ cs) s' ≡ feed spawn cs (feed spawn b s'))
          → (elim n as (λ _. Startup) [ stop s' ↦ s' | go s' ↦ feed spawn b s' ]).spawned < 32
          → (elim n as (λ _. Startup) [ stop s' ↦ s' | go s' ↦ feed spawn (b ++ cs) s' ])
            ≡ feed spawn cs (elim n as (λ _. Startup) [ stop s' ↦ s' | go s' ↦ feed spawn b s' ])
      by_next (stop s') limit next less = absurd (omega (arith, limit, less))
      by_next (go s') limit next less = next s' less

  -- The end of the line that reaches the limit.
  feed-limit :
      (cs : List ℕ) (s : Startup)
      → is_empty s.line ≡ false
      → is_entry (trimmed s.line) ≡ true
      → leb 32 (spawn_line spawn s).spawned ≡ true
      → feed spawn (b'\n' ∷ cs) s ≡ spawn_line spawn s
  unfolding feed list_byte end_line
  feed-limit cs s some_byte starts full =
      rw (some_byte, list_byte, starts, end_line, full, feed) refl

  read_list-limit :
      (b : List ℕ) (buffers : List (List ℕ)) (s : Startup)
      → leb 32 (feed spawn b s).spawned ≡ true
      → read_list spawn (b ∷ buffers) s ≡ feed spawn b s
  unfolding read_list
  read_list-limit b buffers s full = rw (full, read_list) refl

  read_list-below :
      (b : List ℕ) (buffers : List (List ℕ)) (s : Startup)
      → leb 32 (feed spawn b s).spawned ≡ false
      → read_list spawn (b ∷ buffers) s ≡ read_list spawn buffers (feed spawn b s)
  unfolding read_list
  read_list-below b buffers s below = rw (below, read_list) refl

  -- Buffers behind which the limit is not reached are read first.
  read_list-append :
      (before rest : List (List ℕ)) (s : Startup)
      → (read_list spawn before s).spawned < 32
      → read_list spawn (before ++ rest) s ≡ read_list spawn rest (read_list spawn before s)
  unfolding read_list
  read_list-append [] rest s below = refl
  read_list-append (b ∷ bs) rest s below = elim (Bool-cases (leb 32 (feed spawn b s).spawned)) [
    | inl full ↦ absurd (
        let e = ap (λ x. x.spawned) (read_list-limit b bs s full) in ground (arith, e, full, below))
    | inr less ↦
        let e = read_list-below b bs s less in
        read_list-below b (bs ++ rest) s less
        ∙ (read_list-append bs rest (feed spawn b s) (subst (λ x. x.spawned < 32) e below)
            ∙ ap (λ x. read_list spawn rest x) (sym e))
  ]

  last_line-again :
      (s : Startup)
      → is_empty s.line ≡ false
      → is_entry (trimmed s.line) ≡ true
      → (last_line spawn s).calls ≡ s.calls ++ (list_line (trimmed s.line) ∷ [])
  unfolding last_line spawn_line
  last_line-again s some_byte starts = rw (some_byte, starts, last_line) refl

  -- At any point of the read: where the limit was not reached in the buffers before, 31 processes run
  -- behind the first part of a buffer, and the start of the 32nd, which a complete line asks for,
  -- succeeds, the line is not taken out of the buffer: `parse_startup_list` starts its process a
  -- second time, and nothing behind the line is read.
  pub parse_startup_list-twice :
      (before : List (List ℕ)) (b cs : List ℕ) (buffers : List (List ℕ))
      → (read_list spawn before nothing_read).spawned < 32
      → let s = feed spawn b (read_list spawn before nothing_read) in
        s.spawned ≡ 31
        → is_empty s.line ≡ false
        → is_entry (trimmed s.line) ≡ true
        → spawn (length s.calls) ≡ true
        → parse_startup_list spawn true (before ++ ((b ++ (b'\n' ∷ cs)) ∷ buffers))
          ≡ (s.calls ++ (list_line (trimmed s.line) ∷ [])) ++ (list_line (trimmed s.line) ∷ [])
  unfolding parse_startup_list spawn_line
  parse_startup_list-twice before b cs buffers below count some_byte starts succeeds =
      let s0 = read_list spawn before nothing_read in
      let s = feed spawn b s0 in
      let full : leb 32 (spawn_line spawn s).spawned ≡ true = rw succeeds (ground (arith, count)) in
      let fed : feed spawn (b ++ (b'\n' ∷ cs)) s0 ≡ spawn_line spawn s =
        feed-append b (b'\n' ∷ cs) s0 (omega (arith, count))
        ∙ feed-limit cs s some_byte starts full in
      let read : read_list spawn (before ++ ((b ++ (b'\n' ∷ cs)) ∷ buffers)) nothing_read
          ≡ spawn_line spawn s =
        read_list-append before ((b ++ (b'\n' ∷ cs)) ∷ buffers) nothing_read below
        ∙ read_list-limit (b ++ (b'\n' ∷ cs)) buffers s0 (ap (λ x. leb 32 (x.spawned)) fed ∙ full)
        ∙ fed in
      ap (λ x. (last_line spawn x).calls) read
      ∙ last_line-again (spawn_line spawn s) some_byte starts
