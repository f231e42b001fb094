-- ===== src/Hookorder/Load/Reading.antt =====
-- hookorder_load of os/kernel/driver/hookorder/hookorder.c over a file system that never returns more
-- than it is asked for: it ends, with the cache in its bounds.
use vsnx_os.Base.{
  ℕ, zero, suc, ◌+◌, ◌-◌, ◌≤◌, ◌<◌, ◌≡◌, refl, Bool, true, false, ltb, Option, none, some, List, [],
  ◌∷◌, ◌++◌, length, arith, Bool-cases, inl, inr, length-append, subst, sym, ℤ, pos, negsuc,
}
use vsnx_os.Strings.{until_zero}
use vsnx_os.Hookorder.{Entry}
use vsnx_os.Hookorder.Load.{
  Cached, cached, read_error, out_of_fuel, read_cache, cache_size, load_lines, hookorder_load,
}
use vsnx_os.Hookorder.Load.Refine.{loaded, load_lines_lem}

-- The contract of `fat_read`: at most `room` bytes.
abbrev pub AtMost : (ℕ → ℕ → Option (List ℕ)) → Type 0
AtMost fat_read =
    (off room : ℕ) (chunk : List ℕ) → fat_read off room ≡ some chunk → length chunk ≤ room

pub data InCache : Cached → Type 0 where
  read_failed : InCache read_error
  in_cache : {cfg : List ℕ} → length cfg < cache_size → InCache (cached cfg)

module _ (fat_read : ℕ → ℕ → Option (List ℕ)) (bound : AtMost fat_read) where
  -- One round, by what the read returns.
  read_round-InCache :
      (n : ℕ) (cfg : List ℕ)
      → length cfg + 1 < cache_size
      → cache_size < suc n + length cfg
      → ((more : List ℕ)
          → length more < cache_size
          → cache_size < n + length more
          → InCache (read_cache n fat_read more))
      → (o : Option (List ℕ)) → fat_read (length cfg) (cache_size - length cfg - 1) ≡ o
      → InCache (elim o [
        | none ↦ read_error
        | some [] ↦ cached cfg
        | some (c ∷ chunk) ↦ read_cache n fat_read (cfg ++ (c ∷ chunk))
      ])
  read_round-InCache n cfg room fuel loop none e = read_failed
  read_round-InCache n cfg room fuel loop (some []) e = in_cache (omega arith)
  read_round-InCache n cfg room fuel loop (some (c ∷ chunk)) e =
      let b = bound (length cfg) (cache_size - length cfg - 1) (c ∷ chunk) e in
      let l = length-append cfg (c ∷ chunk) in loop (cfg ++ (c ∷ chunk)) (omega arith) (omega arith)

  pub read_cache-InCache :
      (n : ℕ) (cfg : List ℕ)
      → length cfg < cache_size
      → cache_size < n + length cfg
      → InCache (read_cache n fat_read cfg)
  unfolding read_cache
  read_cache-InCache zero cfg room fuel = absurd (omega (arith, room, fuel))
  read_cache-InCache (suc n) cfg room fuel = elim (Bool-cases (ltb (length cfg + 1) cache_size)) [
    | inr end ↦ rw (end, read_cache) (in_cache room)
    | inl more ↦
        rw (more, read_cache)
          (read_round-InCache n cfg (ground arith) fuel (read_cache-InCache n)
            (fat_read (length cfg) (cache_size - length cfg - 1)) refl)
  ]

length-until_zero : (cs : List ℕ) → length (until_zero cs) ≤ length cs
unfolding until_zero
length-until_zero [] = omega arith
length-until_zero (c ∷ cs) = ground (arith, length-until_zero cs)

-- How a load ends.
pub data LoadResult (opens : Bool) (es : List Entry) (c : Cached)
    : Option (ℤ × List Entry) → Type 0 where
  not_opened : opens ≡ false → LoadResult opens es c (some (negsuc 0, es))
  not_read : opens ≡ true → c ≡ read_error → LoadResult opens es c (some (negsuc 1, []))
  done :
      (cfg : List ℕ)
      → opens ≡ true
      → c ≡ cached cfg
      → length cfg < cache_size
      → LoadResult opens es c
          (some (pos (length (loaded [] (until_zero cfg))), loaded [] (until_zero cfg)))

-- What `hookorder_load` makes of the cache.
load_cached : (fuel : ℕ) → Cached → Option (ℤ × List Entry)
load_cached fuel out_of_fuel = none
load_cached fuel read_error = some (negsuc 1, [])
load_cached fuel (cached cfg) = elim (load_lines fuel (until_zero cfg) []) [
  | none ↦ none
  | some es ↦ some (pos (length es), es)
]

load_cached-LoadResult :
    (fuel : ℕ) (es : List Entry) {c : Cached}
    → cache_size ≤ fuel
    → InCache c
    → LoadResult true es c (load_cached fuel c)
unfolding load_cached
load_cached-LoadResult fuel es enough read_failed = not_read refl refl
load_cached-LoadResult fuel es enough (in_cache {cfg = cfg} room) =
    let short = length-until_zero cfg in
    let lines_done = load_lines_lem fuel (until_zero cfg) [] (omega arith) (omega arith) in
    rw (lines_done, load_cached) (done cfg refl refl room)

load-cached :
    (fuel : ℕ) (fat_read : ℕ → ℕ → Option (List ℕ)) (es : List Entry)
    → hookorder_load fuel true fat_read es ≡ load_cached fuel (read_cache fuel fat_read [])
unfolding hookorder_load load_cached
load-cached fuel fat_read es = by_cases (read_cache fuel fat_read [])
  where
    by_cases :
        (c : Cached)
        → elim c [
          | out_of_fuel ↦ none
          | read_error ↦ some (negsuc 1, [])
          | cached cfg ↦ elim (load_lines fuel (until_zero cfg) []) [
            | none ↦ none
            | some loaded_entries ↦ some (pos (length loaded_entries), loaded_entries)
          ]
        ]
          ≡ load_cached fuel c
    by_cases out_of_fuel = refl
    by_cases read_error = refl
    by_cases (cached cfg) = refl

-- Where reads return at most what they are asked for, and with fuel for the whole cache, `hookorder_load`
-- ends: it returns -1 with the table as it was, -2 with an empty table, or the number of entries it
-- loaded, which are those of the lines of the text that the reads made up, 256 at most.
pub hookorder_load_lem :
    (fuel : ℕ) (opens : Bool) (fat_read : ℕ → ℕ → Option (List ℕ)) (es : List Entry)
    → AtMost fat_read
    → cache_size < fuel
    → LoadResult opens es (read_cache fuel fat_read []) (hookorder_load fuel opens fat_read es)
unfolding hookorder_load
hookorder_load_lem fuel false fat_read es bound enough = not_opened refl
hookorder_load_lem fuel true fat_read es bound enough =
    subst (LoadResult true es (read_cache fuel fat_read [])) (sym (load-cached fuel fat_read es)) (
      load_cached-LoadResult fuel es (omega arith)
        (read_cache-InCache fat_read bound fuel [] (omega arith) (omega arith)))
