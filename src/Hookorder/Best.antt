-- ===== src/Hookorder/Best.antt =====
-- hookorder_find_best of os/kernel/driver/hookorder/hookorder.c: the most specific entry, and among
-- equally specific ones the first.
use vsnx_os.Base.{
  ℕ, suc, ◌≤◌, ◌<◌, ◌≡◌, true, false, ◌&&◌, ltb, ◌==◌, Option, none, some, List, [], ◌∷◌, arith,
  Bool-cases, inl, inr, ◌++◌, sym, subst,
}
use vsnx_os.Hookorder.{Entry}
use vsnx_os.Hookorder.Table.{entry_fits, rank, best_in, hookorder_find_best, query}

-- No entry of the list fits.
abbrev pub NoneFit : (sub drv : List ℕ) → List Entry → Type 0
NoneFit sub drv [] = Unit
NoneFit sub drv (e ∷ es) = (entry_fits sub drv e ≡ false) × NoneFit sub drv es

-- Every entry of the list that fits has a rank of at least `r`, or above it.
abbrev pub AtLeast : (sub drv : List ℕ) (r : ℕ) → List Entry → Type 0
AtLeast sub drv r [] = Unit
AtLeast sub drv r (e ∷ es) = ((entry_fits sub drv e ≡ true) → r ≤ rank e) × AtLeast sub drv r es

-- What the search returns for a table.
pub data Chosen (sub drv : List ℕ) : List Entry → Option Entry → Type 0 where
  no_fit : {es : List Entry} → NoneFit sub drv es → Chosen sub drv es none
  best :
      (before : List Entry) (e : Entry) (after : List Entry)
      → entry_fits sub drv e ≡ true
      → AtLeast sub drv (suc (rank e)) before
      → AtLeast sub drv (rank e) after
      → Chosen sub drv (before ++ (e ∷ after)) (some e)

rank_small : (e : Entry) → rank e < 4
unfolding rank
rank_small e = ground arith

-- What the loop makes of the best entry so far and its rank: it is kept, or a better one follows.
data Outcome (sub drv : List ℕ) (b : Option Entry) (r : ℕ)
    : List Entry → Option Entry → Type 0 where
  kept : {es : List Entry} → AtLeast sub drv r es → Outcome sub drv b r es b
  better :
      (before : List Entry) (e : Entry) (after : List Entry)
      → entry_fits sub drv e ≡ true
      → rank e < r
      → AtLeast sub drv (suc (rank e)) before
      → AtLeast sub drv (rank e) after
      → Outcome sub drv b r (before ++ (e ∷ after)) (some e)

AtLeast-zero : (sub drv : List ℕ) (es : List Entry) → AtLeast sub drv 0 es
AtLeast-zero sub drv [] = tt
AtLeast-zero sub drv (e ∷ es) = (λ f. omega arith, AtLeast-zero sub drv es)

module _ (sub drv : List ℕ) (e : Entry) where
  Outcome-skip :
      {es : List Entry} {o : Option Entry} {b : Option Entry} {r : ℕ}
      → ((entry_fits sub drv e ≡ true) → r ≤ rank e)
      → Outcome sub drv b r es o
      → Outcome sub drv b r (e ∷ es) o
  Outcome-skip worse (kept a) = kept (worse, a)
  Outcome-skip worse (better before e' after f lt a a') =
      better (e ∷ before) e' after f lt (λ h. let w = worse h in omega arith, a) a'

  Outcome-take :
      {es : List Entry} {o : Option Entry} {b : Option Entry} {r : ℕ}
      → entry_fits sub drv e ≡ true
      → rank e < r
      → Outcome sub drv (some e) (rank e) es o
      → Outcome sub drv b r (e ∷ es) o
  Outcome-take {es} f lt (kept a) = better [] e es f lt tt a
  Outcome-take f lt (better before e' after f' lt' a a') =
      better (e ∷ before) e' after f' (omega arith) (λ h. omega arith, a) a'

best_in-Outcome :
    (sub drv : List ℕ) (es : List Entry) (b : Option Entry) (r : ℕ)
    → Outcome sub drv b r es (best_in es sub drv b r)
unfolding best_in
best_in-Outcome sub drv [] b r = kept tt
best_in-Outcome sub drv (e ∷ es) b r = elim (Bool-cases (entry_fits sub drv e && ltb (rank e) r)) [
  | inr skip ↦
      rw (skip, best_in)
        (Outcome-skip sub drv e (λ f. ground arith) (best_in-Outcome sub drv es b r))
  | inl take ↦
      let f : entry_fits sub drv e ≡ true = ground arith in
      let lt : rank e < r = ground arith in
      elim (Bool-cases (rank e == 0)) [
        | inl exact ↦
            rw (take, exact, best_in) (better [] e es f lt tt (rank_zero sub drv e es exact))
        | inr general ↦
            rw (take, general, best_in)
              (Outcome-take sub drv e f lt (best_in-Outcome sub drv es (some e) (rank e)))
      ]
]
  where
    rank_zero :
        (sub drv : List ℕ) (e : Entry) (es : List Entry)
        → (rank e == 0) ≡ true
        → AtLeast sub drv (rank e) es
    rank_zero sub drv e es exact =
        let z : rank e ≡ 0 = ground arith in
        subst (λ k. AtLeast sub drv k es) (sym z) (AtLeast-zero sub drv es)

AtLeast-NoneFit : (sub drv : List ℕ) (es : List Entry) → AtLeast sub drv 999 es → NoneFit sub drv es
AtLeast-NoneFit sub drv [] a = tt
AtLeast-NoneFit sub drv (e ∷ es) (h, a) = (none_here, AtLeast-NoneFit sub drv es a)
  where
    none_here : entry_fits sub drv e ≡ false
    none_here = elim (Bool-cases (entry_fits sub drv e)) [
      | inl f ↦ absurd (let w = h f in omega (arith, rank_small e))
      | inr f ↦ f
    ]

Outcome-Chosen :
    (sub drv : List ℕ) {es : List Entry} {o : Option Entry}
    → Outcome sub drv none 999 es o
    → Chosen sub drv es o
Outcome-Chosen sub drv {es} (kept a) = no_fit (AtLeast-NoneFit sub drv es a)
Outcome-Chosen sub drv (better before e after f lt a a') = best before e after f a a'

-- `hookorder_find_best` returns the entry that fits with the least rank, the first of these, where a
-- wildcard for the subclass counts 2 and one for the driver 1; and null exactly where no entry fits.
pub find_best-Chosen :
    (es : List Entry) (subclass driver : List ℕ)
    → Chosen (query subclass) (query driver) es (hookorder_find_best es subclass driver)
unfolding hookorder_find_best
find_best-Chosen es subclass driver =
    Outcome-Chosen (query subclass) (query driver)
      (best_in-Outcome (query subclass) (query driver) es none 999)
