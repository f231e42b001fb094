-- ===== src/Scheduler/Rotation.antt =====
-- The order in which the scheduler of os/kernel/threading/schedular.c goes round its queue, on lists.
use vsnx_os.Base.{
  ℕ, suc, ◌+◌, ◌≤◌, ◌<◌, ◌≡◌, refl, ◌≢◌, ◌⊎◌, inl, inr, false, ◌==◌, if◌then◌else◌, List, [], ◌∷◌,
  ◌++◌, arith, ==_iff, ==-ne, subst, sym, ◌∙◌,
}
use vsnx_os.Queue.Chain.{member, Distinct, member-cons}
use vsnx_os.Queue.Add.{Distinct-append}

abbrev pub set_count : (ℕ → ℕ) → ℕ → ℕ → ℕ → ℕ
set_count c t k u = if u == t then k else c u

-- The thread `u` is picked, with the threads `ys` left in the queue and their cooldowns `d`.
pub data Picked : (c : ℕ → ℕ) (xs : List ℕ) (u : ℕ) (ys : List ℕ) (d : ℕ → ℕ) → Type 0 where
  at_once : {c : ℕ → ℕ} (t : ℕ) (xs : List ℕ) → c t ≡ 0 → Picked c (t ∷ xs) t xs c
  later :
      {c : ℕ → ℕ} {t k : ℕ} {xs : List ℕ} {u : ℕ} {ys : List ℕ} {d : ℕ → ℕ}
      → c t ≡ suc k
      → Picked (set_count c t k) (xs ++ (t ∷ [])) u ys d
      → Picked c (t ∷ xs) u ys d

-- Every thread of the list has a cooldown of at least `k`.
abbrev pub AtLeast : (c : ℕ → ℕ) (k : ℕ) → List ℕ → Type 0
AtLeast c k [] = Unit
AtLeast c k (x ∷ xs) = (k ≤ c x) × AtLeast c k xs

-- `u` is the first thread of the list with the least cooldown.
abbrev pub FirstLeast : (c : ℕ → ℕ) (u : ℕ) → List ℕ → Type 0
FirstLeast c u [] = ⊥
FirstLeast c u (x ∷ xs) = ((x ≡ u) × AtLeast c (c u) xs) ⊎ ((c u < c x) × FirstLeast c u xs)

AtLeast-zero : (c : ℕ → ℕ) (k : ℕ) (xs : List ℕ) → k ≡ 0 → AtLeast c k xs
AtLeast-zero c k [] e = tt
AtLeast-zero c k (x ∷ xs) e = (omega (arith, e), AtLeast-zero c k xs e)

AtLeast-front : (c : ℕ → ℕ) (k t : ℕ) (xs : List ℕ) → AtLeast c k (xs ++ (t ∷ [])) → AtLeast c k xs
AtLeast-front c k t [] a = tt
AtLeast-front c k t (x ∷ xs) (h, a) = (h, AtLeast-front c k t xs a)

AtLeast-last : (c : ℕ → ℕ) (k t : ℕ) (xs : List ℕ) → AtLeast c k (xs ++ (t ∷ [])) → k ≤ c t
AtLeast-last c k t [] (h, a) = h
AtLeast-last c k t (x ∷ xs) (h, a) = AtLeast-last c k t xs a

-- The last of the list is its first least thread, or the first least of the others is no greater.
FirstLeast-last :
    (c : ℕ → ℕ) (u t : ℕ) (xs : List ℕ)
    → FirstLeast c u (xs ++ (t ∷ []))
    → ((t ≡ u) × AtLeast c (suc (c u)) xs) ⊎ (FirstLeast c u xs × (c u ≤ c t))
FirstLeast-last c u t [] (inl (e, a)) = inl (e, tt)
FirstLeast-last c u t [] (inr (h, b)) = absurd b
FirstLeast-last c u t (x ∷ xs) (inl (e, a)) =
    inr (inl (e, AtLeast-front c (c u) t xs a), AtLeast-last c (c u) t xs a)
FirstLeast-last c u t (x ∷ xs) (inr (h, f)) = elim (FirstLeast-last c u t xs f) [
  | inl (e, a) ↦ inl (e, (omega (arith, h), a))
  | inr (g, le) ↦ inr (inr (h, g), le)
]

-- What holds of the cooldowns holds of them before a thread outside the list counted down.
module _ (c : ℕ → ℕ) (t k : ℕ) where
  set_count-apart : (u : ℕ) → u ≢ t → set_count c t k u ≡ c u
  set_count-apart u ne = rw (==-ne u t ne) refl

  AtLeast-before :
      (n : ℕ) (xs : List ℕ) → member t xs ≡ false → AtLeast (set_count c t k) n xs → AtLeast c n xs
  AtLeast-before n [] out a = tt
  AtLeast-before n (x ∷ xs) out (h, a) =
      let (apart, rest) = member-cons t x xs out in
      let same = set_count-apart x (λ e. apart (sym e)) in
      (omega (arith, h, same), AtLeast-before n xs rest a)

  FirstLeast-apart :
      (d : ℕ → ℕ) (u : ℕ) (xs : List ℕ) → member t xs ≡ false → FirstLeast d u xs → u ≢ t
  FirstLeast-apart d u [] out f = absurd f
  FirstLeast-apart d u (x ∷ xs) out (inl (e, a)) =
      let (apart, rest) = member-cons t x xs out in λ z. apart (sym (e ∙ z))
  FirstLeast-apart d u (x ∷ xs) out (inr (h, f)) =
      let (apart, rest) = member-cons t x xs out in FirstLeast-apart d u xs rest f

  FirstLeast-before :
      (u : ℕ) (xs : List ℕ)
      → u ≢ t
      → member t xs ≡ false
      → FirstLeast (set_count c t k) u xs
      → FirstLeast c u xs
  FirstLeast-before u [] ne out f = f
  FirstLeast-before u (x ∷ xs) ne out (inl (e, a)) =
      let (apart, rest) = member-cons t x xs out in
      let same = set_count-apart u ne in
      inl (e, AtLeast-before (c u) xs rest (subst (λ n. AtLeast (set_count c t k) n xs) same a))
  FirstLeast-before u (x ∷ xs) ne out (inr (h, f)) =
      let (apart, rest) = member-cons t x xs out in
      let same = set_count-apart u ne in
      let same_x = set_count-apart x (λ e. apart (sym e)) in
      inr (omega (arith, h, same, same_x), FirstLeast-before u xs ne rest f)

  -- One thread counts down and goes to the end of the queue.
  FirstLeast-later :
      (u : ℕ) (xs : List ℕ)
      → c t ≡ suc k
      → member t xs ≡ false
      → FirstLeast (set_count c t k) u (xs ++ (t ∷ []))
      → FirstLeast c u (t ∷ xs)
  FirstLeast-later u xs e out f = elim (FirstLeast-last (set_count c t k) u t xs f) [
    | inl (same, a) ↦ inl (
      same,
      AtLeast-before (c u) xs out
          (subst (λ n. AtLeast (set_count c t k) n xs) (count_back u same) a),
    )
    | inr (g, le) ↦
        let ne = FirstLeast-apart (set_count c t k) u xs out g in
        let kept = set_count-apart u ne in
        inr (omega (arith, e, kept, at_t, le), FirstLeast-before u xs ne out g)
  ]
    where
      at_t : set_count c t k t ≡ k
      at_t = rw ((==_iff t t).1 refl) refl

      count_back : (v : ℕ) → t ≡ v → suc (set_count c t k v) ≡ c v
      count_back v same = subst (λ z. suc (set_count c t k z) ≡ c z) same (omega (arith, at_t, e))

-- The thread that the rotation picks is the first of those with the least cooldown.
pub Picked-FirstLeast :
    {c d : ℕ → ℕ} {xs ys : List ℕ} {u : ℕ} → Picked c xs u ys d → Distinct xs → FirstLeast c u xs
unfolding Distinct
Picked-FirstLeast {c} (at_once t xs e) dist = inl (refl, AtLeast-zero c (c t) xs e)
Picked-FirstLeast {c} (later {t = t} {k = k} {xs = xs} {u = u} e p) (out, dist) =
    FirstLeast-later c t k u xs e out (Picked-FirstLeast p (Distinct-append t xs out dist))

-- The rounds that the rotation takes at most.
abbrev pub total : (c : ℕ → ℕ) → List ℕ → ℕ
total c [] = 0
total c (x ∷ xs) = c x + total c xs

total-append : (c : ℕ → ℕ) (t : ℕ) (xs : List ℕ) → total c (xs ++ (t ∷ [])) ≡ total c xs + c t
total-append c t [] = omega arith
total-append c t (x ∷ xs) = omega (arith, total-append c t xs)

total-apart :
    (c : ℕ → ℕ) (t k : ℕ) (xs : List ℕ)
    → member t xs ≡ false
    → total (set_count c t k) xs ≡ total c xs
total-apart c t k [] out = refl
total-apart c t k (x ∷ xs) out =
    let (apart, rest) = member-cons t x xs out in
    let same = set_count-apart c t k x (λ e. apart (sym e)) in
    omega (arith, same, total-apart c t k xs rest)

pub total-later :
    (c : ℕ → ℕ) (t k : ℕ) (xs : List ℕ)
    → c t ≡ suc k
    → member t xs ≡ false
    → suc (total (set_count c t k) (xs ++ (t ∷ []))) ≡ total c (t ∷ xs)
total-later c t k xs e out =
    let at_t : set_count c t k t ≡ k = rw ((==_iff t t).1 refl) refl in
    omega (arith, total-append (set_count c t k) t xs, total-apart c t k xs out, at_t, e)
