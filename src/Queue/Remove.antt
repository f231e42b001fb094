-- ===== src/Queue/Remove.antt =====
-- remove_from_ready_queue of os/kernel/threading/schedular.c against a list of threads.
use vsnx_os.Base.{
  ℕ, suc, ◌<◌, ◌≡◌, refl, ◌≢◌, true, false, ◌||◌, arith, ◌==◌, some, List, [], ◌∷◌, length,
  Bool-cases, inl, inr, ==_iff, ==-ne, ==-ne_iff, ap, subst, sym, ◌∙◌,
}
use vsnx_os.Queue.{Queue, link, unlink, remove_from_ready_queue}
use vsnx_os.Queue.Chain.{Chain, member, Distinct, erase, member-cons, Chain-link, unlink_lem}
use vsnx_os.Queue.Order.{IsQueue, Chain-first, Chain-none}

member-erase : (s t : ℕ) (xs : List ℕ) → member s xs ≡ false → member s (erase t xs) ≡ false
unfolding member erase
member-erase s t [] out = refl
member-erase s t (x ∷ xs) out =
    let (now, later) = member-cons s x xs out in
    ground (arith, ==-ne s x now, member-erase s t xs later)

Distinct-erase : (t : ℕ) (xs : List ℕ) → Distinct xs → Distinct (erase t xs)
unfolding Distinct erase
Distinct-erase t [] d = tt
Distinct-erase t (x ∷ xs) (d, ds) = elim (Bool-cases (t == x)) [
  | inl here ↦ rw here ds
  | inr behind ↦ rw behind (member-erase x t xs d, Distinct-erase t xs ds)
]

-- What removing a thread comes to.
abbrev pub Removed : (fuel : ℕ) (q : Queue) (t : ℕ) (xs : List ℕ) → Type 0
Removed fuel q t xs =
    (q' : Queue) × (remove_from_ready_queue fuel q t ≡ some q')
    × IsQueue q' (erase t xs)
    × (q'.state ≡ q.state)

erase-nil : (t : ℕ) → erase t [] ≡ []
unfolding erase
erase-nil t = refl

erase-head : (t : ℕ) (xs : List ℕ) → erase t (t ∷ xs) ≡ xs
unfolding erase
erase-head t xs = ground arith

erase-later : (t x : ℕ) (xs : List ℕ) → t ≢ x → erase t (x ∷ xs) ≡ x ∷ erase t xs
unfolding erase
erase-later t x xs ne = ground (arith, ==-ne t x ne)

-- Null is in no chain.
Chain-null : (next : ℕ → ℕ) (p : ℕ) (xs : List ℕ) → Chain next p xs → erase 0 xs ≡ xs
unfolding Chain erase
Chain-null next p [] c = refl
Chain-null next p (x ∷ xs) (e, ne, c) =
    ground (arith, ==-ne 0 x (λ h. ne (sym h)), Chain-null next (next x) xs c)

Chain-rest :
    (next : ℕ → ℕ) (t : ℕ) (xs : List ℕ)
    → member t xs ≡ false
    → Chain next t (t ∷ xs)
    → Chain (link next t 0) (next t) xs
unfolding Chain
Chain-rest next t xs out (e, ne, c) = Chain-link next t 0 (next t) xs out c

Distinct-cons : (x : ℕ) (xs : List ℕ) → Distinct (x ∷ xs) → (member x xs ≡ false) × Distinct xs
unfolding Distinct
Distinct-cons x xs d = d

module _ (fuel : ℕ) (q : Queue) (t : ℕ) where
  remove_ignored :
      (xs : List ℕ)
      → (t == 0 || q.ready_queue == 0) ≡ true
      → erase t xs ≡ xs
      → IsQueue q xs
      → Removed fuel q t xs
  unfolding remove_from_ready_queue
  remove_ignored xs h same v = (q, rw (h, remove_from_ready_queue) refl, rw same v, refl)

  remove_first :
      (xs : List ℕ) → t ≢ 0 → q.ready_queue ≡ t → IsQueue q (t ∷ xs) → Removed fuel q t (t ∷ xs)
  unfolding remove_from_ready_queue
  remove_first xs there first v =
      let (out, ds) = Distinct-cons t xs v.distinct in
      let c = Chain-rest q.next t xs out (subst (λ p. Chain q.next p (t ∷ xs)) first v.chain) in
      let go : (t == 0 || q.ready_queue == 0) ≡ false =
        ground (arith, ==-ne t 0 there, ==-ne q.ready_queue 0 (λ h. there (sym first ∙ h))) in
      (
        record { ready_queue = q.next q.ready_queue; next = link q.next t 0; state = q.state },
        rw (go, (==_iff q.ready_queue t).1 first, remove_from_ready_queue) refl,
        rw (erase-head t xs) record { chain = rw first c; distinct = ds },
        refl,
      )

  remove_later :
      (x : ℕ) (xs : List ℕ)
      → length xs < fuel
      → t ≢ 0
      → t ≢ x
      → q.ready_queue ≡ x
      → IsQueue q (x ∷ xs)
      → Removed fuel q t (x ∷ xs)
  unfolding remove_from_ready_queue
  remove_later x xs room there apart first v =
      let (e, ne) = Chain-first q.next q.ready_queue x xs v.chain in
      let go : (t == 0 || q.ready_queue == 0) ≡ false =
        ground (arith, ==-ne t 0 there, ==-ne q.ready_queue 0 ne) in
      let not_first : (q.ready_queue == t) ≡ false =
        ==-ne q.ready_queue t (λ h. apart (sym h ∙ first)) in
      let c = subst (λ p. Chain q.next p (x ∷ xs)) first v.chain in
      let (next', run, u) = unlink_lem t fuel q.next x xs room apart v.distinct c in
      let run' : unlink fuel q.next q.ready_queue t ≡ some next' =
        ap (λ p. unlink fuel q.next p t) first ∙ run in
      (
        record { ready_queue = q.ready_queue; next = next'; state = q.state },
        rw (go, not_first, run', remove_from_ready_queue) refl,
        record {
          chain =
              subst (λ l. Chain next' q.ready_queue l) (sym (erase-later t x xs apart))
                (subst (λ p. Chain next' p (x ∷ erase t xs)) (sym first) u.chain);
          distinct = Distinct-erase t (x ∷ xs) v.distinct;
        },
        refl,
      )

  -- With at least as much fuel as the queue has threads, `remove_from_ready_queue` ends: the thread is
  -- out of the queue, the others keep their order, and no thread's state changes.
  pub remove_lem : (xs : List ℕ) → length xs < suc fuel → IsQueue q xs → Removed fuel q t xs
  remove_lem [] room v =
      remove_ignored [] (ground (arith, Chain-none q.next q.ready_queue v.chain)) (erase-nil t) v
  remove_lem (x ∷ xs) room v =
      let (first, ne) = Chain-first q.next q.ready_queue x xs v.chain in
      elim (Bool-cases (t == 0)) [
        | inl null ↦
            let z : t ≡ 0 = (==_iff t 0).0 null in
            remove_ignored (x ∷ xs) (rw null refl)
              (subst (λ s. erase s (x ∷ xs) ≡ x ∷ xs) (sym z)
                (Chain-null q.next q.ready_queue (x ∷ xs) v.chain))
              v
        | inr there ↦
            let nz = (==-ne_iff t 0).0 there in
            elim (Bool-cases (t == x)) [
              | inl here ↦
                  let h = (==_iff t x).0 here in
                  subst (λ s. Removed fuel q t (s ∷ xs)) h
                    (remove_first xs nz (first ∙ sym h) (subst (λ s. IsQueue q (s ∷ xs)) (sym h) v))
              | inr behind ↦ remove_later x xs (omega arith) nz ((==-ne_iff t x).0 behind) first v
            ]
      ]
