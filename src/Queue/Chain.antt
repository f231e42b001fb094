-- ===== src/Queue/Chain.antt =====
-- Chains of `next` pointers (os/kernel/threading/schedular.c) and the lists they stand for.
use vsnx_os.Base.{
  ℕ, zero, suc, ◌<◌, ◌≡◌, refl, ◌≢◌, Bool, true, false, arith, ◌==◌, if◌then◌else◌, some, List, [],
  ◌∷◌, ◌++◌, length, Bool-cases, inl, inr, ==_iff, ==-ne, ==-ne_iff, ap, subst, sym, ◌∙◌,
}
use vsnx_os.Queue.{link, is_queued, last_from, unlink}

-- From `p` on, the pointers lead through the threads of the list to null.
unfoldable pub Chain : (ℕ → ℕ) → ℕ → List ℕ → Type 0
Chain next p [] = p ≡ 0
Chain next p (x ∷ xs) = (p ≡ x) × (x ≢ 0) × Chain next (next x) xs

unfoldable pub member : ℕ → List ℕ → Bool
member t [] = false
member t (x ∷ xs) = if t == x then true else member t xs

-- No thread twice.
unfoldable pub Distinct : List ℕ → Type 0
Distinct [] = Unit
Distinct (x ∷ xs) = (member x xs ≡ false) × Distinct xs

unfoldable pub erase : ℕ → List ℕ → List ℕ
erase t [] = []
erase t (x ∷ xs) = if t == x then xs else x ∷ erase t xs

unfoldable pub last : ℕ → List ℕ → ℕ
last x [] = x
last x (y ∷ ys) = last y ys

pub member-cons :
    (t x : ℕ) (xs : List ℕ) → member t (x ∷ xs) ≡ false → (t ≢ x) × (member t xs ≡ false)
unfolding member
member-cons t x xs out = elim (Bool-cases (t == x)) [
  | inl same ↦ absurd (ground arith)
  | inr apart ↦ ((==-ne_iff t x).0 apart, ground arith)
]

-- A write to a thread that is not in the list.
pub Chain-link :
    (next : ℕ → ℕ) (t v p : ℕ) (xs : List ℕ)
    → member t xs ≡ false
    → Chain next p xs
    → Chain (link next t v) p xs
unfolding Chain member
Chain-link next t v p [] out c = c
Chain-link next t v p (x ∷ xs) out (e, ne, c) =
    let (apart, later) = member-cons t x xs out in
    let same : link next t v x ≡ next x = ground (arith, ==-ne x t (λ h. apart (sym h))) in
    (
      e,
      ne,
      subst (λ a. Chain (link next t v) a xs) (sym same) (Chain-link next t v (next x) xs later c),
    )

pub is_queued_lem :
    (n : ℕ) (next : ℕ → ℕ) (t p : ℕ) (xs : List ℕ)
    → t ≢ 0
    → length xs < n
    → Chain next p xs
    → is_queued n next p t ≡ some (member t xs)
unfolding Chain member is_queued
is_queued_lem zero next t p xs there fuel c = absurd (omega arith)
is_queued_lem (suc n) next t p [] there fuel c = ground arith
is_queued_lem (suc n) next t p (x ∷ xs) there fuel (e, ne, c) =
    rw e (ground (arith, is_queued_lem n next t (next x) xs there (omega arith) c))

pub last_from_lem :
    (n : ℕ) (next : ℕ → ℕ) (p x : ℕ) (xs : List ℕ)
    → length xs < n
    → Chain next p (x ∷ xs)
    → last_from n next p ≡ some (last x xs)
unfolding Chain last last_from
last_from_lem zero next p x xs fuel c = absurd (omega arith)
last_from_lem (suc n) next p x [] fuel (e, ne, c) = rw e (ground arith)
last_from_lem (suc n) next p x (y ∷ ys) fuel (e, ne, (e', ne', c)) =
    rw e (ground (arith, last_from_lem n next (next x) y ys (omega arith) (e', ne', c)))

last-member : (x : ℕ) (xs : List ℕ) → member (last x xs) (x ∷ xs) ≡ true
unfolding last member
last-member x [] = ground arith
last-member x (y ∷ ys) = ground (arith, last-member y ys)

pub Chain-append :
    (next : ℕ → ℕ) (t p x : ℕ) (xs : List ℕ)
    → t ≢ 0
    → next t ≡ 0
    → member t (x ∷ xs) ≡ false
    → Distinct (x ∷ xs)
    → Chain next p (x ∷ xs)
    → Chain (link next (last x xs) t) p ((x ∷ xs) ++ (t ∷ []))
unfolding Chain member Distinct last
Chain-append next t p x [] there end out d (e, ne, c) =
    let (apart, rest) = member-cons t x [] out in (e, ne, (ground arith, there, ground arith))
Chain-append next t p x (y ∷ ys) there end out (d, ds) (e, ne, c) =
    let (apart, later) = member-cons t x (y ∷ ys) out in
    let behind : x ≢ last y ys =
      λ h. absurd (cc (d, last-member y ys, ap (λ z. member z (y ∷ ys)) h)) in
    let same : link next (last y ys) t x ≡ next x = ground (arith, ==-ne x (last y ys) behind) in
    (
      e,
      ne,
      subst (λ a. Chain (link next (last y ys) t) a ((y ∷ ys) ++ (t ∷ []))) (sym same)
          (Chain-append next t (next x) y ys there end later ds c),
    )

-- What the removal loop leaves, from a thread on that is not the target.
module _ (t : ℕ) where
  pub record Unlinked (next : ℕ → ℕ) (x : ℕ) (xs : List ℕ) (next' : ℕ → ℕ) : Type 0 where
    pub chain : Chain next' x (x ∷ erase t xs)
    pub others : (y : ℕ) → member y (x ∷ xs) ≡ false → y ≢ t → next' y ≡ next y

  -- The target comes next: it is bypassed.
  Unlinked-here :
      (next : ℕ → ℕ) (x y : ℕ) (ys : List ℕ)
      → t ≡ y
      → t ≢ x
      → Distinct (x ∷ y ∷ ys)
      → Chain next x (x ∷ y ∷ ys)
      → Unlinked next x (y ∷ ys) (link (link next x (next t)) t 0)
  unfolding Chain Distinct erase
  Unlinked-here next x y ys here apart (d, (dy, ds)) (e, ne, (e', ne', c)) =
      let (xy, x_out) = member-cons x y ys d in
      let t_out : member t ys ≡ false = subst (λ z. member z ys ≡ false) (sym here) dy in
      let gone : erase t (y ∷ ys) ≡ ys = ground (arith, (==_iff t y).1 here) in
      let chain_t : Chain next (next t) ys = subst (λ z. Chain next (next z) ys) (sym here) c in
      let after = link (link next x (next t)) t 0 in
      let skips : after x ≡ next t = ground (arith, ==-ne x t (λ h. apart (sym h))) in
      let chain_after : Chain after (next t) ys =
        Chain-link (link next x (next t)) t 0 (next t) ys t_out
          (Chain-link next x (next t) (next t) ys x_out chain_t) in
      record {
        chain =
            subst (λ l. Chain after x (x ∷ l)) (sym gone)
              (refl, ne, subst (λ a. Chain after a ys) (sym skips) chain_after);
        others = λ z out nz. ground (arith, member-cons z x (y ∷ ys) out, ==-ne z t nz);
      }

  -- The target is not next: the loop goes on, and this thread's pointer stays.
  Unlinked-behind :
      (next next' : ℕ → ℕ) (x y : ℕ) (ys : List ℕ)
      → t ≢ y
      → t ≢ x
      → next x ≡ y
      → x ≢ 0
      → member x (y ∷ ys) ≡ false
      → Unlinked next y ys next'
      → Unlinked next x (y ∷ ys) next'
  unfolding Chain erase
  Unlinked-behind next next' x y ys apart_y apart_x points ne d u =
      let kept : erase t (y ∷ ys) ≡ y ∷ erase t ys = ground (arith, ==-ne t y apart_y) in
      let same : next' x ≡ y = u.others x d (λ h. apart_x (sym h)) ∙ points in
      record {
        chain =
            subst (λ l. Chain next' x (x ∷ l)) (sym kept)
              (refl, ne, subst (λ a. Chain next' a (y ∷ erase t ys)) (sym same) u.chain);
        others = λ z out nz. u.others z (member-cons z x (y ∷ ys) out).1 nz;
      }

  unlink-here :
      (n : ℕ) (next : ℕ → ℕ) (x y : ℕ)
      → x ≢ 0
      → y ≢ 0
      → next x ≡ y
      → t ≡ y
      → unlink (suc n) next x t ≡ some (link (link next x (next t)) t 0)
  unfolding unlink
  unlink-here n next x y nx ny points here = ground (
    arith,
    ==-ne x 0 nx,
    ==-ne (next x) 0 (λ h. ny (sym points ∙ h)),
    (==_iff (next x) t).1 (points ∙ sym here),
  )

  unlink-behind :
      (n : ℕ) (next : ℕ → ℕ) (x y : ℕ)
      → x ≢ 0
      → y ≢ 0
      → next x ≡ y
      → t ≢ y
      → unlink (suc n) next x t ≡ unlink n next y t
  unfolding unlink
  unlink-behind n next x y nx ny points behind = ground (
    arith,
    ==-ne x 0 nx,
    ==-ne (next x) 0 (λ h. ny (sym points ∙ h)),
    ==-ne (next x) t (λ h. behind (sym h ∙ points)),
    ap (λ z. unlink n next z t) points,
  )

  unlink-end : (n : ℕ) (next : ℕ → ℕ) (x : ℕ) → next x ≡ 0 → unlink (suc n) next x t ≡ some next
  unfolding unlink
  unlink-end n next x e = ground (arith, (==_iff (next x) 0).1 e)

  Unlinked-end : (next : ℕ → ℕ) (x : ℕ) → Chain next x (x ∷ []) → Unlinked next x [] next
  unfolding erase
  Unlinked-end next x c = record { chain = c; others = λ y out ny. refl }

  pub unlink_lem :
      (n : ℕ) (next : ℕ → ℕ) (x : ℕ) (xs : List ℕ)
      → length xs < n
      → t ≢ x
      → Distinct (x ∷ xs)
      → Chain next x (x ∷ xs)
      → (next' : ℕ → ℕ) × (unlink n next x t ≡ some next') × Unlinked next x xs next'
  unfolding Chain Distinct
  unlink_lem zero next x xs fuel apart d c = absurd (omega arith)
  unlink_lem (suc n) next x [] fuel apart d (e, ne, c) =
      (next, unlink-end n next x c, Unlinked-end next x (e, ne, c))
  unlink_lem (suc n) next x (y ∷ ys) fuel apart (d, ds) (e, ne, (e', ne', c)) =
      elim (Bool-cases (t == y)) [
        | inl here ↦
            let h = (==_iff t y).0 here in
            (
              link (link next x (next t)) t 0,
              unlink-here n next x y ne ne' e' h,
              Unlinked-here next x y ys h apart (d, ds) (e, ne, (e', ne', c)),
            )
        | inr behind ↦
            let b = (==-ne_iff t y).0 behind in
            let (next', run, u) = unlink_lem n next y ys (omega arith) b ds (refl, ne', c) in
            (
              next',
              unlink-behind n next x y ne ne' e' b ∙ run,
              Unlinked-behind next next' x y ys b apart e' ne d u,
            )
      ]
