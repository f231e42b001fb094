-- ===== src/Strings/Search.antt =====
-- strchr, strrchr and strstr of os/kernel/utilities/strings/strings.c: the first place, or the last.
use vsnx_os.Base.{
  ℕ, zero, suc, ◌≤◌, ◌<◌, ◌≡◌, refl, ◌≢◌, true, false, arith, ◌==◌, Option, none, some, List, [],
  ◌∷◌, ◌++◌, Bool-cases, inl, inr, ==_iff, ==-ne, subst, ==-ne_iff, sym, drop, length,
}
use vsnx_os.Strings.{strchr, next_offset, starts_with, strstr, strstr_loop}

-- The string without `c`.
abbrev pub Lacks : ℕ → List ℕ → Type 0
Lacks c [] = Unit
Lacks c (x ∷ xs) = (x ≢ c) × Lacks c xs

-- What the search for the first place returns.
pub data First (c : ℕ) : List ℕ → Option ℕ → Type 0 where
  at :
      (before after : List ℕ)
      → Lacks c before
      → First c (before ++ (c ∷ after)) (some (length before))
  nowhere : {xs : List ℕ} → Lacks c xs → First c xs none

First-later :
    (c x : ℕ) {xs : List ℕ} {o : Option ℕ} → x ≢ c → First c xs o → First c (x ∷ xs) (next_offset o)
First-later c x ne (at before after l) = at (x ∷ before) after (ne, l)
First-later c x ne (nowhere l) = nowhere (ne, l)

-- The search for a byte that is not the terminator: it is at the place returned and nowhere before,
-- or it is not in the string.
pub strchr-First : (c : ℕ) (xs : List ℕ) → 0 < c → First c xs (strchr xs c)
unfolding strchr
strchr-First c [] pos = rw (==-ne c 0 (λ e. omega (arith, e))) (nowhere tt)
strchr-First c (x ∷ xs) pos = elim (Bool-cases (x == c)) [
  | inl here ↦
      rw here (subst (λ z. First c (z ∷ xs) (some 0)) (sym ((==_iff x c).0 here)) (at [] xs tt))
  | inr later ↦ rw later (First-later c x ((==-ne_iff x c).0 later) (strchr-First c xs pos))
]

pub strchr-Lacks : (c : ℕ) (xs : List ℕ) → 0 < c → Lacks c xs → strchr xs c ≡ none
unfolding strchr
strchr-Lacks c [] pos l = rw (==-ne c 0 (λ e. omega (arith, e))) refl
strchr-Lacks c (x ∷ xs) pos (ne, l) = rw (==-ne x c ne, strchr-Lacks c xs pos l) refl

pub strchr-append :
    (c : ℕ) (before after : List ℕ)
    → Lacks c before
    → strchr (before ++ (c ∷ after)) c ≡ some (length before)
unfolding strchr
strchr-append c [] after l = rw ((==_iff c c).1 refl) refl
strchr-append c (x ∷ xs) after (ne, l) = rw (==-ne x c ne, strchr-append c xs after l) refl

pub Lacks-append : (c : ℕ) (xs ys : List ℕ) → Lacks c xs → Lacks c ys → Lacks c (xs ++ ys)
Lacks-append c [] ys l m = m
Lacks-append c (x ∷ xs) ys (ne, l) m = (ne, Lacks-append c xs ys l m)

-- What `strstr` returns: the first offset where the needle stands.
abbrev pub FoundAt : List ℕ → List ℕ → Option ℕ → Type 0
FoundAt h needle none = (j : ℕ) → j ≤ length h → starts_with (drop j h) needle ≡ false
FoundAt h needle (some i) =
    (i ≤ length h)
    × (starts_with (drop i h) needle ≡ true)
    × ((j : ℕ) → j < i → starts_with (drop j h) needle ≡ false)

Found-here :
    (x : ℕ) (h needle : List ℕ)
    → starts_with (x ∷ h) needle ≡ true
    → FoundAt (x ∷ h) needle (some 0)
Found-here x h needle yes_here = (omega arith, yes_here, λ j hj. absurd (omega (arith, hj)))

Found-later :
    (x : ℕ) (h needle : List ℕ) (o : Option ℕ)
    → starts_with (x ∷ h) needle ≡ false
    → FoundAt h needle o
    → FoundAt (x ∷ h) needle (next_offset o)
Found-later x h needle none not_here f = λ j hj. before j hj
  where
    before : (j : ℕ) → j ≤ suc (length h) → starts_with (drop j (x ∷ h)) needle ≡ false
    before zero hj = not_here
    before (suc j) hj = f j (omega arith)
Found-later x h needle (some i) not_here (lo, there, f) = (omega arith, there, before)
  where
    before : (j : ℕ) → j < suc i → starts_with (drop j (x ∷ h)) needle ≡ false
    before zero hj = not_here
    before (suc j) hj = f j (omega arith)

strstr_loop-Found : (h : List ℕ) (n : ℕ) (ns : List ℕ) → FoundAt h (n ∷ ns) (strstr_loop h (n ∷ ns))
unfolding strstr_loop starts_with
strstr_loop-Found [] n ns = at_end
  where
    at_end : (j : ℕ) → j ≤ 0 → starts_with (drop j []) (n ∷ ns) ≡ false
    at_end zero hj = refl
    at_end (suc j) hj = refl
strstr_loop-Found (x ∷ h) n ns = elim (Bool-cases (starts_with (x ∷ h) (n ∷ ns))) [
  | inl here ↦ rw here (Found-here x h (n ∷ ns) here)
  | inr later ↦
      rw later (Found-later x h (n ∷ ns) (strstr_loop h (n ∷ ns)) later (strstr_loop-Found h n ns))
]

-- `strstr` returns the first offset from which on the needle stands in the string, and null exactly
-- where it stands nowhere.
pub strstr-Found : (h needle : List ℕ) → FoundAt h needle (strstr h needle)
unfolding strstr starts_with
strstr-Found h [] = (omega arith, refl, λ j hj. absurd (omega (arith, hj)))
strstr-Found h (n ∷ ns) = strstr_loop-Found h n ns
