-- ===== src/Keyboard/Ring.antt =====
-- The input buffer of drivers/hid/pstwo/keybrd/keypstwo.c as a queue of characters.
use vsnx_os.Base.{
  ℕ, zero, suc, ◌+◌, ◌-◌, ◌%◌, ◌≤◌, ◌<◌, ◌≡◌, ◌≢◌, refl, ◌∙◌, ap, ap₂, inl, inr, Bool-cases, ltb,
  ◌==◌, if◌then◌else◌, List, [], ◌∷◌, ◌++◌, length, take, arith, sym, take_all, take-append_le,
  take-append-take, length-append,
}
use mathlib.Core.List.{append_assoc, append-nil}
use native.Mathlib.Nat.{mod-add-mod, mod-eq_of_lt}
use vsnx_os.Keyboard.{
  KeyboardBuffer, keyboard_buffer_size, keyboard_buffer_put, keyboard_buffer_get,
}

pub record IsValid (b : KeyboardBuffer) : Type 0 where
  pub head_in : b.head < keyboard_buffer_size
  pub tail_in : b.tail < keyboard_buffer_size
  pub count_in : b.count ≤ keyboard_buffer_size
  pub head_at : b.head ≡ (b.tail + b.count) % keyboard_buffer_size

module _ (buf : ℕ → ℕ) where
  -- The `n` characters from an index on, going round at the size.
  unfoldable pub window : ℕ → ℕ → List ℕ
  window h zero = []
  window h (suc n) = buf h ∷ window ((h + 1) % keyboard_buffer_size) n

  length-window : (h n : ℕ) → length (window h n) ≡ n
  unfolding window
  length-window h zero = refl
  length-window h (suc n) = ap suc (length-window ((h + 1) % keyboard_buffer_size) n)

-- The characters in the buffer, the oldest first.
abbrev pub contents : KeyboardBuffer → List ℕ
contents b = window b.buffer b.tail b.count

pub length-contents : (b : KeyboardBuffer) → length (contents b) ≡ b.count
length-contents b = length-window b.buffer b.tail b.count

-- A place that is not yet reached on the way round is not the start.
not_round : {h k : ℕ} → h < 256 → suc k < 256 → (h + suc k) % 256 ≢ h
not_round hh hk = omega arith

-- Writing just past a window extends it by that character.
window-put :
    (buf : ℕ → ℕ) (c n h i : ℕ)
    → h < 256
    → n < 256
    → i ≡ (h + n) % 256
    → window (λ j. if j == i then c else buf j) h (suc n) ≡ window buf h n ++ (c ∷ [])
unfolding window
window-put buf c zero h i hh hn e = ap (λ x. x ∷ []) (ground (arith, mod-eq_of_lt hh))
window-put buf c (suc n) h i hh hn e =
    ap₂ ◌∷◌ (ground (arith, not_round {h = h} {k = n} hh hn))
      (window-put buf c n ((h + 1) % 256) i (omega arith) (omega arith) (e ∙ shift))
  where
    shift : (h + suc n) % 256 ≡ ((h + 1) % 256 + n) % 256
    shift = rw mod-add-mod (ap (λ k. k % 256) (omega arith))

window-put_one :
    (buf : ℕ → ℕ) (c n h i : ℕ)
    → h < 256
    → n < 256
    → i ≡ (h + n) % 256
    → window (λ j. if j == i then c else buf j) h (n + 1) ≡ window buf h n ++ (c ∷ [])
window-put_one buf c n h i hh hn e =
    ap (λ m. window (λ j. if j == i then c else buf j) h m) (omega arith)
    ∙ window-put buf c n h i hh hn e

pub keyboard_buffer_put-IsValid :
    {b : KeyboardBuffer} (c : ℕ) → IsValid b → IsValid (keyboard_buffer_put c b)
unfolding keyboard_buffer_put
keyboard_buffer_put-IsValid c v = ground arith

pub keyboard_buffer_get-IsValid :
    {b : KeyboardBuffer} → IsValid b → IsValid (keyboard_buffer_get b).1
unfolding keyboard_buffer_get
keyboard_buffer_get-IsValid v = ground arith

-- What a queue of at most the size's characters keeps of those that come.
abbrev pub kept : List ℕ → List ℕ
kept cs = take keyboard_buffer_size cs

pub contents-put :
    {b : KeyboardBuffer} (c : ℕ)
    → IsValid b
    → contents (keyboard_buffer_put c b) ≡ kept (contents b ++ (c ∷ []))
unfolding keyboard_buffer_put
contents-put {b} c v = elim (Bool-cases (ltb b.count 256)) [
  | inl room ↦ rw room (
      window-put_one b.buffer c b.count b.tail b.head v.tail_in (ground arith) v.head_at
      ∙ sym (
          take_all 256 (contents b ++ (c ∷ []))
            (ground (arith, length-append (contents b) (c ∷ []), length-contents b))))
  | inr full ↦ rw full (
      sym (
        take-append_le 256 (contents b) (c ∷ []) (ground (arith, length-contents b))
        ∙ take_all 256 (contents b) (ground (arith, length-contents b))))
]

-- What a read takes from a queue: 0 when it is empty.
abbrev pub first : List ℕ → ℕ × List ℕ
first [] = (0, [])
first (c ∷ cs) = (c, cs)

window-first :
    (buf : ℕ → ℕ) (h n : ℕ)
    → 0 < n
    → first (window buf h n) ≡ (buf h, window buf ((h + 1) % 256) (n - 1))
unfolding window
window-first buf h zero some_left = absurd (omega arith)
window-first buf h (suc n) some_left = ap (λ k. (buf h, window buf ((h + 1) % 256) k)) (omega arith)

window-emptied : (buf : ℕ → ℕ) (h n : ℕ) → n ≡ 0 → (0, window buf h n) ≡ first (window buf h n)
unfolding window
window-emptied buf h zero e = refl
window-emptied buf h (suc n) e = absurd (omega (arith, e))

pub contents-get :
    (b : KeyboardBuffer)
    → ((keyboard_buffer_get b).0, contents (keyboard_buffer_get b).1) ≡ first (contents b)
unfolding keyboard_buffer_get
contents-get b = elim (Bool-cases (ltb 0 b.count)) [
  | inl left ↦ rw left (sym (window-first b.buffer b.tail b.count (ground arith)))
  | inr none_left ↦ rw none_left (window-emptied b.buffer b.tail b.count (ground arith))
]

-- Characters that come one after the other.
abbrev pub put_all : List ℕ → KeyboardBuffer → KeyboardBuffer
put_all [] b = b
put_all (c ∷ cs) b = put_all cs (keyboard_buffer_put c b)

pub put_all-IsValid : (cs : List ℕ) {b : KeyboardBuffer} → IsValid b → IsValid (put_all cs b)
put_all-IsValid [] v = v
put_all-IsValid (c ∷ cs) v = put_all-IsValid cs (keyboard_buffer_put-IsValid c v)

pub kept_nil : {b : KeyboardBuffer} → IsValid b → kept (contents b ++ []) ≡ contents b
kept_nil {b} v =
    ap kept (append-nil (contents b))
    ∙ take_all 256 (contents b) (ground (arith, length-contents b))

pub kept-append : (xs ys zs : List ℕ) → kept (kept (xs ++ ys) ++ zs) ≡ kept (xs ++ (ys ++ zs))
kept-append xs ys zs =
    take-append-take keyboard_buffer_size (xs ++ ys) zs ∙ ap kept (append_assoc xs ys zs)

pub contents-put_all :
    (cs : List ℕ) {b : KeyboardBuffer}
    → IsValid b
    → contents (put_all cs b) ≡ kept (contents b ++ cs)
contents-put_all [] v = sym (kept_nil v)
contents-put_all (c ∷ cs) {b} v =
    contents-put_all cs (keyboard_buffer_put-IsValid c v)
    ∙ ap (λ xs. kept (xs ++ cs)) (contents-put c v)
    ∙ kept-append (contents b) (c ∷ []) cs
