-- ===== src/Registry/Long.antt =====
-- Names of 64 bytes and more in the tables of os/kernel/driver/hook.c and
-- os/kernel/ipc/pipe/pipecall.c: an entry keeps 63 bytes.
use vsnx_os.Base.{
  ℕ, zero, suc, ◌+◌, ◌≤◌, ◌<◌, ◌≡◌, refl, true, false, arith, none, List, [], ◌∷◌, length, take, ap,
}
use vsnx_os.Registry.{Entry, get_hook, replace_func, insert, register_hook}
use vsnx_os.Strings.{matches}
use vsnx_os.Strings.Compare.{IsString}
use vsnx_os.Registry.Lookup.{matches-ne, IsString-take}

length-take_le : (n : ℕ) (xs : List ℕ) → length (take n xs) ≤ n
length-take_le zero xs = omega arith
length-take_le (suc n) [] = omega arith
length-take_le (suc n) (x ∷ xs) = omega (arith, length-take_le n xs)

module _ {F : Type 0} where
  -- What `char name[64]` can hold.
  abbrev pub Fits : List (Entry F) → Type 0
  Fits [] = Unit
  Fits (e ∷ es) = IsString e.name × (length e.name ≤ 63) × Fits es

  no_match :
      (e : Entry F) (name : List ℕ)
      → IsString e.name
      → length e.name ≤ 63
      → IsString name
      → 63 < length name
      → matches e.name name ≡ false
  no_match e name s short sn long =
      matches-ne e.name name s sn λ h. let l = ap length h in omega (arith, l)

  long_missing :
      (es : List (Entry F)) (name : List ℕ)
      → Fits es
      → IsString name
      → 63 < length name
      → get_hook es name ≡ none
  unfolding get_hook
  long_missing [] name f sn long = refl
  long_missing (e ∷ es) name (s, short, f) sn long =
      rw (no_match e name s short sn long, get_hook) (long_missing es name f sn long)

  long_not_replaced :
      (es : List (Entry F)) (name : List ℕ) (func : F)
      → Fits es
      → IsString name
      → 63 < length name
      → replace_func es name func ≡ none
  unfolding replace_func
  long_not_replaced [] name func f sn long = refl
  long_not_replaced (e ∷ es) name func (s, short, f) sn long =
      rw (no_match e name s short sn long, long_not_replaced es name func f sn long, replace_func)
        refl

  inserted :
      (es : List (Entry F)) (name : List ℕ) (func : F)
      → Fits es
      → IsString name
      → Fits (insert true es name func) × (length (insert true es name func) ≡ length es + 1)
  unfolding insert
  inserted es name func f sn = ((IsString-take 63 name sn, length-take_le 63 name, f), omega arith)

  -- Where there is memory, a function registered under a name of 64 bytes or more is not found under
  -- it, however often it is registered: each time another entry is added.
  pub register_hook_long :
      (es : List (Entry F)) (name : List ℕ) (func : F)
      → Fits es
      → IsString name
      → 63 < length name
      → Fits (register_hook true es name func)
        × (get_hook (register_hook true es name func) name ≡ none)
        × (length (register_hook true es name func) ≡ length es + 1)
  unfolding register_hook
  register_hook_long es name func f sn long =
      let (fits, more) = inserted es name func f sn in
      rw (long_not_replaced es name func f sn long, register_hook)
        (fits, long_missing (insert true es name func) name fits sn long, more)
