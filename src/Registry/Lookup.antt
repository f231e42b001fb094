-- ===== src/Registry/Lookup.antt =====
-- Registration and lookup of named functions: os/kernel/driver/hook.c, os/kernel/ipc/pipe/pipecall.c.
use vsnx_os.Base.{
  ℕ, zero, suc, ◌≤◌, ◌≡◌, refl, ◌≢◌, true, false, arith, if◌then◌else◌, Option, none, some, List,
  [], ◌∷◌, Bool-cases, inl, inr, ap, length, take, ℤ, sym, subst, ◌∙◌,
}
use vsnx_os.Registry.{Entry, stored_name, get_hook, replace_func, insert, register_hook, call_hook}
use vsnx_os.Strings.{matches}
use vsnx_os.Strings.Compare.{IsString, matches_refl, matches-eq}

pub matches-ne : (xs ys : List ℕ) → IsString xs → IsString ys → xs ≢ ys → matches xs ys ≡ false
matches-ne xs ys sx sy ne = elim (Bool-cases (matches xs ys)) [
  | inl m ↦ absurd (ne (matches-eq xs ys sx sy m))
  | inr m ↦ m
]

take-all : (n : ℕ) (xs : List ℕ) → length xs ≤ n → take n xs ≡ xs
take-all zero [] short = refl
take-all zero (x ∷ xs) short = absurd (omega arith)
take-all (suc n) [] short = refl
take-all (suc n) (x ∷ xs) short = ap (λ l. x ∷ l) (take-all n xs (omega arith))

pub IsString-take : (n : ℕ) (xs : List ℕ) → IsString xs → IsString (take n xs)
IsString-take zero xs s = tt
IsString-take (suc n) [] s = tt
IsString-take (suc n) (x ∷ xs) (p, s) = (p, IsString-take n xs s)

module _ {F : Type 0} where
  -- Every entry's name is a string.
  abbrev pub Strings : List (Entry F) → Type 0
  Strings [] = Unit
  Strings (e ∷ es) = IsString e.name × Strings es

  -- The function of `name` is `func` now, and no other name's function has changed.
  pub record Changed (es : List (Entry F)) (name : List ℕ) (func : F) (es' : List (Entry F))
      : Type 0 where
    pub strings : Strings es'
    pub own : get_hook es' name ≡ some func
    pub others :
        (other : List ℕ) → IsString other → other ≢ name → get_hook es' other ≡ get_hook es other

  pub get_hook-cons :
      (e : Entry F) (es : List (Entry F)) (name : List ℕ)
      → get_hook (e ∷ es) name ≡ (if matches e.name name then some e.func else get_hook es name)
  unfolding get_hook
  get_hook-cons e es name = refl

  -- Of an entry with the name, in front of any others.
  Changed-here :
      (e : Entry F) (es : List (Entry F)) (name : List ℕ) (func : F)
      → Strings (e ∷ es)
      → IsString name
      → matches e.name name ≡ true
      → Changed (e ∷ es) name func (record e { func = func } ∷ es)
  Changed-here e es name func (s, ss) sn m =
      let same = matches-eq e.name name s sn m in
      record {
        strings = (s, ss);
        own =
            get_hook-cons (record e { func = func }) es name
            ∙ ap (λ b. if b then some func else get_hook es name) m;
        others = λ other so ne.
            let differ = matches-ne e.name other s so (λ h. ne (sym h ∙ same)) in
            (get_hook-cons (record e { func = func }) es other
              ∙ ap (λ b. if b then some func else get_hook es other) differ)
            ∙ sym (
                get_hook-cons e es other
                ∙ ap (λ b. if b then some e.func else get_hook es other) differ);
      }

  Changed-later :
      (e : Entry F) (es es' : List (Entry F)) (name : List ℕ) (func : F)
      → IsString e.name
      → matches e.name name ≡ false
      → Changed es name func es'
      → Changed (e ∷ es) name func (e ∷ es')
  Changed-later e es es' name func s m c = record {
    strings = (s, c.strings);
    own =
        get_hook-cons e es' name
        ∙ (ap (λ b. if b then some e.func else get_hook es' name) m ∙ c.own);
    others = λ other so ne.
        get_hook-cons e es' other
        ∙ (ap (λ o. if matches e.name other then some e.func else o) (c.others other so ne)
            ∙ sym (get_hook-cons e es other));
  }

  data Replaced (es : List (Entry F)) (name : List ℕ) (func : F)
      : Option (List (Entry F)) → Type 0 where
    missing : Replaced es name func none
    changed : {es' : List (Entry F)} → Changed es name func es' → Replaced es name func (some es')

  Replaced-later :
      (e : Entry F) (es : List (Entry F)) (name : List ℕ) (func : F) {o : Option (List (Entry F))}
      → IsString e.name
      → matches e.name name ≡ false
      → Replaced es name func o
      → Replaced (e ∷ es) name func (elim o [ none ↦ none | some later ↦ some (e ∷ later) ])
  Replaced-later e es name func s m missing = missing
  Replaced-later e es name func s m (changed {es' = es'} c) =
      changed (Changed-later e es es' name func s m c)

  replace_func-Replaced :
      (es : List (Entry F)) (name : List ℕ) (func : F)
      → Strings es
      → IsString name
      → Replaced es name func (replace_func es name func)
  unfolding replace_func
  replace_func-Replaced [] name func ss sn = missing
  replace_func-Replaced (e ∷ es) name func (s, ss) sn = elim (Bool-cases (matches e.name name)) [
    | inl m ↦ rw (m, replace_func) (changed (Changed-here e es name func (s, ss) sn m))
    | inr m ↦
        rw (m, replace_func)
          (Replaced-later e es name func s m (replace_func-Replaced es name func ss sn))
  ]

  Changed-insert :
      (es : List (Entry F)) (name : List ℕ) (func : F)
      → Strings es
      → IsString name
      → length name ≤ 63
      → Changed es name func (insert true es name func)
  unfolding insert
  Changed-insert es name func ss sn short =
      let e : Entry F = record { name = stored_name name; func = func } in
      let whole : stored_name name ≡ name = take-all 63 name short in
      record {
        strings = (subst IsString (sym whole) sn, ss);
        own =
            get_hook-cons e es name
            ∙ ap (λ b. if b then some func else get_hook es name)
                (subst (λ n. matches n name ≡ true) (sym whole) (matches_refl name));
        others = λ other so ne.
            get_hook-cons e es other
            ∙ ap (λ b. if b then some func else get_hook es other)
                (subst (λ n. matches n other ≡ false) (sym whole)
                  (matches-ne name other sn so (λ h. ne (sym h))));
      }

  register-Changed :
      (es : List (Entry F)) (name : List ℕ) (func : F) {o : Option (List (Entry F))}
      → Strings es
      → IsString name
      → length name ≤ 63
      → Replaced es name func o
      → Changed es name func (elim o [ some es' ↦ es' | none ↦ insert true es name func ])
  register-Changed es name func ss sn short missing = Changed-insert es name func ss sn short
  register-Changed es name func ss sn short (changed c) = c

  -- Where there is memory, registering a function under a name of at most 63 bytes makes it the one
  -- that the name is found with, in place of any before, and no other name's function changes.
  pub register_hook_lem :
      (es : List (Entry F)) (name : List ℕ) (func : F)
      → Strings es
      → IsString name
      → length name ≤ 63
      → Changed es name func (register_hook true es name func)
  unfolding register_hook
  register_hook_lem es name func ss sn short =
      register-Changed es name func ss sn short (replace_func-Replaced es name func ss sn)

  pub call_hook-found :
      {S : Type 0} (call : F → S → ℤ × S) (es : List (Entry F)) (name : List ℕ) {func : F} (s : S)
      → get_hook es name ≡ some func
      → call_hook call es name s ≡ call func s
  unfolding call_hook
  call_hook-found call es name s found = rw (found, call_hook) refl
