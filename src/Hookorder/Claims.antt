-- ===== src/Hookorder/Claims.antt =====
-- Claims on device classes in os/kernel/driver/hookorder/hookorder.c: a claim is seen only where the
-- entry that is marked is the first of its subclass.
use vsnx_os.Base.{
  ℕ, ◌≡◌, refl, ◌⊎◌, Bool, true, false, ◌&&◌, if◌then◌else◌, Option, none, some, List, [], ◌∷◌,
  arith, Bool-cases, Option-cases, inl, inr, sym, ap, ◌∙◌,
}
use vsnx_os.Strings.Case.{equal_case}
use vsnx_os.Hookorder.{Entry}
use vsnx_os.Hookorder.Table.{
  hookorder_is_claimed, hookorder_mark_claimed, hookorder_spawn_for, hookorder_find_best, marked,
  changed_or, keep_front, spawned, refused, missing,
}

-- There is an entry with the subclass, and `b` is whether the first one is for the driver.
abbrev pub FirstFor : List Entry → (subclass driver : List ℕ) → Bool → Type 0
FirstFor [] subclass driver b = ⊥
FirstFor (e ∷ es) subclass driver b =
    ((equal_case e.subclass subclass ≡ true) × (equal_case e.driver driver ≡ b))
    ⊎ ((equal_case e.subclass subclass ≡ false) × FirstFor es subclass driver b)

is_claimed-cons :
    (e : Entry) (es : List Entry) (subclass : List ℕ)
    → hookorder_is_claimed (e ∷ es) subclass
      ≡ (if equal_case e.subclass subclass then e.claimed else hookorder_is_claimed es subclass)
unfolding hookorder_is_claimed
is_claimed-cons e es subclass = refl

marked-here :
    (e : Entry) (es : List Entry) (subclass driver : List ℕ)
    → equal_case e.subclass subclass ≡ true
    → equal_case e.driver driver ≡ true
    → marked (e ∷ es) subclass driver ≡ record e { claimed = true } ∷ es
unfolding hookorder_mark_claimed
marked-here e es subclass driver s d = ap (changed_or (e ∷ es)) (both s d)
  where
    both :
        {a b : Bool}
        → a ≡ true
        → b ≡ true
        → (if a && b
            then some (record e { claimed = true } ∷ es)
            else keep_front e (hookorder_mark_claimed es subclass driver))
          ≡ some (record e { claimed = true } ∷ es)
    both h h' = rw (h, h') refl

changed_or-keep_front :
    (e : Entry) (es : List Entry) (o : Option (List Entry))
    → changed_or (e ∷ es) (keep_front e o) ≡ e ∷ changed_or es o
changed_or-keep_front e es none = refl
changed_or-keep_front e es (some later) = refl

-- An entry that is not the one looked for stays in front.
marked-later :
    (e : Entry) (es : List Entry) (subclass driver : List ℕ)
    → (equal_case e.subclass subclass && equal_case e.driver driver) ≡ false
    → marked (e ∷ es) subclass driver ≡ e ∷ marked es subclass driver
unfolding hookorder_mark_claimed
marked-later e es subclass driver no_match =
    ap
      (λ b. changed_or (e ∷ es) (
        if b
        then some (record e { claimed = true } ∷ es)
        else keep_front e (hookorder_mark_claimed es subclass driver)))
      no_match
    ∙ changed_or-keep_front e es (hookorder_mark_claimed es subclass driver)

is_claimed-marked :
    (es : List Entry) (subclass driver : List ℕ) (b : Bool)
    → FirstFor es subclass driver b
    → hookorder_is_claimed (marked es subclass driver) subclass
      ≡ (if b then true else hookorder_is_claimed es subclass)
is_claimed-marked [] subclass driver b f = absurd f
is_claimed-marked (e ∷ es) subclass driver true (inl (s, d)) =
    rw (marked-here e es subclass driver s d) (
      is_claimed-cons (record e { claimed = true }) es subclass
      ∙ ap (λ x. if x then true else hookorder_is_claimed es subclass) s)
is_claimed-marked (e ∷ es) subclass driver false (inl (s, d)) =
    rw (marked-later e es subclass driver (ground arith)) (
      (is_claimed-cons e (marked es subclass driver) subclass
        ∙ ap
            (λ x.
              if x then e.claimed else hookorder_is_claimed (marked es subclass driver) subclass)
            s)
      ∙ sym (
          is_claimed-cons e es subclass
          ∙ ap (λ x. if x then e.claimed else hookorder_is_claimed es subclass) s))
is_claimed-marked (e ∷ es) subclass driver b (inr (s, f)) =
    let rest = is_claimed-marked es subclass driver b f in
    let skip : (e' : Entry)
        → (es' : List Entry) → equal_case e'.subclass subclass ≡ false
        → hookorder_is_claimed (e' ∷ es') subclass ≡ hookorder_is_claimed es' subclass =
      λ e' es' h.
        is_claimed-cons e' es' subclass
        ∙ ap (λ x. if x then e'.claimed else hookorder_is_claimed es' subclass) h in
    rw (marked-later e es subclass driver (ground arith)) (
      (skip e (marked es subclass driver) s ∙ rest)
      ∙ ap (λ x. if b then true else x) (sym (skip e es s)))

refused_not : refused ≡ spawned → ⊥
refused_not h = cc

missing_not : missing ≡ spawned → ⊥
missing_not h = cc

-- What a spawn that succeeds has done.
spawned_lem :
    (spawn : List ℕ → Bool) (es : List Entry) (subclass driver : List ℕ)
    → (hookorder_spawn_for spawn es subclass driver).0 ≡ spawned
    → (hookorder_is_claimed es subclass ≡ false)
      × ((hookorder_spawn_for spawn es subclass driver).1 ≡ marked es subclass driver)
unfolding hookorder_spawn_for
spawned_lem spawn es subclass driver h = elim (Bool-cases (hookorder_is_claimed es subclass)) [
  | inl c ↦ absurd (refused_not (rw c at h))
  | inr c ↦ elim (Option-cases (hookorder_find_best es subclass driver)) [
    | inl gone ↦ absurd (missing_not (rw (c, gone, hookorder_spawn_for) at h))
    | inr (e, found) ↦ elim (Bool-cases (spawn e.path)) [
      | inl ok ↦ rw (c, found, ok, hookorder_spawn_for) (refl, refl)
      | inr bad ↦ absurd (refused_not (rw (c, found, bad, hookorder_spawn_for) at h))
    ]
  ]
]

refuse :
    (spawn : List ℕ → Bool) (es : List Entry) (subclass driver : List ℕ)
    → hookorder_is_claimed es subclass ≡ true
    → hookorder_spawn_for spawn es subclass driver ≡ (refused, es)
unfolding hookorder_spawn_for
refuse spawn es subclass driver h = rw h refl

module _ (spawn : List ℕ → Bool) (es : List Entry) (subclass driver : List ℕ) where
  abbrev pub after : List Entry
  after = (hookorder_spawn_for spawn es subclass driver).1

  -- Where the first entry of the subclass is for the driver, a spawn that succeeds claims the subclass:
  -- each later spawn for it is refused and changes nothing.
  pub spawn_for_once :
      (other : List ℕ)
      → FirstFor es subclass driver true
      → (hookorder_spawn_for spawn es subclass driver).0 ≡ spawned
      → hookorder_spawn_for spawn after subclass other ≡ (refused, after)
  spawn_for_once other f h =
      let (free, e) = spawned_lem spawn es subclass driver h in
      refuse spawn after subclass other
        (ap (λ l. hookorder_is_claimed l subclass) e ∙ is_claimed-marked es subclass driver true f)

  -- Where the first entry of the subclass is for another driver, a spawn that succeeds leaves the
  -- subclass unclaimed, so that a second driver can be spawned for it.
  pub spawn_for_again :
      FirstFor es subclass driver false
      → (hookorder_spawn_for spawn es subclass driver).0 ≡ spawned
      → hookorder_is_claimed after subclass ≡ false
  spawn_for_again f h =
      let (free, e) = spawned_lem spawn es subclass driver h in
      ap (λ l. hookorder_is_claimed l subclass) e
      ∙ (is_claimed-marked es subclass driver false f ∙ free)
