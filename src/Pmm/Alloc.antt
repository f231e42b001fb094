-- ===== src/Pmm/Alloc.antt =====
-- `pmm_alloc_page` of pmm.c against its contract: a free page is found exactly when there is one.
use vsnx_os.Base.{
  ℕ, zero, suc, ◌+◌, ◌-◌, ◌*◌, ◌≤◌, ◌<◌, ◌≡◌, refl, ◌⊎◌, inl, inr, Bool, true, false, not, ◌&&◌,
  arith, ltb, ◌==◌, if◌then◌else◌, none, some, Option-cases, Bool-cases, List, [], ◌∷◌, subst,
  ==_iff,
}
use vsnx_os.Mmap.{MemoryMap, Region}
use vsnx_os.Pmm.{
  PmmInfo, page_size, page_addr, is_used, any_available, is_address_available, take_page, scan,
  pmm_alloc_page,
}
use vsnx_os.Pmm.Marks.{is_used-take_page}
use vsnx_os.Pmm.Valid.{IsValid, take_page-IsValid, take_page-used_pages, page_addr_lem}

any_available-le : (rs : List Region) (addr : ℕ) → any_available rs addr ≡ true → 0x400000 ≤ addr
unfolding any_available
any_available-le [] addr h = absurd (ground arith)
any_available-le (r ∷ rs) addr h = ground (arith, any_available-le rs addr)

module _ (mmap : MemoryMap) where
  -- Only addresses from 4 MiB on are ever available, so 0 can stand for failure.
  pub is_address_available-le : (addr : ℕ) → is_address_available mmap addr ≡ true → 0x400000 ≤ addr
  unfolding is_address_available
  is_address_available-le addr h = any_available-le mmap.regions addr h

  module _ (p : PmmInfo) where
    -- A page that the allocator may hand out.
    abbrev pub usable : ℕ → Bool
    usable i = is_address_available mmap (page_addr p i) && not (is_used p i)

    -- `k` is the first usable page of the `n` pages from `i` on.
    pub record First (n i k : ℕ) : Type 0 where
      pub from : i ≤ k
      pub to : k < i + n
      pub good : usable k ≡ true
      pub before : (j : ℕ) → i ≤ j → j < k → usable j ≡ false

    scan-suc :
        (n i : ℕ) → scan mmap p (suc n) i ≡ (if usable i then some i else scan mmap p n (i + 1))
    unfolding scan
    scan-suc n i = ground arith

    First-here : (n i : ℕ) → usable i ≡ true → First (suc n) i i
    First-here n i good = record {
      from = omega arith;
      to = omega arith;
      good = good;
      before = λ j lo hi. absurd (omega arith);
    }

    First-next : {n i k : ℕ} → usable i ≡ false → First n (i + 1) k → First (suc n) i k
    First-next {i} bad f = record {
      from = omega (arith, f.from);
      to = omega (arith, f.to);
      good = f.good;
      before = λ j lo hi. elim (Bool-cases (i == j)) [
        | inl here ↦ subst (λ t. usable t ≡ false) ((==_iff i j).0 here) bad
        | inr later ↦ f.before j (ground arith) hi
      ];
    }

    pub scan-some : (n i : ℕ) {k : ℕ} → scan mmap p n i ≡ some k → First n i k
    unfolding scan
    scan-some zero i h = absurd (cc)
    scan-some (suc n) i {k} h = elim (Bool-cases (usable i)) [
      | inl good ↦
          let here : i ≡ k = ground (arith, scan-suc n i) in
          subst (First (suc n) i) here (First-here n i good)
      | inr bad ↦ First-next bad (scan-some n (i + 1) (ground (arith, scan-suc n i)))
    ]

    pub scan-none :
        (n i : ℕ) → scan mmap p n i ≡ none → (j : ℕ) → i ≤ j → j < i + n → usable j ≡ false
    scan-none zero i h j hi hj = absurd (omega arith)
    scan-none (suc n) i h j hi hj = elim (Bool-cases (i == j)) [
      | inl here ↦
          subst (λ t. usable t ≡ false) ((==_iff i j).0 here) (ground (arith, scan-suc n i))
      | inr later ↦
          scan-none n (i + 1) (ground (arith, scan-suc n i)) j (ground arith) (omega arith)
    ]

    -- The order of the search: from the hint to the end, then from the start to the hint.
    abbrev pub Earlier : ℕ → ℕ → Type 0
    Earlier j k =
        ((p.next_alloc_hint ≤ j) × (j < k))
        ⊎ ((k < p.next_alloc_hint) × ((p.next_alloc_hint ≤ j) ⊎ (j < k)))

    -- The contract of `pmm_alloc_page`: it hands out the first usable page of the search, or returns
    -- 0 where no page is usable.
    pub data Allocated : ℕ × PmmInfo → Type 0 where
      took :
          (k : ℕ)
          → k < p.total_pages
          → usable k ≡ true
          → ((j : ℕ) → j < p.total_pages → Earlier j k → usable j ≡ false)
          → Allocated (page_addr p k, take_page p k)
      full : ((j : ℕ) → j < p.total_pages → usable j ≡ false) → Allocated (0, p)

    pub pmm_alloc_page-Allocated :
        p.next_alloc_hint ≤ p.total_pages → Allocated (pmm_alloc_page mmap p)
    unfolding pmm_alloc_page
    pmm_alloc_page-Allocated hint = elim (Option-cases (scan mmap p high p.next_alloc_hint)) [
      | inr (k, e) ↦
          let f = scan-some high p.next_alloc_hint e in
          rw (e, pmm_alloc_page)
            (took k (omega (arith, f.to)) f.good λ j hj early. elim early [
              | inl (lo, hi) ↦ f.before j lo hi
              | inr (below, _) ↦ absurd (omega (arith, f.from))
            ])
      | inl e ↦ elim (Option-cases (scan mmap p p.next_alloc_hint 0)) [
        | inr (k, e') ↦
            let f = scan-some p.next_alloc_hint 0 e' in
            rw (e, e', pmm_alloc_page)
              (took k (omega (arith, f.to)) f.good λ j hj early.
                elim (Bool-cases (ltb j p.next_alloc_hint)) [
                  | inl low ↦ f.before j (omega arith) (ground arith)
                  | inr up ↦ scan-none high p.next_alloc_hint e j (ground arith) (ground arith)
                ])
        | inl e' ↦
            rw (e, e', pmm_alloc_page)
              (full λ j hj. elim (Bool-cases (ltb j p.next_alloc_hint)) [
                | inl low ↦ scan-none p.next_alloc_hint 0 e' j (omega arith) (ground arith)
                | inr up ↦ scan-none high p.next_alloc_hint e j (ground arith) (ground arith)
              ])
      ]
    ]
      where
        high : ℕ
        high = p.total_pages - p.next_alloc_hint

-- What the contract gives of a valid allocator.
module _ (mmap : MemoryMap) {p : PmmInfo} (v : IsValid p) where
  -- Success: the page was available and free, now it alone changes to used, and the counter grows
  -- by one. Failure changes nothing, and every page is in use or not available.
  abbrev pub AllocResult : ℕ × PmmInfo → Type 0
  AllocResult r =
      ((k : ℕ) × (k < p.total_pages)
        × (r.0 ≡ p.memory_start + k * page_size)
        × (is_address_available mmap r.0 ≡ true)
        × (is_used p k ≡ false)
        × ((j : ℕ) → is_used r.1 j ≡ (if k == j then true else is_used p j))
        × (r.1.used_pages ≡ p.used_pages + 1)
        × IsValid r.1)
      ⊎ ((r.0 ≡ 0) × (r.1 ≡ p) × ((j : ℕ) → j < p.total_pages → usable mmap p j ≡ false))

  Allocated-AllocResult : {r : ℕ × PmmInfo} → Allocated mmap p r → AllocResult r
  Allocated-AllocResult (took k hk good first) =
      let free : is_used p k ≡ false = ground arith in
      let w = take_page-IsValid v k hk free in
      inl (
        k,
        hk,
        page_addr_lem v k hk,
        ground arith,
        free,
        is_used-take_page p v.bytes k,
        take_page-used_pages v k hk,
        w,
      )
  Allocated-AllocResult (full none_left) = inr (refl, refl, none_left)

  -- Of a valid allocator, `pmm_alloc_page` either hands out a page that was available and free,
  -- which alone changes to used while the counter grows by one and the allocator stays valid, or
  -- returns 0 with nothing changed, when no page is both available and free.
  pub pmm_alloc_page_lem : AllocResult (pmm_alloc_page mmap p)
  pmm_alloc_page_lem = Allocated-AllocResult (pmm_alloc_page-Allocated mmap p v.hint_in)
