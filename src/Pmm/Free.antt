-- ===== src/Pmm/Free.antt =====
-- `pmm_free_page` of pmm.c, and its play with `pmm_alloc_page`.
use vsnx_os.Base.{
  ℕ, ◌+◌, ◌*◌, ◌≤◌, ◌<◌, ◌≡◌, refl, ◌≢◌, ◌⊎◌, inl, inr, true, false, arith, ltb, ◌==◌,
  if◌then◌else◌, Bool-cases,
}
use vsnx_os.Mmap.{MemoryMap}
use vsnx_os.Pmm.{
  PmmInfo, page_size, page_addr, page_index, is_used, is_address_available, take_page, release_page,
  out_of_memory_range, pmm_alloc_page, pmm_free_page,
}
use vsnx_os.Pmm.Marks.{is_used-take_page, is_used-release_page, unmark-mark}
use vsnx_os.Pmm.Valid.{
  IsValid, page_in_range, page_index-page_addr, page_index-lt, release_page-IsValid, used_pages-le,
  release_page-used_pages, take_page-IsValid,
}
use vsnx_os.Pmm.Alloc.{Allocated, pmm_alloc_page-Allocated, usable}

module _ {p : PmmInfo} (v : IsValid p) (addr : ℕ) where
  -- The page index that an address in range has.
  abbrev pub freed : ℕ
  freed = page_index p addr

  -- What is left of the state: outside the range, or for a page that is free already, all of it;
  -- otherwise the page that holds the address becomes free, it alone, and the counter falls by one.
  abbrev pub FreeResult : PmmInfo → Type 0
  FreeResult q =
      (((addr < p.memory_start) ⊎ (p.memory_end ≤ addr) ⊎ (is_used p freed ≡ false)) × (q ≡ p))
      ⊎ ((freed < p.total_pages)
          × (p.memory_start + freed * page_size ≤ addr)
          × (addr < p.memory_start + freed * page_size + page_size)
          × (is_used p freed ≡ true)
          × ((j : ℕ) → is_used q j ≡ (if freed == j then false else is_used p j))
          × (q.used_pages + 1 ≡ p.used_pages))

  -- Of a valid allocator, `pmm_free_page` keeps it valid, and either frees the one page that holds
  -- the address while the counter falls by one, or changes nothing, when the address is outside the
  -- memory or its page is free.
  pub pmm_free_page_lem : IsValid (pmm_free_page p addr) × FreeResult (pmm_free_page p addr)
  unfolding pmm_free_page
  pmm_free_page_lem = elim (Bool-cases (out_of_memory_range p addr)) [
    | inl out ↦ rw out (v, inl (ground arith, refl))
    | inr within ↦ elim (Bool-cases (is_used p freed)) [
      | inr free ↦ rw (within, free) (v, inl (inr (inr refl), refl))
      | inl used ↦
          let (index, lo, hi) = page_index-lt v addr within in
          rw (within, used)
            (
              release_page-IsValid v freed index used,
              inr (
                index,
                lo,
                hi,
                refl,
                is_used-release_page p v.bytes freed,
                release_page-used_pages v freed index used,
              ),
            )
    ]
  ]

-- Freeing a used page of the memory by its own address.
pub free-page_addr :
    {p : PmmInfo} (k : ℕ)
    → IsValid p
    → k < p.total_pages
    → is_used p k ≡ true
    → pmm_free_page p (page_addr p k) ≡ release_page p k
unfolding pmm_free_page
free-page_addr k v hk used = rw (page_in_range v k hk, page_index-page_addr v k hk, used)

-- Where the page at the hint is usable, it is the one handed out.
first_page :
    (mmap : MemoryMap) {q : PmmInfo} (k : ℕ)
    → q.next_alloc_hint ≡ k
    → k < q.total_pages
    → usable mmap q k ≡ true
    → {r : ℕ × PmmInfo} → Allocated mmap q r
    → r.0 ≡ page_addr q k
first_page mmap k at hk good (Allocated.full none_left) = absurd (cc (none_left k hk, good))
first_page mmap {q} k at hk good (Allocated.took k' hk' good' first) = elim (Bool-cases (k == k')) [
  | inl e ↦ ground arith
  | inr ne ↦ elim (Bool-cases (ltb k k')) [
    | inl less ↦ absurd (cc (first k hk (inl (omega arith, ground arith)), good))
    | inr more ↦ absurd (cc (first k hk (inr (ground arith, inl (omega arith))), good))
  ]
]

module _ (mmap : MemoryMap) {p : PmmInfo} (v : IsValid p) where
  -- The bitmap and the counter are as before once the address is freed.
  abbrev pub Undone : ℕ × PmmInfo → Type 0
  Undone r =
      ((pmm_free_page r.1 r.0).bitmap ≡ p.bitmap)
      × ((pmm_free_page r.1 r.0).used_pages ≡ p.used_pages)

  free-take_page :
      (k : ℕ)
      → k < p.total_pages
      → is_used p k ≡ false
      → pmm_free_page (take_page p k) (page_addr p k) ≡ release_page (take_page p k) k
  unfolding take_page
  free-take_page k hk free =
      free-page_addr k (take_page-IsValid v k hk free) hk
        (ground (arith, is_used-take_page p v.bytes k k))

  undo_bitmap : (k : ℕ) → is_used p k ≡ false → (release_page (take_page p k) k).bitmap ≡ p.bitmap
  unfolding take_page release_page
  undo_bitmap k free = unmark-mark p v.bytes k free

  undo_counter :
      (k : ℕ) → k < p.total_pages → (release_page (take_page p k) k).used_pages ≡ p.used_pages
  unfolding take_page release_page
  undo_counter k hk = omega (arith, used_pages-le v, v.extent, v.fits)

  Allocated-Undone : {r : ℕ × PmmInfo} → Allocated mmap p r → r.0 ≢ 0 → Undone r
  Allocated-Undone (Allocated.full none_left) ne = absurd (ne refl)
  Allocated-Undone (Allocated.took k hk good first) ne =
      let free : is_used p k ≡ false = ground arith in
      rw (free-take_page k hk free) (undo_bitmap k free, undo_counter k hk)

  -- Of a valid allocator, `pmm_free_page` after a `pmm_alloc_page` that succeeded restores the bitmap
  -- and the counter.
  pub free-alloc : (pmm_alloc_page mmap p).0 ≢ 0 → Undone (pmm_alloc_page mmap p)
  free-alloc = Allocated-Undone (pmm_alloc_page-Allocated mmap p v.hint_in)

  alloc-release_page :
      (k : ℕ)
      → k < p.next_alloc_hint
      → is_used p k ≡ true
      → is_address_available mmap (page_addr p k) ≡ true
      → (pmm_alloc_page mmap (release_page p k)).0 ≡ page_addr p k
  unfolding release_page
  alloc-release_page k hk used avail =
      let w = release_page-IsValid v k (omega (arith, v.hint_in)) used in
      first_page mmap k (ground arith) (omega (arith, v.hint_in))
        (ground (arith, is_used-release_page p v.bytes k k))
        (pmm_alloc_page-Allocated mmap (release_page p k) w.hint_in)

  -- Of a valid allocator, a used available page that is freed below the hint is the next one that
  -- `pmm_alloc_page` hands out.
  pub alloc-free :
      (k : ℕ)
      → k < p.next_alloc_hint
      → is_used p k ≡ true
      → is_address_available mmap (page_addr p k) ≡ true
      → (pmm_alloc_page mmap (pmm_free_page p (page_addr p k))).0 ≡ page_addr p k
  alloc-free k hk used avail =
      rw (free-page_addr k v (omega (arith, v.hint_in)) used) (alloc-release_page k hk used avail)
