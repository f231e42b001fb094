-- ===== src/Paging/Tree.antt =====
-- When the page tables of os/kernel/hal/mem/k_mem/paging.c form a tree of four levels.
use vsnx_os.Base.{
  ℕ, suc, ◌+◌, ◌*◌, ◌/◌, ◌%◌, ◌^◌, ◌≤◌, ◌<◌, ◌≡◌, true, false, ◌&&◌, arith, ◌==◌, if◌then◌else◌,
  Bool-cases, inl, inr, some, bit_or, subst, ==_iff, sym,
}
use vsnx_os.Base.Fields.{bit_or-aligned}
use vsnx_os.Pmm.{is_used, page_addr, take_page}
use vsnx_os.Pmm.Marks.{is_used-take_page}
use vsnx_os.Pmm.Valid.{IsValid, page_addr_lem, take_page-IsValid}
use vsnx_os.Paging.{
  Machine, entry, set_entry, clear_entries, is_present, frame_of, table_flags, link_table,
}
use vsnx_os.Paging.Entries.{IsAligned, entry-set_entry, clear_table}

-- `level` gives each table its level, 4 for the root and 1 for a page table, and 0 to all other
-- addresses. What the root's entries before `first` point to is left open: the boot code maps the
-- kernel there, by large pages. Tables below 4 MB, as the boot code's root is, need not be marked in
-- the bitmap: the allocator hands out no page there.
pub record IsTree (first : ℕ) (level : ℕ → ℕ) (m : Machine) : Type 0 where
  pub allocator : IsValid m.pmm
  pub root : level m.pml4 ≡ 4
  pub aligned : (t : ℕ) → 0 < level t → IsAligned t
  pub child :
      (t i : ℕ)
      → 1 < level t
      → i < 512
      → (level t ≡ 4 → first ≤ i)
      → is_present (entry m t i) ≡ true
      → level (frame_of (entry m t i)) + 1 ≡ level t
  pub taken :
      (k : ℕ)
      → k < m.pmm.total_pages
      → 0x400000 ≤ page_addr m.pmm k
      → 0 < level (page_addr m.pmm k)
      → is_used m.pmm k ≡ true

-- An address with flags in its low bits.
pub bit_or_frame : (a flags : ℕ) → a % 4096 ≡ 0 → flags < 4096 → bit_or a flags ≡ a + flags
bit_or_frame a flags at small =
    let e : a ≡ a / 4096 * 2 ^ 12 = omega arith in
    subst (λ t. bit_or t flags ≡ t + flags) (sym e) (bit_or-aligned 12 (a / 4096) flags small)

-- What entering a new table at page `k` into entry `i` of `t` does, for a tree with `t` at level
-- `l + 1` where that entry is not present.
module _ {first : ℕ} {level : ℕ → ℕ} {m : Machine} (tree : IsTree first level m) (t i l flags k : ℕ)
    (at : level t ≡ suc l) (hi : i < 512) (pos : 0 < l) (hk : k < m.pmm.total_pages)
    (free : is_used m.pmm k ≡ false) (high : 0x400000 ≤ page_addr m.pmm k) where
  abbrev pub addr : ℕ
  addr = page_addr m.pmm k

  pub addr-IsAligned : IsAligned addr
  addr-IsAligned = omega (arith, page_addr_lem tree.allocator k hk, tree.allocator.aligned)

  -- The page was free, so it is no table.
  pub fresh : level addr ≡ 0
  fresh = ground (arith, high, tree.taken k hk)

  abbrev pub base : Machine
  base = record m { pmm = take_page m.pmm k; word = clear_entries 512 0 addr m.word }

  abbrev pub linked : Machine
  linked = (link_table t i flags (some addr, base)).1

  t-IsAligned : IsAligned t
  t-IsAligned = tree.aligned t (omega (arith, at))

  pub entry-linked :
      (s j : ℕ)
      → IsAligned s
      → j < 512
      → entry linked s j ≡ (
          if t == s && i == j
          then addr + table_flags flags
          else if addr == s
          then 0
          else entry m s j)
  unfolding link_table
  entry-linked s j sa hj = ground (
    arith,
    entry-set_entry base t i (bit_or addr (table_flags flags)) s j t-IsAligned sa hi hj,
    clear_table addr m.word s j addr-IsAligned sa hj,
    bit_or_frame addr (table_flags flags) addr-IsAligned,
  )

  -- The new table joins the tree one level below its parent.
  abbrev pub level' : ℕ → ℕ
  level' s = if addr == s then l else level s

  pub level'-old : (s : ℕ) → 0 < level s → level' s ≡ level s
  level'-old s old = ground (arith, fresh)

  s-IsAligned : (s : ℕ) → 1 < level' s → (addr == s) ≡ false → IsAligned s
  s-IsAligned s deep old = tree.aligned s (ground arith)

  -- The entries of the new table are not present.
  new_empty : (s j : ℕ) → j < 512 → (addr == s) ≡ true → is_present (entry linked s j) ≡ true → ⊥
  new_empty s j hj new present =
      let e : addr ≡ s = (==_iff addr s).0 new in
      ground (arith, entry-linked s j (subst IsAligned e addr-IsAligned) hj, fresh)

  -- The parent's entry points to the new table.
  parent_level :
      (s j : ℕ)
      → (t == s && i == j) ≡ true
      → level' (frame_of (addr + table_flags flags)) + 1 ≡ level' s
  parent_level s j here =
      let e : frame_of (addr + table_flags flags) ≡ addr = omega (arith, addr-IsAligned) in
      rw e (ground (arith, fresh))

  -- Every other entry of an old table points where it did.
  old_child :
      (s j : ℕ)
      → 1 < level' s
      → j < 512
      → (level' s ≡ 4 → first ≤ j)
      → (addr == s) ≡ false
      → is_present (entry m s j) ≡ true
      → level' (frame_of (entry m s j)) + 1 ≡ level' s
  old_child s j deep hj low old present =
      let same : level' s ≡ level s = ground arith in
      let c = tree.child s j (omega arith) hj (λ four. low (omega arith)) present in
      omega (arith, level'-old (frame_of (entry m s j)) (omega arith))

  linked-taken :
      (j : ℕ)
      → j < m.pmm.total_pages
      → 0x400000 ≤ page_addr m.pmm j
      → 0 < level' (page_addr m.pmm j)
      → is_used (take_page m.pmm k) j ≡ true
  linked-taken j hj above deep = elim (Bool-cases (k == j)) [
    | inl new ↦ ground (arith, is_used-take_page m.pmm tree.allocator.bytes k j)
    | inr old ↦
        let apart : (addr == page_addr m.pmm j) ≡ false =
          ground (arith, page_addr_lem tree.allocator k hk, page_addr_lem tree.allocator j hj) in
        ground (arith, is_used-take_page m.pmm tree.allocator.bytes k j, above, tree.taken j hj)
  ]

  linked-child :
      (s j : ℕ)
      → 1 < level' s
      → j < 512
      → (level' s ≡ 4 → first ≤ j)
      → is_present (entry linked s j) ≡ true
      → level' (frame_of (entry linked s j)) + 1 ≡ level' s
  linked-child s j deep hj low present = elim (Bool-cases (addr == s)) [
    | inl new ↦ absurd (new_empty s j hj new present)
    | inr old ↦ elim (Bool-cases (t == s && i == j)) [
      | inl here ↦ rw (entry-linked s j (s-IsAligned s deep old) hj, here) (parent_level s j here)
      | inr elsewhere ↦
          let e : entry linked s j ≡ entry m s j =
            ground (arith, entry-linked s j (s-IsAligned s deep old) hj) in
          rw e (old_child s j deep hj low old (ground arith))
    ]
  ]

  pub linked-IsTree : IsTree first level' linked
  unfolding link_table set_entry take_page
  linked-IsTree = record {
    allocator = take_page-IsValid tree.allocator k hk free;
    root = ground (arith, tree.root, fresh);
    aligned = λ s hs. elim (Bool-cases (addr == s)) [
      | inl new ↦ subst IsAligned ((==_iff addr s).0 new) addr-IsAligned
      | inr old ↦ tree.aligned s (ground arith)
    ];
    child = linked-child;
    taken = linked-taken;
  }
