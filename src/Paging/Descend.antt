-- ===== src/Paging/Descend.antt =====
-- One level of paging_map_page (os/kernel/hal/mem/k_mem/paging.c): the table that is reached, or that
-- memory was exhausted.
use vsnx_os.Base.{
  ℕ, suc, ◌+◌, ◌≤◌, ◌<◌, ◌≡◌, refl, true, false, ◌&&◌, arith, ◌==◌, if◌then◌else◌, Option, none,
  some, Bool-cases, inl, inr, ==_iff, ==_refl, &&-eq-true, ap,
}
use vsnx_os.Mmap.{MemoryMap}
use vsnx_os.Pmm.{PmmInfo, page_addr, is_used}
use vsnx_os.Pmm.Alloc.{
  Allocated, took, full, pmm_alloc_page-Allocated, usable, is_address_available-le,
}
use vsnx_os.Paging.{
  Machine, entry, is_present, frame_of, table_flags, new_table, link_table, allocate_page_table,
  next_table, set_entry,
}
use vsnx_os.Paging.Entries.{IsAligned}
use vsnx_os.Paging.Tree.{
  IsTree, fresh, linked, level', linked-IsTree, level'-old, entry-linked, addr-IsAligned,
}

-- `next`, at level `l`, is what entry `i` of `t` points to now. Tables keep their levels, and
-- present entries of tables keep their values.
pub record Reached (first : ℕ) (level : ℕ → ℕ) (m : Machine) (t i l : ℕ) (next : ℕ) (m' : Machine)
    : Type 0 where
  pub level_now : ℕ → ℕ
  pub tree : IsTree first level_now m'
  pub same_root : m'.pml4 ≡ m.pml4
  pub at : level_now next ≡ l
  pub levels_kept : (s : ℕ) → 0 < level s → level_now s ≡ level s
  pub present : is_present (entry m' t i) ≡ true
  pub points : frame_of (entry m' t i) ≡ next
  pub entries_kept :
      (s j : ℕ)
      → 0 < level s
      → j < 512
      → is_present (entry m s j) ≡ true
      → entry m' s j ≡ entry m s j

-- The allocator has no page left to hand out.
abbrev pub Exhausted : MemoryMap → Machine → Type 0
Exhausted mmap m = (j : ℕ) → j < m.pmm.total_pages → usable mmap m.pmm j ≡ false

pub data Descended (mmap : MemoryMap) (first : ℕ) (level : ℕ → ℕ) (m : Machine) (t i l : ℕ)
    : Option ℕ × Machine → Type 0 where
  failed : Exhausted mmap m → Descended mmap first level m t i l (none, m)
  reached :
      {next : ℕ} {m' : Machine}
      → Reached first level m t i l next m'
      → Descended mmap first level m t i l (some next, m')

module _ (mmap : MemoryMap) {first : ℕ} {level : ℕ → ℕ} {m : Machine} (tree : IsTree first level m)
    (t i l flags : ℕ) (at : level t ≡ suc l) (pos : 0 < l) (hi : i < 512)
    (low : level t ≡ 4 → first ≤ i) where
  module _ (k : ℕ) (hk : k < m.pmm.total_pages) (free : is_used m.pmm k ≡ false)
      (high : 0x400000 ≤ page_addr m.pmm k) where
    abbrev after : Machine
    after = linked tree t i l flags k at hi pos hk free high

    abbrev fresh_entry :
        (s j : ℕ)
        → IsAligned s
        → j < 512
        → entry after s j ≡ (
            if t == s && i == j
            then page_addr m.pmm k + table_flags flags
            else if page_addr m.pmm k == s
            then 0
            else entry m s j)
    fresh_entry = entry-linked tree t i l flags k at hi pos hk free high

    t-IsAligned : IsAligned t
    t-IsAligned = tree.aligned t (omega (arith, at))

    new-IsAligned : IsAligned (page_addr m.pmm k)
    new-IsAligned = addr-IsAligned tree t i l flags k at hi pos hk free high

    not_fresh : level (page_addr m.pmm k) ≡ 0
    not_fresh = fresh tree t i l flags k at hi pos hk free high

    root_kept : after.pml4 ≡ m.pml4
    unfolding link_table set_entry
    root_kept = refl

    entry_kept :
        is_present (entry m t i) ≡ false
        → (s j : ℕ) → 0 < level s
        → j < 512
        → is_present (entry m s j) ≡ true
        → entry after s j ≡ entry m s j
    entry_kept absent s j old hj p = elim (Bool-cases (t == s && i == j)) [
      | inl here ↦
          let (st, ij) = &&-eq-true (t == s) (i == j) here in
          let te : t ≡ s = (==_iff t s).0 st in
          let ie : i ≡ j = (==_iff i j).0 ij in
          absurd (
            cc (
              p,
              absent,
              ap (λ x. is_present (entry m x i)) te,
              ap (λ x. is_present (entry m s x)) ie,
            ))
      | inr elsewhere ↦ ground (arith, fresh_entry s j (tree.aligned s old) hj, not_fresh)
    ]

    linked-Reached :
        is_present (entry m t i) ≡ false → Reached first level m t i l (page_addr m.pmm k) after
    unfolding link_table
    linked-Reached absent = record {
      level_now = level' tree t i l flags k at hi pos hk free high;
      tree = linked-IsTree tree t i l flags k at hi pos hk free high;
      same_root = root_kept;
      at = ground (arith, ==_refl (page_addr m.pmm k));
      levels_kept = level'-old tree t i l flags k at hi pos hk free high;
      present = ground (arith, fresh_entry t i t-IsAligned hi, new-IsAligned);
      points = ground (arith, fresh_entry t i t-IsAligned hi, new-IsAligned);
      entries_kept = entry_kept absent;
    }

  fresh-Descended :
      {r : ℕ × PmmInfo}
      → Allocated mmap m.pmm r
      → is_present (entry m t i) ≡ false
      → Descended mmap first level m t i l (link_table t i flags (new_table m r))
  unfolding new_table link_table
  fresh-Descended (took k hk good first_one) absent =
      let nonzero : (page_addr m.pmm k == 0) ≡ false =
        ground (arith, is_address_available-le mmap (page_addr m.pmm k)) in
      let high : 0x400000 ≤ page_addr m.pmm k =
        ground (arith, is_address_available-le mmap (page_addr m.pmm k)) in
      rw nonzero (reached (linked-Reached k hk (ground arith) high absent))
  fresh-Descended (full none_left) absent = failed none_left

  pub next_table-Descended : Descended mmap first level m t i l (next_table mmap m t i flags)
  unfolding next_table allocate_page_table
  next_table-Descended = elim (Bool-cases (is_present (entry m t i))) [
    | inr absent ↦
        rw absent
          (fresh-Descended (pmm_alloc_page-Allocated mmap m.pmm tree.allocator.hint_in) absent)
    | inl present ↦ rw present (
        reached record {
          level_now = level;
          tree = tree;
          same_root = refl;
          at = omega (arith, tree.child t i (omega (arith, at)) hi low present);
          levels_kept = λ s old. refl;
          present = present;
          points = refl;
          entries_kept = λ s j old hj p. refl;
        })
  ]
