-- ===== src/Paging/Unmap.antt =====
-- paging_unmap_page of os/kernel/hal/mem/k_mem/paging.c: what is unmapped resolves no more.
use vsnx_os.Base.{ℕ, ◌≤◌, ◌≡◌, refl, ◌⊎◌, inl, inr, arith, none, some, Bool-cases}
use vsnx_os.Paging.{
  Machine, entry, is_present, frame_of, set_entry, pml4_index, pdp_index, pd_index, pt_index,
  find_table, paging_unmap_page, paging_get_physical,
}
use vsnx_os.Paging.Tree.{IsTree}
use vsnx_os.Paging.Resolve.{Walk, set_entry-IsTree, set_entry-Walk, own_entry, get_physical-Walk}

module _ {first : ℕ} {level : ℕ → ℕ} {m : Machine} (tree : IsTree first level m) (vaddr : ℕ)
    (low : first ≤ pml4_index vaddr) where
  -- Of a tree, the search finds the page table of a walk, or an entry that is not present.
  find_table-cases :
      (find_table m vaddr ≡ none)
      ⊎ ((pt : ℕ) × (find_table m vaddr ≡ some pt) × Walk level m vaddr pt)
  unfolding find_table
  find_table-cases = elim (Bool-cases (is_present r4)) [
    | inr gone ↦ inl (rw (gone, find_table) refl)
    | inl yes4 ↦ elim (Bool-cases (is_present r3)) [
      | inr gone ↦ inl (rw (yes4, gone, find_table) refl)
      | inl yes3 ↦ elim (Bool-cases (is_present r2)) [
        | inr gone ↦ inl (rw (yes4, yes3, gone, find_table) refl)
        | inl yes2 ↦
            let l3 =
              tree.child m.pml4 (pml4_index vaddr) (omega (arith, tree.root)) (omega arith)
                (λ e. low) yes4 in
            let l3' : level (frame_of r4) ≡ 3 = omega (arith, l3, tree.root) in
            let l2 =
              tree.child (frame_of r4) (pdp_index vaddr) (omega (arith, l3')) (omega arith)
                (λ e. absurd (omega (arith, l3', e))) yes3 in
            let l2' : level (frame_of r3) ≡ 2 = omega (arith, l2, l3') in
            let l1 =
              tree.child (frame_of r3) (pd_index vaddr) (omega (arith, l2')) (omega arith)
                (λ e. absurd (omega (arith, l2', e))) yes2 in
            inr (
              frame_of r2,
              rw (yes4, yes3, yes2, find_table) refl,
              record {
                pdp = frame_of r4;
                pd = frame_of r3;
                level_pdp = l3';
                level_pd = l2';
                level_pt = omega (arith, l1, l2');
                root_present = yes4;
                to_pdp = refl;
                pdp_present = yes3;
                to_pd = refl;
                pd_present = yes2;
                to_pt = refl;
              },
            )
      ]
    ]
  ]
    where
      r4 : ℕ
      r4 = entry m m.pml4 (pml4_index vaddr)

      r3 : ℕ
      r3 = entry m (frame_of r4) (pdp_index vaddr)

      r2 : ℕ
      r2 = entry m (frame_of r3) (pd_index vaddr)

  unmap_nothing : find_table m vaddr ≡ none → paging_unmap_page m vaddr ≡ m
  unfolding paging_unmap_page
  unmap_nothing gone = rw (gone, paging_unmap_page) refl

  unmap_entry :
      (pt : ℕ)
      → find_table m vaddr ≡ some pt
      → paging_unmap_page m vaddr ≡ set_entry m pt (pt_index vaddr) 0
  unfolding paging_unmap_page
  unmap_entry pt there = rw (there, paging_unmap_page) refl

  no_table : find_table m vaddr ≡ none → paging_get_physical m vaddr ≡ 0
  unfolding paging_get_physical
  no_table gone = rw (gone, paging_get_physical) refl

  -- For an address whose root entry is not the boot code's, `paging_unmap_page` keeps the tables a
  -- tree, and `paging_get_physical` of the address is then 0.
  pub unmap_page-get_physical :
      IsTree first level (paging_unmap_page m vaddr)
      × (paging_get_physical (paging_unmap_page m vaddr) vaddr ≡ 0)
  unmap_page-get_physical = elim find_table-cases [
    | inl gone ↦ rw (unmap_nothing gone) (tree, no_table gone)
    | inr (pt, found_it, w) ↦
        let own = own_entry tree {i = pt_index vaddr} w.level_pt (omega arith) 0 in
        let there =
          get_physical-Walk
            (set_entry-Walk tree {i = pt_index vaddr} w.level_pt (omega arith) 0 w) in
        rw (unmap_entry pt found_it)
          (set_entry-IsTree tree w.level_pt (omega arith) 0, ground (arith, own, there))
  ]
