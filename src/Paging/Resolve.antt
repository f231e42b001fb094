-- ===== src/Paging/Resolve.antt =====
-- paging_map_page, paging_unmap_page and paging_get_physical of os/kernel/hal/mem/k_mem/paging.c
-- together: what is mapped is resolved.
use vsnx_os.Base.{
  ℕ, ◌+◌, ◌%◌, ◌≤◌, ◌<◌, ◌≡◌, refl, ◌⊎◌, inl, inr, Bool, true, false, not, arith, ◌==◌,
  if◌then◌else◌, Option, some, Bool-cases, subst, sym, ◌∙◌, bit_or,
}
use vsnx_os.Mmap.{MemoryMap}
use vsnx_os.Paging.{
  Machine, entry, is_present, frame_of, set_entry, pml4_index, pdp_index, pd_index, pt_index,
  descend, paging_map_page, find_table, paging_get_physical,
}
use vsnx_os.Paging.Entries.{entry-set_entry}
use vsnx_os.Paging.Tree.{IsTree, bit_or_frame}
use vsnx_os.Paging.Descend.{Reached, Exhausted, Descended, failed, reached, next_table-Descended}

-- The tables on the way of an address down to its page table.
pub record Walk (level : ℕ → ℕ) (m : Machine) (vaddr pt : ℕ) : Type 0 where
  pub pdp : ℕ
  pub pd : ℕ
  pub level_pdp : level pdp ≡ 3
  pub level_pd : level pd ≡ 2
  pub level_pt : level pt ≡ 1
  pub root_present : is_present (entry m m.pml4 (pml4_index vaddr)) ≡ true
  pub to_pdp : frame_of (entry m m.pml4 (pml4_index vaddr)) ≡ pdp
  pub pdp_present : is_present (entry m pdp (pdp_index vaddr)) ≡ true
  pub to_pd : frame_of (entry m pdp (pdp_index vaddr)) ≡ pd
  pub pd_present : is_present (entry m pd (pd_index vaddr)) ≡ true
  pub to_pt : frame_of (entry m pd (pd_index vaddr)) ≡ pt

find_table-Walk :
    {level : ℕ → ℕ} {m : Machine} {vaddr pt : ℕ}
    → Walk level m vaddr pt
    → find_table m vaddr ≡ some pt
unfolding find_table
find_table-Walk {pt} w =
    rw (w.to_pdp, w.to_pd, w.root_present, w.pdp_present, w.pd_present, w.to_pt) refl

-- Where the present entries of tables above the page tables are kept, so is the walk.
Walk-kept :
    {first : ℕ} {level level' : ℕ → ℕ} {m m' : Machine} {vaddr pt : ℕ}
    → IsTree first level m
    → m'.pml4 ≡ m.pml4
    → ((s : ℕ) → 0 < level s → level' s ≡ level s)
    → ((s j : ℕ)
        → 1 < level s
        → j < 512
        → is_present (entry m s j) ≡ true
        → entry m' s j ≡ entry m s j)
    → Walk level m vaddr pt
    → Walk level' m' vaddr pt
Walk-kept {level} {m} {m'} {vaddr} {pt} tree root levels kept w =
    let four =
      kept m.pml4 (pml4_index vaddr) (omega (arith, tree.root)) (omega arith) w.root_present in
    let e4 : entry m' m'.pml4 (pml4_index vaddr) ≡ entry m m.pml4 (pml4_index vaddr) =
      subst (λ t. entry m' t (pml4_index vaddr) ≡ entry m m.pml4 (pml4_index vaddr)) (sym root)
        four in
    let e3 =
      kept w.pdp (pdp_index vaddr) (omega (arith, w.level_pdp)) (omega arith) w.pdp_present in
    let e2 = kept w.pd (pd_index vaddr) (omega (arith, w.level_pd)) (omega arith) w.pd_present in
    record {
      pdp = w.pdp;
      pd = w.pd;
      level_pdp = omega (arith, levels w.pdp, w.level_pdp);
      level_pd = omega (arith, levels w.pd, w.level_pd);
      level_pt = omega (arith, levels pt, w.level_pt);
      root_present = rw e4 w.root_present;
      to_pdp = rw e4 w.to_pdp;
      pdp_present = rw e3 w.pdp_present;
      to_pd = rw e3 w.to_pd;
      pd_present = rw e2 w.pd_present;
      to_pt = rw e2 w.to_pt;
    }

-- What a walk's page table makes of the address.
pub get_physical-Walk :
    {level : ℕ → ℕ} {m : Machine} {vaddr pt : ℕ}
    → Walk level m vaddr pt
    → paging_get_physical m vaddr ≡ (
        if not (is_present (entry m pt (pt_index vaddr)))
        then 0
        else bit_or (frame_of (entry m pt (pt_index vaddr))) (vaddr % 4096))
unfolding paging_get_physical
get_physical-Walk w = rw (find_table-Walk w, paging_get_physical) refl

-- A write to a page table changes no walk.
module _ {first : ℕ} {level : ℕ → ℕ} {m : Machine} (tree : IsTree first level m) {pt i : ℕ}
    (at : level pt ≡ 1) (hi : i < 512) (v : ℕ) where
  upper_entry : (s j : ℕ) → 1 < level s → j < 512 → entry (set_entry m pt i v) s j ≡ entry m s j
  upper_entry s j deep hj = elim (Bool-cases (pt == s)) [
    | inl same ↦ ground (arith)
    | inr differ ↦ ground (
      arith,
      entry-set_entry m pt i v s j (tree.aligned pt (omega (arith, at)))
          (tree.aligned s (omega arith)) hi hj,
    )
  ]

  upper_child :
      (s j : ℕ)
      → 1 < level s
      → j < 512
      → (level s ≡ 4 → first ≤ j)
      → is_present (entry (set_entry m pt i v) s j) ≡ true
      → level (frame_of (entry (set_entry m pt i v) s j)) + 1 ≡ level s
  upper_child s j deep hj low present =
      let e = upper_entry s j deep hj in
      rw e (tree.child s j deep hj low (subst (λ x. is_present x ≡ true) e present))

  pub set_entry-IsTree : IsTree first level (set_entry m pt i v)
  unfolding set_entry
  set_entry-IsTree = record {
    allocator = tree.allocator;
    root = tree.root;
    aligned = tree.aligned;
    child = upper_child;
    taken = tree.taken;
  }

  root_kept : (set_entry m pt i v).pml4 ≡ m.pml4
  unfolding set_entry
  root_kept = refl

  pub set_entry-Walk :
      {vaddr pt' : ℕ} → Walk level m vaddr pt' → Walk level (set_entry m pt i v) vaddr pt'
  set_entry-Walk w =
      Walk-kept tree root_kept (λ s old. refl) (λ s j deep hj p. upper_entry s j deep hj) w

  pub own_entry : entry (set_entry m pt i v) pt i ≡ v
  own_entry =
      let a = tree.aligned pt (omega (arith, at)) in
      ground (arith, entry-set_entry m pt i v pt i a a hi hi)

-- An entry that was present on the way stays so.
kept_again :
    {first : ℕ} {level : ℕ → ℕ} {m m' : Machine} {t i l next : ℕ}
    → (r : Reached first level m t i l next m') → (s j : ℕ) → 0 < level s
    → j < 512
    → is_present (entry m s j) ≡ true
    → (entry m' s j ≡ entry m s j) × (0 < r.level_now s) × (is_present (entry m' s j) ≡ true)
kept_again r s j deep hj p =
    let e = r.entries_kept s j deep hj p in (e, omega (arith, r.levels_kept s), rw e p)

-- The three levels that were descended are a walk to the page table.
Reached-Walk :
    {first : ℕ} {level : ℕ → ℕ} {m m1 m2 m3 : Machine} {vaddr pdp pd pt : ℕ}
    → IsTree first level m
    → (r1 : Reached first level m m.pml4 (pml4_index vaddr) 3 pdp m1)
    → (r2 : Reached first r1.level_now m1 pdp (pdp_index vaddr) 2 pd m2)
    → (r3 : Reached first r2.level_now m2 pd (pd_index vaddr) 1 pt m3)
    → Walk r3.level_now m3 vaddr pt
Reached-Walk {m} {m1} {m2} {m3} {vaddr} {pdp} {pd} {pt} tree r1 r2 r3 =
    let root_level : 0 < r1.level_now m.pml4 = omega (arith, r1.levels_kept m.pml4, tree.root) in
    let (a2, deep2, p2) =
      kept_again r2 m.pml4 (pml4_index vaddr) root_level (omega arith) r1.present in
    let (a3, deep3, p3) = kept_again r3 m.pml4 (pml4_index vaddr) deep2 (omega arith) p2 in
    let (b3, deep, q3) =
      kept_again r3 pdp (pdp_index vaddr) (omega (arith, r2.levels_kept pdp, r1.at)) (omega arith)
        r2.present in
    let roots : m3.pml4 ≡ m.pml4 = r3.same_root ∙ (r2.same_root ∙ r1.same_root) in
    record {
      pdp = pdp;
      pd = pd;
      level_pdp = omega (arith, r1.at, r2.levels_kept pdp, r3.levels_kept pdp);
      level_pd = omega (arith, r2.at, r3.levels_kept pd);
      level_pt = r3.at;
      root_present = rw roots p3;
      to_pdp = rw (roots, a3, a2) r1.points;
      pdp_present = q3;
      to_pd = rw b3 r2.points;
      pd_present = r3.present;
      to_pt = r3.points;
    }

module _ (mmap : MemoryMap) (first vaddr paddr flags : ℕ) where
  -- What `paging_map_page` returns and leaves: the tables are a tree; on success the address resolves
  -- to the frame with its offset, and on failure memory is exhausted.
  abbrev pub MapResult : Bool × Machine → Type 0
  MapResult r =
      ((level : ℕ → ℕ) × IsTree first level r.1)
      × (((r.0 ≡ true) × (paging_get_physical r.1 vaddr ≡ frame_of paddr + vaddr % 4096))
          ⊎ ((r.0 ≡ false) × Exhausted mmap r.1))

  descend-MapResult :
      {level : ℕ → ℕ} {m : Machine} {t i l : ℕ} {r : Option ℕ × Machine}
      {rest : ℕ → Machine → Bool × Machine}
      → IsTree first level m
      → Descended mmap first level m t i l r
      → ((next : ℕ) (m' : Machine) → Reached first level m t i l next m' → MapResult (rest next m'))
      → MapResult (descend mmap r rest)
  descend-MapResult {level} tree (failed none_left) next = ((level, tree), inr (refl, none_left))
  descend-MapResult tree (reached {next = n} {m' = m'} r) next = next n m' r

  write_entry :
      {level : ℕ → ℕ} {m : Machine} {pt : ℕ}
      → flags < 4096
      → flags % 2 ≡ 1
      → IsTree first level m
      → Walk level m vaddr pt
      → MapResult (true, set_entry m pt (pt_index vaddr) (bit_or (frame_of paddr) flags))
  write_entry {level} small odd tree w =
      let v : ℕ = bit_or (frame_of paddr) flags in
      let value = bit_or_frame (frame_of paddr) flags (omega arith) small in
      let offset = bit_or_frame (frame_of paddr) (vaddr % 4096) (omega arith) (omega arith) in
      let own = own_entry tree {i = pt_index vaddr} w.level_pt (omega arith) v in
      let there =
        get_physical-Walk (set_entry-Walk tree {i = pt_index vaddr} w.level_pt (omega arith) v w) in
      (
        (level, set_entry-IsTree tree w.level_pt (omega arith) v),
        inl (refl, ground (arith, value, offset, own, there)),
      )

  -- Where tables from 4 MB on are marked in the bitmap, for present flags below bit 12, and an address whose root entry is not the boot code's,
  -- `paging_map_page` keeps the tables a tree of four levels; where it succeeds,
  -- `paging_get_physical` then returns the mapped frame with the address's offset, and where it
  -- fails, the allocator has no page left.
  pub map_page-get_physical :
      {level : ℕ → ℕ} {m : Machine}
      → IsTree first level m
      → first ≤ pml4_index vaddr
      → flags < 4096
      → flags % 2 ≡ 1
      → MapResult (paging_map_page mmap m vaddr paddr flags)
  unfolding paging_map_page
  map_page-get_physical {level} {m} tree low small odd =
      descend-MapResult tree
        (next_table-Descended mmap tree m.pml4 (pml4_index vaddr) 3 flags (omega (arith, tree.root))
          (omega arith) (omega arith) (λ e. low))
        λ pdp m1 r1.
          descend-MapResult r1.tree
            (next_table-Descended mmap r1.tree pdp (pdp_index vaddr) 2 flags (omega (arith, r1.at))
              (omega arith) (omega arith) (λ e. absurd (omega (arith, r1.at, e))))
            λ pd m2 r2.
              descend-MapResult r2.tree
                (next_table-Descended mmap r2.tree pd (pd_index vaddr) 1 flags
                  (omega (arith, r2.at)) (omega arith) (omega arith)
                  (λ e. absurd (omega (arith, r2.at, e))))
                λ pt m3 r3. write_entry small odd r3.tree (Reached-Walk tree r1 r2 r3)
