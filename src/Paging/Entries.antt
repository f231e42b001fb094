-- ===== src/Paging/Entries.antt =====
-- Reads and writes of page-table entries (os/kernel/hal/mem/k_mem/paging.c): entries of page-aligned
-- tables do not overlap.
use vsnx_os.Base.{
  ℕ, zero, suc, ◌+◌, ◌%◌, ◌≤◌, ◌<◌, ◌≡◌, refl, ◌≢◌, ◌&&◌, arith, ◌==◌, if◌then◌else◌, Bool-cases,
  inl, inr,
}
use vsnx_os.Paging.{Machine, entry, entry_addr, set_entry, clear_entries, store_word}

abbrev pub IsAligned : ℕ → Type 0
IsAligned t = t % 4096 ≡ 0

same_entry :
    (t i t' i' : ℕ)
    → IsAligned t
    → IsAligned t'
    → i < 512
    → i' < 512
    → entry_addr t i ≡ entry_addr t' i'
    → (t ≡ t') × (i ≡ i')
same_entry t i t' i' at at' hi hi' e = omega arith

pub entry-set_entry :
    (m : Machine) (t i v t' i' : ℕ)
    → IsAligned t
    → IsAligned t'
    → i < 512
    → i' < 512
    → entry (set_entry m t i v) t' i' ≡ (if t == t' && i == i' then v else entry m t' i')
unfolding set_entry
entry-set_entry m t i v t' i' at at' hi hi' = ground (arith, same_entry t' i' t i at' at hi' hi)

-- The loop over the entries of a table: the words at these entries become 0, no other changes.
clear_entries-other :
    (n i t : ℕ) (word : ℕ → ℕ) (a : ℕ)
    → ((k : ℕ) → i ≤ k → k < i + n → a ≢ entry_addr t k)
    → clear_entries n i t word a ≡ word a
unfolding clear_entries
clear_entries-other zero i t word a apart = refl
clear_entries-other (suc n) i t word a apart = ground (
  arith,
  apart i (omega arith) (omega arith),
  clear_entries-other n (i + 1) t (store_word word (entry_addr t i) 0) a
      (λ k lo hi. apart k (omega arith) (omega arith)),
)

clear_entries-own :
    (n i t : ℕ) (word : ℕ → ℕ) (k : ℕ)
    → i ≤ k
    → k < i + n
    → clear_entries n i t word (entry_addr t k) ≡ 0
unfolding clear_entries
clear_entries-own zero i t word k lo hi = absurd (omega arith)
clear_entries-own (suc n) i t word k lo hi = elim (Bool-cases (i == k)) [
  | inl here ↦ ground (
    arith,
    clear_entries-other n (i + 1) t (store_word word (entry_addr t i) 0) (entry_addr t k)
        (λ j low high e. ground arith),
  )
  | inr later ↦
      clear_entries-own n (i + 1) t (store_word word (entry_addr t i) 0) k (ground arith)
        (omega arith)
]

pub clear_table :
    (t : ℕ) (word : ℕ → ℕ) (t' i' : ℕ)
    → IsAligned t
    → IsAligned t'
    → i' < 512
    → clear_entries 512 0 t word (entry_addr t' i')
      ≡ (if t == t' then 0 else word (entry_addr t' i'))
clear_table t word t' i' at at' hi' = elim (Bool-cases (t == t')) [
  | inl same ↦ ground (arith, clear_entries-own 512 0 t word i')
  | inr differ ↦ ground (
    arith,
    clear_entries-other 512 0 t word (entry_addr t' i')
        (λ k lo hi e. ground (arith, same_entry t' i' t k at' at hi')),
  )
]
