-- ===== src/Memory/Compare.antt =====
-- Comparisons and searches of os/kernel/hal/mem/k_mem/pmm_api.c,
-- os/kernel/hal/mem/u_mem/vmm_api.c and os/kernel/utilities/strings/strings.c: the first byte that differs, or that has the value.
use vsnx_os.Base.{
  ℕ, zero, suc, ◌+◌, ◌%◌, ◌≤◌, ◌<◌, ◌≡◌, refl, ◌≢◌, ◌⊎◌, inl, inr, arith, ltb, ◌==◌, if◌then◌else◌,
  Bool-cases, ℤ, pos, negsuc, sub_int, subst, ap, ==_iff, ==-ne_iff, sym, ==-ne,
}
use vsnx_os.Memory.{compare_from, kmemcmp, umemcmp, memcmp, find_byte, kmemchr, umemchr, memchr}

-- How two ranges compare from offset `i` to below `i + n`: what `kmemcmp` and `memcmp` return.
module _ (mem : ℕ → ℕ) (ptr1 ptr2 : ℕ) where
  pub data Compared (i n : ℕ) : ℤ → ℤ → Type 0 where
    same :
        ((j : ℕ) → i ≤ j → j < i + n → mem (ptr1 + j) ≡ mem (ptr2 + j))
        → Compared i n (pos 0) (pos 0)
    differ :
        {r s : ℤ} (k : ℕ)
        → i ≤ k
        → k < i + n
        → ((j : ℕ) → i ≤ j → j < k → mem (ptr1 + j) ≡ mem (ptr2 + j))
        → mem (ptr1 + k) ≢ mem (ptr2 + k)
        → r ≡ (if ltb (mem (ptr1 + k)) (mem (ptr2 + k)) then negsuc 0 else pos 1)
        → s ≡ sub_int (mem (ptr1 + k)) (mem (ptr2 + k))
        → Compared i n r s

  from_equal :
      (i k : ℕ)
      → mem (ptr1 + i) ≡ mem (ptr2 + i)
      → ((j : ℕ) → i + 1 ≤ j → j < k → mem (ptr1 + j) ≡ mem (ptr2 + j))
      → (j : ℕ) → i ≤ j
      → j < k
      → mem (ptr1 + j) ≡ mem (ptr2 + j)
  from_equal i k now later j lo hi = elim (Bool-cases (i == j)) [
    | inl here ↦ subst (λ x. mem (ptr1 + x) ≡ mem (ptr2 + x)) ((==_iff i j).0 here) now
    | inr behind ↦ later j (ground arith) hi
  ]

  Compared-next :
      {i n : ℕ} {r s : ℤ}
      → mem (ptr1 + i) ≡ mem (ptr2 + i)
      → Compared (i + 1) n r s
      → Compared i (suc n) r s
  Compared-next {i} {n} now (same equal) =
      same λ j lo hi. from_equal i (i + suc n) now (λ x a b. equal x a (omega arith)) j lo hi
  Compared-next {i} now (differ k lo hi equal apart r s) =
      differ k (omega arith) (omega arith) (from_equal i k now equal) apart r s

  compare_from-next :
      (n i : ℕ)
      → mem (ptr1 + i) ≡ mem (ptr2 + i)
      → compare_from mem (suc n) i ptr1 ptr2 ≡ compare_from mem n (i + 1) ptr1 ptr2
  unfolding compare_from
  compare_from-next n i e = ground arith

  memcmp-next :
      (n i : ℕ)
      → mem (ptr1 + i) ≡ mem (ptr2 + i)
      → memcmp mem (ptr1 + i) (ptr2 + i) (suc n) ≡ memcmp mem (ptr1 + (i + 1)) (ptr2 + (i + 1)) n
  unfolding memcmp
  memcmp-next n i e =
      let first : ptr1 + i + 1 ≡ ptr1 + (i + 1) = omega arith in
      let second : ptr2 + i + 1 ≡ ptr2 + (i + 1) = omega arith in
      ground (
        arith,
        ap (λ x. memcmp mem x (ptr2 + i + 1) n) first,
        ap (λ x. memcmp mem (ptr1 + (i + 1)) x n) second,
      )

  compare_from-differ :
      (n i : ℕ)
      → mem (ptr1 + i) ≢ mem (ptr2 + i)
      → compare_from mem (suc n) i ptr1 ptr2
        ≡ (if ltb (mem (ptr1 + i)) (mem (ptr2 + i)) then negsuc 0 else pos 1)
  unfolding compare_from
  compare_from-differ n i ne = ground arith

  memcmp-differ :
      (n i : ℕ)
      → mem (ptr1 + i) ≢ mem (ptr2 + i)
      → memcmp mem (ptr1 + i) (ptr2 + i) (suc n) ≡ sub_int (mem (ptr1 + i)) (mem (ptr2 + i))
  unfolding memcmp
  memcmp-differ n i ne = ground arith

  compare_none :
      (i : ℕ) → Compared i 0 (compare_from mem 0 i ptr1 ptr2) (memcmp mem (ptr1 + i) (ptr2 + i) 0)
  unfolding compare_from memcmp
  compare_none i = same λ j lo hi. absurd (omega arith)

  Compared-loops :
      (n i : ℕ) → Compared i n (compare_from mem n i ptr1 ptr2) (memcmp mem (ptr1 + i) (ptr2 + i) n)
  Compared-loops zero i = compare_none i
  Compared-loops (suc n) i = elim (Bool-cases (mem (ptr1 + i) == mem (ptr2 + i))) [
    | inl equal ↦
        let e = (==_iff (mem (ptr1 + i)) (mem (ptr2 + i))).0 equal in
        rw (compare_from-next n i e, memcmp-next n i e) (Compared-next e (Compared-loops n (i + 1)))
    | inr unequal ↦
        let ne = (==-ne_iff (mem (ptr1 + i)) (mem (ptr2 + i))).0 unequal in
        differ i (omega arith) (omega arith) (λ j lo hi. absurd (omega arith)) ne
          (compare_from-differ n i ne) (memcmp-differ n i ne)
  ]

  -- `kmemcmp` of two pointers that are not null, and `memcmp`, find the first byte that differs:
  -- `kmemcmp` returns -1 or 1 by which is less, `memcmp` their difference, and both 0 where the
  -- ranges are equal. `umemcmp` agrees with `kmemcmp`.
  pub compare_lem :
      (n : ℕ)
      → ptr1 ≢ 0
      → ptr2 ≢ 0
      → Compared 0 n (kmemcmp mem ptr1 ptr2 n) (memcmp mem ptr1 ptr2 n)
        × (umemcmp mem ptr1 ptr2 n ≡ kmemcmp mem ptr1 ptr2 n)
  unfolding kmemcmp umemcmp
  compare_lem n there1 there2 =
      let start1 : ptr1 + 0 ≡ ptr1 = omega arith in
      let start2 : ptr2 + 0 ≡ ptr2 = omega arith in
      let loops : Compared 0 n (compare_from mem n 0 ptr1 ptr2) (memcmp mem ptr1 ptr2 n) =
        subst (λ x. Compared 0 n (compare_from mem n 0 ptr1 ptr2) (memcmp mem x ptr2 n)) start1
          (subst (λ x. Compared 0 n (compare_from mem n 0 ptr1 ptr2) (memcmp mem (ptr1 + 0) x n))
            start2 (Compared-loops n 0)) in
      (rw (==-ne ptr1 0 there1, ==-ne ptr2 0 there2) loops, refl)

-- The search of a byte returns the address of the first byte of the range with the value, or 0.
module _ (mem : ℕ → ℕ) (value : ℕ) where
  abbrev pub FoundByte : (ptr n r : ℕ) → Type 0
  FoundByte ptr n r =
      ((r ≡ 0) × ((a : ℕ) → ptr ≤ a → a < ptr + n → mem a ≢ value % 256))
      ⊎ ((ptr ≤ r)
          × (r < ptr + n)
          × (mem r ≡ value % 256)
          × ((a : ℕ) → ptr ≤ a → a < r → mem a ≢ value % 256))

  FoundByte-next :
      (ptr n r : ℕ) → mem ptr ≢ value % 256 → FoundByte (ptr + 1) n r → FoundByte ptr (suc n) r
  FoundByte-next ptr n r ne (inl (null, nowhere)) = inl (
    null,
    λ a lo hi e. elim (Bool-cases (ptr == a)) [
      | inl here ↦ ne (subst (λ x. mem x ≡ value % 256) (sym ((==_iff ptr a).0 here)) e)
      | inr behind ↦ nowhere a (ground arith) (omega arith) e
    ],
  )
  FoundByte-next ptr n r ne (inr (lo, hi, there, before)) = inr (
    omega arith,
    omega arith,
    there,
    λ a lo' hi' e. elim (Bool-cases (ptr == a)) [
      | inl here ↦ ne (subst (λ x. mem x ≡ value % 256) (sym ((==_iff ptr a).0 here)) e)
      | inr behind ↦ before a (ground arith) hi' e
    ],
  )

  memchr-FoundByte : (n ptr : ℕ) → FoundByte ptr n (memchr mem ptr value n)
  unfolding memchr
  memchr-FoundByte zero ptr = inl (refl, λ a lo hi. absurd (omega arith))
  memchr-FoundByte (suc n) ptr = elim (Bool-cases (mem ptr == value % 256)) [
    | inl here ↦
        rw (here, memchr)
          (inr (
            omega arith,
            omega arith,
            (==_iff (mem ptr) (value % 256)).0 here,
            λ a lo hi. absurd (omega arith),
          ))
    | inr behind ↦
        rw (behind, memchr)
          (FoundByte-next ptr n (memchr mem (ptr + 1) value n)
            ((==-ne_iff (mem ptr) (value % 256)).0 behind) (memchr-FoundByte n (ptr + 1)))
  ]

  find_byte-memchr :
      (n i ptr : ℕ) → find_byte mem n i ptr (value % 256) ≡ memchr mem (ptr + i) value n
  unfolding find_byte memchr
  find_byte-memchr zero i ptr = refl
  find_byte-memchr (suc n) i ptr =
      let next : ptr + (i + 1) ≡ ptr + i + 1 = omega arith in
      ground (arith, find_byte-memchr n (i + 1) ptr, ap (λ x. memchr mem x value n) next)

  -- `kmemchr` and `umemchr` of a pointer that is not null, and `memchr`, return the address of the first byte of
  -- the range that is the value's low byte, or 0 where no byte is.
  pub find_lem :
      (ptr n : ℕ)
      → ptr ≢ 0
      → (kmemchr mem ptr value n ≡ memchr mem ptr value n)
        × (umemchr mem ptr value n ≡ memchr mem ptr value n)
        × FoundByte ptr n (memchr mem ptr value n)
  unfolding kmemchr umemchr
  find_lem ptr n there =
      let start : ptr + 0 ≡ ptr = omega arith in
      (
        ground (arith, find_byte-memchr n 0 ptr, ap (λ x. memchr mem x value n) start),
        ground (arith, find_byte-memchr n 0 ptr, ap (λ x. memchr mem x value n) start),
        memchr-FoundByte n ptr,
      )
