-- ===== src/Memory/Copy.antt =====
-- Copies and fills of os/kernel/hal/mem/k_mem/pmm_api.c, os/kernel/hal/mem/u_mem/vmm_api.c and os/kernel/utilities/strings/strings.c:
-- what each byte of memory is afterwards, overlapping ranges included.
use vsnx_os.Base.{
  ℕ, zero, suc, ◌+◌, ◌-◌, ◌%◌, ◌≤◌, ◌<◌, ◌≡◌, ◌≢◌, ◌⊎◌, ◌&&◌, arith, ltb, leb, if◌then◌else◌, ap,
}
use vsnx_os.Pmm.{store_byte}
use vsnx_os.Memory.{
  copy_up, copy_down, fill_up, kmemcpy, kmemset, kmemmove, umemcpy, umemset, umemmove, memcpy,
  memmove, memset,
}

-- The byte at `a` once the `n` bytes from `src` on were copied to `dest`, as they were.
abbrev pub copied : (mem : ℕ → ℕ) (dest src n a : ℕ) → ℕ
copied mem dest src n a = if leb dest a && ltb a (dest + n) then mem (src + (a - dest)) else mem a

abbrev pub filled : (mem : ℕ → ℕ) (ptr val n a : ℕ) → ℕ
filled mem ptr val n a = if leb ptr a && ltb a (ptr + n) then val else mem a

module _ (dest src : ℕ) where
  -- The bytes from offset `lo` to below `hi` are copied.
  abbrev between : (mem : ℕ → ℕ) (lo hi a : ℕ) → ℕ
  between mem lo hi a =
      if leb (dest + lo) a && ltb a (dest + hi) then mem (src + (a - dest)) else mem a

  abbrev byte_copied : (ℕ → ℕ) → ℕ → ℕ → ℕ
  byte_copied mem i = store_byte mem (dest + i) (mem (src + i))

  at_offset : (mem : ℕ → ℕ) (i a : ℕ) → a ≡ dest + i → mem (src + i) ≡ mem (src + (a - dest))
  at_offset mem i a e = let o : src + i ≡ src + (a - dest) = omega (arith, e) in ap mem o

  copy_up_lem :
      (n i : ℕ) (mem : ℕ → ℕ) (a : ℕ)
      → (dest ≤ src) ⊎ (src + (i + n) ≤ dest)
      → copy_up n i dest src mem a ≡ between mem i (i + n) a
  unfolding copy_up
  copy_up_lem zero i mem a apart = ground arith
  copy_up_lem (suc n) i mem a apart =
      ground (arith, copy_up_lem n (i + 1) (byte_copied mem i) a (ground arith), at_offset mem i a)

  copy_down_lem :
      (n : ℕ) (mem : ℕ → ℕ) (a : ℕ) → src ≤ dest → copy_down n dest src mem a ≡ between mem 0 n a
  unfolding copy_down
  copy_down_lem zero mem a behind = ground arith
  copy_down_lem (suc n) mem a behind =
      ground (arith, copy_down_lem n (byte_copied mem n) a behind, at_offset mem n a)

memcpy_lem :
    (mem : ℕ → ℕ) (dest src n a : ℕ)
    → (dest ≤ src) ⊎ (src + n ≤ dest)
    → memcpy mem dest src n a ≡ copied mem dest src n a
unfolding memcpy
memcpy_lem mem dest src zero a apart = ground arith
memcpy_lem mem dest src (suc n) a apart =
    let here : a ≡ dest → mem src ≡ mem (src + (a - dest)) =
      λ e. let o : src ≡ src + (a - dest) = omega (arith, e) in ap mem o in
    let later : dest < a → mem (src + 1 + (a - (dest + 1))) ≡ mem (src + (a - dest)) =
      λ h. let o : src + 1 + (a - (dest + 1)) ≡ src + (a - dest) = omega (arith, h) in ap mem o in
    ground (
      arith,
      memcpy_lem (store_byte mem dest (mem src)) (dest + 1) (src + 1) n a (ground arith),
      here,
      later,
    )

-- Between two pointers that are not null, `kmemmove`, `umemmove` and `memmove` leave at the destination the
-- bytes that the source held before, also where the two overlap, and change no other byte.
pub move_lem :
    (mem : ℕ → ℕ) (dest src n a : ℕ)
    → dest ≢ 0
    → src ≢ 0
    → (kmemmove mem dest src n a ≡ copied mem dest src n a)
      × (umemmove mem dest src n a ≡ copied mem dest src n a)
      × (memmove mem dest src n a ≡ copied mem dest src n a)
unfolding kmemmove memmove umemmove
move_lem mem dest src n a dest_there src_there = (
  ground (
    arith,
    copy_up_lem dest src n 0 mem a,
    copy_down_lem dest src n mem a,
    at_offset dest src mem (a - dest) a,
  ),
  ground (
    arith,
    copy_up_lem dest src n 0 mem a,
    copy_down_lem dest src n mem a,
    at_offset dest src mem (a - dest) a,
  ),
  ground (arith, memcpy_lem mem dest src n a, copy_down_lem dest src n mem a),
)

-- Between two pointers that are not null, where the destination does not begin inside the source
-- behind its first byte, `kmemcpy`, `umemcpy` and `memcpy` leave at the destination the bytes that the source
-- held before, and change no other byte.
pub copy_lem :
    (mem : ℕ → ℕ) (dest src n a : ℕ)
    → dest ≢ 0
    → src ≢ 0
    → (dest ≤ src) ⊎ (src + n ≤ dest)
    → (kmemcpy mem dest src n a ≡ copied mem dest src n a)
      × (umemcpy mem dest src n a ≡ copied mem dest src n a)
      × (memcpy mem dest src n a ≡ copied mem dest src n a)
unfolding kmemcpy umemcpy
copy_lem mem dest src n a dest_there src_there apart = (
  ground (arith, copy_up_lem dest src n 0 mem a (ground arith)),
  ground (arith, copy_up_lem dest src n 0 mem a (ground arith)),
  memcpy_lem mem dest src n a apart,
)

fill_up_lem :
    (n i ptr val : ℕ) (mem : ℕ → ℕ) (a : ℕ)
    → fill_up n i ptr val mem a ≡ filled mem (ptr + i) val n a
unfolding fill_up
fill_up_lem zero i ptr val mem a = ground arith
fill_up_lem (suc n) i ptr val mem a =
    ground (arith, fill_up_lem n (i + 1) ptr val (store_byte mem (ptr + i) val) a)

memset_lem :
    (mem : ℕ → ℕ) (ptr value n a : ℕ) → memset mem ptr value n a ≡ filled mem ptr (value % 256) n a
unfolding memset
memset_lem mem ptr value zero a = ground arith
memset_lem mem ptr value (suc n) a =
    ground (arith, memset_lem (store_byte mem ptr (value % 256)) (ptr + 1) value n a)

-- `kmemset` and `umemset` of a pointer that is not null, and `memset`, set each byte of the range to the value's
-- low byte, and change no other.
pub set_lem :
    (mem : ℕ → ℕ) (ptr value n a : ℕ)
    → ptr ≢ 0
    → (kmemset mem ptr value n a ≡ filled mem ptr (value % 256) n a)
      × (umemset mem ptr value n a ≡ filled mem ptr (value % 256) n a)
      × (memset mem ptr value n a ≡ filled mem ptr (value % 256) n a)
unfolding kmemset umemset
set_lem mem ptr value n a there = (
  ground (arith, fill_up_lem n 0 ptr (value % 256) mem a),
  ground (arith, fill_up_lem n 0 ptr (value % 256) mem a),
  memset_lem mem ptr value n a,
)
