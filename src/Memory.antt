-- ===== src/Memory.antt =====
-- The byte functions on memory: kmemcpy to kmemchr of os/kernel/hal/mem/k_mem/pmm_api.c, umemcpy to
-- umemchr of os/kernel/hal/mem/u_mem/vmm_api.c, and memcpy to memchr of
-- os/kernel/utilities/strings/strings.c. Memory is a function from address to byte;
-- a range of addresses does not run over the end of the address space. Those that return their first
-- argument return memory here; a null pointer is 0.
pub mod Copy
pub mod Compare
mod Tests
use vsnx_os.Base.{
  ℕ, zero, suc, ◌+◌, ◌%◌, Bool, true, false, not, ◌||◌, ltb, ◌==◌, if◌then◌else◌, ℤ, pos, negsuc,
  sub_int,
}
use vsnx_os.Pmm.{store_byte}

-- `d[i] = s[i]` for `i` upwards.
pub copy_up : (rounds i dest src : ℕ) → (ℕ → ℕ) → ℕ → ℕ
copy_up zero i dest src mem = mem
copy_up (suc n) i dest src mem =
    copy_up n (i + 1) dest src (store_byte mem (dest + i) (mem (src + i)))

-- `d[i - 1] = s[i - 1]` for `i` from `n` downwards.
pub copy_down : (n dest src : ℕ) → (ℕ → ℕ) → ℕ → ℕ
copy_down zero dest src mem = mem
copy_down (suc n) dest src mem = copy_down n dest src (store_byte mem (dest + n) (mem (src + n)))

-- `p[i] = val` for `i` upwards.
pub fill_up : (rounds i ptr val : ℕ) → (ℕ → ℕ) → ℕ → ℕ
fill_up zero i ptr val mem = mem
fill_up (suc n) i ptr val mem = fill_up n (i + 1) ptr val (store_byte mem (ptr + i) val)

abbrev is_null : ℕ → Bool
is_null ptr = ptr == 0

pub kmemcpy : (mem : ℕ → ℕ) (dest src n : ℕ) → ℕ → ℕ
kmemcpy mem dest src n = if is_null dest || is_null src then mem else copy_up n 0 dest src mem

pub kmemset : (mem : ℕ → ℕ) (ptr value n : ℕ) → ℕ → ℕ
kmemset mem ptr value n = if is_null ptr then mem else fill_up n 0 ptr (value % 256) mem

pub kmemmove : (mem : ℕ → ℕ) (dest src n : ℕ) → ℕ → ℕ
kmemmove mem dest src n =
    if is_null dest || is_null src
    then mem
    else if ltb dest src
    then copy_up n 0 dest src mem
    else if ltb src dest
    then copy_down n dest src mem
    else mem

-- The loop of `kmemcmp`.
pub compare_from : (mem : ℕ → ℕ) (rounds i ptr1 ptr2 : ℕ) → ℤ
compare_from mem zero i ptr1 ptr2 = pos 0
compare_from mem (suc n) i ptr1 ptr2 =
    let rest = compare_from mem n (i + 1) ptr1 ptr2 in
    if ltb (mem (ptr1 + i)) (mem (ptr2 + i))
    then negsuc 0
    else if ltb (mem (ptr2 + i)) (mem (ptr1 + i))
    then pos 1
    else rest

pub kmemcmp : (mem : ℕ → ℕ) (ptr1 ptr2 n : ℕ) → ℤ
kmemcmp mem ptr1 ptr2 n =
    if is_null ptr1 || is_null ptr2 then pos 0 else compare_from mem n 0 ptr1 ptr2

-- The loop of `kmemchr`: the address of the byte, or 0.
pub find_byte : (mem : ℕ → ℕ) (rounds i ptr val : ℕ) → ℕ
find_byte mem zero i ptr val = 0
find_byte mem (suc n) i ptr val =
    let rest = find_byte mem n (i + 1) ptr val in if mem (ptr + i) == val then ptr + i else rest

pub kmemchr : (mem : ℕ → ℕ) (ptr value n : ℕ) → ℕ
kmemchr mem ptr value n = if is_null ptr then 0 else find_byte mem n 0 ptr (value % 256)

-- The same functions for user memory, which vmm_api.c repeats.
pub umemcpy : (mem : ℕ → ℕ) (dest src n : ℕ) → ℕ → ℕ
umemcpy mem dest src n = if is_null dest || is_null src then mem else copy_up n 0 dest src mem

pub umemset : (mem : ℕ → ℕ) (ptr value n : ℕ) → ℕ → ℕ
umemset mem ptr value n = if is_null ptr then mem else fill_up n 0 ptr (value % 256) mem

pub umemmove : (mem : ℕ → ℕ) (dest src n : ℕ) → ℕ → ℕ
umemmove mem dest src n =
    if is_null dest || is_null src
    then mem
    else if ltb dest src
    then copy_up n 0 dest src mem
    else if ltb src dest
    then copy_down n dest src mem
    else mem

pub umemcmp : (mem : ℕ → ℕ) (ptr1 ptr2 n : ℕ) → ℤ
umemcmp mem ptr1 ptr2 n =
    if is_null ptr1 || is_null ptr2 then pos 0 else compare_from mem n 0 ptr1 ptr2

pub umemchr : (mem : ℕ → ℕ) (ptr value n : ℕ) → ℕ
umemchr mem ptr value n = if is_null ptr then 0 else find_byte mem n 0 ptr (value % 256)

-- The functions of strings.c, whose pointers move with each byte and are not checked.
pub memcpy : (mem : ℕ → ℕ) (dest src n : ℕ) → ℕ → ℕ
memcpy mem dest src zero = mem
memcpy mem dest src (suc n) = memcpy (store_byte mem dest (mem src)) (dest + 1) (src + 1) n

pub memmove : (mem : ℕ → ℕ) (dest src n : ℕ) → ℕ → ℕ
memmove mem dest src n = if ltb dest src then memcpy mem dest src n else copy_down n dest src mem

pub memset : (mem : ℕ → ℕ) (ptr value n : ℕ) → ℕ → ℕ
memset mem ptr value zero = mem
memset mem ptr value (suc n) = memset (store_byte mem ptr (value % 256)) (ptr + 1) value n

pub memcmp : (mem : ℕ → ℕ) (ptr1 ptr2 n : ℕ) → ℤ
memcmp mem ptr1 ptr2 zero = pos 0
memcmp mem ptr1 ptr2 (suc n) =
    let rest = memcmp mem (ptr1 + 1) (ptr2 + 1) n in
    if not (mem ptr1 == mem ptr2) then sub_int (mem ptr1) (mem ptr2) else rest

pub memchr : (mem : ℕ → ℕ) (ptr value n : ℕ) → ℕ
memchr mem ptr value zero = 0
memchr mem ptr value (suc n) =
    let rest = memchr mem (ptr + 1) value n in if mem ptr == value % 256 then ptr else rest
