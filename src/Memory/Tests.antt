-- ===== src/Memory/Tests.antt =====
-- Runs of the byte functions of os/kernel/hal/mem/k_mem/pmm_api.c, and their theorems, on ranges that
-- overlap.
use vsnx_os.Base.{ℕ, ◌%◌, ◌≡◌, refl, arith}
use vsnx_os.Memory.{umemmove, kmemmove, memmove, copy_down}
use vsnx_os.Memory.Copy.{copied, move_lem}

-- Each byte is its address's low byte.
abbrev numbered : ℕ → ℕ
numbered a = a % 256

moved : kmemmove numbered 12 10 4 15 ≡ 13
unfolding kmemmove copy_down
moved = refl

move_lem_example :
    (kmemmove numbered 12 10 4 15 ≡ copied numbered 12 10 4 15)
    × (umemmove numbered 12 10 4 15 ≡ copied numbered 12 10 4 15)
    × (memmove numbered 12 10 4 15 ≡ copied numbered 12 10 4 15)
move_lem_example = move_lem numbered 12 10 4 15 (λ e. omega arith) (λ e. omega arith)
