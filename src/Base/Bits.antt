-- ===== src/Base/Bits.antt =====
-- Bits of a byte: `&` with `1 << bit`, `|=` and `&= ~`, with their laws by evaluation over all
-- bytes.
use Prim.Native.Nat.{ℕ, zero, suc, ◌-◌, ◌%◌, ◌^◌, ◌<◌, bit_and, bit_or, bit_and-bitwise}
use mathlib.Core.Path.{◌≡◌, refl}
use mathlib.Core.Bool.{Bool, true, false, not, ◌&&◌}
use native.Mathlib.Omega.{arith}
use mathlib.Core.Logic.{inl, inr}
use vsnx_os.Base.Tests.{Bool-cases, ◌==◌, if◌then◌else◌, ltb}

-- Does `law` hold of every number up to a bound?
unfoldable pub holds_under : (law : ℕ → Bool) (bound : ℕ) → Bool
holds_under law zero = true
holds_under law (suc b) = if law b then holds_under law b else false

pub from_table :
    (law : ℕ → Bool) (bound : ℕ) {n : ℕ} → holds_under law bound ≡ true → n < bound → law n ≡ true
unfolding holds_under
from_table law zero table less = absurd (omega arith)
from_table law (suc b) {n} table less = elim (Bool-cases (n == b)) [
  | inl top ↦ ground arith
  | inr lower ↦ from_table law b (ground arith) (ground arith)
]

-- `byte & (1 << bit)`, as a truth value
unfoldable pub test_bit : ℕ → ℕ → Bool
test_bit byte bit = not (bit_and byte (2 ^ bit) == 0)

-- `byte |= (1 << bit)` on a `uint8_t`
unfoldable pub set_bit : ℕ → ℕ → ℕ
set_bit byte bit = bit_or byte (2 ^ bit) % 256

-- `byte &= ~(1 << bit)` on a `uint8_t`
unfoldable pub clear_bit : ℕ → ℕ → ℕ
clear_bit byte bit = bit_and byte (255 - 2 ^ bit)

abbrev same : Bool → Bool → Bool
same true b = b
same false b = not b

same-eq : (a b : Bool) → same a b ≡ true → a ≡ b
same-eq true b h = ground arith
same-eq false b h = ground arith

abbrev set_law : ℕ → ℕ → ℕ → Bool
set_law b k j = same (test_bit (set_bit b k) j) (if k == j then true else test_bit b j)

abbrev clear_law : ℕ → ℕ → ℕ → Bool
clear_law b k j = same (test_bit (clear_bit b k) j) (if k == j then false else test_bit b j)

abbrev range_law : ℕ → ℕ → Bool
range_law b k = ltb (set_bit b k) 256 && ltb (clear_bit b k) 256

abbrev undo_law : ℕ → ℕ → Bool
undo_law b k = if test_bit b k then true else clear_bit (set_bit b k) k == b

for_all2 : (ℕ → ℕ → Bool) → Bool
for_all2 p = holds_under (λ b. holds_under (p b) 8) 256

for_all3 : (ℕ → ℕ → ℕ → Bool) → Bool
for_all3 p = holds_under (λ b. holds_under (λ k. holds_under (p b k) 8) 8) 256

for_all2_sound : (p : ℕ → ℕ → Bool) (b k : ℕ) → for_all2 p ≡ true → b < 256 → k < 8 → p b k ≡ true
unfolding for_all2
for_all2_sound p b k h hb hk =
    from_table (p b) 8 (from_table (λ b. holds_under (p b) 8) 256 h hb) hk

for_all3_sound :
    (p : ℕ → ℕ → ℕ → Bool) (b k j : ℕ)
    → for_all3 p ≡ true
    → b < 256
    → k < 8
    → j < 8
    → p b k j ≡ true
unfolding for_all3
for_all3_sound p b k j h hb hk hj =
    from_table (p b k) 8
      (from_table (λ k. holds_under (p b k) 8) 8
        (from_table (λ b. holds_under (λ k. holds_under (p b k) 8) 8) 256 h hb) hk)
      hj

set_table : for_all3 set_law ≡ true
unfolding for_all3 holds_under test_bit set_bit
set_table = refl

clear_table : for_all3 clear_law ≡ true
unfolding for_all3 holds_under test_bit clear_bit
clear_table = refl

range_table : for_all2 range_law ≡ true
unfolding for_all2 holds_under set_bit clear_bit
range_table = refl

undo_table : for_all2 undo_law ≡ true
unfolding for_all2 holds_under test_bit set_bit clear_bit
undo_table = refl

module _ (b k : ℕ) (hb : b < 256) (hk : k < 8) where
  pub test_bit-set_bit :
      (j : ℕ) → j < 8 → test_bit (set_bit b k) j ≡ (if k == j then true else test_bit b j)
  test_bit-set_bit j hj = same-eq _ _ (for_all3_sound set_law b k j set_table hb hk hj)

  pub test_bit-clear_bit :
      (j : ℕ) → j < 8 → test_bit (clear_bit b k) j ≡ (if k == j then false else test_bit b j)
  test_bit-clear_bit j hj = same-eq _ _ (for_all3_sound clear_law b k j clear_table hb hk hj)

  range_lem : range_law b k ≡ true
  range_lem = for_all2_sound range_law b k range_table hb hk

  pub set_bit-lt : set_bit b k < 256
  set_bit-lt = ground (arith, range_lem)

  pub clear_bit-lt : clear_bit b k < 256
  clear_bit-lt = ground (arith, range_lem)

  undo_lem : undo_law b k ≡ true
  undo_lem = for_all2_sound undo_law b k undo_table hb hk

  pub clear_bit-set_bit : test_bit b k ≡ false → clear_bit (set_bit b k) k ≡ b
  clear_bit-set_bit free = ground (arith, undo_lem)

no_bits : (mask : ℕ) → bit_and 0 mask ≡ 0
no_bits mask = bit_and-bitwise 0 mask

pub test_bit-zero : (k : ℕ) → test_bit 0 k ≡ false
unfolding test_bit
test_bit-zero k = rw (no_bits (2 ^ k))
