-- ===== src/Base/Int.antt =====
-- C's `int` results: integers over the native numbers.
use Prim.Native.Nat.{ℕ, ◌-◌}
use vsnx_os.Base.Tests.{leb, if◌then◌else◌}

pub data ℤ : Type 0 where
  pos negsuc : ℕ → ℤ

-- The difference of two bytes.
abbrev pub sub_int : ℕ → ℕ → ℤ
sub_int a b = if leb b a then ℤ.pos (a - b) else ℤ.negsuc (b - a - 1)
