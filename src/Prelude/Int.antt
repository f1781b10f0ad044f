-- ===== src/Prelude/Int.antt =====
-- The integers over the native numbers, under the library's names.
use Prim.Native.Nat.{ℕ, ◌-◌, ◌^◌}
use porcelain.Prelude.Tests.{if◌then◌else◌, ltb}

-- `negsuc n` is `- (n + 1)`.
pub data ℤ : Type 0 where
  pos : ℕ → ℤ
  negsuc : ℕ → ℤ

-- Go's `int64(v)` of a `uint64`.
abbrev pub int64 : ℕ → ℤ
int64 v = if ltb v (2 ^ 63) then pos v else negsuc (2 ^ 64 - 1 - v)
