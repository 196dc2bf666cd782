-- ===== src/Base/Int.antt =====
-- Python's `int`, where the sign matters: `negsuc n` is -(n + 1).
use Prim.Native.Nat.{ℕ, zero, suc}
use mathlib.Core.Bool.{Bool, true, false}
use mstdnca_proxmox_tool.Base.Tests.{ltb}

pub data ℤ : Type 0 where
  pos : ℕ → ℤ
  negsuc : ℕ → ℤ

-- `value < low` and `value > high` for bounds that are not negative.
abbrev pub lt_nat : ℤ → ℕ → Bool
lt_nat (pos n) low = ltb n low
lt_nat (negsuc n) low = true

abbrev pub gt_nat : ℤ → ℕ → Bool
gt_nat (pos n) high = ltb high n
gt_nat (negsuc n) high = false

-- `-n`
abbrev pub negate : ℕ → ℤ
negate zero = pos zero
negate (suc n) = negsuc n
