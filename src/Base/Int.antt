-- ===== src/Base/Int.antt =====
-- Go's signed integers, where a sign is tested.
use blazelog.Base.Tests.{◌==◌, if◌then◌else◌}
use Prim.Native.Nat.{ℕ}

-- `negsuc n` is -(n + 1).
pub data ℤ : Type 0 where
  pos : ℕ → ℤ
  negsuc : ℕ → ℤ

-- `if x <= 0 { x = default }`
abbrev pub or_default : ℤ → ℕ → ℕ
or_default (pos n) default = if n == 0 then default else n
or_default (negsuc _) default = default
