-- ===== src/Base/Int.antt =====
-- 64-bit signed numbers, over the native naturals. `negsuc n` is -(n + 1).
use Prim.Native.Nat.{ℕ, ◌-◌, ◌^◌}
use mathlib.Core.Bool.{Bool, false}
use kaguya.Base.Tests.{ltb, if◌then◌else◌}

pub data ℤ : Type 0 where
  pos : ℕ → ℤ
  negsuc : ℕ → ℤ

-- `n as i64` for an `n : u64`: the same 64 bits
abbrev pub as_i64 : ℕ → ℤ
as_i64 n = if ltb n (2 ^ 63) then pos n else negsuc (2 ^ 64 - 1 - n)

-- is the instant `n`, which is not negative, before `z`?
abbrev pub is_before : ℕ → ℤ → Bool
is_before n (pos m) = ltb n m
is_before n (negsuc m) = false
