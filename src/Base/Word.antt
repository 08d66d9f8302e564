-- ===== src/Base/Word.antt =====
-- Machine words: `unsigned long` arithmetic wraps at 2 ^ 64, shorter types at their width.
use kvm_dmesg.Base.Tests.{◌==◌, if◌then◌else◌}
use kvm_dmesg.Base.Run.{Run, ok, fault}
use Prim.Native.Nat.{ℕ, zero, ◌+◌, ◌-◌, ◌%◌, ◌^◌}
use mathlib.Core.Bool.{Bool, true, false}

abbrev pub u8 : ℕ → ℕ
u8 n = n % 2 ^ 8

abbrev pub u16 : ℕ → ℕ
u16 n = n % 2 ^ 16

abbrev pub u32 : ℕ → ℕ
u32 n = n % 2 ^ 32

abbrev pub u64 : ℕ → ℕ
u64 n = n % 2 ^ 64

abbrev pub add64 : ℕ → ℕ → ℕ
add64 a b = u64 (a + b)

-- `-` on ℕ stops at 0, so the modulus is added first.
abbrev pub sub64 : ℕ → ℕ → ℕ
sub64 a b = u64 (a + 2 ^ 64 - b)

-- `~x` of an `unsigned long`.
abbrev pub not64 : ℕ → ℕ
not64 x = 2 ^ 64 - 1 - x

-- `a % b`, which C leaves undefined at 0.
abbrev pub rem : ℕ → ℕ → Run ℕ
rem a b = if b == 0 then fault else ok (a % b)

-- An `int` that a function returns. `negsuc n` is -(n + 1).
pub data ℤ : Type 0 where
  pos : ℕ → ℤ
  negsuc : ℕ → ℤ

-- `if (r)` of an `int`.
abbrev pub nonzero : ℤ → Bool
nonzero (pos zero) = false
nonzero _ = true

abbrev pub minus_one : ℤ
minus_one = negsuc 0
