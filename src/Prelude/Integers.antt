-- ===== src/Prelude/Integers.antt =====
-- Integers over the native numbers: `negsuc n` is -(n + 1).
use Prim.Native.Nat.{ℕ, zero, suc}
use mathlib.Core.Bool.{Bool, true, false}
use enji_guard_cli.Prelude.Tests.{leb}

pub data ℤ : Type 0 where
  pos : ℕ → ℤ
  negsuc : ℕ → ℤ

abbrev pub sucℤ : ℤ → ℤ
sucℤ (pos n) = pos (suc n)
sucℤ (negsuc zero) = pos zero
sucℤ (negsuc (suc n)) = negsuc n

-- `n <= i` for a number `n`
abbrev pub at_least : ℕ → ℤ → Bool
at_least n (pos m) = leb n m
at_least zero (negsuc _) = false
at_least (suc _) (negsuc _) = false

-- `i <= n` for a number `n`
abbrev pub at_most : ℕ → ℤ → Bool
at_most n (pos m) = leb m n
at_most n (negsuc _) = true
