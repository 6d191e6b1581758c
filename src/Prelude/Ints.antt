-- ===== src/Prelude/Ints.antt =====
-- The signed integers of a column, and the checked conversions (`try_from`).
use Prim.Native.Nat.{ℕ, ◌^◌}
use mathlib.Core.Option.{Option, none, some}
use nullnet.Prelude.Tests.{if◌then◌else◌, ltb}

-- `negsuc n` is -(n + 1).
pub data ℤ : Type 0 where
  pos : ℕ → ℤ
  negsuc : ℕ → ℤ

-- An unsigned number of so many bits.
abbrev pub to_unsigned : (bits : ℕ) → ℤ → Option ℕ
to_unsigned bits (pos n) = if ltb n (2 ^ bits) then some n else none
to_unsigned bits (negsuc n) = none

-- A signed number of so many bits and its sign, from an unsigned one.
abbrev pub to_signed : (bits : ℕ) → ℕ → Option ℤ
to_signed bits n = if ltb n (2 ^ bits) then some (pos n) else none
