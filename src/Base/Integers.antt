-- ===== src/Base/Integers.antt =====
-- The signed numbers of the code over the native numbers, under the library's names.
use Prim.Native.Nat.{ℕ, ◌-◌, ◌%◌, ◌^◌, suc}
use ndn_cxx_logging.Base.Tests.{ltb, if◌then◌else◌}
use mathlib.Core.Bool.{Bool, true, false}

-- `negsuc k` is -(k + 1).
pub data ℤ : Type 0 where
  pos negsuc : ℕ → ℤ

abbrev pub is_negative : ℤ → Bool
is_negative (pos n) = false
is_negative (negsuc k) = true

-- A number of `w` bits read as a signed one.
abbrev pub to_signed : ℕ → ℕ → ℤ
to_signed w n =
    let low = n % 2 ^ w in if ltb low (2 ^ (w - 1)) then pos low else negsuc (2 ^ w - suc low)

-- A signed number as one of 64 bits without a sign.
abbrev pub to_uint64 : ℤ → ℕ
to_uint64 (pos n) = n % 2 ^ 64
to_uint64 (negsuc k) = (2 ^ 64 - suc (k % 2 ^ 64)) % 2 ^ 64
