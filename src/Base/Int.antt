-- ===== src/Base/Int.antt =====
-- Signed integers over the native numbers, and the reading of a word as a signed integer.
use Prim.Native.Nat.{ℕ, suc, ◌+◌, ◌-◌}
use mathlib.Core.Bool.{Bool, false}
use xrootd_monitoring_shovel.Base.Tests.{ltb, leb, if◌then◌else◌}

-- `negsuc n` is -(n + 1).
pub data ℤ : Type 0 where
  pos : ℕ → ℤ
  negsuc : ℕ → ℤ

abbrev pub pos_part : ℤ → ℕ
pos_part (pos n) = n
pos_part (negsuc n) = 0

abbrev pub neg_part : ℤ → ℕ
neg_part (pos n) = 0
neg_part (negsuc n) = suc n

-- a - b, as an integer
abbrev pub sub_ℕ : ℕ → ℕ → ℤ
sub_ℕ a b = if leb b a then pos (a - b) else negsuc (b - a - 1)

infixl 65 ◌+ℤ◌ ◌-ℤ◌
unfoldable pub ◌+ℤ◌ : ℤ → ℤ → ℤ
a +ℤ b = sub_ℕ (pos_part a + pos_part b) (neg_part a + neg_part b)

unfoldable pub ◌-ℤ◌ : ℤ → ℤ → ℤ
a -ℤ b = sub_ℕ (pos_part a + neg_part b) (neg_part a + pos_part b)

-- 0 < a
abbrev pub is_pos : ℤ → Bool
is_pos (pos n) = ltb 0 n
is_pos (negsuc n) = false

-- Two's complement: int16(x), int32(x), int64(x) of a word x of as many bits.
abbrev pub to_int16 : ℕ → ℤ
to_int16 n = if ltb n 0x8000 then pos n else negsuc (0xffff - n)

abbrev pub to_int32 : ℕ → ℤ
to_int32 n = if ltb n 0x80000000 then pos n else negsuc (0xffffffff - n)

abbrev pub to_int64 : ℕ → ℤ
to_int64 n = if ltb n 0x8000000000000000 then pos n else negsuc (0xffffffffffffffff - n)
