-- ===== src/Base/Int.antt =====
-- Signed integers over the native numbers, under the library's names.
use Prim.Native.Nat.{ℕ, suc, ◌+◌, ◌-◌, ◌*◌, ◌%◌, ◌^◌}
use mathlib.Core.List.{[], ◌∷◌}
use mathlib.Core.Bool.{Bool}
use icore_tax_gateway.Base.Tests.{ltb, if◌then◌else◌}
use icore_tax_gateway.Base.Lists.{Bytes}

-- `negsuc n` is -(n + 1).
pub data ℤ : Type 0 where
  pos : ℕ → ℤ
  negsuc : ℕ → ℤ

abbrev pub pos_part : ℤ → ℕ
pos_part (pos n) = n
pos_part (negsuc n) = 0

abbrev pub neg_part : ℤ → ℕ
neg_part (pos n) = 0
neg_part (negsuc n) = suc n

abbrev pub ltb_ℤ : ℤ → ℤ → Bool
ltb_ℤ a b = ltb (pos_part a + neg_part b) (pos_part b + neg_part a)

-- A long that is stored in an int: the low 32 bits, read as a signed number.
unfoldable pub to_int : ℤ → ℤ
to_int (pos n) = let w = n % 2 ^ 32 in if ltb w (2 ^ 31) then pos w else negsuc (2 ^ 32 - w - 1)
to_int (negsuc n) = let w = n % 2 ^ 32 in if ltb w (2 ^ 31) then negsuc w else pos (2 ^ 32 - w - 1)

-- Bytes that memcpy puts into an unsigned number on a little-endian machine.
unfoldable pub little_endian : Bytes → ℕ
little_endian [] = 0
little_endian (c ∷ s) = c + 256 * little_endian s
