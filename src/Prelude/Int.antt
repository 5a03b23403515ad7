-- ===== src/Prelude/Int.antt =====
-- Signed integers over the native numbers, and the conversions to the machine's words.
use Prim.Native.Nat.{ℕ, zero, suc, ◌+◌, ◌-◌, ◌%◌, ◌<◌}
use mathlib.Core.Path.{◌≡◌}
use mathlib.Core.Bool.{Bool}
use native.Mathlib.Omega.{arith}
use seed_core.Prelude.Tests.{ltb, ◌==◌, if◌then◌else◌}

-- `negsuc n` is -(n + 1).
pub data ℤ : Type 0 where
  pos : ℕ → ℤ
  negsuc : ℕ → ℤ

abbrev pub pos_part : ℤ → ℕ
pos_part (pos n) = n
pos_part (negsuc n) = 0

abbrev pub neg_part : ℤ → ℕ
neg_part (pos n) = 0
neg_part (negsuc n) = suc n

infix 50 ◌==ℤ◌
abbrev pub ◌==ℤ◌ : ℤ → ℤ → Bool
a ==ℤ b = pos_part a + neg_part b == pos_part b + neg_part a

abbrev pub ltb_ℤ : ℤ → ℤ → Bool
ltb_ℤ a b = ltb (pos_part a + neg_part b) (pos_part b + neg_part a)

-- The bit pattern of a conversion to a word of modulus `m`.
abbrev pub word : ℕ → ℤ → ℕ
word m (pos n) = n % m
word m (negsuc n) = m - 1 - n % m

-- The signed number of a pattern `p` below the modulus `2 * h`.
abbrev pub signed : ℕ → ℕ → ℤ
signed h p = if ltb p h then pos p else negsuc (h + h - 1 - p)

abbrev pub two31 : ℕ
two31 = 2_147_483_648

abbrev pub two32 : ℕ
two32 = 4_294_967_296

abbrev pub two64 : ℕ
two64 = 18_446_744_073_709_551_616

-- `(s32)v`, `(u32)v` and `(u64)v`.
unfoldable pub to_s32 : ℤ → ℤ
to_s32 v = signed two31 (word two32 v)

unfoldable pub to_u32 : ℤ → ℕ
to_u32 v = word two32 v

unfoldable pub to_u64 : ℤ → ℕ
to_u64 v = word two64 v

-- A conversion to `s32` changes nothing where the value fits.
pub to_s32-pos : (n : ℕ) → n < two31 → to_s32 (pos n) ≡ pos n
unfolding to_s32
to_s32-pos n h = ground arith

abbrev pub two63 : ℕ
two63 = 9_223_372_036_854_775_808

-- `(s8)v`, `(s16)v` and `(s64)v`.
unfoldable pub to_s8 : ℤ → ℤ
to_s8 v = signed 128 (word 256 v)

unfoldable pub to_s16 : ℤ → ℤ
to_s16 v = signed 32_768 (word 65_536 v)

unfoldable pub to_s64 : ℤ → ℤ
to_s64 v = signed two63 (word two64 v)

-- `v + 1`, before it is cut to a width.
abbrev pub inc : ℤ → ℤ
inc (pos n) = pos (n + 1)
inc (negsuc zero) = pos 0
inc (negsuc (suc n)) = negsuc n

-- A counter of 32 bits that has been incremented `n` times from zero.
pub to_s32-inc : (n : ℕ) → to_s32 (inc (to_s32 (pos n))) ≡ to_s32 (pos (n + 1))
unfolding to_s32
to_s32-inc n = ground arith

pub to_s64-pos : (n : ℕ) → n < two63 → to_s64 (pos n) ≡ pos n
unfolding to_s64
to_s64-pos n h = ground arith

-- `v - 1`, before it is cut to a width.
abbrev pub dec : ℤ → ℤ
dec (pos zero) = negsuc 0
dec (pos (suc n)) = pos n
dec (negsuc n) = negsuc (n + 1)

-- `-v`
abbrev pub neg : ℤ → ℤ
neg (pos zero) = pos 0
neg (pos (suc n)) = negsuc n
neg (negsuc n) = pos (n + 1)
