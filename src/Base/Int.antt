-- ===== src/Base/Int.antt =====
-- Signed bytes: the integers that an `int8_t` stands for, and its casts.
use Prim.Native.Nat.{ℕ, ◌-◌, ◌%◌, ◌<◌}
use mathlib.Core.Path.{◌≡◌}
use native.Mathlib.Omega.{arith}
use wlan_opc.Base.Tests.{ltb, if◌then◌else◌}

-- `negsuc n` is -(n + 1).
pub data ℤ : Type 0 where
  pos : ℕ → ℤ
  negsuc : ℕ → ℤ

-- The values of an `int8_t`: -128 to 127.
abbrev pub IsI8 : ℤ → Type 0
IsI8 (pos n) = n < 128
IsI8 (negsuc n) = n < 128

-- `(uint8_t)x`
unfoldable pub to_u8 : ℤ → ℕ
to_u8 (pos n) = n % 256
to_u8 (negsuc n) = 255 - n % 256

-- `(uint16_t)(int16_t)x`
unfoldable pub to_u16 : ℤ → ℕ
to_u16 (pos n) = n % 65536
to_u16 (negsuc n) = 65535 - n % 65536

-- `(int8_t)x`, of the low byte.
unfoldable pub to_i8 : ℕ → ℤ
to_i8 x = if ltb (x % 256) 128 then pos (x % 256) else negsuc (255 - x % 256)

pub to_i8-to_u8 : (x : ℤ) → IsI8 x → to_i8 (to_u8 x) ≡ x
unfolding to_i8 to_u8
to_i8-to_u8 (pos n) h = ground arith
to_i8-to_u8 (negsuc n) h = ground arith

pub to_i8-to_u16 : (x : ℤ) → IsI8 x → to_i8 (to_u16 x) ≡ x
unfolding to_i8 to_u16
to_i8-to_u16 (pos n) h = ground arith
to_i8-to_u16 (negsuc n) h = ground arith

pub to_u16-lt : (x : ℤ) → to_u16 x < 65536
unfolding to_u16
to_u16-lt (pos n) = omega arith
to_u16-lt (negsuc n) = omega arith
