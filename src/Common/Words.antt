-- ===== src/Common/Words.antt =====
-- Fixed-width unsigned arithmetic: a word is a native number, and each operation wraps.
use Prim.Native.Nat.{ℕ, ◌+◌, ◌-◌, ◌*◌, ◌/◌, ◌%◌, ◌^◌}

-- Truncation to 8, 16 and 32 bits.
abbrev pub u8 : ℕ → ℕ
u8 n = n % 2 ^ 8

abbrev pub u16 : ℕ → ℕ
u16 n = n % 2 ^ 16

abbrev pub u32 : ℕ → ℕ
u32 n = n % 2 ^ 32

-- UINT32_MAX
abbrev pub u32_max : ℕ
u32_max = 0xffff_ffff

-- Sum, difference and product of two `uint32_t`.
abbrev pub add32 : ℕ → ℕ → ℕ
add32 a b = (a + b) % 2 ^ 32

abbrev pub sub32 : ℕ → ℕ → ℕ
sub32 a b = (a + 2 ^ 32 - b) % 2 ^ 32

abbrev pub mul32 : ℕ → ℕ → ℕ
mul32 a b = (a * b) % 2 ^ 32

-- `htobe32` and `be32toh` by the byte order of the host.
pub data Host : Type 0 where
  little_endian big_endian : Host

abbrev pub bswap32 : ℕ → ℕ
bswap32 x =
    x % 2 ^ 8 * 2 ^ 24
    + x / 2 ^ 8 % 2 ^ 8 * 2 ^ 16
    + x / 2 ^ 16 % 2 ^ 8 * 2 ^ 8
    + x / 2 ^ 24 % 2 ^ 8

abbrev pub htobe32 : Host → ℕ → ℕ
htobe32 little_endian x = bswap32 x
htobe32 big_endian x = x

-- The same for 16 and 64 bits.
abbrev pub bswap16 : ℕ → ℕ
bswap16 x = x % 2 ^ 8 * 2 ^ 8 + x / 2 ^ 8 % 2 ^ 8

abbrev pub htobe16 : Host → ℕ → ℕ
htobe16 little_endian x = bswap16 x
htobe16 big_endian x = x

abbrev pub htobe64 : Host → ℕ → ℕ
htobe64 little_endian x = bswap32 (x % 2 ^ 32) * 2 ^ 32 + bswap32 (x / 2 ^ 32)
htobe64 big_endian x = x
