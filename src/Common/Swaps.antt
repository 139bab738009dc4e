-- ===== src/Common/Swaps.antt =====
-- Swapping the bytes of a word twice.
use Prim.Native.Nat.{ℕ, ◌+◌, ◌*◌, ◌/◌, ◌%◌, ◌^◌, ◌<◌}
use mathlib.Core.Path.{◌≡◌, refl, ◌∙◌, ap₂}
use native.Mathlib.Omega.{arith}
use libdtp.Common.Words.{Host, little_endian, big_endian, htobe16, htobe32, htobe64, bswap32}

pub htobe16-htobe16 : (h : Host) (x : ℕ) → x < 2 ^ 16 → htobe16 h (htobe16 h x) ≡ x
htobe16-htobe16 little_endian x p = omega arith
htobe16-htobe16 big_endian x p = refl

pub htobe32-htobe32 : (h : Host) (x : ℕ) → x < 2 ^ 32 → htobe32 h (htobe32 h x) ≡ x
htobe32-htobe32 little_endian x p = omega arith
htobe32-htobe32 big_endian x p = refl

-- A word of four bytes, and one of eight, by halves.
bswap32_lt : (x : ℕ) → x < 2 ^ 32 → bswap32 x < 2 ^ 32
bswap32_lt x p = omega arith

halves : (a b : ℕ) → b < 2 ^ 32 → ((a * 2 ^ 32 + b) % 2 ^ 32 ≡ b) × ((a * 2 ^ 32 + b) / 2 ^ 32 ≡ a)
halves a b p = (omega arith, omega arith)

pub htobe64-htobe64 : (h : Host) (x : ℕ) → x < 2 ^ 64 → htobe64 h (htobe64 h x) ≡ x
htobe64-htobe64 little_endian x p =
    let low : x % 2 ^ 32 < 2 ^ 32 = omega arith in
    let high : x / 2 ^ 32 < 2 ^ 32 = omega arith in
    let (l, u) = halves (bswap32 (x % 2 ^ 32)) (bswap32 (x / 2 ^ 32)) (bswap32_lt _ high) in
    let e : bswap32 (bswap32 (x / 2 ^ 32)) * 2 ^ 32 + bswap32 (bswap32 (x % 2 ^ 32))
        ≡ x / 2 ^ 32 * 2 ^ 32 + x % 2 ^ 32 =
      ap₂ (λ a b. a * 2 ^ 32 + b) (htobe32-htobe32 little_endian (x / 2 ^ 32) high)
        (htobe32-htobe32 little_endian (x % 2 ^ 32) low) in
    ap₂ (λ a b. bswap32 a * 2 ^ 32 + bswap32 b) l u ∙ (e ∙ omega arith)
htobe64-htobe64 big_endian x p = refl
