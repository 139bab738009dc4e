-- ===== src/Hooks/Bytes.antt =====
-- `fwrite` and `fread` of one unsigned number in the byte order of the host. A file's content is a list
-- of bytes.
use libdtp.Common.{
  ℕ, ◌+◌, ◌*◌, ◌/◌, ◌%◌, ◌^◌, ◌<◌, ◌≡◌, List, [], ◌∷◌, ◌++◌, Host, little_endian, big_endian, arith,
  ap,
}

abbrev byte : ℕ → ℕ → ℕ
byte x p = x / p % 2 ^ 8

-- The byte that stands first, or last, of a number of two bytes, and so on.
abbrev pick {ℓ} : {A : Type ℓ} → Host → A → A → A
pick little_endian a b = a
pick big_endian a b = b

unfoldable pub bytes8 : ℕ → List ℕ
bytes8 x = x % 2 ^ 8 ∷ []

unfoldable pub bytes16 : Host → ℕ → List ℕ
bytes16 host x = pick host (byte x 1) (byte x (2 ^ 8)) ∷ pick host (byte x (2 ^ 8)) (byte x 1) ∷ []

unfoldable pub bytes32 : Host → ℕ → List ℕ
bytes32 host x =
    pick host (byte x 1) (byte x (2 ^ 24))
    ∷ pick host (byte x (2 ^ 8)) (byte x (2 ^ 16))
    ∷ pick host (byte x (2 ^ 16)) (byte x (2 ^ 8))
    ∷ pick host (byte x (2 ^ 24)) (byte x 1)
    ∷ []

abbrev word16 : Host → ℕ → ℕ → ℕ
word16 little_endian a b = a + b * 2 ^ 8
word16 big_endian a b = b + a * 2 ^ 8

abbrev word32 : Host → ℕ → ℕ → ℕ → ℕ → ℕ
word32 little_endian a b c d = a + b * 2 ^ 8 + c * 2 ^ 16 + d * 2 ^ 24
word32 big_endian a b c d = d + c * 2 ^ 8 + b * 2 ^ 16 + a * 2 ^ 24

-- The number read, and what is left of the file. `short` is what a read past the end of the file leaves
-- of the number that was there, which the C standard does not say.
module _ (short : ℕ → List ℕ → ℕ) where
  unfoldable pub fread8 : ℕ → List ℕ → ℕ × List ℕ
  fread8 old (a ∷ rest) = (a, rest)
  fread8 old [] = (short old [], [])

  unfoldable pub fread16 : Host → ℕ → List ℕ → ℕ × List ℕ
  fread16 host old (a ∷ b ∷ rest) = (word16 host a b, rest)
  fread16 host old (a ∷ []) = (short old (a ∷ []), [])
  fread16 host old [] = (short old [], [])

  unfoldable pub fread32 : Host → ℕ → List ℕ → ℕ × List ℕ
  fread32 host old (a ∷ b ∷ c ∷ d ∷ rest) = (word32 host a b c d, rest)
  fread32 host old (a ∷ b ∷ c ∷ []) = (short old (a ∷ b ∷ c ∷ []), [])
  fread32 host old (a ∷ b ∷ []) = (short old (a ∷ b ∷ []), [])
  fread32 host old (a ∷ []) = (short old (a ∷ []), [])
  fread32 host old [] = (short old [], [])

  -- Whatever follows it, a number is read as it was written.
  pub fread8-bytes8 :
      (old x : ℕ) (rest : List ℕ) → x < 2 ^ 8 → fread8 old (bytes8 x ++ rest) ≡ (x, rest)
  unfolding fread8 bytes8
  fread8-bytes8 old x rest h = ap (λ v. (v, rest)) (omega arith)

  pub fread16-bytes16 :
      (host : Host) (old x : ℕ) (rest : List ℕ)
      → x < 2 ^ 16
      → fread16 host old (bytes16 host x ++ rest) ≡ (x, rest)
  unfolding fread16 bytes16
  fread16-bytes16 little_endian old x rest h = ap (λ v. (v, rest)) (omega arith)
  fread16-bytes16 big_endian old x rest h = ap (λ v. (v, rest)) (omega arith)

  pub fread32-bytes32 :
      (host : Host) (old x : ℕ) (rest : List ℕ)
      → x < 2 ^ 32
      → fread32 host old (bytes32 host x ++ rest) ≡ (x, rest)
  unfolding fread32 bytes32
  fread32-bytes32 little_endian old x rest h = ap (λ v. (v, rest)) (omega arith)
  fread32-bytes32 big_endian old x rest h = ap (λ v. (v, rest)) (omega arith)
