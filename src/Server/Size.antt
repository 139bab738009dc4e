-- ===== src/Server/Size.antt =====
-- The size that `compute_transfer_size` announces, against the bytes that the intervals stand for.
use native.Mathlib.Nat.{mul-le-mul_right, lt_of_mul-lt-mul_right}
use libdtp.Common.{
  ℕ, ◌+◌, ◌-◌, ◌*◌, ◌^◌, ◌≤◌, ◌<◌, ◌≡◌, refl, ap, ◌∙◌, List, [], ◌∷◌, ◌++◌, some, arith, ◌==◌,
  if◌then◌else◌, add32, sub32, mul32, u32_max, ◌⊎◌, inl, inr, Bool-cases, length,
}
use libdtp.Session.{Interval, chunk32}
use libdtp.Server.{TransferCtx, transfer_bytes, sum_transfer, compute_transfer_size}
use libdtp.Server.Ranges.{first_byte, stop_byte, IsWithin, AllWithin}

-- The bytes of all the intervals, and the bytes of a packet for each interval that has its own end.
abbrev pub total_bytes : ℕ → ℕ → List Interval → ℕ
total_bytes mtu size [] = 0
total_bytes mtu size (v ∷ vs) = stop_byte mtu size v - first_byte mtu v + total_bytes mtu size vs

abbrev pub omitted : ℕ → List Interval → ℕ
omitted mtu [] = 0
omitted mtu (v ∷ vs) = (if v.end == u32_max then 0 else mtu - 8) + omitted mtu vs

-- Intervals whose last packet, where they name it, is a full one.
abbrev pub AllFull : ℕ → ℕ → List Interval → Type 0
AllFull mtu size [] = Unit {0}
AllFull mtu size (v ∷ vs) =
    ((v.end ≡ u32_max) ⊎ ((v.end + 1) * (mtu - 8) ≤ size)) × AllFull mtu size vs

module _ (mtu size : ℕ) (low : 8 < mtu) (high : mtu < 2 ^ 16) (small : size < 2 ^ 32) where
  named_interval :
      (v : Interval)
      → first_byte mtu v < (v.end + 1) * (mtu - 8)
      → (v.end + 1) * (mtu - 8) ≤ size
      → sub32 (mul32 v.end (mtu - 8)) (mul32 v.start (mtu - 8)) + (mtu - 8)
        ≡ (v.end + 1) * (mtu - 8) - first_byte mtu v
  named_interval v s f =
      let o : v.start < v.end + 1 = lt_of_mul-lt-mul_right (mtu - 8) s in
      let k : v.start * (mtu - 8) ≤ v.end * (mtu - 8) =
        mul-le-mul_right (mtu - 8) (omega (arith, o)) in
      omega (arith, s, f, k)

  one_interval :
      (v : Interval)
      → IsWithin mtu size v
      → (v.end ≡ u32_max) ⊎ ((v.end + 1) * (mtu - 8) ≤ size)
      → transfer_bytes size (mtu - 8) v + (if v.end == u32_max then 0 else mtu - 8)
        ≡ stop_byte mtu size v - first_byte mtu v
  one_interval v w (inl e) =
      let s : first_byte mtu v < size = ground (arith, e, w.some_byte) in rw e (omega (arith, s))
  one_interval v w (inr f) = elim (Bool-cases (v.end == u32_max)) [
    | inl whole ↦
        let e : v.end ≡ u32_max = ground (arith, whole) in
        let s : first_byte mtu v < size = ground (arith, e, w.some_byte) in rw e (omega (arith, s))
    | inr named ↦
        let s : first_byte mtu v < (v.end + 1) * (mtu - 8) =
          ground (arith, named, w.some_byte, f) in
        rw named (omega (arith, f, named_interval v s f))
  ]

  sum_transfer-total :
      (vs rest : List Interval) (acc : ℕ)
      → AllWithin mtu size vs
      → AllFull mtu size vs
      → acc + total_bytes mtu size vs < 2 ^ 32
      → (n : ℕ) × (sum_transfer size (mtu - 8) (length vs) (vs ++ rest) acc ≡ some n)
        × (n + omitted mtu vs ≡ acc + total_bytes mtu size vs)
  unfolding sum_transfer
  sum_transfer-total [] rest acc w f h = (acc, refl, refl)
  sum_transfer-total (v ∷ vs) rest acc w f h =
      let one = one_interval v w.0 f.0 in
      let e : add32 acc (transfer_bytes size (mtu - 8) v) ≡ acc + transfer_bytes size (mtu - 8) v =
        omega (arith, one, h) in
      let (n, q, r) =
        sum_transfer-total vs rest (acc + transfer_bytes size (mtu - 8) v) w.1 f.1
          (omega (arith, one, h)) in
      (n, ap (sum_transfer size (mtu - 8) (length vs) (vs ++ rest)) e ∙ q, omega (arith, r, one))

-- For intervals that hold a byte of the payload each and that end with a full packet or with the
-- payload, and less than 2 ^ 32 bytes in all, the size that is computed and announced to the client
-- is the bytes of the intervals less one packet's bytes for each interval that names its end.
pub compute_transfer_size-omits :
    (ctx : TransferCtx) (vs rest : List Interval)
    → 8 < ctx.request.mtu
    → ctx.request.mtu < 2 ^ 16
    → ctx.payload_meta.size < 2 ^ 32
    → ctx.request.intervals ≡ vs ++ rest
    → ctx.request.nof_intervals ≡ length vs
    → AllWithin ctx.request.mtu ctx.payload_meta.size vs
    → AllFull ctx.request.mtu ctx.payload_meta.size vs
    → total_bytes ctx.request.mtu ctx.payload_meta.size vs < 2 ^ 32
    → (n : ℕ) × (compute_transfer_size ctx ≡ some n)
      × (n + omitted ctx.request.mtu vs ≡ total_bytes ctx.request.mtu ctx.payload_meta.size vs)
unfolding compute_transfer_size
compute_transfer_size-omits ctx vs rest lo hi small l k w f t =
    let c : chunk32 ctx.request.mtu ≡ ctx.request.mtu - 8 = omega arith in
    let (n, q, r) =
      sum_transfer-total ctx.request.mtu ctx.payload_meta.size lo hi small vs rest 0 w f
        (omega (arith, t)) in
    (n, rw (c, l, k) q, omega (arith, r))
