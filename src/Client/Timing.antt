-- ===== src/Client/Timing.antt =====
-- src/dtp_client.c: the expected end of a transfer, as it is adjusted behind each packet.
use native.Mathlib.Nat.{
  div-mul-le_self, le-div_iff_mul-le, div-le_of_le-mul, div-le_self, mul-le-mul_right,
  mul-div_cancel, div-lt_iff_lt-mul,
}
use libdtp.Common.{ℕ, suc, ◌+◌, ◌*◌, ◌/◌, ◌%◌, ◌^◌, ◌≤◌, ◌<◌, ◌≡◌, ap, ◌∙◌, arith, sub32, u32}
use libdtp.Protocol.{DtpMetrics}
use libdtp.Client.{adjust_eot}

-- The adjusted end behind the `n`th packet at `d` milliseconds from the start, counted from there.
abbrev pub projected : ℕ → ℕ → ℕ → ℕ → ℕ
projected chunk total n d = chunk * total / (n * chunk / d)

-- Where a packet has arrived at a throughput of a byte per millisecond or more, the end is the projected one.
adjust_eot-projected :
    (metric : DtpMetrics) (chunk start n d eot : ℕ)
    → 0 < d
    → d ≤ n * chunk
    → n ≤ metric.nof_packets
    → start + chunk * metric.nof_packets < 2 ^ 32
    → start + d < 2 ^ 32
    → eot < 2 ^ 32
    → adjust_eot metric chunk start n (start + d) eot
      ≡ start + projected chunk metric.nof_packets n d
unfolding adjust_eot
adjust_eot-projected metric chunk start n d eot p slow le fits late e =
    let diff : sub32 (start + d) start ≡ d = omega (arith, late) in
    let m : n * chunk ≤ metric.nof_packets * chunk = mul-le-mul_right chunk le in
    let b : u32 (n * chunk) ≡ n * chunk = omega (arith, m, fits) in
    let c : chunk * metric.nof_packets % 2 ^ 64 ≡ chunk * metric.nof_packets =
      omega (arith, fits) in
    let t : ℕ = n * chunk / d in
    let pos : 1 ≤ t = (le-div_iff_mul-le p).1 (omega (arith, slow)) in
    let small = div-le_self (chunk * metric.nof_packets) t in
    let f : u32 (chunk * metric.nof_packets / t) ≡ chunk * metric.nof_packets / t =
      omega (arith, small, fits) in
    rw (diff, b, c, f) (ground (arith, small, fits, pos, p))

-- A packet is in the pace of the receiver if it and those before it took a millisecond or more each, and
-- one or less per byte.
pub record IsPaced (chunk n d : ℕ) : Type 0 where
  pub not_faster : n ≤ d
  pub not_slower : d ≤ n * chunk

projected-later :
    (chunk total n d : ℕ) → 0 < n → n < total → IsPaced chunk n d → d < projected chunk total n d
projected-later chunk total n d pos more paced =
    let t : ℕ = n * chunk / d in
    let some_ms : 0 < d = omega (arith, pos, paced.not_faster) in
    let t_pos : 0 < t = (le-div_iff_mul-le some_ms).1 (omega (arith, paced.not_slower)) in
    let a : t * d ≤ n * chunk = div-mul-le_self (n * chunk) d in
    let b : t ≤ chunk = div-le_of_le-mul d (mul-le-mul_right chunk paced.not_faster) in
    let c : suc n * chunk ≤ total * chunk = mul-le-mul_right chunk more in
    (le-div_iff_mul-le t_pos).1 (room t a b c)
  where
    room :
        (t : ℕ)
        → t * d ≤ n * chunk
        → t ≤ chunk
        → suc n * chunk ≤ total * chunk
        → suc d * t ≤ chunk * total
    room t a b c = omega (arith, a, b, c)

-- Behind a packet in pace that is not the last of the count, the receiver still waits.
pub adjust_eot-later :
    (metric : DtpMetrics) (chunk start n d eot : ℕ)
    → 0 < n
    → n < metric.nof_packets
    → IsPaced chunk n d
    → start + chunk * metric.nof_packets < 2 ^ 32
    → eot < 2 ^ 32
    → (start + d < adjust_eot metric chunk start n (start + d) eot)
      × (adjust_eot metric chunk start n (start + d) eot < 2 ^ 32)
adjust_eot-later metric chunk start n d eot pos more paced fits e =
    let some_ms : 0 < d = omega (arith, pos, paced.not_faster) in
    let total : ℕ = metric.nof_packets in
    let later = projected-later chunk total n d pos more paced in
    let small : projected chunk total n d ≤ chunk * total = div-le_self (chunk * total) _ in
    rw
      (adjust_eot-projected metric chunk start n d eot some_ms paced.not_slower
        (omega (arith, more)) fits (omega (arith, later, small, fits)) e)
      (omega (arith, later), omega (arith, small, fits))

-- The receiver gives up early: behind the packet with which `n` packets have arrived at exactly `k` of them per
-- millisecond, it waits no longer if fewer than `k` are missing.
projected_cut :
    (chunk k d total : ℕ)
    → 0 < chunk
    → 0 < d
    → 0 < k
    → total < k * d + k
    → projected chunk total (k * d) d ≤ d
projected_cut chunk k d total c p q few =
    let t : k * d * chunk / d ≡ k * chunk =
      ap (λ x. x / d) (omega arith) ∙ mul-div_cancel (k * chunk) p in
    let pos : 0 < k * chunk = grind arith in
    let b : chunk * total < (d + 1) * (k * chunk) = less (mul-le-mul_right chunk few) in
    omega (arith, ap (λ x. chunk * total / x) t, (div-lt_iff_lt-mul pos).1 b)
  where
    less : suc total * chunk ≤ (k * d + k) * chunk → chunk * total < (d + 1) * (k * chunk)
    less h = omega (arith, h, c)

-- Where the projected end has come with the packet, the receiver waits no longer.
pub adjust_eot-cut :
    (metric : DtpMetrics) (chunk start k d eot : ℕ)
    → 0 < chunk
    → 0 < d
    → 0 < k
    → k * d < metric.nof_packets
    → metric.nof_packets < k * d + k
    → start + chunk * metric.nof_packets < 2 ^ 32
    → eot < 2 ^ 32
    → adjust_eot metric chunk start (k * d) (start + d) eot ≤ start + d
adjust_eot-cut metric chunk start k d eot c p q more few fits e =
    let total : ℕ = metric.nof_packets in
    let over = projected_cut chunk k d total c p q few in
    let each : d ≤ k * d = grind arith in
    let bytes : d ≤ k * d * chunk = grind arith in
    let most : total ≤ chunk * total = grind arith in
    rw
      (adjust_eot-projected metric chunk start (k * d) d eot p bytes (omega (arith, more)) fits
        (omega (arith, each, more, most, fits)) e)
      (omega (arith, over))
