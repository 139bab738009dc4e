-- ===== src/Protocol/Packets.antt =====
-- The number of packets: `compute_nof_packets`, and the count that `compute_dtp_metrics` makes.
use native.Mathlib.Nat.{div-add-mod', mod-lt, div-le_self}
use libdtp.Common.{
  ℕ, ◌+◌, ◌*◌, ◌/◌, ◌%◌, ◌^◌, ◌≤◌, ◌<◌, ◌≡◌, ◌≢◌, refl, List, [], ◌∷◌, some, arith, ◌==◌, ◌||◌,
  add32, u32_max, Bool-cases, if-false, sym, inl, inr, ◌∙◌, ap, some_inj, get_elem?,
}
use libdtp.Session.{Interval, MetaReq, chunk32}
use libdtp.Protocol.{
  compute_nof_packets, sum_packets, packet_end, last_end, Floats, DtpMetrics, metrics_of,
  full_round, compute_dtp_metrics,
}

-- For a chunk of at least a byte, and a total in 32 bits, the result is the least number of chunks
-- that hold the total.
pub compute_nof_packets-ceiling :
    (total chunk : ℕ)
    → 0 < chunk
    → total < 2 ^ 32
    → (n : ℕ) × (compute_nof_packets total chunk ≡ some n)
      × (total ≤ n * chunk)
      × (n * chunk < total + chunk)
unfolding compute_nof_packets
compute_nof_packets-ceiling total chunk p h =
    let d = div-add-mod' total chunk in
    let m = mod-lt total p in
    let s = div-le_self total chunk in
    elim (Bool-cases (total % chunk == 0)) [
      | inl exact ↦
          let z : total % chunk ≡ 0 = ground arith in
          (total / chunk, ground (arith, z), omega (arith, d, z), omega (arith, d, p))
      | inr over ↦
          let z : 0 < total % chunk = ground arith in
          let f : total / chunk + 1 ≤ total = below (total / chunk) d z in
          let e : add32 (total / chunk) 1 ≡ total / chunk + 1 = omega (arith, f) in
          (total / chunk + 1, ground (arith, e, z), omega (arith, d, m), omega (arith, d, z))
    ]
  where
    below : (q : ℕ) → q * chunk + total % chunk ≡ total → 0 < total % chunk → q + 1 ≤ total
    below q d z = grind arith

-- What a result of `compute_dtp_metrics` says of its two packet numbers.
pub record Counts (mtu : ℕ) (request : MetaReq) (payload_size : ℕ) (m : DtpMetrics) : Type 0 where
  pub count :
      sum_packets payload_size mtu request.nof_intervals request.intervals 0 ≡ some m.nof_packets
  pub last :
      (e : ℕ) × (last_end request.nof_intervals request.intervals ≡ some e)
      × (m.last_packet ≡ packet_end payload_size mtu e)

metrics_of-Counts :
    (floats : Floats) (request : MetaReq) (payload_size mtu : ℕ) (round : ℕ × ℕ) (m : DtpMetrics)
    → metrics_of floats request payload_size mtu round ≡ some m
    → Counts mtu request payload_size m
unfolding metrics_of
metrics_of-Counts floats request payload_size mtu round m h = record {
  count = ground arith;
  last = ground arith;
}

pub metrics-Counts :
    (floats : Floats) (request : MetaReq) (payload_size : ℕ) (m : DtpMetrics)
    → compute_dtp_metrics floats request payload_size ≡ some m
    → Counts (chunk32 request.mtu) request payload_size m × (0 < chunk32 request.mtu)
unfolding compute_dtp_metrics
metrics-Counts floats request payload_size m h =
    let mtu = chunk32 request.mtu in
    elim (Bool-cases ((mtu == 0) || (request.throughput == 0))) [
      | inl zero_divisor ↦ absurd (ground (arith, zero_divisor))
      | inr fine ↦ (
        metrics_of-Counts floats request payload_size mtu
            (full_round (request.throughput / mtu) (mtu / request.throughput)) m
            (sym (if-false fine _ _) ∙ h),
        ground (arith, fine),
      )
    ]

abbrev whole : Interval
whole = record { start = 0; end = u32_max }

whole_count :
    (size mtu : ℕ) (l : List Interval)
    → size < u32_max
    → get_elem? l 0 ≡ some whole
    → (sum_packets size mtu 1 l 0 ≡ some (size / mtu + 1)) × (last_end 1 l ≡ some u32_max)
unfolding sum_packets
whole_count size mtu [] h e = cc
whole_count size mtu (v ∷ l) h e =
    let d = div-le_self size mtu in
    let u : v ≡ whole = some_inj e in rw u (ap some (omega (arith, d)), refl)

-- For a request of the whole payload in one interval, of a payload below 2 ^ 32 - 1 bytes, the count of
-- the metrics is the number of packets that the payload needs, unless the payload is a multiple of the
-- bytes per packet: then it is one more. The last packet number is one less than the count.
pub compute_dtp_metrics_whole :
    (floats : Floats) (request : MetaReq) (payload_size n : ℕ) (m : DtpMetrics)
    → compute_dtp_metrics floats request payload_size ≡ some m
    → compute_nof_packets payload_size (chunk32 request.mtu) ≡ some n
    → payload_size < u32_max
    → request.nof_intervals ≡ 1
    → get_elem? request.intervals 0 ≡ some (record { start = 0; end = u32_max })
    → (m.nof_packets ≡ m.last_packet + 1)
      × (payload_size % chunk32 request.mtu ≡ 0 → m.nof_packets ≡ n + 1)
      × (payload_size % chunk32 request.mtu ≢ 0 → m.nof_packets ≡ n)
unfolding compute_nof_packets sum_packets
compute_dtp_metrics_whole floats request payload_size n m h e small one all =
    let mtu = chunk32 request.mtu in
    let (c, pos) = metrics-Counts floats request payload_size m h in
    let (count, last) = whole_count payload_size mtu request.intervals small all in
    let k : m.nof_packets ≡ payload_size / mtu + 1 =
      some_inj (
        sym c.count ∙ (ap (λ k. sum_packets payload_size mtu k request.intervals 0) one ∙ count)) in
    let e' : (c.last).0 ≡ u32_max =
      some_inj (sym (c.last).1 ∙ (ap (λ k. last_end k request.intervals) one ∙ last)) in
    let p : m.last_packet ≡ payload_size / mtu = (c.last).2 ∙ rw e' refl in
    let d = div-le_self payload_size mtu in
    (omega (arith, k, p), λ z. ground (arith, k, e, z, pos), λ z. ground (arith, k, e, z, pos, d))
