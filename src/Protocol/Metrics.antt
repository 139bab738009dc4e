-- ===== src/Protocol/Metrics.antt =====
-- `compute_dtp_metrics` returns: its loop ends and nothing divides by zero.
use native.Mathlib.Nat.{div-le_self, le-div_iff_mul-le, div-lt_iff_lt-mul}
use libdtp.Common.{
  ℕ, zero, suc, ◌+◌, ◌*◌, ◌/◌, ◌%◌, ◌^◌, ◌≤◌, ◌<◌, ◌≡◌, refl, List, [], ◌∷◌, true, false, ◌||◌,
  some, arith, ltb, ◌==◌, mul32, Bool-cases, ltb→lt, inl, inr, ◌∙◌, ap, length, get_elem?-total,
  if-false,
}
use libdtp.Session.{Interval, MetaReq, chunk32}
use libdtp.Protocol.{
  Floats, DtpMetrics, full_round, achieved, reduce_round, packet_end, sum_packets, last_end,
  at_least_second, metrics_of, compute_dtp_metrics,
}

-- The floating point error of a throughput of 0 against a positive one is 100 %.
abbrev pub RejectsZero : Floats → Type 0
RejectsZero floats = (t : ℕ) → 0 < t → floats.error_below_5 t 0 ≡ false

-- The factor with which the loop ends is ten times one that leaves ten milliseconds and a packet to
-- a round.
record Reduced (round_time packets next : ℕ) : Type 0 where
  factor : ℕ
  next_is : next ≡ factor * 10
  time_left : factor * 10 ≤ round_time
  packet_left : factor ≤ packets
  positive : 0 < factor

module _ (floats : Floats) (rejects : RejectsZero floats) (throughput mtu round_time packets : ℕ)
    (pos : 0 < throughput) (small : round_time < 2 ^ 32) where
  achieved-zero : (next : ℕ) → 0 < next → packets < next → achieved mtu round_time packets next ≡ 0
  achieved-zero next p h =
      let z : packets / next < 1 = (div-lt_iff_lt-mul {k = next} p).1 (omega (arith, h)) in
      let e : packets / next ≡ 0 = omega arith in rw e (zero_time (round_time / next))
    where
      zero_time : (d : ℕ) → (0 * mtu) % 2 ^ 32 / d * 1000 % 2 ^ 32 ≡ 0
      zero_time d = grind arith

  keeps_packet :
      (next : ℕ)
      → 0 < next
      → floats.error_below_5 throughput (achieved mtu round_time packets next) ≡ true
      → next ≤ packets
  keeps_packet next p h = elim (Bool-cases (ltb packets next)) [
    | inl few ↦
        let e = achieved-zero next p (ltb→lt _ _ few) in
        cc (rejects throughput pos, ap (floats.error_below_5 throughput) e, h)
    | inr enough ↦ ground arith
  ]

  long_enough : (next : ℕ) → 0 < next → 10 ≤ round_time / next → next * 10 ≤ round_time
  long_enough next p h = let m = (le-div_iff_mul-le {k = next} p).0 h in omega (arith, m)

  round_again :
      (fuel factor next : ℕ)
      → mul32 factor 10 ≡ next
      → (round_time / next == 0) ≡ false
      → ltb (round_time / next) 10 ≡ false
      → floats.error_below_5 throughput (achieved mtu round_time packets next) ≡ true
      → reduce_round floats (suc fuel) throughput mtu round_time packets factor
        ≡ reduce_round floats fuel throughput mtu round_time packets next
  unfolding reduce_round
  round_again fuel factor next n z long close = rw (n, z, long, close) refl

  reduce_round-Reduced :
      (fuel factor : ℕ)
      → 0 < factor
      → factor * 10 ≤ round_time
      → factor ≤ packets
      → round_time < fuel + factor * 10
      → (next : ℕ) × (reduce_round floats fuel throughput mtu round_time packets factor ≡ some next)
        × Reduced round_time packets next
  unfolding reduce_round
  reduce_round-Reduced zero factor p t q f = absurd (omega arith)
  reduce_round-Reduced (suc fuel) factor p t q f =
      let next : ℕ = factor * 10 in
      let n : mul32 factor 10 ≡ next = omega arith in
      let nz : 1 ≤ round_time / next =
        (le-div_iff_mul-le {k = next} (omega arith)).1 (omega arith) in
      let z : (round_time / next == 0) ≡ false = ground arith in
      let here : Reduced round_time packets next = record {
        factor = factor;
        next_is = refl;
        time_left = t;
        packet_left = q;
        positive = p;
      } in
      elim (Bool-cases (ltb (round_time / next) 10)) [
        | inl short ↦ (next, rw (n, z, short) refl, here)
        | inr long ↦
            elim (Bool-cases
              (floats.error_below_5 throughput (achieved mtu round_time packets next))) [
                | inl close ↦
                    let (r, e, d) =
                      reduce_round-Reduced fuel next (omega arith)
                        (long_enough next (omega arith) (ground arith))
                        (keeps_packet next (omega arith) close) (omega arith) in
                    (r, round_again fuel factor next n z long close ∙ e, d)
                | inr off ↦ (next, rw (n, z, long, off) refl, here)
              ]
      ]

-- The full round takes at least a second and holds at least a packet.
full_round_bounds :
    (throughput mtu : ℕ)
    → 0 < throughput
    → 0 < mtu
    → mtu < 2 ^ 16
    → throughput < 2 ^ 32
    → let round = full_round (throughput / mtu) (mtu / throughput) in
      (1000 ≤ round.0) × (round.0 < 2 ^ 26) × (1 ≤ round.1)
full_round_bounds throughput mtu p q h k =
    let d = div-le_self mtu throughput in
    elim (Bool-cases (ltb (throughput / mtu) (mtu / throughput))) [
      | inl slow ↦
          let s : 1 ≤ mtu / throughput = ground arith in
          rw slow (omega (arith, d, s), omega arith, omega arith)
      | inr fast ↦ rw fast (omega arith, omega arith, ground (arith, a_packet))
    ]
  where
    a_packet : (throughput / mtu < 1) → 1 ≤ mtu / throughput
    a_packet r =
        let m = (div-lt_iff_lt-mul {x = throughput} {y = 1} q).0 r in
        (le-div_iff_mul-le {x = 1} {y = mtu} p).1 (omega (arith, m))

sum_packets-total :
    (size mtu n acc : ℕ) (l : List Interval)
    → n ≤ length l
    → (k : ℕ) × (sum_packets size mtu n l acc ≡ some k)
unfolding sum_packets
sum_packets-total size mtu zero acc l h = (acc, refl)
sum_packets-total size mtu (suc n) acc [] h = absurd (omega arith)
sum_packets-total size mtu (suc n) acc (v ∷ l) h = sum_packets-total size mtu n _ l (omega arith)

last_end-total :
    (n : ℕ) (l : List Interval) → 0 < n → n ≤ length l → (k : ℕ) × (last_end n l ≡ some k)
last_end-total zero l p h = absurd (omega arith)
last_end-total (suc n) l p h = let (v, e) = get_elem?-total l n (omega arith) in (v.end, rw e refl)

abbrev built : Floats → ℕ → ℕ → ℕ × ℕ → ℕ → ℕ → ℕ → DtpMetrics
built floats payload_size mtu round next count last = record {
  round_time_ms = round.0 / (next / 10);
  packets_per_round = round.1 / (next / 10);
  resulting_throughput =
      floats.round_throughput (round.1 / (next / 10)) mtu (round.0 / (next / 10));
  nof_packets = count;
  last_packet = packet_end payload_size mtu last;
  total_duration_ms =
      at_least_second (mul32 count (round.0 / (next / 10)) / (round.1 / (next / 10)));
}

metrics_of-built :
    (floats : Floats) (request : MetaReq) (payload_size mtu : ℕ) (round : ℕ × ℕ)
    (next count last : ℕ)
    → reduce_round floats round.0 request.throughput mtu round.0 round.1 1 ≡ some next
    → sum_packets payload_size mtu request.nof_intervals request.intervals 0 ≡ some count
    → last_end request.nof_intervals request.intervals ≡ some last
    → (round.1 / (next / 10) == 0) ≡ false
    → metrics_of floats request payload_size mtu round
      ≡ some (built floats payload_size mtu round next count last)
unfolding metrics_of
metrics_of-built floats request payload_size mtu round next count last e f g z =
    rw (e, f, g) (if-false z _ _)

Reduced-round :
    (round_time packets next : ℕ)
    → Reduced round_time packets next
    → (10 ≤ round_time / (next / 10)) × (1 ≤ packets / (next / 10))
Reduced-round round_time packets next d =
    let k : next / 10 ≡ d.factor = omega (arith, d.next_is) in
    rw k (
      (le-div_iff_mul-le d.positive).1 (omega (arith, d.time_left)),
      (le-div_iff_mul-le d.positive).1 (omega (arith, d.packet_left)),
    )

-- With an MTU above 8, a positive throughput, and one to as many intervals as the request holds, the
-- metrics are computed without a division by zero and the loop ends. A round takes ten milliseconds at
-- least, less than 2 ^ 26 milliseconds, and sends a packet at least, and the transfer takes a second at
-- least. It is assumed that the
-- floating point test rejects a throughput of 0.
pub compute_dtp_metrics-total :
    (floats : Floats) (request : MetaReq) (payload_size : ℕ)
    → RejectsZero floats
    → 8 < request.mtu
    → request.mtu < 2 ^ 16
    → 0 < request.throughput
    → request.throughput < 2 ^ 32
    → 0 < request.nof_intervals
    → request.nof_intervals ≤ length request.intervals
    → (m : DtpMetrics) × (compute_dtp_metrics floats request payload_size ≡ some m)
      × (10 ≤ m.round_time_ms)
      × (1 ≤ m.packets_per_round)
      × (1000 ≤ m.total_duration_ms)
      × (m.round_time_ms < 2 ^ 26)
unfolding compute_dtp_metrics
compute_dtp_metrics-total floats request payload_size rejects lo hi tp th n0 n1 =
    let throughput = request.throughput in
    let mtu = chunk32 request.mtu in
    let pos : 0 < mtu = omega arith in
    let fine : ((mtu == 0) || (throughput == 0)) ≡ false = ground arith in
    let round = full_round (throughput / mtu) (mtu / throughput) in
    let b = full_round_bounds throughput mtu tp pos (omega arith) th in
    let (next, e, d) =
      reduce_round-Reduced floats rejects throughput mtu round.0 round.1 tp (omega (arith, b.1))
        round.0 1 (omega arith) (omega (arith, b.0)) b.2 (omega arith) in
    let (count, f) =
      sum_packets-total payload_size mtu request.nof_intervals 0 request.intervals n1 in
    let (last, g) = last_end-total request.nof_intervals request.intervals n0 n1 in
    let (ten, one) = Reduced-round round.0 round.1 next d in
    (
      built floats payload_size mtu round next count last,
      if-false fine _ _
          ∙ metrics_of-built floats request payload_size mtu round next count last e f g
              (ground (arith, one)),
      ten,
      one,
      ground arith,
      omega (arith, div-le_self (next / 10) round.0, b.1),
    )
