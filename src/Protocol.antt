-- ===== src/Protocol.antt =====
-- src/dtp_protocol.c: the metrics of a transfer.
-- `none` is a division by zero or a read past the eight intervals.
pub mod Metrics
pub mod Packets
use libdtp.Common.{
  ℕ, zero, suc, ◌+◌, ◌-◌, ◌*◌, ◌/◌, ◌%◌, ◌^◌, List, [], ◌∷◌, Bool, true, false, Option, none, some,
  ◌==◌, ◌||◌, ltb, leb, if◌then◌else◌, get_elem?, add32, sub32, mul32, u32, u32_max, ◌>>=◌,
}
use libdtp.Session.{Interval, MetaReq, chunk32}

-- The floating point expressions of `compute_dtp_metrics`: whether the relative error of an achieved
-- throughput is below 5 %, and the throughput of a round.
pub record Floats : Type 0 where
  pub error_below_5 : ℕ → ℕ → Bool
  pub round_throughput : ℕ → ℕ → ℕ → ℕ

pub record DtpMetrics : Type 0 where
  pub round_time_ms : ℕ
  pub packets_per_round : ℕ
  pub resulting_throughput : ℕ
  pub nof_packets : ℕ
  pub last_packet : ℕ
  pub total_duration_ms : ℕ

unfoldable pub compute_nof_packets : ℕ → ℕ → Option ℕ
compute_nof_packets total effective_payload_size =
    if effective_payload_size == 0
    then none
    else if total % effective_payload_size == 0
    then some (total / effective_payload_size)
    else some (add32 (total / effective_payload_size) 1)

-- The round time and the packets per round before they are reduced.
abbrev pub full_round : ℕ → ℕ → ℕ × ℕ
full_round packets_sec secs_packet =
    if ltb packets_sec secs_packet then (mul32 secs_packet 1000, 1) else (1000, packets_sec)

abbrev pub achieved : ℕ → ℕ → ℕ → ℕ → ℕ
achieved mtu round_time packets factor =
    u32 (mul32 (packets / factor) mtu / (round_time / factor) * 1000)

module _ (floats : Floats) where
  -- The `do .. while (error < 5.0)` loop: the factor with which it ends.
  unfoldable pub reduce_round : ℕ → ℕ → ℕ → ℕ → ℕ → ℕ → Option ℕ
  reduce_round zero throughput mtu round_time packets factor = none
  reduce_round (suc fuel) throughput mtu round_time packets factor =
      let next = mul32 factor 10 in
      let again = reduce_round fuel throughput mtu round_time packets next in
      if round_time / next == 0
      then none
      else if ltb (round_time / next) 10
      then some next
      else if floats.error_below_5 throughput (achieved mtu round_time packets next)
      then again
      else some next

-- The end of an interval, where `UINT32_MAX` means the rest of the payload.
abbrev pub packet_end : ℕ → ℕ → ℕ → ℕ
packet_end payload_size mtu end = if end == u32_max then payload_size / mtu else end

-- The loop over the first `n` intervals.
unfoldable pub sum_packets : ℕ → ℕ → ℕ → List Interval → ℕ → Option ℕ
sum_packets payload_size mtu zero l acc = some acc
sum_packets payload_size mtu (suc n) [] acc = none
sum_packets payload_size mtu (suc n) (i ∷ rest) acc =
    sum_packets payload_size mtu n rest
      (add32 acc (add32 (sub32 (packet_end payload_size mtu i.end) i.start) 1))

-- `intervals[nof_intervals - 1].end`
abbrev pub last_end : ℕ → List Interval → Option ℕ
last_end zero l = none
last_end (suc n) l = get_elem? l n >>= λ i. some i.end

abbrev pub at_least_second : ℕ → ℕ
at_least_second d = if ltb d 1000 then 1000 else d

-- What is computed once the throughput and the bytes per packet are known not to be 0.
unfoldable pub metrics_of : Floats → MetaReq → ℕ → ℕ → ℕ × ℕ → Option DtpMetrics
unfolding reduce_round sum_packets
metrics_of floats request payload_size mtu round = do
  factor ← reduce_round floats round.0 request.throughput mtu round.0 round.1 1
  let round_time = round.0 / (factor / 10)
  let packets = round.1 / (factor / 10)
  nof_packets ← sum_packets payload_size mtu request.nof_intervals request.intervals 0
  last ← last_end request.nof_intervals request.intervals
  if packets == 0
      then none
      else some (record {
        round_time_ms = round_time;
        packets_per_round = packets;
        resulting_throughput = floats.round_throughput packets mtu round_time;
        nof_packets = nof_packets;
        last_packet = packet_end payload_size mtu last;
        total_duration_ms = at_least_second (mul32 nof_packets round_time / packets);
      })

unfoldable pub compute_dtp_metrics : Floats → MetaReq → ℕ → Option DtpMetrics
unfolding metrics_of
compute_dtp_metrics floats request payload_size =
    let mtu = chunk32 request.mtu in
    if (mtu == 0) || (request.throughput == 0)
    then none
    else metrics_of floats request payload_size mtu
        (full_round (request.throughput / mtu) (mtu / request.throughput))
