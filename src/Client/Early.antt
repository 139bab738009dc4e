-- ===== src/Client/Early.antt =====
-- src/dtp_client.c: packets that come too fast for the expected end of their transfer.
use libdtp.Common.{
  ℕ, suc, ◌+◌, ◌*◌, ◌^◌, ◌≤◌, ◌<◌, ◌≡◌, refl, Bool, true, false, some, arith, ltb, leb, ◌&&◌, add32,
  sub32, if-false,
}
use libdtp.Session.{Session, Packet, chunk_size}
use libdtp.Protocol.{DtpMetrics}
use libdtp.Pool.{Outside}
use libdtp.Client.{Network, Receiver, accept_packet, receive_loop, waits, adjust_eot}
use libdtp.Client.Timing.{adjust_eot-cut}

-- A new packet that is not the last arrives `d` milliseconds after the start, `d` above 0, and with it
-- `k * d` packets have come, exactly `k` of them per millisecond. If packets are missing, but fewer
-- than `k`, the receiver loop does not wait for them: it ends at once, with the result it had before.
-- The start and the bytes of the packets together are below 2 ^ 32, and so is the expected end before.
pub accept_packet-cuts :
    {W : Type 0} (out : Outside W) (net : Network W) (metric : DtpMetrics) (start_ts k d fuel : ℕ)
    (p : Packet) (r : Receiver) (w : W)
    → 0 < chunk_size r.session.request_meta.mtu
    → 0 < k
    → 0 < d
    → r.now_ts_ms ≡ start_ts + d
    → r.idle_ms ≡ 0
    → r.nof_packets + 1 ≡ k * d
    → k * d < metric.nof_packets
    → metric.nof_packets < k * d + k
    → r.packet_seq < metric.last_packet
    → r.expected_eot_ts_ms < 2 ^ 32
    → start_ts + chunk_size r.session.request_meta.mtu * metric.nof_packets < 2 ^ 32
    → let (go_on, r', w') = accept_packet out net metric start_ts p r w in
      (go_on ≡ true)
      × (r'.nof_packets < metric.nof_packets)
      × (receive_loop out net metric start_ts (suc fuel) r' w' ≡ some (r', w'))
      × (r'.result ≡ r.result)
unfolding accept_packet receive_loop
accept_packet-cuts out net metric start_ts k d fuel p r w chunk kp dp now idle count more few early
      word fits =
    let s : Session = record (r.session) {
      bytes_received = add32 r.session.bytes_received (sub32 p.packet_length 8);
    } in
    let c : ℕ = chunk_size r.session.request_meta.mtu in
    let not_last : leb metric.last_packet r.packet_seq ≡ false = ground (arith, early) in
    let most : metric.nof_packets ≤ c * metric.nof_packets = grind arith in
    let counted : add32 r.nof_packets 1 ≡ k * d = omega (arith, count, more, most, fits) in
    let eot : ℕ =
      adjust_eot metric c start_ts (add32 r.nof_packets 1) r.now_ts_ms r.expected_eot_ts_ms in
    let cut : eot ≤ r.now_ts_ms =
      rw (counted, now)
        (adjust_eot-cut metric c start_ts k d r.expected_eot_ts_ms chunk dp kp more few fits
          word) in
    let each : d ≤ k * d = grind arith in
    let word_now : r.now_ts_ms < 2 ^ 32 = omega (arith, now, each, more, most, fits) in
    let over : waits out net metric start_ts (accept_packet out net metric start_ts p r w).1
        ≡ false =
      rw (not_last, idle)
        (late r.now_ts_ms eot (ltb (add32 r.nof_packets 1) metric.nof_packets) cut word_now) in
    (
      rw not_last refl,
      rw not_last (omega (arith, counted, more)),
      if-false over _ _,
      rw not_last refl,
    )
  where
    late :
        (now eot : ℕ) (b : Bool) → eot ≤ now → now < 2 ^ 32 → (ltb (add32 now 0) eot && b) ≡ false
    late now eot b h small = ground arith
