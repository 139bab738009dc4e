-- ===== src/Client/Arrivals/Loop.antt =====
-- src/dtp_client.c: the receiver loop over packets that arrive without loss, in order and in pace.
use libdtp.Common.{
  ℕ, zero, suc, ◌+◌, ◌*◌, ◌/◌, ◌^◌, ◌≤◌, ◌<◌, ◌≡◌, ◌≢◌, refl, ap, ◌∙◌, List, [], ◌∷◌, true, false,
  some, arith, ◌==◌, mul32, u32, if-true, if-false, length,
}
use libdtp.Session.{dtp_ok, chunk_size}
use libdtp.Protocol.{DtpMetrics}
use libdtp.Pool.{Outside}
use libdtp.Client.{
  Network, Receiver, accept_packet, receive_packet, receive_round, waits, receive_loop,
}
use libdtp.Client.Arrivals.{
  Arrival, IsLossless, Completes, number, data_bytes, IsReceiving, IsAccepting,
}
use libdtp.Client.Arrivals.Accept.{accept_packet-more, accept_packet-last}

module _ {W : Type 0} (out : Outside W) (net : Network W) (queue : W → List Arrival)
    (lossless : IsLossless out net queue) (metric : DtpMetrics) (start_ts mtu size : ℕ)
    (small : size < 2 ^ 32) (count_small : metric.nof_packets < 2 ^ 32)
    (fits : start_ts + chunk_size mtu * metric.nof_packets < 2 ^ 32) where
  -- A round in which a packet arrives that is not a duplicate.
  receive_round-accepts :
      (k n b : ℕ) (a : Arrival) (l : List Arrival) (r : Receiver) (w : W)
      → IsReceiving mtu size k n b r
      → queue w ≡ a ∷ l
      → number mtu a ≢ k
      → (r' : Receiver) × (w' : W) × (receive_round out net metric start_ts r w
          ≡ accept_packet out net metric start_ts a.packet r' w')
        × IsAccepting mtu size (number mtu a) n b a r'
        × (queue w' ≡ l)
  unfolding receive_round receive_packet
  receive_round-accepts k n b a l r w h q new =
      let other = net.others r.session w in
      let same = lossless.others_same r.session w in
      let t : ℕ = mul32 metric.round_time_ms 2 in
      let got = net.csp_recvfrom t other.1 in
      let (packet, now, rest) =
        lossless.brings t other.1 a l (lossless.others_queue r.session w ∙ q) in
      let chunk : chunk_size other.0.request_meta.mtu ≡ chunk_size mtu =
        ap (λ m. chunk_size m.mtu) same.request ∙ ap chunk_size h.mtu_is in
      let seq : ℕ = u32 (a.packet.data32_0 / chunk_size other.0.request_meta.mtu) in
      let numbered : seq ≡ number mtu a = ap (λ c. u32 (a.packet.data32_0 / c)) chunk in
      let unlike : (seq == r.prev_packet_seq) ≡ false = ground (arith, numbered, h.before, new) in
      (
        record r {
          session = other.0;
          idle_ms = 0;
          now_ts_ms = (net.csp_get_ms got.1).0;
          packet_seq = seq;
        },
        (net.csp_get_ms got.1).1,
        rw (same.active ∙ h.active, packet) (if-false unlike _ _),
        record {
          active = same.active ∙ h.active;
          size_is = same.size ∙ h.size_is;
          mtu_is = ap (λ m. m.mtu) same.request ∙ h.mtu_is;
          bytes = same.bytes ∙ h.bytes;
          count = h.count;
          seq = numbered;
          now = now;
          eot_word = h.eot_word;
          fresh = refl;
        },
        rest,
      )

  waits_on :
      (k n b : ℕ) (r : Receiver)
      → IsReceiving mtu size k n b r
      → n < metric.nof_packets
      → waits out net metric start_ts r ≡ true
  waits_on k n b r h few = ground (arith, h.early, h.fresh, h.count, few, h.eot_word)

  -- The loop over a queue that completes the payload.
  pub receive_loop_complete :
      (l : List Arrival) (k n b fuel : ℕ) (r : Receiver) (w : W)
      → IsReceiving mtu size k n b r
      → queue w ≡ l
      → Completes mtu start_ts metric.last_packet size k n b l
      → n + length l ≤ metric.nof_packets
      → length l ≤ fuel
      → (r' : Receiver) × (w' : W) × (receive_loop out net metric start_ts fuel r w ≡ some (r', w'))
        × (r'.result ≡ dtp_ok)
        × (r'.session.bytes_received ≡ size)
  unfolding receive_loop
  receive_loop_complete [] k n b fuel r w h q c few f = absurd c
  receive_loop_complete (a ∷ l) k n b zero r w h q c few f = absurd (omega (arith, f))
  receive_loop_complete (a ∷ []) k n b (suc fuel) r w h q c few f =
      let (r₁, w₁, e, h₁, q₁) = receive_round-accepts k n b a [] r w h q c.1 in
      let (r₂, w₂, e₂, ok, all) =
        accept_packet-last out net queue lossless metric start_ts mtu size small count_small fits
          (number mtu a) n b a r₁ w₁ h₁ c.0 c.2 c.3 in
      (r₂, w₂, rw (e ∙ e₂) (if-true (waits_on k n b r h (omega (arith, few))) _ _), ok, all)
  receive_loop_complete (a ∷ (a' ∷ l)) k n b (suc fuel) r w h q c few f =
      let (long, new, more, room, later, paced, rest) = c in
      let (r₁, w₁, e, h₁, q₁) = receive_round-accepts k n b a (a' ∷ l) r w h q new in
      let (r₂, w₂, e₂, h₂, q₂) =
        accept_packet-more out net queue lossless metric start_ts mtu size small count_small fits
          (number mtu a) n b a r₁ w₁ h₁ long more (omega (arith, few)) room later paced in
      let (r', w', e', ok, all) =
        receive_loop_complete (a' ∷ l) (number mtu a) (n + 1) (b + data_bytes a) fuel r₂ w₂ h₂
          (q₂ ∙ q₁) rest (omega (arith, few)) (omega (arith, f)) in
      (r', w', rw (e ∙ e₂) (if-true (waits_on k n b r h (omega (arith, few))) _ _ ∙ e'), ok, all)
