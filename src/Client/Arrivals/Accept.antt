-- ===== src/Client/Arrivals/Accept.antt =====
-- src/dtp_client.c: a packet that is accepted, on a network without losses.
use libdtp.Common.{
  ℕ, ◌+◌, ◌-◌, ◌*◌, ◌^◌, ◌≤◌, ◌<◌, ◌≡◌, refl, ap, ◌∙◌, List, true, false, arith, leb, ◌==◌, add32,
  sub32, inl, inr, Bool-cases,
}
use libdtp.Session.{dtp_ok, Session, Packet, chunk_size}
use libdtp.Protocol.{DtpMetrics}
use libdtp.Pool.{Outside}
use libdtp.Client.{Network, Receiver, accept_packet, data_hook, keep_alive, adjust_eot}
use libdtp.Client.Timing.{IsPaced, adjust_eot-later}
use libdtp.Client.Arrivals.{Arrival, SameSession, IsLossless, data_bytes, IsReceiving, IsAccepting}

module _ {W : Type 0} (out : Outside W) (net : Network W) (queue : W → List Arrival)
    (lossless : IsLossless out net queue) (metric : DtpMetrics) (start_ts mtu size : ℕ)
    (small : size < 2 ^ 32) (count_small : metric.nof_packets < 2 ^ 32)
    (fits : start_ts + chunk_size mtu * metric.nof_packets < 2 ^ 32) where
  data_hook_same :
      (p : Packet) (s : Session) (w : W)
      → SameSession s (data_hook out net p s w).0 × (queue (data_hook out net p s w).1 ≡ queue w)
  unfolding data_hook
  data_hook_same p s w = elim (Bool-cases (s.hooks.on_data_packet == 0)) [
    | inl none_set ↦
        rw none_set (record { active = refl; bytes = refl; size = refl; request = refl }, refl)
    | inr set ↦ rw set (
      lossless.hook_same s.hooks.on_data_packet p s w,
      lossless.hook_queue s.hooks.on_data_packet p s w,
    )
  ]

  keep_alive_queue :
      (s : Session) (now last : ℕ) (w : W) → queue (keep_alive out net s now last w).1 ≡ queue w
  unfolding keep_alive
  keep_alive_queue s now last w = ground (arith, lossless.alive_queue s.node w)

  pub accept_packet-more :
      (k n b : ℕ) (a : Arrival) (r : Receiver) (w : W)
      → IsAccepting mtu size k n b a r
      → 8 ≤ a.packet.packet_length
      → k < metric.last_packet
      → n + 1 < metric.nof_packets
      → b + data_bytes a ≤ size
      → start_ts ≤ a.at_ms
      → IsPaced (chunk_size mtu) (n + 1) (a.at_ms - start_ts)
      → (r' : Receiver) × (w' : W) × (accept_packet out net metric start_ts a.packet r w
          ≡ (true, r', w'))
        × IsReceiving mtu size k (n + 1) (b + data_bytes a) r'
        × (queue w' ≡ queue w)
  unfolding accept_packet
  accept_packet-more k n b a r w h long more few room later paced =
      let s : Session = record (r.session) {
        bytes_received = add32 r.session.bytes_received (sub32 a.packet.packet_length 8);
      } in
      let alive = keep_alive out net s r.now_ts_ms r.last_alive w in
      let hook = data_hook out net a.packet s alive.1 in
      let (same, q) = data_hook_same a.packet s alive.1 in
      let received : add32 r.session.bytes_received (sub32 a.packet.packet_length 8)
          ≡ b + data_bytes a =
        omega (arith, h.bytes, long, room, small) in
      let counted : add32 r.nof_packets 1 ≡ n + 1 = omega (arith, h.count, few, count_small) in
      let at : r.now_ts_ms ≡ start_ts + (a.at_ms - start_ts) = omega (arith, h.now, later) in
      let eot : ℕ =
        adjust_eot metric (chunk_size s.request_meta.mtu) start_ts (add32 r.nof_packets 1)
          r.now_ts_ms r.expected_eot_ts_ms in
      let eot_is : eot
          ≡ adjust_eot metric (chunk_size mtu) start_ts (n + 1) (start_ts + (a.at_ms - start_ts))
              r.expected_eot_ts_ms =
        rw (h.mtu_is, counted, at) refl in
      let (waits_on, word) =
        adjust_eot-later metric (chunk_size mtu) start_ts (n + 1) (a.at_ms - start_ts)
          r.expected_eot_ts_ms (omega arith) few paced fits h.eot_word in
      let not_last : leb metric.last_packet r.packet_seq ≡ false = ground (arith, h.seq, more) in
      (
        record r {
          session = hook.0;
          prev_packet_seq = r.packet_seq;
          nof_packets = add32 r.nof_packets 1;
          expected_eot_ts_ms = eot;
          last_alive = alive.0;
        },
        hook.1,
        rw not_last refl,
        record {
          active = same.active ∙ h.active;
          size_is = same.size ∙ h.size_is;
          mtu_is = ap (λ m. m.mtu) same.request ∙ h.mtu_is;
          bytes = same.bytes ∙ received;
          count = counted;
          before = h.seq;
          early = rw (eot_is, at) waits_on;
          eot_word = rw eot_is word;
          fresh = h.fresh;
        },
        q ∙ keep_alive_queue s r.now_ts_ms r.last_alive w,
      )

  pub accept_packet-last :
      (k n b : ℕ) (a : Arrival) (r : Receiver) (w : W)
      → IsAccepting mtu size k n b a r
      → 8 ≤ a.packet.packet_length
      → metric.last_packet ≤ k
      → b + data_bytes a ≡ size
      → (r' : Receiver) × (w' : W) × (accept_packet out net metric start_ts a.packet r w
          ≡ (false, r', w'))
        × (r'.result ≡ dtp_ok)
        × (r'.session.bytes_received ≡ size)
  unfolding accept_packet
  accept_packet-last k n b a r w h long final total =
      let s : Session = record (r.session) {
        bytes_received = add32 r.session.bytes_received (sub32 a.packet.packet_length 8);
      } in
      let alive = keep_alive out net s r.now_ts_ms r.last_alive w in
      let hook = data_hook out net a.packet s alive.1 in
      let (same, q) = data_hook_same a.packet s alive.1 in
      let received : add32 r.session.bytes_received (sub32 a.packet.packet_length 8) ≡ size =
        omega (arith, h.bytes, long, total, small) in
      let whole : hook.0.bytes_received ≡ size = same.bytes ∙ received in
      let all : (hook.0.bytes_received == hook.0.payload_size) ≡ true =
        ground (arith, whole, same.size, h.size_is) in
      let last : leb metric.last_packet r.packet_seq ≡ true = ground (arith, h.seq, final) in
      (
        record r {
          session = hook.0;
          result = dtp_ok;
          prev_packet_seq = r.packet_seq;
          nof_packets = add32 r.nof_packets 1;
          expected_eot_ts_ms =
              adjust_eot metric (chunk_size s.request_meta.mtu) start_ts (add32 r.nof_packets 1)
                r.now_ts_ms r.expected_eot_ts_ms;
          last_alive = alive.0;
        },
        hook.1,
        rw (last, all) refl,
        refl,
        whole,
      )
