-- ===== src/Client/Arrivals.antt =====
-- src/dtp_client.c: the receiver loop on a network that brings the packets of a transfer in order.
pub mod Accept
pub mod Loop
use libdtp.Common.{
  ℕ, zero, suc, ◌+◌, ◌-◌, ◌*◌, ◌/◌, ◌^◌, ◌≤◌, ◌<◌, ◌≡◌, ◌≢◌, refl, sym, ap, ap₂, ◌∙◌, List, [], ◌∷◌,
  Bool, true, false, Option, none, some, if◌then◌else◌, arith, ltb, leb, ◌==◌, add32, sub32, mul32,
  u32, inl, inr, Bool-cases, if-true, if-false, length,
}
use libdtp.Session.{dtp_ok, dtp_cancelled, DtpResult, Session, Packet, chunk_size}
use libdtp.Protocol.{DtpMetrics}
use libdtp.Pool.{Outside}
use libdtp.Vmem.Requests.{vmem_request_dtp_send_alive}
use libdtp.Client.{
  Network, Receiver, accept_packet, receive_packet, receive_round, waits, receive_loop, data_hook,
  keep_alive, adjust_eot,
}
use libdtp.Client.Timing.{IsPaced, adjust_eot-later}

-- A packet, and what the clock reads behind it.
pub record Arrival : Type 0 where
  pub at_ms : ℕ
  pub packet : Packet

-- What the receiver loop reads of its session.
pub record SameSession (s s' : Session) : Type 0 where
  pub active : s'.active ≡ s.active
  pub bytes : s'.bytes_received ≡ s.bytes_received
  pub size : s'.payload_size ≡ s.payload_size
  pub request : s'.request_meta ≡ s.request_meta

-- A network without losses: `queue` is what still arrives, in order. No other task, and no hook, touches
-- what the loop reads of the session.
pub record IsLossless {W : Type 0} (out : Outside W) (net : Network W) (queue : W → List Arrival)
    : Type 0 where
  pub others_same : (s : Session) (w : W) → SameSession s (net.others s w).0
  pub others_queue : (s : Session) (w : W) → queue (net.others s w).1 ≡ queue w
  pub hook_same :
      (h : ℕ) (p : Packet) (s : Session) (w : W) → SameSession s (out.on_data_packet h p s w).1
  pub hook_queue :
      (h : ℕ) (p : Packet) (s : Session) (w : W) → queue (out.on_data_packet h p s w).2 ≡ queue w
  pub alive_queue :
      (node : ℕ) (w : W) → queue (vmem_request_dtp_send_alive net.vmem node w).1 ≡ queue w
  pub brings :
      (t : ℕ) (w : W) (a : Arrival) (l : List Arrival)
      → queue w ≡ a ∷ l
      → ((net.csp_recvfrom t w).0 ≡ some a.packet)
        × ((net.csp_get_ms (net.csp_recvfrom t w).1).0 ≡ a.at_ms)
        × (queue (net.csp_get_ms (net.csp_recvfrom t w).1).1 ≡ l)

-- The number and the bytes of a packet.
abbrev pub number : ℕ → Arrival → ℕ
number mtu a = u32 (a.packet.data32_0 / chunk_size mtu)

abbrev pub data_bytes : Arrival → ℕ
data_bytes a = a.packet.packet_length - 8

-- The arrivals complete a payload of `size` bytes, `b` of which have come with `n` packets, the last of them
-- number `k`: the packet numbers grow up to `last`, and all but the packet `last` are in pace.
abbrev pub Completes : ℕ → ℕ → ℕ → ℕ → ℕ → ℕ → ℕ → List Arrival → Type 0
Completes mtu start last size k n b [] = ⊥
Completes mtu start last size k n b (a ∷ []) =
    (8 ≤ a.packet.packet_length)
    × (number mtu a ≢ k)
    × (last ≤ number mtu a)
    × (b + data_bytes a ≡ size)
Completes mtu start last size k n b (a ∷ (a' ∷ l)) =
    (8 ≤ a.packet.packet_length)
    × (number mtu a ≢ k)
    × (number mtu a < last)
    × (b + data_bytes a ≤ size)
    × (start ≤ a.at_ms)
    × IsPaced (chunk_size mtu) (n + 1) (a.at_ms - start)
    × Completes mtu start last size (number mtu a) (n + 1) (b + data_bytes a) (a' ∷ l)

-- The receiver behind `n` packets with `b` bytes, the last of them number `k`.
pub record IsReceiving (mtu size k n b : ℕ) (r : Receiver) : Type 0 where
  pub active : r.session.active ≡ true
  pub size_is : r.session.payload_size ≡ size
  pub mtu_is : r.session.request_meta.mtu ≡ mtu
  pub bytes : r.session.bytes_received ≡ b
  pub count : r.nof_packets ≡ n
  pub before : r.prev_packet_seq ≡ k
  pub early : r.now_ts_ms < r.expected_eot_ts_ms
  pub eot_word : r.expected_eot_ts_ms < 2 ^ 32
  pub fresh : r.idle_ms ≡ 0

-- The receiver behind the test for duplicates, with a new packet that is number `k`.
pub record IsAccepting (mtu size k n b : ℕ) (a : Arrival) (r : Receiver) : Type 0 where
  pub active : r.session.active ≡ true
  pub size_is : r.session.payload_size ≡ size
  pub mtu_is : r.session.request_meta.mtu ≡ mtu
  pub bytes : r.session.bytes_received ≡ b
  pub count : r.nof_packets ≡ n
  pub seq : r.packet_seq ≡ k
  pub now : r.now_ts_ms ≡ a.at_ms
  pub eot_word : r.expected_eot_ts_ms < 2 ^ 32
  pub fresh : r.idle_ms ≡ 0
