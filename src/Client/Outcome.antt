-- ===== src/Client/Outcome.antt =====
-- src/dtp_client.c: the receiver loop ends once the network falls silent, and with which result.
pub mod Round
pub mod Loop
use native.Mathlib.Nat.{mul-le-mul_right}
use libdtp.Common.{
  ℕ, zero, suc, ◌+◌, ◌-◌, ◌*◌, ◌^◌, ◌≤◌, ◌<◌, ◌≡◌, ◌≢◌, refl, ◌∙◌, Bool, true, false, Option, none,
  some, if◌then◌else◌, arith, ltb, leb, ◌==◌, add32, sub32, mul32, u32, ◌/◌, inl, inr, Bool-cases,
  if-true, if-false,
}
use libdtp.Session.{dtp_ok, dtp_cancelled, Session, Packet, chunk_size}
use libdtp.Protocol.{DtpMetrics}
use libdtp.Pool.{Outside}
use libdtp.Vmem.Requests.{vmem_request_dtp_send_alive}
use libdtp.Client.{
  Network, Receiver, accept_packet, receive_packet, receive_timeout, receive_event, receive_round,
  waits, receive_loop, data_hook, keep_alive,
}

-- How the loop ends.
pub data End (metric : DtpMetrics) (r : Receiver) : Type 0 where
  complete :
      r.result ≡ dtp_ok
      → r.session.bytes_received ≡ r.session.payload_size
      → metric.last_packet ≤ r.packet_seq
      → End metric r
  incomplete :
      r.result ≡ dtp_cancelled
      → r.session.bytes_received ≢ r.session.payload_size
      → metric.last_packet ≤ r.packet_seq
      → End metric r
  stopped : r.result ≡ dtp_cancelled → r.session.active ≡ false → End metric r
  expired :
      r.result ≡ dtp_cancelled → r.expected_eot_ts_ms ≤ add32 r.now_ts_ms r.idle_ms → End metric r
  counted : r.result ≡ dtp_cancelled → metric.nof_packets ≤ r.nof_packets → End metric r

-- A network that falls silent: `pending` bounds the packets still to come. No other code changes the
-- session's timeout.
pub record IsFinite {W : Type 0} (out : Outside W) (net : Network W) (pending : W → ℕ)
    : Type 0 where
  pub others_timeout : (s : Session) (w : W) → (net.others s w).0.timeout ≡ s.timeout
  pub others_pending : (s : Session) (w : W) → pending (net.others s w).1 ≤ pending w
  pub hook_timeout :
      (h : ℕ) (p : Packet) (s : Session) (w : W)
      → (out.on_data_packet h p s w).1.timeout ≡ s.timeout
  pub hook_pending :
      (h : ℕ) (p : Packet) (s : Session) (w : W)
      → pending (out.on_data_packet h p s w).2 ≤ pending w
  pub clock : (w : W) → pending (net.csp_get_ms w).1 ≤ pending w
  pub alive :
      (node : ℕ) (w : W) → pending (vmem_request_dtp_send_alive net.vmem node w).1 ≤ pending w
  pub silent : (t : ℕ) (w : W) → pending (net.csp_recvfrom t w).1 ≤ pending w
  pub received :
      (t : ℕ) (w : W) (p : Packet)
      → (net.csp_recvfrom t w).0 ≡ some p
      → pending (net.csp_recvfrom t w).1 < pending w

-- The rounds left, at most.
abbrev pub rounds_left : ℕ → ℕ → ℕ → ℕ
rounds_left timeout packets idle = packets * (timeout * 1000 + 2) + (timeout * 1000 + 1 - idle)

-- The receiver between two rounds.
pub record IsWaiting (timeout : ℕ) (r : Receiver) : Type 0 where
  pub timeout_is : r.session.timeout ≡ timeout
  pub idle : r.idle_ms ≤ timeout * 1000
  pub undecided : r.result ≡ dtp_cancelled
