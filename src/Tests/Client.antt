-- ===== src/Tests/Client.antt =====
-- A download of 250 bytes over a network that brings two packets.
use libdtp.Common.{ℕ, zero, suc, ◌≤◌, ◌<◌, ◌≡◌, refl, some, true, arith, little_endian}
use libdtp.Session.{dtp_ok, dtp_cancelled, Packet}
use libdtp.Protocol.{DtpMetrics, compute_dtp_metrics}
use libdtp.Client.{
  Receiver, accept_packet, receive_loop, receive_bound, first_receiver, send_remote_meta_req,
}
use libdtp.Client.Outcome.{End, IsFinite}
use libdtp.Client.Outcome.Loop.{receive_loop-ends}
use libdtp.Client.Bounded.{closing, receive_bound-ends}
use libdtp.Client.Early.{accept_packet-cuts}
use libdtp.Client.Wire.{send_remote_meta_req_keep_alive}
use libdtp.Tests.Data.{
  session, request, out, net, floats, floats-RejectsZero, arrival, alive_pending,
}

abbrev pending : ℕ → ℕ
pending w = w

silent_arrival : (w : ℕ) → (arrival w).1 ≤ w
silent_arrival zero = omega arith
silent_arrival (suc w) = omega arith

fewer_after : (w : ℕ) (p : Packet) → (arrival w).0 ≡ some p → (arrival w).1 < w
fewer_after zero p e = cc
fewer_after (suc w) p e = omega arith

finite : IsFinite out net pending
finite = record {
  others_timeout = λ s w. refl;
  others_pending = λ s w. omega arith;
  hook_timeout = λ h p s w. refl;
  hook_pending = λ h p s w. omega arith;
  clock = λ w. omega arith;
  alive = λ node w. alive_pending node w;
  silent = λ t w. silent_arrival w;
  received = λ t w p e. fewer_after w p e;
}

abbrev metric : DtpMetrics
metric = record {
  round_time_ms = 100;
  packets_per_round = 1;
  resulting_throughput = 100;
  nof_packets = 3;
  last_packet = 2;
  total_duration_ms = 1000;
}

receive_loop-ends_example :
    (r' : Receiver) × (w' : ℕ) × (receive_loop out net metric 40 4000
        (first_receiver out net metric session 40)
        2
      ≡ some (r', w'))
    × End metric r'
receive_loop-ends_example =
    receive_loop-ends out net pending finite metric 40 1 (omega arith) (omega arith) 4000
      (first_receiver out net metric session 40) 2
      (record { timeout_is = refl; idle = omega arith; undecided = refl }) (omega arith)

receive_bound-ends_example :
    (m : DtpMetrics) × (r : Receiver) × (w' : ℕ) × (compute_dtp_metrics floats session.request_meta
        session.payload_size
      ≡ some m)
    × End m r
    × (receive_bound out net floats 4000 session 2
        ≡ some (r.result, (closing out net r w').0, (closing out net r w').1))
receive_bound-ends_example =
    receive_bound-ends out net pending floats 4000 session 2 finite floats-RejectsZero (omega arith)
      (omega arith) (omega arith) (omega arith) (omega arith) (omega arith) (omega arith)
      (omega arith)

send_remote_meta_req_keep_alive_example :
    send_remote_meta_req out net little_endian session 2
    ≡ (dtp_ok, net.csp_send 3 (record request { keep_alive_interval = 0 }) 2)
send_remote_meta_req_keep_alive_example =
    send_remote_meta_req_keep_alive out net little_endian session 2 (omega arith) refl

-- Two packets have come within a millisecond, and the third is still to come.
abbrev hurried : Receiver
hurried = record (first_receiver out net metric session 40) {
  packet_seq = 1;
  prev_packet_seq = 0;
  nof_packets = 1;
  now_ts_ms = 41;
}

abbrev second : Packet
second = record { packet_length = 108; data32_0 = 100 }

accept_packet-cuts_example :
    let (go_on, r', w') = accept_packet out net metric 40 second hurried 1 in
    (go_on ≡ true)
    × (r'.nof_packets < 3)
    × (receive_loop out net metric 40 5 r' w' ≡ some (r', w'))
    × (r'.result ≡ dtp_cancelled)
accept_packet-cuts_example =
    accept_packet-cuts out net metric 40 2 1 4 second hurried 1 (omega arith) (omega arith)
      (omega arith) refl refl refl (omega arith) (omega arith) (omega arith) (omega arith)
      (omega arith)
