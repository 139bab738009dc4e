-- ===== src/Tests/Protocol.antt =====
-- The metrics of small requests.
use libdtp.Common.{ℕ, ◌+◌, ◌%◌, ◌≤◌, ◌<◌, ◌^◌, ◌≡◌, ◌≢◌, refl, some, arith}
use libdtp.Session.{chunk32}
use libdtp.Protocol.{DtpMetrics, compute_nof_packets, compute_dtp_metrics}
use libdtp.Protocol.Packets.{compute_dtp_metrics_whole}
use libdtp.Protocol.Metrics.{compute_dtp_metrics-total}
use libdtp.Tests.Data.{request, floats, floats-RejectsZero}

abbrev payload : ℕ
payload = 300

-- A packet of 100 bytes in each tenth of a second; three hold the payload, and four are counted.
abbrev expected : DtpMetrics
expected = record {
  round_time_ms = 100;
  packets_per_round = 1;
  resulting_throughput = 100;
  nof_packets = 4;
  last_packet = 3;
  total_duration_ms = 1000;
}

metrics_of_request : compute_dtp_metrics floats request payload ≡ some expected
unfolding compute_dtp_metrics
metrics_of_request = refl

packets_of_payload : compute_nof_packets payload (chunk32 request.mtu) ≡ some 3
unfolding compute_nof_packets
packets_of_payload = refl

compute_dtp_metrics_whole_example :
    (expected.nof_packets ≡ expected.last_packet + 1)
    × (payload % chunk32 request.mtu ≡ 0 → expected.nof_packets ≡ 3 + 1)
    × (payload % chunk32 request.mtu ≢ 0 → expected.nof_packets ≡ 3)
compute_dtp_metrics_whole_example =
    compute_dtp_metrics_whole floats request payload 3 expected metrics_of_request
      packets_of_payload (omega arith) refl refl

compute_dtp_metrics-total_example :
    (m : DtpMetrics) × (compute_dtp_metrics floats request payload ≡ some m)
    × (10 ≤ m.round_time_ms)
    × (1 ≤ m.packets_per_round)
    × (1000 ≤ m.total_duration_ms)
    × (m.round_time_ms < 2 ^ 26)
compute_dtp_metrics-total_example =
    compute_dtp_metrics-total floats request payload floats-RejectsZero (omega arith) (omega arith)
      (omega arith) (omega arith) (omega arith) (omega arith)
