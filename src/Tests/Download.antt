-- ===== src/Tests/Download.antt =====
-- The rest of a payload of 250 bytes, packets 0 and 2 of it, from the server to the client.
use libdtp.Common.{
  ℕ, zero, suc, ◌<◌, ◌≤◌, ◌≡◌, refl, List, [], ◌∷◌, true, Option, none, some, arith, u32_max, ◌==◌,
  Bool-cases, inl, inr, little_endian, some_inj, ap, ◌*◌, ◌%◌,
}
use libdtp.Session.{dtp_ok, dtp_cancelled, Interval, Session, Packet}
use libdtp.Protocol.{DtpMetrics, compute_dtp_metrics}
use libdtp.Pool.{Outside}
use libdtp.Server.{
  TransferCtx, Transfer, start_sending_data, os_hal_start_poll_operation, dtp_server_poll_loop,
  interval_stop, fixed_end,
}
use libdtp.Server.Poll.{slice, Genuine}
use libdtp.Server.Ranges.{Delivers}
use libdtp.Client.{Network, Receiver, receive_bound, wire_request}
use libdtp.Client.Arrivals.{Arrival, IsLossless}
use libdtp.Client.Bounded.{closing}
use libdtp.Client.Outcome.{IsFinite}
use libdtp.Download.Multiple.{receive_bound-cancelled}
use libdtp.Download.Complete.{receive_bound-completes}
use libdtp.Vmem.Requests.{VmemNet, open_request, vmem_request_dtp_send_alive}
use libdtp.Tests.Data.{
  byte_at, io, steady, floats, floats-RejectsZero, request, session, out, net, alive_pending,
}

-- What still arrives, and the clock.
abbrev Air : Type 0
Air = List Arrival × ℕ

abbrev queue : Air → List Arrival
queue w = w.0

abbrev receive : Air → Option Packet × Air
receive ([], now) = (none, ([], now))
receive (a ∷ l, now) = (some a.packet, (l, a.at_ms))

abbrev vmem : VmemNet Air
vmem = record {
  csp_connect = λ node timeout rdp w. (node, w);
  csp_buffer_get = λ w. (some request, w);
  csp_send = λ conn version r w. w;
  csp_read = λ conn timeout w. (none, w);
  csp_close = λ conn w. w;
}

abbrev air : Network Air
air = record {
  csp_connect = λ n w. (n, w);
  csp_buffer_get = λ w. (true, w);
  csp_send = λ c m w. w;
  csp_read = λ c w. (none, w);
  csp_bind = λ w. (true, w);
  csp_recvfrom = λ t w. receive w;
  csp_socket_close = λ w. w;
  csp_get_ms = λ w. (w.1, w);
  vmem = vmem;
  others = λ s w. (s, w);
}

abbrev hooks : Outside Air
hooks = record {
  on_start = λ h s w. (s, w);
  on_data_packet = λ h p s w. (true, record s { end_ts = h }, w);
  on_end = λ h s w. (s, w);
  on_release = λ h s w. (s, w);
  on_serialize = λ h c s w. (s, w);
  on_deserialize = λ h c s w. (s, w);
  csp_close = λ c w. w;
}

brings :
    (w : Air) (a : Arrival) (l : List Arrival)
    → queue w ≡ a ∷ l
    → ((receive w).0 ≡ some a.packet) × ((receive w).1.1 ≡ a.at_ms) × (queue (receive w).1 ≡ l)
brings ([], now) a l e = cc
brings (b ∷ k, now) a l e = (cc, cc, cc)

alive_queue : (node : ℕ) (w : Air) → queue (vmem_request_dtp_send_alive vmem node w).1 ≡ queue w
unfolding vmem_request_dtp_send_alive open_request
alive_queue node w = elim (Bool-cases (node == 0)) [
  | inl null ↦ rw null refl
  | inr connected ↦ rw connected refl
]

lossless : IsLossless hooks air queue
lossless = record {
  others_same = λ s w. record { active = refl; bytes = refl; size = refl; request = refl };
  others_queue = λ s w. refl;
  hook_same = λ h p s w. record { active = refl; bytes = refl; size = refl; request = refl };
  hook_queue = λ h p s w. refl;
  alive_queue = λ node w. alive_queue node w;
  brings = λ t w a l e. brings w a l e;
}

abbrev first_packet : Interval
first_packet = record { start = 0; end = 0 }

abbrev from_second : Interval
from_second = record { start = 2; end = u32_max }

-- The session that is resumed: 100 bytes have been received before.
abbrev resumed : Session
resumed = record session {
  bytes_received = 100;
  request_meta = record request { nof_intervals = 2; intervals = first_packet ∷ from_second ∷ [] };
}

abbrev ctx : TransferCtx
ctx = record {
  srv_node = 1;
  dest_port = 2;
  size_in_bytes = 0;
  keep_running = true;
  request = wire_request little_endian resumed.request_meta;
  payload_meta = record { base = 0; size = 250; read = 1; completed = 0; context = 0 };
  client_alive_ts = 0;
}

abbrev metric : DtpMetrics
metric = record {
  round_time_ms = 100;
  packets_per_round = 1;
  resulting_throughput = 100;
  nof_packets = 2;
  last_packet = 2;
  total_duration_ms = 1000;
}

metrics_of_resumed : compute_dtp_metrics floats resumed.request_meta 250 ≡ some metric
unfolding compute_dtp_metrics
metrics_of_resumed = refl

-- The transfer of the server once it has ended.
abbrev sent_rest : Transfer
sent_rest = record {
  bytes_sent = 250;
  sent_in_interval = 50;
  bytes_in_interval = 50;
  nof_packets_per_round = 1;
  nof_csp_packets = 2;
  ctx = record ctx {
    request = record (ctx.request) {
      intervals = first_packet ∷ record { start = 2; end = 2 } ∷ [];
    };
  };
  sent =
      record {
        packet_length = 108;
        offset = 0;
        session_id = 77;
        payload = slice byte_at 0 100;
        src = 1;
        dst = 2;
      }
      ∷ record {
        packet_length = 58;
        offset = 200;
        session_id = 77;
        payload = slice byte_at 200 50;
        src = 1;
        dst = 2;
      }
      ∷ [];
}

run_of_server : start_sending_data io floats 250 ctx 0 ≡ some (dtp_ok, sent_rest, 2)
unfolding start_sending_data compute_dtp_metrics os_hal_start_poll_operation dtp_server_poll_loop
    interval_stop fixed_end
run_of_server = refl

abbrev on_air : Air
on_air = (
  record { at_ms = 90; packet = record { packet_length = 108; data32_0 = 0 } }
      ∷ record { at_ms = 700; packet = record { packet_length = 58; data32_0 = 200 } }
      ∷ [],
  40,
)

receive_bound-completes_example :
    (r : Receiver) × (w' : Air) × (receive_bound hooks air floats 2 resumed on_air
      ≡ some (dtp_ok, (closing hooks air r w').0, (closing hooks air r w').1))
    × (r.session.bytes_received ≡ 250)
    × Delivers 108 250 (first_packet ∷ from_second ∷ []) sent_rest.sent
    × Genuine byte_at sent_rest.sent
receive_bound-completes_example =
    receive_bound-completes hooks air queue io floats little_endian resumed on_air 2 ctx
      first_packet (from_second ∷ []) 0 2 sent_rest 250 metric steady lossless floats-RejectsZero
      refl refl refl refl (omega arith) (omega arith) (omega arith) (omega arith) (omega arith) refl
      (omega arith) (refl, (refl, tt))
      (
        omega arith,
        omega arith,
        omega arith,
        inr (omega arith),
        (omega arith, omega arith, omega arith, inl refl, tt),
      )
      refl (omega arith) run_of_server (refl, (refl, tt)) refl
      (omega arith, record { not_faster = omega arith; not_slower = omega arith }, tt)
      metrics_of_resumed (omega arith) (omega arith) (omega arith) (omega arith)

-- A payload of 200 bytes, a multiple of the 100 in a packet; both packets come, again and again.
abbrev even : Session
even = record session { payload_size = 200 }

abbrev again : ℕ → Option Packet × ℕ
again zero = (none, zero)
again (suc n) = (some (record { packet_length = 108; data32_0 = n % 2 * 100 }), n)

abbrev repeating : Network ℕ
repeating = record net { csp_recvfrom = λ t w. again w }

silent_again : (w : ℕ) → (again w).1 ≤ w
silent_again zero = omega arith
silent_again (suc w) = omega arith

fewer_again : (w : ℕ) (p : Packet) → (again w).0 ≡ some p → (again w).1 < w
fewer_again zero p e = cc
fewer_again (suc w) p e = omega arith

within_again : (w : ℕ) (p : Packet) → (again w).0 ≡ some p → p.data32_0 < 200
within_again zero p e = cc
within_again (suc w) p e = let q = ap (λ q. q.data32_0) (some_inj e) in omega (arith, q)

finite : IsFinite out repeating (λ w. w)
finite = record {
  others_timeout = λ s w. refl;
  others_pending = λ s w. omega arith;
  hook_timeout = λ h p s w. refl;
  hook_pending = λ h p s w. omega arith;
  clock = λ w. omega arith;
  alive = λ node w. alive_pending node w;
  silent = λ t w. silent_again w;
  received = λ t w p e. fewer_again w p e;
}

receive_bound-cancelled_example :
    (r : Receiver) × (w' : ℕ) × (receive_bound out repeating floats 6000 even 4
      ≡ some (dtp_cancelled, (closing out repeating r w').0, (closing out repeating r w').1))
receive_bound-cancelled_example =
    receive_bound-cancelled out repeating (λ w. w) floats 6000 even 4 finite
      (record {
        others_mtu = λ s w. refl;
        hook_mtu = λ h p s w. refl;
        below = λ t w p e. within_again w p e;
      })
      floats-RejectsZero (omega arith) (omega arith) (omega arith) (omega arith) (omega arith) refl
      refl refl (omega arith) (omega arith)
