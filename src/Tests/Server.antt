-- ===== src/Tests/Server.antt =====
-- The server's transfer of small payloads.
use libdtp.Common.{
  false, none, ◌==◌, ◌-◌, ℕ, ◌+◌, ◌≡◌, refl, List, [], ◌∷◌, true, some, arith, inl, inr, u32_max,
  little_endian,
}
use libdtp.Session.{Interval, dtp_ok}
use libdtp.Server.{
  TransferCtx, DataPacket, Transfer, os_hal_start_poll_operation, send_intervals,
  start_sending_data, compute_transfer_size,
}
use libdtp.Server.Poll.{Genuine}
use libdtp.Server.Ranges.{AllWithin, Delivers}
use libdtp.Server.Intervals.{start_sending_data-Delivers}
use libdtp.Server.Size.{total_bytes, omitted, compute_transfer_size-omits}
use libdtp.Server.Setup.{RequestPacket, SetupIo, serve_request}
use libdtp.Server.Setup.Serve.{serve_request-Delivers}
use libdtp.Server.Run.{Listening, dtp_server_run}
use libdtp.Server.Stopped.{stopped-sends_nothing, last_sent, lost_client-sends_last}
use libdtp.Tests.Data.{byte_at, io, steady, request, floats, floats-RejectsZero}

-- Packets 0 and 1 (of 100 bytes), and from packet 3 on to the end at byte 450.
abbrev two_packets : Interval
two_packets = record { start = 0; end = 1 }

abbrev from_third : Interval
from_third = record { start = 3; end = u32_max }

abbrev parts : List Interval
parts = two_packets ∷ from_third ∷ []

abbrev ctx : TransferCtx
ctx = record {
  srv_node = 1;
  dest_port = 2;
  size_in_bytes = 0;
  keep_running = true;
  request = record request { nof_intervals = 2; keep_alive_interval = 0; intervals = parts };
  payload_meta = record { base = 0; size = 450; read = 1; completed = 1; context = 0 };
  client_alive_ts = 0;
}

parts-AllWithin : AllWithin ctx.request.mtu ctx.payload_meta.size parts
parts-AllWithin = (
  record { some_byte = ground arith; no_wrap = inr (omega arith) },
  (record { some_byte = ground arith; no_wrap = inl refl }, tt),
)

start_sending_data-Delivers_example :
    (t : Transfer) × (w' : ℕ) × (start_sending_data io floats 450 ctx 0 ≡ some (dtp_ok, t, w'))
    × Delivers ctx.request.mtu ctx.payload_meta.size parts t.sent
    × Genuine byte_at t.sent
start_sending_data-Delivers_example =
    start_sending_data-Delivers io floats ctx parts 450 0 steady (omega arith) (omega arith)
      (omega arith) refl refl floats-RejectsZero (omega arith) (omega arith) (omega arith)
      (omega arith) refl (refl, (refl, tt)) parts-AllWithin (omega arith)

-- In the middle of an interval that ends at byte 450, with 250 bytes of it sent.
abbrev halfway : Transfer
halfway = record {
  bytes_sent = 250;
  sent_in_interval = 250;
  bytes_in_interval = 450;
  nof_packets_per_round = 1;
  nof_csp_packets = 3;
  ctx = ctx;
  sent = [];
}

compute_transfer_size-omits_example :
    (n : ℕ) × (compute_transfer_size ctx ≡ some n)
    × (n + omitted ctx.request.mtu parts ≡ total_bytes ctx.request.mtu ctx.payload_meta.size parts)
compute_transfer_size-omits_example =
    compute_transfer_size-omits ctx parts [] (omega arith) (omega arith) (omega arith) refl refl
      parts-AllWithin (inr (omega arith), (inl refl, tt)) (ground arith)

abbrev setup : SetupIo ℕ
setup = record {
  get_payload_meta = λ old id w. (true, ctx.payload_meta, w);
  csp_send = λ resp w. w + 1;
}

-- A request for the two intervals that wants a message every 300 milliseconds.
abbrev packet : RequestPacket
packet = record {
  request = record (ctx.request) { keep_alive_interval = 300 };
  id_dst = 1;
  conn_src = 2;
}

serve_request-Delivers_example :
    (ctx' : TransferCtx) × (sent : List DataPacket) × (w' : ℕ) × (serve_request io setup
        little_endian floats 450 ctx packet 0
      ≡ some (ctx', sent, w'))
    × (ctx'.keep_running ≡ false)
    × Delivers packet.request.mtu ctx.payload_meta.size parts sent
    × Genuine byte_at sent
serve_request-Delivers_example =
    serve_request-Delivers io steady setup little_endian floats 450 ctx packet ctx.payload_meta
      parts 0 0 refl refl (omega arith) (omega arith) (omega arith) floats-RejectsZero (omega arith)
      (omega arith) (omega arith) (omega arith) refl (refl, (refl, tt)) parts-AllWithin
      (omega arith)

-- The same transfer, stopped, with two intervals left.
abbrev interrupted : Transfer
interrupted = record halfway { ctx = record ctx { keep_running = false } }

stopped-sends_nothing_example :
    (u : Transfer) × (v : Transfer) × (w₁ : ℕ) × (w₂ : ℕ) × (os_hal_start_poll_operation io 1
        interrupted 0
      ≡ some (u, w₁))
    × (send_intervals io 450 2 0 u w₁ ≡ some (v, w₂))
    × (v.sent ≡ interrupted.sent)
    × (v.ctx.keep_running ≡ false)
stopped-sends_nothing_example = stopped-sends_nothing io (λ c w h. h) 0 450 2 0 interrupted 0 refl

-- No message of the client has come for 5 seconds.
abbrev unattended : Transfer
unattended = record halfway {
  ctx = record ctx { request = record (ctx.request) { keep_alive_interval = 100 } };
}

lost_client-sends_last_example :
    (u : Transfer) × (v : Transfer) × (w₁ : ℕ) × (w₂ : ℕ) × (os_hal_start_poll_operation io 1
        unattended 5000
      ≡ some (u, w₁))
    × (send_intervals io 450 1 1 u w₁ ≡ some (v, w₂))
    × (v.sent ≡ (last_sent io (λ c w h. h) unattended 5000).sent)
    × (v.ctx.keep_running ≡ false)
lost_client-sends_last_example =
    lost_client-sends_last io (λ c w h. h) unattended 5000 0 450 1 1 (omega arith) refl refl refl
      refl refl

-- A port at which one connection comes, without a request; the world is the rounds that are left, and a
-- connection that is open.
abbrev quiet_port : Listening ℕ
quiet_port = record {
  exit_server = λ w. (w == 0, w);
  csp_accept = λ w. (4, w - 1);
  csp_read = λ conn w. (none, w);
  csp_close = λ conn w. w + 1000;
}

quiet_run : dtp_server_run io setup little_endian quiet_port floats 450 5 ctx 3 ≡ some (ctx, 0)
unfolding dtp_server_run
quiet_run = refl
