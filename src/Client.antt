-- ===== src/Client.antt =====
-- src/dtp_client.c, and the two messages of src/dtp_protocol.c: preparing a session, the request to the
-- server and the receiver loop.
pub mod Prepare
pub mod Wire
pub mod Outcome
pub mod Bounded
pub mod Timing
pub mod Arrivals
pub mod Early
pub mod Unfinished
use libdtp.Common.{
  ℕ, zero, suc, ◌+◌, ◌-◌, ◌*◌, ◌/◌, ◌%◌, ◌^◌, Bool, true, false, not, ◌&&◌, ◌||◌, Option, none,
  some, ◌==◌, ltb, leb, if◌then◌else◌, add32, sub32, mul32, u16, u32, u32_max, ◌>>=◌, Host, htobe32,
}
use libdtp.Session.{
  DtpResult, dtp_ok, dtp_err, dtp_cancelled, connection_failed, MetaReq, MetaResp, Session, Packet,
  chunk_size,
}
use libdtp.Protocol.{Floats, DtpMetrics, compute_dtp_metrics}
use libdtp.Pool.{Outside, call_hook}
use libdtp.Vmem.Requests.{VmemNet, vmem_request_dtp_send_alive}

-- The network, the clock and the other tasks, as the client uses them. A connection is a number, 0 for
-- NULL; `vmem` is the network of the alive messages. `others` is what the other tasks do to the session until it is read next.
pub record Network (W : Type 0) : Type 0 where
  pub csp_connect : ℕ → W → ℕ × W
  pub csp_buffer_get : W → Bool × W
  pub csp_send : ℕ → MetaReq → W → W
  pub csp_read : ℕ → W → Option MetaResp × W
  pub csp_bind : W → Bool × W
  pub csp_recvfrom : ℕ → W → Option Packet × W
  pub csp_socket_close : W → W
  pub csp_get_ms : W → ℕ × W
  pub vmem : VmemNet W
  pub others : Session → W → Session × W

-- The locals of `start_receiving_data`, and the session.
pub record Receiver : Type 0 where
  pub session : Session
  pub result : DtpResult
  pub packet_seq : ℕ
  pub prev_packet_seq : ℕ
  pub idle_ms : ℕ
  pub nof_packets : ℕ
  pub now_ts_ms : ℕ
  pub expected_eot_ts_ms : ℕ
  pub last_alive : ℕ

-- What the request holds on the wire: the session's, but for a field that goes through `htobe32`.
abbrev pub wire_request : Host → MetaReq → MetaReq
wire_request host m = record m { keep_alive_interval = u16 (htobe32 host m.keep_alive_interval) }

-- The expected end of the transfer after a packet at `now`.
unfoldable pub adjust_eot : DtpMetrics → ℕ → ℕ → ℕ → ℕ → ℕ → ℕ
adjust_eot metric chunk start_ts nof_packets now eot =
    let ts_diff = sub32 now start_ts in
    let throughput = u32 (nof_packets * chunk) / ts_diff in
    let adj_eot = u32 (chunk * metric.nof_packets % 2 ^ 64 / throughput) in
    let adjust = sub32 (add32 start_ts adj_eot) eot in
    if ts_diff == 0
    then eot
    else if throughput == 0
    then eot
    else if adjust == 0
    then eot
    else add32 eot adjust

module _ {W : Type 0} (out : Outside W) (net : Network W) where
  unfoldable pub send_remote_meta_req : Host → Session → W → DtpResult × W
  send_remote_meta_req host s w =
      let (packet, w₁) = net.csp_buffer_get w in
      if packet
      then (dtp_ok, net.csp_send s.conn (wire_request host s.request_meta) w₁)
      else (dtp_err, w₁)

  unfoldable pub read_remote_meta_resp : Session → W → DtpResult × Session × W
  read_remote_meta_resp s w =
      let (packet, w₁) = net.csp_read s.conn w in
      elim packet [
        | some resp ↦ (dtp_ok, record s { payload_size = resp.total_payload_size }, w₁)
        | none ↦ (dtp_err, record s { dtp_errno = connection_failed }, w₁)
      ]

  -- `if (keep_alive_interval > 0 && ..)`: the time of the last message, and the world.
  unfoldable pub keep_alive : Session → ℕ → ℕ → W → ℕ × W
  keep_alive s now last_alive w =
      let interval = s.request_meta.keep_alive_interval in
      if ltb 0 interval && leb interval (sub32 now last_alive)
      then (now, (vmem_request_dtp_send_alive net.vmem s.node w).1)
      else (last_alive, w)

  -- The result of the hook is only logged.
  unfoldable pub data_hook : Packet → Session → W → Session × W
  data_hook p s w =
      call_hook s.hooks.on_data_packet
        (λ h. let (_, s', w') = out.on_data_packet h p s w in (s', w')) (s, w)

  module _ (metric : DtpMetrics) (start_ts : ℕ) where
    -- The body of the loop behind the test for duplicates. The flag says whether the loop goes on.
    unfoldable pub accept_packet : Packet → Receiver → W → Bool × Receiver × W
    unfolding adjust_eot keep_alive data_hook
    accept_packet p r w =
        let nof_packets = add32 r.nof_packets 1 in
        let s = record (r.session) {
          bytes_received = add32 r.session.bytes_received (sub32 p.packet_length 8);
        } in
        let eot =
          adjust_eot metric (chunk_size s.request_meta.mtu) start_ts nof_packets r.now_ts_ms
            r.expected_eot_ts_ms in
        let (alive, w₁) = keep_alive s r.now_ts_ms r.last_alive w in
        let (s', w₂) = data_hook p s w₁ in
        let r' = record r {
          session = s';
          prev_packet_seq = r.packet_seq;
          nof_packets = nof_packets;
          expected_eot_ts_ms = eot;
          last_alive = alive;
        } in
        if leb metric.last_packet r.packet_seq
        then (
          false,
          record r' {
            result = if s'.bytes_received == s'.payload_size then dtp_ok else dtp_cancelled;
          },
          w₂,
        )
        else (true, r', w₂)

    -- The divisor is 0 at an MTU of 8 only, at which there are no metrics to receive by.
    unfoldable pub receive_packet : Packet → Receiver → W → Bool × Receiver × W
    unfolding accept_packet
    receive_packet p r w =
        let (now, w₁) = net.csp_get_ms w in
        let seq = u32 (p.data32_0 / chunk_size r.session.request_meta.mtu) in
        let r' = record r { idle_ms = 0; now_ts_ms = now; packet_seq = seq } in
        if seq == r.prev_packet_seq then (true, r', w₁) else accept_packet p r' w₁

    unfoldable pub receive_timeout : Receiver → W → Bool × Receiver × W
    receive_timeout r w =
        let idle = add32 r.idle_ms metric.round_time_ms in
        if ltb (r.session.timeout * 1000) idle
        then (
          false,
          record r {
            idle_ms = idle;
            result = dtp_cancelled;
            session = record (r.session) { active = false };
          },
          w,
        )
        else (true, record r { idle_ms = idle }, w)

    abbrev pub receive_event : Option Packet → Receiver → W → Bool × Receiver × W
    receive_event none r w = receive_timeout r w
    receive_event (some p) r w = receive_packet p r w

    -- A round of the loop.
    unfoldable pub receive_round : Receiver → W → Bool × Receiver × W
    unfolding receive_packet receive_timeout
    receive_round r w =
        let (s, w₁) = net.others r.session w in
        let r₁ = record r { session = s } in
        let (packet, w₂) = net.csp_recvfrom (mul32 metric.round_time_ms 2) w₁ in
        if s.active
        then receive_event packet r₁ w₂
        else (false, record r₁ { result = dtp_cancelled }, w₁)

    abbrev pub waits : Receiver → Bool
    waits r =
        ltb (add32 r.now_ts_ms r.idle_ms) r.expected_eot_ts_ms
        && ltb r.nof_packets metric.nof_packets

    -- The loop; `none` is out of fuel.
    unfoldable pub receive_loop : ℕ → Receiver → W → Option (Receiver × W)
    receive_loop zero r w = none
    receive_loop (suc fuel) r w =
        let (go_on, r', w') = receive_round r w in
        let later = receive_loop fuel r' w' in
        if waits r then (if go_on then later else some (r', w')) else some (r, w)

  abbrev pub first_receiver : DtpMetrics → Session → ℕ → Receiver
  first_receiver metric s now = record {
    session = s;
    result = dtp_cancelled;
    packet_seq = 0;
    prev_packet_seq = u32_max;
    idle_ms = 0;
    nof_packets = 0;
    now_ts_ms = now;
    expected_eot_ts_ms = u32 (now + metric.total_duration_ms + metric.round_time_ms * 2);
    last_alive = now;
  }

  -- The part behind `csp_bind`. `none` is a division by zero in the metrics, or out of fuel.
  unfoldable pub receive_bound : Floats → ℕ → Session → W → Option (DtpResult × Session × W)
  unfolding receive_loop
  receive_bound floats fuel s w = do
    metric ← compute_dtp_metrics floats s.request_meta s.payload_size
    let now = net.csp_get_ms w
    r ← receive_loop metric now.0 fuel (first_receiver metric s now.0) now.1
    let done =
        call_hook r.0.session.hooks.on_end
          (λ h. out.on_end h r.0.session (net.csp_socket_close r.1))
          (r.0.session, net.csp_socket_close r.1)
    some (r.0.result, done.0, done.1)

  unfoldable pub start_receiving_data : Floats → ℕ → Session → W → Option (DtpResult × Session × W)
  unfolding receive_bound
  start_receiving_data floats fuel s w =
      let (now, w₁) = net.csp_get_ms w in
      let s₁ = record s { start_ts = now } in
      let (s₂, w₂) = call_hook s₁.hooks.on_start (λ h. out.on_start h s₁ w₁) (s₁, w₁) in
      let s₃ = record s₂ { active = true } in
      let (bound, w₃) = net.csp_bind w₂ in
      if bound then receive_bound floats fuel s₃ w₃ else some (dtp_err, s₃, w₃)

  unfoldable pub dtp_vmem_client_main : Floats → ℕ → Session → W → Option (DtpResult × Session × W)
  unfolding start_receiving_data
  dtp_vmem_client_main floats fuel s w = start_receiving_data floats fuel s w

  -- Behind a connection: the request, the response, the data; each failure ends it.
  unfoldable pub transfer_over : Floats → Host → ℕ → Session → W → Option (DtpResult × Session × W)
  unfolding send_remote_meta_req read_remote_meta_resp start_receiving_data
  transfer_over floats host fuel s w =
      let (sent, w₁) = send_remote_meta_req host s w in
      let (read, s₂, w₂) = read_remote_meta_resp s w₁ in
      let received = start_receiving_data floats fuel s₂ w₂ in
      elim sent [
        | dtp_ok ↦ elim read [ dtp_ok ↦ received | other ↦ some (other, s₂, w₂) ]
        | other ↦ some (other, s, w₁)
      ]

  abbrev pub close_with : ℕ → DtpResult × Session × W → DtpResult × Session × W
  close_with conn (r, s, w) = (r, s, out.csp_close conn w)

  unfoldable pub dtp_start_transfer :
      Floats → Host → ℕ → Session → W → Option (DtpResult × Session × W)
  unfolding transfer_over
  dtp_start_transfer floats host fuel s w =
      let (conn, w₁) = net.csp_connect s.node w in
      let run = transfer_over floats host fuel (record s { conn = conn }) w₁ in
      if conn == 0
      then some (dtp_err, record s { dtp_errno = connection_failed }, out.csp_close 0 w₁)
      else (run >>= λ r. some (close_with conn r))
