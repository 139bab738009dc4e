-- ===== src/Server.antt =====
-- src/dtp_server.c: the server's transfer, with the poll loop of src/dtp_os_hal.c.
-- `W` is the world outside: buffers, payloads, the clock and the other tasks.
pub mod Poll
pub mod Delivery
pub mod Ranges
pub mod Intervals
pub mod Size
pub mod Setup
pub mod Stopped
pub mod Run
use libdtp.Common.{
  ℕ, zero, suc, ◌+◌, ◌-◌, ◌*◌, ◌/◌, ◌%◌, ◌^◌, List, [], ◌∷◌, ◌++◌, Bool, true, false, not, ◌&&◌,
  ◌||◌, Option, none, some, ◌==◌, ltb, leb, if◌then◌else◌, get_elem?, set, add32, sub32, mul32, u16,
  u32, u32_max, ◌>>=◌,
}
use libdtp.Session.{Interval, MetaReq, MetaResp, chunk32, chunk_size, DtpResult, dtp_ok}
use libdtp.Protocol.{Floats, DtpMetrics, compute_dtp_metrics}

-- `dtp_payload_meta_t`
pub record PayloadMeta : Type 0 where
  pub base : ℕ
  pub size : ℕ
  pub read : ℕ
  pub completed : ℕ
  pub context : ℕ

-- `dtp_server_transfer_ctx_t`
pub record TransferCtx : Type 0 where
  pub srv_node : ℕ
  pub dest_port : ℕ
  pub size_in_bytes : ℕ
  pub keep_running : Bool
  pub request : MetaReq
  pub payload_meta : PayloadMeta
  pub client_alive_ts : ℕ

-- A packet that `csp_sendto` is given: its length, its first two words, the bytes of the payload
-- behind them, and its addresses.
pub record DataPacket : Type 0 where
  pub packet_length : ℕ
  pub offset : ℕ
  pub session_id : ℕ
  pub payload : List ℕ
  pub src : ℕ
  pub dst : ℕ

-- `dtp_server_transfer_t`, and the packets sent so far.
pub record Transfer : Type 0 where
  pub bytes_sent : ℕ
  pub sent_in_interval : ℕ
  pub bytes_in_interval : ℕ
  pub nof_packets_per_round : ℕ
  pub nof_csp_packets : ℕ
  pub ctx : TransferCtx
  pub sent : List DataPacket

-- What the transfer asks of the outside. `others` is what the other tasks do to the shared context
-- until it is read next; `read` returns the number of bytes read, and what the packet holds behind its
-- first two words after the call.
pub record ServerIo (W : Type 0) : Type 0 where
  pub csp_buffer_get : W → Bool × W
  pub read : PayloadMeta → ℕ → ℕ → ℕ → W → ℕ × List ℕ × W
  pub completed : PayloadMeta → ℕ → ℕ → W → W
  pub csp_get_ms : W → ℕ × W
  pub others : TransferCtx → W → TransferCtx × W

-- The sum of `compute_transfer_size`.
abbrev pub transfer_bytes : ℕ → ℕ → Interval → ℕ
transfer_bytes payload_size chunk i =
    if i.end == u32_max
    then sub32 payload_size (mul32 i.start chunk)
    else sub32 (mul32 i.end chunk) (mul32 i.start chunk)

unfoldable pub sum_transfer : ℕ → ℕ → ℕ → List Interval → ℕ → Option ℕ
sum_transfer payload_size chunk zero l acc = some acc
sum_transfer payload_size chunk (suc n) [] acc = none
sum_transfer payload_size chunk (suc n) (i ∷ rest) acc =
    sum_transfer payload_size chunk n rest (add32 acc (transfer_bytes payload_size chunk i))

unfoldable pub compute_transfer_size : TransferCtx → Option ℕ
unfolding sum_transfer
compute_transfer_size ctx =
    sum_transfer ctx.payload_meta.size (chunk32 ctx.request.mtu) ctx.request.nof_intervals
      ctx.request.intervals 0

-- The bytes of the interval that are not sent yet, and the length of the next packet.
abbrev pub remaining : Transfer → ℕ
remaining t = sub32 t.bytes_in_interval t.sent_in_interval

abbrev pub is_full : Transfer → Bool
is_full t = ltb (chunk_size t.ctx.request.mtu) (remaining t)

abbrev pub next_length : Transfer → ℕ
next_length t = u16 (if is_full t then t.ctx.request.mtu else remaining t + 8)

-- The bytes that it asks the payload for.
abbrev pub asked_length : Transfer → ℕ
asked_length t = sub32 (next_length t) 8

-- The transfer after a packet with the bytes `bytes`, for which the payload has given `n`.
abbrev pub after_packet : Transfer → ℕ → List ℕ → Transfer
after_packet t n bytes = record t {
  bytes_sent = add32 t.bytes_sent n;
  sent_in_interval = add32 t.sent_in_interval n;
  nof_csp_packets = add32 t.nof_csp_packets 1;
  sent =
      t.sent
      ++ (record {
        packet_length = next_length t;
        offset = t.bytes_sent;
        session_id = t.ctx.request.session_id;
        payload = bytes;
        src = t.ctx.srv_node;
        dst = t.ctx.dest_port;
      }
          ∷ []);
}

abbrev pub stop : Transfer → Transfer
stop t = record t { ctx = record (t.ctx) { keep_running = false } }

-- `now - client_alive_ts > keep_alive_interval * 2U + 500`
abbrev pub client_lost : Transfer → ℕ → Bool
client_lost t now =
    ltb (u32 (t.ctx.request.keep_alive_interval * 2 + 500)) (sub32 now t.ctx.client_alive_ts)

module _ {W : Type 0} (io : ServerIo W) where
  abbrev pub observe : Transfer → W → Transfer × W
  observe t w = let (c, w') = io.others t.ctx w in (record t { ctx = c }, w')

  unfoldable pub check_alive : Transfer → W → Transfer × W
  check_alive t w =
      let (now, w') = io.csp_get_ms w in
      if ltb 0 t.ctx.request.keep_alive_interval
      then (if client_lost t now then (stop t, w') else (t, w'))
      else (t, w)

  -- The body of the poll loop. The flag says whether the loop goes on with its next round, which it
  -- does not after a missing buffer, a failed read or the last packet of the interval.
  unfoldable pub send_packet : Transfer → W → Bool × Transfer × W
  unfolding check_alive
  send_packet t w =
      let (buffer, w₁) = io.csp_buffer_get w in
      let (n, bytes, w₂) =
        io.read t.ctx.payload_meta t.ctx.request.payload_id t.bytes_sent (asked_length t) w₁ in
      let (t', w₃) = check_alive (after_packet t n bytes) w₂ in
      if not buffer then (false, t, w₁) else if n == 0 then (false, t, w₂) else (is_full t, t', w₃)

  -- The rounds left are `nof_packets_per_round - pkt_cnt`.
  unfoldable pub poll_rounds : ℕ → Transfer → W → Transfer × W
  poll_rounds zero t w = (t, w)
  poll_rounds (suc n) t w =
      let (t₁, w₁) = observe t w in
      let (go_on, t₂, w₂) = send_packet t₁ w₁ in
      let later = poll_rounds n t₂ w₂ in
      if not t₁.ctx.keep_running then (t₁, w₁) else if go_on then later else (t₂, w₂)

  -- `dtp_server_poll_loop`: whether to carry on.
  unfoldable pub dtp_server_poll_loop : Transfer → W → Bool × Transfer × W
  unfolding poll_rounds send_packet
  dtp_server_poll_loop t w =
      let (t₁, w₁) = poll_rounds t.nof_packets_per_round t w in
      let (t₂, w₂) = observe t₁ w₁ in
      (ltb t₂.sent_in_interval t₂.bytes_in_interval && t₂.ctx.keep_running, t₂, w₂)

  -- The loop of `os_hal_start_poll_operation`; `none` is out of fuel. The sleep between two polls
  -- changes nothing of the transfer.
  unfoldable pub os_hal_start_poll_operation : ℕ → Transfer → W → Option (Transfer × W)
  os_hal_start_poll_operation zero t w = none
  os_hal_start_poll_operation (suc fuel) t w =
      let (carry_on, t', w') = dtp_server_poll_loop t w in
      let later = os_hal_start_poll_operation fuel t' w' in
      if carry_on then later else some (t', w')

-- The range of bytes of an interval.
unfoldable pub interval_stop : ℕ → ℕ → ℕ → ℕ
interval_stop payload_size chunk end =
    let stop_byte = u32 ((end + 1) * chunk) in
    if end == u32_max
    then payload_size
    else if ltb payload_size stop_byte
    then payload_size
    else stop_byte

-- The `end` that replaces `UINT32_MAX` in the request.
unfoldable pub fixed_end : ℕ → ℕ → ℕ
fixed_end payload_size chunk =
    if payload_size % chunk == 0
    then sub32 (u32 (payload_size / chunk)) 1
    else sub32 (u32 (payload_size / chunk + 1)) 1

-- The range of an interval, as `start_sending_data` sets it before it polls.
abbrev pub enter_interval : Transfer → ℕ → Interval → Transfer
enter_interval t i v =
    let chunk = chunk_size t.ctx.request.mtu in
    let payload_size = t.ctx.payload_meta.size in
    let begin = u32 (v.start * chunk) in
    let v' : Interval =
      if v.end == u32_max then record v { end = fixed_end payload_size chunk } else v in
    record t {
      ctx = record (t.ctx) {
        request = record (t.ctx.request) { intervals = set t.ctx.request.intervals i v' };
      };
      sent_in_interval = 0;
      bytes_sent = begin;
      bytes_in_interval = sub32 (interval_stop payload_size chunk v.end) begin;
    }

-- The locals before the first interval.
abbrev pub first_transfer : DtpMetrics → TransferCtx → ℕ → Transfer
first_transfer metric ctx now = record {
  bytes_sent = 0;
  sent_in_interval = 0;
  bytes_in_interval = 0;
  nof_packets_per_round = metric.packets_per_round;
  nof_csp_packets = 0;
  ctx = record ctx { client_alive_ts = now };
  sent = [];
}

module _ {W : Type 0} (io : ServerIo W) where
  -- The loop over the intervals, `n` of them left, at index `i`. `fuel` bounds the polls of each.
  unfoldable pub send_intervals : ℕ → ℕ → ℕ → Transfer → W → Option (Transfer × W)
  send_intervals fuel zero i t w = some (t, w)
  send_intervals fuel (suc n) i t w =
      let (t₁, w₁) = observe io t w in
      let rest =
        (get_elem? t₁.ctx.request.intervals i >>= λ v.
        os_hal_start_poll_operation io fuel (enter_interval t₁ i v) w₁ >>= λ r.
        send_intervals fuel n (i + 1) r.0 r.1) in
      if t₁.ctx.keep_running then rest else some (t₁, w₁)

  -- `if (completed) completed(..)`
  abbrev pub complete : Transfer → W → W
  complete t w =
      let m = t.ctx.payload_meta in
      if m.completed == 0 then w else io.completed m t.ctx.request.payload_id t.bytes_sent w

  unfoldable pub start_sending_data :
      Floats → ℕ → TransferCtx → W → Option (DtpResult × Transfer × W)
  unfolding send_intervals
  start_sending_data floats fuel ctx w = do
    metric ← compute_dtp_metrics floats ctx.request ctx.payload_meta.size
    let now = io.csp_get_ms w
    r ← send_intervals fuel ctx.request.nof_intervals 0 (first_transfer metric ctx now.0) now.1
    some (dtp_ok, r.0, complete r.0 r.1)
