-- ===== src/Server/Setup/Serve.antt =====
-- A request served from its arrival to its last packet.
use libdtp.Common.{
  ℕ, zero, suc, ◌≤◌, ◌<◌, ◌^◌, ◌≡◌, refl, List, [], ◌∷◌, true, false, some, arith, length, Host,
  u16, htobe32, add32,
}
use libdtp.Session.{Interval, chunk32}
use libdtp.Protocol.{Floats}
use libdtp.Protocol.Metrics.{RejectsZero}
use libdtp.Server.{
  PayloadMeta, TransferCtx, DataPacket, ServerIo, sum_transfer, transfer_bytes,
  compute_transfer_size,
}
use libdtp.Server.Poll.{IsSteady, Genuine}
use libdtp.Server.Ranges.{Holds, AllWithin, Delivers}
use libdtp.Server.Intervals.{start_sending_data-Delivers}
use libdtp.Server.Setup.{
  RequestPacket, SetupIo, with_request, response, setup_server_transfer, serve_request,
}

sum_transfer_ends :
    (size chunk n : ℕ) (l : List Interval) (acc : ℕ)
    → n ≤ length l
    → (k : ℕ) × (sum_transfer size chunk n l acc ≡ some k)
unfolding sum_transfer
sum_transfer_ends size chunk zero l acc h = (acc, refl)
sum_transfer_ends size chunk (suc n) [] acc h = absurd (omega arith)
sum_transfer_ends size chunk (suc n) (v ∷ l) acc h =
    sum_transfer_ends size chunk n l (add32 acc (transfer_bytes size chunk v)) (omega arith)

pub transfer_size_of :
    (ctx : TransferCtx)
    → ctx.request.nof_intervals ≤ length ctx.request.intervals
    → (k : ℕ) × (compute_transfer_size ctx ≡ some k)
unfolding compute_transfer_size
transfer_size_of ctx h =
    sum_transfer_ends ctx.payload_meta.size (chunk32 ctx.request.mtu) ctx.request.nof_intervals
      ctx.request.intervals 0 h

module _ {W : Type 0} (io : ServerIo W) (steady : IsSteady io) (setup : SetupIo W)
    (host : Host) where
  -- The context once the payload is known.
  abbrev pub prepared : TransferCtx → RequestPacket → PayloadMeta → ℕ → TransferCtx
  prepared ctx packet payload size = record (with_request host ctx packet) {
    payload_meta = payload;
    size_in_bytes = size;
  }

  setup_server_transfer-responds :
      (ctx : TransferCtx) (packet : RequestPacket) (w w₁ : W) (payload : PayloadMeta)
      → setup.get_payload_meta ctx.payload_meta packet.request.payload_id w ≡ (true, payload, w₁)
      → packet.request.nof_intervals ≤ length packet.request.intervals
      → (size : ℕ) × (w₂ : W) × (setup_server_transfer io setup host ctx packet w
          ≡ some (
            some (response (prepared ctx packet payload size)),
            prepared ctx packet payload size,
            w₂,
          ))
  unfolding setup_server_transfer
  setup_server_transfer-responds ctx packet w w₁ payload e h =
      let ctx₂ : TransferCtx = record (with_request host ctx packet) { payload_meta = payload } in
      let (size, k) = transfer_size_of ctx₂ h in
      (size, (io.csp_buffer_get w₁).1, rw (e, k, steady.buffers w₁) refl)

  -- A request whose payload is known and whose keep-alive interval arrives as 0, with an MTU above 8, a
  -- positive throughput, a payload below 2 ^ 32 bytes and one or more intervals that each hold a byte
  -- of it, is served to its end, given fuel for the payload's bytes, if nothing disturbs the transfer
  -- and the floating point test rejects a throughput of 0. The packets sent carry each interval's
  -- bytes, in order and once, as offsets and lengths tell, the bytes in each are those of the payload at
  -- its offset, and the server is then free again.
  pub serve_request-Delivers :
      (floats : Floats) (fuel : ℕ) (ctx : TransferCtx) (packet : RequestPacket)
      (payload : PayloadMeta) (vs : List Interval) (w w₁ : W)
      → setup.get_payload_meta ctx.payload_meta packet.request.payload_id w ≡ (true, payload, w₁)
      → u16 (htobe32 host packet.request.keep_alive_interval) ≡ 0
      → 8 < packet.request.mtu
      → packet.request.mtu < 2 ^ 16
      → payload.size < 2 ^ 32
      → RejectsZero floats
      → 0 < packet.request.throughput
      → packet.request.throughput < 2 ^ 32
      → 0 < length vs
      → length vs ≤ length packet.request.intervals
      → packet.request.nof_intervals ≡ length vs
      → Holds packet.request.intervals 0 vs
      → AllWithin packet.request.mtu payload.size vs
      → payload.size ≤ fuel
      → (ctx' : TransferCtx) × (sent : List DataPacket) × (w' : W) × (serve_request io setup host
            floats fuel ctx packet w
          ≡ some (ctx', sent, w'))
        × (ctx'.keep_running ≡ false)
        × Delivers packet.request.mtu payload.size vs sent
        × Genuine (steady.content payload packet.request.payload_id) sent
  unfolding serve_request
  serve_request-Delivers floats fuel ctx packet payload vs w w₁ e ka lo hi small z t0 t1 n0 n1 n h a
        f =
      let (size, w₂, q) =
        setup_server_transfer-responds ctx packet w w₁ payload e (omega (arith, n, n1)) in
      let c : TransferCtx = record (prepared ctx packet payload size) { keep_running = true } in
      let (t, w', s, d, g) =
        start_sending_data-Delivers io floats c vs fuel
          (setup.csp_send (response (prepared ctx packet payload size)) w₂) steady lo hi small refl
          ka z t0 t1 n0 n1 n h a f in
      (record (t.ctx) { keep_running = false }, t.sent, w', rw (q, s) refl, refl, d, g)
