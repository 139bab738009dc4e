-- ===== src/Server/Setup.antt =====
-- src/dtp_server.c: a request that arrives, in `setup_server_transfer` and `dtp_server_run`.
pub mod Serve
use libdtp.Common.{
  ℕ, List, [], Bool, true, false, Option, none, some, if◌then◌else◌, u16, Host, htobe32, ◌>>=◌,
}
use libdtp.Session.{MetaReq, MetaResp}
use libdtp.Protocol.{Floats}
use libdtp.Server.{
  PayloadMeta, TransferCtx, DataPacket, ServerIo, compute_transfer_size, start_sending_data,
}

-- A request packet: its data, and the addresses of its header and of its connection.
pub record RequestPacket : Type 0 where
  pub request : MetaReq
  pub id_dst : ℕ
  pub conn_src : ℕ

-- What serving a request asks of the outside besides the transfer. `get_payload_meta`, which a platform
-- replaces by its own, writes to the description that it is given.
pub record SetupIo (W : Type 0) : Type 0 where
  pub get_payload_meta : PayloadMeta → ℕ → W → Bool × PayloadMeta × W
  pub csp_send : MetaResp → W → W

-- The context with the request in it.
abbrev pub with_request : Host → TransferCtx → RequestPacket → TransferCtx
with_request host ctx packet = record ctx {
  request = record (packet.request) {
    keep_alive_interval = u16 (htobe32 host packet.request.keep_alive_interval);
  };
  srv_node = packet.id_dst;
  dest_port = packet.conn_src;
}

abbrev pub response : TransferCtx → MetaResp
response ctx = record {
  size_in_bytes = ctx.size_in_bytes;
  total_payload_size = ctx.payload_meta.size;
}

module _ {W : Type 0} (io : ServerIo W) (setup : SetupIo W) (host : Host) where
  -- The response, if there is one, and the context. `none` is a read past the eight intervals.
  unfoldable pub setup_server_transfer :
      TransferCtx → RequestPacket → W → Option (Option MetaResp × TransferCtx × W)
  setup_server_transfer ctx packet w =
      let ctx₁ = with_request host ctx packet in
      let (found, payload, w₁) =
        setup.get_payload_meta ctx₁.payload_meta ctx₁.request.payload_id w in
      let ctx₂ = record ctx₁ { payload_meta = payload } in
      let respond =
        (compute_transfer_size ctx₂ >>= λ size.
        let ctx₃ : TransferCtx = record ctx₂ { size_in_bytes = size } in
        let (buffer, w₂) = io.csp_buffer_get w₁ in
        some (if buffer then some (response ctx₃) else none, ctx₃, w₂)) in
      if found then respond else some (none, ctx₂, w₁)

  -- The rest of the round of `dtp_server_run`: the context, the packets sent, and the world.
  abbrev pub serve_response :
      Floats → ℕ → Option MetaResp × TransferCtx × W → Option (TransferCtx × List DataPacket × W)
  serve_response floats fuel (none, ctx, w) = some (record ctx { keep_running = false }, [], w)
  serve_response floats fuel (some resp, ctx, w) = do
    r ←
        start_sending_data io floats fuel (record ctx { keep_running = true })
          (setup.csp_send resp w)
    some (record (r.1.ctx) { keep_running = false }, r.1.sent, r.2)

  unfoldable pub serve_request :
      Floats → ℕ → TransferCtx → RequestPacket → W → Option (TransferCtx × List DataPacket × W)
  unfolding setup_server_transfer start_sending_data
  serve_request floats fuel ctx packet w =
      setup_server_transfer ctx packet w >>= serve_response floats fuel
