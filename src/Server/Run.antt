-- ===== src/Server/Run.antt =====
-- src/dtp_server.c: the loop of `dtp_server_run`, which waits for connections.
use libdtp.Common.{
  ℕ, zero, suc, ◌≡◌, refl, List, Bool, true, false, Option, none, some, ◌==◌, if◌then◌else◌, Host,
  ◌>>=◌, inl, inr, Bool-cases,
}
use libdtp.Session.{DtpResult, MetaResp}
use libdtp.Protocol.{Floats}
use libdtp.Server.{TransferCtx, DataPacket, Transfer, ServerIo, start_sending_data}
use libdtp.Server.Setup.{
  RequestPacket, SetupIo, serve_request, serve_response, setup_server_transfer,
}

-- The socket on port 7, and the flag of the caller. A connection is a number, 0 for NULL.
pub record Listening (W : Type 0) : Type 0 where
  pub exit_server : W → Bool × W
  pub csp_accept : W → ℕ × W
  pub csp_read : ℕ → W → Option RequestPacket × W
  pub csp_close : ℕ → W → W

module _ {W : Type 0} (io : ServerIo W) (setup : SetupIo W) (host : Host) (port : Listening W)
    (floats : Floats) (fuel : ℕ) where
  -- A connection whose request does not come is not closed.
  abbrev pub serve_connection :
      TransferCtx → ℕ → Option RequestPacket × W → Option (TransferCtx × W)
  serve_connection ctx conn (none, w) = some (ctx, w)
  serve_connection ctx conn (some packet, w) = do
    r ← serve_request io setup host floats fuel ctx packet w
    some (r.0, port.csp_close conn r.2)

  -- A round of the loop.
  unfoldable pub server_round : TransferCtx → W → Option (TransferCtx × W)
  unfolding serve_request
  server_round ctx w =
      let (conn, w₁) = port.csp_accept w in
      if conn == 0 then some (ctx, w₁) else serve_connection ctx conn (port.csp_read conn w₁)

  -- The loop; `none` is out of fuel, or undefined behaviour in a round.
  unfoldable pub dtp_server_run : ℕ → TransferCtx → W → Option (TransferCtx × W)
  unfolding server_round
  dtp_server_run zero ctx w = none
  dtp_server_run (suc n) ctx w =
      let (exit, w₁) = port.exit_server w in
      let later = (server_round ctx w₁ >>= λ r. dtp_server_run n r.0 r.1) in
      if exit then some (ctx, w₁) else later

  unfoldable pub dtp_server_main : ℕ → TransferCtx → W → Option (ℕ × TransferCtx × W)
  unfolding dtp_server_run
  dtp_server_main n ctx w = dtp_server_run n ctx w >>= λ r. some (0, r.0, r.1)

  -- The context between two transfers.
  abbrev Idle : Option (TransferCtx × W) → Type 0
  Idle none = Unit {0}
  Idle (some (ctx, w)) = ctx.keep_running ≡ false

  abbrev finished : DtpResult × Transfer × W → Option (TransferCtx × List DataPacket × W)
  finished r = some (record (r.1.ctx) { keep_running = false }, r.1.sent, r.2)

  abbrev closed : ℕ → TransferCtx × List DataPacket × W → Option (TransferCtx × W)
  closed conn s = some (s.0, port.csp_close conn s.2)

  sending-Idle :
      (conn : ℕ) (o : Option (DtpResult × Transfer × W)) → Idle (o >>= finished >>= closed conn)
  sending-Idle conn none = tt
  sending-Idle conn (some r) = refl

  serve_response-Idle :
      (conn : ℕ) (o : Option (Option MetaResp × TransferCtx × W))
      → Idle (
          o >>= serve_response io setup host floats fuel >>= λ s.
          some (s.0, port.csp_close conn s.2))
  serve_response-Idle conn none = tt
  serve_response-Idle conn (some (none, ctx, w)) = refl
  serve_response-Idle conn (some (some resp, ctx, w)) = sending-Idle conn (
      start_sending_data io floats fuel (record ctx { keep_running = true })
        (setup.csp_send resp w))

  server_round-Idle :
      (ctx : TransferCtx) (w : W) → ctx.keep_running ≡ false → Idle (server_round ctx w)
  unfolding server_round serve_request
  server_round-Idle ctx w h =
      let (conn, w₁) = port.csp_accept w in
      elim (Bool-cases (conn == 0)) [
        | inl nobody ↦ rw nobody h
        | inr connected ↦
            rw connected (served conn (port.csp_read conn w₁).0 (port.csp_read conn w₁).1)
      ]
    where
      served :
          (conn : ℕ) (o : Option RequestPacket) (u : W) → Idle (serve_connection ctx conn (o, u))
      served conn none u = h
      served conn (some packet) u =
          serve_response-Idle conn (setup_server_transfer io setup host ctx packet u)

  -- However the connections and requests come, a server that has left its loop has no transfer marked as
  -- running, if it began with none.
  pub dtp_server_run-Idle :
      (n : ℕ) (ctx : TransferCtx) (w : W) → ctx.keep_running ≡ false → Idle (dtp_server_run n ctx w)
  unfolding dtp_server_run
  dtp_server_run-Idle zero ctx w h = tt
  dtp_server_run-Idle (suc n) ctx w h =
      let (exit, w₁) = port.exit_server w in
      elim (Bool-cases exit) [
        | inl leaves ↦ rw leaves h
        | inr stays ↦ rw stays (
            later (server_round ctx w₁) (server_round-Idle ctx w₁ h)
              (λ ctx u. dtp_server_run-Idle n ctx u))
      ]
    where
      later :
          (o : Option (TransferCtx × W))
          → Idle o
          → ((ctx : TransferCtx) (u : W) → ctx.keep_running ≡ false → Idle (dtp_server_run n ctx u))
          → Idle (o >>= λ r. dtp_server_run n r.0 r.1)
      later none i go = tt
      later (some r) i go = go r.0 r.1 i
