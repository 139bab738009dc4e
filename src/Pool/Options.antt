-- ===== src/Pool/Options.antt =====
-- `dtp_set_opt` and `dtp_get_opt`.
use libdtp.Common.{ℕ}
use libdtp.Session.{DtpResult, dtp_ok, SessionHooks, Session}
use libdtp.Pool.{copy_hooks}

pub data DtpOption : Type 0 where
  remote_cfg session_hooks_cfg throughput_cfg timeout_cfg payload_id_cfg mtu_cfg : DtpOption
  session_id_cfg unknown_cfg : DtpOption

-- The union `dtp_params`, with its members kept apart: a caller reads and writes the member of the
-- option that it passes.
pub record DtpParams : Type 0 where
  pub node : ℕ
  pub hooks : SessionHooks
  pub throughput : ℕ
  pub timeout : ℕ
  pub payload_id : ℕ
  pub mtu : ℕ
  pub session_id : ℕ

unfoldable pub dtp_set_opt : Session → DtpOption → DtpParams → DtpResult × Session
dtp_set_opt s remote_cfg p = (dtp_ok, record s { node = p.node })
dtp_set_opt s session_hooks_cfg p = (dtp_ok, record s { hooks = copy_hooks s.hooks p.hooks })
dtp_set_opt s throughput_cfg p =
    (dtp_ok, record s { request_meta = record (s.request_meta) { throughput = p.throughput } })
dtp_set_opt s timeout_cfg p = (dtp_ok, record s { timeout = p.timeout })
dtp_set_opt s payload_id_cfg p =
    (dtp_ok, record s { request_meta = record (s.request_meta) { payload_id = p.payload_id } })
dtp_set_opt s mtu_cfg p =
    (dtp_ok, record s { request_meta = record (s.request_meta) { mtu = p.mtu } })
dtp_set_opt s session_id_cfg p =
    (dtp_ok, record s { request_meta = record (s.request_meta) { session_id = p.session_id } })
dtp_set_opt s unknown_cfg p = (dtp_ok, s)

unfoldable pub dtp_get_opt : Session → DtpOption → DtpParams → DtpResult × DtpParams
dtp_get_opt s remote_cfg p = (dtp_ok, record p { node = s.node })
dtp_get_opt s session_hooks_cfg p = (dtp_ok, record p { hooks = copy_hooks p.hooks s.hooks })
dtp_get_opt s _ p = (dtp_ok, p)
