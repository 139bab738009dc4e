-- ===== src/Session.antt =====
-- The data that the parts of the library share: include/dtp/dtp.h, dtp_protocol.h, dtp_session.h, and
-- the hook context of src/dtp_client_posix_session_hooks.c.
-- A pointer to data or code that the model does not look into is a number, 0 for NULL.
use libdtp.Common.{ℕ, ◌+◌, ◌-◌, ◌%◌, ◌^◌, List, Bool, Option}
use libdtp.Segments.{SegmentsCtx}

pub data DtpResult : Type 0 where
  dtp_ok dtp_err dtp_cancelled : DtpResult

pub data Errno : Type 0 where
  no_err einval enomore_sessions esession_not_found connection_failed malloc_failed : Errno
  not_implemented session_exhausted : Errno

pub record Interval : Type 0 where
  pub start : ℕ
  pub end : ℕ

pub record MetaReq : Type 0 where
  pub throughput : ℕ
  pub nof_intervals : ℕ
  pub payload_id : ℕ
  pub reserved1 : ℕ
  pub reserved2 : ℕ
  pub session_id : ℕ
  pub mtu : ℕ
  pub keep_alive_interval : ℕ
  pub intervals : List Interval

pub record MetaResp : Type 0 where
  pub size_in_bytes : ℕ
  pub total_payload_size : ℕ

-- `hook_ctx_t`; `output` is the open `FILE *`.
pub record HookCtx : Type 0 where
  pub last_packet_ts : ℕ
  pub segments : Option SegmentsCtx
  pub received_segments : Option SegmentsCtx
  pub output : ℕ

-- `dtp_opt_session_hooks_cfg`: code addresses, and the context.
pub record SessionHooks : Type 0 where
  pub on_start : ℕ
  pub on_data_packet : ℕ
  pub on_end : ℕ
  pub on_release : ℕ
  pub on_serialize : ℕ
  pub on_deserialize : ℕ
  pub on_dump_info : ℕ
  pub hook_ctx : Option HookCtx

-- `dtp_t`
pub record Session : Type 0 where
  pub active : Bool
  pub conn : ℕ
  pub user_context : ℕ
  pub node : ℕ
  pub hooks : SessionHooks
  pub bytes_received : ℕ
  pub payload_size : ℕ
  pub start_ts : ℕ
  pub end_ts : ℕ
  pub dtp_errno : Errno
  pub request_meta : MetaReq
  pub timeout : ℕ

-- A received data packet: its length, and the first of its 32-bit words.
pub record Packet : Type 0 where
  pub packet_length : ℕ
  pub data32_0 : ℕ

-- `mtu - (2 * sizeof(uint32_t))` in the 64 bits of a `size_t`, and as stored in a `uint32_t`.
abbrev pub chunk_size : ℕ → ℕ
chunk_size mtu = (mtu + 2 ^ 64 - 8) % 2 ^ 64

abbrev pub chunk32 : ℕ → ℕ
chunk32 mtu = (mtu + 2 ^ 32 - 8) % 2 ^ 32
