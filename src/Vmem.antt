-- ===== src/Vmem.antt =====
-- src/dtp_vmem_client.c and src/dtp_vmem_server.c: the requests to the VMEM server, and its handler.
-- A request is the data of its packet; fields of 16 and 32 bits are kept as they are stored, in network
-- byte order.
pub mod Start
pub mod Overflow
pub mod Run
pub mod Requests
pub mod Status
pub mod Download
use libdtp.Common.{
  ℕ, zero, suc, List, [], ◌∷◌, Bool, true, false, Option, none, some, ltb, if◌then◌else◌, u16, Host,
  htobe16, htobe32, htobe64, ◌>>=◌,
}
use libdtp.Session.{Interval, MetaReq}
use libdtp.Server.{TransferCtx}

-- `dtp_start_req_t`
pub record StartReq : Type 0 where
  pub vaddr : ℕ
  pub size : ℕ
  pub request_meta : MetaReq

-- The requests by their type, with what the handler reads of their bodies.
pub data VmemRequest : Type 0 where
  start_transfer : StartReq → VmemRequest
  stop_transfer : ℕ → VmemRequest
  transfer_status transfer_alive unknown_type : VmemRequest

-- `dtp_msg_t`, with `msg` for a start of a transfer.
pub record Msg : Type 0 where
  pub srv_node : ℕ
  pub dest_port : ℕ
  pub vaddr : ℕ
  pub size : ℕ
  pub request_meta : MetaReq

-- `dtp_status_resp_t`
pub record StatusResp : Type 0 where
  pub session_id : ℕ
  pub status : ℕ

abbrev pub swap_interval : Host → Interval → Interval
swap_interval host v = record { start = htobe32 host v.start; end = htobe32 host v.end }

-- The loops that copy the first `n` intervals, with their bytes swapped. `none` is an access past the
-- end of either array.
unfoldable pub copy_intervals : Host → ℕ → List Interval → List Interval → Option (List Interval)
copy_intervals host zero from to = some to
copy_intervals host (suc n) [] to = none
copy_intervals host (suc n) (v ∷ from) [] = none
copy_intervals host (suc n) (v ∷ from) (u ∷ to) =
    copy_intervals host n from to >>= λ rest. some (swap_interval host v ∷ rest)

abbrev pub eight_at_most : ℕ → ℕ
eight_at_most n = if ltb 8 n then 8 else n

-- What `vmem_request_dtp_start_download` writes to a packet whose data were `buffer`: it leaves the
-- payload's identifier and the reserved fields as they are.
abbrev pub filled_request : Host → MetaReq → MetaReq → ℕ → ℕ → ℕ → List Interval → StartReq
filled_request host buffer request session_id vaddr size intervals = record {
  vaddr = htobe64 host vaddr;
  size = htobe32 host size;
  request_meta = record buffer {
    throughput = htobe32 host request.throughput;
    mtu = htobe16 host request.mtu;
    session_id = htobe32 host session_id;
    keep_alive_interval = u16 (htobe32 host request.keep_alive_interval);
    nof_intervals = eight_at_most request.nof_intervals;
    intervals = intervals;
  };
}

unfoldable pub start_request : Host → MetaReq → MetaReq → ℕ → ℕ → ℕ → Option StartReq
unfolding copy_intervals
start_request host buffer request session_id vaddr size =
    copy_intervals host (eight_at_most request.nof_intervals) request.intervals buffer.intervals
    >>= λ l. some (filled_request host buffer request session_id vaddr size l)

-- The message that the handler makes of a start request. `stack` is what its `msg` held before.
abbrev pub filled_message : Host → MetaReq → ℕ → ℕ → StartReq → List Interval → Msg
filled_message host stack srv_node dest_port r intervals = record {
  srv_node = srv_node;
  dest_port = dest_port;
  vaddr = htobe64 host r.vaddr;
  size = htobe32 host r.size;
  request_meta = record stack {
    mtu = htobe16 host r.request_meta.mtu;
    throughput = htobe32 host r.request_meta.throughput;
    session_id = htobe32 host r.request_meta.session_id;
    payload_id = r.request_meta.payload_id;
    nof_intervals = r.request_meta.nof_intervals;
    keep_alive_interval = u16 (htobe32 host r.request_meta.keep_alive_interval);
    intervals = intervals;
  };
}

unfoldable pub start_message : Host → MetaReq → ℕ → ℕ → StartReq → Option Msg
unfolding copy_intervals
start_message host stack srv_node dest_port r =
    copy_intervals host r.request_meta.nof_intervals r.request_meta.intervals stack.intervals
    >>= λ l. some (filled_message host stack srv_node dest_port r l)

-- The session identifier of the handler's context, and the transfer that it shares with the server.
pub record VmemState : Type 0 where
  pub session_id : ℕ
  pub transfer : TransferCtx

-- The queue, the clock and the network.
pub record VmemIo (W : Type 0) : Type 0 where
  pub message_queue_send : Msg → W → W
  pub csp_get_ms : W → ℕ × W
  pub csp_buffer_get : W → Bool × W
  pub csp_send : StatusResp → W → W

abbrev pub set_alive : ℕ → VmemState → VmemState
set_alive now s = record s { transfer = record (s.transfer) { client_alive_ts = now } }

abbrev pub status_of : Host → VmemState → StatusResp
status_of host s = record {
  session_id = htobe32 host s.session_id;
  status = htobe32 host (if s.transfer.keep_running then 1 else 0);
}

module _ {W : Type 0} (io : VmemIo W) (host : Host) where
  -- The handler's switch, for a request from `dest_port` to `srv_node`.
  unfoldable pub vmem_dtp_request_handler :
      MetaReq → ℕ → ℕ → VmemRequest → VmemState → W → Option (VmemState × W)
  unfolding start_message
  vmem_dtp_request_handler stack srv_node dest_port (start_transfer r) s w =
      start_message host stack srv_node dest_port r >>= λ msg.
      let (now, w') = io.csp_get_ms w in
      some (
        set_alive now (record s { session_id = htobe32 host r.request_meta.session_id }),
        io.message_queue_send msg w',
      )
  vmem_dtp_request_handler stack srv_node dest_port (stop_transfer session_id) s w =
      some (record { session_id = 0; transfer = record (s.transfer) { keep_running = false } }, w)
  vmem_dtp_request_handler stack srv_node dest_port transfer_status s w =
      let (buffer, w') = io.csp_buffer_get w in
      some (s, if buffer then io.csp_send (status_of host s) w' else w')
  vmem_dtp_request_handler stack srv_node dest_port transfer_alive s w =
      let (now, w') = io.csp_get_ms w in
      some (if s.transfer.keep_running then (set_alive now s, w') else (s, w))
  vmem_dtp_request_handler stack srv_node dest_port unknown_type s w = some (s, w)
