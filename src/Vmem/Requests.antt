-- ===== src/Vmem/Requests.antt =====
-- src/dtp_vmem_client.c: the four requests of the client, with their connections.
-- An `int` is the 32 bits of its two's complement. A connection is a number, 0 for NULL.
use libdtp.Common.{
  ℕ, Bool, true, Option, none, some, ltb, ◌==◌, if◌then◌else◌, ◌>>=◌, Host, htobe32,
}
use libdtp.Session.{MetaReq, Session}
use libdtp.Vmem.{
  VmemRequest, start_transfer, stop_transfer, transfer_status, transfer_alive, StatusResp,
  start_request,
}

-- A response packet: its length, and the words of its data.
pub record StatusPacket : Type 0 where
  pub packet_length : ℕ
  pub resp : StatusResp

-- The network: connecting to a node with a timeout, over RDP or not; a buffer, with what it held where a
-- request stands; sending a request with the version of its header.
pub record VmemNet (W : Type 0) : Type 0 where
  pub csp_connect : ℕ → ℕ → Bool → W → ℕ × W
  pub csp_buffer_get : W → Option MetaReq × W
  pub csp_send : ℕ → ℕ → VmemRequest → W → W
  pub csp_read : ℕ → ℕ → W → Option StatusPacket × W
  pub csp_close : ℕ → W → W

-- -1
abbrev pub minus_one : ℕ
minus_one = 0xffff_ffff

-- The result that a response gives: its status, where it is long enough.
abbrev pub status_result : Host → Option StatusPacket → ℕ
status_result host none = minus_one
status_result host (some p) =
    if ltb p.packet_length 8 then minus_one else htobe32 host p.resp.status

module _ {W : Type 0} (net : VmemNet W) where
  abbrev pub with_buffer : ℕ → Option MetaReq → Option (ℕ × MetaReq)
  with_buffer conn none = none
  with_buffer conn (some held) = some (conn, held)

  -- The connection and the buffer of a request, where there are both. Without a buffer the connection
  -- stays open.
  unfoldable pub open_request : ℕ → ℕ → Bool → W → Option (ℕ × MetaReq) × W
  open_request node timeout use_rdp w =
      let (conn, w₁) = net.csp_connect node timeout use_rdp w in
      let (buffer, w₂) = net.csp_buffer_get w₁ in
      if conn == 0 then (none, w₁) else (with_buffer conn buffer, w₂)

  abbrev pub send_start : Host → Session → ℕ → ℕ → ℕ → ℕ → Option (ℕ × MetaReq) × W → Option (ℕ × W)
  unfolding start_request
  send_start host s session_id version vaddr size (none, w) = some (minus_one, w)
  send_start host s session_id version vaddr size (some (conn, held), w) =
      start_request host held s.request_meta session_id vaddr size >>= λ r.
      some (0, net.csp_close conn (net.csp_send conn version (start_transfer r) w))

  -- `none` is an access past the session's or the buffer's intervals.
  unfoldable pub vmem_request_dtp_start_download :
      Host → Session → ℕ → ℕ → ℕ → ℕ → Bool → ℕ → ℕ → W → Option (ℕ × W)
  unfolding open_request
  vmem_request_dtp_start_download host s node session_id timeout version use_rdp vaddr size w =
      send_start host s session_id version vaddr size (open_request node timeout use_rdp w)

  abbrev pub send_stop : Host → ℕ → ℕ → Option (ℕ × MetaReq) × W → ℕ × W
  send_stop host session_id version (none, w) = (minus_one, w)
  send_stop host session_id version (some (conn, held), w) = (
    0,
    net.csp_close conn (net.csp_send conn version (stop_transfer (htobe32 host session_id)) w),
  )

  unfoldable pub vmem_request_dtp_stop_download : Host → ℕ → ℕ → ℕ → ℕ → Bool → W → ℕ × W
  unfolding open_request
  vmem_request_dtp_stop_download host node session_id timeout version use_rdp w =
      send_stop host session_id version (open_request node timeout use_rdp w)

  abbrev pub send_status : Host → ℕ → ℕ → Option (ℕ × MetaReq) × W → ℕ × W
  send_status host timeout version (none, w) = (minus_one, w)
  send_status host timeout version (some (conn, held), w) =
      let (answer, w') = net.csp_read conn timeout (net.csp_send conn version transfer_status w) in
      (status_result host answer, net.csp_close conn w')

  unfoldable pub vmem_request_dtp_status : Host → ℕ → ℕ → ℕ → Bool → W → ℕ × W
  unfolding open_request
  vmem_request_dtp_status host node timeout version use_rdp w =
      send_status host timeout version (open_request node timeout use_rdp w)

  abbrev pub send_alive_request : Option (ℕ × MetaReq) × W → W
  send_alive_request (none, w) = w
  send_alive_request (some (conn, held), w) =
      net.csp_close conn (net.csp_send conn 0 transfer_alive w)

  -- Its result is -1 on all paths.
  unfoldable pub vmem_request_dtp_send_alive : ℕ → W → ℕ × W
  unfolding open_request
  vmem_request_dtp_send_alive node w =
      (minus_one, send_alive_request (open_request node 100_000 true w))
