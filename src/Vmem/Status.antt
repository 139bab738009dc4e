-- ===== src/Vmem/Status.antt =====
-- A status request, from src/dtp_vmem_client.c to the handler of src/dtp_vmem_server.c and back.
use libdtp.Common.{
  ℕ, ◌≡◌, refl, ap, ◌∙◌, Bool, true, false, some, Bool-cases, inl, inr, Host, little_endian,
  big_endian, htobe32,
}
use libdtp.Session.{MetaReq}
use libdtp.Vmem.{VmemState, VmemIo, transfer_status, status_of, vmem_dtp_request_handler}
use libdtp.Vmem.Requests.{
  VmemNet, StatusPacket, status_result, open_request, vmem_request_dtp_status,
}

-- The result that stands for what the server does.
abbrev pub busy : Bool → ℕ
busy true = 1
busy false = 0

status_arrives :
    (host : Host) (s : VmemState)
    → htobe32 host (status_of host s).status ≡ busy s.transfer.keep_running
status_arrives little_endian s = elim (Bool-cases s.transfer.keep_running) [
  | inl running ↦ rw running refl
  | inr idle ↦ rw idle refl
]
status_arrives big_endian s = elim (Bool-cases s.transfer.keep_running) [
  | inl running ↦ rw running refl
  | inr idle ↦ rw idle refl
]

module _ {W V : Type 0} (net : VmemNet W) (io : VmemIo V) (host : Host) where
  status_step :
      (node timeout version conn : ℕ) (use_rdp : Bool) (held : MetaReq) (p : StatusPacket)
      (w w₁ : W)
      → open_request net node timeout use_rdp w ≡ (some (conn, held), w₁)
      → (net.csp_read conn timeout (net.csp_send conn version transfer_status w₁)).0 ≡ some p
      → (vmem_request_dtp_status net host node timeout version use_rdp w).0
        ≡ status_result host (some p)
  unfolding vmem_request_dtp_status
  status_step node timeout version conn use_rdp held p w w₁ e f = rw e (ap (status_result host) f)

  -- A status request leaves the server's handler as it is, which sends one response if it has a buffer;
  -- and the client that has a connection and a buffer, and reads that response, returns 1 while a
  -- transfer runs on the server, and 0 else.
  pub vmem_request_dtp_status-handler :
      (node timeout version srv_node dest_port conn : ℕ) (use_rdp : Bool) (held stack : MetaReq)
      (s : VmemState) (w w₁ : W) (v : V)
      → open_request net node timeout use_rdp w ≡ (some (conn, held), w₁)
      → (io.csp_buffer_get v).0 ≡ true
      → (net.csp_read conn timeout (net.csp_send conn version transfer_status w₁)).0
        ≡ some (record { packet_length = 8; resp = status_of host s })
      → (vmem_dtp_request_handler io host stack srv_node dest_port transfer_status s v
          ≡ some (s, io.csp_send (status_of host s) (io.csp_buffer_get v).1))
        × ((vmem_request_dtp_status net host node timeout version use_rdp w).0
            ≡ busy s.transfer.keep_running)
  unfolding vmem_dtp_request_handler
  vmem_request_dtp_status-handler node timeout version srv_node dest_port conn use_rdp held stack s
        w w₁ v e b f =
      (
        rw b refl,
        status_step node timeout version conn use_rdp held _ w w₁ e f ∙ status_arrives host s,
      )
