-- ===== src/Vmem/Overflow.antt =====
-- A start request that names more intervals than a message holds.
use libdtp.Common.{ℕ, zero, suc, ◌<◌, ◌≡◌, refl, List, [], ◌∷◌, none, arith, length, Host}
use libdtp.Session.{Interval, MetaReq}
use libdtp.Vmem.{
  StartReq, start_transfer, VmemIo, VmemState, copy_intervals, start_message,
  vmem_dtp_request_handler,
}

copy_intervals_overflows :
    (host : Host) (n : ℕ) (from to : List Interval)
    → length to < n
    → copy_intervals host n from to ≡ none
unfolding copy_intervals
copy_intervals_overflows host zero from to h = absurd (omega arith)
copy_intervals_overflows host (suc n) [] to h = refl
copy_intervals_overflows host (suc n) (v ∷ from) [] h = refl
copy_intervals_overflows host (suc n) (v ∷ from) (u ∷ to) h =
    rw (copy_intervals_overflows host n from to (omega arith)) refl

-- The handler does not check the number of intervals of a start request: with more than its message
-- has room for, it runs past the end of an array, whatever the request, the state and the world.
pub vmem_dtp_request_handler_overflows :
    {W : Type 0} (io : VmemIo W) (host : Host) (stack : MetaReq) (srv_node dest_port : ℕ)
    (r : StartReq) (s : VmemState) (w : W)
    → length stack.intervals < r.request_meta.nof_intervals
    → vmem_dtp_request_handler io host stack srv_node dest_port (start_transfer r) s w ≡ none
unfolding vmem_dtp_request_handler start_message
vmem_dtp_request_handler_overflows io host stack srv_node dest_port r s w h =
    rw
      (copy_intervals_overflows host r.request_meta.nof_intervals r.request_meta.intervals
        stack.intervals h)
      refl
