-- ===== src/Client/Bounded.antt =====
-- `start_receiving_data` behind `csp_bind`: the metrics, the loop, and the end of the transfer.
use libdtp.Common.{ℕ, ◌+◌, ◌*◌, ◌^◌, ◌≤◌, ◌<◌, ◌≡◌, refl, some, arith, length}
use libdtp.Session.{Session}
use libdtp.Protocol.{Floats, DtpMetrics, compute_dtp_metrics}
use libdtp.Protocol.Metrics.{RejectsZero, compute_dtp_metrics-total}
use libdtp.Pool.{Outside, call_hook}
use libdtp.Client.{Network, Receiver, receive_bound, first_receiver}
use libdtp.Client.Outcome.{End, IsFinite}
use libdtp.Client.Outcome.Loop.{receive_loop-ends}

-- `csp_socket_close` and `on_end`.
abbrev pub closing : {W : Type 0} → Outside W → Network W → Receiver → W → Session × W
closing out net r w =
    call_hook r.session.hooks.on_end (λ h. out.on_end h r.session (net.csp_socket_close w))
      (r.session, net.csp_socket_close w)

-- For a request with an MTU above 8, a positive throughput and one to as many intervals as it has room
-- for, with a floating point test that rejects a throughput of 0, in a network that falls silent, and
-- given fuel for the packets still to come and for the timeout, a receiver that has bound its socket
-- ends. It returns the result with which the loop has ended, after the `on_end` hook, if there is one,
-- and with the socket closed.
pub receive_bound-ends :
    {W : Type 0} (out : Outside W) (net : Network W) (pending : W → ℕ) (floats : Floats) (fuel : ℕ)
    (s : Session) (w : W)
    → IsFinite out net pending
    → RejectsZero floats
    → 8 < s.request_meta.mtu
    → s.request_meta.mtu < 2 ^ 16
    → 0 < s.request_meta.throughput
    → s.request_meta.throughput < 2 ^ 32
    → 0 < s.request_meta.nof_intervals
    → s.request_meta.nof_intervals ≤ length s.request_meta.intervals
    → s.timeout < 2 ^ 8
    → pending (net.csp_get_ms w).1 * (s.timeout * 1000 + 2) + (s.timeout * 1000 + 1) < fuel
    → (m : DtpMetrics) × (r : Receiver) × (w' : W) × (compute_dtp_metrics floats s.request_meta
          s.payload_size
        ≡ some m)
      × End m r
      × (receive_bound out net floats fuel s w
          ≡ some (r.result, (closing out net r w').0, (closing out net r w').1))
unfolding receive_bound
receive_bound-ends out net pending floats fuel s w finite rejects lo hi t0 t1 n0 n1 t f =
    let (m, e, ten, one, second, short) =
      compute_dtp_metrics-total floats s.request_meta s.payload_size rejects lo hi t0 t1 n0 n1 in
    let now = net.csp_get_ms w in
    let (r, w', l, d) =
      receive_loop-ends out net pending finite m now.0 s.timeout (omega (arith, ten))
        (omega (arith, t, short)) fuel (first_receiver out net m s now.0) now.1
        (record { timeout_is = refl; idle = omega arith; undecided = refl }) (omega (arith, f)) in
    (m, r, w', e, d, rw (e, l) refl)
