-- ===== src/Download/Multiple.antt =====
-- src/dtp_client.c receiving a whole payload that is a multiple of the bytes per packet.
use native.Mathlib.Nat.{div-add-mod', div-lt_iff_lt-mul, div-le_self}
use mathlib.Core.Path.{subst}
use libdtp.Common.{
  ℕ, ◌+◌, ◌*◌, ◌/◌, ◌%◌, ◌^◌, ◌<◌, ◌≡◌, refl, some, arith, u32, u32_max, get_elem?, lt_of_get_elem?,
}
use libdtp.Session.{dtp_cancelled, Session, chunk32, chunk_size}
use libdtp.Protocol.{Floats, DtpMetrics, compute_nof_packets, compute_dtp_metrics}
use libdtp.Protocol.Metrics.{RejectsZero, compute_dtp_metrics-total}
use libdtp.Protocol.Packets.{compute_dtp_metrics_whole}
use libdtp.Pool.{Outside}
use libdtp.Client.{Network, Receiver, receive_bound, first_receiver}
use libdtp.Client.Outcome.{IsFinite}
use libdtp.Client.Outcome.Loop.{receive_loop-ends}
use libdtp.Client.Unfinished.{BringsWithin, Returns, receive_loop-cancelled}
use libdtp.Client.Bounded.{closing}

-- The metrics call a packet the last that lies behind the payload.
last_behind :
    (floats : Floats) (s : Session) (m : DtpMetrics)
    → 8 < s.request_meta.mtu
    → s.request_meta.mtu < 2 ^ 16
    → s.payload_size < u32_max
    → s.request_meta.nof_intervals ≡ 1
    → get_elem? s.request_meta.intervals 0 ≡ some (record { start = 0; end = u32_max })
    → s.payload_size % chunk32 s.request_meta.mtu ≡ 0
    → compute_dtp_metrics floats s.request_meta s.payload_size ≡ some m
    → (x : ℕ) → x < s.payload_size
    → u32 (x / chunk_size s.request_meta.mtu) < m.last_packet
unfolding compute_nof_packets
last_behind floats s m low high small one whole multiple e x h =
    let size : ℕ = s.payload_size in
    let c : ℕ = chunk32 s.request_meta.mtu in
    let same : chunk_size s.request_meta.mtu ≡ c = omega (arith, low, high) in
    let pos : 0 < c = omega (arith, low, high) in
    let (next, one_more, other) =
      compute_dtp_metrics_whole floats s.request_meta size (size / c) m e
        (ground (arith, multiple, pos)) small one whole in
    let count = one_more multiple in
    let d = div-add-mod' size c in
    let under : x / c < size / c = (div-lt_iff_lt-mul pos).1 (omega (arith, d, h, multiple)) in
    rw same (omega (arith, next, count, under, div-le_self x c, h, small))

-- For a request of the whole payload in one interval, of a payload below 2 ^ 32 - 1 bytes that is a multiple
-- of the bytes per packet, a receiver that has bound its socket never returns `DTP_OK`: whatever
-- packets the network brings, in whatever order, as long as each begins within the payload and the
-- network falls silent, it ends with `DTP_CANCELLED`. The MTU is above 8 and not changed by other
-- code, the throughput is positive, the floating point test rejects a throughput of 0, and there is
-- fuel for the packets still to come and for the timeout.
pub receive_bound-cancelled :
    {W : Type 0} (out : Outside W) (net : Network W) (pending : W → ℕ) (floats : Floats) (fuel : ℕ)
    (s : Session) (w : W)
    → IsFinite out net pending
    → BringsWithin out net s.payload_size
    → RejectsZero floats
    → 8 < s.request_meta.mtu
    → s.request_meta.mtu < 2 ^ 16
    → 0 < s.request_meta.throughput
    → s.request_meta.throughput < 2 ^ 32
    → s.payload_size < u32_max
    → s.request_meta.nof_intervals ≡ 1
    → get_elem? s.request_meta.intervals 0 ≡ some (record { start = 0; end = u32_max })
    → s.payload_size % chunk32 s.request_meta.mtu ≡ 0
    → s.timeout < 2 ^ 8
    → pending (net.csp_get_ms w).1 * (s.timeout * 1000 + 2) + (s.timeout * 1000 + 1) < fuel
    → (r : Receiver) × (w' : W) × (receive_bound out net floats fuel s w
        ≡ some (dtp_cancelled, (closing out net r w').0, (closing out net r w').1))
unfolding receive_bound
receive_bound-cancelled out net pending floats fuel s w finite brings rejects low high t0 t1 small
      one whole multiple t f =
    let (m, e, ten, one_packet, second, short) =
      compute_dtp_metrics-total floats s.request_meta s.payload_size rejects low high t0 t1
        (omega (arith, one))
        (omega (arith, one, lt_of_get_elem? s.request_meta.intervals 0 whole)) in
    let now = net.csp_get_ms w in
    let first : Receiver = first_receiver out net m s now.0 in
    let (r, w', l, d) =
      receive_loop-ends out net pending finite m now.0 s.timeout (omega (arith, ten))
        (omega (arith, t, short)) fuel first now.1
        (record { timeout_is = refl; idle = omega arith; undecided = refl }) (omega (arith, f)) in
    let cancelled : r.result ≡ dtp_cancelled = subst Returns l (
      receive_loop-cancelled out net m now.0 s.request_meta.mtu s.payload_size brings
        (last_behind floats s m low high small one whole multiple e) fuel first now.1
        (record { result = refl; mtu_is = refl })) in
    (r, w', rw (e, l, cancelled) refl)
