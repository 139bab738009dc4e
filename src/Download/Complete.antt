-- ===== src/Download/Complete.antt =====
-- src/dtp_client.c receives what src/dtp_server.c sends, from the first packet to the last.
use mathlib.Core.Path.{subst, subst₂}
use libdtp.Common.{
  ℕ, suc, ◌+◌, ◌-◌, ◌*◌, ◌^◌, ◌≤◌, ◌<◌, ◌≡◌, refl, sym, ap, ◌∙◌, List, [], ◌∷◌, true, inr, some,
  arith, Host, some_inj, length, u32, u32_max,
}
use libdtp.Session.{dtp_ok, Interval, MetaReq, Session, chunk_size}
use libdtp.Protocol.{Floats, DtpMetrics, compute_dtp_metrics}
use libdtp.Protocol.Metrics.{RejectsZero, compute_dtp_metrics-total}
use libdtp.Pool.{Outside}
use libdtp.Server.{TransferCtx, DataPacket, Transfer, ServerIo, start_sending_data}
use libdtp.Server.Poll.{IsSteady, Genuine, payload_of}
use libdtp.Server.Ranges.{AllWithin, Holds, Delivers}
use libdtp.Server.Intervals.{start_sending_data-Delivers}
use libdtp.Client.{Network, Receiver, receive_bound, first_receiver, wire_request}
use libdtp.Client.Arrivals.{Arrival, IsLossless, Completes}
use libdtp.Client.Arrivals.Loop.{receive_loop_complete}
use libdtp.Client.Bounded.{closing}
use libdtp.Resume.Numbers.{le_times}
use libdtp.Download.{Carries, AllPaced, AsksFrom, bytes_of, packets_of, final_of}
use libdtp.Download.Packets.{Ascends}
use libdtp.Download.Intervals.{Delivers-Ascends, Ascends-Completes, AsksFrom-AllWithin, final-below}
use libdtp.Download.Metrics.{compute_dtp_metrics-of}

Carries-length : (ps : List DataPacket) (l : List Arrival) → Carries ps l → length l ≡ length ps
Carries-length [] [] c = refl
Carries-length [] (a ∷ l) c = absurd c
Carries-length (p ∷ ps) [] c = absurd c
Carries-length (p ∷ ps) (a ∷ l) c = ap suc (Carries-length ps l c.1)

-- The packets that are delivered, once they arrive in pace, complete the payload.
Delivers-Completes :
    (mtu size start b k last : ℕ) (v : Interval) (vs : List Interval) (ps : List DataPacket)
    (l : List Arrival)
    → 8 < mtu
    → mtu < 2 ^ 16
    → size < u32_max
    → AsksFrom mtu size k (v ∷ vs)
    → final_of mtu size k (v ∷ vs) ≡ last
    → b + bytes_of mtu size (v ∷ vs) ≡ size
    → Delivers mtu size (v ∷ vs) ps
    → Carries ps l
    → AllPaced (chunk_size mtu) start 0 l
    → Completes mtu start last size u32_max 0 b l × (length l ≡ packets_of mtu size (v ∷ vs))
Delivers-Completes mtu size start b k last v vs ps l low high small h f total d c paced =
    let (a, n) =
      Delivers-Ascends mtu size low v vs last k b ps high (omega (arith, small)) h d f total in
    go ps a n c
  where
    below : last < u32_max
    below =
        let real = final-below mtu size low v vs k h in
        let most = le_times (final_of mtu size k (v ∷ vs)) (mtu - 8) (omega (arith, low)) in
        omega (arith, real, most, f, small)

    go :
        (ps : List DataPacket)
        → Ascends mtu size last v.start b ps
        → length ps ≡ packets_of mtu size (v ∷ vs)
        → Carries ps l
        → Completes mtu start last size u32_max 0 b l × (length l ≡ packets_of mtu size (v ∷ vs))
    go [] a n c = absurd (omega (arith, n))
    go (p ∷ ps) a n c = (
      Ascends-Completes mtu start size last u32_max v.start 0 b p ps l a c paced (inr below),
      Carries-length (p ∷ ps) l c ∙ n,
    )

-- What an undisturbed server has sent for the request of a client.
sent-Delivers :
    {V : Type 0} (io : ServerIo V) (floats : Floats) (request : MetaReq) (size fuel : ℕ)
    (ctx : TransferCtx) (vs : List Interval) (x x' : V) (t : Transfer) (steady : IsSteady io)
    → RejectsZero floats
    → ctx.request ≡ request
    → ctx.payload_meta.size ≡ size
    → ctx.keep_running ≡ true
    → request.keep_alive_interval ≡ 0
    → 8 < request.mtu
    → request.mtu < 2 ^ 16
    → 0 < request.throughput
    → request.throughput < 2 ^ 32
    → size < 2 ^ 32
    → request.nof_intervals ≡ length vs
    → 0 < length vs
    → length vs ≤ length request.intervals
    → Holds request.intervals 0 vs
    → AsksFrom request.mtu size 0 vs
    → size ≤ fuel
    → start_sending_data io floats fuel ctx x ≡ some (dtp_ok, t, x')
    → Delivers request.mtu size vs t.sent × Genuine (payload_of steady.content ctx) t.sent
sent-Delivers io floats request size fuel ctx vs x x' t steady rejects req is running alive low high
      t0 t1 small n some_interval room h asks f sends =
    let mtu : ctx.request.mtu ≡ request.mtu = ap (λ q. q.mtu) req in
    let throughput : ctx.request.throughput ≡ request.throughput = ap (λ q. q.throughput) req in
    let lists : ctx.request.intervals ≡ request.intervals = ap (λ q. q.intervals) req in
    let (t', w', e, d, g) =
      start_sending_data-Delivers io floats ctx vs fuel x steady (omega (arith, low, mtu))
        (omega (arith, high, mtu)) (omega (arith, small, is)) running
        (ap (λ q. q.keep_alive_interval) req ∙ alive) rejects (omega (arith, t0, throughput))
        (omega (arith, t1, throughput)) some_interval (omega (arith, room, ap length lists))
        (ap (λ q. q.nof_intervals) req ∙ n) (subst (λ l. Holds l 0 vs) (sym lists) h)
        (subst₂ (λ a b. AllWithin a b vs) (sym mtu) (sym is)
          (AsksFrom-AllWithin request.mtu size low vs 0 asks))
        (omega (arith, f, is)) in
    let same : t' ≡ t = ap (λ r. r.1) (some_inj (sym e ∙ sends)) in
    (
      subst (λ u. Delivers request.mtu size vs u.sent) same
          (subst₂ (λ a b. Delivers a b vs t'.sent) mtu is d),
      subst (λ u. Genuine (payload_of steady.content ctx) u.sent) same g,
    )

-- The receiver, behind `csp_bind`, on a network that brings packets that are delivered.
delivered-received :
    {W : Type 0} (out : Outside W) (net : Network W) (queue : W → List Arrival) (floats : Floats)
    (s : Session) (w : W) (fuel : ℕ) (v : Interval) (vs : List Interval) (ps : List DataPacket)
    (m : DtpMetrics)
    → IsLossless out net queue
    → 8 < s.request_meta.mtu
    → s.request_meta.mtu < 2 ^ 16
    → s.payload_size < u32_max
    → AsksFrom s.request_meta.mtu s.payload_size 0 (v ∷ vs)
    → s.bytes_received + bytes_of s.request_meta.mtu s.payload_size (v ∷ vs) ≡ s.payload_size
    → Delivers s.request_meta.mtu s.payload_size (v ∷ vs) ps
    → Carries ps (queue (net.csp_get_ms w).1)
    → s.active ≡ true
    → AllPaced (chunk_size s.request_meta.mtu) (net.csp_get_ms w).0 0 (queue (net.csp_get_ms w).1)
    → compute_dtp_metrics floats s.request_meta s.payload_size ≡ some m
    → m.nof_packets ≡ packets_of s.request_meta.mtu s.payload_size (v ∷ vs)
    → m.last_packet ≡ final_of s.request_meta.mtu s.payload_size 0 (v ∷ vs)
    → 1000 ≤ m.total_duration_ms
    → m.nof_packets < 2 ^ 32
    → (net.csp_get_ms w).0 + chunk_size s.request_meta.mtu * m.nof_packets < 2 ^ 32
    → (net.csp_get_ms w).0 + m.total_duration_ms + m.round_time_ms * 2 < 2 ^ 32
    → m.nof_packets ≤ fuel
    → (r : Receiver) × (w' : W) × (receive_bound out net floats fuel s w
        ≡ some (dtp_ok, (closing out net r w').0, (closing out net r w').1))
      × (r.session.bytes_received ≡ s.payload_size)
unfolding receive_bound
delivered-received out net queue floats s w fuel v vs ps m lossless low high small asks total d
      carries active paced metrics count last second few fits duration enough =
    let now = net.csp_get_ms w in
    let (completes, n) =
      Delivers-Completes s.request_meta.mtu s.payload_size now.0 s.bytes_received 0 m.last_packet v
        vs ps (queue now.1) low high small asks (sym last) total d carries paced in
    let eot : u32 (now.0 + m.total_duration_ms + m.round_time_ms * 2)
        ≡ now.0 + m.total_duration_ms + m.round_time_ms * 2 =
      omega (arith, duration) in
    let (r, w', e, ok, all) =
      receive_loop_complete out net queue lossless m now.0 s.request_meta.mtu s.payload_size
        (omega (arith, small)) few fits (queue now.1) u32_max 0 s.bytes_received fuel
        (first_receiver out net m s now.0) now.1
        (record {
          active = active;
          size_is = refl;
          mtu_is = refl;
          bytes = refl;
          count = refl;
          before = refl;
          early = rw eot (omega (arith, second));
          eot_word = rw eot duration;
          fresh = refl;
        })
        refl completes (omega (arith, n, count)) (omega (arith, n, count, enough)) in
    (r, w', rw (metrics, e, ok) refl, all)

-- A transfer from end to end. A client asks for one or more intervals, in order, each of which names
-- packets of the payload; the bytes it has received before and those of the intervals are the payload.
-- A server with the same request, which arrives with a keep-alive interval of 0, and the same payload
-- size has sent its packets undisturbed. They arrive without loss and in order at the receiver, which
-- has bound its socket, in pace: all but the last no faster than a packet per millisecond and no slower
-- than a byte per millisecond since the start. No interval's last packet starts at the end of the
-- payload: a whole download of a multiple of the bytes in a packet is excluded. Then the receiver
-- returns `DTP_OK` and counts as many bytes received as the payload has, after the `on_end` hook, if
-- there is one, and with the socket closed; and the packets brought cover the intervals, in order and
-- once, each with the bytes of the server's payload at the offset that it names. No
-- other task and no hook changes what the loop reads of the session. The MTU is above 8, the throughput
-- positive, the payload below 2 ^ 32 - 1 bytes, the start together with the bytes of the packets, and
-- with the expected duration, below 2 ^ 32, the floating point test rejects a throughput of 0, and there
-- is fuel for the payload's bytes at the server and for the packets at the client.
pub receive_bound-completes :
    {W V : Type 0} (out : Outside W) (net : Network W) (queue : W → List Arrival) (io : ServerIo V)
    (floats : Floats) (host : Host) (s : Session) (w : W) (fuel : ℕ) (ctx : TransferCtx)
    (v : Interval) (vs : List Interval) (x x' : V) (t : Transfer) (sending_fuel : ℕ)
    (m : DtpMetrics) (steady : IsSteady io)
    → IsLossless out net queue
    → RejectsZero floats
    → ctx.request ≡ wire_request host s.request_meta
    → ctx.payload_meta.size ≡ s.payload_size
    → ctx.keep_running ≡ true
    → (wire_request host s.request_meta).keep_alive_interval ≡ 0
    → 8 < s.request_meta.mtu
    → s.request_meta.mtu < 2 ^ 16
    → 0 < s.request_meta.throughput
    → s.request_meta.throughput < 2 ^ 32
    → s.payload_size < u32_max
    → s.request_meta.nof_intervals ≡ length (v ∷ vs)
    → length (v ∷ vs) ≤ length s.request_meta.intervals
    → Holds s.request_meta.intervals 0 (v ∷ vs)
    → AsksFrom s.request_meta.mtu s.payload_size 0 (v ∷ vs)
    → s.bytes_received + bytes_of s.request_meta.mtu s.payload_size (v ∷ vs) ≡ s.payload_size
    → s.payload_size ≤ sending_fuel
    → start_sending_data io floats sending_fuel ctx x ≡ some (dtp_ok, t, x')
    → Carries t.sent (queue (net.csp_get_ms w).1)
    → s.active ≡ true
    → AllPaced (chunk_size s.request_meta.mtu) (net.csp_get_ms w).0 0 (queue (net.csp_get_ms w).1)
    → compute_dtp_metrics floats s.request_meta s.payload_size ≡ some m
    → packets_of s.request_meta.mtu s.payload_size (v ∷ vs) < 2 ^ 32
    → (net.csp_get_ms w).0 + chunk_size s.request_meta.mtu * m.nof_packets < 2 ^ 32
    → (net.csp_get_ms w).0 + m.total_duration_ms + m.round_time_ms * 2 < 2 ^ 32
    → m.nof_packets ≤ fuel
    → (r : Receiver) × (w' : W) × (receive_bound out net floats fuel s w
        ≡ some (dtp_ok, (closing out net r w').0, (closing out net r w').1))
      × (r.session.bytes_received ≡ s.payload_size)
      × Delivers s.request_meta.mtu s.payload_size (v ∷ vs) t.sent
      × Genuine (payload_of steady.content ctx) t.sent
receive_bound-completes out net queue io floats host s w fuel ctx v vs x x' t sending_fuel m steady
      lossless rejects req size running alive low high t0 t1 small n room h asks total f sends
      carries active paced metrics few fits duration enough =
    let request : MetaReq = s.request_meta in
    let (m', e, ten, one, second, short) =
      compute_dtp_metrics-total floats request s.payload_size rejects low high t0 t1
        (omega (arith, n)) (omega (arith, n, room)) in
    let same : m' ≡ m = some_inj (sym e ∙ metrics) in
    let (count, last) =
      compute_dtp_metrics-of request.mtu s.payload_size 0 floats request m v vs low high
        (omega (arith, small)) refl n h asks few metrics in
    let (delivers, genuine) =
      sent-Delivers io floats (wire_request host request) s.payload_size sending_fuel ctx (v ∷ vs) x
        x' t steady rejects req size running alive low high t0 t1 (omega (arith, small)) n
        (omega arith) room h asks f sends in
    let (r, w', received, all) =
      delivered-received out net queue floats s w fuel v vs t.sent m lossless low high small asks
        total delivers carries active paced metrics count last
        (omega (arith, second, ap (λ q. q.total_duration_ms) same)) (omega (arith, count, few)) fits
        duration enough in
    (r, w', received, all, delivers, genuine)
