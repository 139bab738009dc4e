-- ===== src/Vmem/Download.antt =====
-- A download of memory, from the client's start request to the last packet of the server.
use libdtp.Common.{
  ℕ, ◌+◌, ◌≤◌, ◌<◌, ◌^◌, ◌≡◌, sym, ◌∙◌, List, [], ◌∷◌, false, true, some, arith, length, get_elem?,
  lt_of_get_elem?, Host,
}
use mathlib.Core.Path.{subst}
use libdtp.Session.{Interval, MetaReq}
use libdtp.Protocol.{Floats}
use libdtp.Protocol.Metrics.{RejectsZero}
use libdtp.Server.{TransferCtx, DataPacket, ServerIo}
use libdtp.Server.Poll.{Genuine}
use libdtp.Server.Ranges.{Holds, AllWithin, Delivers}
use libdtp.Vmem.{StartReq, Msg, start_request, start_message}
use libdtp.Vmem.Start.{AllWords, keep_alive_of, start_message-start_request}
use libdtp.Vmem.Run.{AsyncApi, ReadsMemory, byte_from, serve_message, serve_message-Delivers}

-- Intervals that agree up to `n` hold the same, up to there.
Holds-agree :
    (from to : List Interval) (n i : ℕ) (vs : List Interval)
    → ((j : ℕ) → j < n → get_elem? to j ≡ get_elem? from j)
    → i + length vs ≤ n
    → Holds from i vs
    → Holds to i vs
Holds-agree from to n i [] e h a = tt
Holds-agree from to n i (v ∷ vs) e h a =
    (e i (omega (arith, h)) ∙ a.0, Holds-agree from to n (i + 1) vs e (omega (arith, h)) a.1)

-- A list that holds intervals up to an index is that long.
length-Holds :
    (l : List Interval) (i : ℕ) (vs : List Interval)
    → Holds l i vs
    → i ≤ length l
    → i + length vs ≤ length l
length-Holds l i [] a h = omega (arith, h)
length-Holds l i (v ∷ vs) a h =
    let p = lt_of_get_elem? l i a.0 in
    omega (arith, length-Holds l (i + 1) vs a.1 (omega (arith, p)))

-- A start request for one to eight intervals of a memory range, each of which holds a byte of it, is
-- encoded by the client, decoded by the handler of the server, and served to its end: on hosts of one
-- byte order, where the interval for the keep-alive messages arrives as 0, with an MTU above 8, a
-- positive throughput, numbers of the widths of the C types, and room for eight intervals in the
-- buffers; the transfer is undisturbed, has fuel for the payload and a floating point test that
-- rejects a throughput of 0. The packets sent carry every byte of each interval, in order and once,
-- and these are the bytes of the server's memory from the 64-bit address that the client named; its
-- reads are assumed to give the bytes of the memory.
pub vmem_download-Delivers :
    {W : Type 0} (io : ServerIo W) (api : AsyncApi W) (host : Host) (floats : Floats) (fuel : ℕ)
    (ctx : TransferCtx) (buffer request stack : MetaReq) (vs : List Interval)
    (session_id vaddr size srv_node dest_port : ℕ) (w : W) (memory : ℕ → ℕ)
    → ReadsMemory api memory
    → ((u : W) → (io.csp_buffer_get u).0 ≡ true)
    → ((c : TransferCtx) (u : W) → (io.others c u).0 ≡ c)
    → RejectsZero floats
    → keep_alive_of host request.keep_alive_interval ≡ 0
    → 8 < request.mtu
    → request.mtu < 2 ^ 16
    → 0 < request.throughput
    → request.throughput < 2 ^ 32
    → request.keep_alive_interval < 2 ^ 16
    → session_id < 2 ^ 32
    → size < 2 ^ 32
    → vaddr < 2 ^ 64
    → 0 < length vs
    → length vs ≤ 8
    → request.nof_intervals ≡ length vs
    → Holds request.intervals 0 vs
    → AllWords request.intervals
    → AllWithin request.mtu size vs
    → 8 ≤ length buffer.intervals
    → 8 ≤ length stack.intervals
    → size ≤ fuel
    → (r : StartReq) × (msg : Msg) × (ctx' : TransferCtx) × (sent : List DataPacket) × (w' : W)
      × (start_request host buffer request session_id vaddr size ≡ some r)
      × (start_message host stack srv_node dest_port r ≡ some msg)
      × (serve_message io api floats fuel ctx msg w ≡ some (ctx', sent, w'))
      × (ctx'.keep_running ≡ false)
      × Delivers request.mtu size vs sent
      × Genuine (byte_from memory vaddr) sent
vmem_download-Delivers io api host floats fuel ctx buffer request stack vs session_id vaddr size
      srv_node dest_port w memory reads buffers alone z ka lo hi t0 t1 kh sh zh vh n0 n8 n h words a
      b8 s8 f =
    let room = length-Holds request.intervals 0 vs h (omega arith) in
    let (r, msg, e, d, same, place, m) =
      start_message-start_request host buffer request stack session_id vaddr size srv_node dest_port
        (omega (arith, n, n8)) (omega (arith, n, room)) b8 s8 words t1 hi kh sh zh vh in
    let held =
      Holds-agree request.intervals msg.request_meta.intervals request.nof_intervals 0 vs
        m.intervals (omega (arith, n)) h in
    let long = length-Holds msg.request_meta.intervals 0 vs held (omega arith) in
    let within : AllWithin msg.request_meta.mtu msg.size vs =
      subst (λ k. AllWithin k msg.size vs) (sym m.mtu)
        (subst (λ k. AllWithin request.mtu k vs) (sym same) a) in
    let (ctx', sent, w', q, off, l, g) =
      serve_message-Delivers io api floats fuel ctx msg vs w memory reads buffers alone
        (m.keep_alive ∙ ka) (omega (arith, m.mtu, lo)) (omega (arith, m.mtu, hi))
        (omega (arith, same, zh)) z (omega (arith, m.throughput, t0))
        (omega (arith, m.throughput, t1)) n0 (omega (arith, long)) (m.count ∙ n) held within
        (omega (arith, same, f)) in
    let l' : Delivers request.mtu size vs sent =
      subst (λ k. Delivers k size vs sent) m.mtu
        (subst (λ k. Delivers msg.request_meta.mtu k vs sent) same l) in
    (
      r,
      msg,
      ctx',
      sent,
      w',
      e,
      d,
      q,
      off,
      l',
      subst (λ a. Genuine (byte_from memory a) sent) place g,
    )
