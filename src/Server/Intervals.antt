-- ===== src/Server/Intervals.antt =====
-- `start_sending_data` over all the intervals of a request.
use libdtp.Common.{
  ℕ, suc, ◌+◌, ◌^◌, ◌≤◌, ◌<◌, ◌≡◌, refl, sym, ap, ◌∙◌, List, [], ◌∷◌, ◌++◌, true, some, arith,
  if-true, length, get_elem?,
}
use mathlib.Core.List.{append_assoc, append-nil}
use mathlib.Core.Path.{subst}
use libdtp.Session.{Interval, dtp_ok}
use libdtp.Protocol.{Floats}
use libdtp.Server.{
  TransferCtx, DataPacket, Transfer, ServerIo, observe, enter_interval, send_intervals,
  os_hal_start_poll_operation, first_transfer, start_sending_data, complete,
}
use libdtp.Protocol.Metrics.{RejectsZero, compute_dtp_metrics-total}
use libdtp.Server.Poll.{IsSteady, Tiles, Genuine, Genuine-append, payload_of}
use libdtp.Server.Delivery.{os_hal_start_poll_operation-Sends}
use libdtp.Server.Ranges.{
  first_byte, stop_byte, IsWithin, Holds, AllWithin, Holds-set, Tiles-cast, Delivers, IsRunning,
  stop-le-size, enter-IsSending, after-IsRunning,
}

module _ (mtu size : ℕ) (mtu_low : 8 < mtu) (mtu_high : mtu < 2 ^ 16) (small : size < 2 ^ 32) where
  module _ {W : Type 0} (io : ServerIo W) (steady : IsSteady io) where
    -- One interval, from its start to its end.
    pub interval-delivered :
        (fuel i : ℕ) (t : Transfer) (v : Interval) (w : W)
        → size ≤ fuel
        → IsRunning mtu size t
        → IsWithin mtu size v
        → (t' : Transfer) × (w' : W) × (l : List DataPacket) × (os_hal_start_poll_operation io fuel
              (enter_interval t i v)
              w
            ≡ some (t', w'))
          × (t'.sent ≡ t.sent ++ l)
          × Tiles mtu (stop_byte mtu size v) (first_byte mtu v) (stop_byte mtu size v) l
          × IsRunning mtu size t'
          × (t'.ctx ≡ (enter_interval t i v).ctx)
          × Genuine (payload_of steady.content t.ctx) l
    interval-delivered fuel i t v w f r h =
        let (s, a, b) = enter-IsSending mtu size mtu_low mtu_high small t i v r h in
        let top = stop-le-size mtu size mtu_low mtu_high small v in
        let (t', w', l, q, sends, done) =
          os_hal_start_poll_operation-Sends io steady mtu (stop_byte mtu size v) mtu_low mtu_high
            (omega arith) fuel (enter_interval t i v) w s (omega (arith, b, h.some_byte))
            (omega (arith, b)) in
        (
          t',
          w',
          l,
          q,
          sends.log,
          Tiles-cast mtu (stop_byte mtu size v) l a done sends.tiles,
          after-IsRunning mtu size mtu_low mtu_high small steady.content t i v l t' r sends,
          sends.context,
          sends.genuine,
        )

    observe-running : (t : Transfer) (w : W) → (observe io t w).0 ≡ t
    observe-running t w = ap (λ c. record t { ctx = c }) (steady.alone t.ctx w)

    -- A round of the loop over the intervals.
    send_intervals-step :
        (fuel n i : ℕ) (t : Transfer) (v : Interval) (w : W) {r : Transfer × W}
        → t.ctx.keep_running ≡ true
        → get_elem? t.ctx.request.intervals i ≡ some v
        → os_hal_start_poll_operation io fuel (enter_interval t i v) (observe io t w).1 ≡ some r
        → send_intervals io fuel (suc n) i t w ≡ send_intervals io fuel n (i + 1) r.0 r.1
    unfolding send_intervals
    send_intervals-step fuel n i t v w k g e =
        rw (steady.alone t.ctx w) (if-true k _ _ ∙ rw (g, e) refl)

    send_intervals-Delivers :
        (fuel i : ℕ) (vs : List Interval) (t : Transfer) (w : W)
        → size ≤ fuel
        → IsRunning mtu size t
        → Holds t.ctx.request.intervals i vs
        → AllWithin mtu size vs
        → (t' : Transfer) × (w' : W) × (l : List DataPacket) × (send_intervals io fuel
              (length vs)
              i
              t
              w
            ≡ some (t', w'))
          × (t'.sent ≡ t.sent ++ l)
          × Delivers mtu size vs l
          × Genuine (payload_of steady.content t.ctx) l
          × IsRunning mtu size t'
    unfolding send_intervals
    send_intervals-Delivers fuel i [] t w f r h a =
        (t, w, [], refl, sym (append-nil t.sent), refl, tt, r)
    send_intervals-Delivers fuel i (v ∷ vs) t w f r h a =
        let (t₁, w₁, l₁, q₁, s₁, d₁, r₁, c₁, g₁) =
          interval-delivered fuel i t v (observe io t w).1 f r a.0 in
        let (t₂, w₂, l₂, q₂, s₂, d₂, g₂, r₂) =
          send_intervals-Delivers fuel (i + 1) vs t₁ w₁ f r₁
            (subst (λ c. Holds c.request.intervals (i + 1) vs) (sym c₁)
              (Holds-set t.ctx.request.intervals (i + 1) i _ vs (omega arith) h.1))
            a.1 in
        (
          t₂,
          w₂,
          l₁ ++ l₂,
          send_intervals-step fuel (length vs) i t v w r.running h.0 q₁ ∙ q₂,
          rw (s₂, s₁) (append_assoc t.sent l₁ l₂),
          (l₁, l₂, refl, d₁, d₂),
          Genuine-append (payload_of steady.content t.ctx) l₁ l₂ g₁
              (subst (λ c. Genuine (payload_of steady.content c) l₂) c₁ g₂),
          r₂,
        )

-- For an undisturbed transfer that asks for no keep-alive, with an MTU above 8, a positive throughput, a
-- payload below 2 ^ 32 bytes, one or more intervals that each hold a byte of the payload, and a
-- floating point test that rejects a throughput of 0, `start_sending_data` ends, given fuel for the
-- payload's bytes. The packets that it has sent carry, for each interval in turn, the interval's bytes
-- from the first to the last, in order, each once, in packets as long as the MTU and the end of the
-- interval allow; and the bytes in each packet are those of the payload at the packet's offset.
pub start_sending_data-Delivers :
    {W : Type 0} (io : ServerIo W) (floats : Floats) (ctx : TransferCtx) (vs : List Interval)
    (fuel : ℕ) (w : W) (steady : IsSteady io)
    → 8 < ctx.request.mtu
    → ctx.request.mtu < 2 ^ 16
    → ctx.payload_meta.size < 2 ^ 32
    → ctx.keep_running ≡ true
    → ctx.request.keep_alive_interval ≡ 0
    → RejectsZero floats
    → 0 < ctx.request.throughput
    → ctx.request.throughput < 2 ^ 32
    → 0 < length vs
    → length vs ≤ length ctx.request.intervals
    → ctx.request.nof_intervals ≡ length vs
    → Holds ctx.request.intervals 0 vs
    → AllWithin ctx.request.mtu ctx.payload_meta.size vs
    → ctx.payload_meta.size ≤ fuel
    → (t : Transfer) × (w' : W) × (start_sending_data io floats fuel ctx w ≡ some (dtp_ok, t, w'))
      × Delivers ctx.request.mtu ctx.payload_meta.size vs t.sent
      × Genuine (payload_of steady.content ctx) t.sent
unfolding start_sending_data
start_sending_data-Delivers {W} io floats ctx vs fuel w steady lo hi small k na z t0 t1 n0 n1 n h a
      f =
    let (metric, m, ten, p, second, short) =
      compute_dtp_metrics-total floats ctx.request ctx.payload_meta.size z lo hi t0 t1
        (omega (arith, n, n0)) (omega (arith, n, n1)) in
    let now = io.csp_get_ms w in
    let (t, w', l, q, s, d, g, r) =
      send_intervals-Delivers ctx.request.mtu ctx.payload_meta.size lo hi small io steady fuel 0 vs
        (first_transfer metric ctx now.0) now.1 f
        (record { mtu_is = refl; size_is = refl; running = k; no_alive = na; rounds = p }) h a in
    let q' = ap (λ k. send_intervals io fuel k 0 (first_transfer metric ctx now.0) now.1) n ∙ q in
    (
      t,
      complete io t w',
      rw (m, q') refl,
      subst (Delivers ctx.request.mtu ctx.payload_meta.size vs) (sym s) d,
      subst (Genuine (payload_of steady.content ctx)) (sym s) g,
    )
