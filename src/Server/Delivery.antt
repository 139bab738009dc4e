-- ===== src/Server/Delivery.antt =====
-- The polls of an interval, up to its end, and the transfer of the whole payload.
use libdtp.Common.{
  ℕ, zero, suc, ◌+◌, ◌-◌, ◌^◌, ◌≤◌, ◌<◌, ◌≡◌, refl, ◌∙◌, List, [], ◌∷◌, ◌++◌, some, arith, ltb,
  if◌then◌else◌, ◌⊎◌, inl, inr, Bool-cases, if-true, if-false, ltb→lt,
}
use libdtp.Server.{
  DataPacket, Transfer, ServerIo, is_full, asked_length, observe, poll_rounds, dtp_server_poll_loop,
  os_hal_start_poll_operation,
}
use libdtp.Server.Poll.{
  IsSteady, IsSending, Sends, Sends-trans, Sends-none, observe-same, send_one, packet_of,
  packet_bytes, step_Sends, next_world, advanced,
}

module _ {W : Type 0} (io : ServerIo W) (steady : IsSteady io) (mtu e : ℕ) (mtu_low : 8 < mtu)
    (mtu_high : mtu < 2 ^ 16) (small : e < 2 ^ 32) where
  abbrev Polled : Transfer → W → ℕ → Transfer × W → Type 0
  Polled t w n r =
      (l : List DataPacket) × Sends steady.content mtu e t l r.0
      × ((n ≡ 0) ⊎ (t.sent_in_interval < r.0.sent_in_interval))

  observed : Transfer → W → W
  observed t w = (observe io t w).1

  observe_lem : (t : Transfer) (w : W) → observe io t w ≡ (t, observed t w)
  unfolding observed
  observe_lem t w =
      λ i. (observe-same io steady mtu e mtu_low mtu_high small t w i, (observe io t w).1)

  sent_world : Transfer → W → W
  sent_world t w = next_world io steady mtu e mtu_low mtu_high small t (observed t w)

  rounds_step :
      (n : ℕ) (t : Transfer) (w : W)
      → IsSending mtu e t
      → t.sent_in_interval < t.bytes_in_interval
      → poll_rounds io (suc n) t w ≡ (
          if is_full t
          then poll_rounds io n (advanced steady.content t) (sent_world t w)
          else (advanced steady.content t, sent_world t w))
  unfolding poll_rounds sent_world observed
  rounds_step n t w s h = ground (
    arith,
    steady.alone t.ctx w,
    send_one io steady mtu e mtu_low mtu_high small t (observed t w) s h,
    s.running,
  )

  poll_rounds-Polled :
      (n : ℕ) (t : Transfer) (w : W)
      → IsSending mtu e t
      → t.sent_in_interval < t.bytes_in_interval
      → (r : Transfer × W) × (poll_rounds io n t w ≡ r) × Polled t w n r
  unfolding poll_rounds
  poll_rounds-Polled zero t w s h =
      ((t, w), refl, ([], Sends-none steady.content mtu e t s, inl refl))
  poll_rounds-Polled (suc n) t w s h =
      let t' : Transfer = advanced steady.content t in
      let one = step_Sends io steady mtu e mtu_low mtu_high small t s h in
      let b = packet_bytes io steady mtu e mtu_low mtu_high small t s h in
      let c : t'.sent_in_interval ≡ t.sent_in_interval + asked_length t =
        omega (arith, b.1, s.fits) in
      elim (Bool-cases (is_full t)) [
        | inl full ↦
            let (r, q, p) = poll_rounds-Polled n t' (sent_world t w) one.state (rw c (b.3 full)) in
            let first = packet_of io steady mtu e mtu_low mtu_high small t in
            (
              r,
              rounds_step n t w s h ∙ (if-true full _ _ ∙ q),
              (
                first ∷ p.0,
                Sends-trans steady.content mtu e t t' r.0 (first ∷ []) p.0 one p.1,
                inr (omega (arith, (p.1).progress, c, b.0)),
              ),
            )
        | inr final ↦ (
          (t', sent_world t w),
          rounds_step n t w s h ∙ if-false final _ _,
          (
            packet_of io steady mtu e mtu_low mtu_high small t ∷ [],
            one,
            inr (omega (arith, c, b.0)),
          ),
        )
      ]

  -- One poll sends at least a packet, and asks for the next one as long as bytes are left.
  poll-Polled :
      (t : Transfer) (w : W)
      → IsSending mtu e t
      → t.sent_in_interval < t.bytes_in_interval
      → (t' : Transfer) × (w' : W) × (l : List DataPacket) × (dtp_server_poll_loop io t w
          ≡ (ltb t'.sent_in_interval t'.bytes_in_interval, t', w'))
        × Sends steady.content mtu e t l t'
        × (t.sent_in_interval < t'.sent_in_interval)
  unfolding dtp_server_poll_loop observed
  poll-Polled t w s h =
      let (r, q, p) = poll_rounds-Polled t.nof_packets_per_round t w s h in
      let grown : t.sent_in_interval < r.0.sent_in_interval = elim p.2 [
        | inl z ↦ absurd (omega (arith, s.rounds, z))
        | inr more ↦ more
      ] in
      (
        r.0,
        observed r.0 r.1,
        p.0,
        rw q (ground (arith, steady.alone r.0.ctx r.1, (p.1).state.running)),
        p.1,
        grown,
      )

  -- For an undisturbed transfer with an MTU above 8, in the middle of an interval that ends at byte `e`
  -- below 2 ^ 32, and with at least as much fuel as bytes that are left, the polls end, and have sent
  -- the rest of the interval: packets that carry the bytes of the payload at their offsets.
  pub os_hal_start_poll_operation-Sends :
      (fuel : ℕ) (t : Transfer) (w : W)
      → IsSending mtu e t
      → t.sent_in_interval < t.bytes_in_interval
      → t.bytes_in_interval - t.sent_in_interval ≤ fuel
      → (t' : Transfer) × (w' : W) × (l : List DataPacket) × (os_hal_start_poll_operation io fuel t
            w
          ≡ some (t', w'))
        × Sends steady.content mtu e t l t'
        × (t'.bytes_sent ≡ e)
  unfolding os_hal_start_poll_operation
  os_hal_start_poll_operation-Sends zero t w s h f = absurd (omega arith)
  os_hal_start_poll_operation-Sends (suc fuel) t w s h f =
      let (u, w₁, l, q, sends, more) = poll-Polled t w s h in
      elim (Bool-cases (ltb u.sent_in_interval u.bytes_in_interval)) [
        | inl left ↦
            let (t', w', k, q', sends', done) =
              os_hal_start_poll_operation-Sends fuel u w₁ sends.state (ltb→lt _ _ left)
                (omega (arith, sends.bytes, more)) in
            (
              t',
              w',
              l ++ k,
              rw (q, left) q',
              Sends-trans steady.content mtu e t u t' l k sends sends',
              done,
            )
        | inr all ↦ (
          u,
          w₁,
          l,
          rw (q, all) refl,
          sends,
          ground (arith, sends.state.at_byte, sends.state.within),
        )
      ]
