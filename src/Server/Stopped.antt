-- ===== src/Server/Stopped.antt =====
-- What is sent of a transfer that has been stopped, by a stop request or because its client is lost.
use mathlib.Core.Path.{subst}
use libdtp.Common.{
  ℕ, zero, suc, ◌<◌, ◌≡◌, refl, sym, ap, ◌∙◌, List, Bool, true, false, not, ◌&&◌, some, arith, ltb,
  ◌==◌, if-true, if-false, Bool-cases, inl, inr,
}
use libdtp.Server.{
  TransferCtx, Transfer, ServerIo, observe, poll_rounds, dtp_server_poll_loop,
  os_hal_start_poll_operation, send_intervals, asked_length, after_packet, client_lost, stop,
  send_packet, check_alive,
}

-- No other task starts the transfer again.
abbrev pub StaysStopped : {W : Type 0} → ServerIo W → Type 0
StaysStopped {W} io =
    (c : TransferCtx) (w : W) → c.keep_running ≡ false → (io.others c w).0.keep_running ≡ false

and_false : (b : Bool) → (b && false) ≡ false
and_false true = refl
and_false false = refl

module _ {W : Type 0} (io : ServerIo W) (stays : StaysStopped io) where
  -- A transfer that is stopped and has sent what `t` has.
  record IsStopped (t u : Transfer) : Type 0 where
    stopped : u.ctx.keep_running ≡ false
    sent : u.sent ≡ t.sent

  observe-IsStopped : (t u : Transfer) (w : W) → IsStopped t u → IsStopped t (observe io u w).0
  observe-IsStopped t u w h = record { stopped = stays u.ctx w h.stopped; sent = h.sent }

  rounds-IsStopped :
      (n : ℕ) (t u : Transfer) (w : W) → IsStopped t u → IsStopped t (poll_rounds io n u w).0
  unfolding poll_rounds
  rounds-IsStopped zero t u w h = h
  rounds-IsStopped (suc n) t u w h =
      let r = observe-IsStopped t u w h in
      subst (λ (p : Transfer × W). IsStopped t p.0) (sym (if-true (ap not r.stopped) _ _)) r

  -- A poll whose rounds leave the transfer stopped is the interval's last.
  last_poll-IsStopped :
      (fuel : ℕ) (t u : Transfer) (w : W)
      → IsStopped t (poll_rounds io u.nof_packets_per_round u w).0
      → (v : Transfer) × (w' : W) × (os_hal_start_poll_operation io (suc fuel) u w ≡ some (v, w'))
        × IsStopped t v
  unfolding os_hal_start_poll_operation dtp_server_poll_loop
  last_poll-IsStopped fuel t u w h =
      let p = poll_rounds io u.nof_packets_per_round u w in
      let q = observe io p.0 p.1 in
      let r = observe-IsStopped t p.0 p.1 h in
      let off : (ltb q.0.sent_in_interval q.0.bytes_in_interval && q.0.ctx.keep_running) ≡ false =
        ap (λ k. ltb q.0.sent_in_interval q.0.bytes_in_interval && k) r.stopped
        ∙ and_false (ltb q.0.sent_in_interval q.0.bytes_in_interval) in
      (q.0, q.1, if-false off _ _, r)

  intervals-IsStopped :
      (fuel n i : ℕ) (t u : Transfer) (w : W)
      → IsStopped t u
      → (v : Transfer) × (w' : W) × (send_intervals io fuel n i u w ≡ some (v, w')) × IsStopped t v
  unfolding send_intervals
  intervals-IsStopped fuel zero i t u w h = (u, w, refl, h)
  intervals-IsStopped fuel (suc n) i t u w h =
      let r = observe-IsStopped t u w h in
      let p = observe io u w in (p.0, p.1, if-false r.stopped _ _, r)

  -- A transfer that is stopped in the middle of an interval, and that no other task starts again, sends
  -- nothing more: the interval's polls end with the first of them, and the loop over the intervals
  -- that are left ends too, with no packet but those that were sent before.
  pub stopped-sends_nothing :
      (fuel fuel' n i : ℕ) (t : Transfer) (w : W)
      → t.ctx.keep_running ≡ false
      → (u : Transfer) × (v : Transfer) × (w₁ : W) × (w₂ : W) × (os_hal_start_poll_operation io
            (suc fuel)
            t
            w
          ≡ some (u, w₁))
        × (send_intervals io fuel' n i u w₁ ≡ some (v, w₂))
        × (v.sent ≡ t.sent)
        × (v.ctx.keep_running ≡ false)
  stopped-sends_nothing fuel fuel' n i t w h =
      let here : IsStopped t t = record { stopped = h; sent = refl } in
      let (u, w₁, e, a) =
        last_poll-IsStopped fuel t t w (rounds-IsStopped t.nof_packets_per_round t t w here) in
      let (v, w₂, f, b) = intervals-IsStopped fuel' n i t u w₁ a in
      (u, v, w₁, w₂, e, f, b.sent, b.stopped)

  -- The packet that is sent when the client is found lost.
  module _ (t : Transfer) (w : W) where
    abbrev pub seen : Transfer × W
    seen = observe io t w

    abbrev pub bytes_read : ℕ × List ℕ × W
    bytes_read =
        io.read seen.0.ctx.payload_meta seen.0.ctx.request.payload_id seen.0.bytes_sent
          (asked_length seen.0) (io.csp_buffer_get seen.1).1

    abbrev pub last_sent : Transfer
    last_sent = after_packet seen.0 bytes_read.0 bytes_read.1

    lost_send :
        (io.csp_buffer_get seen.1).0 ≡ true
        → (bytes_read.0 == 0) ≡ false
        → ltb 0 seen.0.ctx.request.keep_alive_interval ≡ true
        → client_lost last_sent (io.csp_get_ms bytes_read.2).0 ≡ true
        → (send_packet io seen.0 seen.1).1 ≡ stop last_sent
    unfolding send_packet check_alive
    lost_send a b c d = rw (a, b, c, d) refl

    lost_round :
        (n : ℕ)
        → 0 < n
        → seen.0.ctx.keep_running ≡ true
        → (send_packet io seen.0 seen.1).1 ≡ stop last_sent
        → IsStopped last_sent (poll_rounds io n t w).0
    unfolding poll_rounds
    lost_round zero z run e = absurd (omega arith)
    lost_round (suc n) z run e =
        let r = send_packet io seen.0 seen.1 in
        let halted : IsStopped last_sent (stop last_sent) = record {
          stopped = refl;
          sent = refl;
        } in
        let now : IsStopped last_sent r.1 = subst (IsStopped last_sent) (sym e) halted in
        let P : Transfer × W → Type 0 = λ p. IsStopped last_sent p.0 in
        let on = if-false (ap not run) _ _ in
        elim (Bool-cases r.0) [
          | inl go_on ↦
              subst P (sym (on ∙ if-true go_on _ _)) (rounds-IsStopped n last_sent r.1 r.2 now)
          | inr last ↦ subst P (sym (on ∙ if-false last _ _)) now
        ]

    -- A running transfer under keep-alive supervision, which finds after its next packet that no message
    -- of the client has come for longer than twice the interval and 500 milliseconds more, ends with
    -- that packet: the polls of the interval end, the loop over the intervals that are left ends, and
    -- nothing is sent behind it. There is a buffer, the read delivers some bytes, a round has a packet
    -- at least, and no other task starts the transfer again.
    pub lost_client-sends_last :
        (fuel fuel' n i : ℕ)
        → 0 < t.nof_packets_per_round
        → seen.0.ctx.keep_running ≡ true
        → (io.csp_buffer_get seen.1).0 ≡ true
        → (bytes_read.0 == 0) ≡ false
        → ltb 0 seen.0.ctx.request.keep_alive_interval ≡ true
        → client_lost last_sent (io.csp_get_ms bytes_read.2).0 ≡ true
        → (u : Transfer) × (v : Transfer) × (w₁ : W) × (w₂ : W) × (os_hal_start_poll_operation io
              (suc fuel)
              t
              w
            ≡ some (u, w₁))
          × (send_intervals io fuel' n i u w₁ ≡ some (v, w₂))
          × (v.sent ≡ last_sent.sent)
          × (v.ctx.keep_running ≡ false)
    lost_client-sends_last fuel fuel' n i z run a b c d =
        let r = lost_round t.nof_packets_per_round z run (lost_send a b c d) in
        let (u, w₁, e, s) = last_poll-IsStopped fuel last_sent t w r in
        let (v, w₂, f, q) = intervals-IsStopped fuel' n i last_sent u w₁ s in
        (u, v, w₁, w₂, e, f, q.sent, q.stopped)
