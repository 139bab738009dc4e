-- ===== src/Client/Outcome/Loop.antt =====
-- src/dtp_client.c: the receiver loop ends.
use libdtp.Common.{
  ℕ, zero, suc, ◌+◌, ◌*◌, ◌^◌, ◌<◌, ◌≡◌, refl, ◌∙◌, Bool, true, false, Option, some, if◌then◌else◌,
  arith, ltb, add32, inl, inr, Bool-cases, if-true, if-false,
}
use libdtp.Protocol.{DtpMetrics}
use libdtp.Pool.{Outside}
use libdtp.Client.{Network, Receiver, receive_round, waits, receive_loop}
use libdtp.Client.Outcome.{End, expired, counted, IsFinite, rounds_left, IsWaiting}
use libdtp.Client.Outcome.Round.{Step, Step-mono, receive_round-Step}

module _ {W : Type 0} (out : Outside W) (net : Network W) (pending : W → ℕ)
    (finite : IsFinite out net pending) (metric : DtpMetrics) (start_ts timeout : ℕ)
    (pause : 0 < metric.round_time_ms)
    (small : timeout * 1000 + metric.round_time_ms < 2 ^ 32) where
  abbrev behind : ℕ → Bool × Receiver × W → Option (Receiver × W)
  behind fuel (go_on, r, w) =
      if go_on then receive_loop out net metric start_ts fuel r w else some (r, w)

  no_wait :
      (r : Receiver) → IsWaiting timeout r → waits out net metric start_ts r ≡ false → End metric r
  no_wait r h over = elim (Bool-cases (ltb (add32 r.now_ts_ms r.idle_ms) r.expected_eot_ts_ms)) [
    | inl early ↦ counted h.undecided (ground (arith, early, over))
    | inr late ↦ expired h.undecided (ground (arith, late))
  ]

  abbrev Ends : ℕ → Receiver → W → Type 0
  Ends fuel r w =
      (r' : Receiver) × (w' : W) × (receive_loop out net metric start_ts fuel r w ≡ some (r', w'))
      × End metric r'

  after-Step :
      (fuel : ℕ)
      → ((r : Receiver) (w : W)
          → IsWaiting timeout r
          → rounds_left timeout (pending w) r.idle_ms < fuel
          → Ends fuel r w)
      → (s : Bool × Receiver × W)
      → Step out net pending finite metric start_ts timeout pause small fuel s
      → (r' : Receiver) × (w' : W) × (behind fuel s ≡ some (r', w')) × End metric r'
  after-Step fuel ends (true, r', w') (h', m) = ends r' w' h' m
  after-Step fuel ends (false, r', w') d = (r', w', refl, d)

  -- In a network that falls silent, with a round time above 0 that together with the timeout stays below
  -- 2 ^ 32 milliseconds, and with more fuel than rounds are left (a round more than the timeout's
  -- milliseconds for each packet still to come, and for the silence behind the last), the loop ends.
  -- The result is `DTP_OK` only if it ends at the last packet with as many bytes received as the
  -- payload has, and else `DTP_CANCELLED`.
  pub receive_loop-ends :
      (fuel : ℕ) (r : Receiver) (w : W)
      → IsWaiting timeout r
      → rounds_left timeout (pending w) r.idle_ms < fuel
      → (r' : Receiver) × (w' : W) × (receive_loop out net metric start_ts fuel r w ≡ some (r', w'))
        × End metric r'
  unfolding receive_loop
  receive_loop-ends zero r w h f = absurd (omega arith)
  receive_loop-ends (suc fuel) r w h f = elim (Bool-cases (waits out net metric start_ts r)) [
    | inl more ↦
        let round = receive_round out net metric start_ts r w in
        let (r', w', e, d) =
          after-Step fuel (λ r w. receive_loop-ends fuel r w) round
            (Step-mono out net pending finite metric start_ts timeout pause small round
              (omega (arith, f))
              (receive_round-Step out net pending finite metric start_ts timeout pause small r w
                h)) in
        (r', w', if-true more _ _ ∙ e, d)
    | inr over ↦ (r, w, if-false over _ _, no_wait r h over)
  ]
