-- ===== src/Client/Outcome/Round.antt =====
-- src/dtp_client.c: a round of the receiver loop leaves fewer rounds, or ends the loop.
use native.Mathlib.Nat.{mul-le-mul_right}
use libdtp.Common.{
  ℕ, ◌+◌, ◌*◌, ◌^◌, ◌≤◌, ◌<◌, ◌≡◌, refl, ◌∙◌, Bool, true, false, Option, none, some, if◌then◌else◌,
  arith, ltb, leb, ◌==◌, add32, sub32, mul32, u32, ◌/◌, inl, inr, Bool-cases,
}
use libdtp.Session.{dtp_cancelled, Session, Packet, chunk_size}
use libdtp.Protocol.{DtpMetrics}
use libdtp.Pool.{Outside}
use libdtp.Client.{
  Network, Receiver, accept_packet, receive_packet, receive_timeout, receive_event, receive_round,
  data_hook, keep_alive,
}
use libdtp.Client.Outcome.{End, complete, incomplete, stopped, IsFinite, rounds_left, IsWaiting}

module _ {W : Type 0} (out : Outside W) (net : Network W) (pending : W → ℕ)
    (finite : IsFinite out net pending) (metric : DtpMetrics) (start_ts timeout : ℕ)
    (pause : 0 < metric.round_time_ms)
    (small : timeout * 1000 + metric.round_time_ms < 2 ^ 32) where
  fewer_packets :
      (k n i : ℕ) → k < n → i ≤ timeout * 1000 → rounds_left timeout k 0 < rounds_left timeout n i
  fewer_packets k n i h b = omega (arith, mul-le-mul_right (timeout * 1000 + 2) h)

  rounds_left_mono : (k n i : ℕ) → k ≤ n → rounds_left timeout k i ≤ rounds_left timeout n i
  rounds_left_mono k n i h = omega (arith, mul-le-mul_right (timeout * 1000 + 2) h)

  -- A step from a receiver with `k` rounds left.
  abbrev pub Step : ℕ → Bool × Receiver × W → Type 0
  Step k (true, r, w) = IsWaiting timeout r × (rounds_left timeout (pending w) r.idle_ms < k)
  Step k (false, r, w) = End metric r

  pub Step-mono : {j k : ℕ} (s : Bool × Receiver × W) → j ≤ k → Step j s → Step k s
  Step-mono (true, r, w) h (a, m) = (a, omega (arith, h, m))
  Step-mono (false, r, w) h e = e

  Step-if :
      (k : ℕ) (x y : Bool × Receiver × W) (b : Bool)
      → (b ≡ true → Step k x)
      → (b ≡ false → Step k y)
      → Step k (if b then x else y)
  Step-if k x y true f g = f refl
  Step-if k x y false f g = g refl

  receive_timeout-Step :
      (r : Receiver) (w : W)
      → IsWaiting timeout r
      → Step
          (rounds_left timeout (pending w) r.idle_ms)
          (receive_timeout out net metric start_ts r w)
  unfolding receive_timeout
  receive_timeout-Step r w h =
      let a : add32 r.idle_ms metric.round_time_ms ≡ r.idle_ms + metric.round_time_ms =
        omega (arith, h.idle) in
      elim (Bool-cases (ltb (timeout * 1000) (r.idle_ms + metric.round_time_ms))) [
        | inl late ↦ rw (a, h.timeout_is, late) (stopped refl refl)
        | inr early ↦
            let b : r.idle_ms + metric.round_time_ms ≤ timeout * 1000 = ground arith in
            rw (a, h.timeout_is, early)
              (record { timeout_is = refl; idle = b; undecided = h.undecided }, omega (arith, b))
      ]

  data_hook_kept :
      (p : Packet) (s : Session) (w : W)
      → ((data_hook out net p s w).0.timeout ≡ s.timeout)
        × (pending (data_hook out net p s w).1 ≤ pending w)
  unfolding data_hook
  data_hook_kept p s w = elim (Bool-cases (s.hooks.on_data_packet == 0)) [
    | inl none_set ↦ rw none_set (refl, omega arith)
    | inr set ↦ rw set (
      finite.hook_timeout s.hooks.on_data_packet p s w,
      finite.hook_pending s.hooks.on_data_packet p s w,
    )
  ]

  keep_alive_kept :
      (s : Session) (now last : ℕ) (w : W) → pending (keep_alive out net s now last w).1 ≤ pending w
  unfolding keep_alive
  keep_alive_kept s now last w = ground (arith, finite.alive s.node w)

  accept_packet-Step :
      (k : ℕ) (p : Packet) (r : Receiver) (w : W)
      → r.session.timeout ≡ timeout
      → r.idle_ms ≡ 0
      → r.result ≡ dtp_cancelled
      → rounds_left timeout (pending w) 0 < k
      → Step k (accept_packet out net metric start_ts p r w)
  unfolding accept_packet
  accept_packet-Step k p r w h z u m =
      let s : Session = record (r.session) {
        bytes_received = add32 r.session.bytes_received (sub32 p.packet_length 8);
      } in
      let alive = keep_alive out net s r.now_ts_ms r.last_alive w in
      let hook = data_hook out net p s alive.1 in
      let kept = data_hook_kept p s alive.1 in
      let left : rounds_left timeout (pending hook.1) 0 < k = omega (
        arith,
        m,
        rounds_left_mono (pending hook.1) (pending w) 0
            (omega (arith, kept.1, keep_alive_kept s r.now_ts_ms r.last_alive w)),
      ) in
      elim (Bool-cases (leb metric.last_packet r.packet_seq)) [
        | inl last ↦ elim (Bool-cases (hook.0.bytes_received == hook.0.payload_size)) [
          | inl all ↦ rw (last, all) (complete refl (ground (arith, all)) (ground (arith, last)))
          | inr some_lost ↦
              rw (last, some_lost)
                (incomplete refl (λ e. ground (arith, e, some_lost)) (ground (arith, last)))
        ]
        | inr more ↦
            rw (more, z)
              (record { timeout_is = kept.0 ∙ h; idle = omega (arith, z); undecided = u }, left)
      ]

  receive_packet-Step :
      (k : ℕ) (p : Packet) (r : Receiver) (w : W)
      → IsWaiting timeout r
      → rounds_left timeout (pending w) 0 < k
      → Step k (receive_packet out net metric start_ts p r w)
  unfolding receive_packet
  receive_packet-Step k p r w h m =
      let now = net.csp_get_ms w in
      let seq : ℕ = u32 (p.data32_0 / chunk_size r.session.request_meta.mtu) in
      let r' : Receiver = record r { idle_ms = 0; now_ts_ms = now.0; packet_seq = seq } in
      let left : rounds_left timeout (pending now.1) 0 < k =
        omega (arith, m, rounds_left_mono (pending now.1) (pending w) 0 (finite.clock w)) in
      elim (Bool-cases (seq == r.prev_packet_seq)) [
        | inl again ↦ rw again (
          record { timeout_is = h.timeout_is; idle = omega arith; undecided = h.undecided },
          left,
        )
        | inr other ↦ rw other (accept_packet-Step k p r' now.1 h.timeout_is refl h.undecided left)
      ]

  receive_event-Step :
      (o : Option Packet) (n : ℕ) (r : Receiver) (w : W)
      → IsWaiting timeout r
      → pending w ≤ n
      → ((p : Packet) → o ≡ some p → pending w < n)
      → Step (rounds_left timeout n r.idle_ms) (receive_event out net metric start_ts o r w)
  receive_event-Step none n r w h le lt =
      Step-mono (receive_timeout out net metric start_ts r w)
        (rounds_left_mono (pending w) n r.idle_ms le) (receive_timeout-Step r w h)
  receive_event-Step (some p) n r w h le lt =
      receive_packet-Step (rounds_left timeout n r.idle_ms) p r w h
        (fewer_packets (pending w) n r.idle_ms (lt p refl) h.idle)

  pub receive_round-Step :
      (r : Receiver) (w : W)
      → IsWaiting timeout r
      → Step (rounds_left timeout (pending w) r.idle_ms) (receive_round out net metric start_ts r w)
  unfolding receive_round
  receive_round-Step r w h =
      let other = net.others r.session w in
      let got = net.csp_recvfrom (mul32 metric.round_time_ms 2) other.1 in
      let le = finite.others_pending r.session w in
      Step-if _ _ _ other.0.active
        (λ running.
          receive_event-Step got.0 (pending w) (record r { session = other.0 }) got.1
            (record {
              timeout_is = finite.others_timeout r.session w ∙ h.timeout_is;
              idle = h.idle;
              undecided = h.undecided;
            })
            (omega (arith, le, finite.silent (mul32 metric.round_time_ms 2) other.1))
            (λ p e. omega (arith, le, finite.received (mul32 metric.round_time_ms 2) other.1 p e)))
        (λ halted. stopped refl halted)
