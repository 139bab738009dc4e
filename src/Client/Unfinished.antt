-- ===== src/Client/Unfinished.antt =====
-- src/dtp_client.c: the receiver loop where the packet does not come that the metrics call the last.
use libdtp.Common.{
  ℕ, zero, suc, ◌*◌, ◌/◌, ◌<◌, ◌≡◌, refl, sym, ◌∙◌, Bool, true, false, Option, none, some,
  if◌then◌else◌, arith, ltb, leb, ◌==◌, add32, sub32, mul32, u32, inl, inr, Bool-cases,
}
use mathlib.Core.Path.{subst}
use libdtp.Session.{dtp_cancelled, Session, Packet, chunk_size}
use libdtp.Protocol.{DtpMetrics}
use libdtp.Pool.{Outside}
use libdtp.Client.{
  Network, Receiver, accept_packet, receive_packet, receive_timeout, receive_event, receive_round,
  waits, receive_loop, data_hook, keep_alive,
}

-- A network whose packets all begin within a payload of `size` bytes; no other code changes the MTU.
pub record BringsWithin {W : Type 0} (out : Outside W) (net : Network W) (size : ℕ) : Type 0 where
  pub others_mtu : (s : Session) (w : W) → (net.others s w).0.request_meta.mtu ≡ s.request_meta.mtu
  pub hook_mtu :
      (h : ℕ) (p : Packet) (s : Session) (w : W)
      → (out.on_data_packet h p s w).1.request_meta.mtu ≡ s.request_meta.mtu
  pub below : (t : ℕ) (w : W) (p : Packet) → (net.csp_recvfrom t w).0 ≡ some p → p.data32_0 < size

-- The result with which the loop has ended, if it has, is `DTP_CANCELLED`.
abbrev pub Returns : {W : Type 0} → Option (Receiver × W) → Type 0
Returns none = Unit {0}
Returns (some (r, w)) = r.result ≡ dtp_cancelled

by_branch : {A : Type 0} (P : A → Type 0) (b : Bool) (x y : A) → P x → P y → P (if b then x else y)
by_branch P true x y p q = p
by_branch P false x y p q = q

module _ {W : Type 0} (out : Outside W) (net : Network W) (metric : DtpMetrics)
    (start_ts mtu size : ℕ) (brings : BringsWithin out net size)
    (unfinished : (x : ℕ) → x < size → u32 (x / chunk_size mtu) < metric.last_packet) where
  pub record IsOpen (r : Receiver) : Type 0 where
    pub result : r.result ≡ dtp_cancelled
    pub mtu_is : r.session.request_meta.mtu ≡ mtu

  abbrev Stays : Bool × Receiver × W → Type 0
  Stays (go_on, r, w) = IsOpen r

  data_hook_mtu :
      (p : Packet) (s : Session) (w : W)
      → (data_hook out net p s w).0.request_meta.mtu ≡ s.request_meta.mtu
  unfolding data_hook
  data_hook_mtu p s w = elim (Bool-cases (s.hooks.on_data_packet == 0)) [
    | inl none_set ↦ rw none_set refl
    | inr set ↦ rw set (brings.hook_mtu s.hooks.on_data_packet p s w)
  ]

  accept_packet-Stays :
      (p : Packet) (r : Receiver) (w : W)
      → IsOpen r
      → r.packet_seq < metric.last_packet
      → Stays (accept_packet out net metric start_ts p r w)
  unfolding accept_packet
  accept_packet-Stays p r w h early =
      let not_last : leb metric.last_packet r.packet_seq ≡ false = ground (arith, early) in
      let s : Session = record (r.session) {
        bytes_received = add32 r.session.bytes_received (sub32 p.packet_length 8);
      } in
      let alive = keep_alive out net s r.now_ts_ms r.last_alive w in
      rw not_last (record { result = h.result; mtu_is = data_hook_mtu p s alive.1 ∙ h.mtu_is })

  receive_event-Stays :
      (o : Option Packet) (r : Receiver) (w : W)
      → IsOpen r
      → ((p : Packet) → o ≡ some p → p.data32_0 < size)
      → Stays (receive_event out net metric start_ts o r w)
  unfolding receive_timeout receive_packet
  receive_event-Stays none r w h low =
      let idle : ℕ = add32 r.idle_ms metric.round_time_ms in
      elim (Bool-cases (ltb (r.session.timeout * 1000) idle)) [
        | inl late ↦ rw late (record { result = refl; mtu_is = h.mtu_is })
        | inr early ↦ rw early (record { result = h.result; mtu_is = h.mtu_is })
      ]
  receive_event-Stays (some p) r w h low =
      let now = net.csp_get_ms w in
      let seq : ℕ = u32 (p.data32_0 / chunk_size r.session.request_meta.mtu) in
      let r' : Receiver = record r { idle_ms = 0; now_ts_ms = now.0; packet_seq = seq } in
      let waiting : IsOpen r' = record { result = h.result; mtu_is = h.mtu_is } in
      elim (Bool-cases (seq == r.prev_packet_seq)) [
        | inl again ↦ rw again waiting
        | inr other ↦ rw other (
            accept_packet-Stays p r' now.1 waiting (
              subst (λ m. u32 (p.data32_0 / chunk_size m) < metric.last_packet) (sym h.mtu_is)
                (unfinished p.data32_0 (low p refl))))
      ]

  receive_round-Stays :
      (r : Receiver) (w : W) → IsOpen r → Stays (receive_round out net metric start_ts r w)
  unfolding receive_round
  receive_round-Stays r w h =
      let other = net.others r.session w in
      let t : ℕ = mul32 metric.round_time_ms 2 in
      let same = brings.others_mtu r.session w ∙ h.mtu_is in
      let r₁ : Receiver = record r { session = other.0 } in
      let got = net.csp_recvfrom t other.1 in
      by_branch Stays other.0.active (receive_event out net metric start_ts got.0 r₁ got.1)
        (false, record r₁ { result = dtp_cancelled }, other.1)
        (receive_event-Stays got.0 r₁ got.1 (record { result = h.result; mtu_is = same })
          (brings.below t other.1))
        (record { result = refl; mtu_is = same })

  -- However the packets come, the loop ends with nothing but `DTP_CANCELLED`.
  pub receive_loop-cancelled :
      (fuel : ℕ) (r : Receiver) (w : W)
      → IsOpen r
      → Returns (receive_loop out net metric start_ts fuel r w)
  unfolding receive_loop
  receive_loop-cancelled zero r w h = tt
  receive_loop-cancelled (suc fuel) r w h =
      let round = receive_round out net metric start_ts r w in
      let stays = receive_round-Stays r w h in
      let later = receive_loop out net metric start_ts fuel round.1 round.2 in
      let ended : Option (Receiver × W) = some (round.1, round.2) in
      by_branch Returns (waits out net metric start_ts r) (if round.0 then later else ended)
        (some (r, w))
        (by_branch Returns round.0 later ended (receive_loop-cancelled fuel round.1 round.2 stays)
          stays.result)
        h.result
