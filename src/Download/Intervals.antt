-- ===== src/Download/Intervals.antt =====
-- The packets of all the intervals of a request, and their arrival at src/dtp_client.c.
use Prim.Native.Nat.{min}
use native.Mathlib.Nat.{mul-le-mul_right, lt-div-mul-add}
use mathlib.Core.Path.{subst, subst₂}
use libdtp.Common.{
  ℕ, ◌+◌, ◌-◌, ◌*◌, ◌/◌, ◌^◌, ◌≤◌, ◌<◌, ◌≡◌, ◌≢◌, refl, sym, ap, List, [], ◌∷◌, ◌++◌, ◌⊎◌, inl, inr,
  arith, ◌==◌, u32, u32_max, Bool-cases, if-true, if-false, length, length-append,
}
use libdtp.Session.{Interval, chunk_size}
use libdtp.Server.{DataPacket}
use libdtp.Server.Poll.{Tiles}
use libdtp.Server.Ranges.{first_byte, stop_byte, AllWithin, Delivers}
use libdtp.Client.Arrivals.{Arrival, Completes, number}
use libdtp.Download.{Carries, AllPaced, last_of, AsksFrom, bytes_of, packets_of, final_of}
use libdtp.Download.Packets.{Ascends, Ascends-Tiles}

Ascends-mono :
    (mtu size last j k b : ℕ) (l : List DataPacket)
    → j ≤ k
    → 0 < length l
    → Ascends mtu size last k b l
    → Ascends mtu size last j b l
Ascends-mono mtu size last j k b [] h n a = absurd (omega (arith, n))
Ascends-mono mtu size last j k b (p ∷ l) h n a = (a.0, omega (arith, h, a.1), a.2, a.3, a.4)

module _ (mtu size : ℕ) (mtu_low : 8 < mtu) where
  -- The bytes of an interval, by the numbers of its packets.
  record Bounds (v : Interval) : Type 0 where
    some_byte : first_byte mtu v < stop_byte mtu size v
    past : last_of mtu size v * (mtu - 8) < stop_byte mtu size v
    top : stop_byte mtu size v ≤ (last_of mtu size v + 1) * (mtu - 8)
    within : stop_byte mtu size v ≤ size

  asked-Bounds :
      (v : Interval)
      → v.start ≤ last_of mtu size v
      → last_of mtu size v * (mtu - 8) < size
      → Bounds v
  asked-Bounds v le real =
      let first : v.start * (mtu - 8) ≤ last_of mtu size v * (mtu - 8) =
        mul-le-mul_right (mtu - 8) le in
      elim (Bool-cases (v.end == u32_max)) [
        | inl whole ↦
            let z : last_of mtu size v ≡ size / (mtu - 8) = if-true whole _ _ in
            let e : stop_byte mtu size v ≡ size = if-true whole _ _ in
            let under = lt-div-mul-add {a = size} {b = mtu - 8} (omega (arith, mtu_low)) in
            record {
              some_byte = omega (arith, e, first, real);
              past = omega (arith, e, real);
              top = rw (e, z) (omega (arith, under));
              within = omega (arith, e);
            }
        | inr part ↦
            let z : last_of mtu size v ≡ v.end = if-false part _ _ in
            let e : stop_byte mtu size v ≡ min size ((v.end + 1) * (mtu - 8)) = if-false part _ _ in
            let real' : v.end * (mtu - 8) < size = subst (λ x. x * (mtu - 8) < size) z real in
            let first' : v.start * (mtu - 8) ≤ v.end * (mtu - 8) =
              subst (λ x. v.start * (mtu - 8) ≤ x * (mtu - 8)) z first in
            record {
              some_byte = rw e (omega (arith, real', first', mtu_low));
              past = rw (e, z) (omega (arith, real', mtu_low));
              top = rw (e, z) (omega arith);
              within = rw e (omega arith);
            }
      ]

  pub AsksFrom-AllWithin :
      (vs : List Interval) (k : ℕ) → AsksFrom mtu size k vs → AllWithin mtu size vs
  AsksFrom-AllWithin [] k h = tt
  AsksFrom-AllWithin (v ∷ vs) k h = (
    record { some_byte = (asked-Bounds v h.1 h.2).some_byte; no_wrap = h.3 },
    AsksFrom-AllWithin vs (last_of mtu size v + 1) h.4,
  )

  final-above :
      (vs : List Interval) (z : ℕ) → AsksFrom mtu size (z + 1) vs → z ≤ final_of mtu size z vs
  final-above [] z h = omega arith
  final-above (v ∷ vs) z h = omega (arith, h.0, h.1, final-above vs (last_of mtu size v) h.4)

  pub final-below :
      (v : Interval) (vs : List Interval) (k : ℕ)
      → AsksFrom mtu size k (v ∷ vs)
      → final_of mtu size k (v ∷ vs) * (mtu - 8) < size
  final-below v [] k h = h.2
  final-below v (u ∷ us) k h = final-below u us (last_of mtu size v + 1) h.4

  -- The packets of an interval, in front of those of the others.
  Ascends-interval :
      (v : Interval) (last b : ℕ) (l l₁ l₂ : List DataPacket)
      → mtu < 2 ^ 16
      → size < 2 ^ 32
      → v.start ≤ last_of mtu size v
      → last_of mtu size v * (mtu - 8) < size
      → last_of mtu size v ≤ last
      → l ≡ l₁ ++ l₂
      → Tiles mtu (stop_byte mtu size v) (first_byte mtu v) (stop_byte mtu size v) l₁
      → Ascends mtu size last
          (last_of mtu size v + 1)
          (b + (stop_byte mtu size v - first_byte mtu v))
          l₂
      → Ascends mtu size last v.start b l
        × (length l ≡ last_of mtu size v - v.start + 1 + length l₂)
  Ascends-interval v last b l l₁ l₂ high small le real upto e t rest =
      let x = asked-Bounds v le real in
      let (a, n) =
        Ascends-Tiles mtu size last mtu_low high small l₁ l₂ v.start (last_of mtu size v)
          (first_byte mtu v) (stop_byte mtu size v) b refl (omega (arith, x.some_byte)) x.past x.top
          x.within upto t rest in
      (
        subst (Ascends mtu size last v.start b) (sym e) a,
        omega (arith, ap length e, length-append l₁ l₂, n, le),
      )

  -- The packets of a request: their numbers grow, they are as many as the intervals have.
  pub Delivers-Ascends :
      (v : Interval) (vs : List Interval) (last k b : ℕ) (l : List DataPacket)
      → mtu < 2 ^ 16
      → size < 2 ^ 32
      → AsksFrom mtu size k (v ∷ vs)
      → Delivers mtu size (v ∷ vs) l
      → final_of mtu size k (v ∷ vs) ≡ last
      → b + bytes_of mtu size (v ∷ vs) ≡ size
      → Ascends mtu size last v.start b l × (length l ≡ packets_of mtu size (v ∷ vs))
  Delivers-Ascends v [] last k b l high small h (l₁, l₂, e, t, d) f total =
      let (a, n) = Ascends-interval v last b l l₁ l₂ high small h.1 h.2 (omega (arith, f)) e t (
        subst
          (Ascends mtu size last (last_of mtu size v + 1)
            (b + (stop_byte mtu size v - first_byte mtu v)))
          (sym d) (omega (arith, f), omega (arith, total))) in
      (a, omega (arith, n, ap length d))
  Delivers-Ascends v (u ∷ us) last k b l high small h (l₁, l₂, e, t, d) f total =
      let z : ℕ = last_of mtu size v in
      let b' : ℕ = b + (stop_byte mtu size v - first_byte mtu v) in
      let (a₂, n₂) =
        Delivers-Ascends u us last (z + 1) b' l₂ high small h.4 d f (omega (arith, total)) in
      let some_packet : 0 < length l₂ = omega (arith, n₂) in
      let (a, n) =
        Ascends-interval v last b l l₁ l₂ high small h.1 h.2
          (omega (arith, f, final-above (u ∷ us) z h.4)) e t
          (Ascends-mono mtu size last (z + 1) u.start b' l₂ h.4.0 some_packet a₂) in
      (a, omega (arith, n, n₂))

unlike_before : (j k x last : ℕ) → (j < k) ⊎ (last < j) → k ≤ x → x ≤ last → x ≢ j
unlike_before j k x last before low high e = ground (arith, e, before)

-- Packets that ascend and arrive in pace complete the payload.
pub Ascends-Completes :
    (mtu start size last j k n b : ℕ) (p : DataPacket) (ps : List DataPacket) (l : List Arrival)
    → Ascends mtu size last k b (p ∷ ps)
    → Carries (p ∷ ps) l
    → AllPaced (chunk_size mtu) start n l
    → (j < k) ⊎ (last < j)
    → Completes mtu start last size j n b l
Ascends-Completes mtu start size last j k n b p ps [] h c paced before = absurd c
Ascends-Completes mtu start size last j k n b p [] (a ∷ []) h c paced before =
    let num : number mtu a ≡ u32 (p.offset / chunk_size mtu) =
      ap (λ q. u32 (q.data32_0 / chunk_size mtu)) c.0 in
    let len : a.packet.packet_length ≡ p.packet_length = ap (λ q. q.packet_length) c.0 in
    rw (num, len)
      (h.0, unlike_before j k _ last before h.1 h.2, omega (arith, h.4.0), omega (arith, h.4.1))
Ascends-Completes mtu start size last j k n b p [] (a ∷ (a' ∷ l)) h c paced before = absurd c.1
Ascends-Completes mtu start size last j k n b p (p' ∷ ps) (a ∷ []) h c paced before = absurd c.1
Ascends-Completes mtu start size last j k n b p (p' ∷ ps) (a ∷ (a' ∷ l)) h c paced before =
    let x : ℕ = u32 (p.offset / chunk_size mtu) in
    let num : number mtu a ≡ x = ap (λ q. u32 (q.data32_0 / chunk_size mtu)) c.0 in
    let len : a.packet.packet_length ≡ p.packet_length = ap (λ q. q.packet_length) c.0 in
    let next =
      Ascends-Completes mtu start size last x (x + 1) (n + 1) (b + (p.packet_length - 8)) p' ps
        (a' ∷ l) h.4 c.1 paced.2 (inl (omega arith)) in
    (
      rw len h.0,
      rw num (unlike_before j k x last before h.1 h.2),
      rw num (omega (arith, h.4.1, h.4.2)),
      rw len h.3,
      paced.0,
      paced.1,
      subst₂ (λ y m. Completes mtu start last size y (n + 1) (b + (m - 8)) (a' ∷ l)) (sym num)
          (sym len) next,
    )
