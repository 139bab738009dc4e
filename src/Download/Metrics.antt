-- ===== src/Download/Metrics.antt =====
-- The metrics that src/dtp_protocol.c computes for the intervals of a request: their packets, and the last.
use mathlib.Core.Path.{subst}
use libdtp.Common.{
  ℕ, suc, ◌+◌, ◌-◌, ◌^◌, ◌<◌, ◌≡◌, refl, sym, ap, ap₂, ◌∙◌, List, [], ◌∷◌, Option, some, arith,
  add32, sub32, some_inj, length, get_elem?, ◌>>=◌,
}
use libdtp.Session.{Interval, MetaReq, chunk32}
use libdtp.Protocol.{Floats, DtpMetrics, sum_packets, last_end, packet_end, compute_dtp_metrics}
use libdtp.Protocol.Packets.{metrics-Counts}
use libdtp.Server.Ranges.{Holds}
use libdtp.Resume.Numbers.{le_times}
use libdtp.Download.{last_of, AsksFrom, packets_of, final_of}

Holds-tail :
    (x : Interval) (l : List Interval) (i : ℕ) (vs : List Interval)
    → Holds (x ∷ l) (suc i) vs
    → Holds l i vs
Holds-tail x l i [] h = tt
Holds-tail x l i (v ∷ vs) h = (
  h.0,
  subst (λ j. Holds l j vs) (omega arith)
      (Holds-tail x l (suc i) vs (subst (λ j. Holds (x ∷ l) j vs) (omega arith) h.1)),
)

Holds-final :
    (mtu size k i : ℕ) (l : List Interval) (v : Interval) (vs : List Interval)
    → Holds l i (v ∷ vs)
    → (u : Interval) × (get_elem? l (i + length vs) ≡ some u)
      × (last_of mtu size u ≡ final_of mtu size k (v ∷ vs))
Holds-final mtu size k i l v [] h = (v, ap (get_elem? l) (omega arith) ∙ h.0, refl)
Holds-final mtu size k i l v (w ∷ vs) h =
    let (u, e, f) = Holds-final mtu size (last_of mtu size v) (i + 1) l w vs h.1 in
    (u, ap (get_elem? l) (omega arith) ∙ e, f)

module _ (mtu size : ℕ) (mtu_low : 8 < mtu) where
  sum_packets-of :
      (vs : List Interval) (l : List Interval) (k acc : ℕ)
      → AsksFrom mtu size k vs
      → Holds l 0 vs
      → size < 2 ^ 32
      → acc + packets_of mtu size vs < 2 ^ 32
      → sum_packets size (mtu - 8) (length vs) l acc ≡ some (acc + packets_of mtu size vs)
  unfolding sum_packets
  sum_packets-of [] l k acc a h small few = ap some (omega arith)
  sum_packets-of (v ∷ vs) [] k acc a h small few = cc
  sum_packets-of (v ∷ vs) (x ∷ l) k acc a h small few =
      let q : v ≡ x = sym (some_inj h.0) in
      let z : ℕ = last_of mtu size v in
      let word : z < 2 ^ 32 =
        omega (arith, le_times z (mtu - 8) (omega (arith, mtu_low)), a.2, small) in
      let n : add32 acc (add32 (sub32 (packet_end size (mtu - 8) x.end) x.start) 1)
          ≡ acc + (z - v.start + 1) =
        ap (λ y. add32 acc (add32 (sub32 (last_of mtu size y) y.start) 1)) (sym q)
        ∙ omega (arith, word, a.1, few) in
      ap (sum_packets size (mtu - 8) (length vs) l) n
      ∙ (sum_packets-of vs l (z + 1) (acc + (z - v.start + 1)) a.4
            (Holds-tail x l 0 vs (subst (λ j. Holds (x ∷ l) j vs) (omega arith) h.1)) small
            (omega (arith, few))
          ∙ ap some (omega arith))

-- The metrics of a request for the packets of intervals.
pub compute_dtp_metrics-of :
    (mtu size k : ℕ) (floats : Floats) (request : MetaReq) (m : DtpMetrics) (v : Interval)
    (vs : List Interval)
    → 8 < mtu
    → mtu < 2 ^ 16
    → size < 2 ^ 32
    → request.mtu ≡ mtu
    → request.nof_intervals ≡ length (v ∷ vs)
    → Holds request.intervals 0 (v ∷ vs)
    → AsksFrom mtu size k (v ∷ vs)
    → packets_of mtu size (v ∷ vs) < 2 ^ 32
    → compute_dtp_metrics floats request size ≡ some m
    → (m.nof_packets ≡ packets_of mtu size (v ∷ vs))
      × (m.last_packet ≡ final_of mtu size k (v ∷ vs))
compute_dtp_metrics-of mtu size k floats request m v vs low high small is n h a few e =
    let (c, pos) = metrics-Counts floats request size m e in
    let chunk : chunk32 request.mtu ≡ mtu - 8 = omega (arith, is, low, high) in
    let l : List Interval = request.intervals in
    let sum = sum_packets-of mtu size low (v ∷ vs) l k 0 a h small (omega (arith, few)) in
    let (u, f, g) = Holds-final mtu size k 0 l v vs h in
    let count : m.nof_packets ≡ 0 + packets_of mtu size (v ∷ vs) =
      some_inj (sym c.count ∙ (ap₂ (λ x y. sum_packets size x y l 0) chunk n ∙ sum)) in
    let end : (c.last).0 ≡ u.end = some_inj (
      sym (c.last).1
      ∙ (ap (λ y. last_end y l) n
          ∙ ap (λ (o : Option Interval). o >>= λ i. some i.end)
              (ap (get_elem? l) (omega arith) ∙ f))) in
    (omega (arith, count), (c.last).2 ∙ (ap₂ (packet_end size) chunk end ∙ g))
