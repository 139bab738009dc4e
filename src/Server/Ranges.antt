-- ===== src/Server/Ranges.antt =====
-- The ranges of bytes that the intervals of a request stand for, and how `start_sending_data` enters one.
use Prim.Native.Nat.{min}
use libdtp.Common.{
  ℕ, ◌+◌, ◌-◌, ◌*◌, ◌^◌, ◌≤◌, ◌<◌, ◌≡◌, ap, ap₂, ◌∙◌, List, [], ◌∷◌, ◌++◌, true, some, arith, ◌==◌,
  if◌then◌else◌, sub32, u32, u32_max, ◌⊎◌, inl, inr, get_elem?, set, get_elem?-set_ne,
}
use mathlib.Core.Path.{subst₂}
use libdtp.Session.{Interval, chunk_size}
use libdtp.Server.{PayloadMeta, TransferCtx, DataPacket, Transfer, interval_stop, enter_interval}
use libdtp.Server.Poll.{Tiles, IsSending, Sends}

-- The bytes that an interval of packets stands for: from `first_byte` up to `stop_byte`.
abbrev pub first_byte : ℕ → Interval → ℕ
first_byte mtu v = v.start * (mtu - 8)

abbrev pub stop_byte : ℕ → ℕ → Interval → ℕ
stop_byte mtu size v = if v.end == u32_max then size else min size ((v.end + 1) * (mtu - 8))

-- An interval that holds a byte of the payload, with its last packet in the range of 32 bits.
pub record IsWithin (mtu size : ℕ) (v : Interval) : Type 0 where
  pub some_byte : first_byte mtu v < stop_byte mtu size v
  pub no_wrap : (v.end ≡ u32_max) ⊎ ((v.end + 1) * (mtu - 8) < 2 ^ 32)

-- The intervals of a request from index `i` on.
abbrev pub Holds : List Interval → ℕ → List Interval → Type 0
Holds l i [] = Unit {0}
Holds l i (v ∷ vs) = (get_elem? l i ≡ some v) × Holds l (i + 1) vs

abbrev pub AllWithin : ℕ → ℕ → List Interval → Type 0
AllWithin mtu size [] = Unit {0}
AllWithin mtu size (v ∷ vs) = IsWithin mtu size v × AllWithin mtu size vs

pub Holds-set :
    (l : List Interval) (i k : ℕ) (u : Interval) (vs : List Interval)
    → k < i
    → Holds l i vs
    → Holds (set l k u) i vs
Holds-set l i k u [] h g = tt
Holds-set l i k u (v ∷ vs) h g = (
  get_elem?-set_ne l u (λ q. omega (arith, q, h)) ∙ g.0,
  Holds-set l (i + 1) k u vs (omega arith) g.1,
)

pub Tiles-cast :
    (mtu e : ℕ) {a b c d : ℕ} (l : List DataPacket)
    → a ≡ c
    → b ≡ d
    → Tiles mtu e a b l
    → Tiles mtu e c d l
Tiles-cast mtu e l p q h = subst₂ (λ x y. Tiles mtu e x y l) p q h

-- The packets of one interval after the other.
abbrev pub Delivers : ℕ → ℕ → List Interval → List DataPacket → Type 0
Delivers mtu size [] l = l ≡ []
Delivers mtu size (v ∷ vs) l =
    (l₁ : List DataPacket) × (l₂ : List DataPacket) × (l ≡ l₁ ++ l₂)
    × Tiles mtu (stop_byte mtu size v) (first_byte mtu v) (stop_byte mtu size v) l₁
    × Delivers mtu size vs l₂

-- A running transfer of a payload of `size` bytes.
pub record IsRunning (mtu size : ℕ) (t : Transfer) : Type 0 where
  pub mtu_is : t.ctx.request.mtu ≡ mtu
  pub size_is : t.ctx.payload_meta.size ≡ size
  pub running : t.ctx.keep_running ≡ true
  pub no_alive : t.ctx.request.keep_alive_interval ≡ 0
  pub rounds : 0 < t.nof_packets_per_round

module _ (mtu size : ℕ) (mtu_low : 8 < mtu) (mtu_high : mtu < 2 ^ 16) (small : size < 2 ^ 32) where
  pub stop-le-size : (v : Interval) → stop_byte mtu size v ≤ size
  stop-le-size v = ground arith

  pub interval_stop_lem :
      (v : Interval)
      → IsWithin mtu size v
      → interval_stop size (mtu - 8) v.end ≡ stop_byte mtu size v
  unfolding interval_stop
  interval_stop_lem v h = elim (h.no_wrap) [
    | inl whole ↦ ground (arith, whole)
    | inr fits ↦ ground (arith, fits)
  ]

  pub enter-IsSending :
      (t : Transfer) (i : ℕ) (v : Interval)
      → IsRunning mtu size t
      → IsWithin mtu size v
      → IsSending mtu (stop_byte mtu size v) (enter_interval t i v)
        × ((enter_interval t i v).bytes_sent ≡ first_byte mtu v)
        × ((enter_interval t i v).bytes_in_interval ≡ stop_byte mtu size v - first_byte mtu v)
  enter-IsSending t i v r h =
      let c : chunk_size t.ctx.request.mtu ≡ mtu - 8 = omega (arith, r.mtu_is) in
      let top = stop-le-size v in
      let a : u32 (v.start * chunk_size t.ctx.request.mtu) ≡ first_byte mtu v =
        rw c (omega (arith, h.some_byte, top)) in
      let z : interval_stop t.ctx.payload_meta.size (chunk_size t.ctx.request.mtu) v.end
          ≡ stop_byte mtu size v =
        rw (r.size_is, c) (interval_stop_lem v h) in
      let b : (enter_interval t i v).bytes_in_interval ≡ stop_byte mtu size v - first_byte mtu v =
        ap₂ sub32 z a ∙ omega (arith, h.some_byte, top) in
      (
        record {
          mtu_is = r.mtu_is;
          running = r.running;
          no_alive = r.no_alive;
          rounds = r.rounds;
          fits = omega (arith, b, top);
          within = omega arith;
          at_byte = omega (arith, a, b, h.some_byte);
        },
        a,
        b,
      )

  pub after-IsRunning :
      (content : PayloadMeta → ℕ → ℕ → ℕ) (t : Transfer) (i : ℕ) (v : Interval)
      (l : List DataPacket) (t' : Transfer)
      → IsRunning mtu size t
      → Sends content mtu (stop_byte mtu size v) (enter_interval t i v) l t'
      → IsRunning mtu size t'
  after-IsRunning content t i v l t' r s = record {
    mtu_is = s.state.mtu_is;
    size_is = ap (λ (c : TransferCtx). c.payload_meta.size) s.context ∙ r.size_is;
    running = s.state.running;
    no_alive = s.state.no_alive;
    rounds = s.state.rounds;
  }
