-- ===== src/Server/Poll.antt =====
-- The poll loop of an undisturbed transfer sends the bytes of its interval, in order and once.
use Prim.Native.Nat.{min}
use libdtp.Common.{
  ℕ, zero, suc, ◌+◌, ◌-◌, ◌^◌, ◌≤◌, ◌<◌, ◌≡◌, refl, sym, ap, ◌∙◌, List, [], ◌∷◌, ◌++◌, true, false,
  arith, add32,
}
use mathlib.Core.List.{append-nil, append_assoc}
use mathlib.Core.Path.{subst}
use libdtp.Session.{chunk_size}
use libdtp.Server.{
  PayloadMeta, TransferCtx, DataPacket, Transfer, ServerIo, remaining, is_full, next_length,
  asked_length, after_packet, observe, check_alive, send_packet,
}

-- The `n` bytes of a payload from an offset on.
unfoldable pub slice : (ℕ → ℕ) → ℕ → ℕ → List ℕ
slice f offset zero = []
slice f offset (suc n) = f offset ∷ slice f (offset + 1) n

-- An undisturbed outside: there is always a buffer, the payload gives all the bytes that it is asked
-- for, which are those of `content` at the offset, and no other task touches the transfer.
pub record IsSteady {W : Type 0} (io : ServerIo W) : Type 0 where
  pub buffers : (w : W) → (io.csp_buffer_get w).0 ≡ true
  pub content : PayloadMeta → ℕ → ℕ → ℕ
  pub reads : (m : PayloadMeta) (id offset n : ℕ) (w : W) → (io.read m id offset n w).0 ≡ n
  pub gives :
      (m : PayloadMeta) (id offset n : ℕ) (w : W)
      → (io.read m id offset n w).1 ≡ slice (content m id) offset n
  pub alone : (c : TransferCtx) (w : W) → (io.others c w).0 ≡ c

-- Packets that carry the bytes from `a` to `b` of an interval that ends at `e`, one behind the other,
-- each as long as the MTU and the end of the interval allow.
abbrev pub Tiles : ℕ → ℕ → ℕ → ℕ → List DataPacket → Type 0
Tiles mtu e a b [] = a ≡ b
Tiles mtu e a b (p ∷ ps) =
    (p.offset ≡ a)
    × (a < e)
    × (p.packet_length ≡ min mtu (e - a + 8))
    × Tiles mtu e (a + (p.packet_length - 8)) b ps

-- Packets whose bytes are those of the payload `f` at the offset that the packet names.
abbrev pub Genuine : (ℕ → ℕ) → List DataPacket → Type 0
Genuine f [] = Unit {0}
Genuine f (p ∷ ps) = (p.payload ≡ slice f p.offset (p.packet_length - 8)) × Genuine f ps

pub Genuine-append :
    (f : ℕ → ℕ) (l k : List DataPacket) → Genuine f l → Genuine f k → Genuine f (l ++ k)
Genuine-append f [] k g h = h
Genuine-append f (p ∷ l) k g h = (g.0, Genuine-append f l k g.1 h)

-- The bytes of the payload that a transfer reads.
abbrev pub payload_of : (PayloadMeta → ℕ → ℕ → ℕ) → TransferCtx → ℕ → ℕ
payload_of content c = content c.payload_meta c.request.payload_id

-- The transfer after its next packet.
abbrev pub advanced : (PayloadMeta → ℕ → ℕ → ℕ) → Transfer → Transfer
advanced content t =
    after_packet t (asked_length t) (slice (payload_of content t.ctx) t.bytes_sent (asked_length t))

pub Tiles-append :
    (mtu e a b c : ℕ) (l k : List DataPacket)
    → Tiles mtu e a b l
    → Tiles mtu e b c k
    → Tiles mtu e a c (l ++ k)
Tiles-append mtu e a b c [] k h g = rw h g
Tiles-append mtu e a b c (p ∷ l) k h g =
    (h.0, h.1, h.2, Tiles-append mtu e (a + (p.packet_length - 8)) b c l k h.3 g)

-- A running transfer within its interval, which ends at `e`.
pub record IsSending (mtu e : ℕ) (t : Transfer) : Type 0 where
  pub mtu_is : t.ctx.request.mtu ≡ mtu
  pub running : t.ctx.keep_running ≡ true
  pub no_alive : t.ctx.request.keep_alive_interval ≡ 0
  pub rounds : 0 < t.nof_packets_per_round
  pub fits : t.bytes_in_interval < 2 ^ 32
  pub within : t.sent_in_interval ≤ t.bytes_in_interval
  pub at_byte : t.bytes_sent + (t.bytes_in_interval - t.sent_in_interval) ≡ e

-- `t'` has sent the packets `l` since `t`.
pub record Sends (content : PayloadMeta → ℕ → ℕ → ℕ) (mtu e : ℕ) (t : Transfer)
    (l : List DataPacket) (t' : Transfer) : Type 0 where
  pub state : IsSending mtu e t'
  pub log : t'.sent ≡ t.sent ++ l
  pub tiles : Tiles mtu e t.bytes_sent t'.bytes_sent l
  pub bytes : t'.bytes_in_interval ≡ t.bytes_in_interval
  pub progress : t.sent_in_interval ≤ t'.sent_in_interval
  pub context : t'.ctx ≡ t.ctx
  pub genuine : Genuine (payload_of content t.ctx) l
  pub budget : t'.nof_packets_per_round ≡ t.nof_packets_per_round

module _ {W : Type 0} (io : ServerIo W) (steady : IsSteady io) (mtu e : ℕ) (mtu_low : 8 < mtu)
    (mtu_high : mtu < 2 ^ 16) (small : e < 2 ^ 32) where
  pub observe-same : (t : Transfer) (w : W) → (observe io t w).0 ≡ t
  observe-same t w = ap (λ c. record t { ctx = c }) (steady.alone t.ctx w)

  length_is :
      (t : Transfer)
      → IsSending mtu e t
      → t.sent_in_interval < t.bytes_in_interval
      → next_length t ≡ min mtu (e - t.bytes_sent + 8)
  length_is t s h =
      let r : remaining t ≡ t.bytes_in_interval - t.sent_in_interval =
        omega (arith, s.fits, s.within) in
      let c : chunk_size t.ctx.request.mtu ≡ mtu - 8 = omega (arith, s.mtu_is) in
      rw (r, c, s.mtu_is) (ground (arith, s.at_byte, h))

  pub next_world : Transfer → W → W
  next_world t w =
      (io.read t.ctx.payload_meta t.ctx.request.payload_id t.bytes_sent (asked_length t)
        (io.csp_buffer_get w).1).2

  pub send_one :
      (t : Transfer) (w : W)
      → IsSending mtu e t
      → t.sent_in_interval < t.bytes_in_interval
      → send_packet io t w ≡ (is_full t, advanced steady.content t, next_world t w)
  unfolding send_packet check_alive next_world
  send_one t w s h = ground (
    arith,
    steady.buffers w,
    s.no_alive,
    steady.reads t.ctx.payload_meta t.ctx.request.payload_id t.bytes_sent (asked_length t)
        (io.csp_buffer_get w).1,
    steady.gives t.ctx.payload_meta t.ctx.request.payload_id t.bytes_sent (asked_length t)
        (io.csp_buffer_get w).1,
    length_is t s h,
    s.at_byte,
  )

  pub packet_of : Transfer → DataPacket
  packet_of t = record {
    packet_length = next_length t;
    offset = t.bytes_sent;
    session_id = t.ctx.request.session_id;
    payload = slice (payload_of steady.content t.ctx) t.bytes_sent (asked_length t);
    src = t.ctx.srv_node;
    dst = t.ctx.dest_port;
  }

  -- The word that the read is given is the length without the header.
  pub asked_lem :
      (t : Transfer)
      → IsSending mtu e t
      → t.sent_in_interval < t.bytes_in_interval
      → asked_length t ≡ next_length t - 8
  asked_lem t s h = rw (length_is t s h) (omega (arith, s.at_byte, h))

  -- A packet carries at least a byte, and the last one what is left.
  pub packet_bytes :
      (t : Transfer)
      → IsSending mtu e t
      → t.sent_in_interval < t.bytes_in_interval
      → (t.sent_in_interval < t.sent_in_interval + (asked_length t))
        × (t.sent_in_interval + (asked_length t) ≤ t.bytes_in_interval)
        × (t.bytes_sent + (asked_length t) ≤ e)
        × ((is_full t ≡ true) → t.sent_in_interval + (asked_length t) < t.bytes_in_interval)
        × ((is_full t ≡ false) → t.sent_in_interval + (asked_length t) ≡ t.bytes_in_interval)
  packet_bytes t s h =
      let r : remaining t ≡ t.bytes_in_interval - t.sent_in_interval =
        omega (arith, s.fits, s.within) in
      let c : chunk_size t.ctx.request.mtu ≡ mtu - 8 = omega (arith, s.mtu_is) in
      let a = s.at_byte in
      rw (asked_lem t s h, length_is t s h, r, c)
        (omega arith, omega arith, omega arith, λ q. ground (arith, a), λ q. ground (arith, a))

  pub step_Sends :
      (t : Transfer)
      → IsSending mtu e t
      → t.sent_in_interval < t.bytes_in_interval
      → Sends steady.content mtu e t (packet_of t ∷ []) (advanced steady.content t)
  unfolding packet_of
  step_Sends t s h =
      let b = packet_bytes t s h in
      let asked = asked_lem t s h in
      let a : add32 t.bytes_sent (asked_length t) ≡ t.bytes_sent + (asked_length t) =
        omega (arith, b.2) in
      let c : add32 t.sent_in_interval (asked_length t) ≡ t.sent_in_interval + (asked_length t) =
        omega (arith, b.1, s.fits) in
      record {
        state = record {
          mtu_is = s.mtu_is;
          running = s.running;
          no_alive = s.no_alive;
          rounds = s.rounds;
          fits = s.fits;
          within = rw c b.1;
          at_byte = rw (a, c) (omega (arith, s.at_byte, b.1));
        };
        log = refl;
        tiles = (
          refl,
          omega (arith, s.at_byte),
          length_is t s h,
          ap (λ n. t.bytes_sent + n) (sym asked) ∙ sym a,
        );
        bytes = refl;
        progress = rw c (omega arith);
        context = refl;
        genuine = (ap (slice _ t.bytes_sent) asked, tt);
        budget = refl;
      }

pub Sends-trans :
    (content : PayloadMeta → ℕ → ℕ → ℕ) (mtu e : ℕ) (t u v : Transfer) (l k : List DataPacket)
    → Sends content mtu e t l u
    → Sends content mtu e u k v
    → Sends content mtu e t (l ++ k) v
Sends-trans content mtu e t u v l k f g = record {
  state = g.state;
  log = rw (g.log, f.log) (append_assoc t.sent l k);
  tiles = Tiles-append mtu e t.bytes_sent u.bytes_sent v.bytes_sent l k f.tiles g.tiles;
  bytes = g.bytes ∙ f.bytes;
  progress = omega (arith, f.progress, g.progress);
  context = g.context ∙ f.context;
  genuine =
      Genuine-append (payload_of content t.ctx) l k f.genuine
        (subst (λ c. Genuine (payload_of content c) k) f.context g.genuine);
  budget = g.budget ∙ f.budget;
}

pub Sends-none :
    (content : PayloadMeta → ℕ → ℕ → ℕ) (mtu e : ℕ) (t : Transfer)
    → IsSending mtu e t
    → Sends content mtu e t [] t
Sends-none content mtu e t s = record {
  state = s;
  log = sym (append-nil t.sent);
  tiles = refl;
  bytes = refl;
  progress = omega arith;
  context = refl;
  genuine = tt;
  budget = refl;
}
