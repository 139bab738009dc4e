-- ===== src/Download/Packets.antt =====
-- The packets of an undisturbed transfer, as src/dtp_client.c numbers and counts them.
use native.Mathlib.Nat.{lt_of_mul-lt-mul_right, le_of_mul-le-mul_right}
use mathlib.Core.Path.{subst, subst₂}
use libdtp.Common.{
  ℕ, ◌+◌, ◌-◌, ◌*◌, ◌/◌, ◌^◌, ◌≤◌, ◌<◌, ◌≡◌, sym, ap, ◌∙◌, List, [], ◌∷◌, ◌++◌, inl, inr, arith,
  leb, u32, Bool-cases, length,
}
use libdtp.Session.{chunk_size}
use libdtp.Server.{DataPacket}
use libdtp.Server.Poll.{Tiles}
use libdtp.Resume.Numbers.{number_of, Tiles-end, next_first}

-- Packets whose numbers grow from `k` to `last`, and whose bytes complete a payload of which `b` are there.
abbrev pub Ascends : ℕ → ℕ → ℕ → ℕ → ℕ → List DataPacket → Type 0
Ascends mtu size last k b [] = (last < k) × (b ≡ size)
Ascends mtu size last k b (p ∷ ps) =
    (8 ≤ p.packet_length)
    × (k ≤ u32 (p.offset / chunk_size mtu))
    × (u32 (p.offset / chunk_size mtu) ≤ last)
    × (b + (p.packet_length - 8) ≤ size)
    × Ascends mtu size last (u32 (p.offset / chunk_size mtu) + 1) (b + (p.packet_length - 8)) ps

pub bytes-Ascends :
    (mtu size last k b : ℕ) (l : List DataPacket) → Ascends mtu size last k b l → b ≤ size
bytes-Ascends mtu size last k b [] h = omega (arith, h.1)
bytes-Ascends mtu size last k b (p ∷ l) h = omega (arith, h.3)

module _ (mtu size last : ℕ) (mtu_low : 8 < mtu) (mtu_high : mtu < 2 ^ 16)
    (small : size < 2 ^ 32) where
  -- The packet with the bytes from `a`, number `k`, in front of others.
  Ascends-cons :
      (p : DataPacket) (l : List DataPacket) (k a b n : ℕ)
      → a ≡ k * (mtu - 8)
      → p.offset ≡ a
      → a < 2 ^ 32
      → p.packet_length ≡ n + 8
      → k ≤ last
      → Ascends mtu size last (k + 1) (b + n) l
      → Ascends mtu size last k b (p ∷ l)
  Ascends-cons p l k a b n q o h m le rest =
      let num : u32 (p.offset / chunk_size mtu) ≡ k =
        number_of mtu mtu_low mtu_high k p.offset (o ∙ q) (omega (arith, o, h)) in
      let bytes : p.packet_length - 8 ≡ n = omega (arith, m) in
      rw (num, bytes)
        (
          omega (arith, m),
          omega arith,
          le,
          bytes-Ascends mtu size last (k + 1) (b + n) l rest,
          rest,
        )

  -- The packets of an interval up to number `z`, in front of others.
  pub Ascends-Tiles :
      (l₁ l₂ : List DataPacket) (k z a e b : ℕ)
      → a ≡ k * (mtu - 8)
      → a ≤ e
      → z * (mtu - 8) < e
      → e ≤ (z + 1) * (mtu - 8)
      → e ≤ size
      → z ≤ last
      → Tiles mtu e a e l₁
      → Ascends mtu size last (z + 1) (b + (e - a)) l₂
      → Ascends mtu size last k b (l₁ ++ l₂) × (length l₁ + k ≡ z + 1)
  Ascends-Tiles [] l₂ k z a e b q le past top within fits t rest =
      let at : k * (mtu - 8) ≡ e = sym q ∙ t in
      let above : z < k = lt_of_mul-lt-mul_right (mtu - 8) (omega (arith, past, at)) in
      let below : k ≤ z + 1 =
        le_of_mul-le-mul_right {k = mtu - 8} (omega (arith, top, at)) (omega (arith, mtu_low)) in
      let here : k ≡ z + 1 = omega (arith, above, below) in
      let none_left : b + (e - a) ≡ b = omega (arith, t) in
      (subst₂ (λ i j. Ascends mtu size last i j l₂) (sym here) none_left rest, omega (arith, here))
  Ascends-Tiles (p ∷ ps) l₂ k z a e b q le past top within fits t rest =
      let c : ℕ = mtu - 8 in
      let upto : k ≤ z = below k z (subst (λ x. x < (z + 1) * c) q (omega (arith, t.1, top))) in
      elim (Bool-cases (leb c (e - a))) [
        | inl full ↦
            let n : p.packet_length ≡ c + 8 = ground (arith, full, t.2, mtu_low, t.1) in
            let next : a + (p.packet_length - 8) ≡ a + c = omega (arith, n) in
            let room : a + c ≤ e = ground (arith, full, t.1) in
            let bytes : b + (e - a) ≡ b + c + (e - (a + c)) = omega (arith, room) in
            let (l, m) =
              Ascends-Tiles ps l₂ (k + 1) z (a + c) e (b + c) (ap (λ x. x + c) q ∙ next_first k c)
                room past top within fits (subst (λ x. Tiles mtu e x e ps) next t.3)
                (subst (λ x. Ascends mtu size last (z + 1) x l₂) bytes rest) in
            (
              Ascends-cons p (ps ++ l₂) k a b c q t.0 (omega (arith, t.1, within, small)) n
                  (omega (arith, upto, fits)) l,
              omega (arith, m),
            )
        | inr partial ↦
            let n : p.packet_length ≡ (e - a) + 8 = ground (arith, partial, t.2, mtu_low, t.1) in
            let next : a + (p.packet_length - 8) ≡ e = omega (arith, n, t.1) in
            let end : ps ≡ [] = Tiles-end mtu e (a + (p.packet_length - 8)) ps next t.3 in
            let short : e < (k + 1) * c =
              subst (λ x. e < x) (ap (λ x. x + c) q ∙ next_first k c)
                (ground (arith, partial, t.1)) in
            let here : z ≡ k = omega (arith, upto, below z k (omega (arith, past, short))) in
            let l =
              Ascends-cons p l₂ k a b (e - a) q t.0 (omega (arith, t.1, within, small)) n
                (omega (arith, upto, fits))
                (subst (λ x. Ascends mtu size last (x + 1) (b + (e - a)) l₂) here rest) in
            (
              subst (λ x. Ascends mtu size last k b (p ∷ (x ++ l₂))) (sym end) l,
              omega (arith, ap length end, here),
            )
      ]
    where
      below : (i j : ℕ) → i * (mtu - 8) < (j + 1) * (mtu - 8) → i ≤ j
      below i j h = omega (arith, lt_of_mul-lt-mul_right (mtu - 8) {m = i} {n = j + 1} h)
