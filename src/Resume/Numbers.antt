-- ===== src/Resume/Numbers.antt =====
-- The packet numbers that apm_on_data_packet computes for the packets of src/dtp_server.c.
use native.Mathlib.Nat.{mul-div_cancel, mul-le-mul_right}
use mathlib.Core.Path.{subst}
use libdtp.Common.{
  ℕ, ◌+◌, ◌-◌, ◌*◌, ◌/◌, ◌^◌, ◌≤◌, ◌<◌, ◌≡◌, refl, sym, ap, ap₂, ◌∙◌, List, [], ◌∷◌, ◌&&◌, inl, inr,
  arith, ltb, leb, ◌==◌, u32, Bool-cases, leb→le, le→leb, lt→ltb, ge→ltb,
}
use libdtp.Session.{chunk_size}
use libdtp.Server.{DataPacket}
use libdtp.Server.Poll.{Tiles}
use libdtp.Segments.Receive.{elem, AllBelow, Increasing}

-- `seq` of each packet.
abbrev pub numbers : ℕ → List DataPacket → List ℕ
numbers mtu [] = []
numbers mtu (p ∷ ps) = u32 (p.offset / chunk_size mtu) ∷ numbers mtu ps

mul_mono : (k x c : ℕ) → k ≤ x → k * c ≤ x * c
mul_mono k x c h = mul-le-mul_right c h

pub Increasing-mono : (j k : ℕ) (ps : List ℕ) → j ≤ k → Increasing k ps → Increasing j ps
Increasing-mono j k [] h a = tt
Increasing-mono j k (p ∷ ps) h a = (omega (arith, h, a.0), a.1)

-- The numbers from `k` on of the packets whose first byte is below `e`, for `c` bytes in a packet.
pub record AreNumbers (c k e : ℕ) (ps : List ℕ) : Type 0 where
  pub members : (x : ℕ) → elem x ps ≡ (leb k x && ltb (x * c) e)
  pub increasing : Increasing k ps
  pub below : (m : ℕ) → ((x : ℕ) → x * c < e → x < m) → AllBelow m ps

AreNumbers-nil : (c k e : ℕ) → e ≤ k * c → AreNumbers c k e []
AreNumbers-nil c k e h = record {
  members = λ x. elim (Bool-cases (leb k x)) [
    | inl above ↦
        let q = mul_mono k x c (leb→le k x above) in
        rw (above, ge→ltb (x * c) e (omega (arith, q, h))) refl
    | inr under ↦ rw under refl
  ];
  increasing = tt;
  below = λ m f. tt;
}

AreNumbers-cons :
    (c k e : ℕ) (ps : List ℕ) → k * c < e → AreNumbers c (k + 1) e ps → AreNumbers c k e (k ∷ ps)
AreNumbers-cons c k e ps h r = record {
  members = λ x. elim (Bool-cases (x == k)) [
    | inl here ↦
        let q : x ≡ k = ground (arith, here) in
        let f : x * c < e = subst (λ y. y * c < e) (sym q) h in
        rw (here, le→leb k x (omega (arith, q)), lt→ltb (x * c) e f) refl
    | inr there ↦
        let q : leb (k + 1) x ≡ leb k x = ground (arith, there) in
        rw there (r.members x ∙ ap (λ b. b && ltb (x * c) e) q)
  ];
  increasing = (omega arith, Increasing-mono k (k + 1) ps (omega arith) r.increasing);
  below = λ m f. (f k h, r.below m f);
}

pub Tiles-end : (mtu e a : ℕ) (l : List DataPacket) → a ≡ e → Tiles mtu e a e l → l ≡ []
Tiles-end mtu e a [] q t = refl
Tiles-end mtu e a (p ∷ l) q t = absurd (omega (arith, q, t.1))

pub next_first : (k c : ℕ) → k * c + c ≡ (k + 1) * c
next_first k c = omega arith

pub le_times : (k c : ℕ) → 0 < c → k ≤ k * c
le_times k c h = grind arith

module _ (mtu : ℕ) (mtu_low : 8 < mtu) (mtu_high : mtu < 2 ^ 16) where
  pub number_of : (k a : ℕ) → a ≡ k * (mtu - 8) → a < 2 ^ 32 → u32 (a / chunk_size mtu) ≡ k
  number_of k a e h =
      let c : chunk_size mtu ≡ mtu - 8 = omega arith in
      let d : a / chunk_size mtu ≡ k = ap₂ (λ x y. x / y) e c ∙ mul-div_cancel k (omega arith) in
      let b : k ≤ a = subst (λ x. k ≤ x) (sym e) (le_times k (mtu - 8) (omega arith)) in
      ap u32 d ∙ omega (arith, b, h)

  pub Tiles-AreNumbers :
      (l : List DataPacket) (k a e : ℕ)
      → a ≡ k * (mtu - 8)
      → e < 2 ^ 32
      → Tiles mtu e a e l
      → AreNumbers (mtu - 8) k e (numbers mtu l)
  Tiles-AreNumbers [] k a e q small t = AreNumbers-nil (mtu - 8) k e (omega (arith, q, t))
  Tiles-AreNumbers (p ∷ ps) k a e q small t =
      let c : ℕ = mtu - 8 in
      let a' : ℕ = a + (p.packet_length - 8) in
      let at : k * c < e = subst (λ x. x < e) q t.1 in
      let head : u32 (p.offset / chunk_size mtu) ≡ k =
        number_of k p.offset (t.0 ∙ q) (omega (arith, t.0, t.1, small)) in
      let rest : AreNumbers c (k + 1) e (numbers mtu ps) = elim (Bool-cases (leb c (e - a))) [
        | inl full ↦
            let n : p.packet_length ≡ mtu = ground (arith, full, t.2, mtu_low, t.1) in
            let next : a' ≡ a + c = omega (arith, n, mtu_low) in
            Tiles-AreNumbers ps (k + 1) a' e (next ∙ (ap (λ x. x + c) q ∙ next_first k c)) small t.3
        | inr partial ↦
            let n : p.packet_length ≡ e - a + 8 = ground (arith, partial, t.2, mtu_low, t.1) in
            let next : a' ≡ e = omega (arith, n, t.1) in
            let past : e ≤ (k + 1) * c =
              subst (λ x. e ≤ x) (ap (λ x. x + c) q ∙ next_first k c)
                (ground (arith, partial, t.1)) in
            subst (λ l. AreNumbers c (k + 1) e (numbers mtu l))
              (sym (Tiles-end mtu e a' ps next t.3)) (AreNumbers-nil c (k + 1) e past)
      ] in
      subst (λ n. AreNumbers c k e (n ∷ numbers mtu ps)) (sym head)
        (AreNumbers-cons c k e (numbers mtu ps) at rest)
