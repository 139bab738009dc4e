-- ===== src/Resume/Missing.antt =====
-- The packets that answer a request for the missing segments.
use Prim.Native.Nat.{min}
use native.Mathlib.Nat.{mul-le-mul_right}
use mathlib.Core.Path.{subst}
use libdtp.Common.{
  ℕ, zero, suc, ◌+◌, ◌-◌, ◌*◌, ◌/◌, ◌^◌, ◌≤◌, ◌<◌, ◌≡◌, refl, sym, ap, ◌∙◌, List, [], ◌∷◌, ◌++◌,
  true, false, ◌&&◌, ◌||◌, inl, inr, arith, ltb, leb, ◌==◌, u32, u32_max, Bool-cases, ==_self,
  length,
}
use libdtp.Session.{chunk_size}
use libdtp.Segments.{Segment}
use libdtp.Segments.Shape.{covered, inside, InOrder}
use libdtp.Segments.Receive.{elem, AllBelow, Increasing}
use libdtp.Server.{DataPacket}
use libdtp.Server.Ranges.{first_byte, stop_byte, AllWithin, Delivers, stop-le-size}
use libdtp.Hooks.Request.{interval_of, first}
use libdtp.Resume.Numbers.{numbers, AreNumbers, Tiles-AreNumbers, Increasing-mono, le_times}

numbers-append :
    (mtu : ℕ) (l k : List DataPacket) → numbers mtu (l ++ k) ≡ numbers mtu l ++ numbers mtu k
numbers-append mtu [] k = refl
numbers-append mtu (p ∷ l) k =
    ap (λ ps. u32 (p.offset / chunk_size mtu) ∷ ps) (numbers-append mtu l k)

elem-append : (x : ℕ) (ps qs : List ℕ) → elem x (ps ++ qs) ≡ (elem x ps || elem x qs)
elem-append x [] qs = refl
elem-append x (p ∷ ps) qs = ground (arith, elem-append x ps qs)

AllBelow-append : (m : ℕ) (ps qs : List ℕ) → AllBelow m ps → AllBelow m qs → AllBelow m (ps ++ qs)
AllBelow-append m [] qs a b = b
AllBelow-append m (p ∷ ps) qs a b = (a.0, AllBelow-append m ps qs a.1 b)

Increasing-append :
    (k m : ℕ) (ps qs : List ℕ)
    → k ≤ m
    → Increasing k ps
    → ((x : ℕ) → elem x ps ≡ true → x ≤ m)
    → Increasing m qs
    → Increasing k (ps ++ qs)
Increasing-append k m [] qs h a top b = Increasing-mono k m qs h b
Increasing-append k m (p ∷ ps) qs h a top b = (
  a.0,
  Increasing-append p m ps qs (top p (rw (==_self p) refl)) a.1 (λ x e. top x (ground (arith, e)))
      b,
)

-- The numbers of the packets that begin in a payload of `size` bytes and that `l` covers.
pub record Answers (c size lo : ℕ) (l : List Segment) (ps : List ℕ) : Type 0 where
  pub members : (x : ℕ) → elem x ps ≡ (covered x l && ltb (x * c) size)
  pub increasing : Increasing lo ps
  pub below : (m : ℕ) → ((x : ℕ) → x * c < size → x < m) → AllBelow m ps

InOrder-le : (lo hi : ℕ) (l : List Segment) → InOrder lo hi l → lo ≤ hi
InOrder-le lo hi [] o = o
InOrder-le lo hi (s ∷ l) o = omega (arith, o.0, o.1, InOrder-le (s.end + 1) hi l o.3)

-- One segment: below the end of its last packet is below the end of its range.
inside_bytes :
    (c size x : ℕ) (s : Segment)
    → 0 < c
    → (leb s.start x && ltb (x * c) (min size ((s.end + 1) * c))) ≡ (inside x s && ltb (x * c) size)
inside_bytes c size x s h = elim (Bool-cases (leb x s.end)) [
  | inl before ↦
      let q : (x + 1) * c ≤ (s.end + 1) * c = mul-le-mul_right c (ground (arith, before)) in
      let p : x * c < (s.end + 1) * c = omega (arith, q, h) in ground (arith, p, before)
  | inr after ↦
      let q : (s.end + 1) * c ≤ x * c = mul-le-mul_right c (ground (arith, after)) in
      ground (arith, q, after)
]

Answers-nil : (c size lo : ℕ) → Answers c size lo [] []
Answers-nil c size lo = record { members = λ x. refl; increasing = tt; below = λ m f. tt }

-- The packets of one segment, and then those of the segments behind it.
Answers-cons :
    (c size lo : ℕ) (s : Segment) (l : List Segment) (ps qs : List ℕ)
    → 0 < c
    → lo ≤ s.start
    → s.start ≤ s.end
    → AreNumbers c s.start (min size ((s.end + 1) * c)) ps
    → Answers c size (s.end + 1) l qs
    → Answers c size lo (s ∷ l) (ps ++ qs)
Answers-cons c size lo s l ps qs z h k a b =
    let here = λ (x : ℕ). a.members x ∙ inside_bytes c size x s z in
    record {
      members = λ x. ground (arith, elem-append x ps qs, here x, b.members x);
      increasing =
          Increasing-append lo (s.end + 1) ps qs (omega (arith, h, k))
            (Increasing-mono lo s.start ps h a.increasing) (λ x e. ground (arith, here x, e))
            b.increasing;
      below =
          λ m f. AllBelow-append m ps qs (a.below m (λ x p. f x (omega (arith, p)))) (b.below m f);
    }

first_below :
    (c size hi a b : ℕ)
    → 0 < c
    → hi * c ≤ size + c
    → a + 2 ≤ hi
    → a ≤ b
    → a * c < min size ((b + 1) * c)
first_below c size hi a b z whole p q =
    let f : (a + 2) * c ≤ hi * c = mul-le-mul_right c p in
    let g : (a + 1) * c ≤ (b + 1) * c = mul-le-mul_right c (omega (arith, q)) in
    let f' : (a + 2) * c ≡ a * c + 2 * c = omega arith in
    let g' : (a + 1) * c ≡ a * c + c = omega arith in ground (arith, f, g, f', g', z, whole)

module _ (mtu size : ℕ) (mtu_low : 8 < mtu) (mtu_high : mtu < 2 ^ 16) (small : size < 2 ^ 32) where
  stop_of :
      (s : Segment)
      → s.end < u32_max
      → stop_byte mtu size (interval_of s) ≡ min size ((s.end + 1) * (mtu - 8))
  stop_of s h = let q : (s.end == u32_max) ≡ false = ground (arith, h) in rw q refl

  -- What is delivered for up to `k` segments, which are all of them.
  pub Delivers-Answers :
      (k lo hi : ℕ) (l : List Segment) (sent : List DataPacket)
      → length l ≤ k
      → hi ≤ u32_max
      → InOrder lo hi l
      → Delivers mtu size (first k l) sent
      → Answers (mtu - 8) size lo l (numbers mtu sent)
  Delivers-Answers zero lo hi [] sent n top o d = rw d (Answers-nil (mtu - 8) size lo)
  Delivers-Answers zero lo hi (s ∷ l) sent n top o d = absurd (omega arith)
  Delivers-Answers (suc k) lo hi [] sent n top o d = rw d (Answers-nil (mtu - 8) size lo)
  Delivers-Answers (suc k) lo hi (s ∷ l) sent n top o (l₁, l₂, e, t, d) =
      let z : stop_byte mtu size (interval_of s) ≡ min size ((s.end + 1) * (mtu - 8)) =
        stop_of s (omega (arith, InOrder-le (s.end + 1) hi l o.3, top)) in
      let a : AreNumbers (mtu - 8) s.start (stop_byte mtu size (interval_of s)) (numbers mtu l₁) =
        Tiles-AreNumbers mtu mtu_low mtu_high l₁ s.start (first_byte mtu (interval_of s))
          (stop_byte mtu size (interval_of s)) refl
          (omega (arith, small, stop-le-size mtu size mtu_low mtu_high small (interval_of s))) t in
      let a' = subst (λ n. AreNumbers (mtu - 8) s.start n (numbers mtu l₁)) z a in
      let b = Delivers-Answers k (s.end + 1) hi l l₂ (omega arith) top o.3 d in
      subst (Answers (mtu - 8) size lo (s ∷ l))
        (sym (ap (numbers mtu) e ∙ numbers-append mtu l₁ l₂))
        (Answers-cons (mtu - 8) size lo s l (numbers mtu l₁) (numbers mtu l₂) (omega arith) o.0 o.1
          a' b)

  -- Such segments can be asked for, where the last number they may hold is that of a packet in full, or
  -- of the next.
  pub first-AllWithin :
      (k lo hi : ℕ) (l : List Segment)
      → hi * (mtu - 8) ≤ size + (mtu - 8)
      → hi * (mtu - 8) < 2 ^ 32
      → InOrder lo hi l
      → AllWithin mtu size (first k l)
  first-AllWithin zero lo hi l whole wrap o = tt
  first-AllWithin (suc k) lo hi [] whole wrap o = tt
  first-AllWithin (suc k) lo hi (s ∷ l) whole wrap o =
      let c : ℕ = mtu - 8 in
      let top = InOrder-le (s.end + 1) hi l o.3 in
      let a : (s.end + 1) * c ≤ hi * c = mul-le-mul_right c top in
      let last : s.end < u32_max = omega (arith, le_times (s.end + 1) c (omega arith), a, wrap) in
      let d : s.start * c < min size ((s.end + 1) * c) =
        first_below c size hi s.start s.end (omega arith) whole (omega (arith, o.2)) o.1 in
      (
        record {
          some_byte = subst (λ e. s.start * c < e) (sym (stop_of s last)) d;
          no_wrap = inr (omega (arith, a, wrap));
        },
        first-AllWithin k (s.end + 1) hi l whole wrap o.3,
      )
