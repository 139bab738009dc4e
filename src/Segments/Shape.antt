-- ===== src/Segments/Shape.antt =====
-- The abstract view of a list of segments: which numbers it covers, and the shape in which the
-- client keeps it.
use libdtp.Common.{
  ℕ, ◌+◌, ◌-◌, ◌≤◌, ◌<◌, ◌≡◌, refl, List, [], ◌∷◌, ◌++◌, Bool, false, ◌&&◌, ◌||◌, arith, leb,
}
use libdtp.Segments.{Segment, appended, place, set_end}

abbrev pub inside : ℕ → Segment → Bool
inside x s = leb s.start x && leb x s.end

abbrev pub covered : ℕ → List Segment → Bool
covered x [] = false
covered x (s ∷ rest) = inside x s || covered x rest

pub covered-append :
    (x : ℕ) (l k : List Segment) → covered x (l ++ k) ≡ (covered x l || covered x k)
covered-append x [] k = refl
covered-append x (s ∷ l) k = ground (arith, covered-append x l k)

-- Segments in order within `lo .. hi`, at least one number apart.
abbrev pub Chain : ℕ → ℕ → List Segment → Type 0
Chain lo hi [] = Unit {0}
Chain lo hi (s ∷ rest) =
    (lo ≤ s.start) × (s.start ≤ s.end) × (s.end ≤ hi) × Chain (s.end + 2) hi rest

pub Chain-mono : (j k hi : ℕ) (l : List Segment) → j ≤ k → Chain k hi l → Chain j hi l
Chain-mono j k hi [] h c = tt
Chain-mono j k hi (s ∷ l) h c = (omega arith, c.1, c.2, c.3)

pub Chain-top : (lo hi top : ℕ) (l : List Segment) → hi ≤ top → Chain lo hi l → Chain lo top l
Chain-top lo hi top [] h c = tt
Chain-top lo hi top (s ∷ l) h c =
    (c.0, c.1, omega (arith, c.2, h), Chain-top (s.end + 2) hi top l h c.3)

-- Segments that end below `k`.
abbrev pub Below : ℕ → List Segment → Type 0
Below k [] = Unit {0}
Below k (s ∷ rest) = (s.start ≤ s.end) × (s.end < k) × Below k rest

pub Below-mono : {j k : ℕ} (l : List Segment) → j ≤ k → Below j l → Below k l
Below-mono [] h b = tt
Below-mono {j} {k} (s ∷ l) h b = (b.0, omega arith, Below-mono {j = j} {k = k} l h b.2)

pub Below-append : (k : ℕ) (l m : List Segment) → Below k l → Below k m → Below k (l ++ m)
Below-append k [] m b c = c
Below-append k (s ∷ l) m b c = (b.0, b.1, Below-append k l m b.2 c)

pub not-covered-Below : (k x : ℕ) (l : List Segment) → Below k l → k ≤ x → covered x l ≡ false
not-covered-Below k x [] b h = refl
not-covered-Below k x (s ∷ l) b h = ground (arith, not-covered-Below k x l b.2 h)

pub not-covered-Chain :
    (lo hi x : ℕ) (l : List Segment) → Chain lo hi l → x < lo → covered x l ≡ false
not-covered-Chain lo hi x [] c h = refl
not-covered-Chain lo hi x (s ∷ l) c h =
    ground (arith, not-covered-Chain (s.end + 2) hi x l c.3 (omega arith))

pub not-covered-above :
    (lo hi x : ℕ) (l : List Segment) → Chain lo hi l → hi < x → covered x l ≡ false
not-covered-above lo hi x [] c h = refl
not-covered-above lo hi x (s ∷ l) c h = ground (arith, not-covered-above (s.end + 2) hi x l c.3 h)

-- A chain that ends in `c`, seen from that end.
pub Chain-Below :
    (lo hi : ℕ) (l : List Segment) (c : Segment)
    → Chain lo hi (l ++ c ∷ [])
    → Below (c.start - 1) l × (lo ≤ c.start) × (c.start ≤ c.end) × (c.end ≤ hi)
Chain-Below lo hi [] c h = (tt, h.0, h.1, h.2)
Chain-Below lo hi (s ∷ l) c h =
    let t = Chain-Below (s.end + 2) hi l c h.3 in ((h.1, omega arith, t.0), omega arith, t.2, t.3)

pub Chain-snoc :
    (lo hi : ℕ) (l : List Segment) (c d : Segment)
    → Chain lo hi (l ++ c ∷ [])
    → c.end + 2 ≤ d.start
    → d.start ≤ d.end
    → d.end ≤ hi
    → Chain lo hi ((l ++ c ∷ []) ++ d ∷ [])
Chain-snoc lo hi [] c d h p q r = (h.0, h.1, h.2, (p, q, r, tt))
Chain-snoc lo hi (s ∷ l) c d h p q r = (h.0, h.1, h.2, Chain-snoc (s.end + 2) hi l c d h.3 p q r)

pub Chain-extend :
    (lo hi : ℕ) (l : List Segment) (c : Segment) (e : ℕ)
    → Chain lo hi (l ++ c ∷ [])
    → c.end ≤ e
    → e ≤ hi
    → Chain lo hi (l ++ set_end c e ∷ [])
Chain-extend lo hi [] c e h p q = (h.0, omega arith, q, tt)
Chain-extend lo hi (s ∷ l) c e h p q = (h.0, h.1, h.2, Chain-extend (s.end + 2) hi l c e h.3 p q)

-- Behind segments that all end below it, a segment is linked in last.
pub place-Below :
    (c : Segment) (l : List Segment) → Below c.start l → place c l ≡ (l ++ c ∷ [], appended)
unfolding place
place-Below c [] b = refl
place-Below c (r ∷ rest) b = ground (arith, place-Below c rest b.2)

-- Segments one behind the other from `lo` on, below `hi`, none of which begins at the last number.
abbrev pub InOrder : ℕ → ℕ → List Segment → Type 0
InOrder lo hi [] = lo ≤ hi
InOrder lo hi (s ∷ rest) =
    (lo ≤ s.start) × (s.start ≤ s.end) × (s.start + 1 < hi) × InOrder (s.end + 1) hi rest

pub InOrder-mono : (lo j k : ℕ) (l : List Segment) → j ≤ k → InOrder lo j l → InOrder lo k l
InOrder-mono lo j k [] h o = omega arith
InOrder-mono lo j k (s ∷ l) h o =
    (o.0, o.1, omega (arith, o.2, h), InOrder-mono (s.end + 1) j k l h o.3)

pub InOrder-snoc :
    (lo a k : ℕ) (l : List Segment) (c : Segment)
    → InOrder lo a l
    → a ≤ c.start
    → c.start ≤ c.end
    → c.end < k
    → c.start + 1 < k
    → InOrder lo k (l ++ c ∷ [])
InOrder-snoc lo a k [] c o p q r t = (omega arith, q, t, omega arith)
InOrder-snoc lo a k (s ∷ l) c o p q r t =
    (o.0, o.1, omega (arith, o.2, p, t), InOrder-snoc (s.end + 1) a k l c o.3 p q r t)
