-- ===== src/Hooks/Ending.antt =====
-- src/dtp_client_posix_session_hooks.c: what the hooks have recorded when a download has ended.
use mathlib.Core.Path.{subst}
use libdtp.Common.{
  ℕ, ◌+◌, ◌-◌, ◌%◌, ◌^◌, ◌≤◌, ◌<◌, ◌≡◌, ◌≢◌, refl, sym, ap, ◌∙◌, List, [], ◌∷◌, Bool, true, false,
  ◌||◌, ◌⊎◌, inl, inr, Option, none, some, some_inj, arith, ◌==◌, u32_max, ◌>>=◌, Option-cases,
  Bool-cases, length,
}
use libdtp.Segments.{
  Segment, SegmentsCtx, init_segments_ctx, close_segments, get_complement_segment,
}
use libdtp.Segments.Shape.{Chain-top, covered, Chain}
use libdtp.Segments.Receive.{
  receive, transfer, elem, AllBelow, Increasing, transfer_exact, transfer_sound,
}
use libdtp.Segments.Merge.{merge_segments-union}
use libdtp.Segments.Complement.Missing.{get_complement_segment-exact}
use libdtp.Segments.Complement.Last.{get_complement_segment_misses_last}
use libdtp.Hooks.{joined}

-- The segments of the session before, if there was one.
abbrev pub covers_before : ℕ → Option SegmentsCtx → Bool
covers_before x none = false
covers_before x (some r) = covered x r.segments

abbrev pub InRange : ℕ → Option SegmentsCtx → Type 0
InRange hi none = Unit {0}
InRange hi (some r) = Chain 0 hi r.segments

-- A list in order that covers nothing above `top`.
Chain-tight :
    (lo hi top : ℕ) (l : List Segment)
    → Chain lo hi l
    → ((x : ℕ) → covered x l ≡ true → x ≤ top)
    → Chain lo top l
Chain-tight lo hi top [] c h = tt
Chain-tight lo hi top (s ∷ l) c h = (
  c.0,
  c.1,
  h s.end (ground (arith, c.1)),
  Chain-tight (s.end + 2) hi top l c.3 (λ x e. h x (ground (arith, e))),
)

pub covered-Chain-top :
    (lo hi x : ℕ) (l : List Segment) → Chain lo hi l → covered x l ≡ true → x ≤ hi
covered-Chain-top lo hi x [] c e = absurd (cc (e))
covered-Chain-top lo hi x (s ∷ l) c e = elim (Bool-cases (covered x l)) [
  | inl later ↦ covered-Chain-top (s.end + 2) hi x l c.3 later
  | inr here ↦ ground (arith, e, here, c.2)
]

empty_or_not : (l : List Segment) → (l ≡ []) ⊎ (l ≢ [])
empty_or_not [] = inl refl
empty_or_not (s ∷ l) = inr (λ e. cc (e))

not_first :
    (end : ℕ) (l : List Segment) → covered end l ≡ false → covered (end - 1) l ≡ true → 0 < end
not_first end l k m = elim (Bool-cases (end == 0)) [
  | inl z ↦ let q : end - 1 ≡ end = ground (arith, z) in absurd (cc (k, m, ap (λ x. covered x l) q))
  | inr p ↦ ground (arith, p)
]

-- Within the packets 0 .. end the complement is computed without a fault.
pub complement_ends :
    (ctx : SegmentsCtx) (end : ℕ)
    → end < u32_max
    → Chain 0 end ctx.segments
    → (res : SegmentsCtx) × (get_complement_segment ctx 0 end ≡ some res)
complement_ends ctx end small h =
    let l : List Segment = ctx.segments in
    elim (empty_or_not l) [
      | inl e ↦
          let (res, p, a, b) =
            get_complement_segment_misses_last ctx end small h (ap (covered end) e) (inl e) in
          (res, p)
      | inr ne ↦ elim (Bool-cases (covered end l)) [
        | inl k ↦
            let (res, p, a, b, c) = get_complement_segment-exact ctx end small h ne (inl k) in
            (res, p)
        | inr k ↦ elim (Bool-cases (covered (end - 1) l)) [
          | inl m ↦
              let (res, p, a, b) =
                get_complement_segment_misses_last ctx end small h k
                  (inr (not_first end l k m, m)) in
              (res, p)
          | inr m ↦
              let (res, p, a, b, c) = get_complement_segment-exact ctx end small h ne (inr m) in
              (res, p)
        ]
      ]
    ]

-- What `apm_on_end` joins.
record IsJoined (closed : SegmentsCtx) (received : Option SegmentsCtx) (m : SegmentsCtx)
    : Type 0 where
  is : joined closed received ≡ some m
  chain : Chain 0 (u32_max - 1) m.segments
  counted : m.nof_segments ≡ length m.segments % 2 ^ 32
  union : (x : ℕ) → covered x m.segments ≡ (covered x closed.segments || covers_before x received)

join :
    (closed : SegmentsCtx) (received : Option SegmentsCtx)
    → Chain 0 (u32_max - 1) closed.segments
    → closed.nof_segments ≡ length closed.segments % 2 ^ 32
    → InRange (u32_max - 1) received
    → (m : SegmentsCtx) × IsJoined closed received m
join closed none c n r =
    (closed, record { is = refl; chain = c; counted = n; union = λ x. ground arith })
join closed (some r) c n h =
    let (m, e, k, q, u) = merge_segments-union closed r c h in
    (m, record { is = e; chain = k; counted = q; union = u })

below_elem : (x m : ℕ) (ps : List ℕ) → AllBelow m ps → elem x ps ≡ true → x < m
below_elem x m [] b e = absurd (cc (e))
below_elem x m (p ∷ ps) b e = elim (Bool-cases (elem x ps)) [
  | inl later ↦ below_elem x m ps b.1 later
  | inr here ↦ ground (arith, e, here, b.0)
]

AllBelow-mono : (m n : ℕ) (ps : List ℕ) → m ≤ n → AllBelow m ps → AllBelow n ps
AllBelow-mono m n [] h b = tt
AllBelow-mono m n (p ∷ ps) h b = (omega (arith, h, b.0), AllBelow-mono m n ps h b.1)

InRange-mono : (k n : ℕ) (r : Option SegmentsCtx) → k ≤ n → InRange k r → InRange n r
InRange-mono k n none h a = tt
InRange-mono k n (some r) h a = Chain-top 0 k n r.segments h a

before_below : (x k : ℕ) (r : Option SegmentsCtx) → InRange k r → covers_before x r ≡ true → x ≤ k
before_below x k none a e = absurd (cc (e))
before_below x k (some r) a e = covered-Chain-top 0 k x r.segments a e

low_of :
    (x n : ℕ) (ps : List ℕ) (received : Option SegmentsCtx)
    → 0 < n
    → AllBelow n ps
    → InRange (n - 1) received
    → (elem x ps || covers_before x received) ≡ true
    → x ≤ n - 1
low_of x n ps received z b r e = elim (Bool-cases (elem x ps)) [
  | inl now ↦ omega (arith, below_elem x n ps b now)
  | inr before ↦
      before_below x (n - 1) received r (sym (ap (λ k. k || covers_before x received) before) ∙ e)
]

-- The list that a download of packets below `n` leaves.
pub record IsRecorded (n : ℕ) (ps : List ℕ) (received : Option SegmentsCtx)
    (g closed merged : SegmentsCtx) : Type 0 where
  pub received_all : receive ps init_segments_ctx ≡ some g
  pub closes : close_segments g ≡ some closed
  pub joins : joined closed received ≡ some merged
  pub chain : Chain 0 (n - 1) merged.segments
  pub counted : merged.nof_segments ≡ length merged.segments % 2 ^ 32
  pub covers : (x : ℕ) → covered x merged.segments ≡ (elem x ps || covers_before x received)

split_transfer :
    (ps : List ℕ) (closed : SegmentsCtx)
    → transfer ps ≡ some closed
    → (g : SegmentsCtx) × (receive ps init_segments_ctx ≡ some g) × (close_segments g ≡ some closed)
split_transfer ps closed e = elim (Option-cases (receive ps init_segments_ctx)) [
  | inl fault ↦ absurd (cc (e, ap (λ o. o >>= close_segments) fault))
  | inr (g, q) ↦ (g, q, sym (ap (λ o. o >>= close_segments) q) ∙ e)
]

pub recorded :
    (n : ℕ) (ps : List ℕ) (received : Option SegmentsCtx)
    → 0 < n
    → n ≤ u32_max
    → AllBelow n ps
    → Increasing 0 ps
    → InRange (n - 1) received
    → (g : SegmentsCtx) × (closed : SegmentsCtx) × (merged : SegmentsCtx) × IsRecorded n ps received
        g closed merged
recorded n ps received z small b a r =
    let b' = AllBelow-mono n u32_max ps small b in
    let (closed, e, cover) = transfer_exact ps b' a in
    let (closed', e', chain, count, sound) = transfer_sound ps b' in
    let same : closed' ≡ closed = some_inj (sym e' ∙ e) in
    let (g, p, q) = split_transfer ps closed e in
    let (m, j) =
      join closed received
        (subst (λ (k : SegmentsCtx). Chain 0 (u32_max - 1) k.segments) same chain)
        (subst (λ (k : SegmentsCtx). k.nof_segments ≡ length k.segments % 2 ^ 32) same count)
        (InRange-mono (n - 1) (u32_max - 1) received (omega arith) r) in
    let covers = λ (x : ℕ). j.union x ∙ ap (λ c. c || covers_before x received) (cover x) in
    (
      g,
      closed,
      m,
      record {
        received_all = p;
        closes = q;
        joins = j.is;
        chain =
            Chain-tight 0 (u32_max - 1) (n - 1) m.segments j.chain
              (λ x t. low_of x n ps received z b r (sym (covers x) ∙ t));
        counted = j.counted;
        covers = covers;
      },
    )
