-- ===== src/Segments/Complement/Missing.antt =====
-- What `get_complement_segment` reports of the packets 0 .. end, and what it leaves out.
use libdtp.Common.{
  ℕ, ◌≤◌, ◌<◌, ◌≡◌, ◌≢◌, refl, List, [], ◌∷◌, true, false, not, ◌&&◌, ◌⊎◌, inl, inr, Bool-cases,
  some, arith, leb, ltb, ◌==◌, length, ◌%◌, ◌^◌, u32_max, ◌+◌, ◌-◌, lt→ltb, ltb→lt, ge→ltb,
}
use libdtp.Segments.{
  Segment, SegmentsCtx, Gaps, complement_loop, complement_tail, get_complement_segment,
  init_segments_ctx,
}
use libdtp.Segments.Shape.{
  covered, covered-append, Chain, not-covered-above, not-covered-Below, Below-mono, InOrder,
  InOrder-mono,
}
use libdtp.Segments.Complement.{
  IsScan, Found, first_gaps, run_cases, with_gap, with_gap-IsScan, add_gap-Below, range,
}

-- The end of the walk, where it has found gaps.
tail_open :
    (end : ℕ) (g : Gaps)
    → IsScan g.complements g.seg_start
    → g.seg_end < g.seg_start
    → g.seg_start < end
    → complement_tail end g ≡ some (with_gap g.complements g.seg_start end)
unfolding complement_tail
tail_open end g v p q =
    rw (lt→ltb _ _ q, lt→ltb _ _ p) (add_gap-Below g.complements g.seg_start end v.below)

pub tail_closed :
    (end : ℕ) (g : Gaps) → end ≤ g.seg_start → complement_tail end g ≡ some g.complements
unfolding complement_tail
tail_closed end g p = rw (ge→ltb _ _ p) refl

pub complement_of :
    (ctx : SegmentsCtx) (end : ℕ) {g : Gaps} {res : SegmentsCtx}
    → complement_loop 0 end ctx.segments first_gaps ≡ some g
    → complement_tail end g ≡ some res
    → get_complement_segment ctx 0 end ≡ some res
unfolding get_complement_segment
complement_of ctx end e f = rw e f

-- The walk stops at most one past `end`, and exactly there unless `end` alone is missing.
pub Found-top :
    (end : ℕ) (l : List Segment) (g : Gaps) → Chain 0 end l → Found l g → g.seg_start ≤ end + 1
Found-top end l g h f =
    ground (arith, f.last, not-covered-above 0 end (g.seg_start - 1) l h, f.ends)

Found-past :
    (end : ℕ) (l : List Segment) (g : Gaps)
    → Chain 0 end l
    → Found l g
    → (covered end l ≡ true) ⊎ (covered (end - 1) l ≡ false)
    → end ≤ g.seg_start
    → g.seg_start ≡ end + 1
Found-past end l g h f c p = elim (Bool-cases (g.seg_start == end)) [
  | inl at_end ↦
      let q : g.seg_start ≡ end = ground arith in
      absurd (elim c [ inl k ↦ ground (arith, f.gaps end, k) | inr k ↦ cc (f.last, k, q) ])
  | inr later ↦ let top = Found-top end l g h f in ground arith
]

-- What the walk returns once it has found gaps.
Found-tail :
    (end : ℕ) (l : List Segment) (g : Gaps)
    → Chain 0 end l
    → Found l g
    → (covered end l ≡ true) ⊎ (covered (end - 1) l ≡ false)
    → (res : SegmentsCtx) × (complement_tail end g ≡ some res)
      × IsScan res (end + 1)
      × ((x : ℕ) → covered x res.segments ≡ (leb x end && not (covered x l)))
Found-tail end l g h f c = elim (Bool-cases (ltb g.seg_start end)) [
  | inl short ↦ (
    with_gap g.complements g.seg_start end,
    tail_open end g f.scan f.ends (ltb→lt _ _ short),
    with_gap-IsScan g.complements g.seg_start end (end + 1) f.scan (ground arith) (omega arith)
        (omega (arith, ltb→lt _ _ short)),
    λ x. ground (
      arith,
      f.gaps x,
      covered-append x g.complements.segments (range g.seg_start end ∷ []),
      not-covered-above 0 end x l h,
      not-covered-Below g.seg_start x g.complements.segments f.scan.below,
    ),
  )
  | inr closed ↦
      let past : g.seg_start ≡ end + 1 = Found-past end l g h f c (ground arith) in
      (
        g.complements,
        tail_closed end g (omega arith),
        record {
          below =
              Below-mono {j = g.seg_start} {k = end + 1} g.complements.segments (omega arith)
                f.scan.below;
          order =
              InOrder-mono 0 g.seg_start (end + 1) g.complements.segments (omega arith)
                f.scan.order;
          counted = f.scan.counted;
        },
        λ x. ground (
          arith,
          f.gaps x,
          not-covered-above 0 end x l h,
          not-covered-Below g.seg_start x g.complements.segments f.scan.below,
        ),
      )
]

pub Skipped-tail :
    (end : ℕ) (g : Gaps) → g ≡ first_gaps → complement_tail end g ≡ some init_segments_ctx
unfolding complement_tail
Skipped-tail end g e = rw e (ground arith)

-- For a list in order within the packets 0 .. end (`end` below 2 ^ 32 - 1) that is not empty, and in
-- which `end` is covered or `end - 1` is missing too, the complement is computed without a fault. It
-- covers exactly the numbers up to `end` that the list does not cover, its segments are in order, and
-- its length is counted.
pub get_complement_segment-exact :
    (ctx : SegmentsCtx) (end : ℕ)
    → end < u32_max
    → Chain 0 end ctx.segments
    → ctx.segments ≢ []
    → (covered end ctx.segments ≡ true) ⊎ (covered (end - 1) ctx.segments ≡ false)
    → (res : SegmentsCtx) × (get_complement_segment ctx 0 end ≡ some res)
      × (res.nof_segments ≡ length res.segments % 2 ^ 32)
      × InOrder 0 (end + 1) res.segments
      × ((x : ℕ) → covered x res.segments ≡ (leb x end && not (covered x ctx.segments)))
get_complement_segment-exact ctx end small h ne c =
    let l : List Segment = ctx.segments in
    let (g, e, cases) = run_cases end small l h in
    elim cases [
      | inl s ↦ (
        init_segments_ctx,
        complement_of ctx end e (Skipped-tail end g s.same),
        refl,
        omega arith,
        all_covered s.full,
      )
      | inr f ↦
          let (res, t, v, q) = Found-tail end l g h f c in
          (res, complement_of ctx end e t, v.counted, v.order, q)
    ]
  where
    all_covered :
        (ctx.segments ≡ [])
          ⊎ ((covered 0 ctx.segments ≡ true) × ((x : ℕ) → x < end → covered x ctx.segments ≡ true))
        → (x : ℕ) → false ≡ (leb x end && not (covered x ctx.segments))
    all_covered (inl e) x = absurd (ne e)
    all_covered (inr f) x = elim (Bool-cases (x == end)) [
      | inl at_end ↦
          let q : x ≡ end = ground arith in
          rw q
            (elim c [ inl k ↦ ground (arith, k) | inr k ↦ ground (arith, k, f.0, f.1 (end - 1)) ])
      | inr other ↦ ground (arith, f.1 x)
    ]
