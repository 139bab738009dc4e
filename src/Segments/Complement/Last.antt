-- ===== src/Segments/Complement/Last.antt =====
-- What `get_complement_segment` reports where the packet `end` alone is missing at the end.
use libdtp.Common.{
  ℕ, ◌<◌, ◌≡◌, ◌≢◌, refl, List, [], ◌∷◌, true, false, ◌⊎◌, inl, inr, Bool-cases, some, arith, leb,
  ◌==◌, length, ◌%◌, ◌^◌, u32_max, ◌+◌, ◌-◌, ap, ◌∙◌,
}
use libdtp.Segments.{Segment, SegmentsCtx, Gaps, get_complement_segment, init_segments_ctx}
use libdtp.Segments.Shape.{covered, Chain, not-covered-Below, InOrder}
use libdtp.Segments.Complement.{Found, run_cases}
use libdtp.Segments.Complement.Missing.{tail_closed, complement_of, Found-top, Skipped-tail}

Found-ne-nil : (l : List Segment) (g : Gaps) → Found l g → l ≢ []
Found-ne-nil l g f e = let q = f.last in cc (q, ap (covered (g.seg_start - 1)) e)

Found-stops :
    (end : ℕ) (l : List Segment) (g : Gaps)
    → Chain 0 end l
    → Found l g
    → covered end l ≡ false
    → (l ≡ []) ⊎ ((0 < end) × (covered (end - 1) l ≡ true))
    → g.seg_start ≡ end
Found-stops end l g h f out (inl e) = absurd (Found-ne-nil l g f e)
Found-stops end l g h f out (inr (p, e)) = elim (Bool-cases (g.seg_start == (end + 1))) [
  | inl over ↦
      let q : g.seg_start - 1 ≡ end = ground arith in cc (f.last, ap (λ x. covered x l) q, out)
  | inr other ↦ ground (arith, f.gaps (end - 1), e, Found-top end l g h f)
]

-- Where `end` is the only gap at the end, or nothing has been received at all, the complement leaves
-- the missing packet `end` out, and is empty if nothing has been received: for a list in order
-- within 0 .. end that does not cover `end`, and that is empty or covers `end - 1`.
pub get_complement_segment_misses_last :
    (ctx : SegmentsCtx) (end : ℕ)
    → end < u32_max
    → Chain 0 end ctx.segments
    → covered end ctx.segments ≡ false
    → (ctx.segments ≡ []) ⊎ ((0 < end) × (covered (end - 1) ctx.segments ≡ true))
    → (res : SegmentsCtx) × (get_complement_segment ctx 0 end ≡ some res)
      × (covered end res.segments ≡ false)
      × (ctx.segments ≡ [] → res.segments ≡ [])
get_complement_segment_misses_last ctx end small h out c =
    let l : List Segment = ctx.segments in
    let (g, e, cases) = run_cases end small l h in
    elim cases [
      | inl s ↦
          (init_segments_ctx, complement_of ctx end e (Skipped-tail end g s.same), refl, λ p. refl)
      | inr f ↦
          let at_end : g.seg_start ≡ end = Found-stops end l g h f out c in
          (
            g.complements,
            complement_of ctx end e (tail_closed end g (omega arith)),
            not-covered-Below g.seg_start end g.complements.segments f.scan.below (omega arith),
            λ p. absurd (Found-ne-nil l g f p),
          )
    ]

-- A list in order that covers nothing is empty.
covers-nothing :
    (lo hi : ℕ) (l : List Segment) → InOrder lo hi l → ((x : ℕ) → covered x l ≡ false) → l ≡ []
covers-nothing lo hi [] h none_covered = refl
covers-nothing lo hi (s ∷ l) h none_covered = absurd (ground (arith, none_covered s.start, h.1))

-- Where all packets but `end` have been received, the complement is empty.
pub get_complement_segment_last_only :
    (ctx : SegmentsCtx) (end : ℕ)
    → end < u32_max
    → Chain 0 end ctx.segments
    → ((x : ℕ) → x < end → covered x ctx.segments ≡ true)
    → covered end ctx.segments ≡ false
    → (res : SegmentsCtx) × (get_complement_segment ctx 0 end ≡ some res)
      × (res.segments ≡ [])
      × (res.nof_segments ≡ 0)
get_complement_segment_last_only ctx end small h all out =
    let l : List Segment = ctx.segments in
    let (g, e, cases) = run_cases end small l h in
    elim cases [
      | inl s ↦ (init_segments_ctx, complement_of ctx end e (Skipped-tail end g s.same), refl, refl)
      | inr f ↦
          let top = Found-top end l g h f in
          let at_end : g.seg_start ≡ end = elim (Bool-cases (end == 0)) [
            | inl zero_end ↦
                let q : g.seg_start - 1 ≡ end = ground arith in
                absurd (cc (f.last, ap (λ x. covered x l) q, out))
            | inr later ↦
                Found-stops end l g h f out (inr (ground arith, all (end - 1) (ground arith)))
          ] in
          let nothing : g.complements.segments ≡ [] =
            covers-nothing 0 g.seg_start g.complements.segments f.scan.order (λ x.
              elim (Bool-cases (leb g.seg_start x)) [
                | inl above ↦
                    not-covered-Below g.seg_start x g.complements.segments f.scan.below
                      (ground (arith, above))
                | inr below ↦ ground (arith, f.gaps x, all x, below, at_end)
              ]) in
          (
            g.complements,
            complement_of ctx end e (tail_closed end g (omega (arith, at_end))),
            nothing,
            f.scan.counted ∙ (ap (λ k. length k % 2 ^ 32) nothing),
          )
    ]
