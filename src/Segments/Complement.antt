-- ===== src/Segments/Complement.antt =====
-- `get_complement_segment` over a range that starts at 0, as its callers use it.
pub mod Missing
pub mod Last
use libdtp.Common.{
  ltb→lt, ℕ, zero, suc, ◌≤◌, ◌<◌, ◌≡◌, ◌≢◌, refl, List, [], ◌∷◌, ◌++◌, Bool, true, false, not, ◌||◌,
  ◌&&◌, ◌⊎◌, inl, inr, Bool-cases, Option, none, some, arith, leb, ltb, ◌==◌, length, length-append,
  ◌%◌, ◌^◌, u32_max, ◌>>=◌, if◌then◌else◌, ◌+◌, ◌-◌, ◌∙◌, sym, add32, leb→le, gt→leb, lt→ltb,
  ge→ltb, le→leb, ap,
}
use libdtp.Segments.{
  Segment, SegmentPtr, linked, detached, null, SegmentsCtx, Gaps, place, append_cur, add_gap,
  complement_step, complement_loop, complement_tail, get_complement_segment, init_segments_ctx,
  append_segment,
}
use libdtp.Segments.Shape.{
  Chain-mono, covered, covered-append, inside, Chain, Below, Below-mono, Below-append, place-Below,
  not-covered-Chain, not-covered-Below, not-covered-above, InOrder, InOrder-snoc,
}

abbrev pub range : ℕ → ℕ → Segment
range a b = record { start = a; end = b }

abbrev pub with_gap : SegmentsCtx → ℕ → ℕ → SegmentsCtx
with_gap c a b = record c {
  segments = c.segments ++ range a b ∷ [];
  cur_segment = linked (length c.segments);
  nof_segments = add32 c.nof_segments 1;
}

pub add_gap-Below :
    (c : SegmentsCtx) (a b : ℕ) → Below a c.segments → add_gap c a b ≡ some (with_gap c a b)
unfolding add_gap append_cur
add_gap-Below c a b h = rw (place-Below (range a b) c.segments h)

-- The complements so far end below the next number to look at, and are counted.
pub record IsScan (c : SegmentsCtx) (k : ℕ) : Type 0 where
  pub below : Below k c.segments
  pub order : InOrder 0 k c.segments
  pub counted : c.nof_segments ≡ length c.segments % 2 ^ 32

pub with_gap-IsScan :
    (c : SegmentsCtx) (a b k : ℕ)
    → IsScan c a
    → a ≤ b
    → b < k
    → a + 1 < k
    → IsScan (with_gap c a b) k
with_gap-IsScan c a b k v p q r = record {
  below =
      Below-append k c.segments (range a b ∷ [])
        (Below-mono {j = a} {k = k} c.segments (omega arith) v.below) (p, q, tt);
  order = InOrder-snoc 0 a k c.segments (range a b) v.order (omega arith) p q r;
  counted = omega (arith, v.counted, length-append c.segments (range a b ∷ []));
}

-- The loop over the segments `l` that lie above `k`: it leaves the gaps below its new `seg_start`,
-- which is one past the last segment.
record Scanned (c : SegmentsCtx) (k : ℕ) (l : List Segment) (g : Gaps) : Type 0 where
  pub scan : IsScan g.complements g.seg_start
  pub ends : g.seg_end < g.seg_start
  pub gaps :
      (x : ℕ)
      → (covered x g.complements.segments || leb g.seg_start x)
        ≡ (covered x c.segments || (leb k x && not (covered x l)))
  pub last : ((l ≡ []) × (g.seg_start ≡ k)) ⊎ (covered (g.seg_start - 1) l ≡ true)

-- Where a round that meets a gap leaves the locals.
abbrev past : Segment → Gaps → Gaps
past r g = record {
  complements = with_gap g.complements g.seg_start (r.start - 1);
  seg_start = r.end + 1;
  seg_end = r.start - 1;
}

Scanned-cons :
    (end : ℕ) (c : SegmentsCtx) (k : ℕ) (r : Segment) (rest : List Segment) (g : Gaps)
    → k < r.start
    → r.start ≤ r.end
    → Chain (r.end + 2) end rest
    → Scanned (with_gap c k (r.start - 1)) (r.end + 1) rest g
    → Scanned c k (r ∷ rest) g
Scanned-cons end c k r rest g p q h s = record {
  scan = s.scan;
  ends = s.ends;
  gaps = λ x. ground (
    arith,
    s.gaps x,
    covered-append x c.segments (range k (r.start - 1) ∷ []),
    not-covered-Chain (r.end + 2) end x rest h,
  );
  last = inr (last_in s.last);
}
  where
    last_in :
        ((rest ≡ []) × (g.seg_start ≡ r.end + 1)) ⊎ (covered (g.seg_start - 1) rest ≡ true)
        → covered (g.seg_start - 1) (r ∷ rest) ≡ true
    last_in (inl (e, f)) = rw f (ground arith)
    last_in (inr e) = ground (arith, e)

module _ (end : ℕ) (small : end < u32_max) where
  step_gap :
      (r : Segment) (g : Gaps)
      → IsScan g.complements g.seg_start
      → g.seg_start < r.start
      → r.end ≤ end
      → complement_step 0 end r g ≡ some (past r g)
  unfolding complement_step
  step_gap r g v h t =
      let e : add32 r.end 1 ≡ r.end + 1 = omega arith in
      ground (arith, e, add_gap-Below g.complements g.seg_start (r.start - 1) v.below)

  loop-Scanned :
      (l : List Segment) (g : Gaps)
      → IsScan g.complements g.seg_start
      → (g.seg_end < g.seg_start) ⊎ (l ≢ [])
      → Chain (g.seg_start + 1) end l
      → (g' : Gaps) × (complement_loop 0 end l g ≡ some g') × Scanned g.complements g.seg_start l g'
  unfolding complement_loop
  loop-Scanned [] g v p h = (
    g,
    refl,
    record {
      scan = v;
      ends = elim p [ inl q ↦ q | inr q ↦ absurd (q refl) ];
      gaps = λ x. ground arith;
      last = inl (refl, refl);
    },
  )
  loop-Scanned (r ∷ rest) g v p h =
      let (g₂, e, s) =
        loop-Scanned rest (past r g)
          (with_gap-IsScan g.complements g.seg_start (r.start - 1) (r.end + 1) v (omega arith)
            (omega arith) (omega arith))
          (omega arith) (Chain-mono (r.end + 1 + 1) (r.end + 2) end rest (omega arith) h.3) in
      (
        g₂,
        rw (step_gap r g v (omega arith) h.2) e,
        Scanned-cons end g.complements g.seg_start r rest g₂ (omega arith) h.1 h.3 s,
      )

abbrev pub first_gaps : Gaps
first_gaps = record { complements = init_segments_ctx; seg_start = 0; seg_end = 0 }

first_IsScan : (k : ℕ) → IsScan init_segments_ctx k
first_IsScan k = record { below = tt; order = omega arith; counted = refl }

-- The loop either leaves its locals as they were, over no segment or over one from 0 to `end - 1`
-- or further, or it has found the gaps below its `seg_start`.
pub record Skipped (end : ℕ) (l : List Segment) (g : Gaps) : Type 0 where
  pub same : g ≡ first_gaps
  pub full : (l ≡ []) ⊎ ((covered 0 l ≡ true) × ((x : ℕ) → x < end → covered x l ≡ true))

pub record Found (l : List Segment) (g : Gaps) : Type 0 where
  pub scan : IsScan g.complements g.seg_start
  pub ends : g.seg_end < g.seg_start
  pub gaps : (x : ℕ) → (covered x g.complements.segments || leb g.seg_start x) ≡ not (covered x l)
  pub last : covered (g.seg_start - 1) l ≡ true

module _ (end : ℕ) (small : end < u32_max) where
  run_from_gap :
      (r : Segment) (rest : List Segment)
      → 0 < r.start
      → Chain 0 end (r ∷ rest)
      → (g : Gaps) × (complement_loop 0 end (r ∷ rest) first_gaps ≡ some g) × Found (r ∷ rest) g
  run_from_gap r rest p h =
      let (g, e, s) =
        loop-Scanned end small (r ∷ rest) first_gaps (first_IsScan 0) (inr (λ q. cc))
          (Chain-mono 1 r.start end (r ∷ rest) p (omega arith, h.1, h.2, h.3)) in
      (
        g,
        e,
        record {
          scan = s.scan;
          ends = s.ends;
          gaps = λ x. ground (arith, s.gaps x);
          last = elim s.last [ inl q ↦ cc (q.0) | inr q ↦ q ];
        },
      )

  step_zero :
      (r : Segment)
      → r.start ≡ 0
      → r.end + 1 < end
      → complement_step 0 end r first_gaps ≡ some (record first_gaps { seg_start = r.end + 1 })
  unfolding complement_step
  step_zero r z p = let over : add32 r.end 1 ≡ r.end + 1 = omega arith in ground (arith, over)

  run_from_zero :
      (r : Segment) (rest : List Segment)
      → r.start ≡ 0
      → r.end + 1 < end
      → Chain 0 end (r ∷ rest)
      → (g : Gaps) × (complement_loop 0 end (r ∷ rest) first_gaps ≡ some g) × Found (r ∷ rest) g
  unfolding complement_loop
  run_from_zero r rest z p h =
      let k : ℕ = r.end + 1 in
      let (g, e, s) =
        loop-Scanned end small rest (record first_gaps { seg_start = k }) (first_IsScan k)
          (inl (omega arith)) (Chain-mono (k + 1) (r.end + 2) end rest (omega arith) h.3) in
      let over : add32 r.end 1 ≡ r.end + 1 = omega arith in
      (
        g,
        rw (step_zero r z p) e,
        record {
          scan = s.scan;
          ends = s.ends;
          gaps = λ x. ground (arith, s.gaps x, z, not-covered-Chain (r.end + 2) end x rest h.3);
          last = elim s.last [ inl q ↦ ground (arith, q.1, h.1) | inr q ↦ ground (arith, q) ];
        },
      )

  run_full :
      (r : Segment) (rest : List Segment)
      → r.start ≡ 0
      → end ≤ r.end + 1
      → Chain 0 end (r ∷ rest)
      → (complement_loop 0 end (r ∷ rest) first_gaps ≡ some first_gaps)
        × Skipped end (r ∷ rest) first_gaps
  unfolding complement_loop complement_step
  run_full r [] z p h =
      (ground arith, record { same = refl; full = inr (ground arith, λ x q. ground arith) })
  run_full r (s ∷ rest) z p h = absurd (omega arith)

  -- Every list in order is covered by one of the two.
  pub run_cases :
      (l : List Segment)
      → Chain 0 end l
      → (g : Gaps) × (complement_loop 0 end l first_gaps ≡ some g) × (Skipped end l g ⊎ Found l g)
  unfolding complement_loop
  run_cases [] h = (first_gaps, refl, inl (record { same = refl; full = inl refl }))
  run_cases (r ∷ rest) h = elim (Bool-cases (ltb 0 r.start)) [
    | inl later ↦ let (g, e, f) = run_from_gap r rest (ltb→lt _ _ later) h in (g, e, inr f)
    | inr zero_start ↦ elim (Bool-cases (ltb (r.end + 1) end)) [
      | inl short ↦
          let (g, e, f) = run_from_zero r rest (ground arith) (ltb→lt _ _ short) h in (g, e, inr f)
      | inr long ↦
          let (e, f) = run_full r rest (ground arith) (ground arith) h in (first_gaps, e, inl f)
    ]
  ]
