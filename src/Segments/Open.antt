-- ===== src/Segments/Open.antt =====
-- `update_segments_range` on a context whose open segment is not yet in the list.
use libdtp.Common.{
  ℕ, ◌+◌, ◌-◌, ◌%◌, ◌^◌, ◌≤◌, ◌<◌, ◌≡◌, refl, List, [], ◌∷◌, ◌++◌, true, ◌||◌, some, arith, leb,
  length, length-append, add32, u32_max, Bool-cases, leb→le, le→leb, gt→leb, inl, inr,
}
use libdtp.Segments.{
  Segment, detached, linked, SegmentsCtx, appended, place, append_cur, append_segment, set_end,
  update_started, update_segments_range,
}
use libdtp.Segments.Shape.{
  inside, covered, covered-append, Chain, Below-mono, Chain-Below, Chain-snoc, Chain-extend,
  place-Below,
}

-- The recorded segments, the open one last.
abbrev pub view : SegmentsCtx → Segment → List Segment
view ctx c = ctx.segments ++ c ∷ []

pub record IsOpen (hi : ℕ) (ctx : SegmentsCtx) (c : Segment) : Type 0 where
  pub cur : ctx.cur_segment ≡ detached c
  pub started : ctx.started ≡ true
  pub chain : Chain 0 hi (view ctx c)
  pub counted : ctx.nof_segments ≡ length ctx.segments % 2 ^ 32

-- What an update by `s` does to the numbers covered by `v`, whose open segment starts at `k`.
pub record Grows (v : List Segment) (k : ℕ) (s : Segment) (w : List Segment) : Type 0 where
  pub sound : (x : ℕ) → covered x w ≡ true → (covered x v || inside x s) ≡ true
  pub exact : k ≤ s.start → (x : ℕ) → covered x w ≡ (covered x v || inside x s)

place_open :
    (hi : ℕ) (ctx : SegmentsCtx) (c : Segment)
    → IsOpen hi ctx c
    → place c ctx.segments ≡ (ctx.segments ++ c ∷ [], appended)
place_open hi ctx c o =
    let b = Chain-Below 0 hi ctx.segments c o.chain in
    place-Below c ctx.segments
      (Below-mono {j = c.start - 1} {k = c.start} ctx.segments (omega arith) b.0)

-- Closing appends the open segment.
pub append-IsOpen :
    (hi : ℕ) (ctx : SegmentsCtx) (c : Segment)
    → IsOpen hi ctx c
    → append_segment ctx
      ≡ some (record ctx {
        segments = ctx.segments ++ c ∷ [];
        cur_segment = linked (length ctx.segments);
        nof_segments = add32 ctx.nof_segments 1;
      })
unfolding append_segment
append-IsOpen hi ctx c o = rw (o.cur, append_cur, place_open hi ctx c o)

contained-Grows :
    (l : List Segment) (c s : Segment) → s.end ≤ c.end → Grows (l ++ c ∷ []) c.start s (l ++ c ∷ [])
contained-Grows l c s h = record {
  sound = λ x e. rw e refl;
  exact = λ k x. ground (arith, covered-append x l (c ∷ []));
}

extended-Grows :
    (l : List Segment) (c s : Segment)
    → s.start ≤ c.end + 1
    → c.end < s.end
    → Grows (l ++ c ∷ []) c.start s (l ++ set_end c s.end ∷ [])
extended-Grows l c s h g = record {
  sound =
      λ x e. ground (arith, covered-append x l (c ∷ []), covered-append x l (set_end c s.end ∷ []));
  exact =
      λ k x. ground (arith, covered-append x l (c ∷ []), covered-append x l (set_end c s.end ∷ []));
}

snoc-Grows : (v : List Segment) (k : ℕ) (s : Segment) → Grows v k s (v ++ s ∷ [])
snoc-Grows v k s = record {
  sound = λ x e. ground (arith, covered-append x v (s ∷ []));
  exact = λ h x. ground (arith, covered-append x v (s ∷ []));
}

-- The state after an update of `ctx`, whose open segment was `c`, by `s`.
pub record Updated (hi : ℕ) (ctx : SegmentsCtx) (c s : Segment) (ctx' : SegmentsCtx) (c' : Segment)
    : Type 0 where
  pub opened : IsOpen hi ctx' c'
  pub grows : Grows (view ctx c) c.start s (view ctx' c')
  pub in_order : c.start ≤ s.start → c'.start ≤ s.start

pub record Bounded (hi : ℕ) (s : Segment) : Type 0 where
  pub proper : s.start ≤ s.end
  pub top : s.end ≤ hi

module _ (hi : ℕ) (ctx : SegmentsCtx) (c s : Segment) (o : IsOpen hi ctx c) (small : hi < u32_max)
    (b : Bounded hi s) where
  open_end : add32 c.end 1 ≡ c.end + 1
  open_end = let t = Chain-Below 0 hi ctx.segments c o.chain in omega arith

  update_contained :
      s.start ≤ c.end + 1
      → s.end ≤ c.end
      → update_segments_range true ctx s.start s.end ≡ some (true, ctx)
  unfolding update_segments_range
  update_contained p q = rw (o.started, update_started, o.cur, open_end, le→leb _ _ p, le→leb _ _ q)

  update_extends :
      s.start ≤ c.end + 1
      → c.end < s.end
      → update_segments_range true ctx s.start s.end
        ≡ some (true, record ctx { cur_segment = detached (set_end c s.end) })
  unfolding update_segments_range
  update_extends p q = rw (o.started, update_started, o.cur, open_end, le→leb _ _ p, gt→leb _ _ q)

  update_opens :
      c.end + 1 < s.start
      → update_segments_range true ctx s.start s.end
        ≡ some (
          true,
          record ctx {
            segments = ctx.segments ++ c ∷ [];
            cur_segment = detached s;
            nof_segments = add32 ctx.nof_segments 1;
          },
        )
  unfolding update_segments_range update_started
  update_opens p = ground (arith, open_end, o.cur, o.started, append-IsOpen hi ctx c o)

  -- An update of an open context succeeds, keeps the list a chain, and covers no other number.
  pub update-IsOpen :
      (ctx' : SegmentsCtx) × (c' : Segment) × (update_segments_range true ctx s.start s.end
        ≡ some (true, ctx'))
      × Updated hi ctx c s ctx' c'
  update-IsOpen = elim (Bool-cases (leb s.start (c.end + 1))) [
    | inl near ↦ elim (Bool-cases (leb s.end c.end)) [
      | inl old ↦ (
        ctx,
        c,
        update_contained (leb→le _ _ near) (leb→le _ _ old),
        record {
          opened = o;
          grows = contained-Grows ctx.segments c s (leb→le _ _ old);
          in_order = λ h. h;
        },
      )
      | inr new ↦ (
        record ctx { cur_segment = detached (set_end c s.end) },
        set_end c s.end,
        update_extends (leb→le _ _ near) (ground arith),
        record {
          opened = record {
            cur = refl;
            started = o.started;
            chain = Chain-extend 0 hi ctx.segments c s.end o.chain (ground arith) b.top;
            counted = o.counted;
          };
          grows = extended-Grows ctx.segments c s (leb→le _ _ near) (ground arith);
          in_order = λ h. h;
        },
      )
    ]
    | inr far ↦ (
      record ctx {
        segments = ctx.segments ++ c ∷ [];
        cur_segment = detached s;
        nof_segments = add32 ctx.nof_segments 1;
      },
      s,
      update_opens (ground arith),
      record {
        opened = record {
          cur = refl;
          started = o.started;
          chain = Chain-snoc 0 hi ctx.segments c s o.chain (ground arith) b.proper b.top;
          counted = omega (arith, o.counted, length-append ctx.segments (c ∷ []));
        };
        grows = snoc-Grows (view ctx c) c.start s;
        in_order = λ h. omega arith;
      },
    )
  ]
