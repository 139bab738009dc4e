-- ===== src/Segments/Feed.antt =====
-- Runs of `update_segments_range`, from a fresh context up to `close_segments`.
use libdtp.Common.{
  ℕ, ◌%◌, ◌^◌, ◌≤◌, ◌<◌, ◌≡◌, refl, List, [], ◌∷◌, ◌++◌, true, ◌||◌, some, arith, length,
  length-append, add32, u32_max, ◌>>=◌,
}
use libdtp.Segments.{
  Segment, detached, linked, SegmentsCtx, update_segments_range, init_segments_ctx, feed,
  close_segments,
}
use libdtp.Segments.Shape.{covered, Chain}
use libdtp.Segments.Open.{view, IsOpen, Bounded, append-IsOpen, update-IsOpen}

abbrev pub AllBounded : ℕ → List Segment → Type 0
AllBounded hi [] = Unit {0}
AllBounded hi (s ∷ l) = Bounded hi s × AllBounded hi l

abbrev pub Ascending : ℕ → List Segment → Type 0
Ascending k [] = Unit {0}
Ascending k (s ∷ l) = (k ≤ s.start) × Ascending s.start l

Ascending-mono : {j k : ℕ} (l : List Segment) → j ≤ k → Ascending k l → Ascending j l
Ascending-mono [] h a = tt
Ascending-mono (s ∷ l) h a = (omega arith, a.1)

-- The state after a run of updates by `l`, from the recorded segments `v`, the last of them from `k`.
pub record Fed (hi : ℕ) (v : List Segment) (k : ℕ) (l : List Segment) (ctx' : SegmentsCtx)
    (c' : Segment) : Type 0 where
  pub opened : IsOpen hi ctx' c'
  pub sound : (x : ℕ) → covered x (view ctx' c') ≡ true → (covered x v || covered x l) ≡ true
  pub exact : Ascending k l → (x : ℕ) → covered x (view ctx' c') ≡ (covered x v || covered x l)

pub feed-IsOpen :
    (hi : ℕ) (ctx : SegmentsCtx) (c : Segment) (l : List Segment)
    → IsOpen hi ctx c
    → hi < u32_max
    → AllBounded hi l
    → (ctx' : SegmentsCtx) × (c' : Segment) × (feed l ctx ≡ some ctx')
      × Fed hi (view ctx c) c.start l ctx' c'
unfolding feed
feed-IsOpen hi ctx c [] o small b =
    (ctx, c, refl, record { opened = o; sound = λ x e. rw e refl; exact = λ a x. ground arith })
feed-IsOpen hi ctx c (s ∷ l) o small b =
    let (ctx₁, c₁, e₁, u) = update-IsOpen hi ctx c s o small b.0 in
    let (ctx₂, c₂, e₂, f) = feed-IsOpen hi ctx₁ c₁ l u.opened small b.1 in
    (
      ctx₂,
      c₂,
      rw e₁ e₂,
      record {
        opened = f.opened;
        sound = λ x e. ground (arith, f.sound x e, u.grows.sound x);
        exact = λ a x.
            ground (arith, f.exact (Ascending-mono l (u.in_order a.0) a.1) x, u.grows.exact a.0 x);
      },
    )

-- What a whole run leaves, from a fresh context to `close_segments`.
pub record Recorded (hi : ℕ) (l : List Segment) (res : SegmentsCtx) : Type 0 where
  pub chain : Chain 0 hi res.segments
  pub counted : res.nof_segments ≡ length res.segments % 2 ^ 32
  pub sound : (x : ℕ) → covered x res.segments ≡ true → covered x l ≡ true
  pub exact : Ascending 0 l → (x : ℕ) → covered x res.segments ≡ covered x l

abbrev pub opened_by : Segment → SegmentsCtx
opened_by s = record { segments = []; cur_segment = detached s; nof_segments = 0; started = true }

opened_by-IsOpen : (hi : ℕ) (s : Segment) → Bounded hi s → IsOpen hi (opened_by s) s
opened_by-IsOpen hi s b = record {
  cur = refl;
  started = refl;
  chain = (omega arith, b.proper, b.top, tt);
  counted = refl;
}

pub feed_first :
    (s : Segment) (l : List Segment) → feed (s ∷ l) init_segments_ctx ≡ feed l (opened_by s)
unfolding feed update_segments_range
feed_first s l = refl

pub feed_close :
    (hi : ℕ) (l : List Segment)
    → hi < u32_max
    → AllBounded hi l
    → (res : SegmentsCtx) × ((feed l init_segments_ctx >>= close_segments) ≡ some res)
      × Recorded hi l res
unfolding feed close_segments
feed_close hi [] small b = (
  init_segments_ctx,
  refl,
  record { chain = tt; counted = refl; sound = λ x e. e; exact = λ a x. refl },
)
feed_close hi (s ∷ l) small b =
    let (ctx, c, e, f) = feed-IsOpen hi (opened_by s) s l (opened_by-IsOpen hi s b.0) small b.1 in
    let o = f.opened in
    (
      record ctx {
        segments = ctx.segments ++ c ∷ [];
        cur_segment = linked (length ctx.segments);
        nof_segments = add32 ctx.nof_segments 1;
      },
      rw (feed_first s l, e) (ground (arith, append-IsOpen hi ctx c o, o.cur)),
      record {
        chain = o.chain;
        counted = omega (arith, o.counted, length-append ctx.segments (c ∷ []));
        sound = λ x h. ground (arith, f.sound x h);
        exact = λ a x. ground (arith, f.exact a.1 x);
      },
    )
