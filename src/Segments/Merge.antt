-- ===== src/Segments/Merge.antt =====
-- `merge_segments`: the list of a resumed transfer joined with that of the transfers before.
use libdtp.Common.{
  ℕ, ◌≤◌, ◌≡◌, refl, List, [], ◌∷◌, ◌||◌, some, arith, length, ◌%◌, ◌^◌, u32_max, ◌+◌, ◌-◌, ◌∙◌,
}
use libdtp.Segments.{Segment, SegmentsCtx, merge_order, merge_segments}
use libdtp.Segments.Shape.{covered, Chain}
use libdtp.Segments.Feed.{AllBounded, Ascending, feed_close}

Chain-AllBounded : (lo hi : ℕ) (l : List Segment) → Chain lo hi l → AllBounded hi l
Chain-AllBounded lo hi [] c = tt
Chain-AllBounded lo hi (s ∷ l) c =
    (record { proper = c.1; top = c.2 }, Chain-AllBounded (s.end + 2) hi l c.3)

Chain-Ascending : (k lo hi : ℕ) (l : List Segment) → k ≤ lo → Chain lo hi l → Ascending k l
Chain-Ascending k lo hi [] h c = tt
Chain-Ascending k lo hi (s ∷ l) h c =
    (omega arith, Chain-Ascending s.start (s.end + 2) hi l (omega arith) c.3)

merge_order-AllBounded :
    (hi : ℕ) (a b : List Segment)
    → AllBounded hi a
    → AllBounded hi b
    → AllBounded hi (merge_order a b)
unfolding merge_order
merge_order-AllBounded hi [] b p q = q
merge_order-AllBounded hi (x ∷ xs) [] p q = p
merge_order-AllBounded hi (x ∷ xs) (y ∷ ys) p q = ground (
  arith,
  merge_order-AllBounded hi xs (y ∷ ys) p.1 q,
  merge_order-AllBounded hi (x ∷ xs) ys p q.1,
)

merge_order-Ascending :
    (k : ℕ) (a b : List Segment) → Ascending k a → Ascending k b → Ascending k (merge_order a b)
unfolding merge_order
merge_order-Ascending k [] b p q = q
merge_order-Ascending k (x ∷ xs) [] p q = p
merge_order-Ascending k (x ∷ xs) (y ∷ ys) p q =
    ground
      (arith, merge_order-Ascending x.start xs (y ∷ ys), merge_order-Ascending y.start (x ∷ xs) ys)

covered-merge_order :
    (x : ℕ) (a b : List Segment) → covered x (merge_order a b) ≡ (covered x a || covered x b)
unfolding merge_order
covered-merge_order n [] b = refl
covered-merge_order n (x ∷ xs) [] = ground arith
covered-merge_order n (x ∷ xs) (y ∷ ys) =
    ground (arith, covered-merge_order n xs (y ∷ ys), covered-merge_order n (x ∷ xs) ys)

-- Two lists that are in order within packet numbers below 2 ^ 32 - 1 merge without a fault into a
-- list that is in order, whose length is counted, and that covers a number when, and only when,
-- one of the two covers it.
pub merge_segments-union :
    (a b : SegmentsCtx)
    → Chain 0 (u32_max - 1) a.segments
    → Chain 0 (u32_max - 1) b.segments
    → (res : SegmentsCtx) × (merge_segments a b ≡ some res)
      × Chain 0 (u32_max - 1) res.segments
      × (res.nof_segments ≡ length res.segments % 2 ^ 32)
      × ((x : ℕ) → covered x res.segments ≡ (covered x a.segments || covered x b.segments))
unfolding merge_segments
merge_segments-union a b p q =
    let hi : ℕ = u32_max - 1 in
    let (res, e, r) = feed_close hi (merge_order a.segments b.segments) (omega arith) (
      merge_order-AllBounded hi a.segments b.segments (Chain-AllBounded 0 hi _ p)
        (Chain-AllBounded 0 hi _ q)) in
    let sorted =
      merge_order-Ascending 0 a.segments b.segments (Chain-Ascending 0 0 hi _ (omega arith) p)
        (Chain-Ascending 0 0 hi _ (omega arith) q) in
    (
      res,
      e,
      r.chain,
      r.counted,
      λ x. r.exact sorted x ∙ covered-merge_order x a.segments b.segments,
    )
