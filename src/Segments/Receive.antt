-- ===== src/Segments/Receive.antt =====
-- A transfer seen from the segments: `update_segments` for each packet that arrives, as
-- src/dtp_client_posix_session_hooks.c does, then `close_segments`.
use libdtp.Common.{
  ℕ, ◌≤◌, ◌<◌, ◌≡◌, refl, List, [], ◌∷◌, Bool, true, false, ◌||◌, inl, inr, Option-cases, Option,
  some, arith, ◌==◌, length, ◌%◌, ◌^◌, u32_max, ◌>>=◌, ◌+◌, ◌-◌, ◌∙◌, sym,
}
use libdtp.Segments.{
  Segment, SegmentsCtx, update_segments, update_segments_range, init_segments_ctx, feed,
  close_segments,
}
use libdtp.Segments.Shape.{covered, Chain}
use libdtp.Segments.Feed.{Recorded, AllBounded, Ascending, feed_close}

unfoldable pub receive : List ℕ → SegmentsCtx → Option SegmentsCtx
receive [] ctx = some ctx
receive (p ∷ ps) ctx = do done ← update_segments true ctx p; receive ps done.1

abbrev pub transfer : List ℕ → Option SegmentsCtx
transfer ps = receive ps init_segments_ctx >>= close_segments

abbrev points : List ℕ → List Segment
points [] = []
points (p ∷ ps) = record { start = p; end = p } ∷ points ps

receive-feed : (ps : List ℕ) (ctx : SegmentsCtx) → receive ps ctx ≡ feed (points ps) ctx
unfolding receive feed update_segments
receive-feed [] ctx = refl
receive-feed (p ∷ ps) ctx = elim (Option-cases (update_segments_range true ctx p p)) [
  | inl e ↦ rw e refl
  | inr (done, e) ↦ rw e (receive-feed ps done.1)
]

abbrev pub elem : ℕ → List ℕ → Bool
elem x [] = false
elem x (p ∷ ps) = (x == p) || elem x ps

abbrev pub AllBelow : ℕ → List ℕ → Type 0
AllBelow k [] = Unit {0}
AllBelow k (p ∷ ps) = (p < k) × AllBelow k ps

abbrev pub Increasing : ℕ → List ℕ → Type 0
Increasing k [] = Unit {0}
Increasing k (p ∷ ps) = (k ≤ p) × Increasing p ps

covered-points : (x : ℕ) (ps : List ℕ) → covered x (points ps) ≡ elem x ps
covered-points x [] = refl
covered-points x (p ∷ ps) = ground (arith, covered-points x ps)

points-AllBounded : (hi : ℕ) (ps : List ℕ) → AllBelow (hi + 1) ps → AllBounded hi (points ps)
points-AllBounded hi [] b = tt
points-AllBounded hi (p ∷ ps) b =
    (record { proper = omega arith; top = omega arith }, points-AllBounded hi ps b.1)

points-Ascending : (k : ℕ) (ps : List ℕ) → Increasing k ps → Ascending k (points ps)
points-Ascending k [] a = tt
points-Ascending k (p ∷ ps) a = (a.0, points-Ascending p ps a.1)

transfer-Recorded :
    (hi : ℕ) (ps : List ℕ)
    → hi < u32_max
    → AllBelow (hi + 1) ps
    → (res : SegmentsCtx) × (transfer ps ≡ some res) × Recorded hi (points ps) res
transfer-Recorded hi ps small b =
    let (res, e, r) = feed_close hi (points ps) small (points-AllBounded hi ps b) in
    (res, rw (receive-feed ps init_segments_ctx) e, r)

-- Packets that arrive in any order, each number below 2 ^ 32 - 1, never make the recording fault.
-- The closed list is in order with at least one number between neighbours, its length is counted,
-- and it covers no packet that has not arrived.
pub transfer_sound :
    (ps : List ℕ)
    → AllBelow u32_max ps
    → (res : SegmentsCtx) × (transfer ps ≡ some res)
      × Chain 0 (u32_max - 1) res.segments
      × (res.nof_segments ≡ length res.segments % 2 ^ 32)
      × ((x : ℕ) → covered x res.segments ≡ true → elem x ps ≡ true)
transfer_sound ps b =
    let (res, e, r) = transfer-Recorded (u32_max - 1) ps (omega arith) b in
    (res, e, r.chain, r.counted, λ x h. sym (covered-points x ps) ∙ r.sound x h)

-- Packets that arrive in increasing order (repetitions allowed), each number below 2 ^ 32 - 1, are
-- recorded exactly: the closed list covers a number when, and only when, that packet has arrived.
pub transfer_exact :
    (ps : List ℕ)
    → AllBelow u32_max ps
    → Increasing 0 ps
    → (res : SegmentsCtx) × (transfer ps ≡ some res)
      × ((x : ℕ) → covered x res.segments ≡ elem x ps)
transfer_exact ps b a =
    let (res, e, r) = transfer-Recorded (u32_max - 1) ps (omega arith) b in
    (res, e, λ x. r.exact (points-Ascending 0 ps a) x ∙ covered-points x ps)
