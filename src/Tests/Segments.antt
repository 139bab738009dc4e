-- ===== src/Tests/Segments.antt =====
-- The segment list on small transfers.
use libdtp.Common.{
  ℕ, ◌≡◌, refl, List, [], ◌∷◌, true, not, ◌&&◌, ◌+◌, ◌||◌, some, none, arith, leb, length, inr,
  u32_max, ◌-◌, ◌%◌, ◌^◌,
}
use libdtp.Segments.{
  Segment, SegmentsCtx, null, merge_segments, remove_segment, get_complement_segment,
}
use libdtp.Segments.Shape.{covered, Chain, InOrder}
use libdtp.Segments.Receive.{transfer, elem, transfer_sound, transfer_exact}
use libdtp.Segments.Merge.{merge_segments-union}
use libdtp.Segments.Complement.{range}
use libdtp.Segments.Complement.Missing.{get_complement_segment-exact}

abbrev closed : List Segment → ℕ → SegmentsCtx
closed l n = record { segments = l; cur_segment = null; nof_segments = n; started = true }

-- Packets 0 to 2, a gap of two, and packet 5.
abbrev gap_of_two : SegmentsCtx
gap_of_two = closed (range 0 2 ∷ range 5 5 ∷ []) 2

abbrev later_part : SegmentsCtx
later_part = closed (range 2 4 ∷ range 8 9 ∷ []) 2

-- Freeing a node behind the first reads its `next` afterwards.
remove_behind_first : remove_segment gap_of_two 5 5 ≡ none
unfolding remove_segment
remove_behind_first = refl

remove_first : remove_segment gap_of_two 0 2 ≡ some (closed (range 5 5 ∷ []) 1)
unfolding remove_segment
remove_first = refl

abbrev some_packets : List ℕ
some_packets = 0 ∷ 1 ∷ 1 ∷ 3 ∷ 5 ∷ []

transfer_exact_example :
    (res : SegmentsCtx) × (transfer some_packets ≡ some res)
    × ((x : ℕ) → covered x res.segments ≡ elem x some_packets)
transfer_exact_example =
    transfer_exact some_packets
      (omega arith, (omega arith, (omega arith, (omega arith, (omega arith, tt)))))
      (omega arith, (omega arith, (omega arith, (omega arith, (omega arith, tt)))))

abbrev mixed_packets : List ℕ
mixed_packets = 4 ∷ 0 ∷ 9 ∷ 1 ∷ []

transfer_sound_example :
    (res : SegmentsCtx) × (transfer mixed_packets ≡ some res)
    × Chain 0 (u32_max - 1) res.segments
    × (res.nof_segments ≡ length res.segments % 2 ^ 32)
    × ((x : ℕ) → covered x res.segments ≡ true → elem x mixed_packets ≡ true)
transfer_sound_example =
    transfer_sound mixed_packets (omega arith, (omega arith, (omega arith, (omega arith, tt))))

merge_segments-union_example :
    (res : SegmentsCtx) × (merge_segments gap_of_two later_part ≡ some res)
    × Chain 0 (u32_max - 1) res.segments
    × (res.nof_segments ≡ length res.segments % 2 ^ 32)
    × ((x : ℕ)
        → covered x res.segments ≡ (covered x gap_of_two.segments || covered x later_part.segments))
merge_segments-union_example =
    merge_segments-union gap_of_two later_part
      (omega arith, omega arith, omega arith, (omega arith, omega arith, omega arith, tt))
      (omega arith, omega arith, omega arith, (omega arith, omega arith, omega arith, tt))

get_complement_segment-exact_example :
    (res : SegmentsCtx) × (get_complement_segment gap_of_two 0 7 ≡ some res)
    × (res.nof_segments ≡ length res.segments % 2 ^ 32)
    × InOrder 0 (7 + 1) res.segments
    × ((x : ℕ) → covered x res.segments ≡ (leb x 7 && not (covered x gap_of_two.segments)))
get_complement_segment-exact_example =
    get_complement_segment-exact gap_of_two 7 (omega arith)
      (omega arith, omega arith, omega arith, (omega arith, omega arith, omega arith, tt))
      (λ e. cc (e)) (inr refl)

-- Of seven packets the last is missing, and is not reported.
