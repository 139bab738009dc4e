-- ===== src/Hooks/Request.antt =====
-- src/dtp_client_posix_session_hooks.c: the intervals that a resumed session asks for.
use Prim.Native.Nat.{min}
use mathlib.Core.Path.{subst}
use libdtp.Common.{
  ℕ, zero, suc, ◌+◌, ◌%◌, ◌^◌, ◌≤◌, ◌<◌, ◌≡◌, refl, sym, ap, ◌∙◌, List, [], ◌∷◌, true, false, arith,
  length, set, get_elem?, length-set, get_elem?-set_self, get_elem?-set_ne, lt→ltb, ge→ltb, ◌==◌,
  add32,
}
use libdtp.Session.{Interval, MetaReq}
use libdtp.Segments.{Segment, SegmentsCtx, visit, for_each_segment, get_nof_segments}
use libdtp.Server.Ranges.{Holds}
use libdtp.Hooks.Meta.{create_meta_data, requested}

abbrev pub interval_of : Segment → Interval
interval_of s = record { start = s.start; end = s.end }

-- The first `k` segments, as intervals.
abbrev pub first : ℕ → List Segment → List Interval
first zero l = []
first (suc k) [] = []
first (suc k) (s ∷ l) = interval_of s ∷ first k l

-- A request of which `idx` intervals are written, and then those of `vs`.
record IsWritten (idx : ℕ) (vs : List Interval) (m r : MetaReq) : Type 0 where
  room : length r.intervals ≡ 8
  holds : Holds r.intervals idx vs
  before : (j : ℕ) → j < idx → get_elem? r.intervals j ≡ get_elem? m.intervals j
  count : r.nof_intervals ≡ idx + length vs
  others : r ≡ record m { intervals = r.intervals; nof_intervals = r.nof_intervals }

abbrev written : ℕ → Segment → MetaReq → MetaReq
written idx s m = record m {
  intervals = set m.intervals idx (record { start = s.start; end = s.end });
  nof_intervals = idx + 1;
}

visit_full :
    (idx : ℕ) (s : Segment) (l : List Segment) (m : MetaReq)
    → 8 ≤ idx
    → visit create_meta_data idx (s ∷ l) m ≡ m
unfolding visit
visit_full idx s l m h = rw (ge→ltb idx 8 h) refl

visit_room :
    (idx : ℕ) (s : Segment) (l : List Segment) (m : MetaReq)
    → idx < 8
    → visit create_meta_data idx (s ∷ l) m ≡ visit create_meta_data (idx + 1) l (written idx s m)
unfolding visit
visit_room idx s l m h =
    let next : add32 idx 1 ≡ idx + 1 = omega arith in rw (lt→ltb idx 8 h, next) refl

no_more :
    (idx : ℕ) (m : MetaReq) → length m.intervals ≡ 8 → m.nof_intervals ≡ idx → IsWritten idx [] m m
no_more idx m n c = record {
  room = n;
  holds = tt;
  before = λ j p. refl;
  count = omega (arith, c);
  others = refl;
}

IsWritten-cons :
    (idx : ℕ) (s : Segment) (vs : List Interval) (m r : MetaReq)
    → idx < length m.intervals
    → IsWritten (idx + 1) vs (written idx s m) r
    → IsWritten idx (interval_of s ∷ vs) m r
IsWritten-cons idx s vs m r h w = record {
  room = w.room;
  holds =
      (w.before idx (omega arith) ∙ get_elem?-set_self m.intervals idx (interval_of s) h, w.holds);
  before = λ j p.
      w.before j (omega (arith, p))
      ∙ get_elem?-set_ne m.intervals (interval_of s) (λ q. omega (arith, q, p));
  count = omega (arith, w.count);
  others = w.others;
}

visit-IsWritten :
    (k idx : ℕ) (l : List Segment) (m : MetaReq)
    → idx + k ≡ 8
    → length m.intervals ≡ 8
    → m.nof_intervals ≡ idx
    → IsWritten idx (first k l) m (visit create_meta_data idx l m)
unfolding visit
visit-IsWritten zero idx [] m e n c = no_more idx m n c
visit-IsWritten zero idx (s ∷ l) m e n c =
    subst (IsWritten idx [] m) (sym (visit_full idx s l m (omega (arith, e)))) (no_more idx m n c)
visit-IsWritten (suc k) idx [] m e n c = no_more idx m n c
visit-IsWritten (suc k) idx (s ∷ l) m e n c =
    let room : idx < 8 = omega (arith, e) in
    let later =
      visit-IsWritten k (idx + 1) l (written idx s m) (omega (arith, e))
        (length-set m.intervals idx (interval_of s) ∙ n) refl in
    subst (IsWritten idx (interval_of s ∷ first k l) m) (sym (visit_room idx s l m room))
      (IsWritten-cons idx s (first k l) m _ (omega (arith, room, n)) later)

pub length-first : (k : ℕ) (l : List Segment) → length (first k l) ≡ min k (length l)
length-first zero l = ground arith
length-first (suc k) [] = ground arith
length-first (suc k) (s ∷ l) = let h = length-first k l in ground (arith, h)

abbrev cleared : MetaReq → MetaReq
cleared m = record m { nof_intervals = 0 }

-- The two branches do the same for a counted list.
requested-visit :
    (missing : SegmentsCtx) (m : MetaReq) (l : List Segment)
    → missing.segments ≡ l
    → missing.nof_segments ≡ length l
    → requested missing m ≡ visit create_meta_data 0 l (cleared m)
unfolding get_nof_segments for_each_segment visit
requested-visit missing m [] e n =
    let none_left : (missing.nof_segments == 0) ≡ true = ground (arith, n) in rw none_left refl
requested-visit missing m (s ∷ l) e n =
    let some_left : (missing.nof_segments == 0) ≡ false = ground (arith, n) in
    rw some_left (
      ap (λ k. visit create_meta_data 0 k m) e
      ∙ (visit_room 0 s l m (omega arith) ∙ sym (visit_room 0 s l (cleared m) (omega arith))))

-- A request with room for eight intervals, made for segments that are counted, asks for these, one
-- after the other, and for the first eight of them if there are more; its other fields stay.
pub requested-first :
    (missing : SegmentsCtx) (m : MetaReq)
    → length m.intervals ≡ 8
    → missing.nof_segments ≡ length missing.segments % 2 ^ 32
    → length missing.segments < 2 ^ 32
    → let r = requested missing m in
      let vs = first 8 missing.segments in
      (length r.intervals ≡ 8)
      × Holds r.intervals 0 vs
      × (r.nof_intervals ≡ length vs)
      × (r ≡ record m { intervals = r.intervals; nof_intervals = r.nof_intervals })
requested-first missing m n counted small =
    let l = missing.segments in
    let e = requested-visit missing m l refl (omega (arith, counted, small)) in
    let w : IsWritten 0 (first 8 l) (cleared m) (requested missing m) =
      subst (IsWritten 0 (first 8 l) (cleared m)) (sym e)
        (visit-IsWritten 8 0 l (cleared m) refl n refl) in
    (w.room, w.holds, omega (arith, w.count), w.others)
