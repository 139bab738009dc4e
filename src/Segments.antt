-- ===== src/Segments.antt =====
-- src/dtp_client_posix_segments_utils.c: the linked list of received segments.
-- A segment is a closed range of packet numbers. The list nodes are a `List Segment`; the pointer
-- `cur_segment` is null, a node outside the list, or an alias of the list's node at an index
-- (which it becomes when the node is appended).
-- `none` is undefined behaviour. A `Bool` argument `allocated` says whether a checked `malloc`
-- succeeds; the unchecked calls of `malloc` are taken to succeed.
pub mod Shape
pub mod Open
pub mod Feed
pub mod Receive
pub mod Merge
pub mod Complement
use libdtp.Common.{
  ℕ, zero, suc, ◌+◌, ◌-◌, ◌≤◌, ◌<◌, ◌≡◌, List, [], ◌∷◌, ◌++◌, Bool, true, false, not, ◌&&◌, ◌||◌,
  Option, none, some, ltb, leb, ◌==◌, if◌then◌else◌, length, get_elem?, set, add32, sub32, ◌>>=◌,
}

pub record Segment : Type 0 where
  pub start : ℕ
  pub end : ℕ

pub data SegmentPtr : Type 0 where
  null : SegmentPtr
  detached : Segment → SegmentPtr
  linked : ℕ → SegmentPtr

pub record SegmentsCtx : Type 0 where
  pub segments : List Segment
  pub cur_segment : SegmentPtr
  pub nof_segments : ℕ
  pub started : Bool

-- How the walk of `append_segment` ends: the segment was merged into a node and freed, or linked
-- in behind the last node.
pub data Placed : Type 0 where
  merged appended : Placed

abbrev pub begins_inside : Segment → Segment → Bool
begins_inside c r = leb r.start c.start && leb c.start r.end

abbrev pub reaches_back : Segment → Segment → Bool
reaches_back c r = leb c.start r.start && leb r.start c.end

-- The `while (runner)` loop of `append_segment`, for a `cur_segment` outside the list.
unfoldable pub place : Segment → List Segment → List Segment × Placed
place c [] = (c ∷ [], appended)
place c (r ∷ rest) =
    let later = place c rest in
    let next : List Segment × Placed = (r ∷ later.0, later.1) in
    if begins_inside c r
    then (if leb r.end c.end then (record r { end = c.end } ∷ rest, merged) else next)
    else if reaches_back c r
    then (record r { start = c.start } ∷ rest, merged)
    else next

abbrev pub after_place : SegmentsCtx → List Segment × Placed → SegmentsCtx
after_place ctx (l, merged) = record ctx { segments = l; cur_segment = null }
after_place ctx (l, appended) = record ctx {
  segments = l;
  cur_segment = linked (length ctx.segments);
  nof_segments = add32 ctx.nof_segments 1;
}

-- With a node that is in the list already, the walk frees a node that stays linked, or links it
-- to itself.
unfoldable pub append_cur : SegmentPtr → List Segment → SegmentsCtx → Option SegmentsCtx
append_cur (detached c) l ctx = some (after_place ctx (place c l))
append_cur (linked i) l ctx = none
append_cur null [] ctx = some (record ctx { nof_segments = add32 ctx.nof_segments 1 })
append_cur null (r ∷ rest) ctx = none

unfoldable pub append_segment : SegmentsCtx → Option SegmentsCtx
unfolding append_cur
append_segment ctx = append_cur ctx.cur_segment ctx.segments ctx

abbrev pub init_segments_ctx : SegmentsCtx
init_segments_ctx = record { segments = []; cur_segment = null; nof_segments = 0; started = false }

-- `*cur_segment`, and the write to its `end`.
abbrev pub deref : SegmentPtr → List Segment → Option Segment
deref null l = none
deref (detached s) l = some s
deref (linked i) l = get_elem? l i

abbrev pub set_end : Segment → ℕ → Segment
set_end s e = record s { end = e }

abbrev pub extend : SegmentPtr → Segment → ℕ → SegmentsCtx → SegmentsCtx
extend null s e ctx = ctx
extend (detached _) s e ctx = record ctx { cur_segment = detached (set_end s e) }
extend (linked i) s e ctx = record ctx { segments = set ctx.segments i (set_end s e) }

-- `cur_segment = malloc(..)` and the initialisation of the new node.
abbrev pub open_segment : Bool → ℕ → ℕ → SegmentsCtx → Bool × SegmentsCtx
open_segment true start end ctx =
    (true, record ctx { cur_segment = detached (record { start = start; end = end }) })
open_segment false start end ctx = (false, record ctx { cur_segment = null })

unfoldable pub update_started : Bool → ℕ → ℕ → SegmentsCtx → Option (Bool × SegmentsCtx)
update_started allocated start end ctx = do
  cur ← deref ctx.cur_segment ctx.segments
  if leb start (add32 cur.end 1)
      then some (true, if leb end cur.end then ctx else extend ctx.cur_segment cur end ctx)
      else (append_segment ctx >>= λ closed. some (open_segment allocated start end closed))

unfoldable pub update_segments_range : Bool → SegmentsCtx → ℕ → ℕ → Option (Bool × SegmentsCtx)
unfolding update_started
update_segments_range allocated ctx start end =
    if ctx.started
    then update_started allocated start end ctx
    else some (open_segment allocated start end (record ctx { nof_segments = 0; started = true }))

unfoldable pub update_segments : Bool → SegmentsCtx → ℕ → Option (Bool × SegmentsCtx)
unfolding update_segments_range
update_segments allocated ctx received = update_segments_range allocated ctx received received

abbrev pub close_with : SegmentPtr → SegmentsCtx → Option SegmentsCtx
close_with null ctx = some ctx
close_with (detached s) ctx = append_segment ctx
close_with (linked i) ctx = append_segment ctx

unfoldable pub close_segments : SegmentsCtx → Option SegmentsCtx
close_segments ctx = close_with ctx.cur_segment ctx

unfoldable pub get_nof_segments : SegmentsCtx → ℕ
get_nof_segments ctx = ctx.nof_segments

-- The walk with a callback that may stop it; `S` is what the callback's context points to.
unfoldable pub visit {ℓ} : {S : Type ℓ} → (ℕ → ℕ → ℕ → S → Bool × S) → ℕ → List Segment → S → S
visit cb idx [] s = s
visit cb idx (r ∷ rest) s =
    let (carry_on, s') = cb idx r.start r.end s in
    let later = visit cb (add32 idx 1) rest s' in if carry_on then later else s'

unfoldable pub for_each_segment {ℓ} :
    {S : Type ℓ} → SegmentsCtx → (ℕ → ℕ → ℕ → S → Bool × S) → S → S
unfolding visit
for_each_segment ctx cb s = visit cb 0 ctx.segments s

unfoldable pub add_segment : SegmentsCtx → ℕ → ℕ → SegmentsCtx
add_segment ctx start end = record ctx {
  segments = ctx.segments ++ (record { start = start; end = end } ∷ []);
  nof_segments = add32 ctx.nof_segments 1;
}

abbrev pub same_range : Segment → ℕ → ℕ → Bool
same_range s start end = (s.start == start) && (s.end == end)

-- The `while (runner->next)` loop of `remove_segment` over the nodes behind the first: it frees the
-- node that matches and then reads the freed node's `next`.
unfoldable pub remove_behind : List Segment → ℕ → ℕ → Option (List Segment)
remove_behind [] start end = some []
remove_behind (r ∷ rest) start end =
    let later = remove_behind rest start end in
    if same_range r start end then none else (later >>= λ l. some (r ∷ l))

abbrev pub remove_from : List Segment → ℕ → ℕ → SegmentsCtx → Option SegmentsCtx
remove_from [] start end ctx = some ctx
remove_from (r ∷ rest) start end ctx =
    if same_range r start end
    then some (record ctx { segments = rest; nof_segments = sub32 ctx.nof_segments 1 })
    else (remove_behind rest start end >>= λ l. some (record ctx { segments = r ∷ l }))

unfoldable pub remove_segment : SegmentsCtx → ℕ → ℕ → Option SegmentsCtx
unfolding remove_behind
remove_segment ctx start end = remove_from ctx.segments start end ctx

-- The order in which `merge_segments` takes the segments of its two lists.
unfoldable pub merge_order : List Segment → List Segment → List Segment
merge_order [] ys = ys
merge_order (x ∷ xs) [] = x ∷ xs
merge_order (x ∷ xs) (y ∷ ys) =
    let left = merge_order xs (y ∷ ys) in
    let right = merge_order (x ∷ xs) ys in if ltb x.start y.start then x ∷ left else y ∷ right

-- `update_segments_range` for each segment taken; its result is dropped.
unfoldable pub feed : List Segment → SegmentsCtx → Option SegmentsCtx
feed [] ctx = some ctx
feed (s ∷ rest) ctx = do done ← update_segments_range true ctx s.start s.end; feed rest done.1

unfoldable pub merge_segments : SegmentsCtx → SegmentsCtx → Option SegmentsCtx
unfolding merge_order feed close_segments
merge_segments a b = do
  res ← feed (merge_order a.segments b.segments) init_segments_ctx
  close_segments res

-- The locals of `get_complement_segment`.
pub record Gaps : Type 0 where
  pub complements : SegmentsCtx
  pub seg_start : ℕ
  pub seg_end : ℕ

-- A new segment, handed to `append_segment`.
unfoldable pub add_gap : SegmentsCtx → ℕ → ℕ → Option SegmentsCtx
unfolding append_segment
add_gap c start end =
    append_segment (record c { cur_segment = detached (record { start = start; end = end }) })

-- One round of its loop.
unfoldable pub complement_step : ℕ → ℕ → Segment → Gaps → Option Gaps
unfolding add_gap
complement_step start end r g =
    if (r.start == start) && ltb (add32 r.end 1) end
    then some (record g { seg_start = add32 r.end 1 })
    else if ltb 0 r.start && leb g.seg_start (r.start - 1)
    then (add_gap g.complements g.seg_start (r.start - 1) >>= λ c.
        some (record { complements = c; seg_end = r.start - 1; seg_start = add32 r.end 1 }))
    else some g

unfoldable pub complement_loop : ℕ → ℕ → List Segment → Gaps → Option Gaps
complement_loop start end [] g = some g
complement_loop start end (r ∷ rest) g = do
  g' ← complement_step start end r g
  complement_loop start end rest g'

unfoldable pub complement_tail : ℕ → Gaps → Option SegmentsCtx
unfolding add_gap
complement_tail end g =
    if ltb g.seg_start end && ltb g.seg_end g.seg_start
    then add_gap g.complements g.seg_start end
    else some g.complements

unfoldable pub get_complement_segment : SegmentsCtx → ℕ → ℕ → Option SegmentsCtx
unfolding complement_loop complement_step complement_tail
get_complement_segment ctx start end = do
  g ←
      complement_loop start end ctx.segments
        (record { complements = init_segments_ctx; seg_start = 0; seg_end = 0 })
  complement_tail end g
