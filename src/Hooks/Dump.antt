-- ===== src/Hooks/Dump.antt =====
-- `apm_on_dump_info` of src/dtp_client_posix_session_hooks.c, which prints a session.
use mathlib.Core.List.{append_assoc, append-nil}
use libdtp.Common.{
  ℕ, ◌+◌, ◌^◌, ◌<◌, ◌≡◌, sym, ap, ◌∙◌, List, [], ◌∷◌, ◌++◌, Bool, true, Option, none, some, arith,
  ◌==◌, if◌then◌else◌, if-false, if-true, Bool-cases, inl, inr, add32, sub32, u32_max, length, Host,
  some_inj,
}
use libdtp.Session.{HookCtx, Session}
use libdtp.Segments.{Segment, SegmentsCtx, get_nof_segments, for_each_segment, visit}
use libdtp.Hooks.{Stdio, apm_on_start, ctx_of}

-- The lines that are printed, with the numbers in them.
pub data Line : Type 0 where
  remote_node timeout_s throughput_kb mtu_bytes payload_id_is session_id_is : ℕ → Line
  received_bytes total_bytes missing_bytes received_intervals : ℕ → Line
  no_segments unknown_info : Line
  interval : ℕ → ℕ → ℕ → Line
  interval_to_end : ℕ → ℕ → Line

abbrev pub interval_line : ℕ → ℕ → ℕ → Line
interval_line idx start end =
    if end == u32_max then interval_to_end idx start else interval idx start end

abbrev pub segment_dumper : ℕ → ℕ → ℕ → List Line → Bool × List Line
segment_dumper idx start end printed = (true, printed ++ (interval_line idx start end ∷ []))

abbrev pub session_lines : Session → List Line
session_lines s =
    remote_node s.node
    ∷ timeout_s s.timeout
    ∷ throughput_kb s.request_meta.throughput
    ∷ mtu_bytes s.request_meta.mtu
    ∷ payload_id_is s.request_meta.payload_id
    ∷ session_id_is s.request_meta.session_id
    ∷ received_bytes s.bytes_received
    ∷ total_bytes s.payload_size
    ∷ missing_bytes (sub32 s.payload_size s.bytes_received)
    ∷ []

-- The segments; `none` is the NULL that `get_nof_segments` reads.
abbrev pub dump_segments : Option SegmentsCtx → List Line → Option (List Line)
dump_segments none printed = none
dump_segments (some g) printed =
    some (
      for_each_segment g segment_dumper (printed ++ (received_intervals (get_nof_segments g) ∷ [])))

abbrev pub dump_ctx : Option HookCtx → List Line → Option (List Line)
dump_ctx none printed = some (printed ++ (no_segments ∷ []))
dump_ctx (some c) printed = dump_segments c.received_segments printed

-- What has been printed, and then all that is.
unfoldable pub apm_on_dump_info : Session → ℕ → List Line → Option (List Line)
unfolding for_each_segment get_nof_segments
apm_on_dump_info s info printed =
    if info == 0
    then dump_ctx s.hooks.hook_ctx (printed ++ session_lines s)
    else some (printed ++ (unknown_info ∷ []))

-- The lines of a list of segments, the first of which has the index `idx`.
abbrev pub lines_of : ℕ → List Segment → List Line
lines_of idx [] = []
lines_of idx (r ∷ l) = interval_line idx r.start r.end ∷ lines_of (idx + 1) l

visit-lines_of :
    (idx : ℕ) (l : List Segment) (printed : List Line)
    → idx + length l < 2 ^ 32
    → visit segment_dumper idx l printed ≡ printed ++ lines_of idx l
unfolding visit
visit-lines_of idx [] printed h = sym (append-nil printed)
visit-lines_of idx (r ∷ l) printed h =
    let next : add32 idx 1 ≡ idx + 1 = omega (arith, h) in
    rw next (
      visit-lines_of (idx + 1) l (printed ++ (interval_line idx r.start r.end ∷ []))
        (omega (arith, h))
      ∙ append_assoc printed (interval_line idx r.start r.end ∷ []) (lines_of (idx + 1) l))

-- A session with received segments, fewer than 2 ^ 32 of them, is printed with its fields, their count, and a
-- line for each, numbered in order.
pub apm_on_dump_info-lines_of :
    (s : Session) (c : HookCtx) (g : SegmentsCtx) (printed : List Line)
    → s.hooks.hook_ctx ≡ some c
    → c.received_segments ≡ some g
    → length g.segments < 2 ^ 32
    → apm_on_dump_info s 0 printed
      ≡ some (
          (printed ++ session_lines s)
          ++ (received_intervals g.nof_segments ∷ lines_of 0 g.segments))
unfolding apm_on_dump_info for_each_segment get_nof_segments
apm_on_dump_info-lines_of s c g printed h e few =
    let start : List Line = printed ++ session_lines s in
    let count : List Line = received_intervals g.nof_segments ∷ [] in
    ap (λ o. dump_ctx o start) h
    ∙ (ap (λ o. dump_segments o start) e
        ∙ ap some (
            visit-lines_of 0 g.segments (start ++ count) (omega (arith, few))
            ∙ append_assoc start count (lines_of 0 g.segments)))

-- A session without a hook context is printed with a note that no segments have been received. Once
-- `apm_on_start` has begun its download, so that the session has a context, but no segments of an
-- interrupted session, printing it reads through NULL.
pub apm_on_dump_info-apm_on_start :
    {W : Type 0} (io : Stdio W) (host : Host) (s s' : Session) (w w' : W) (printed : List Line)
    → s.hooks.hook_ctx ≡ none
    → apm_on_start io host s w ≡ some (s', w')
    → (apm_on_dump_info s' 0 printed ≡ none)
      × (apm_on_dump_info s 0 printed ≡ some ((printed ++ session_lines s) ++ (no_segments ∷ [])))
unfolding apm_on_dump_info apm_on_start
apm_on_dump_info-apm_on_start io host s s' w w' printed fresh e =
    elim (Bool-cases (s.user_context == 0)) [
      | inl unnamed ↦ absurd (cc (sym (if-true unnamed _ _) ∙ e))
      | inr named ↦
          let lines : List Line = printed ++ session_lines s' in
          let has = ap (λ r. r.0.hooks.hook_ctx) (some_inj (sym (if-false named _ _) ∙ e)) in
          (
            ap (λ o. dump_ctx o lines) (sym has)
                ∙ ap (λ o. dump_segments (ctx_of o).received_segments lines) fresh,
            ap (λ o. dump_ctx o (printed ++ session_lines s)) fresh,
          )
    ]
