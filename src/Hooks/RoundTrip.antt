-- ===== src/Hooks/RoundTrip.antt =====
-- The session's file: what `apm_on_serialize` writes, `apm_on_deserialize` reads.
use mathlib.Core.List.{append-nil}
use libdtp.Common.{
  ℕ, ◌/◌, ◌%◌, ◌^◌, ◌≤◌, ◌<◌, ◌≡◌, refl, sym, ap, ap₂, ◌∙◌, List, [], ◌++◌, true, false, Option,
  none, some, ltb, ge→ltb, arith, length, ◌==◌, if◌then◌else◌, u32, if-false, if-true, ◌>>=◌, Host,
}
use libdtp.Session.{HookCtx, Session, chunk_size}
use libdtp.Segments.{
  Segment, SegmentsCtx, init_segments_ctx, for_each_segment, get_nof_segments,
  get_complement_segment,
}
use libdtp.Hooks.Bytes.{bytes32, fread32, fread32-bytes32}
use libdtp.Hooks.{with_ctx, Stdio}
use libdtp.Hooks.Meta.{
  dtp_session_version, segment_bytes, meta_bytes, read_segments, read_session, resume_from,
  read_meta, requested, loaded, apm_on_serialize, apm_on_deserialize,
}
use libdtp.Hooks.Stored.{
  list_bytes, visit-list_bytes, IsStorable, AllWords, restored, restored_eq, stored_fields,
  read_segments-list_bytes, session_bytes, read_session-session_bytes,
}

-- The received segments of a file, as the next session has them.
abbrev pub received_of : SegmentsCtx → SegmentsCtx
received_of g = restored g.segments (length g.segments % 2 ^ 32) init_segments_ctx

abbrev pub resumed : Session → SegmentsCtx → SegmentsCtx → Session
resumed s g missing =
    with_ctx (record s { request_meta = requested missing s.request_meta })
      (some (record {
        last_packet_ts = 0;
        segments = some init_segments_ctx;
        received_segments = some (received_of g);
        output = 0;
      }))

module _ (short : ℕ → List ℕ → ℕ) (host : Host) where
  resume_from_lem :
      (s : Session) (g missing : SegmentsCtx) (n : ℕ) (file : List ℕ) {rest : List ℕ}
      → fread32 short host 0 file ≡ (n, rest)
      → read_segments short host n rest init_segments_ctx ≡ received_of g
      → (chunk_size s.request_meta.mtu == 0) ≡ false
      → get_complement_segment
          (received_of g)
          0
          (u32 (s.payload_size / chunk_size s.request_meta.mtu))
        ≡ some missing
      → resume_from short host s file ≡ some (resumed s g missing)
  unfolding resume_from
  resume_from_lem s g missing n file e f z c = rw (e, f) (if-false z _ _ ∙ rw c refl)

  resume_from-bytes :
      (s : Session) (g missing : SegmentsCtx)
      → AllWords g.segments
      → g.nof_segments ≡ length g.segments
      → length g.segments < 2 ^ 32
      → (chunk_size s.request_meta.mtu == 0) ≡ false
      → get_complement_segment
          (received_of g)
          0
          (u32 (s.payload_size / chunk_size s.request_meta.mtu))
        ≡ some missing
      → resume_from short host s (segment_bytes host (some g)) ≡ some (resumed s g missing)
  unfolding for_each_segment get_nof_segments
  resume_from-bytes s g missing w n small z c =
      let l : List Segment = g.segments in
      let b : segment_bytes host (some g) ≡ bytes32 host (length l) ++ (list_bytes host l ++ []) =
        visit-list_bytes host 0 l (bytes32 host g.nof_segments)
        ∙ ap₂ (λ k m. bytes32 host k ++ m) n (sym (append-nil (list_bytes host l))) in
      ap (resume_from short host s) b
      ∙ resume_from_lem s g missing (length l) _
          (fread32-bytes32 short host 0 (length l) (list_bytes host l ++ []) small)
          (read_segments-list_bytes short host l [] init_segments_ctx w (omega arith)
            ∙ restored_eq init_segments_ctx refl (omega arith))
          z c

  read_meta_lem :
      (s : Session) (file rest rest' : List ℕ) {s' s'' : Session}
      → fread32 short host 0 file ≡ (dtp_session_version, rest)
      → read_session short host s rest ≡ (s', rest')
      → resume_from short host s' rest' ≡ some s''
      → read_meta short host s file ≡ some s''
  unfolding read_meta
  read_meta_lem s file rest rest' e f r = rw (e, f) r

  pub read_meta-meta_bytes :
      (s old : Session) (g missing : SegmentsCtx)
      → IsStorable s
      → AllWords g.segments
      → g.nof_segments ≡ length g.segments
      → length g.segments < 2 ^ 32
      → (chunk_size s.request_meta.mtu == 0) ≡ false
      → get_complement_segment
          (received_of g)
          0
          (u32 (s.payload_size / chunk_size s.request_meta.mtu))
        ≡ some missing
      → read_meta short host old (meta_bytes host s (some g))
        ≡ some (resumed (stored_fields s old) g missing)
  unfolding meta_bytes session_bytes
  read_meta-meta_bytes s old g missing h w n small z c =
      let e =
        fread32-bytes32 short host 0 dtp_session_version
          (session_bytes short host s (segment_bytes host (some g))) (omega arith) in
      let f = read_session-session_bytes short host s old (segment_bytes host (some g)) h in
      read_meta_lem old _ _ _ e f (resume_from-bytes (stored_fields s old) g missing w n small z c)

-- What is saved under a name is loaded from there.
abbrev pub Keeps : {W : Type 0} → Stdio W → Type 0
Keeps {W} io =
    (name : ℕ) (file : List ℕ) (w : W)
    → (io.load_meta name (io.save_meta name file w)).0 ≡ some file

-- A session that is serialized and read again, by a host of the same byte order, has every stored field
-- back, whatever session it is read into, which keeps its other fields. The received segments are those
-- of the serialized session, and the request asks for the complement of these. The file must open, its
-- name have 250 characters at most, the session's fields and segments must have the widths of the C types, its segments must be counted, the
-- MTU must not be 8, and the complement must be computed without a fault.
pub apm_on_deserialize-apm_on_serialize :
    {W : Type 0} (io : Stdio W) (host : Host) (s old : Session) (ctx : HookCtx)
    (g missing : SegmentsCtx) (w : W)
    → Keeps io
    → io.opens_meta s.user_context w ≡ true
    → (s.user_context == 0) ≡ false
    → io.strlen s.user_context ≤ 250
    → old.user_context ≡ s.user_context
    → s.hooks.hook_ctx ≡ some ctx
    → ctx.segments ≡ some g
    → IsStorable s
    → AllWords g.segments
    → g.nof_segments ≡ length g.segments
    → length g.segments < 2 ^ 32
    → (chunk_size s.request_meta.mtu == 0) ≡ false
    → get_complement_segment
        (received_of g)
        0
        (u32 (s.payload_size / chunk_size s.request_meta.mtu))
      ≡ some missing
    → (w₁ : W) × (w₂ : W) × (apm_on_serialize io host s w ≡ some w₁)
      × (apm_on_deserialize io host old w₁ ≡ some (resumed (stored_fields s old) g missing, w₂))
unfolding apm_on_serialize apm_on_deserialize
apm_on_deserialize-apm_on_serialize io host s old ctx g missing w keeps opens named brief same c
      segs h a n small z m =
    let file : List ℕ = meta_bytes host s (some g) in
    let w₁ = io.save_meta s.user_context file w in
    let w₂ = (io.load_meta s.user_context w₁).1 in
    let save =
      λ (o : Option SegmentsCtx). some (io.save_meta s.user_context (meta_bytes host s o) w) in
    (
      w₁,
      w₂,
      if-false named _ _
          ∙ (if-false (ge→ltb 1018 (io.strlen s.user_context) (omega (arith, brief))) _ _
              ∙ (if-true opens _ _
                  ∙ (ap (λ o. o >>= λ (k : HookCtx). save k.segments) c ∙ ap save segs))),
      ap
            (λ u.
              if u == 0
              then some (old, w₁)
              else if ltb 250 (io.strlen u)
              then none
              else loaded io host old (io.load_meta u w₁))
            same
          ∙ (if-false named _ _
              ∙ if-false (ge→ltb 250 (io.strlen s.user_context) brief) _ _
              ∙ (ap (λ o. loaded io host old (o, w₂)) (keeps s.user_context file w)
                  ∙ ap (λ (o : Option Session). o >>= λ s'. some (s', w₂))
                      (read_meta-meta_bytes io.short host s old g missing h a n small z m))),
    )
