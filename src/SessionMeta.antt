-- ===== src/SessionMeta.antt =====
-- utils/session-meta.c: the tool that shows the file of a session.
use libdtp.Common.{
  ℕ, zero, suc, ◌+◌, ◌/◌, ◌%◌, ◌^◌, ◌≡◌, refl, ap, List, ◌++◌, Option, some, arith, get_elem?, set,
  ◌>>=◌, Host, little_endian, big_endian,
}
use libdtp.Session.{Interval, Session}
use libdtp.Segments.{SegmentsCtx, init_segments_ctx, add_segment}
use libdtp.Hooks.Bytes.{
  bytes32, fread8, fread16, fread32, fread8-bytes8, fread16-bytes16, fread32-bytes32,
}
use libdtp.Hooks.Meta.{dtp_session_version, segment_bytes, meta_bytes}
use libdtp.Hooks.Stored.{IsStorable}

module _ (short : ℕ → List ℕ → ℕ) (host : Host) where
  -- The fields that `parse_meta_data` reads, with the count of intervals, and the rest of the file.
  unfoldable pub parse_fields : Session → List ℕ → Session × List ℕ
  parse_fields s file =
      let (version, f₁) = fread32 short host 0 file in
      let (node, f₂) = fread16 short host s.node f₁ in
      let (mtu, f₃) = fread16 short host s.request_meta.mtu f₂ in
      let (timeout, f₄) = fread8 short s.timeout f₃ in
      let (throughput, f₅) = fread32 short host s.request_meta.throughput f₄ in
      let (payload_id, f₆) = fread8 short s.request_meta.payload_id f₅ in
      let (bytes_received, f₇) = fread32 short host s.bytes_received f₆ in
      let (payload_size, f₈) = fread32 short host s.payload_size f₇ in
      let (count, f₉) = fread8 short s.request_meta.nof_intervals f₈ in
      (
        record s {
          node = node;
          timeout = timeout;
          bytes_received = bytes_received;
          payload_size = payload_size;
          request_meta = record (s.request_meta) {
            mtu = mtu;
            throughput = throughput;
            payload_id = payload_id;
            nof_intervals = count;
          };
        },
        f₉,
      )

  -- Its loop over the intervals, `n` of them left, from index `i` on. `none` is an access past their array.
  unfoldable pub parse_intervals :
      ℕ → ℕ → List Interval → SegmentsCtx → List ℕ → Option (List Interval × SegmentsCtx)
  parse_intervals zero i l g file = some (l, g)
  parse_intervals (suc n) i l g file = get_elem? l i >>= λ old.
      let (start, f₁) = fread32 short host old.start file in
      let (end, f₂) = fread32 short host old.end f₁ in
      parse_intervals n (i + 1) (set l i (record { start = start; end = end }))
        (add_segment g start end) f₂

  -- `parse_meta_data` up to the first list that it prints. The call of `get_complement_segment` behind it
  -- lacks two of its arguments.
  unfoldable pub parse_meta_data : Session → List ℕ → Option (Session × SegmentsCtx)
  unfolding parse_fields parse_intervals
  parse_meta_data s file =
      let (s', rest) = parse_fields s file in
      parse_intervals s'.request_meta.nof_intervals 0 s'.request_meta.intervals init_segments_ctx
        rest
      >>= λ r. some (record s' { request_meta = record (s'.request_meta) { intervals = r.0 } }, r.1)

-- The byte of a number that stands first in the file.
abbrev pub front_byte : Host → ℕ → ℕ
front_byte little_endian x = x % 2 ^ 8
front_byte big_endian x = x / 2 ^ 24 % 2 ^ 8

front_read :
    (short : ℕ → List ℕ → ℕ) (host : Host) (old x : ℕ) (rest : List ℕ)
    → (tail : List ℕ) × (fread8 short old (bytes32 host x ++ rest) ≡ (front_byte host x, tail))
unfolding fread8 bytes32
front_read short little_endian old x rest =
    let tail : List ℕ = (fread8 short old (bytes32 little_endian x ++ rest)).1 in
    (tail, ap (λ v. (v, tail)) (omega arith))
front_read short big_endian old x rest =
    let tail : List ℕ = (fread8 short old (bytes32 big_endian x ++ rest)).1 in
    (tail, ap (λ v. (v, tail)) (omega arith))

-- What the tool takes for the session's fields.
abbrev pub misread : Host → Session → Session → Session
misread host s old = record old {
  node = s.node;
  timeout = s.timeout;
  bytes_received = s.request_meta.session_id;
  payload_size = s.bytes_received;
  request_meta = record (old.request_meta) {
    mtu = s.request_meta.mtu;
    throughput = s.request_meta.throughput;
    payload_id = s.request_meta.payload_id;
    nof_intervals = front_byte host s.payload_size;
  };
}

module _ (short : ℕ → List ℕ → ℕ) (host : Host) where
  parse_fields_lem :
      (s old : Session) (f₀ : List ℕ) {f₁ f₂ f₃ f₄ f₅ f₆ f₇ f₈ f₉ : List ℕ}
      → fread32 short host 0 f₀ ≡ (dtp_session_version, f₁)
      → fread16 short host old.node f₁ ≡ (s.node, f₂)
      → fread16 short host old.request_meta.mtu f₂ ≡ (s.request_meta.mtu, f₃)
      → fread8 short old.timeout f₃ ≡ (s.timeout, f₄)
      → fread32 short host old.request_meta.throughput f₄ ≡ (s.request_meta.throughput, f₅)
      → fread8 short old.request_meta.payload_id f₅ ≡ (s.request_meta.payload_id, f₆)
      → fread32 short host old.bytes_received f₆ ≡ (s.request_meta.session_id, f₇)
      → fread32 short host old.payload_size f₇ ≡ (s.bytes_received, f₈)
      → fread8 short old.request_meta.nof_intervals f₈ ≡ (front_byte host s.payload_size, f₉)
      → parse_fields short host old f₀ ≡ (misread host s old, f₉)
  unfolding parse_fields
  parse_fields_lem s old f₀ a b c d e f g h i = rw (a, b, c, d, e, f, g, h, i) refl

  -- The tool reads a file that apm_on_serialize has written, of a session whose fields have the widths of
  -- the C types, as if it had no session identifier: it takes this for the bytes received, the bytes
  -- received for the payload's size, and a byte of that size for the count of the intervals.
  pub parse_fields_misreads :
      (s old : Session) (segments : Option SegmentsCtx)
      → IsStorable s
      → (rest : List ℕ) × (parse_fields short host old (meta_bytes host s segments)
          ≡ (misread host s old, rest))
  unfolding meta_bytes
  parse_fields_misreads s old segments h =
      let (tail, e) =
        front_read short host old.request_meta.nof_intervals s.payload_size
          (segment_bytes host segments) in
      (
        tail,
        parse_fields_lem s old _ (fread32-bytes32 short host _ dtp_session_version _ (omega arith))
            (fread16-bytes16 short host _ s.node _ h.node16)
            (fread16-bytes16 short host _ s.request_meta.mtu _ h.mtu16)
            (fread8-bytes8 short _ s.timeout _ h.timeout8)
            (fread32-bytes32 short host _ s.request_meta.throughput _ h.throughput32)
            (fread8-bytes8 short _ s.request_meta.payload_id _ h.payload8)
            (fread32-bytes32 short host _ s.request_meta.session_id _ h.session32)
            (fread32-bytes32 short host _ s.bytes_received _ h.received32) e,
      )
