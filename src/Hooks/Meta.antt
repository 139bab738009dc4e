-- ===== src/Hooks/Meta.antt =====
-- src/dtp_client_posix_session_hooks.c: the file of a session, and the hooks that write and read it.
use libdtp.Common.{
  ℕ, zero, suc, ◌+◌, ◌/◌, List, [], ◌++◌, Bool, true, false, Option, none, some, ltb, ◌==◌,
  if◌then◌else◌, u32, set, ◌>>=◌, Host,
}
use libdtp.Session.{einval, MetaReq, Session, chunk_size}
use libdtp.Segments.{
  SegmentsCtx, init_segments_ctx, get_complement_segment, get_nof_segments, for_each_segment,
  add_segment,
}
use libdtp.Hooks.Bytes.{bytes8, bytes16, bytes32, fread8, fread16, fread32}
use libdtp.Hooks.{Stdio, with_ctx}

-- `DTP_SESSION_VERSION`
abbrev pub dtp_session_version : ℕ
dtp_session_version = 2

-- The callback `write_segment_to_file`, on the bytes of the file.
abbrev pub write_segment_to_file : Host → ℕ → ℕ → ℕ → List ℕ → Bool × List ℕ
write_segment_to_file host idx start end file =
    (true, file ++ bytes32 host start ++ bytes32 host end)

abbrev pub segment_bytes : Host → Option SegmentsCtx → List ℕ
segment_bytes host none = []
segment_bytes host (some g) =
    for_each_segment g (write_segment_to_file host) (bytes32 host (get_nof_segments g))

-- What `apm_on_serialize` writes.
unfoldable pub meta_bytes : Host → Session → Option SegmentsCtx → List ℕ
meta_bytes host s segments =
    bytes32 host dtp_session_version
    ++ (bytes16 host s.node
        ++ (bytes16 host s.request_meta.mtu
            ++ (bytes8 s.timeout
                ++ (bytes32 host s.request_meta.throughput
                    ++ (bytes8 s.request_meta.payload_id
                        ++ (bytes32 host s.request_meta.session_id
                            ++ (bytes32 host s.bytes_received
                                ++ (bytes32 host s.payload_size
                                    ++ segment_bytes host segments))))))))

-- The callback `create_meta_data`.
abbrev pub create_meta_data : ℕ → ℕ → ℕ → MetaReq → Bool × MetaReq
create_meta_data idx start end m =
    if ltb idx 8
    then (
      true,
      record m {
        intervals = set m.intervals idx (record { start = start; end = end });
        nof_intervals = idx + 1;
      },
    )
    else (false, m)

abbrev pub requested : SegmentsCtx → MetaReq → MetaReq
requested missing m =
    if get_nof_segments missing == 0
    then record m { nof_intervals = 0 }
    else for_each_segment missing create_meta_data m

module _ (short : ℕ → List ℕ → ℕ) (host : Host) where
  -- The loop that reads `n` segments.
  unfoldable pub read_segments : ℕ → List ℕ → SegmentsCtx → SegmentsCtx
  read_segments zero file g = g
  read_segments (suc n) file g =
      let (start, file₁) = fread32 short host 0 file in
      let (end, file₂) = fread32 short host 0 file₁ in
      read_segments n file₂ (add_segment g start end)

  -- The fields of the session, and the rest of the file.
  unfoldable pub read_session : Session → List ℕ → Session × List ℕ
  read_session s file =
      let (node, f₁) = fread16 short host s.node file in
      let (mtu, f₂) = fread16 short host s.request_meta.mtu f₁ in
      let (timeout, f₃) = fread8 short s.timeout f₂ in
      let (throughput, f₄) = fread32 short host s.request_meta.throughput f₃ in
      let (payload_id, f₅) = fread8 short s.request_meta.payload_id f₄ in
      let (session_id, f₆) = fread32 short host s.request_meta.session_id f₅ in
      let (bytes_received, f₇) = fread32 short host s.bytes_received f₆ in
      let (payload_size, f₈) = fread32 short host s.payload_size f₇ in
      (
        record s {
          node = node;
          timeout = timeout;
          bytes_received = bytes_received;
          payload_size = payload_size;
          request_meta = record (s.request_meta) {
            mtu = mtu;
            throughput = throughput;
            payload_id = payload_id;
            session_id = session_id;
          };
        },
        f₈,
      )

  -- The part of `apm_on_deserialize` for a file of this version, from its segments on.
  unfoldable pub resume_from : Session → List ℕ → Option Session
  resume_from s file =
      let (n, rest) = fread32 short host 0 file in
      let received = read_segments n rest init_segments_ctx in
      let chunk = chunk_size s.request_meta.mtu in
      if chunk == 0
      then none
      else (get_complement_segment received 0 (u32 (s.payload_size / chunk)) >>= λ missing. some (
          with_ctx (record s { request_meta = requested missing s.request_meta })
            (some (record {
              last_packet_ts = 0;
              segments = some init_segments_ctx;
              received_segments = some received;
              output = 0;
            }))))

  unfoldable pub read_meta : Session → List ℕ → Option Session
  read_meta s file =
      let (version, rest) = fread32 short host 0 file in
      let (s', rest') = read_session s rest in
      if version == dtp_session_version then resume_from s' rest' else some s

module _ {W : Type 0} (io : Stdio W) (host : Host) where
  -- `none` is also a name that with `.meta` and the NUL behind it overflows its buffer, here of 1024 and
  -- in `apm_on_deserialize` of 256 bytes.
  unfoldable pub apm_on_serialize : Session → W → Option W
  unfolding meta_bytes
  apm_on_serialize s w =
      let write =
        (s.hooks.hook_ctx >>= λ ctx.
        some (io.save_meta s.user_context (meta_bytes host s ctx.segments) w)) in
      if s.user_context == 0
      then none
      else if ltb 1018 (io.strlen s.user_context)
      then none
      else if io.opens_meta s.user_context w
      then write
      else some w

  abbrev pub loaded : Session → Option (List ℕ) × W → Option (Session × W)
  loaded s (none, w) = some (record s { dtp_errno = einval }, w)
  loaded s (some file, w) = read_meta io.short host s file >>= λ s'. some (s', w)

  unfoldable pub apm_on_deserialize : Session → W → Option (Session × W)
  unfolding read_meta
  apm_on_deserialize s w =
      if s.user_context == 0
      then some (s, w)
      else if ltb 250 (io.strlen s.user_context)
      then none
      else loaded s (io.load_meta s.user_context w)
