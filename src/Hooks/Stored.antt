-- ===== src/Hooks/Stored.antt =====
-- The segments and the fields of a session in its file, written and read.
use mathlib.Core.List.{append_assoc, append-nil}
use libdtp.Common.{
  ℕ, suc, ◌+◌, ◌%◌, ◌^◌, ◌<◌, ◌≡◌, refl, sym, ap, ap₂, ◌∙◌, List, [], ◌∷◌, ◌++◌, arith, length,
  add32, Host,
}
use libdtp.Session.{Session}
use libdtp.Segments.{Segment, SegmentsCtx, visit, add_segment}
use libdtp.Hooks.Bytes.{
  bytes8, bytes16, bytes32, fread8, fread16, fread32, fread8-bytes8, fread16-bytes16,
  fread32-bytes32,
}
use libdtp.Hooks.Meta.{write_segment_to_file, read_segments, read_session}

-- The bytes of the segments, one behind the other.
pub list_bytes : Host → List Segment → List ℕ
list_bytes host [] = []
list_bytes host (s ∷ l) = bytes32 host s.start ++ (bytes32 host s.end ++ list_bytes host l)

pub visit-list_bytes :
    (host : Host) (idx : ℕ) (l : List Segment) (file : List ℕ)
    → visit (write_segment_to_file host) idx l file ≡ file ++ list_bytes host l
unfolding visit list_bytes
visit-list_bytes host idx [] file = sym (append-nil file)
visit-list_bytes host idx (s ∷ l) file =
    visit-list_bytes host (add32 idx 1) l (file ++ bytes32 host s.start ++ bytes32 host s.end)
    ∙ simp append_assoc

-- A session whose fields have the widths of the C types.
pub record IsStorable (s : Session) : Type 0 where
  pub node16 : s.node < 2 ^ 16
  pub mtu16 : s.request_meta.mtu < 2 ^ 16
  pub timeout8 : s.timeout < 2 ^ 8
  pub throughput32 : s.request_meta.throughput < 2 ^ 32
  pub payload8 : s.request_meta.payload_id < 2 ^ 8
  pub session32 : s.request_meta.session_id < 2 ^ 32
  pub received32 : s.bytes_received < 2 ^ 32
  pub size32 : s.payload_size < 2 ^ 32

-- Segments whose numbers have 32 bits.
abbrev pub AllWords : List Segment → Type 0
AllWords [] = Unit {0}
AllWords (s ∷ l) = (s.start < 2 ^ 32) × (s.end < 2 ^ 32) × AllWords l

-- A list of segments as it is read from a file.
abbrev pub restored : List Segment → ℕ → SegmentsCtx → SegmentsCtx
restored l n g = record g { segments = g.segments ++ l; nof_segments = n }

pub restored_eq :
    (g : SegmentsCtx) {l k : List Segment} {m n : ℕ}
    → l ≡ k
    → m ≡ n
    → record g { segments = l; nof_segments = m } ≡ record g { segments = k; nof_segments = n }
restored_eq g p q = ap₂ (λ a b. record g { segments = a; nof_segments = b }) p q

abbrev pub stored_fields : Session → Session → Session
stored_fields s old = record old {
  node = s.node;
  timeout = s.timeout;
  bytes_received = s.bytes_received;
  payload_size = s.payload_size;
  request_meta = record (old.request_meta) {
    mtu = s.request_meta.mtu;
    throughput = s.request_meta.throughput;
    payload_id = s.request_meta.payload_id;
    session_id = s.request_meta.session_id;
  };
}

module _ (short : ℕ → List ℕ → ℕ) (host : Host) where
  -- A number that was written in front of `mid`, with `rest` behind that.
  front32 :
      (old x : ℕ) (mid rest : List ℕ)
      → x < 2 ^ 32
      → fread32 short host old ((bytes32 host x ++ mid) ++ rest) ≡ (x, mid ++ rest)
  front32 old x mid rest h =
      ap (fread32 short host old) (append_assoc (bytes32 host x) mid rest)
      ∙ fread32-bytes32 short host old x (mid ++ rest) h

  read_segments_step :
      (n a b : ℕ) (f₀ : List ℕ) {f₁ f₂ : List ℕ} (g : SegmentsCtx)
      → fread32 short host 0 f₀ ≡ (a, f₁)
      → fread32 short host 0 f₁ ≡ (b, f₂)
      → read_segments short host (suc n) f₀ g ≡ read_segments short host n f₂ (add_segment g a b)
  unfolding read_segments
  read_segments_step n a b f₀ g p q = rw (p, q) refl

  pub read_segments-list_bytes :
      (l : List Segment) (rest : List ℕ) (g : SegmentsCtx)
      → AllWords l
      → g.nof_segments < 2 ^ 32
      → read_segments short host (length l) (list_bytes host l ++ rest) g
        ≡ restored l ((g.nof_segments + length l) % 2 ^ 32) g
  unfolding read_segments list_bytes add_segment
  read_segments-list_bytes [] rest g w n = restored_eq g (sym (append-nil g.segments)) (omega arith)
  read_segments-list_bytes (s ∷ l) rest g w n =
      let e = front32 0 s.start (bytes32 host s.end ++ list_bytes host l) rest w.0 in
      let f = front32 0 s.end (list_bytes host l) rest w.1 in
      let g' : SegmentsCtx = add_segment g s.start s.end in
      read_segments_step (length l) s.start s.end _ g e f
      ∙ (read_segments-list_bytes l rest g' w.2 (omega arith)
          ∙ restored_eq g (append_assoc g.segments (s ∷ []) l) (omega arith))

  -- The whole of the session's fields, with the rest of the file behind them.
  unfoldable pub session_bytes : Session → List ℕ → List ℕ
  session_bytes s rest =
      bytes16 host s.node
      ++ (bytes16 host s.request_meta.mtu
          ++ (bytes8 s.timeout
              ++ (bytes32 host s.request_meta.throughput
                  ++ (bytes8 s.request_meta.payload_id
                      ++ (bytes32 host s.request_meta.session_id
                          ++ (bytes32 host s.bytes_received
                              ++ (bytes32 host s.payload_size ++ rest)))))))

  read_session_lem :
      (s old : Session) (f₀ : List ℕ) {f₁ f₂ f₃ f₄ f₅ f₆ f₇ f₈ : List ℕ}
      → fread16 short host old.node f₀ ≡ (s.node, f₁)
      → fread16 short host old.request_meta.mtu f₁ ≡ (s.request_meta.mtu, f₂)
      → fread8 short old.timeout f₂ ≡ (s.timeout, f₃)
      → fread32 short host old.request_meta.throughput f₃ ≡ (s.request_meta.throughput, f₄)
      → fread8 short old.request_meta.payload_id f₄ ≡ (s.request_meta.payload_id, f₅)
      → fread32 short host old.request_meta.session_id f₅ ≡ (s.request_meta.session_id, f₆)
      → fread32 short host old.bytes_received f₆ ≡ (s.bytes_received, f₇)
      → fread32 short host old.payload_size f₇ ≡ (s.payload_size, f₈)
      → read_session short host old f₀ ≡ (stored_fields s old, f₈)
  unfolding read_session
  read_session_lem s old f₀ a b c d e f g h = rw (a, b, c, d, e, f, g, h) refl

  pub read_session-session_bytes :
      (s old : Session) (rest : List ℕ)
      → IsStorable s
      → read_session short host old (session_bytes s rest) ≡ (stored_fields s old, rest)
  unfolding session_bytes
  read_session-session_bytes s old rest h =
      read_session_lem s old _ (fread16-bytes16 short host _ s.node _ h.node16)
        (fread16-bytes16 short host _ s.request_meta.mtu _ h.mtu16)
        (fread8-bytes8 short _ s.timeout _ h.timeout8)
        (fread32-bytes32 short host _ s.request_meta.throughput _ h.throughput32)
        (fread8-bytes8 short _ s.request_meta.payload_id _ h.payload8)
        (fread32-bytes32 short host _ s.request_meta.session_id _ h.session32)
        (fread32-bytes32 short host _ s.bytes_received _ h.received32)
        (fread32-bytes32 short host _ s.payload_size _ h.size32)
