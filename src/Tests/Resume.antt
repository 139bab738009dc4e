-- ===== src/Tests/Resume.antt =====
-- A payload of 450 bytes of which packets 0 and 4 have been received, resumed.
use libdtp.Common.{
  ℕ, List, ◌-◌, ◌*◌, ◌<◌, ◌≡◌, refl, [], ◌∷◌, true, false, none, Option, ap, little_endian, some,
  arith, inl, length,
}
use libdtp.Session.{session_exhausted, HookCtx, Session, dtp_ok}
use libdtp.Segments.{SegmentsCtx, null, linked, place, get_complement_segment, merge_segments}
use libdtp.Segments.Shape.{covered}
use libdtp.Segments.Receive.{transfer}
use libdtp.Segments.Complement.{range}
use libdtp.Server.{TransferCtx, Transfer, start_sending_data}
use libdtp.Server.Poll.{Genuine}
use libdtp.Server.Ranges.{Holds}
use libdtp.Hooks.Meta.{requested}
use libdtp.Hooks.Request.{first, requested-first}
use libdtp.Resume.Numbers.{numbers}
use libdtp.Resume.Completion.{last_packet, resumed_transfer-completes}
use libdtp.Pool.{Outside}
use libdtp.Hooks.{with_ctx}
use libdtp.Hooks.Meta.{apm_on_serialize, apm_on_deserialize}
use libdtp.Client.Prepare.{Request, prepare, given_up}
use libdtp.Resume.Exhausted.{prepare-apm_on_serialize}
use libdtp.Tests.Data.{
  byte_at, stdio, wish, session, no_hooks, eight, io, steady, request, floats, floats-RejectsZero,
}

abbrev ctx : TransferCtx
ctx = record {
  srv_node = 1;
  dest_port = 2;
  size_in_bytes = 0;
  keep_running = true;
  request = record request { keep_alive_interval = 0; intervals = eight };
  payload_meta = record { base = 0; size = 450; read = 1; completed = 0; context = 0 };
  client_alive_ts = 0;
}

abbrev ends_received : SegmentsCtx
ends_received = record {
  segments = range 0 0 ∷ range 4 4 ∷ [];
  cur_segment = null;
  nof_segments = 2;
  started = true;
}

abbrev middle : SegmentsCtx
middle = record {
  segments = range 1 3 ∷ [];
  cur_segment = linked 0;
  nof_segments = 1;
  started = false;
}

middle_missing : get_complement_segment ends_received 0 (last_packet 108 450) ≡ some middle
unfolding get_complement_segment place
middle_missing = refl

requested-first_example :
    let r = requested middle ctx.request in
    let vs = first 8 middle.segments in
    (length r.intervals ≡ 8)
    × Holds r.intervals 0 vs
    × (r.nof_intervals ≡ length vs)
    × (r ≡ record (ctx.request) { intervals = r.intervals; nof_intervals = r.nof_intervals })
requested-first_example = requested-first middle ctx.request refl refl (omega arith)

resumed_transfer-completes_example :
    (t : Transfer) × (w' : ℕ) × (fresh : SegmentsCtx) × (merged : SegmentsCtx) × (start_sending_data
        io floats 450
        (record ctx { request = requested middle ctx.request })
        0
      ≡ some (dtp_ok, t, w'))
    × (transfer (numbers 108 t.sent) ≡ some fresh)
    × (merge_segments fresh ends_received ≡ some merged)
    × ((x : ℕ) → x * (108 - 8) < 450 → covered x merged.segments ≡ true)
    × Genuine byte_at t.sent
resumed_transfer-completes_example =
    resumed_transfer-completes io floats ctx ends_received middle 450 0 steady (omega arith)
      (omega arith) (omega arith) refl refl floats-RejectsZero (omega arith) (omega arith) refl
      (omega arith, omega arith, omega arith, (omega arith, omega arith, omega arith, tt))
      (λ e. cc (e)) (inl refl) middle_missing (omega arith) (omega arith) (omega arith)

-- Packets 0 and 1 of three have been received.
abbrev two_received : SegmentsCtx
two_received = record {
  segments = range 0 1 ∷ [];
  cur_segment = null;
  nof_segments = 1;
  started = true;
}

abbrev received_ctx : HookCtx
received_ctx = record {
  last_packet_ts = 0;
  segments = some two_received;
  received_segments = none;
  output = 7;
}

abbrev saved : Session
saved = record (with_ctx session (some received_ctx)) { user_context = 99; bytes_received = 200 }

abbrev acquired_one : Session
acquired_one = record session { hooks = record no_hooks { on_deserialize = 11 } }

abbrev or_else : {A : Type 0} → A → Option A → A
or_else a none = a
or_else a (some b) = b

abbrev posix : Outside (List ℕ)
posix = record {
  on_start = λ h s w. (s, w);
  on_data_packet = λ h p s w. (true, s, w);
  on_end = λ h s w. (s, w);
  on_release = λ h s w. (s, w);
  on_serialize = λ h c s w. (s, w);
  on_deserialize = λ h c s w. or_else (s, w) (apm_on_deserialize stdio little_endian s w);
  csp_close = λ c w. w;
}

abbrev resume_wish : Request
resume_wish = record wish { resume = true }

prepare-apm_on_serialize_example :
    (w₁ : List ℕ) × (s' : Session) × (w₂ : List ℕ) × (apm_on_serialize stdio little_endian saved []
      ≡ some w₁)
    × (prepare posix resume_wish acquired_one w₁ ≡ (given_up s', w₂))
    × (s'.dtp_errno ≡ session_exhausted)
    × (s'.bytes_received ≡ 200)
prepare-apm_on_serialize_example =
    prepare-apm_on_serialize posix stdio little_endian resume_wish saved acquired_one received_ctx
      two_received [] (λ name file w. refl) (λ h c t t' u u' e. ap (or_else (t, u)) e) refl
      (omega arith) refl refl refl refl refl refl refl
      (record {
        node16 = omega arith;
        mtu16 = omega arith;
        timeout8 = omega arith;
        throughput32 = omega arith;
        payload8 = omega arith;
        session32 = omega arith;
        received32 = omega arith;
        size32 = omega arith;
      })
      (omega arith, omega arith, tt) refl (omega arith) refl (omega arith) (ground arith)
      (λ x h. ground arith) refl
