-- ===== src/Tests/Hooks.antt =====
-- A session with one of three packets received, saved and read again. A world is the saved file.
use libdtp.Common.{
  ℕ, none, ◌++◌, ◌-◌, ◌%◌, ◌^◌, ◌||◌, length, ◌/◌, ◌≡◌, refl, List, [], ◌∷◌, true, false, some,
  arith, u32, little_endian,
}
use libdtp.Session.{HookCtx, Session, chunk_size}
use libdtp.Segments.{SegmentsCtx, null, linked, place, get_complement_segment}
use libdtp.Segments.Complement.{range}
use libdtp.Hooks.{with_ctx}
use libdtp.Hooks.Meta.{apm_on_serialize, apm_on_deserialize, meta_bytes}
use libdtp.Hooks.Stored.{IsStorable, stored_fields}
use libdtp.Hooks.RoundTrip.{Keeps, received_of, resumed, apm_on_deserialize-apm_on_serialize}
use libdtp.SessionMeta.{parse_fields, misread, parse_fields_misreads}
use libdtp.Hooks.{apm_on_start, apm_on_end}
use libdtp.Hooks.Recording.{seqs, data_packets}
use libdtp.Hooks.Ending.{covers_before}
use libdtp.Hooks.Download.{HasSegments, download-covers}
use libdtp.Segments.{init_segments_ctx}
use libdtp.Segments.Shape.{covered, Chain}
use libdtp.Segments.Receive.{elem}
use libdtp.Session.{Packet}
use libdtp.Hooks.{new_ctx}
use libdtp.Hooks.Dump.{no_segments, session_lines, apm_on_dump_info, apm_on_dump_info-apm_on_start}
use libdtp.Tests.Data.{stdio, session}

abbrev one_received : SegmentsCtx
one_received = record {
  segments = range 0 0 ∷ [];
  cur_segment = null;
  nof_segments = 1;
  started = true;
}

abbrev ctx : HookCtx
ctx = record {
  last_packet_ts = 0;
  segments = some one_received;
  received_segments = some one_received;
  output = 7;
}

abbrev saved : Session
saved = record (with_ctx session (some ctx)) { user_context = 5 }

abbrev two_missing : SegmentsCtx
two_missing = record {
  segments = range 1 2 ∷ [];
  cur_segment = linked 0;
  nof_segments = 1;
  started = false;
}

misses_two :
    get_complement_segment (received_of one_received) 0 (u32 (250 / chunk_size 108))
    ≡ some two_missing
unfolding get_complement_segment place
misses_two = refl

stdio-Keeps : Keeps stdio
stdio-Keeps name file w = refl

saved-IsStorable : IsStorable saved
saved-IsStorable = record {
  node16 = omega arith;
  mtu16 = omega arith;
  timeout8 = omega arith;
  throughput32 = omega arith;
  payload8 = omega arith;
  session32 = omega arith;
  received32 = omega arith;
  size32 = omega arith;
}

apm_on_deserialize-apm_on_serialize_example :
    (w₁ : List ℕ) × (w₂ : List ℕ) × (apm_on_serialize stdio little_endian saved [] ≡ some w₁)
    × (apm_on_deserialize stdio little_endian saved w₁
        ≡ some (resumed (stored_fields saved saved) one_received two_missing, w₂))
apm_on_deserialize-apm_on_serialize_example =
    apm_on_deserialize-apm_on_serialize stdio little_endian saved saved ctx one_received two_missing
      [] stdio-Keeps refl refl (omega arith) refl refl refl saved-IsStorable
      (omega arith, omega arith, tt) refl (omega arith) refl misses_two

-- The length of a name is its number here.
abbrev long_named : Session
long_named = record saved { user_context = 300 }

-- Packets 0, 0 and 2 of the same payload arrive, next to packet 1 of an interrupted session.
abbrev packet_at : ℕ → Packet
packet_at offset = record { packet_length = 108; data32_0 = offset }

abbrev arrived : List Packet
arrived = packet_at 0 ∷ packet_at 0 ∷ packet_at 200 ∷ []

abbrev second_received : SegmentsCtx
second_received = record {
  segments = range 1 1 ∷ [];
  cur_segment = null;
  nof_segments = 1;
  started = false;
}

abbrev continued : Session
continued =
    record (with_ctx session (
      some (record {
        last_packet_ts = 0;
        segments = some init_segments_ctx;
        received_segments = some second_received;
        output = 0;
      }))) { user_context = 5 }

download-covers_example :
    (s₀ : Session) × (s₁ : Session) × (s₂ : Session) × (w₀ : List ℕ) × (w₁ : List ℕ) × (w₂ : List ℕ)
    × (g : SegmentsCtx) × (apm_on_start stdio little_endian continued [] ≡ some (s₀, w₀))
    × (data_packets stdio little_endian arrived s₀ w₀ ≡ some (s₁, w₁))
    × (apm_on_end stdio little_endian s₁ w₁ ≡ some (s₂, w₂))
    × HasSegments s₂ g
    × Chain 0 (3 - 1) g.segments
    × (g.nof_segments ≡ length g.segments % 2 ^ 32)
    × ((x : ℕ)
        → covered x g.segments
          ≡ (elem x (seqs 108 arrived) || covers_before x (some second_received)))
download-covers_example =
    download-covers stdio little_endian 108 250 (some second_received) refl arrived continued [] 3
      (λ u. refl) refl refl refl refl refl refl refl (omega arith) (omega arith)
      (omega arith, (omega arith, (omega arith, tt)))
      (omega arith, (omega arith, (omega arith, tt))) (omega arith, omega arith, omega arith, tt)

-- The tool shows session 77, of which 0 bytes of 250 have come, as 77 bytes of 0.
parse_fields_misreads_example :
    (rest : List ℕ) × (parse_fields stdio.short little_endian session
        (meta_bytes little_endian saved (some one_received))
      ≡ (misread little_endian saved session, rest))
parse_fields_misreads_example =
    parse_fields_misreads stdio.short little_endian saved session (some one_received)
      saved-IsStorable

-- A download that has begun.
abbrev named : Session
named = record session { user_context = 5 }

abbrev begun : Session
begun = with_ctx named (some (record new_ctx { output = 7 }))

begun_by_hook : apm_on_start stdio little_endian named [] ≡ some (begun, [])
unfolding apm_on_start
begun_by_hook = refl

apm_on_dump_info-apm_on_start_example :
    (apm_on_dump_info begun 0 [] ≡ none)
    × (apm_on_dump_info named 0 [] ≡ some (([] ++ session_lines named) ++ (no_segments ∷ [])))
apm_on_dump_info-apm_on_start_example =
    apm_on_dump_info-apm_on_start stdio little_endian named begun [] [] [] refl begun_by_hook
