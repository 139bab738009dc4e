-- ===== src/Hooks.antt =====
-- src/dtp_client_posix_session_hooks.c: the hooks that store a download in a file, and its session in a
-- second one. A file's name is the session's user context, 0 for NULL. `none` is undefined behaviour.
pub mod Bytes
pub mod LongNames
pub mod Meta
pub mod Stored
pub mod RoundTrip
pub mod Request
pub mod Recording
pub mod Ending
pub mod Download
pub mod Dump
use libdtp.Common.{
  ℕ, zero, suc, ◌+◌, ◌*◌, ◌/◌, ◌%◌, ◌^◌, List, [], ◌∷◌, ◌++◌, Bool, true, false, ◌||◌, Option, none,
  some, ltb, ◌==◌, if◌then◌else◌, add32, sub32, u32, set, ◌>>=◌, Host,
}
use libdtp.Session.{
  Errno, einval, Interval, MetaReq, HookCtx, SessionHooks, Session, Packet, chunk_size,
}
use libdtp.Segments.{
  Segment, SegmentsCtx, init_segments_ctx, update_segments, close_segments, merge_segments,
  get_complement_segment, get_nof_segments, for_each_segment, add_segment,
}
use Bytes.{bytes8, bytes16, bytes32, fread8, fread16, fread32}

-- The C library and the clock. A `FILE *` is a number, 0 for NULL; `load_meta` is what a file named by
-- its argument and `.meta` holds, if it can be opened, and `save_meta` writes one that `opens_meta`;
-- `strlen` is the length of a name.
pub record Stdio (W : Type 0) : Type 0 where
  pub fopen_wb : ℕ → W → ℕ × W
  pub fopen_rb_plus : ℕ → W → ℕ × W
  pub fwrite_at : ℕ → ℕ → Packet → W → W
  pub fclose : ℕ → W → W
  pub strlen : ℕ → ℕ
  pub opens_meta : ℕ → W → Bool
  pub save_meta : ℕ → List ℕ → W → W
  pub load_meta : ℕ → W → Option (List ℕ) × W
  pub short : ℕ → List ℕ → ℕ
  pub malloc : W → Bool
  pub csp_get_ms : W → ℕ × W

abbrev pub with_ctx : Session → Option HookCtx → Session
with_ctx s c = record s { hooks = record (s.hooks) { hook_ctx = c } }

abbrev pub new_ctx : HookCtx
new_ctx = record {
  last_packet_ts = 0;
  segments = some init_segments_ctx;
  received_segments = none;
  output = 0;
}

abbrev pub ctx_of : Option HookCtx → HookCtx
ctx_of none = new_ctx
ctx_of (some c) = c

-- The packets of a payload: `count` in `apm_on_end`.
abbrev pub packet_count : ℕ → ℕ → ℕ
packet_count size chunk =
    if size % chunk == 0 then u32 (size / chunk) else add32 (u32 (size / chunk)) 1

abbrev pub joined : SegmentsCtx → Option SegmentsCtx → Option SegmentsCtx
joined closed none = some closed
joined closed (some received) = merge_segments closed received

module _ {W : Type 0} (io : Stdio W) (host : Host) where
  unfoldable pub apm_on_start : Session → W → Option (Session × W)
  apm_on_start s w =
      let (output, w') =
        (if ltb 0 s.bytes_received
          then io.fopen_rb_plus s.user_context w
          else io.fopen_wb s.user_context w) in
      if s.user_context == 0
      then none
      else some (with_ctx s (some (record (ctx_of s.hooks.hook_ctx) { output = output })), w')

  -- What the hook of a packet leaves, once the packet is recorded with the result `r`. `now` is what the
  -- clock says.
  abbrev pub written_packet :
      Packet → Session → HookCtx → ℕ → W → Bool × SegmentsCtx → Option (Bool × Session × W)
  written_packet p s ctx now w r =
      let chunk = chunk_size s.request_meta.mtu in
      let seq = u32 (p.data32_0 / chunk) in
      let shown =
        (if ltb 150 (sub32 now ctx.last_packet_ts) || (s.bytes_received == s.payload_size)
          then now
          else ctx.last_packet_ts) in
      if (chunk == 0) || (ctx.output == 0)
      then none
      else some (
        r.0,
        with_ctx s (some (record ctx { last_packet_ts = shown; segments = some r.1 })),
        io.fwrite_at ctx.output (seq * chunk) p w,
      )

  unfoldable pub apm_on_data_packet : Packet → Session → W → Option (Bool × Session × W)
  apm_on_data_packet p s w = do
    ctx ← s.hooks.hook_ctx
    segments ← ctx.segments
    let now = io.csp_get_ms w
    r ←
        update_segments (io.malloc now.1) segments
          (u32 (p.data32_0 / chunk_size s.request_meta.mtu))
    written_packet p s ctx now.0 now.1 r

  -- What the hook of the end leaves, with the segments of both sessions merged.
  abbrev pub ended : Session → HookCtx → W → SegmentsCtx → Option (Session × W)
  ended s ctx w merged = do
    let chunk = chunk_size s.request_meta.mtu
    _ ← get_complement_segment merged 0 (sub32 (packet_count s.payload_size chunk) 1)
    if chunk == 0
        then none
        else some (
          with_ctx s (some (record ctx { segments = some merged })),
          if ctx.output == 0 then w else io.fclose ctx.output w,
        )

  unfoldable pub apm_on_end : Session → W → Option (Session × W)
  apm_on_end s w = do
    ctx ← s.hooks.hook_ctx
    segments ← ctx.segments
    closed ← close_segments segments
    merged ← joined closed ctx.received_segments
    ended s ctx w merged

  unfoldable pub apm_on_release : Session → W → Session × W
  apm_on_release s w = (with_ctx s none, w)
