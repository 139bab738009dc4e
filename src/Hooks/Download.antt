-- ===== src/Hooks/Download.antt =====
-- src/dtp_client_posix_session_hooks.c: a download, from the hook of its first packet to that of its end.
use libdtp.Common.{
  ℕ, ◌-◌, ◌%◌, ◌^◌, ◌≤◌, ◌<◌, ◌≡◌, refl, ap, ap₂, ◌∙◌, List, true, false, ◌||◌, Option, none, some,
  arith, ◌==◌, ltb, if◌then◌else◌, if-false, u32_max, sub32, ◌>>=◌, Host, length,
}
use libdtp.Session.{HookCtx, Session, Packet, chunk_size}
use libdtp.Segments.{SegmentsCtx, init_segments_ctx, get_complement_segment}
use libdtp.Segments.Shape.{covered, Chain}
use libdtp.Segments.Receive.{elem, AllBelow, Increasing}
use libdtp.Hooks.{Stdio, with_ctx, packet_count, joined, ctx_of, ended, apm_on_start, apm_on_end}
use libdtp.Hooks.Recording.{seqs, data_packets, IsRecording, packets-IsRecording, end_step}
use libdtp.Hooks.Ending.{covers_before, InRange, complement_ends, recorded}

-- A session whose hook context has these segments.
pub record HasSegments (s : Session) (g : SegmentsCtx) : Type 0 where
  pub ctx : HookCtx
  pub has : s.hooks.hook_ctx ≡ some ctx
  pub segments : ctx.segments ≡ some g

module _ {W : Type 0} (io : Stdio W) (host : Host) (mtu size : ℕ) (received : Option SegmentsCtx)
    (divides : (chunk_size mtu == 0) ≡ false) where
  -- The end of a download whose complement is computed.
  end_reached :
      (s : Session) (w : W) (ctx : HookCtx) (merged : SegmentsCtx) (n : ℕ)
      → s.request_meta.mtu ≡ mtu
      → s.payload_size ≡ size
      → packet_count size (chunk_size mtu) ≡ n
      → 0 < n
      → n ≤ u32_max
      → Chain 0 (n - 1) merged.segments
      → (s' : Session) × (w' : W) × (ended io host s ctx w merged ≡ some (s', w'))
        × HasSegments s' merged
  end_reached s w ctx merged n m z count low high c =
      let (missing, e) = complement_ends merged (n - 1) (omega (arith, high)) c in
      let chunk : ℕ = chunk_size s.request_meta.mtu in
      let k : sub32 (packet_count s.payload_size chunk) 1 ≡ n - 1 =
        ap₂ (λ a b. sub32 (packet_count a (chunk_size b)) 1) z m
        ∙ (ap (λ c. sub32 c 1) count ∙ omega (arith, low, high)) in
      let e' = ap (get_complement_segment merged 0) k ∙ e in
      let s' : Session = with_ctx s (some (record ctx { segments = some merged })) in
      let w' : W = if ctx.output == 0 then w else io.fclose ctx.output w in
      (
        s',
        w',
        ap (λ (o : Option SegmentsCtx). o >>= λ _. (if chunk == 0 then none else some (s', w'))) e'
            ∙ if-false (ap (λ b. chunk_size b == 0) m ∙ divides) _ _,
        record { ctx = record ctx { segments = some merged }; has = refl; segments = refl },
      )

  -- The file that `apm_on_start` opens.
  abbrev pub start_file : Session → W → ℕ × W
  start_file s w =
      if ltb 0 s.bytes_received
      then io.fopen_rb_plus s.user_context w
      else io.fopen_wb s.user_context w

  started :
      (s : Session) (w : W)
      → (s.user_context == 0) ≡ false
      → ((start_file s w).0 == 0) ≡ false
      → (ctx_of s.hooks.hook_ctx).segments ≡ some init_segments_ctx
      → (ctx_of s.hooks.hook_ctx).received_segments ≡ received
      → s.request_meta.mtu ≡ mtu
      → s.payload_size ≡ size
      → (s' : Session) × (w' : W) × (apm_on_start io host s w ≡ some (s', w'))
        × IsRecording io host mtu size received init_segments_ctx s'
  unfolding apm_on_start
  started s w named opens g r m z =
      let ctx : HookCtx = record (ctx_of s.hooks.hook_ctx) { output = (start_file s w).0 } in
      (
        with_ctx s (some ctx),
        (start_file s w).1,
        if-false named _ _,
        record {
          ctx = ctx;
          has = refl;
          segments = g;
          before = r;
          opened = opens;
          mtu_is = m;
          size_is = z;
        },
      )

  -- A download: its session begins, with no hook context, or with one that apm_on_deserialize has made,
  -- which has an empty list and the segments `received` of an interrupted session within the payload; the
  -- file opens. Its packets arrive in increasing order, repetitions allowed, each numbered below the count
  -- `n` of the payload's packets, and it ends. Every malloc succeeds, the MTU is not 8, and `n` is from 1
  -- to 2 ^ 32 - 1. Then the hooks of the start, of the packets and of the end run without a fault, and the
  -- list that they leave is in order within the payload and counted, and covers a packet when, and only
  -- when, it has arrived or was received before.
  pub download-covers :
      (ps : List Packet) (s : Session) (w : W) (n : ℕ)
      → ((u : W) → io.malloc u ≡ true)
      → (s.user_context == 0) ≡ false
      → ((start_file s w).0 == 0) ≡ false
      → (ctx_of s.hooks.hook_ctx).segments ≡ some init_segments_ctx
      → (ctx_of s.hooks.hook_ctx).received_segments ≡ received
      → s.request_meta.mtu ≡ mtu
      → s.payload_size ≡ size
      → packet_count size (chunk_size mtu) ≡ n
      → 0 < n
      → n ≤ u32_max
      → AllBelow n (seqs mtu ps)
      → Increasing 0 (seqs mtu ps)
      → InRange (n - 1) received
      → (s₀ : Session) × (s₁ : Session) × (s₂ : Session) × (w₀ : W) × (w₁ : W) × (w₂ : W)
        × (g : SegmentsCtx) × (apm_on_start io host s w ≡ some (s₀, w₀))
        × (data_packets io host ps s₀ w₀ ≡ some (s₁, w₁))
        × (apm_on_end io host s₁ w₁ ≡ some (s₂, w₂))
        × HasSegments s₂ g
        × Chain 0 (n - 1) g.segments
        × (g.nof_segments ≡ length g.segments % 2 ^ 32)
        × ((x : ℕ) → covered x g.segments ≡ (elem x (seqs mtu ps) || covers_before x received))
  download-covers ps s w n allocates named opens fresh old m z count low high below up before =
      let (s₀, w₀, b, r) = started s w named opens fresh old m z in
      let (g, closed, merged, c) = recorded n (seqs mtu ps) received low high below up before in
      let (s₁, w₁, e, r₁) =
        packets-IsRecording io host mtu size received divides allocates ps init_segments_ctx g s₀ w₀
          r c.received_all in
      let j = ap (joined closed) r₁.before ∙ c.joins in
      let (s₂, w₂, f, h) =
        end_reached s₁ w₁ r₁.ctx merged n r₁.mtu_is r₁.size_is count low high c.chain in
      let f' = end_step io host s₁ w₁ r₁.ctx g closed merged r₁.has r₁.segments c.closes j ∙ f in
      (s₀, s₁, s₂, w₀, w₁, w₂, merged, b, e, f', h, c.chain, c.counted, c.covers)
