-- ===== src/Hooks/Recording.antt =====
-- src/dtp_client_posix_session_hooks.c: the hooks over all the packets of a download, up to its end.
use mathlib.Core.Path.{subst}
use libdtp.Common.{
  ℕ, ◌/◌, ◌≡◌, refl, sym, ap, ◌∙◌, List, [], ◌∷◌, Bool, true, false, ◌||◌, inl, inr, Option, some,
  some_inj, ◌==◌, if-false, u32, ◌>>=◌, Option-cases, Host,
}
use libdtp.Session.{HookCtx, Session, Packet, chunk_size}
use libdtp.Segments.{SegmentsCtx, update_segments, close_segments}
use libdtp.Segments.Receive.{receive}
use libdtp.Hooks.{Stdio, joined, written_packet, apm_on_data_packet, ended, apm_on_end}

-- The numbers that `apm_on_data_packet` computes for the packets.
abbrev pub seqs : ℕ → List Packet → List ℕ
seqs mtu [] = []
seqs mtu (p ∷ ps) = u32 (p.data32_0 / chunk_size mtu) ∷ seqs mtu ps

module _ {W : Type 0} (io : Stdio W) (host : Host) where
  -- The hook for each packet that arrives; its result is only logged.
  unfoldable pub data_packets : List Packet → Session → W → Option (Session × W)
  data_packets [] s w = some (s, w)
  data_packets (p ∷ ps) s w = apm_on_data_packet io host p s w >>= λ r. data_packets ps r.1 r.2

  -- A session whose open segments are `g`.
  pub record IsRecording (mtu size : ℕ) (received : Option SegmentsCtx) (g : SegmentsCtx)
      (s : Session) : Type 0 where
    pub ctx : HookCtx
    pub has : s.hooks.hook_ctx ≡ some ctx
    pub segments : ctx.segments ≡ some g
    pub before : ctx.received_segments ≡ received
    pub opened : (ctx.output == 0) ≡ false
    pub mtu_is : s.request_meta.mtu ≡ mtu
    pub size_is : s.payload_size ≡ size

  data_step :
      (p : Packet) (s : Session) (w : W) (ctx : HookCtx) (g : SegmentsCtx) (r : Bool × SegmentsCtx)
      → s.hooks.hook_ctx ≡ some ctx
      → ctx.segments ≡ some g
      → update_segments
          (io.malloc (io.csp_get_ms w).1)
          g
          (u32 (p.data32_0 / chunk_size s.request_meta.mtu))
        ≡ some r
      → apm_on_data_packet io host p s w
        ≡ written_packet io host p s ctx (io.csp_get_ms w).0 (io.csp_get_ms w).1 r
  unfolding apm_on_data_packet
  data_step p s w ctx g r a b c = rw (a, b, c) refl

  pub end_step :
      (s : Session) (w : W) (ctx : HookCtx) (g closed merged : SegmentsCtx)
      → s.hooks.hook_ctx ≡ some ctx
      → ctx.segments ≡ some g
      → close_segments g ≡ some closed
      → joined closed ctx.received_segments ≡ some merged
      → apm_on_end io host s w ≡ ended io host s ctx w merged
  unfolding apm_on_end
  end_step s w ctx g closed merged a b c d = rw (a, b, c) (ap (λ o. o >>= ended io host s ctx w) d)

  no_fault : {a b : Bool} → a ≡ false → b ≡ false → (a || b) ≡ false
  no_fault p q = rw (p, q) refl

  module _ (mtu size : ℕ) (received : Option SegmentsCtx) (divides : (chunk_size mtu == 0) ≡ false)
      (allocates : (w : W) → io.malloc w ≡ true) where
    pub divides_for :
        (s : Session) → s.request_meta.mtu ≡ mtu → (chunk_size s.request_meta.mtu == 0) ≡ false
    divides_for s e = ap (λ m. chunk_size m == 0) e ∙ divides

    packet-IsRecording :
        (p : Packet) (g g' : SegmentsCtx) (b : Bool) (s : Session) (w : W)
        → IsRecording mtu size received g s
        → update_segments true g (u32 (p.data32_0 / chunk_size mtu)) ≡ some (b, g')
        → (s' : Session) × (w' : W) × (apm_on_data_packet io host p s w ≡ some (b, s', w'))
          × IsRecording mtu size received g' s'
    packet-IsRecording p g g' b s w r e =
        let e' =
          ap (λ a. update_segments a g (u32 (p.data32_0 / chunk_size s.request_meta.mtu)))
            (allocates (io.csp_get_ms w).1)
          ∙ (ap (λ m. update_segments true g (u32 (p.data32_0 / chunk_size m))) r.mtu_is ∙ e) in
        (
          _,
          _,
          data_step p s w r.ctx g (b, g') r.has r.segments e'
              ∙ if-false (no_fault (divides_for s r.mtu_is) r.opened) _ _,
          record {
            ctx = _;
            has = refl;
            segments = refl;
            before = r.before;
            opened = r.opened;
            mtu_is = r.mtu_is;
            size_is = r.size_is;
          },
        )

    pub packets-IsRecording :
        (ps : List Packet) (g g' : SegmentsCtx) (s : Session) (w : W)
        → IsRecording mtu size received g s
        → receive (seqs mtu ps) g ≡ some g'
        → (s' : Session) × (w' : W) × (data_packets ps s w ≡ some (s', w'))
          × IsRecording mtu size received g' s'
    unfolding data_packets receive
    packets-IsRecording [] g g' s w r e =
        (s, w, refl, subst (λ k. IsRecording mtu size received k s) (some_inj e) r)
    packets-IsRecording (p ∷ ps) g g' s w r e =
        elim (Option-cases (update_segments true g (u32 (p.data32_0 / chunk_size mtu)))) [
          | inl fault ↦
              absurd (
                cc (e, ap (λ o. o >>= λ (d : Bool × SegmentsCtx). receive (seqs mtu ps) d.1) fault))
          | inr (d, q) ↦
              let (s₁, w₁, f, r₁) = packet-IsRecording p g d.1 d.0 s w r q in
              let e₁ =
                sym (ap (λ o. o >>= λ (d : Bool × SegmentsCtx). receive (seqs mtu ps) d.1) q) ∙ e in
              let (s₂, w₂, h, r₂) = packets-IsRecording ps d.1 g' s₁ w₁ r₁ e₁ in
              (
                s₂,
                w₂,
                ap (λ o. o >>= λ (t : Bool × Session × W). data_packets ps t.1 t.2) f ∙ h,
                r₂,
              )
        ]
