-- ===== src/Resume/Exhausted.antt =====
-- A download of which only the last packet is missing, stored and resumed.
use libdtp.Common.{
  ◌≤◌, ℕ, ◌/◌, ◌^◌, ◌<◌, ◌≡◌, refl, ap, true, false, some, arith, length, ◌==◌, u32, u32_max, Host,
}
use libdtp.Session.{dtp_ok, no_err, session_exhausted, HookCtx, Session, MetaReq, chunk_size}
use libdtp.Segments.{SegmentsCtx, get_nof_segments}
use libdtp.Segments.Shape.{covered, Chain}
use libdtp.Segments.Complement.Last.{get_complement_segment_last_only}
use libdtp.Hooks.{Stdio}
use libdtp.Hooks.Meta.{requested, apm_on_serialize, apm_on_deserialize}
use libdtp.Hooks.Stored.{IsStorable, AllWords, stored_fields}
use libdtp.Hooks.RoundTrip.{Keeps, received_of, resumed, apm_on_deserialize-apm_on_serialize}
use libdtp.Pool.{Outside, dtp_deserialize_session}
use libdtp.Client.Prepare.{Request, given_up, prepare, prepare_resumed}

requested_none :
    (missing : SegmentsCtx) (m : MetaReq)
    → missing.nof_segments ≡ 0
    → (requested missing m).nof_intervals ≡ 0
unfolding get_nof_segments
requested_none missing m h = rw h refl

-- With no interval left to ask for, the session is given up.
prepare_resumed_exhausted :
    (q : Request) (s : Session)
    → s.dtp_errno ≡ no_err
    → s.request_meta.nof_intervals ≡ 0
    → prepare_resumed q dtp_ok s ≡ given_up (record s { dtp_errno = session_exhausted })
unfolding prepare_resumed
prepare_resumed_exhausted q s e n = rw (e, n) (ground arith)

-- A session whose received segments are all the packets but the one numbered `payload_size` divided by
-- the bytes per packet, which is the last of a payload that is no multiple of these, is serialized, and a
-- resumed download is prepared from its file, into a session without an error whose `on_deserialize`
-- is `apm_on_deserialize`. The preparation gives up with DTP_SESSION_EXHAUSTED, with the bytes
-- received that were stored, so that packet is never asked for. The file must open, its name have
-- 250 characters at most, the session's fields and segments must have the widths of the C types, its segments must be counted and in order
-- up to that packet, whose number is below 2 ^ 32 - 1, and the MTU must not be 8.
pub prepare-apm_on_serialize :
    {W : Type 0} (out : Outside W) (io : Stdio W) (host : Host) (q : Request) (s old : Session)
    (ctx : HookCtx) (g : SegmentsCtx) (w : W)
    → Keeps io
    → ((h c : ℕ) (t t' : Session) (u u' : W)
        → apm_on_deserialize io host t u ≡ some (t', u')
        → out.on_deserialize h c t u ≡ (t', u'))
    → io.opens_meta s.user_context w ≡ true
    → io.strlen s.user_context ≤ 250
    → (s.user_context == 0) ≡ false
    → (old.hooks.on_deserialize == 0) ≡ false
    → q.resume ≡ true
    → q.ctx ≡ s.user_context
    → old.dtp_errno ≡ no_err
    → s.hooks.hook_ctx ≡ some ctx
    → ctx.segments ≡ some g
    → IsStorable s
    → AllWords g.segments
    → g.nof_segments ≡ length g.segments
    → length g.segments < 2 ^ 32
    → (chunk_size s.request_meta.mtu == 0) ≡ false
    → u32 (s.payload_size / chunk_size s.request_meta.mtu) < u32_max
    → Chain 0 (u32 (s.payload_size / chunk_size s.request_meta.mtu)) g.segments
    → ((x : ℕ)
        → x < u32 (s.payload_size / chunk_size s.request_meta.mtu)
        → covered x g.segments ≡ true)
    → covered (u32 (s.payload_size / chunk_size s.request_meta.mtu)) g.segments ≡ false
    → (w₁ : W) × (s' : Session) × (w₂ : W) × (apm_on_serialize io host s w ≡ some w₁)
      × (prepare out q old w₁ ≡ (given_up s', w₂))
      × (s'.dtp_errno ≡ session_exhausted)
      × (s'.bytes_received ≡ s.bytes_received)
unfolding prepare dtp_deserialize_session
prepare-apm_on_serialize out io host q s old ctx g w keeps hook opens brief named set resume same
      fresh has segs storable words counted short chunk small chain all last =
    let end : ℕ = u32 (s.payload_size / chunk_size s.request_meta.mtu) in
    let (missing, e, empty, none_left) =
      get_complement_segment_last_only (received_of g) end small chain all last in
    let old' : Session = record old { user_context = q.ctx } in
    let (w₁, w₂, saves, loads) =
      apm_on_deserialize-apm_on_serialize io host s old' ctx g missing w keeps opens named brief
        same has segs storable words counted short chunk e in
    let back : Session = resumed (stored_fields s old') g missing in
    let read : out.on_deserialize old.hooks.on_deserialize q.ctx old' w₁ ≡ (back, w₂) =
      hook old.hooks.on_deserialize q.ctx old' back w₁ w₂ loads in
    (
      w₁,
      record back { dtp_errno = session_exhausted },
      w₂,
      saves,
      rw (set, read, resume)
          (ap (λ o. (o, w₂))
            (prepare_resumed_exhausted q back fresh
              (requested_none missing (stored_fields s old').request_meta none_left))),
      refl,
      refl,
    )
