-- ===== src/Resume/Completion.antt =====
-- A resumed download, from the segments of the first one to those of both.
use native.Mathlib.Nat.{le-div_iff_mul-le, div-mul-le_self}
use mathlib.Core.Path.{subst}
use libdtp.Common.{
  ℕ, ◌+◌, ◌-◌, ◌*◌, ◌/◌, ◌%◌, ◌^◌, ◌≤◌, ◌<◌, ◌≡◌, ◌≢◌, refl, sym, ap, ◌∙◌, List, [], Bool, true,
  false, not, ◌&&◌, ◌||◌, ◌⊎◌, some, some_inj, arith, ltb, leb, u32, u32_max, length, le→leb,
  lt→ltb,
}
use libdtp.Session.{MetaReq, chunk_size, dtp_ok}
use libdtp.Protocol.{Floats}
use libdtp.Protocol.Metrics.{RejectsZero}
use libdtp.Segments.{SegmentsCtx, get_complement_segment, merge_segments}
use libdtp.Segments.Shape.{Chain-top, covered, Chain, InOrder}
use libdtp.Segments.Receive.{transfer, AllBelow, transfer_exact, transfer_sound}
use libdtp.Segments.Merge.{merge_segments-union}
use libdtp.Segments.Complement.Missing.{get_complement_segment-exact}
use libdtp.Server.{TransferCtx, DataPacket, Transfer, ServerIo, start_sending_data}
use libdtp.Server.Poll.{IsSteady, Genuine, payload_of}
use libdtp.Server.Ranges.{Delivers, AllWithin}
use libdtp.Server.Intervals.{start_sending_data-Delivers}
use libdtp.Hooks.Meta.{requested}
use libdtp.Hooks.Request.{first, requested-first, length-first}
use libdtp.Resume.Numbers.{numbers, le_times, next_first}
use libdtp.Resume.Missing.{Answers, Delivers-Answers, first-AllWithin}

-- The number of the last packet, as apm_on_deserialize computes it.
abbrev pub last_packet : ℕ → ℕ → ℕ
last_packet mtu size = u32 (size / chunk_size mtu)

got_or_not : (got : Bool) → ((not got && true) || got) ≡ true
got_or_not true = refl
got_or_not false = refl

-- A packet of the payload that has been received, or else is missing and has been sent.
either_covers :
    (x end size byte : ℕ) {fresh missing sent : Bool} (got : Bool)
    → x ≤ end
    → byte < size
    → fresh ≡ sent
    → sent ≡ (missing && ltb byte size)
    → missing ≡ (leb x end && not got)
    → (fresh || got) ≡ true
either_covers x end size byte got p q a b c =
    rw (a, b, c, le→leb x end p, lt→ltb byte size q) (got_or_not got)

-- What is known of the segments that are missing.
record IsMissing (mtu size : ℕ) (g missing : SegmentsCtx) : Type 0 where
  counted : missing.nof_segments ≡ length missing.segments % 2 ^ 32
  order : InOrder 0 (last_packet mtu size + 1) missing.segments
  exact :
      (x : ℕ)
      → covered x missing.segments ≡ (leb x (last_packet mtu size) && not (covered x g.segments))

module _ (mtu size : ℕ) (mtu_low : 8 < mtu) (mtu_high : mtu < 2 ^ 16)
    (small : size + mtu < 2 ^ 32) where
  last_is : last_packet mtu size ≡ size / (mtu - 8)
  last_is =
      let c : chunk_size mtu ≡ mtu - 8 = omega arith in
      let a = div-mul-le_self size (mtu - 8) in
      let b = le_times (size / (mtu - 8)) (mtu - 8) (omega arith) in
      ap (λ n. u32 (size / n)) c ∙ omega (arith, a, b, small)

  last_small : last_packet mtu size * (mtu - 8) ≤ size
  last_small = subst (λ n. n * (mtu - 8) ≤ size) (sym last_is) (div-mul-le_self size (mtu - 8))

  below_last : (x : ℕ) → x * (mtu - 8) < size → x ≤ last_packet mtu size
  below_last x h =
      subst (λ n. x ≤ n) (sym last_is) ((le-div_iff_mul-le (omega arith)).1 (omega (arith, h)))

  below_max : (x : ℕ) → x * (mtu - 8) < size → x < u32_max
  below_max x p = omega (arith, le_times x (mtu - 8) (omega arith), p, small)

  complement-IsMissing :
      (g missing : SegmentsCtx)
      → Chain 0 (last_packet mtu size) g.segments
      → g.segments ≢ []
      → (covered (last_packet mtu size) g.segments ≡ true)
        ⊎ (covered (last_packet mtu size - 1) g.segments ≡ false)
      → get_complement_segment g 0 (last_packet mtu size) ≡ some missing
      → IsMissing mtu size g missing
  complement-IsMissing g missing h ne c e =
      let b = le_times (last_packet mtu size) (mtu - 8) (omega arith) in
      let (res, e', n, o, x) =
        get_complement_segment-exact g (last_packet mtu size) (omega (arith, b, last_small, small))
          h ne c in
      subst (IsMissing mtu size g) (some_inj (sym e' ∙ e))
        (record { counted = n; order = o; exact = x })

  -- What the client then holds.
  merged_all :
      (g missing : SegmentsCtx) (sent : List DataPacket)
      → Chain 0 (last_packet mtu size) g.segments
      → IsMissing mtu size g missing
      → Answers (mtu - 8) size 0 missing.segments (numbers mtu sent)
      → (fresh : SegmentsCtx) × (merged : SegmentsCtx) × (transfer (numbers mtu sent) ≡ some fresh)
        × (merge_segments fresh g ≡ some merged)
        × ((x : ℕ) → x * (mtu - 8) < size → covered x merged.segments ≡ true)
  merged_all g missing sent h m a =
      let ps = numbers mtu sent in
      let below : AllBelow u32_max ps = a.below u32_max below_max in
      let (fresh, e, cover) = transfer_exact ps below a.increasing in
      let (fresh', e', chain, n, sound) = transfer_sound ps below in
      let ordered : Chain 0 (u32_max - 1) fresh.segments =
        subst (λ (r : SegmentsCtx). Chain 0 (u32_max - 1) r.segments) (some_inj (sym e' ∙ e))
          chain in
      let b = le_times (last_packet mtu size) (mtu - 8) (omega arith) in
      let (merged, f, c, n', union) = merge_segments-union fresh g ordered (
        Chain-top 0 (last_packet mtu size) (u32_max - 1) g.segments
          (omega (arith, b, last_small, small)) h) in
      (
        fresh,
        merged,
        e,
        f,
        λ x p.
            union x
            ∙ either_covers x (last_packet mtu size) size (x * (mtu - 8)) (covered x g.segments)
                (below_last x p) p (cover x) (a.members x) (m.exact x),
      )

-- A resumed download completes the payload. Given the segments `g` of what was received before, one or
-- more, in order within the packets of the payload and with the last packet received, or the one before
-- it missing too, and
-- given the complement `missing` that apm_on_deserialize computes from them, of one to eight segments: the
-- server, asked for the intervals that `requested` writes for it, ends its transfer, and the client that
-- gets these packets records them without a fault; merged with `g`, they cover every packet of the
-- payload, and each packet carries the payload's bytes at the offset that it names. The transfer is undisturbed, with an MTU above 8, a positive throughput, no keep-alive
-- supervision, room for eight intervals in the request, a payload whose size and an MTU more fit in 32
-- bits, a floating point test that rejects a throughput of 0, and fuel for the payload's bytes.
pub resumed_transfer-completes :
    {W : Type 0} (io : ServerIo W) (floats : Floats) (ctx : TransferCtx) (g missing : SegmentsCtx)
    (fuel : ℕ) (w : W) (steady : IsSteady io)
    → 8 < ctx.request.mtu
    → ctx.request.mtu < 2 ^ 16
    → ctx.payload_meta.size + ctx.request.mtu < 2 ^ 32
    → ctx.keep_running ≡ true
    → ctx.request.keep_alive_interval ≡ 0
    → RejectsZero floats
    → 0 < ctx.request.throughput
    → ctx.request.throughput < 2 ^ 32
    → length ctx.request.intervals ≡ 8
    → Chain 0 (last_packet ctx.request.mtu ctx.payload_meta.size) g.segments
    → g.segments ≢ []
    → (covered (last_packet ctx.request.mtu ctx.payload_meta.size) g.segments ≡ true)
      ⊎ (covered (last_packet ctx.request.mtu ctx.payload_meta.size - 1) g.segments ≡ false)
    → get_complement_segment g 0 (last_packet ctx.request.mtu ctx.payload_meta.size) ≡ some missing
    → 0 < length missing.segments
    → length missing.segments ≤ 8
    → ctx.payload_meta.size ≤ fuel
    → (t : Transfer) × (w' : W) × (fresh : SegmentsCtx) × (merged : SegmentsCtx)
      × (start_sending_data io floats fuel
            (record ctx { request = requested missing ctx.request })
            w
          ≡ some (dtp_ok, t, w'))
      × (transfer (numbers ctx.request.mtu t.sent) ≡ some fresh)
      × (merge_segments fresh g ≡ some merged)
      × ((x : ℕ)
          → x * (ctx.request.mtu - 8) < ctx.payload_meta.size
          → covered x merged.segments ≡ true)
      × Genuine (payload_of steady.content ctx) t.sent
resumed_transfer-completes io floats ctx g missing fuel w steady lo hi small run quiet z t0 t1 room
      h ne c e n0 n8 f =
    let mtu : ℕ = ctx.request.mtu in
    let size : ℕ = ctx.payload_meta.size in
    let r : MetaReq = requested missing ctx.request in
    let m = complement-IsMissing mtu size lo hi small g missing h ne c e in
    let last = last_small mtu size lo hi small in
    let b = le_times (last_packet mtu size) (mtu - 8) (omega (arith, lo)) in
    let top : last_packet mtu size + 1 ≤ u32_max = omega (arith, b, last, small) in
    let (room', holds, count, same) =
      requested-first missing ctx.request room m.counted (omega (arith, n8)) in
    let n : length (first 8 missing.segments) ≡ length missing.segments =
      omega (arith, length-first 8 missing.segments, n8) in
    let mtu' : r.mtu ≡ mtu = ap (λ (q : MetaReq). q.mtu) same in
    let rate : r.throughput ≡ ctx.request.throughput = ap (λ (q : MetaReq). q.throughput) same in
    let next = next_first (last_packet mtu size) (mtu - 8) in
    let within : AllWithin r.mtu size (first 8 missing.segments) =
      subst (λ k. AllWithin k size (first 8 missing.segments)) (sym mtu')
        (first-AllWithin mtu size lo hi (omega (arith, small)) 8 0 (last_packet mtu size + 1)
          missing.segments (omega (arith, next, last)) (omega (arith, next, last, small))
          m.order) in
    let (t, w', s, d, bytes) =
      start_sending_data-Delivers io floats (record ctx { request = r }) (first 8 missing.segments)
        fuel w steady (omega (arith, mtu', lo)) (omega (arith, mtu', hi)) (omega (arith, small)) run
        (ap (λ (q : MetaReq). q.keep_alive_interval) same ∙ quiet) z (omega (arith, rate, t0))
        (omega (arith, rate, t1)) (omega (arith, n, n0)) (omega (arith, n, n8, room')) count holds
        within f in
    let d' : Delivers mtu size (first 8 missing.segments) t.sent =
      subst (λ k. Delivers k size (first 8 missing.segments) t.sent) mtu' d in
    let a =
      Delivers-Answers mtu size lo hi (omega (arith, small)) 8 0 (last_packet mtu size + 1)
        missing.segments t.sent n8 top m.order d' in
    let (fresh, merged, p, q, all) = merged_all mtu size lo hi small g missing t.sent h m a in
    (
      t,
      w',
      fresh,
      merged,
      s,
      p,
      q,
      all,
      subst (λ i. Genuine (steady.content ctx.payload_meta i) t.sent)
          (ap (λ (q : MetaReq). q.payload_id) same) bytes,
    )
