-- ===== src/Vmem/Start.antt =====
-- A start request, from the client's session to the message of the VMEM server.
use libdtp.Common.{
  ℕ, zero, suc, ◌≤◌, ◌<◌, ◌^◌, ◌≡◌, refl, ap, ap₂, ◌∙◌, List, [], ◌∷◌, some, arith, length,
  get_elem?, Host, little_endian, big_endian, htobe32, u16, ◌>>=◌, htobe16-htobe16, htobe32-htobe32,
  htobe64-htobe64,
}
use libdtp.Session.{Interval, MetaReq}
use libdtp.Vmem.{
  StartReq, Msg, swap_interval, copy_intervals, eight_at_most, start_request, start_message,
  filled_request, filled_message,
}

-- Intervals of 32-bit numbers.
abbrev pub AllWords : List Interval → Type 0
AllWords [] = Unit {0}
AllWords (v ∷ vs) = (v.start < 2 ^ 32) × (v.end < 2 ^ 32) × AllWords vs

swap-swap_interval :
    (host : Host) (v : Interval)
    → v.start < 2 ^ 32
    → v.end < 2 ^ 32
    → swap_interval host (swap_interval host v) ≡ v
swap-swap_interval host v h k =
    ap₂ (λ a b. record { start = a; end = b }) (htobe32-htobe32 host v.start h)
      (htobe32-htobe32 host v.end k)

same_first :
    {x y : Interval} {n : ℕ} (k l : List Interval)
    → x ≡ y
    → ((i : ℕ) → i < n → get_elem? k i ≡ get_elem? l i)
    → (i : ℕ) → i < suc n
    → get_elem? (x ∷ k) i ≡ get_elem? (y ∷ l) i
same_first k l e g zero h = ap some e
same_first k l e g (suc i) h = g i (omega arith)

-- Copied there and back, the first `n` intervals are the same.
copy-copy_intervals :
    (host : Host) (n : ℕ) (from mid to : List Interval)
    → n ≤ length from
    → n ≤ length mid
    → n ≤ length to
    → AllWords from
    → (l : List Interval) × (k : List Interval) × (copy_intervals host n from mid ≡ some l)
      × (copy_intervals host n l to ≡ some k)
      × ((i : ℕ) → i < n → get_elem? k i ≡ get_elem? from i)
unfolding copy_intervals
copy-copy_intervals host zero from mid to a b c w =
    (mid, to, refl, refl, λ i h. absurd (omega arith))
copy-copy_intervals host (suc n) [] mid to a b c w = absurd (omega arith)
copy-copy_intervals host (suc n) (v ∷ from) [] to a b c w = absurd (omega arith)
copy-copy_intervals host (suc n) (v ∷ from) (m ∷ mid) [] a b c w = absurd (omega arith)
copy-copy_intervals host (suc n) (v ∷ from) (m ∷ mid) (t ∷ to) a b c w =
    let (l, k, e, f, g) =
      copy-copy_intervals host n from mid to (omega arith) (omega arith) (omega arith) w.2 in
    let s : swap_interval host (swap_interval host v) ≡ v = swap-swap_interval host v w.0 w.1 in
    (
      swap_interval host v ∷ l,
      swap_interval host (swap_interval host v) ∷ k,
      rw e refl,
      rw f refl,
      λ i h. same_first k from s g i h,
    )

abbrev pub keep_alive_of : Host → ℕ → ℕ
keep_alive_of little_endian interval = 0
keep_alive_of big_endian interval = interval

keep_alive_arrives :
    (host : Host) (k : ℕ)
    → k < 2 ^ 16
    → u16 (htobe32 host (u16 (htobe32 host k))) ≡ keep_alive_of host k
keep_alive_arrives little_endian k h = omega arith
keep_alive_arrives big_endian k h = omega arith

-- What arrives of a request: all that is sent, but the keep-alive interval is 0 where the host is
-- little-endian.
pub record Arrives (host : Host) (request : MetaReq) (session_id payload_id : ℕ) (m : MetaReq)
    : Type 0 where
  pub throughput : m.throughput ≡ request.throughput
  pub mtu : m.mtu ≡ request.mtu
  pub session : m.session_id ≡ session_id
  pub payload : m.payload_id ≡ payload_id
  pub keep_alive : m.keep_alive_interval ≡ keep_alive_of host request.keep_alive_interval
  pub count : m.nof_intervals ≡ request.nof_intervals
  pub intervals :
      (i : ℕ) → i < request.nof_intervals → get_elem? m.intervals i ≡ get_elem? request.intervals i

-- A start request with eight intervals at most, between two hosts of the same byte order, becomes a
-- message for the server without an access out of bounds, where the numbers have the widths of the C types. Its address, size, throughput, MTU,
-- session identifier and intervals are the client's; the payload identifier is the one that the packet's buffer held
-- before, and the keep-alive interval is 0 on little-endian hosts.
pub start_message-start_request :
    (host : Host) (buffer request stack : MetaReq) (session_id vaddr size srv_node dest_port : ℕ)
    → request.nof_intervals ≤ 8
    → request.nof_intervals ≤ length request.intervals
    → 8 ≤ length buffer.intervals
    → 8 ≤ length stack.intervals
    → AllWords request.intervals
    → request.throughput < 2 ^ 32
    → request.mtu < 2 ^ 16
    → request.keep_alive_interval < 2 ^ 16
    → session_id < 2 ^ 32
    → size < 2 ^ 32
    → vaddr < 2 ^ 64
    → (r : StartReq) × (msg : Msg) × (start_request host buffer request session_id vaddr size
        ≡ some r)
      × (start_message host stack srv_node dest_port r ≡ some msg)
      × (msg.size ≡ size)
      × (msg.vaddr ≡ vaddr)
      × Arrives host request session_id buffer.payload_id msg.request_meta
unfolding start_request start_message
start_message-start_request host buffer request stack session_id vaddr size srv_node dest_port n8 n0
      b8 s8 w th mh kh sh zh vh =
    let n : eight_at_most request.nof_intervals ≡ request.nof_intervals = ground (arith, n8) in
    let (l, k, e, f, g) =
      copy-copy_intervals host request.nof_intervals request.intervals buffer.intervals
        stack.intervals n0 (omega (arith, n8, b8)) (omega (arith, n8, s8)) w in
    let r : StartReq = filled_request host buffer request session_id vaddr size l in
    (
      r,
      filled_message host stack srv_node dest_port r k,
      ap
            (λ c. copy_intervals host c request.intervals buffer.intervals >>= λ q.
              some (filled_request host buffer request session_id vaddr size q))
            n
          ∙ rw e refl,
      ap
            (λ c. copy_intervals host c l stack.intervals >>= λ q.
              some (filled_message host stack srv_node dest_port r q))
            n
          ∙ rw f refl,
      htobe32-htobe32 host size zh,
      htobe64-htobe64 host vaddr vh,
      record {
        throughput = htobe32-htobe32 host request.throughput th;
        mtu = htobe16-htobe16 host request.mtu mh;
        session = htobe32-htobe32 host session_id sh;
        payload = refl;
        keep_alive = keep_alive_arrives host request.keep_alive_interval kh;
        count = n;
        intervals = g;
      },
    )
